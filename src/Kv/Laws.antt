-- ===== src/Kv/Laws.antt =====
-- What the browser of buckets shows and saves.
use nats_ui.Prelude.{
  str_eq, str_eq_iff, ◌≡◌, refl, sym, ◌∙◌, inl, inr, true, none, some, List, [], ◌∷◌, or_else,
  Bool-cases, Option-cases, arith,
}
use nats_ui.Kv.{
  Deps, KvBucketInfo, Cache, Manager, State, Event, first_bucket, auto_select, load_editor,
  same_deps, deps, run_effects, handle, handle_cache, step, bucket_deleted,
}

-- No key is open while a new one is written, and a bucket is chosen once one is known.
pub record IsValid (st : State) : Type 0 where
  pub one_key : st.manager.creating_key ≡ true → st.manager.selected_key ≡ none
  pub chosen : str_eq st.manager.bucket "" ≡ true → or_else (first_bucket st.cache.buckets) "" ≡ ""

auto_select-chosen :
    (c : Cache) (s : Manager)
    → str_eq (auto_select c s).bucket "" ≡ true
    → or_else (first_bucket c.buckets) "" ≡ ""
unfolding auto_select
auto_select-chosen c s = elim (Option-cases (first_bucket c.buckets)) [
  | inl e ↦ λ h. rw e refl
  | inr (b, e) ↦ elim (Bool-cases (str_eq s.bucket "")) [
    | inl k ↦ λ h. rw e ((str_eq_iff b "").0 (rw (auto_select, e, k) at h))
    | inr k ↦ λ h. absurd (ground (arith, k, (rw (auto_select, e, k) at h)))
  ]
]

auto_select-flags :
    (c : Cache) (s : Manager)
    → ((auto_select c s).creating_key ≡ s.creating_key)
      × ((auto_select c s).selected_key ≡ s.selected_key)
unfolding auto_select
auto_select-flags c s = elim (Option-cases (first_bucket c.buckets)) [
  | inl e ↦ rw (auto_select, e) (refl, refl)
  | inr (b, e) ↦ elim (Bool-cases (str_eq s.bucket "")) [
    | inl k ↦ rw (auto_select, e, k) (refl, refl)
    | inr k ↦ rw (auto_select, e, k) (refl, refl)
  ]
]

load_editor-flags :
    (c : Cache) (s : Manager)
    → ((load_editor c s).creating_key ≡ s.creating_key)
      × ((load_editor c s).selected_key ≡ s.selected_key)
      × ((load_editor c s).bucket ≡ s.bucket)
unfolding load_editor
load_editor-flags c s = elim (Bool-cases s.creating_key) [
  | inl e ↦ rw (load_editor, e) (refl, refl, refl)
  | inr e ↦ rw (load_editor, e) (refl, refl, refl)
]

-- The effects change the bucket, the editor and the error only.
run_effects-flags :
    (d : Deps) (c : Cache) (s : Manager)
    → ((run_effects d c s).creating_key ≡ s.creating_key)
      × ((run_effects d c s).selected_key ≡ s.selected_key)
      × ((run_effects d c s).bucket ≡ (auto_select c s).bucket)
unfolding run_effects
run_effects-flags d c s =
    let (creating, selected) = auto_select-flags c s in
    elim (Bool-cases (same_deps d (deps c (auto_select c s)))) [
      | inl e ↦ rw (run_effects, e) (creating, selected, refl)
      | inr e ↦
          let (creating', selected', bucket) = load_editor-flags c (auto_select c s) in
          rw (run_effects, e) (creating' ∙ creating, selected' ∙ selected, bucket)
    ]

handle-one_key :
    (e : Event) (s : Manager)
    → (s.creating_key ≡ true → s.selected_key ≡ none)
    → (handle e s).creating_key ≡ true
    → (handle e s).selected_key ≡ none
unfolding handle
handle-one_key e s h k = ground arith

step-IsValid :
    (st : State) (e : Event)
    → (st.manager.creating_key ≡ true → st.manager.selected_key ≡ none)
    → IsValid (step st e)
unfolding step
step-IsValid st e h =
    let c = handle_cache e st.cache in
    let s = handle e st.manager in
    let (creating, selected, bucket) = run_effects-flags (deps st.cache st.manager) c s in
    record {
      one_key = λ k. selected ∙ handle-one_key e st.manager h (sym creating ∙ k);
      chosen = λ k. auto_select-chosen c s (rw (sym bucket) k);
    }

abbrev pub run : List Event → State → State
run [] st = st
run (e ∷ es) st = run es (step st e)

-- Whatever happens to a valid state, no key is open while a new one is written, and a bucket is chosen
-- once one with a name is known.
pub run-IsValid : (es : List Event) (st : State) → IsValid st → IsValid (run es st)
run-IsValid [] st h = h
run-IsValid (e ∷ es) st h = run-IsValid es (step st e) (step-IsValid st e h.one_key)

-- Deleting a bucket goes to the first bucket that is still listed, which may be the deleted one.
pub bucket_deleted-reselects :
    (st : State) (b : KvBucketInfo) (bs : List KvBucketInfo)
    → st.cache.buckets ≡ some (b ∷ bs)
    → (step st bucket_deleted).manager.bucket ≡ b.bucket
unfolding step auto_select handle handle_cache
bucket_deleted-reselects st b bs e =
    let s : Manager = record (st.manager) { bucket = ""; selected_key = none } in
    (run_effects-flags (deps st.cache st.manager) st.cache s).2 ∙ rw (auto_select, e) refl
