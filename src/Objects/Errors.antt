-- ===== src/Objects/Errors.antt =====
-- What the view of objects shows of its errors, and what it deletes.
use nats_ui.Prelude.{
  str_eq, str_eq_iff, ◌≡◌, refl, sym, ◌∙◌, inl, inr, true, false, none, List, [], ◌∷◌, or_else,
  Bool-cases, Option-cases, arith,
}
use nats_ui.Publisher.Placeholders.{trim}
use nats_ui.Objects.{
  Objects, first_bucket, auto_select, upload, save_text, del_obj, Event, press_save, handle, step,
  run,
}

-- No object is selected while a text is written, and a bucket is chosen once one is known.
pub record IsSound (s : Objects) : Type 0 where
  pub one_pane : s.creating_text ≡ true → s.selected ≡ none
  pub chosen : str_eq s.bucket "" ≡ true → or_else (first_bucket s.buckets) "" ≡ ""

auto_select-chosen :
    (s : Objects)
    → str_eq (auto_select s).bucket "" ≡ true
    → or_else (first_bucket (auto_select s).buckets) "" ≡ ""
unfolding auto_select
auto_select-chosen s = elim (Option-cases (first_bucket s.buckets)) [
  | inl e ↦ λ h. rw (auto_select, e) (rw e refl)
  | inr (b, e) ↦ elim (Bool-cases (str_eq s.bucket "")) [
    | inl k ↦ λ h. rw (auto_select, e, k) (rw e ((str_eq_iff b "").0 (rw (auto_select, e, k) at h)))
    | inr k ↦ λ h. absurd (ground (arith, k, (rw (auto_select, e, k) at h)))
  ]
]

-- The effect changes the bucket only.
pub auto_select-others :
    (s : Objects)
    → ((auto_select s).creating_text ≡ s.creating_text)
      × ((auto_select s).selected ≡ s.selected)
      × ((auto_select s).err ≡ s.err)
unfolding auto_select
auto_select-others s = elim (Option-cases (first_bucket s.buckets)) [
  | inl e ↦ rw (auto_select, e) (refl, refl, refl)
  | inr (b, e) ↦ elim (Bool-cases (str_eq s.bucket "")) [
    | inl k ↦ rw (auto_select, e, k) (refl, refl, refl)
    | inr k ↦ rw (auto_select, e, k) (refl, refl, refl)
  ]
]

save_text-others :
    (s : Objects)
    → ((save_text s).0.creating_text ≡ s.creating_text) × ((save_text s).0.selected ≡ s.selected)
unfolding save_text
save_text-others s = elim (Bool-cases (str_eq (trim s.new_name) "")) [
  | inl e ↦ rw (save_text, e) (refl, refl)
  | inr e ↦ rw (save_text, e) (refl, refl)
]

handle-one_pane :
    (e : Event) (s : Objects)
    → (s.creating_text ≡ true → s.selected ≡ none)
    → (handle e s).creating_text ≡ true
    → (handle e s).selected ≡ none
unfolding handle upload del_obj
handle-one_pane press_save s h k =
    let (creating, selected) = save_text-others s in selected ∙ h (sym creating ∙ k)
handle-one_pane e s h k = ground arith

step-IsSound :
    (e : Event) (s : Objects) → (s.creating_text ≡ true → s.selected ≡ none) → IsSound (step e s)
unfolding step
step-IsSound e s h =
    let (creating, selected, err) = auto_select-others (handle e s) in
    record {
      one_pane = λ k. selected ∙ handle-one_pane e s h (sym creating ∙ k);
      chosen = auto_select-chosen (handle e s);
    }

-- Whatever happens to a valid state, no object is selected while a text is written, and a bucket is
-- chosen once one with a name is known.
run-IsSound : (es : List Event) (s : Objects) → IsSound s → IsSound (run es s)
unfolding run
run-IsSound [] s h = h
run-IsSound (e ∷ es) s h = run-IsSound es (step e s) (step-IsSound e s h.one_pane)

-- A bucket that has a name is kept by the effect.
pub auto_select-bucket :
    (s : Objects) → str_eq s.bucket "" ≡ false → (auto_select s).bucket ≡ s.bucket
unfolding auto_select
auto_select-bucket s h = elim (Option-cases (first_bucket s.buckets)) [
  | inl e ↦ rw (auto_select, e) refl
  | inr (b, e) ↦ rw (auto_select, e, h) refl
]
