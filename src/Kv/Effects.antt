-- ===== src/Kv/Effects.antt =====
-- The effects of the browser of buckets, where a bucket is chosen.
use nats_ui.Prelude.{
  ◌||◌, not, is_some, String, str_eq, str_eq_refl, ◌≡◌, refl, inl, inr, Bool, true, false, Option,
  none, some, ==_iff, Option-cases,
}
use nats_ui.Kv.{
  KvEntry, Selected, Deps, same_selected, selected_object, selected_index, Cache, Manager, State,
  keys_of, selected_entry, first_bucket, auto_select, load_editor, same_entry, same_operation, put,
  delete, purge, Operation, same_deps, deps, run_effects, handle, handle_cache, step, type_editor,
}

same_operation_refl : (o : Operation) → same_operation o o ≡ true
same_operation_refl put = refl
same_operation_refl delete = refl
same_operation_refl purge = refl

pub same_entry_refl : (o : Option KvEntry) → same_entry o o ≡ true
same_entry_refl none = refl
same_entry_refl (some e) =
    rw
      (
        str_eq_refl e.key,
        str_eq_refl e.value,
        (==_iff e.revision e.revision).1 refl,
        str_eq_refl e.bucket,
        str_eq_refl e.created,
        same_operation_refl e.operation,
        (==_iff e.size e.size).1 refl,
      )
      refl

or_true : (b : Bool) → (b || true) ≡ true
or_true true = refl
or_true false = refl

same_selected_refl : (o : Selected) → same_selected o o ≡ true
same_selected_refl o =
    rw (same_entry_refl o.entry, str_eq_refl o.bucket, (==_iff o.index o.index).1 refl)
      (or_true (not (is_some o.entry)))

same_deps_refl : (d : Deps) → same_deps d d ≡ true
same_deps_refl (o, true) = rw (same_selected_refl o) refl
same_deps_refl (o, false) = rw (same_selected_refl o) refl

auto_select-of_chosen : (c : Cache) (s : Manager) → str_eq s.bucket "" ≡ false → auto_select c s ≡ s
unfolding auto_select
auto_select-of_chosen c s e = elim (Option-cases (first_bucket c.buckets)) [
  | inl n ↦ rw (auto_select, n) refl
  | inr (b, n) ↦ rw (auto_select, n, e) refl
]

-- The effects, where a bucket is chosen.
pub run_effects-same :
    (d : Deps) (c : Cache) (s : Manager)
    → str_eq s.bucket "" ≡ false
    → same_deps d (deps c s) ≡ true
    → run_effects d c s ≡ s
unfolding run_effects
run_effects-same d c s b e = rw (run_effects, auto_select-of_chosen c s b, e) refl

pub run_effects-changed :
    (d : Deps) (c : Cache) (s : Manager)
    → str_eq s.bucket "" ≡ false
    → same_deps d (deps c s) ≡ false
    → run_effects d c s ≡ load_editor c s
unfolding run_effects
run_effects-changed d c s b e = rw (run_effects, auto_select-of_chosen c s b, e) refl

-- Typing is not undone by the effects.
pub step-type_editor :
    (st : State) (v : String)
    → str_eq st.manager.bucket "" ≡ false
    → (step st (type_editor v)).manager ≡ record (st.manager) { editor = v }
unfolding step handle handle_cache deps selected_object selected_entry selected_index keys_of
step-type_editor st v b =
    run_effects-same (deps st.cache st.manager) st.cache (record (st.manager) { editor = v }) b
      (same_deps_refl (deps st.cache st.manager))
