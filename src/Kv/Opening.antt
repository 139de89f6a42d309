-- ===== src/Kv/Opening.antt =====
-- Opening a key: what the effects see of it, and what is saved of an open key.
use nats_ui.Prelude.{
  ℕ, String, str_eq, str_eq_iff, ◌≡◌, ◌≢◌, refl, ap, ◌∙◌, ◌⊎◌, inl, inr, Bool, true, false, not,
  ◌&&◌, ◌||◌, Option, none, some, List, [], ◌∷◌, find?, Bool-cases, Option-cases,
}
use nats_ui.Publisher.Placeholders.{trim}
use nats_ui.Kv.{
  KvEntry, selected_object, selected_index, Cache, Manager, State, keys_of, is_key, selected_entry,
  load_editor, same_deps, deps, handle, handle_cache, step, save, dirty, can_save, choose_key,
}
use nats_ui.Kv.Effects.{run_effects-changed}

find-key :
    (o : Option String) (es : List KvEntry) (e : KvEntry)
    → find? (is_key o) es ≡ some e
    → o ≡ some e.key
find-key o [] e h = cc
find-key none (x ∷ es) e h = find-key none es e h
find-key (some k) (x ∷ es) e h = elim (Bool-cases (str_eq x.key k)) [
  | inl is ↦ let same = (str_eq_iff x.key k).0 is in let found : some x ≡ some e = rw is at h in cc
  | inr other ↦ find-key (some k) es e (rw other at h)
]

selected_entry-key :
    (c : Cache) (s : Manager) (e : KvEntry)
    → selected_entry c s ≡ some e
    → s.selected_key ≡ some e.key
unfolding selected_entry
selected_entry-key c s e h = elim (Option-cases (keys_of c s)) [
  | inl n ↦ let missing : none ≡ some e = rw (selected_entry, n) at h in cc
  | inr (es, n) ↦ find-key s.selected_key es e (rw (selected_entry, n) at h)
]

or-false : (b : Bool) → (b || false) ≡ b
or-false true = refl
or-false false = refl

pub and-false : (b : Bool) → (b && false) ≡ false
and-false true = refl
and-false false = refl

pub or-true : (b : Bool) → (b || true) ≡ true
or-true true = refl
or-true false = refl

-- The key `k` is not the one that is open.
abbrev pub IsOther : String → Manager → Type 0
IsOther k s = (s.creating_key ≡ true) ⊎ (s.selected_key ≢ some k)

deps-other :
    (k : String) (c : Cache) (s : Manager) (e : KvEntry)
    → e.key ≡ k
    → IsOther k s
    → (bucket : String) (index : ℕ)
    → same_deps (deps c s) (record { bucket = bucket; index = index; entry = some e }, false)
      ≡ false
unfolding deps selected_object
deps-other k c s e key (inl creating) bucket index = rw creating (and-false _)
deps-other k c s e key (inr other) bucket index = elim (Option-cases (selected_entry c s)) [
  | inl n ↦ rw n refl
  | inr (x, n) ↦ elim (Bool-cases (str_eq x.key e.key)) [
    | inl same ↦
        absurd
          (other (selected_entry-key c s x n ∙ ap some ((str_eq_iff x.key e.key).0 same ∙ key)))
    | inr d ↦ rw (n, d) refl
  ]
]

deps-found :
    (c : Cache) (s : Manager) (o : Option KvEntry)
    → selected_entry c s ≡ o
    → s.creating_key ≡ false
    → deps c s ≡ (record { bucket = s.bucket; index = selected_index c s; entry = o }, false)
unfolding deps selected_object
deps-found c s o found e =
    λ i. (record { bucket = s.bucket; index = selected_index c s; entry = found i }, e i)

-- Where the bucket lists the key `k`, and it is not open, opening it loads its value.
pub step-choose_key :
    (st : State) (k : String) (e : KvEntry)
    → str_eq st.manager.bucket "" ≡ false
    → selected_entry st.cache (handle (choose_key k) st.manager) ≡ some e
    → IsOther k st.manager
    → (step st (choose_key k)).manager ≡ record (st.manager) {
      creating_key = false;
      selected_key = some k;
      editor = e.value;
      err = "";
    }
unfolding step handle handle_cache load_editor
step-choose_key st k e b found other =
    let s : Manager = record (st.manager) { creating_key = false; selected_key = some k } in
    let same : some k ≡ some e.key = selected_entry-key st.cache s e found in
    let key : e.key ≡ k = cc in
    let now = deps-found st.cache s (some e) found refl in
    run_effects-changed (deps st.cache st.manager) st.cache s b
      (rw now (deps-other k st.cache st.manager e key other s.bucket (selected_index st.cache s)))
    ∙ rw (load_editor, found) refl

pub save-of_open :
    (s : Manager) (k : String)
    → s.creating_key ≡ false
    → s.selected_key ≡ some k
    → str_eq (trim k) "" ≡ false
    → (save s).1 ≡ some (record { bucket = s.bucket; key = trim k; value = s.editor })
unfolding save
save-of_open s k new open_key filled = rw (save, new, open_key, filled) refl

pub can_save-of_open :
    (c : Cache) (s : Manager) (e : KvEntry)
    → s.creating_key ≡ false
    → selected_entry c s ≡ some e
    → can_save c s ≡ not (str_eq s.editor e.value)
unfolding can_save dirty
can_save-of_open c s e new found =
    rw (can_save, dirty, found, new) (or-false (not (str_eq s.editor e.value)))
