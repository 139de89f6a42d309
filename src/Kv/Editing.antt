-- ===== src/Kv/Editing.antt =====
-- The editor of a key: what it shows, what it saves, and what overwrites it.
use nats_ui.Prelude.{
  arith, is_some, ==_iff, ◌==◌, String, str_eq, str_eq_refl, ◌≡◌, ◌≢◌, refl, ap, ◌∙◌, ◌⊎◌, inl, inr,
  Bool, true, false, not, ◌&&◌, Option, none, some, List, Option-cases,
}
use nats_ui.Publisher.Placeholders.{trim}
use nats_ui.Kv.{
  KvEntry, same_selected, selected_object, selected_index, Cache, Manager, State, keys_of,
  selected_entry, load_editor, same_entry, same_deps, deps, handle, handle_cache, step, save,
  can_save, choose_key, type_editor, keys_answered,
}
use nats_ui.Kv.Effects.{run_effects-same, run_effects-changed, step-type_editor}
use nats_ui.Kv.Opening.{
  and-false, or-true, IsOther, step-choose_key, save-of_open, can_save-of_open,
}

-- The key `k`, open with its value in the editor, and what the calls below do not change.
opened_manager : Manager → String → String → Manager
opened_manager s k v = record s {
  creating_key = false;
  selected_key = some k;
  editor = v;
  err = "";
}

opened-found :
    (c : Cache) (s : Manager) (k v : String)
    → selected_entry c (opened_manager s k v) ≡ selected_entry c (handle (choose_key k) s)
unfolding selected_entry keys_of opened_manager handle
opened-found c s k v = refl

opened-can_save :
    (c : Cache) (s : Manager) (k v : String) (e : KvEntry)
    → selected_entry c (handle (choose_key k) s) ≡ some e
    → can_save c (opened_manager s k v) ≡ not (str_eq v e.value)
unfolding opened_manager
opened-can_save c s k v e found =
    can_save-of_open c (opened_manager s k v) e refl (opened-found c s k v ∙ found)

opened-save :
    (s : Manager) (k v : String)
    → str_eq (trim k) "" ≡ false
    → (save (opened_manager s k v)).1 ≡ some (record { bucket = s.bucket; key = trim k; value = v })
unfolding opened_manager
opened-save s k v filled = save-of_open (opened_manager s k v) k refl refl filled

-- The states after opening a key, and after typing then.
opened-state :
    (st : State) (k : String) (e : KvEntry)
    → str_eq st.manager.bucket "" ≡ false
    → selected_entry st.cache (handle (choose_key k) st.manager) ≡ some e
    → IsOther k st.manager
    → step st (choose_key k)
      ≡ record { cache = st.cache; manager = opened_manager st.manager k e.value }
unfolding opened_manager step handle_cache
opened-state st k e b found other =
    λ i. record { cache = st.cache; manager = step-choose_key st k e b found other i }

typed-state :
    (c : Cache) (s : Manager) (k v w : String)
    → str_eq s.bucket "" ≡ false
    → step (record { cache = c; manager = opened_manager s k v }) (type_editor w)
      ≡ record { cache = c; manager = opened_manager s k w }
unfolding opened_manager step handle_cache
typed-state c s k v w b = λ i. record {
  cache = c;
  manager = step-type_editor (record { cache = c; manager = opened_manager s k v }) w b i;
}

-- Where a bucket is chosen and lists the key `k`, which is not open: opening it shows its value, and
-- there is nothing to save. What is typed then can be saved exactly where it differs from the value,
-- and goes to this key of this bucket.
pub choose_key-saves :
    (st : State) (k v : String) (e : KvEntry)
    → str_eq st.manager.bucket "" ≡ false
    → selected_entry st.cache (handle (choose_key k) st.manager) ≡ some e
    → IsOther k st.manager
    → str_eq (trim k) "" ≡ false
    → let opened = step st (choose_key k) in
      let typed = step opened (type_editor v) in
      (opened.manager.editor ≡ e.value)
      × (can_save opened.cache opened.manager ≡ false)
      × (can_save typed.cache typed.manager ≡ not (str_eq v e.value))
      × ((save typed.manager).1
          ≡ some (record { bucket = st.manager.bucket; key = trim k; value = v }))
choose_key-saves st k v e b found other filled =
    let c = st.cache in
    let s = st.manager in
    rw (opened-state st k e b found other, typed-state c s k e.value v b)
      (
        (unfold opened_manager in refl),
        opened-can_save c s k e.value e found ∙ ap not (str_eq_refl e.value),
        opened-can_save c s k v e found,
        opened-save s k v filled,
      )

-- What the editor shows of an entry.
abbrev pub value_of : Option KvEntry → String
value_of none = ""
value_of (some e) = e.value

load_editor-editor :
    (c : Cache) (s : Manager)
    → s.creating_key ≡ false
    → (load_editor c s).editor ≡ value_of (selected_entry c s)
unfolding load_editor selected_entry keys_of
load_editor-editor c s e = elim (Option-cases (selected_entry c s)) [
  | inl n ↦ rw (load_editor, e, n) refl
  | inr (x, n) ↦ rw (load_editor, e, n) refl
]

and-true : (b : Bool) → (b && true) ≡ b
and-true true = refl
and-true false = refl

same_deps-found :
    (c c' : Cache) (s : Manager)
    → s.creating_key ≡ false
    → same_deps (deps c s) (deps c' s) ≡ same_selected (selected_object c s) (selected_object c' s)
unfolding deps keys_of
same_deps-found c c' s e =
    rw e (and-true (same_selected (selected_object c s) (selected_object c' s)))

-- While no new key is written, a new answer for the keys keeps what is in the editor where the open
-- entry has the same fields as before, or there is none as before, and stands at the same place of the
-- list. It puts the entry's value, or nothing, in its place where a field differs; and also where the
-- entry is the same but a key that was added or removed in front of it has moved it.
pub keys_answered-editor :
    (st : State) (b : String) (es : List KvEntry)
    → str_eq st.manager.bucket "" ≡ false
    → st.manager.creating_key ≡ false
    → let answered = step st (keys_answered b es) in
      let old = selected_entry st.cache st.manager in
      let new = selected_entry answered.cache st.manager in
      let place = selected_index st.cache st.manager in
      let place' = selected_index answered.cache st.manager in
      (same_entry old new ≡ true
        → (is_some old ≡ false) ⊎ (place ≡ place')
        → answered.manager.editor ≡ st.manager.editor)
      × (same_entry old new ≡ false → answered.manager.editor ≡ value_of new)
      × (is_some old ≡ true → place ≢ place' → answered.manager.editor ≡ value_of new)
unfolding step handle selected_object
keys_answered-editor st b es chosen new =
    let c = handle_cache (keys_answered b es) st.cache in
    let same = same_deps-found st.cache c st.manager new in
    let d = deps st.cache st.manager in
    let kept = λ (h : same_deps d (deps c st.manager) ≡ true).
      ap (λ m. m.editor) (run_effects-same d c st.manager chosen h) in
    let changed = λ (h : same_deps d (deps c st.manager) ≡ false).
      ap (λ m. m.editor) (run_effects-changed d c st.manager chosen h)
      ∙ load_editor-editor c st.manager new in
    let p = selected_index st.cache st.manager in
    let p' = selected_index c st.manager in
    let bucket = str_eq_refl st.manager.bucket in
    (
      λ h here. kept (
          same ∙ elim here [
            | inl missing ↦ rw (h, missing) refl
            | inr at_place ↦ rw (h, bucket, (==_iff p p').1 at_place) (or-true _)
          ]),
      λ h. changed (same ∙ rw h refl),
      λ there moved.
          let other : p == p' ≡ false = ground (arith, moved) in
          changed (same ∙ rw (there, bucket, other) (and-false _)),
    )
