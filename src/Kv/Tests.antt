-- ===== src/Kv/Tests.antt =====
-- A bucket with one key.
use nats_ui.Prelude.{
  ◌⊎◌, ◌≢◌, is_some, String, ◌≡◌, refl, true, false, inr, none, some, [], ◌∷◌, lookup, insert,
}
use nats_ui.Publisher.Placeholders.{trim}
use nats_ui.Widgets.{IsWithin}
use nats_ui.Kv.{
  selected_index, selected_object, index_of, KvEntry, KvBucketInfo, put, State, initial_manager,
  keys_of, selected_entry, auto_select, load_editor, same_entry, deps, run_effects, handle,
  handle_cache, step, save, can_save, choose_key, type_editor, start_new_key, buckets_answered,
  keys_answered,
}
use nats_ui.Kv.Buckets.{
  KvBucketConfig, initial_form, set_name, more_history, history_stepper, replicas_stepper,
  all_name_chars, valid_name, create, edit, run_edits, create-IsSafe,
}
use nats_ui.Kv.Laws.{IsValid, run, run-IsValid}
use nats_ui.Kv.Editing.{value_of, choose_key-saves, keys_answered-editor}

abbrev entry : String → KvEntry
entry value = record {
  bucket = "b";
  key = "k";
  value = value;
  revision = 1;
  created = "";
  operation = put;
  size = 1;
}

abbrev bucket : KvBucketInfo
bucket = record { bucket = "b"; values = 1; history = 1; ttl = 0; bytes = 1; replicas = 1 }

abbrev start_state : State
start_state = record { cache = record { buckets = none; keys = [] }; manager = initial_manager }

abbrev shown : State
shown = run (buckets_answered (bucket ∷ []) ∷ keys_answered "b" (entry "v" ∷ []) ∷ []) start_state

shown_tests :
    (shown.manager.bucket ≡ "b")
    × ((step shown (choose_key "k")).manager.editor ≡ "v")
    × ((save (step shown start_new_key).manager).1 ≡ none)
unfolding step handle handle_cache run_effects deps selected_object selected_index index_of
    auto_select load_editor selected_entry keys_of save initial_manager lookup insert trim
shown_tests = (refl, refl, refl)

form_tests :
    ((create (run_edits (set_name "a b" ∷ []) initial_form)).1 ≡ none)
    × (valid_name (trim " a-1 ") ≡ true)
unfolding create run_edits edit initial_form valid_name all_name_chars trim
form_tests = (refl, refl)

abbrev shown_state : State
shown_state = record {
  cache = record { buckets = some (bucket ∷ []); keys = ("b", entry "v" ∷ []) ∷ [] };
  manager = record {
    bucket = "b";
    selected_key = none;
    creating_key = false;
    new_key_name = "";
    editor = "";
    filter = "";
    show_new_bucket = false;
    err = "";
  };
}

run-IsValid_example : IsValid (run (start_new_key ∷ choose_key "k" ∷ []) start_state)
unfolding initial_manager
run-IsValid_example =
    run-IsValid (start_new_key ∷ choose_key "k" ∷ []) start_state
      (record { one_key = λ h. refl; chosen = λ h. refl })

found :
    selected_entry shown_state.cache (handle (choose_key "k") shown_state.manager)
    ≡ some (entry "v")
unfolding selected_entry keys_of handle lookup
found = refl

choose_key-saves_example :
    let opened = step shown_state (choose_key "k") in
    let typed = step opened (type_editor "w") in
    (opened.manager.editor ≡ "v")
    × (can_save opened.cache opened.manager ≡ false)
    × (can_save typed.cache typed.manager ≡ true)
    × ((save typed.manager).1 ≡ some (record { bucket = "b"; key = trim "k"; value = "w" }))
unfolding trim
choose_key-saves_example =
    choose_key-saves shown_state "k" "w" (entry "v") refl found (inr (λ h. cc)) refl

keys_answered-editor_example :
    let answered = step shown_state (keys_answered "b" (entry "x" ∷ [])) in
    let old = selected_entry shown_state.cache shown_state.manager in
    let new = selected_entry answered.cache shown_state.manager in
    let place = selected_index shown_state.cache shown_state.manager in
    let place' = selected_index answered.cache shown_state.manager in
    (same_entry old new ≡ true
      → (is_some old ≡ false) ⊎ (place ≡ place')
      → answered.manager.editor ≡ "")
    × (same_entry old new ≡ false → answered.manager.editor ≡ value_of new)
    × (is_some old ≡ true → place ≢ place' → answered.manager.editor ≡ value_of new)
keys_answered-editor_example = keys_answered-editor shown_state "b" (entry "x" ∷ []) refl refl

create-IsSafe_example :
    let f = run_edits (set_name "a" ∷ more_history ∷ []) initial_form in
    (valid_name (trim f.name) ≡ false → (create f).1 ≡ none)
    × (valid_name (trim f.name) ≡ true
        → (b : KvBucketConfig) × ((create f).1 ≡ some b)
          × (b.bucket ≡ trim f.name)
          × IsWithin history_stepper b.history
          × IsWithin replicas_stepper b.replicas)
create-IsSafe_example = create-IsSafe (set_name "a" ∷ more_history ∷ [])
