-- ===== src/Objects/Late.antt =====
-- Errors that the view of objects keeps to itself, and answers that come late.
use nats_ui.Prelude.{
  ℕ, String, str_eq, str_eq_iff, ◌≡◌, refl, ap, ◌∙◌, Bool, true, false, Option, none, some, List,
  [], ◌∷◌, if◌then◌else◌,
}
use nats_ui.Publisher.Placeholders.{trim}
use nats_ui.Objects.{
  Objects, put_file, bytes_to_b64, auto_select, upload, save_text, press_save, press_delete,
  press_upload, save_failed, choose_bucket, choose_object, delete_done, upload_done, handle, step,
  run, open_object, shown_error,
}
use nats_ui.Objects.Errors.{auto_select-others, auto_select-bucket}

-- What is shown of an error, by the three fields that it depends on.
abbrev shown_of : Bool → Option String → String → Option String
shown_of creating selected err =
    elim (if creating
      then none
      else elim selected [ none ↦ none | some k ↦ if str_eq k "" then none else some k ]) [
        | none ↦ none
        | some k ↦ if str_eq err "" then none else some err
      ]

shown_error-auto_select : (s : Objects) → shown_error (auto_select s) ≡ shown_error s
unfolding shown_error open_object
shown_error-auto_select s =
    let (creating, selected, err) = auto_select-others s in
    λ i. shown_of (creating i) (selected i) (err i)

hidden : (s : Objects) → s.creating_text ≡ true → shown_error s ≡ none
unfolding shown_error open_object
hidden s h = rw (shown_error, open_object, h) refl

-- While a text object is written, neither a missing name, which makes no call, nor a failed call shows
-- an error; the missing name, and a message of the failed call that is not empty, are told once some
-- object is opened. The second half holds whatever name was typed.
pub shown_error-press_save :
    (s : Objects) (name message : String)
    → s.creating_text ≡ true
    → str_eq name "" ≡ false
    → str_eq message "" ≡ false
    → (str_eq (trim s.new_name) "" ≡ true
        → ((save_text s).1 ≡ none)
          × (shown_error (step press_save s) ≡ none)
          × (shown_error (step (choose_object name) (step press_save s))
              ≡ some "Object name is required"))
      × ((shown_error (step (save_failed message) s) ≡ none)
          × (shown_error (step (choose_object name) (step (save_failed message) s)) ≡ some message))
unfolding step handle save_text shown_error open_object
shown_error-press_save s name message creating named told = (
  (λ blank.
      let refused : (save_text s).0 ≡ record s { err = "Object name is required" } =
        rw (save_text, blank) refl in
      let err = (auto_select-others (save_text s).0).2 ∙ ap (λ o. o.err) refused in
      (
        rw (save_text, blank) refl,
        shown_error-auto_select (save_text s).0
            ∙ hidden (save_text s).0 (ap (λ o. o.creating_text) refused ∙ creating),
        shown_error-auto_select (handle (choose_object name) (step press_save s))
            ∙ rw (shown_error, open_object, named, err) refl,
      )),
  (
    shown_error-auto_select (handle (save_failed message) s)
        ∙ hidden (handle (save_failed message) s) creating,
    (let err = (auto_select-others (handle (save_failed message) s)).2 in
        shown_error-auto_select (handle (choose_object name) (step (save_failed message) s))
        ∙ rw (shown_error, open_object, named, err, told) refl),
  ),
)

-- An answer that comes late changes what is open by then: once an object is deleted, the object that
-- was opened during the call is closed, and a file that was uploaded to one bucket is opened in the
-- other one that was chosen during the call, which has a name.
upload_done-choose_bucket :
    (s : Objects) (deleted opened bucket name : String) (btoa : List ℕ → String) (bytes : List ℕ)
    → str_eq bucket "" ≡ false
    → let late =
        run (press_upload btoa name bytes ∷ choose_bucket bucket ∷ upload_done name ∷ []) s in
      ((run
          (press_delete deleted ∷ choose_object opened ∷ delete_done (some deleted) deleted ∷ [])
          s).selected
        ≡ none)
      × ((upload btoa name bytes s).1 ≡ some (put_file s.bucket name (bytes_to_b64 btoa bytes)))
      × (late.bucket ≡ bucket)
      × (late.selected ≡ some name)
unfolding run step handle upload
upload_done-choose_bucket s deleted opened bucket name btoa bytes named =
    let chosen = handle (choose_bucket bucket) (step (press_upload btoa name bytes) s) in
    let answered = handle (upload_done name) (auto_select chosen) in
    let deletion = step (choose_object opened) (step (press_delete deleted) s) in
    let kept : answered.bucket ≡ bucket = auto_select-bucket chosen named in
    let same : str_eq deleted deleted ≡ true = (str_eq_iff deleted deleted).1 refl in
    (
      (auto_select-others (handle (delete_done (some deleted) deleted) deletion)).1 ∙ rw same refl,
      refl,
      auto_select-bucket answered (rw kept named) ∙ kept,
      (auto_select-others answered).1,
    )
