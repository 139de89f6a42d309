-- ===== src/Streams/Selection.antt =====
-- What saving an edit changes after another stream was selected.
use nats_ui.Prelude.{ℤ, ℕ, String, ◌≡◌, refl, ap, ◌∙◌, Bool, false, Option, none, some, List, find?}
use nats_ui.Types.Streams.{StreamInfo}
use nats_ui.Streams.Forms.{EditForm, edit_form, update_config}
use nats_ui.Streams.{
  Explorer, is_selected, shown, render, select, start_edit, handle, step, save_edit,
}

-- The stream is in the list, as the first of its name.
abbrev pub IsListed : StreamInfo → List StreamInfo → Type 0
IsListed s streams = find? (is_selected (some s.config.name)) streams ≡ some s

-- The explorer with the detail of a stream, and what is edited in it.
showing : Explorer → StreamInfo → Bool → Option EditForm → Explorer
showing e s exporting editing = record e {
  selected_stream = some s.config.name;
  show_create = false;
  detail = some (record { editing = editing; exporting = exporting });
}

shown-showing :
    (streams : List StreamInfo) (e : Explorer) (s : StreamInfo) (x : Bool) (f : Option EditForm)
    → IsListed s streams
    → shown streams (showing e s x f) ≡ some s
unfolding shown showing
shown-showing streams e s x f h = h

render-showing :
    (streams : List StreamInfo) (e : Explorer) (s : StreamInfo) (x : Bool) (f : Option EditForm)
    → IsListed s streams
    → render streams (showing e s x f) ≡ showing e s x f
unfolding render shown showing
render-showing streams e s x f h = rw h refl

step-select :
    (streams : List StreamInfo) (e : Explorer) (s t : StreamInfo) (x : Bool) (f : Option EditForm)
    → IsListed t streams
    → step streams (showing e s x f) (select t.config.name) ≡ showing e t x f
unfolding step handle showing
step-select streams e s t x f h = render-showing streams e t x f h

handle-start_edit :
    (streams : List StreamInfo) (e : Explorer) (s : StreamInfo) (x : Bool) (f : Option EditForm)
    → IsListed s streams
    → handle start_edit streams (showing e s x f) ≡ showing e s x (some (edit_form s.config))
unfolding handle shown showing
handle-start_edit streams e s x f h = rw (handle, h) refl

step-start_edit :
    (streams : List StreamInfo) (e : Explorer) (s : StreamInfo) (x : Bool) (f : Option EditForm)
    → IsListed s streams
    → step streams (showing e s x f) start_edit ≡ showing e s x (some (edit_form s.config))
unfolding step
step-start_edit streams e s x f h =
    ap (render streams) (handle-start_edit streams e s x f h)
    ∙ render-showing streams e s x (some (edit_form s.config)) h

save_edit-showing :
    (number : String → ℤ) (parse_int : String → Option ℕ) (streams : List StreamInfo) (e : Explorer)
    (s : StreamInfo) (x : Bool) (f : EditForm)
    → IsListed s streams
    → save_edit number parse_int streams (showing e s x (some f))
      ≡ some (s.config.name, update_config number parse_int f s.config)
unfolding save_edit shown showing
save_edit-showing number parse_int streams e s x f h = rw (save_edit, h) refl

-- The first selection mounts a detail in which nothing is edited.
first-select :
    (streams : List StreamInfo) (e : Explorer) (s : StreamInfo)
    → e.show_create ≡ false
    → e.detail ≡ none
    → IsListed s streams
    → step streams e (select s.config.name) ≡ showing e s false none
unfolding step handle render shown showing
first-select streams e s closed empty h = rw (handle, closed, h, empty) refl

-- From an explorer that shows no stream: when one listed stream is selected and its form opened, and
-- then another is selected, saving changes the other stream by the form of the first.
pub save_edit-select :
    (number : String → ℤ) (parse_int : String → Option ℕ) (streams : List StreamInfo) (e : Explorer)
    (s t : StreamInfo)
    → e.show_create ≡ false
    → e.detail ≡ none
    → IsListed s streams
    → IsListed t streams
    → save_edit number parse_int streams (
        step streams
          (step streams (step streams e (select s.config.name)) start_edit)
          (select t.config.name))
      ≡ some (t.config.name, update_config number parse_int (edit_form s.config) t.config)
save_edit-select number parse_int streams e s t closed empty hs ht =
    ap (save_edit number parse_int streams) (
      ap (λ a. step streams (step streams a start_edit) (select t.config.name))
        (first-select streams e s closed empty hs)
      ∙ ap (λ a. step streams a (select t.config.name)) (step-start_edit streams e s false none hs)
      ∙ step-select streams e s t false (some (edit_form s.config)) ht)
    ∙ save_edit-showing number parse_int streams e t false (edit_form s.config) ht
