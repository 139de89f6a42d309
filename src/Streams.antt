-- ===== src/Streams.antt =====
-- frontend/src/components/streams/StreamExplorer.tsx: the list of streams, and what is mounted beside
-- it. The detail and its form for editing have no key, so that they keep their state while another
-- stream is shown; they lose it when nothing, or the form for a new stream, is shown. `lower` is
-- `toLowerCase`. The forms are in `Streams/Forms`. Fetching and the JSX are left out.
pub mod Forms
pub mod Selection
mod Tests
use nats_ui.Prelude.{
  ℤ, ℕ, String, str_eq, Bool, true, false, Option, none, some, List, [], ◌∷◌, find?, filter,
  if◌then◌else◌,
}
use nats_ui.Types.Streams.{StreamConfig, StreamInfo}
use nats_ui.Types.Views.{View, tail, browser, replay}
use nats_ui.Store.Ui.{UiState, set_view, set_active_stream}
use nats_ui.Publisher.Placeholders.{trim}
use nats_ui.Tail.{includes}
use nats_ui.Streams.Forms.{EditForm, edit_form, update_config}

-- The state of `StreamDetail`; the form is there while the stream is edited.
pub record Detail : Type 0 where
  pub editing : Option EditForm
  pub exporting : Bool

pub record Explorer : Type 0 where
  pub selected_stream : Option String
  pub filter : String
  pub show_create : Bool
  pub detail : Option Detail

abbrev new_detail : Detail
new_detail = record { editing = none; exporting = false }

abbrev pub is_selected : Option String → StreamInfo → Bool
is_selected none s = false
is_selected (some name) s = str_eq s.config.name name

-- The stream whose detail is shown.
pub shown : List StreamInfo → Explorer → Option StreamInfo
shown streams e = if e.show_create then none else find? (is_selected e.selected_stream) streams

abbrev keep_detail : Option Detail → Detail
keep_detail none = new_detail
keep_detail (some d) = d

-- What rendering mounts and unmounts.
pub render : List StreamInfo → Explorer → Explorer
render streams e = record e {
  detail = elim (shown streams e) [ none ↦ none | some s ↦ some (keep_detail e.detail) ];
}

pub data Event : Type 0 where
  select type_filter created deleted : String → Event
  open_create close_create detail_deleted start_edit close_edit saved open_export close_export :
      Event
  type_form : EditForm → Event

abbrev on_detail : (Detail → Detail) → Explorer → Explorer
on_detail f e = record e { detail = elim e.detail [ none ↦ none | some d ↦ some (f d) ] }

-- A handler; `start_edit` mounts the form with the values of the stream that is shown.
pub handle : Event → List StreamInfo → Explorer → Explorer
handle (select name) streams e = record e { selected_stream = some name }
handle (type_filter v) streams e = record e { filter = v }
handle open_create streams e = record e { show_create = true }
handle close_create streams e = record e { show_create = false }
handle (created name) streams e = record e { show_create = false; selected_stream = some name }
handle (deleted name) streams e = record e {
  selected_stream =
      if elim e.selected_stream [ none ↦ false | some s ↦ str_eq s name ]
      then none
      else e.selected_stream;
}
handle detail_deleted streams e = record e { selected_stream = none }
handle start_edit streams e = elim (shown streams e) [
  | none ↦ e
  | some s ↦ on_detail (λ d. record d { editing = some (edit_form s.config) }) e
]
handle close_edit streams e = on_detail (λ d. record d { editing = none }) e
handle saved streams e = on_detail (λ d. record d { editing = none }) e
handle open_export streams e = on_detail (λ d. record d { exporting = true }) e
handle close_export streams e = on_detail (λ d. record d { exporting = false }) e
handle (type_form f) streams e = on_detail (λ d. record d { editing = some f }) e

pub step : List StreamInfo → Explorer → Event → Explorer
step streams e ev = render streams (handle ev streams e)

abbrev edited : Option Detail → Option EditForm
edited none = none
edited (some d) = d.editing

-- What the button that saves asks for: the stream that is shown, and its new configuration.
pub save_edit :
    (String → ℤ) → (String → Option ℕ) → List StreamInfo → Explorer → Option (String × StreamConfig)
save_edit number parse_int streams e = elim (shown streams e) [
  | none ↦ none
  | some s ↦ elim (edited e.detail) [
    | none ↦ none
    | some f ↦ some (s.config.name, update_config number parse_int f s.config)
  ]
]

-- The test is on the trimmed text, the search on the whole of it.
pub filtered_streams : (String → String) → List StreamInfo → Explorer → List StreamInfo
filtered_streams lower streams e =
    if str_eq (trim e.filter) ""
    then streams
    else filter (λ s. includes (lower e.filter) (lower s.config.name)) streams

-- The buttons of the detail that go to another view.
pub tail_messages : StreamInfo → UiState → UiState
tail_messages s u = set_view tail (set_active_stream (some s.config.name) u)

pub browse : StreamInfo → UiState → UiState
browse s u = set_view browser (set_active_stream (some s.config.name) u)

pub replay_stream : UiState → UiState
replay_stream u = set_view replay u
