-- ===== src/Store/Ui.antt =====
-- `useUIStore`: the state of the user interface, with the parts of the page that its actions write,
-- `localStorage` (frontend/src/lib/auth.ts) and the style of the document. A patch of type
-- `Partial<T>` is a record of options; a field that is present and undefined is left out. The split
-- ratio counts thousandths.
pub mod Auth
pub mod Tabs
pub mod Clusters
mod Tests
use nats_ui.Prelude.{
  ℕ, min, max, String, str_eq, Bool, true, false, not, Option, none, some, is_some, or_else, List,
  [], ◌∷◌, ◌++◌, filter, any, last?, Dict, lookup, insert, erase, if◌then◌else◌,
}
use nats_ui.Types.Views.{View, Tab}
use nats_ui.Store.Views.{ViewStates, default_view_states}

pub record UiState : Type 0 where
  pub active_view : View
  pub active_clusters : List String
  pub active_stream : Option String
  pub active_consumer : Option String
  pub tabs : List Tab
  pub active_tab_id : Option String
  pub command_palette_open : Bool
  pub sidebar_collapsed : Bool
  pub split_pane_ratio : ℕ
  pub ws_connected : Bool
  pub theme : String
  pub view_states : ViewStates
  pub is_authenticated : Bool
  pub auth_token : Option String

-- The store, `localStorage`, whether the document has the class `dark`, and its background colour.
pub record Page : Type 0 where
  pub ui : UiState
  pub storage : Dict String
  pub dark_class : Bool
  pub background : String

abbrev pub token_key : String
token_key = "natsui-token"

abbrev pub theme_key : String
theme_key = "natsui-theme"

unfoldable pub get_token : Dict String → Option String
get_token storage = lookup token_key storage

pub set_token : String → Dict String → Dict String
set_token token storage = insert token_key token storage

pub clear_token : Dict String → Dict String
clear_token storage = erase token_key storage

-- The state that `create` makes; `now` is `Date.now()`.
unfoldable pub initial_ui : String → Dict String → UiState
unfolding get_token
initial_ui now storage = record {
  active_view = View.overview;
  active_clusters = [];
  active_stream = none;
  active_consumer = none;
  tabs = [];
  active_tab_id = none;
  command_palette_open = false;
  sidebar_collapsed = false;
  split_pane_ratio = 500;
  ws_connected = false;
  theme = or_else (lookup theme_key storage) "dark";
  view_states = default_view_states now;
  is_authenticated = is_some (get_token storage);
  auth_token = get_token storage;
}

pub set_view : View → UiState → UiState
set_view view s = record s { active_view = view }

unfoldable pub set_active_cluster : String → UiState → UiState
set_active_cluster id s = record s {
  active_clusters =
      if any (λ c. str_eq c id) s.active_clusters
      then s.active_clusters
      else s.active_clusters ++ id ∷ [];
}

pub remove_active_cluster : String → UiState → UiState
remove_active_cluster id s = record s {
  active_clusters = filter (λ c. not (str_eq c id)) s.active_clusters;
}

pub set_active_stream : Option String → UiState → UiState
set_active_stream name s = record s { active_stream = name }

pub set_active_consumer : Option String → UiState → UiState
set_active_consumer name s = record s { active_consumer = name }

pub open_command_palette : UiState → UiState
open_command_palette s = record s { command_palette_open = true }

pub close_command_palette : UiState → UiState
close_command_palette s = record s { command_palette_open = false }

pub toggle_sidebar : UiState → UiState
toggle_sidebar s = record s { sidebar_collapsed = not s.sidebar_collapsed }

pub set_split_ratio : ℕ → UiState → UiState
set_split_ratio ratio s = record s { split_pane_ratio = max 200 (min 800 ratio) }

pub set_ws_connected : Bool → UiState → UiState
set_ws_connected connected s = record s { ws_connected = connected }

-- `s.tabs.filter(t => t.id !== id)`.
abbrev pub without_tab : String → List Tab → List Tab
without_tab id tabs = filter (λ t. not (str_eq t.id id)) tabs

pub add_tab : Tab → UiState → UiState
add_tab tab s = record s {
  tabs = without_tab tab.id s.tabs ++ tab ∷ [];
  active_tab_id = some tab.id;
}

-- `s.activeTabId === id`.
abbrev pub is_active : Option String → String → Bool
is_active none id = false
is_active (some active) id = str_eq active id

-- `tabs[tabs.length - 1]?.id ?? null`.
abbrev pub last_id : List Tab → Option String
last_id tabs = elim (last? tabs) [ none ↦ none | some t ↦ some t.id ]

pub close_tab : String → UiState → UiState
close_tab id s =
    let rest = without_tab id s.tabs in
    record s {
      tabs = rest;
      active_tab_id = if is_active s.active_tab_id id then last_id rest else s.active_tab_id;
    }

pub set_active_tab : String → UiState → UiState
set_active_tab id s = record s { active_tab_id = some id }

pub toggle_theme : Page → Page
toggle_theme p =
    let next = if str_eq p.ui.theme "dark" then "light" else "dark" in
    let dark = str_eq next "dark" in
    record {
      ui = record (p.ui) { theme = next };
      storage = insert theme_key next p.storage;
      dark_class = dark;
      background = if dark then "#0a0814" else "#f6f4ff";
    }

unfoldable pub set_auth : String → Page → Page
unfolding set_token
set_auth token p = record p {
  ui = record (p.ui) { auth_token = some token; is_authenticated = true };
  storage = set_token token p.storage;
}

unfoldable pub clear_auth : Page → Page
unfolding clear_token
clear_auth p = record p {
  ui = record (p.ui) { auth_token = none; is_authenticated = false; active_clusters = [] };
  storage = clear_token p.storage;
}
