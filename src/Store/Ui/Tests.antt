-- ===== src/Store/Ui/Tests.antt =====
-- Runs of `useUIStore`, from its initial state.
use nats_ui.Prelude.{String, ◌≡◌, refl, none, some, [], ◌∷◌, lookup, arith}
use nats_ui.Types.Views.{overview, Tab}
use nats_ui.Store.Ui.{UiState, initial_ui, add_tab, close_tab, toggle_theme, token_key}
use nats_ui.Store.Ui.Auth.{log_in, log_out, toggles_theme, run, loaded, IsAuthentic, run-loaded}
use nats_ui.Store.Ui.Tabs.{IsValid, here, next, opens, closes, Reach-IsValid}

abbrev view_tab : String → Tab
view_tab id = record {
  id = id;
  label = id;
  view = overview;
  cluster_id = none;
  stream = none;
  consumer = none;
  pinned = none;
}

abbrev first_ui : UiState
first_ui = initial_ui "0" []

theme_tests :
    ((toggle_theme (loaded "0" [])).ui.theme ≡ "light")
    × ((toggle_theme (toggle_theme (loaded "0" []))).background ≡ "#0a0814")
unfolding toggle_theme initial_ui lookup
theme_tests = (refl, refl)

run-loaded_example :
    IsAuthentic
      (run (log_in "jwt" ∷ toggles_theme ∷ log_out ∷ []) (loaded "0" ((token_key, "old") ∷ [])))
run-loaded_example =
    run-loaded (log_in "jwt" ∷ toggles_theme ∷ log_out ∷ []) "0" ((token_key, "old") ∷ [])

first_ui-IsValid : IsValid first_ui
unfolding initial_ui
first_ui-IsValid = record { unique = λ id. omega arith; active = λ id e. cc }

Reach-IsValid_example :
    IsValid (close_tab "b" (add_tab (view_tab "b") (add_tab (view_tab "a") first_ui)))
Reach-IsValid_example = Reach-IsValid first_ui-IsValid (
    next
      (next (next here (opens (view_tab "a") first_ui))
        (opens (view_tab "b") (add_tab (view_tab "a") first_ui)))
      (closes "b" (add_tab (view_tab "b") (add_tab (view_tab "a") first_ui))))

abbrev two_tabs : UiState
two_tabs = record first_ui { tabs = view_tab "a" ∷ view_tab "b" ∷ []; active_tab_id = some "b" }
