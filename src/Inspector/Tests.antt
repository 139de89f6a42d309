-- ===== src/Inspector/Tests.antt =====
-- An inspector opened on what the store has.
use nats_ui.Prelude.{◌≡◌, refl, false, none, some, List, [], ◌∷◌}
use nats_ui.Store.Views.{default_view_states, set_consumer_state}
use nats_ui.Inspector.{
  State, seed, set_selected_stream, set_selected_consumer, set_show_create, Event, choose_stream,
  choose_consumer, consumer_deleted, new_consumer, remount, handle, run, selected,
}
use nats_ui.Inspector.Selection.{IsSynced, run-IsSynced, choose_stream-remount}

abbrev start : State
start = record { view = seed (default_view_states "0"); store = default_view_states "0" }

abbrev events : List Event
events = choose_stream "a" ∷ choose_consumer "c" ∷ []

events_tests :
    ((run events start).view.selected_consumer ≡ some "c")
    × ((run (new_consumer ∷ []) (run events start)).view.selected_consumer ≡ none)
    × ((run (consumer_deleted "c" ∷ []) (run events start)).store.consumers.selected_consumer
        ≡ none)
    × ((run (choose_stream "b" ∷ []) (run events start)).view.selected_consumer ≡ some "c")
    × ((run (choose_stream "b" ∷ []) (run events start)).store.consumers.selected_consumer ≡ none)
unfolding run handle set_selected_stream set_selected_consumer set_show_create set_consumer_state
events_tests = (refl, refl, refl, refl, refl)

run-IsSynced_example : IsSynced (run events start)
unfolding seed
run-IsSynced_example =
    run-IsSynced events start (record { same_stream = refl; same_consumer = λ c e. e })

choose_stream-remount_example :
    let chosen = handle (choose_stream "b") (run events start) in
    let again = handle remount chosen in
    (selected [] chosen.view ≡ selected [] (run events start).view)
    × (chosen.view.show_create ≡ false)
    × (again.view.selected_stream ≡ "b")
    × (again.view.selected_consumer ≡ none)
choose_stream-remount_example = choose_stream-remount (run events start) "b" []
