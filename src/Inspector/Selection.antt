-- ===== src/Inspector/Selection.antt =====
-- What the inspector selects, and what the store has of it.
use nats_ui.Prelude.{
  String, ◌≡◌, refl, inl, inr, false, none, some, List, [], ◌∷◌, Bool-cases, arith,
}
use nats_ui.Types.Consumers.{ConsumerInfo}
use nats_ui.Store.Views.{set_consumer_state}
use nats_ui.Inspector.{
  State, seed, set_selected_stream, set_selected_consumer, set_show_create, Event, choose_stream,
  close_form, consumer_deleted, remount, is_selected, handle, run, selected,
}

-- The store has the stream of the inspector, and no other consumer than the inspector.
pub record IsSynced (st : State) : Type 0 where
  pub same_stream : st.store.consumers.selected_stream ≡ st.view.selected_stream
  pub same_consumer :
      (c : String)
      → st.store.consumers.selected_consumer ≡ some c
      → st.view.selected_consumer ≡ some c

handle-IsSynced : (e : Event) (st : State) → IsSynced st → IsSynced (handle e st)
unfolding handle set_selected_stream set_selected_consumer set_show_create seed set_consumer_state
handle-IsSynced (choose_stream s) st h = record {
  same_stream = refl;
  same_consumer = λ c e. absurd (ground arith);
}
handle-IsSynced (consumer_deleted name) st h =
    elim (Bool-cases (is_selected st.view.selected_consumer name)) [
      | inl k ↦ rw k (record { same_stream = h.same_stream; same_consumer = λ c e. e })
      | inr k ↦ rw k (record { same_stream = h.same_stream; same_consumer = h.same_consumer })
    ]
handle-IsSynced remount st h = record { same_stream = refl; same_consumer = λ c e. e }
handle-IsSynced close_form st h = record {
  same_stream = h.same_stream;
  same_consumer = h.same_consumer;
}
handle-IsSynced e st h = record { same_stream = h.same_stream; same_consumer = λ c e. e }

-- Whatever is done with an inspector that the store agrees with, the store has its stream, and no
-- other consumer than the inspector selects.
pub run-IsSynced : (es : List Event) (st : State) → IsSynced st → IsSynced (run es st)
unfolding run
run-IsSynced [] st h = h
run-IsSynced (e ∷ es) st h = run-IsSynced es (handle e st) (handle-IsSynced e st h)

-- Choosing another stream closes the form and keeps the consumer selected in the inspector, so that the
-- details are those of a consumer of the same name where the other stream lists one; once the
-- inspector is left and opened again, the other stream is chosen and no consumer is.
pub choose_stream-remount :
    (st : State) (s : String) (consumers : List ConsumerInfo)
    → let chosen = handle (choose_stream s) st in
      let again = handle remount chosen in
      (selected consumers chosen.view ≡ selected consumers st.view)
      × (chosen.view.show_create ≡ false)
      × (again.view.selected_stream ≡ s)
      × (again.view.selected_consumer ≡ none)
unfolding handle set_selected_stream set_show_create seed set_consumer_state selected
choose_stream-remount st s consumers = (refl, refl, refl, refl)
