-- ===== src/Lab/Tests.antt =====
-- A session of one message.
use nats_ui.Prelude.{ℕ, ◌≤◌, str_eq, false, String, ◌≡◌, refl, none, some, List, [], ◌∷◌, All}
use nats_ui.Lab.{
  do_fetch, fetch, DebugMessage, Event, Action, nak, choose_stream, choose_consumer, do_fetch,
  fetched, act, answer, initial_lab, handle, run,
}
use nats_ui.Lab.Sessions.{run-owned}

abbrev message : DebugMessage
message = record {
  id = "s1-0";
  subject = "a";
  stream_seq = 1;
  consumer_seq = 1;
  num_delivered = 1;
  timestamp = "";
  payload = "";
  size = 0;
  headers = none;
}

abbrev events : List Event
events = choose_stream "s" ∷ choose_consumer "c" ∷ do_fetch ∷ fetched "s1" (message ∷ []) ∷ []

run_tests :
    ((handle (act "s1-0" nak) (run events initial_lab)).1 ≡ some (answer "s1" "s1-0" nak))
    × ((handle do_fetch initial_lab).1 ≡ none)
unfolding run handle initial_lab
run_tests = (refl, refl)

-- The session that a message of the test comes from.
abbrev Owns : String → DebugMessage → Type 0
Owns session m = (session ≡ "s1") × (m.id ≡ "s1-0")

run-owned_example :
    let s = run events initial_lab in
    All (Owns s.session_id) s.messages
    × ((id : String) (a : Action) → (handle (act id a) s).1 ≡ some (answer s.session_id id a))
    × (str_eq s.stream "" ≡ false
        → str_eq s.consumer "" ≡ false
        → (n : ℕ) × ((handle do_fetch s).1 ≡ some (fetch s.stream s.consumer n))
          × (1 ≤ n)
          × (n ≤ 50))
run-owned_example = run-owned Owns events (tt, (tt, (tt, (((refl, refl), tt), tt))))
