-- ===== src/Dlq/Tests.antt =====
-- Two dead letters, one of each type.
use nats_ui.Prelude.{String, ◌≡◌, refl, Option, none, some, List, [], ◌∷◌}
use nats_ui.Types.DeadLetters.{DeadLetterType, max_deliver, terminated, DeadLetter}
use nats_ui.Dlq.{every, events}
use nats_ui.Tail.{includes}

abbrev letter : DeadLetterType → String → DeadLetter
letter type stream = record {
  type = type;
  stream = stream;
  consumer = "worker";
  stream_seq = 1;
  deliveries = 5;
  reason = none;
  timestamp = "";
}

abbrev two_letters : Option (List DeadLetter)
two_letters = some (letter max_deliver "orders" ∷ letter terminated "bills" ∷ [])

abbrev same : String → String
same s = s

filter_tests : events same every "rde" two_letters ≡ letter max_deliver "orders" ∷ []
unfolding events includes
filter_tests = refl
