-- ===== src/Bridge/Tests.antt =====
-- Runs of the bridge, from a state with one tail.
use nats_ui.Prelude.{decimal, ℕ, String, ◌≡◌, refl, false, none, some, [], ◌∷◌, lookup, arith}
use nats_ui.Types.Messages.{TailedMessage}
use nats_ui.Store.Ui.{initial_ui}
use nats_ui.Store.Data.{initial_data}
use nats_ui.Store.Data.Buffers.{tail_of}
use nats_ui.Bridge.{
  App, message_received, handle, flush_pending_messages, stream_key, subject_key, message_id,
  tail_key,
}
use nats_ui.Bridge.Buffer.{waiting, enqueue_all}
use nats_ui.Bridge.Frames.{IsScheduled, tail_of-frame}
use nats_ui.Bridge.Keys.{NoColon, tail_keys_distinct}
use nats_ui.Bridge.Tails.{here, next, event, frame, Reach-IsScheduled, key_of}

abbrev first_app : App
first_app = record {
  ui = initial_ui "0" [];
  store = initial_data;
  pending = [];
  raf_handle = none;
  id_counter = 4;
}

first_app-IsScheduled : IsScheduled first_app
unfolding lookup
first_app-IsScheduled = record {
  distinct = tt;
  bounded = λ key. omega arith;
  scheduled = λ key e. refl;
}

-- A message of the stream "orders" of the cluster "c".
abbrev tailed : ℕ → TailedMessage
tailed n = record {
  id = none;
  cluster_id = some "c";
  stream = "orders";
  subject_filter = none;
  subject = "orders.new";
  seq = n;
  timestamp = "";
  payload = "";
  payload_text = "";
  payload_size = 0;
  headers = none;
  redelivered = false;
  reply_to = none;
}

key_tests :
    (key_of (tailed 1) ≡ "c:orders")
    × (tail_key none "orders" (some "") ≡ ":orders")
    × (tail_key (some "c") "orders" (some "a.>") ≡ "subj:c:a.>")
    × (message_id 12 ≡ "msg-12")
unfolding tail_key message_id decimal
key_tests = (refl, refl, refl, refl)

tail_of-frame_example :
    (tail_of "c:orders"
        (flush_pending_messages
          (enqueue_all 3 "c:orders" (tailed 1 ∷ tailed 2 ∷ []) first_app)).store
      ≡ tailed 1 ∷ tailed 2 ∷ [])
    × (waiting "c:orders"
          (flush_pending_messages
            (enqueue_all 3 "c:orders" (tailed 1 ∷ tailed 2 ∷ []) first_app)).pending
        ≡ [])
    × IsScheduled
        (flush_pending_messages (enqueue_all 3 "c:orders" (tailed 1 ∷ tailed 2 ∷ []) first_app))
unfolding lookup
tail_of-frame_example =
    tail_of-frame 3 "c:orders" (tailed 1 ∷ tailed 2 ∷ []) first_app first_app-IsScheduled
      (omega arith)

Reach-IsScheduled_example :
    IsScheduled (flush_pending_messages (handle 3 (message_received (tailed 1)) first_app))
Reach-IsScheduled_example = Reach-IsScheduled first_app-IsScheduled (
    next (next here (event 3 (message_received (tailed 1)) first_app))
      (frame (handle 3 (message_received (tailed 1)) first_app)))

c-NoColon : NoColon "c"
c-NoColon = omega arith

tail_keys_distinct_example :
    (stream_key "c" "a" ≡ stream_key "c" "b"
      → ◌≡◌ {A = String} "c" "c" × (◌≡◌ {A = String} "a" "b"))
    × (subject_key "c" "a" ≡ subject_key "c" "b"
        → (◌≡◌ {A = String} "c" "c") × (◌≡◌ {A = String} "a" "b"))
    × (stream_key "c" "a" ≡ subject_key "c" "b" → ◌≡◌ {A = String} "c" "subj")
tail_keys_distinct_example = tail_keys_distinct "c" "c" "a" "b" c-NoColon c-NoColon
