-- ===== src/Tail/Tests.antt =====
-- A full tail, and the sum of what it shows.
use nats_ui.Prelude.{
  ℕ, zero, suc, ◌+◌, String, ◌≡◌, refl, ap, true, false, none, some, List, [], ◌∷◌, length, lookup,
}
use nats_ui.Types.Messages.{TailedMessage}
use nats_ui.Store.Data.{DataState, initial_data, max_tail_messages, push_tail_message}
use nats_ui.Store.Data.Buffers.{tail_of}
use nats_ui.Tail.{matches, payload_sum, update_total}
use nats_ui.Tail.Sizes.{exact, update_total-stale}

abbrev sized : ℕ → TailedMessage
sized n = record {
  id = none;
  cluster_id = some "c";
  stream = "orders";
  subject_filter = none;
  subject = "orders.new";
  seq = 1;
  timestamp = "";
  payload = "";
  payload_text = "";
  payload_size = n;
  headers = some (("k", "blue") ∷ []);
  redelivered = false;
  reply_to = none;
}

abbrev same : String → String
same s = s

filter_tests :
    (matches same "ers.n" (sized 1) ≡ true)
    × (matches same "lue" (sized 1) ≡ true)
    × (matches same "red" (sized 1) ≡ false)
unfolding matches
filter_tests = (refl, refl, refl)

repeated : ℕ → List TailedMessage
repeated zero = []
repeated (suc n) = sized 1 ∷ repeated n

length-repeated : (n : ℕ) → length (repeated n) ≡ n
unfolding repeated
length-repeated zero = refl
length-repeated (suc n) = ap suc (length-repeated n)

abbrev full_data : DataState
full_data = record initial_data { tail_messages = ("k", sized 5 ∷ repeated 9999) ∷ [] }

update_total-stale_example :
    ((update_total
        (exact (tail_of "k" full_data))
        (tail_of "k" (push_tail_message max_tail_messages "k" (sized 9) full_data))).total_bytes
      ≡ payload_sum (tail_of "k" full_data))
    × (payload_sum (tail_of "k" (push_tail_message max_tail_messages "k" (sized 9) full_data)) + 5
        ≡ payload_sum (tail_of "k" full_data) + 9)
unfolding lookup
update_total-stale_example =
    update_total-stale "k" (sized 5) (sized 9) (repeated 9999) full_data refl
      (ap suc (length-repeated 9999))
