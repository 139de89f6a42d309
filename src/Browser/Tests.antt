-- ===== src/Browser/Tests.antt =====
-- Paging from the start of a stream, over full pages of one message.
use nats_ui.Prelude.{ℕ, zero, suc, String, ◌≡◌, refl, none, some, List, [], ◌∷◌, arith}
use nats_ui.Types.Messages.{StoredMessage}
use nats_ui.Browser.{Browser, query_of, effective_start, handle_next_page, page_num}
use nats_ui.Browser.Paging.{AreFull, IsPositive, forward, backward, query_of-backward}

abbrev first_page : Browser
first_page = record {
  selected_stream = "orders";
  subject_filter = "";
  start_seq = "";
  fetch_key = 1;
  next_seq = none;
  history = [];
  expanded_seq = none;
}

abbrev stored : ℕ → StoredMessage
stored n = record {
  stream = "orders";
  cluster_id = "c";
  subject = "a";
  seq = n;
  timestamp = "";
  payload = "";
  payload_text = "";
  payload_size = 0;
  headers = none;
}

abbrev repeated : ℕ → List StoredMessage
repeated zero = []
repeated (suc n) = stored 9 ∷ repeated n

abbrev one_page : List StoredMessage
one_page = repeated 50

abbrev three : String → ℕ
three text = 3

page_tests :
    (effective_start three (handle_next_page three (some one_page) first_page) ≡ some 10)
    × (page_num (handle_next_page three (some one_page) first_page) ≡ 2)
    × (handle_next_page three (some (stored 1 ∷ [])) first_page ≡ first_page)
unfolding effective_start handle_next_page page_num
page_tests = (refl, refl, refl)

one_page-AreFull : AreFull (one_page ∷ one_page ∷ [])
one_page-AreFull = (omega arith, (omega arith, tt))

first_page-IsPositive : IsPositive first_page
first_page-IsPositive n e = cc

query_of-backward_example :
    (query_of three (backward 2 (forward three (one_page ∷ one_page ∷ []) first_page))
      ≡ query_of three first_page)
    × ((backward 2 (forward three (one_page ∷ one_page ∷ []) first_page)).history ≡ [])
query_of-backward_example =
    query_of-backward three (one_page ∷ one_page ∷ []) first_page one_page-AreFull
      first_page-IsPositive
