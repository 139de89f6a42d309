-- ===== src/Publisher/Send/Tests.antt =====
-- Messages of one tab, to a backend that accepts the odd ones.
use nats_ui.Prelude.{
  ℕ, zero, suc, ◌≡◌, refl, true, false, none, some, [], ◌∷◌, decimal, lookup, insert,
}
use nats_ui.Types.Publishing.{PublishRequest, PublishResult}
use nats_ui.Store.Views.{PublisherTab}
use nats_ui.Publisher.Placeholders.{trim, substitute, custom_placeholders}
use nats_ui.Publisher.Send.{
  Answer, published, failed, Runtime, Session, no_opts, build_req, handle_send,
}
use nats_ui.Publisher.Send.Requests.{build_req-custom_placeholders}
use nats_ui.Publisher.Send.Bursts.{IsAsked, IsOutcome, handle_send-IsOutcome}

abbrev accepted_result : PublishResult
accepted_result = record {
  subject = "a";
  stream = none;
  seq = none;
  accepted = true;
  duplicate = none;
  delivery = none;
}

abbrev answers : ℕ → Answer
answers zero = failed none
answers (suc zero) = published accepted_result
answers _ = failed none

abbrev test_runtime : Runtime
test_runtime = record {
  fresh = λ i j k t. "0";
  number = λ t. 7;
  text_length = λ t. 4;
  now = 1;
  elapsed = 2;
  answer = answers;
  stopped = λ i. false;
}

abbrev idle : Session
idle = record {
  loading = false;
  send_ok = false;
  bursting = false;
  burst_sent = 0;
  history = [];
  history_id = 0;
}

abbrev order_tab : PublisherTab
order_tab = record {
  id = "tab-5-2";
  label = "Tab 2";
  subject = " orders.{{seq}} ";
  payload = "{{who}}";
  headers =
      record { key = " k "; value = "1" }
      ∷ record { key = " "; value = "2" }
      ∷ record { key = "k"; value = "3" }
      ∷ [];
  opts = some (record no_opts {
    msg_id = some " id-{{seq}}";
    expect_last_seq = some "7";
    reply_to = some " ";
  });
}

request_tests :
    ((build_req test_runtime (("who", "ann") ∷ []) order_tab 2).subject ≡ "orders.2")
    × ((build_req test_runtime (("who", "ann") ∷ []) order_tab 2).payload ≡ "ann")
    × ((build_req test_runtime [] order_tab 2).headers ≡ some (("k", "3") ∷ []))
    × ((build_req test_runtime [] order_tab 2).msg_id ≡ some "id-2")
    × ((build_req test_runtime [] order_tab 2).reply_to ≡ none)
    × ((build_req test_runtime [] order_tab 2).expect_last_seq ≡ some 7)
    × ((handle_send test_runtime "c" [] (some order_tab) 2 idle).0.burst_sent ≡ 2)
unfolding build_req handle_send substitute trim decimal lookup insert
request_tests = (refl, refl, refl, refl, refl, refl, refl)

abbrev build_two : ℕ → PublishRequest
build_two = build_req test_runtime [] order_tab

handle_send-IsOutcome_example :
    (n : ℕ) × IsAsked 2 n
    × IsOutcome test_runtime [] order_tab n idle
        (handle_send test_runtime "c" [] (some order_tab) 2 idle)
unfolding trim
handle_send-IsOutcome_example =
    handle_send-IsOutcome test_runtime "c" [] order_tab 2 idle (refl, refl, refl, refl) (λ j. refl)

build_req-custom_placeholders_example :
    let without_id = λ (r : PublishRequest). record r { msg_id = none } in
    without_id (build_req test_runtime (("who", "ann") ∷ []) order_tab 2)
    ≡ without_id (build_req test_runtime (("who", "ann") ∷ ("other", "y") ∷ []) order_tab 2)
unfolding custom_placeholders lookup
build_req-custom_placeholders_example =
    build_req-custom_placeholders test_runtime (("who", "ann") ∷ [])
      (("who", "ann") ∷ ("other", "y") ∷ []) order_tab 2 (refl, tt)
