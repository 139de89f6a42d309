-- ===== src/Console/Tests.antt =====
-- A request with a header.
use nats_ui.Prelude.{
  ◌≤◌, String, str_eq, ◌≡◌, refl, false, ◌⊎◌, none, some, List, [], ◌∷◌, length, insert,
}
use nats_ui.Publisher.Placeholders.{trim}
use nats_ui.Widgets.{IsWithin}
use nats_ui.Console.{
  Request, Event, type_subject, new_header, patch_header, history_limit, timeout_stepper,
  initial_console, send, entries_from, add_header, set_header, handle, run,
}
use nats_ui.Console.Replies.{AllNames, run-send}

abbrev events : List Event
events =
    type_subject " a "
    ∷ new_header
    ∷ patch_header 0 (λ h. record h { key = " k "; value = "v" })
    ∷ []

send_tests :
    (send "c" (run events initial_console)).1
    ≡ some (record {
      subject = "a";
      payload = "";
      headers = some (("k", "v") ∷ []);
      timeout_ms = 2000;
    })
unfolding send run handle initial_console entries_from add_header set_header trim insert
send_tests = refl

run-send_example :
    let s = run events initial_console in
    (length s.history ≤ history_limit)
    × ((trim s.subject ≡ "") ⊎ (◌≡◌ {A = String} "c" "") → (send "c" s).1 ≡ none)
    × (str_eq (trim s.subject) "" ≡ false
        → str_eq "c" "" ≡ false
        → (r : Request) × ((send "c" s).1 ≡ some r)
          × (r.subject ≡ trim s.subject)
          × AllNames r.headers
          × IsWithin timeout_stepper r.timeout_ms)
run-send_example = run-send events "c"
