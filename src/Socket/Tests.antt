-- ===== src/Socket/Tests.antt =====
-- Runs of the WebSocket client: one browser that answers, and another that has an open socket.
use nats_ui.Prelude.{
  ℕ, ◌++◌, map, last_n, ◌*◌, ◌^◌, ◌≤◌, String, ◌≡◌, refl, false, none, some, List, [], ◌∷◌, arith,
}
use nats_ui.Socket.Queue
use nats_ui.Socket.{
  on_close, on_timer, connect_now, schedule_reconnect, set_timeout, clear_timer, units, connecting,
  opened, Browser, send_on, clear_timeout, close_socket, Client, new_client, connect, on_open, send,
  disconnect, first_delay,
}
use nats_ui.Socket.Queue.{
  Call, closes, times_out, run_calls, sent, IsOffline, send_all, on_open-run_calls,
}
use nats_ui.Socket.Lifecycle.{
  start, next, connects, sends, IsBounded, Reach-IsBounded, late_close, on_open-late_close,
}
use nats_ui.Socket.Backoff.{failures, on_close-failures}

-- Every socket is connecting, and the next one is number 4.
abbrev waiting_browser : Browser
waiting_browser = record { ready = λ h. connecting; created = some 4; timer = 7 }

abbrev open_browser : Browser
open_browser = record { ready = λ h. opened; created = some 5; timer = 8 }

abbrev two_texts : List String
two_texts = "a" ∷ "b" ∷ []

-- A client with socket 4, and one subscriber of "topology".
abbrev connected_client : Client
connected_client = record {
  ws = some 4;
  listeners = ("topology", 1 ∷ []) ∷ [];
  reconnect_timer = some 2;
  reconnect_delay = first_delay;
  is_manual_close = false;
  message_queue = "old" ∷ [];
}

queue_tests :
    (send_all waiting_browser two_texts new_client
      ≡ record new_client { message_queue = two_texts })
    × ((on_open open_browser connected_client).1 ≡ send_on 4 "old" ∷ [])
    × ((disconnect connected_client).1 ≡ clear_timeout 2 ∷ close_socket 4 ∷ [])
unfolding send on_open disconnect
queue_tests = (refl, refl, refl)

-- A message before the connection is lost and one after, one without a socket, and the reconnection
-- by the timer, to socket 4.
abbrev lost_calls : List Call
lost_calls =
    Queue.sends waiting_browser "a"
    ∷ closes waiting_browser
    ∷ Queue.sends waiting_browser "b"
    ∷ times_out waiting_browser
    ∷ Queue.sends waiting_browser "c"
    ∷ []

lost_calls-ws : (run_calls lost_calls connected_client).ws ≡ some 4
unfolding send on_close on_timer connect_now schedule_reconnect
lost_calls-ws = refl

lost_calls-IsOffline : IsOffline lost_calls connected_client
unfolding send on_close on_timer connect_now schedule_reconnect
lost_calls-IsOffline = (refl, (refl, (refl, tt)))

on_open-run_calls_example :
    let waiting = run_calls lost_calls connected_client in
    (waiting.message_queue ≡ last_n 100 ("old" ∷ "a" ∷ "b" ∷ "c" ∷ []))
    × ((on_open open_browser waiting).1
        ≡ map (send_on 4) (last_n 100 ("old" ∷ "a" ∷ "b" ∷ "c" ∷ [])))
    × ((on_open open_browser waiting).0.message_queue ≡ [])
on_open-run_calls_example =
    on_open-run_calls lost_calls connected_client open_browser 4 lost_calls-IsOffline (omega arith)
      lost_calls-ws refl

Reach-IsBounded_example :
    IsBounded (send waiting_browser "a" (connect waiting_browser new_client).0).0
Reach-IsBounded_example = Reach-IsBounded (
    next (next start (connects waiting_browser new_client))
      (sends waiting_browser "a" (connect waiting_browser new_client).0))

on_open-late_close_example :
    ((late_close open_browser open_browser connected_client).ws ≡ none)
    × ((late_close open_browser open_browser connected_client).reconnect_timer ≡ some 8)
    × ((send_all open_browser two_texts
          (late_close open_browser open_browser connected_client)).message_queue
        ≡ "old" ∷ "a" ∷ "b" ∷ [])
    × ((on_open open_browser (
          send_all open_browser two_texts
            (late_close open_browser open_browser connected_client))).0.message_queue
        ≡ [])
    × ((on_open open_browser (
          send_all open_browser two_texts
            (late_close open_browser open_browser connected_client))).1
        ≡ [])
on_open-late_close_example =
    on_open-late_close open_browser open_browser open_browser two_texts connected_client refl
      (omega arith)

-- Three attempts that fail after the first connection.
abbrev three_failures : List (Browser × Browser)
three_failures =
    (waiting_browser, waiting_browser)
    ∷ (waiting_browser, waiting_browser)
    ∷ (waiting_browser, waiting_browser)
    ∷ []

on_close-failures_example :
    let lost = failures three_failures (connect waiting_browser new_client).0 in
    (d : ℕ) × ((on_close open_browser lost).1
      ≡ clear_timer lost.reconnect_timer ++ set_timeout d ∷ [])
    × (3 ≤ 8 → d * 2 ^ 3 ≡ 1000 * units * 3 ^ 3)
    × (9 ≤ 3 → d ≡ 30000 * units)
on_close-failures_example = on_close-failures waiting_browser open_browser three_failures new_client
