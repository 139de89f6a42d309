-- ===== src/Socket/Lifecycle.antt =====
-- The life of a `NatsUIWebSocket`: its bounds, `disconnect`, and events of a socket that is no
-- longer the current one.
use nats_ui.Prelude.{
  ℕ, ◌≤◌, String, ◌≡◌, refl, ◌∙◌, ap, true, false, none, some, List, [], ◌∷◌, ◌++◌, length,
  length-append, last_n, arith,
}
use nats_ui.Socket.{
  Browser, Client, queue_limit, ws_is_open, shift_over, send, connect, connect_now, on_open,
  on_close, on_timer, disconnect, clear_timer, close_ws, first_delay, max_reconnect_delay,
  new_client,
}
use nats_ui.Socket.Queue.{length-flush, send_all, send_all_offline}

-- One event or call; the browser answers as it likes.
pub data Step : Client → Client → Type 0 where
  connects : (b : Browser) (c : Client) → Step c (connect b c).0
  opens : (b : Browser) (c : Client) → Step c (on_open b c).0
  closes : (b : Browser) (c : Client) → Step c (on_close b c).0
  times_out : (b : Browser) (c : Client) → Step c (on_timer b c).0
  sends : (b : Browser) (m : String) (c : Client) → Step c (send b m c).0
  disconnects : (c : Client) → Step c (disconnect c).0

pub data Reach : Client → Type 0 where
  start : Reach new_client
  next : {c d : Client} → Reach c → Step c d → Reach d

-- The queue and the delay stay within their limits.
pub record IsBounded (c : Client) : Type 0 where
  pub queue : length c.message_queue ≤ queue_limit
  pub delay_low : first_delay ≤ c.reconnect_delay
  pub delay_high : c.reconnect_delay ≤ max_reconnect_delay

length-shift_over :
    (n : ℕ) (q : List String) (m : String) → length q ≤ n → length (shift_over n (q ++ m ∷ [])) ≤ n
length-shift_over n [] m h = ground arith
length-shift_over n (x ∷ q) m h = ground (arith, length-append q (m ∷ []))

connect_now-IsBounded : (b : Browser) (c : Client) → IsBounded c → IsBounded (connect_now b c).0
unfolding connect_now
connect_now-IsBounded b c v = ground arith

send-IsBounded : (b : Browser) (m : String) (c : Client) → IsBounded c → IsBounded (send b m c).0
unfolding send
send-IsBounded b m c v = ground (arith, length-shift_over queue_limit c.message_queue m v.queue)

Step-IsBounded : {c d : Client} → Step c d → IsBounded c → IsBounded d
unfolding connect on_open on_close on_timer send disconnect
Step-IsBounded (connects b c) v =
    connect_now-IsBounded b _
      (record { queue = v.queue; delay_low = omega arith; delay_high = omega arith })
Step-IsBounded (opens b c) v = record {
  queue = omega (arith, length-flush b c.ws c.message_queue, v.queue);
  delay_low = omega arith;
  delay_high = omega arith;
}
Step-IsBounded (closes b c) v = ground arith
Step-IsBounded (times_out b c) v =
    let w = connect_now-IsBounded b c v in
    record { queue = w.queue; delay_low = ground arith; delay_high = ground arith }
Step-IsBounded (sends b m c) v = send-IsBounded b m c v
Step-IsBounded (disconnects c) v = omega arith

-- In every state that calls and events can reach the queue holds at most 100 messages, and the
-- delay lies between 1000 and 30000 ms.
pub Reach-IsBounded : {c : Client} → Reach c → IsBounded c
Reach-IsBounded start = omega arith
Reach-IsBounded (next r st) = Step-IsBounded st (Reach-IsBounded r)

-- After `disconnect` the close event of any socket starts no timer; the timer that ran is cleared,
-- and the current socket is closed.
pub on_close-disconnect :
    (b : Browser) (c : Client)
    → ((on_close b (disconnect c).0).1 ≡ [])
      × ((disconnect c).1 ≡ clear_timer c.reconnect_timer ++ close_ws c.ws)
      × ((on_close b (disconnect c).0).0.message_queue ≡ c.message_queue)
unfolding on_close disconnect
on_close-disconnect b c = (refl, refl, refl)

-- A closed socket starts nothing where the client was closed by hand, and the client stays so.
pub on_close-manual :
    (b : Browser) (c : Client)
    → c.is_manual_close ≡ true
    → ((on_close b c).1 ≡ []) × ((on_close b c).0.is_manual_close ≡ true)
unfolding on_close
on_close-manual b c e = rw e (refl, refl)

pub disconnect-is_manual_close : (c : Client) → (disconnect c).0.is_manual_close ≡ true
unfolding disconnect
disconnect-is_manual_close c = refl

-- Without a current socket, an open event empties the queue and sends nothing.
on_open_without_socket :
    (b : Browser) (c : Client)
    → c.ws ≡ none
    → on_open b c ≡ (record c { reconnect_delay = first_delay; message_queue = [] }, [])
unfolding on_open
on_open_without_socket b c e = rw e refl

-- `disconnect`, `connect`, and then the close event of the first socket.
abbrev pub late_close : Browser → Browser → Client → Client
late_close b b' c = (on_close b' (connect b (disconnect c).0).0).0

late_close-state :
    (b b' : Browser) (c : Client) {h : ℕ}
    → b.created ≡ some h
    → ((late_close b b' c).ws ≡ none)
      × ((late_close b b' c).message_queue ≡ c.message_queue)
      × ((late_close b b' c).reconnect_timer ≡ some b'.timer)
unfolding on_close connect disconnect
late_close-state b b' c e = ground arith

-- A close event of a socket that `disconnect` has closed, when it comes after the next `connect`,
-- makes the client forget the new socket and start a timer. Messages sent from then on are queued
-- behind the old ones, and the open event of the new socket drops them all unsent.
pub on_open-late_close :
    (b b' b'' : Browser) (ms : List String) (c : Client) {h : ℕ}
    → b.created ≡ some h
    → length c.message_queue ≤ queue_limit
    → ((late_close b b' c).ws ≡ none)
      × ((late_close b b' c).reconnect_timer ≡ some b'.timer)
      × ((send_all b'' ms (late_close b b' c)).message_queue
          ≡ last_n queue_limit (c.message_queue ++ ms))
      × ((on_open b'' (send_all b'' ms (late_close b b' c))).0.message_queue ≡ [])
      × ((on_open b'' (send_all b'' ms (late_close b b' c))).1 ≡ [])
on_open-late_close b b' b'' ms c e l =
    let d : Client = late_close b b' c in
    let (gone, kept, timer) = late_close-state b b' c e in
    let offline : ws_is_open b'' d.ws ≡ false = ap (ws_is_open b'') gone in
    let sent : send_all b'' ms d
        ≡ record d { message_queue = last_n queue_limit (d.message_queue ++ ms) } =
      send_all_offline b'' ms d offline (rw kept l) in
    let dropped = on_open_without_socket b'' (send_all b'' ms d) (ap (λ c'. c'.ws) sent ∙ gone) in
    (
      gone,
      timer,
      ap (λ c'. c'.message_queue) sent ∙ ap (λ q. last_n queue_limit (q ++ ms)) kept,
      ap (λ r. r.0.message_queue) dropped,
      ap (λ r. r.1) dropped,
    )
