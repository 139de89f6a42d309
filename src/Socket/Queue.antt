-- ===== src/Socket/Queue.antt =====
-- The queue of `NatsUIWebSocket`: what `send` keeps without a connection, and what `_onOpen` sends.
use nats_ui.Prelude.{
  ℕ, zero, suc, ◌≤◌, String, ◌≡◌, refl, ◌∙◌, sym, ap, false, Option, none, some, inl, inr, List, [],
  ◌∷◌, ◌++◌, map, length, length-append, last_n, last_n_short, last_n_long, last_n-append_left,
  append-nil, append_assoc, length-last_n, arith, ltb, Bool-cases,
}
use nats_ui.Socket.{
  Browser, opened, send_on, Client, queue_limit, ws_is_open, shift_over, flush, send, connect,
  connect_now, schedule_reconnect, first_delay, on_close, on_timer, disconnect, on_open,
}

-- On an open socket the whole queue is sent, in order.
pub flush_opened :
    (b : Browser) (h : ℕ) (q : List String)
    → b.ready h ≡ opened
    → flush b (some h) q ≡ ([], map (send_on h) q)
unfolding flush
flush_opened b h [] e = refl
flush_opened b h (m ∷ q) e = ground (arith, flush_opened b h q e)

pub length-flush :
    (b : Browser) (o : Option ℕ) (q : List String) → length (flush b o q).0 ≤ length q
unfolding flush
length-flush b none q = omega arith
length-flush b (some h) [] = omega arith
length-flush b (some h) (m ∷ q) = ground (arith, length-flush b (some h) q)

pub shift_over-eq-last_n :
    (n : ℕ) (q : List String) (m : String)
    → length q ≤ n
    → shift_over n (q ++ m ∷ []) ≡ last_n n (q ++ m ∷ [])
shift_over-eq-last_n zero [] m h = refl
shift_over-eq-last_n (suc n) [] m h = ground arith
shift_over-eq-last_n n (x ∷ q) m h = elim (Bool-cases (ltb n (length (x ∷ (q ++ m ∷ []))))) [
  | inl e ↦ rw e (
      sym (
        last_n_long n x (q ++ m ∷ []) (ground arith)
        ∙ last_n_short n (q ++ m ∷ []) (ground (arith, length-append q (m ∷ [])))))
  | inr e ↦ rw e (sym (last_n_short n (x ∷ (q ++ m ∷ [])) (ground arith)))
]

-- Several calls of `send`.
abbrev pub send_all : Browser → List String → Client → Client
send_all b [] c = c
send_all b (m ∷ ms) c = send_all b ms (send b m c).0

send_offline :
    (b : Browser) (m : String) (c : Client)
    → ws_is_open b c.ws ≡ false
    → send b m c
      ≡ (record c { message_queue = shift_over queue_limit (c.message_queue ++ m ∷ []) }, [])
unfolding send
send_offline b m c e = rw (e, send)

pub send_all_offline :
    (b : Browser) (ms : List String) (c : Client)
    → ws_is_open b c.ws ≡ false
    → length c.message_queue ≤ queue_limit
    → send_all b ms c ≡ record c { message_queue = last_n queue_limit (c.message_queue ++ ms) }
send_all_offline b [] c e h =
    let same : last_n queue_limit (c.message_queue ++ []) ≡ c.message_queue =
      rw append-nil (last_n_short queue_limit c.message_queue h) in
    λ i. record c { message_queue = sym same i }
send_all_offline b (m ∷ ms) c e h =
    let kept : List String = shift_over queue_limit (c.message_queue ++ m ∷ []) in
    let kept_eq : kept ≡ last_n queue_limit (c.message_queue ++ m ∷ []) =
      shift_over-eq-last_n queue_limit c.message_queue m h in
    let short : length kept ≤ queue_limit =
      rw kept_eq (omega (arith, length-last_n queue_limit (c.message_queue ++ m ∷ []))) in
    let now : last_n queue_limit (kept ++ ms) ≡ last_n queue_limit (c.message_queue ++ m ∷ ms) =
      rw kept_eq (
        last_n-append_left queue_limit (c.message_queue ++ m ∷ []) ms
        ∙ ap (last_n queue_limit) (append_assoc c.message_queue (m ∷ []) ms)) in
    rw (send_offline b m c e) (
      send_all_offline b ms (record c { message_queue = kept }) e short ∙ λ i. record c {
        message_queue = now i;
      })

-- A call of the client, or an event of a socket or of the timer, while it waits for a connection.
pub data Call : Type 0 where
  sends : Browser → String → Call
  connects closes times_out : Browser → Call
  disconnects : Call

abbrev pub after_call : Call → Client → Client
after_call (sends b m) c = (send b m c).0
after_call (connects b) c = (connect b c).0
after_call (closes b) c = (on_close b c).0
after_call (times_out b) c = (on_timer b c).0
after_call disconnects c = (disconnect c).0

abbrev pub run_calls : List Call → Client → Client
run_calls [] c = c
run_calls (k ∷ ks) c = run_calls ks (after_call k c)

-- The messages that are sent, in order.
abbrev pub sent : List Call → List String
sent [] = []
sent (sends b m ∷ ks) = m ∷ sent ks
sent (_ ∷ ks) = sent ks

-- Whenever a message is sent, the client has no open socket: none, or one that is still connecting.
abbrev pub IsOffline : List Call → Client → Type 0
IsOffline [] c = Unit
IsOffline (sends b m ∷ ks) c = (ws_is_open b c.ws ≡ false) × IsOffline ks (send b m c).0
IsOffline (k ∷ ks) c = IsOffline ks (after_call k c)

connect_now-queue : (b : Browser) (c : Client) → (connect_now b c).0.message_queue ≡ c.message_queue
unfolding connect_now schedule_reconnect
connect_now-queue b c = ground arith

-- Nothing but `send` and `_onOpen` touches the queue.
connect-queue : (b : Browser) (c : Client) → (connect b c).0.message_queue ≡ c.message_queue
unfolding connect
connect-queue b c =
    connect_now-queue b (record c { is_manual_close = false; reconnect_delay = first_delay })

on_timer-queue : (b : Browser) (c : Client) → (on_timer b c).0.message_queue ≡ c.message_queue
unfolding on_timer
on_timer-queue b c = connect_now-queue b c

on_close-queue : (b : Browser) (c : Client) → (on_close b c).0.message_queue ≡ c.message_queue
unfolding on_close schedule_reconnect
on_close-queue b c = ground arith

disconnect-queue : (c : Client) → (disconnect c).0.message_queue ≡ c.message_queue
unfolding disconnect
disconnect-queue c = refl

-- What the queue holds in the end.
abbrev Holds : List Call → Client → Type 0
Holds ks c =
    length c.message_queue ≤ queue_limit
    → (run_calls ks c).message_queue ≡ last_n queue_limit (c.message_queue ++ sent ks)

run_calls-same :
    (ks : List Call) (c d : Client)
    → d.message_queue ≡ c.message_queue
    → Holds ks d
    → length c.message_queue ≤ queue_limit
    → (run_calls ks d).message_queue ≡ last_n queue_limit (c.message_queue ++ sent ks)
run_calls-same ks c d e holds l = holds (rw e l) ∙ ap (λ q. last_n queue_limit (q ++ sent ks)) e

run_calls-queue : (ks : List Call) (c : Client) → IsOffline ks c → Holds ks c
run_calls-queue [] c o l = sym (rw append-nil (last_n_short queue_limit c.message_queue l))
run_calls-queue (sends b m ∷ ks) c o l =
    let d = (send b m c).0 in
    let one : d.message_queue ≡ last_n queue_limit (c.message_queue ++ m ∷ []) =
      ap (λ d. d.message_queue) (send_all_offline b (m ∷ []) c o.0 l) in
    let short : length d.message_queue ≤ queue_limit =
      rw one (omega (arith, length-last_n queue_limit (c.message_queue ++ m ∷ []))) in
    run_calls-queue ks d o.1 short
    ∙ ap (λ q. last_n queue_limit (q ++ sent ks)) one
    ∙ last_n-append_left queue_limit (c.message_queue ++ m ∷ []) (sent ks)
    ∙ ap (last_n queue_limit) (append_assoc c.message_queue (m ∷ []) (sent ks))
run_calls-queue (connects b ∷ ks) c o l =
    run_calls-same ks c _ (connect-queue b c) (run_calls-queue ks (connect b c).0 o) l
run_calls-queue (closes b ∷ ks) c o l =
    run_calls-same ks c _ (on_close-queue b c) (run_calls-queue ks (on_close b c).0 o) l
run_calls-queue (times_out b ∷ ks) c o l =
    run_calls-same ks c _ (on_timer-queue b c) (run_calls-queue ks (on_timer b c).0 o) l
run_calls-queue (disconnects ∷ ks) c o l =
    run_calls-same ks c _ (disconnect-queue c) (run_calls-queue ks (disconnect c).0 o) l

-- From a queue of at most 100 messages, after any calls of `send`, `connect` and `disconnect`, closed
-- connections and timers that run out, where the client has no open socket whenever a message is sent,
-- the queue holds the newest 100 messages of what was queued and what was sent, in order; and when the
-- socket that the client then has opens, it is handed exactly these, in order, and the queue is empty.
pub on_open-run_calls :
    (ks : List Call) (c : Client) (b : Browser) (h : ℕ)
    → IsOffline ks c
    → length c.message_queue ≤ 100
    → (run_calls ks c).ws ≡ some h
    → b.ready h ≡ opened
    → let waiting = run_calls ks c in
      (waiting.message_queue ≡ last_n 100 (c.message_queue ++ sent ks))
      × ((on_open b waiting).1 ≡ map (send_on h) (last_n 100 (c.message_queue ++ sent ks)))
      × ((on_open b waiting).0.message_queue ≡ [])
unfolding on_open
on_open-run_calls ks c b h o l own ready =
    let queue = run_calls-queue ks c o l in
    (
      queue,
      rw (own, queue, flush_opened b h (last_n queue_limit (c.message_queue ++ sent ks)) ready)
          refl,
      rw (own, queue, flush_opened b h (last_n queue_limit (c.message_queue ++ sent ks)) ready)
          refl,
    )
