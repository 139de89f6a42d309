-- ===== src/Socket.antt =====
-- frontend/src/lib/ws.ts, class `NatsUIWebSocket`: one reconnecting WebSocket with a bounded queue
-- of messages for the time without a connection. A handler of the browser's events, and a method,
-- takes the client's state to the new state and the calls of the browser that it makes, in order.
-- The browser is the parameter `Browser`: what it answers while one handler runs. `console` output
-- is left out.
pub mod Backoff
pub mod Lifecycle
pub mod Listeners
pub mod Queue
mod Tests
use nats_ui.Prelude.{
  ℕ, ◌*◌, ◌/◌, min, String, Bool, true, false, Option, none, some, List, [], ◌∷◌, ◌++◌, length,
  Dict, ltb, if◌then◌else◌,
}

-- `WebSocket.readyState`.
pub data ReadyState : Type 0 where
  connecting opened closing closed : ReadyState

-- What the browser answers: the ready state of each socket, the socket that `new WebSocket(url)`
-- makes (`none` where that throws), and the identifier that `setTimeout` returns.
pub record Browser : Type 0 where
  pub ready : ℕ → ReadyState
  pub created : Option ℕ
  pub timer : ℕ

-- The calls of the browser that the class makes.
pub data Effect : Type 0 where
  open_socket : ℕ → Effect
  send_on : ℕ → String → Effect
  close_socket : ℕ → Effect
  set_timeout : ℕ → Effect
  clear_timeout : ℕ → Effect

-- The fields of the class; `getUrl` is part of `created`. Sockets, timers and callbacks are known by
-- number. The delay counts 1/32 ms, so that each delay below the maximum is a whole number.
pub record Client : Type 0 where
  pub ws : Option ℕ
  pub listeners : Dict (List ℕ)
  pub reconnect_timer : Option ℕ
  pub reconnect_delay : ℕ
  pub is_manual_close : Bool
  pub message_queue : List String

abbrev pub units : ℕ
units = 32

abbrev pub first_delay : ℕ
first_delay = 1000 * units

abbrev pub max_reconnect_delay : ℕ
max_reconnect_delay = 30000 * units

abbrev pub queue_limit : ℕ
queue_limit = 100

abbrev pub new_client : Client
new_client = record {
  ws = none;
  listeners = [];
  reconnect_timer = none;
  reconnect_delay = first_delay;
  is_manual_close = false;
  message_queue = [];
}

abbrev pub Result : Type 0
Result = Client × List Effect

-- `if (this.reconnectTimer) clearTimeout(this.reconnectTimer)`.
abbrev pub clear_timer : Option ℕ → List Effect
clear_timer none = []
clear_timer (some t) = clear_timeout t ∷ []

-- `_scheduleReconnect`; what the timer does is `on_timer`.
pub schedule_reconnect : Browser → Client → Result
schedule_reconnect b c = (
  record c { reconnect_timer = some b.timer },
  clear_timer c.reconnect_timer ++ set_timeout c.reconnect_delay ∷ [],
)

-- `this.ws?.readyState === WebSocket.OPEN`.
abbrev pub is_open : ReadyState → Bool
is_open opened = true
is_open _ = false

abbrev pub ws_is_open : Browser → Option ℕ → Bool
ws_is_open b none = false
ws_is_open b (some h) = is_open (b.ready h)

-- The body of `_connect`'s `try`, and its `catch`.
abbrev pub open_new : Browser → Option ℕ → Client → Result
open_new b none c = schedule_reconnect b c
open_new b (some h) c = (record c { ws = some h }, open_socket h ∷ [])

-- `_connect`.
pub connect_now : Browser → Client → Result
unfolding schedule_reconnect
connect_now b c = if ws_is_open b c.ws then (c, []) else open_new b b.created c

pub connect : Browser → Client → Result
unfolding connect_now
connect b c = connect_now b (record c { is_manual_close = false; reconnect_delay = first_delay })

-- `this.reconnectDelay * 1.5`, with the maximum.
pub next_delay : ℕ → ℕ
next_delay d = min (d * 3 / 2) max_reconnect_delay

-- The callback of the reconnect timer.
pub on_timer : Browser → Client → Result
unfolding connect_now next_delay
on_timer b c =
    let (c', out) = connect_now b c in
    (record c' { reconnect_delay = next_delay c'.reconnect_delay }, out)

-- The loop of `_onOpen`: what is left in the queue, and the calls. A message leaves the queue before
-- `this.ws?.send`, which does nothing without a socket, and throws on one that is connecting.
pub flush : Browser → Option ℕ → List String → List String × List Effect
flush b none q = ([], [])
flush b (some h) [] = ([], [])
flush b (some h) (m ∷ q) = elim (b.ready h) [
  | connecting ↦ (q, [])
  | _ ↦ let (left, out) = flush b (some h) q in (left, send_on h m ∷ out)
]

pub on_open : Browser → Client → Result
unfolding flush
on_open b c =
    let (left, out) = flush b c.ws c.message_queue in
    (record c { reconnect_delay = first_delay; message_queue = left }, out)

pub on_close : Browser → Client → Result
unfolding schedule_reconnect
on_close b c =
    let c' = record c { ws = none } in
    if c.is_manual_close then (c', []) else schedule_reconnect b c'

-- `push`, then `shift` where the limit is passed.
abbrev pub shift_over : ℕ → List String → List String
shift_over limit [] = []
shift_over limit (m ∷ q) = if ltb limit (length (m ∷ q)) then q else m ∷ q

-- `send`, from the message's text on.
pub send : Browser → String → Client → Result
send b msg c = elim (ws_is_open b c.ws) [
  | true ↦ elim c.ws [ none ↦ (c, []) | some h ↦ (c, send_on h msg ∷ []) ]
  | false ↦ (record c { message_queue = shift_over queue_limit (c.message_queue ++ msg ∷ []) }, [])
]

abbrev pub close_ws : Option ℕ → List Effect
close_ws none = []
close_ws (some h) = close_socket h ∷ []

pub disconnect : Client → Result
disconnect c =
    (record c { is_manual_close = true; ws = none }, clear_timer c.reconnect_timer ++ close_ws c.ws)

-- The getters `readyState` and `isConnected`.
pub ready_state : Browser → Client → ReadyState
ready_state b c = elim c.ws [ none ↦ closed | some h ↦ b.ready h ]

pub is_connected : Browser → Client → Bool
is_connected b c = ws_is_open b c.ws
