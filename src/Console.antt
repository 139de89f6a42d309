-- ===== src/Console.antt =====
-- frontend/src/components/request/RequestReplyConsole.tsx: sending a request and keeping the replies.
-- `send` is in two halves, up to the call and from its answer. `now` is `Date.now()`. The state of the
-- fields and the JSX are left out but for what a request takes from them.
pub mod Replies
mod Tests
use nats_ui.Prelude.{
  ℕ, zero, suc, ◌+◌, String, str_eq, Bool, true, false, not, ◌&&◌, ◌||◌, Option, none, some, List,
  [], ◌∷◌, ◌++◌, length, take, filter, Dict, insert, ◌==◌, if◌then◌else◌,
}
use nats_ui.Publisher.Placeholders.{trim}
use nats_ui.Store.Views.{Header}
use nats_ui.Widgets.{Stepper, decrease, increase}

pub record Reply : Type 0 where
  pub subject : Option String
  pub payload : String
  pub headers : Option (Dict String)
  pub size : ℕ
  pub rtt_ms : ℕ
  pub no_responders : Option Bool
  pub timed_out : Option Bool

pub record Request : Type 0 where
  pub subject : String
  pub payload : String
  pub headers : Option (Dict String)
  pub timeout_ms : ℕ

pub record HistoryItem : Type 0 where
  pub subject : String
  pub res : Reply
  pub at : ℕ

pub record Console : Type 0 where
  pub subject : String
  pub payload : String
  pub headers : List Header
  pub timeout_ms : ℕ
  pub sending : Bool
  pub error : String
  pub result : Option Reply
  pub history : List HistoryItem

unfoldable pub initial_console : Console
initial_console = record {
  subject = "";
  payload = "";
  headers = [];
  timeout_ms = 2000;
  sending = false;
  error = "";
  result = none;
  history = [];
}

-- `headers.map((x, j) => j === i ? { ...x, ...patch } : x)`.
abbrev pub set_at {ℓ} : {A : Type ℓ} → ℕ → (A → A) → List A → List A
set_at i f [] = []
set_at zero f (x ∷ xs) = f x ∷ xs
set_at (suc i) f (x ∷ xs) = x ∷ set_at i f xs

-- `headers.filter((_, j) => j !== i)`.
abbrev pub remove_at {ℓ} : {A : Type ℓ} → ℕ → List A → List A
remove_at i [] = []
remove_at zero (x ∷ xs) = xs
remove_at (suc i) (x ∷ xs) = x ∷ remove_at i xs

-- `Object.fromEntries` of the headers that have a name: the last one of a name counts.
unfoldable pub entries_from : Dict String → List Header → Dict String
entries_from m [] = m
entries_from m (h ∷ hs) =
    entries_from (if str_eq (trim h.key) "" then m else insert (trim h.key) h.value m) hs

abbrev pub or_undefined : Dict String → Option (Dict String)
or_undefined [] = none
or_undefined (e ∷ m) = some (e ∷ m)

-- `send`, for the cluster that is connected, or "".
unfoldable pub send : String → Console → Console × Option Request
unfolding entries_from
send cluster_id s =
    if str_eq (trim s.subject) ""
    then (record s { error = "Subject is required" }, none)
    else if str_eq cluster_id ""
    then (record s { error = "No cluster connected" }, none)
    else (
      record s { sending = true; error = ""; result = none },
      some (record {
        subject = trim s.subject;
        payload = s.payload;
        headers = or_undefined (entries_from [] s.headers);
        timeout_ms = s.timeout_ms;
      }),
    )

abbrev pub history_limit : ℕ
history_limit = 20

-- The answer to a request for the subject `asked`.
unfoldable pub answered : ℕ → String → Reply → Console → Console
answered now asked res s = record s {
  result = some res;
  history = take history_limit (record { subject = asked; res = res; at = now } ∷ s.history);
  sending = false;
}

unfoldable pub failed : String → Console → Console
failed message s = record s { error = message; sending = false }

-- A click on an entry of the history.
unfoldable pub recall : HistoryItem → Console → Console
recall h s = record s { subject = h.subject; result = some h.res }

unfoldable pub add_header : Console → Console
add_header s = record s { headers = s.headers ++ record { key = ""; value = "" } ∷ [] }

unfoldable pub set_header : ℕ → (Header → Header) → Console → Console
set_header i patch s = record s { headers = set_at i patch s.headers }

unfoldable pub remove_header : ℕ → Console → Console
remove_header i s = record s { headers = remove_at i s.headers }

abbrev pub timeout_stepper : Stepper
timeout_stepper = record { low = 100; high = some 30000; step = 500 }

pub data Event : Type 0 where
  type_subject type_payload failure : String → Event
  new_header less_time more_time : Event
  patch_header : ℕ → (Header → Header) → Event
  drop_header : ℕ → Event
  click_send : String → Event
  reply : ℕ → String → Reply → Event
  click_history : HistoryItem → Event

unfoldable pub handle : Event → Console → Console
unfolding send answered failed recall add_header set_header remove_header
handle (type_subject v) s = record s { subject = v }
handle (type_payload v) s = record s { payload = v }
handle (failure message) s = failed message s
handle new_header s = add_header s
handle less_time s = record s { timeout_ms = decrease timeout_stepper s.timeout_ms }
handle more_time s = record s { timeout_ms = increase timeout_stepper s.timeout_ms }
handle (patch_header i patch) s = set_header i patch s
handle (drop_header i) s = remove_header i s
handle (click_send cluster_id) s = (send cluster_id s).0
handle (reply now asked res) s = answered now asked res s
handle (click_history h) s = recall h s

unfoldable pub run : List Event → Console → Console
unfolding handle
run [] s = s
run (e ∷ es) s = run es (handle e s)
