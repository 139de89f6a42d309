-- ===== src/Lab.antt =====
-- frontend/src/components/debug/ConsumerLab.tsx: fetching a batch from a pull consumer, and answering
-- its messages one by one. The handlers are in two halves, up to a call and from its answer; the
-- answer finds the state as it is by then. The lists of streams and consumers and the JSX are left
-- out.
pub mod Sessions
mod Tests
use nats_ui.Prelude.{
  ℕ, String, str_eq, Bool, true, false, not, ◌||◌, Option, none, some, List, [], ◌∷◌, length,
  filter, Dict, ◌==◌, if◌then◌else◌,
}
use nats_ui.Widgets.{Stepper, decrease, increase}

pub record DebugMessage : Type 0 where
  pub id : String
  pub subject : String
  pub stream_seq : ℕ
  pub consumer_seq : ℕ
  pub num_delivered : ℕ
  pub timestamp : String
  pub payload : String
  pub size : ℕ
  pub headers : Option (Dict String)

pub record Lab : Type 0 where
  pub stream : String
  pub consumer : String
  pub batch : ℕ
  pub fetching : Bool
  pub session_id : String
  pub messages : List DebugMessage
  pub acting : Option String
  pub error : String
  pub info : String

unfoldable pub initial_lab : Lab
initial_lab = record {
  stream = "";
  consumer = "";
  batch = 10;
  fetching = false;
  session_id = "";
  messages = [];
  acting = none;
  error = "";
  info = "";
}

pub data Action : Type 0 where
  ack nak term : Action

-- What goes to the API.
pub data Request : Type 0 where
  fetch : String → String → ℕ → Request
  answer : String → String → Action → Request

abbrev pub batch_stepper : Stepper
batch_stepper = record { low = 1; high = some 50; step = 1 }

pub data Event : Type 0 where
  choose_stream choose_consumer : String → Event
  fewer more do_fetch : Event
  fetched : String → List DebugMessage → Event
  fetch_failed : String → Event
  act : String → Action → Event
  acted : String → Event
  act_failed : String → Event

unfoldable pub handle : Event → Lab → Lab × Option Request
handle (choose_stream v) s = (record s { stream = v; consumer = ""; messages = [] }, none)
handle (choose_consumer v) s = (record s { consumer = v; messages = [] }, none)
handle fewer s = (record s { batch = decrease batch_stepper s.batch }, none)
handle more s = (record s { batch = increase batch_stepper s.batch }, none)
handle do_fetch s =
    if str_eq s.stream "" || str_eq s.consumer ""
    then (record s { error = "Select a stream and consumer" }, none)
    else (
      record s { fetching = true; error = ""; info = "" },
      some (fetch s.stream s.consumer s.batch),
    )
handle (fetched session ms) s = (
  record s {
    fetching = false;
    session_id = session;
    messages = ms;
    info =
        if length ms == 0
        then "Nothing pending to fetch — the consumer has no available messages right now."
        else s.info;
  },
  none,
)
handle (fetch_failed message) s = (record s { error = message; fetching = false }, none)
handle (act id action) s =
    (record s { acting = some id; error = "" }, some (answer s.session_id id action))
handle (acted id) s =
    (record s { messages = filter (λ m. not (str_eq m.id id)) s.messages; acting = none }, none)
handle (act_failed message) s = (record s { error = message; acting = none }, none)

unfoldable pub run : List Event → Lab → Lab
unfolding handle
run [] s = s
run (e ∷ es) s = run es (handle e s).0
