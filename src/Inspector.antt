-- ===== src/Inspector.antt =====
-- frontend/src/components/consumers/ConsumerInspector.tsx: the chosen stream and consumer, which the
-- inspector keeps itself and writes to the store. `onSuccess` of the deletion reads the selection as
-- the latest render has it. The form that creates a consumer, fetching and the JSX are left out.
pub mod Selection
mod Tests
use nats_ui.Prelude.{
  ℕ, String, str_eq, Bool, true, false, ◌||◌, Option, none, some, List, [], ◌∷◌, filter, find?,
  length, if◌then◌else◌,
}
use nats_ui.Types.Consumers.{ConsumerInfo, ConsumerHealth, slow, lagging, redelivery_storm, dead}
use nats_ui.Store.Views.{ViewStates, set_consumer_state}

pub record Inspector : Type 0 where
  pub selected_stream : String
  pub selected_consumer : Option String
  pub show_create : Bool

-- The inspector and the views of the store.
pub record State : Type 0 where
  pub view : Inspector
  pub store : ViewStates

-- What the inspector is mounted with.
pub seed : ViewStates → Inspector
seed store = record {
  selected_stream = store.consumers.selected_stream;
  selected_consumer = store.consumers.selected_consumer;
  show_create = false;
}

pub set_selected_stream : String → State → State
set_selected_stream s st = record {
  view = record (st.view) { selected_stream = s };
  store =
      set_consumer_state (record { selected_stream = some s; selected_consumer = some none })
        st.store;
}

pub set_selected_consumer : Option String → State → State
set_selected_consumer c st = record {
  view = record (st.view) { selected_consumer = c };
  store =
      set_consumer_state (record { selected_stream = none; selected_consumer = some c }) st.store;
}

pub set_show_create : Bool → State → State
set_show_create b st = record st { view = record (st.view) { show_create = b } }

-- What the user does, and the answers. `remount` is leaving the inspector and opening it again.
pub data Event : Type 0 where
  choose_stream choose_consumer consumer_deleted consumer_created : String → Event
  new_consumer close_form remount : Event

abbrev pub is_selected : Option String → String → Bool
is_selected none name = false
is_selected (some c) name = str_eq c name

pub handle : Event → State → State
handle (choose_stream s) st = set_show_create false (set_selected_stream s st)
handle (choose_consumer c) st = set_show_create false (set_selected_consumer (some c) st)
handle (consumer_deleted name) st =
    set_show_create false
      (if is_selected st.view.selected_consumer name then set_selected_consumer none st else st)
handle (consumer_created name) st = set_selected_consumer (some name) (set_show_create false st)
handle new_consumer st = set_selected_consumer none (set_show_create true st)
handle close_form st = set_show_create false st
handle remount st = record st { view = seed st.store }

pub run : List Event → State → State
run [] st = st
run (e ∷ es) st = run es (handle e st)

-- The selected consumer, among those that are listed. Its details are shown while the form is closed.
pub selected : List ConsumerInfo → Inspector → Option ConsumerInfo
selected consumers v = find? (λ c. is_selected v.selected_consumer c.name) consumers

abbrev pub is_slow : ConsumerHealth → Bool
is_slow slow = true
is_slow lagging = true
is_slow _ = false

abbrev pub is_storm : ConsumerHealth → Bool
is_storm redelivery_storm = true
is_storm _ = false

abbrev pub is_dead : ConsumerHealth → Bool
is_dead dead = true
is_dead _ = false

pub count_health : (ConsumerHealth → Bool) → List ConsumerInfo → ℕ
count_health is consumers = length (filter (λ c. is c.health) consumers)
