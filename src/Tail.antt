-- ===== src/Tail.antt =====
-- frontend/src/components/tail/MessageTail.tsx: the view of a tail. `lower` is `toLowerCase`. The
-- running sum of the sizes is two references that each rendering updates. Scrolling and the rows of
-- the list are left out.

pub mod Sizes
mod Tests
use Prim.Native.String
use nats_ui.Prelude.{
  ℕ, ◌+◌, String, str_eq, char_eq, Bool, true, false, not, ◌&&◌, ◌||◌, Option, none, some, or_else,
  List, [], ◌∷◌, length, drop, filter, any, Dict, lookup, ltb, if◌then◌else◌,
}
use nats_ui.Types.Messages.{TailedMessage}
use nats_ui.Store.Data.{DataState}
use nats_ui.Store.Views.{TailMode, stream, subject, TailViewState}
use nats_ui.Publisher.Placeholders.{trim}
use nats_ui.Bridge.{
  App, Request, stream_key, subject_key, tail_start, tail_stop, subject_start, subject_stop,
}

pub record TailView : Type 0 where
  pub cluster_id : String
  pub mode : TailMode
  pub selected_stream : String
  pub subject_pattern : String
  pub filter_text : String
  pub paused : Bool
  pub last_scrolled_length : ℕ

-- `||` of a text that may be absent and another text.
abbrev or_text : Option String → String → String
or_text none b = b
or_text (some a) b = if str_eq a "" then b else a

-- The state at first, from the view's properties and the store.
pub initial_view : String → String → List String → Option String → TailViewState → TailView
initial_view cluster_prop stream_prop active_clusters active_stream stored = record {
  cluster_id = or_text (some cluster_prop) (elim active_clusters [ [] ↦ "" | c ∷ _ ↦ c ]);
  mode = stored.mode;
  selected_stream = or_text (some stream_prop) (or_text active_stream stored.selected_stream);
  subject_pattern = stored.subject_pattern;
  filter_text = stored.filter;
  paused = stored.is_paused;
  last_scrolled_length = 0;
}

pub active_key : TailView → String
active_key v = elim v.mode [
  | stream ↦ stream_key v.cluster_id v.selected_stream
  | subject ↦ subject_key v.cluster_id v.subject_pattern
]

pub messages_of : TailView → DataState → List TailedMessage
unfolding active_key
messages_of v s = or_else (lookup (active_key v) s.tail_messages) []

pub is_active : TailView → DataState → Bool
unfolding active_key
is_active v s = or_else (lookup (active_key v) s.tail_active) false

unfoldable pub starts_with : String → String → Bool
starts_with String.[] s = true
starts_with (String.◌∷◌ c q) String.[] = false
starts_with (String.◌∷◌ c q) (String.◌∷◌ d s) = char_eq c d && starts_with q s

-- `s.includes(q)`.
unfoldable pub includes : String → String → Bool
unfolding starts_with
includes q String.[] = starts_with q String.[]
includes q (String.◌∷◌ c s) = starts_with q (String.◌∷◌ c s) || includes q s

abbrev header_values : Option (Dict String) → List String
header_values none = []
header_values (some []) = []
header_values (some ((k, v) ∷ rest)) = v ∷ header_values (some rest)

-- What the filter keeps of a message.
pub matches : (String → String) → String → TailedMessage → Bool
unfolding includes
matches lower q m =
    includes q (lower m.subject)
    || includes q (lower m.payload_text)
    || any (λ v. includes q (lower v)) (header_values m.headers)

pub filtered : (String → String) → TailView → DataState → List TailedMessage
unfolding matches messages_of
filtered lower v s =
    let messages = messages_of v s in
    if str_eq (trim v.filter_text) ""
    then messages
    else filter (matches lower (lower v.filter_text)) messages

abbrev start_tail : TailView → App → App × List Request
start_tail v a = elim v.mode [
  | stream ↦ tail_start v.cluster_id v.selected_stream a
  | subject ↦ subject_start v.cluster_id v.subject_pattern a
]

abbrev stop_tail : TailView → App → App × List Request
stop_tail v a = elim v.mode [
  | stream ↦ tail_stop v.cluster_id v.selected_stream a
  | subject ↦ subject_stop v.cluster_id v.subject_pattern a
]

pub can_start : TailView → Bool
can_start v = elim v.mode [
  | stream ↦ not (str_eq v.selected_stream "")
  | subject ↦ not (str_eq (trim v.subject_pattern) "")
]

pub handle_toggle : TailView → App → TailView × (App × List Request)
unfolding is_active can_start
handle_toggle v a =
    if is_active v a.store
    then (record v { paused = false }, stop_tail v a)
    else if can_start v
    then (v, start_tail v a)
    else (v, (a, []))

pub switch_mode : TailMode → TailView → App → TailView × (App × List Request)
unfolding is_active
switch_mode next v a = (
  record v { mode = next; filter_text = ""; paused = false; last_scrolled_length = 0 },
  if is_active v a.store then stop_tail v a else (a, []),
)

-- `totalBytesRef` and `prevMsgLenRef`.
pub record Total : Type 0 where
  pub total_bytes : ℕ
  pub prev_len : ℕ

pub payload_sum : List TailedMessage → ℕ
payload_sum [] = 0
payload_sum (m ∷ ms) = m.payload_size + payload_sum ms

-- One rendering of the messages.
pub update_total : Total → List TailedMessage → Total
unfolding payload_sum
update_total t messages = record {
  total_bytes =
      if ltb (length messages) t.prev_len
      then payload_sum messages
      else if ltb t.prev_len (length messages)
      then t.total_bytes + payload_sum (drop t.prev_len messages)
      else t.total_bytes;
  prev_len = length messages;
}
