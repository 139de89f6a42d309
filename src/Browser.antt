-- ===== src/Browser.antt =====
-- frontend/src/components/tail/MessageBrowser.tsx: paging through the stored messages of a stream.
-- The texts of the form stay as they are while the user pages; `parse_int` is `parseInt`, of texts
-- that are numbers. Whether a query runs again depends on the fetch key, which each handler counts up.
pub mod Paging
mod Tests
use nats_ui.Prelude.{
  ℕ, zero, suc, ◌+◌, String, str_eq, Bool, true, false, not, ◌&&◌, Option, none, some, or_else,
  List, [], ◌∷◌, ◌++◌, length, last?, ltb, leb, ◌==◌, if◌then◌else◌,
}
use nats_ui.Types.Messages.{StoredMessage}
use nats_ui.Store.Views.{BrowserViewState}

abbrev pub page_size : ℕ
page_size = 50

pub record Browser : Type 0 where
  pub selected_stream : String
  pub subject_filter : String
  pub start_seq : String
  pub fetch_key : ℕ
  pub next_seq : Option ℕ
  pub history : List ℕ
  pub expanded_seq : Option ℕ

abbrev non_empty : Option String → Bool
non_empty none = false
non_empty (some s) = not (str_eq s "")

-- The state at first, from the store.
pub initial_browser : Option String → BrowserViewState → Browser
initial_browser active_stream stored = record {
  selected_stream = or_else active_stream stored.selected_stream;
  subject_filter = stored.subject_filter;
  start_seq = stored.start_seq;
  fetch_key =
      if non_empty active_stream then 1 else if str_eq stored.selected_stream "" then 0 else 1;
  next_seq = none;
  history = [];
  expanded_seq = none;
}

-- `nextSeq ?? (startSeq ? parseInt(startSeq, 10) : undefined)`.
pub effective_start : (String → ℕ) → Browser → Option ℕ
effective_start parse_int s = elim s.next_seq [
  | some n ↦ some n
  | none ↦ if str_eq s.start_seq "" then none else some (parse_int s.start_seq)
]

-- The parameters of the query, and whether it runs.
pub record Query : Type 0 where
  pub stream : String
  pub start_seq : Option ℕ
  pub limit : ℕ
  pub subject : Option String

pub query_of : (String → ℕ) → Browser → Query
unfolding effective_start
query_of parse_int s = record {
  stream = s.selected_stream;
  start_seq = effective_start parse_int s;
  limit = page_size;
  subject = if str_eq s.subject_filter "" then none else some s.subject_filter;
}

pub is_enabled : String → Browser → Bool
is_enabled cluster_id s =
    not (str_eq cluster_id "") && not (str_eq s.selected_stream "") && ltb 0 s.fetch_key

pub handle_fetch : Browser → Browser
handle_fetch s = record s {
  history = [];
  next_seq = none;
  fetch_key = s.fetch_key + 1;
  expanded_seq = none;
}

-- `handleNextPage`, with the messages that are shown, if any.
pub handle_next_page : (String → ℕ) → Option (List StoredMessage) → Browser → Browser
unfolding effective_start
handle_next_page parse_int none s = s
handle_next_page parse_int (some messages) s = elim (last? messages) [
  | none ↦ s
  | some last ↦ if ltb (length messages) page_size then s else record s {
    history = s.history ++ or_else (effective_start parse_int s) 0 ∷ [];
    next_seq = some (last.seq + 1);
    expanded_seq = none;
    fetch_key = s.fetch_key + 1;
  }
]

-- `slice(0, -1)`.
pub but_last : List ℕ → List ℕ
but_last [] = []
but_last (x ∷ []) = []
but_last (x ∷ y ∷ rest) = x ∷ but_last (y ∷ rest)

pub handle_prev_page : Browser → Browser
unfolding but_last
handle_prev_page s = elim (last? s.history) [
  | none ↦ s
  | some prev ↦ record s {
    history = but_last s.history;
    next_seq = if prev == 0 then none else some prev;
    expanded_seq = none;
    fetch_key = s.fetch_key + 1;
  }
]

pub has_next_page : Option (List StoredMessage) → Bool
has_next_page messages = leb page_size (length (or_else messages []))

pub has_prev_page : Browser → Bool
has_prev_page s = ltb 0 (length s.history)

pub page_num : Browser → ℕ
page_num s = length s.history + 1
