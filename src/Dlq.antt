-- ===== src/Dlq.antt =====
-- frontend/src/components/dlq/DeadLetterQueue.tsx: the filter of the dead letters and the counts that
-- it shows. `lower` is `toLowerCase`; clearing the queue is a call of the API and a new fetch.
pub mod Counts
mod Tests
use nats_ui.Prelude.{
  ℕ, String, str_eq, Bool, true, false, ◌&&◌, ◌||◌, Option, or_else, List, [], length, filter,
}
use nats_ui.Types.DeadLetters.{DeadLetterType, max_deliver, terminated, DeadLetter}
use nats_ui.Tail.{includes}

pub data TypeFilter : Type 0 where
  every : TypeFilter
  only : DeadLetterType → TypeFilter

abbrev pub same_type : DeadLetterType → DeadLetterType → Bool
same_type max_deliver max_deliver = true
same_type terminated terminated = true
same_type _ _ = false

-- `typeFilter === 'all' || e.type === typeFilter`.
abbrev pub has_type : TypeFilter → DeadLetter → Bool
has_type every e = true
has_type (only t) e = same_type e.type t

pub is_shown : (String → String) → TypeFilter → String → DeadLetter → Bool
is_shown lower type_filter stream_filter e =
    has_type type_filter e
    && (str_eq stream_filter "" || includes (lower stream_filter) (lower e.stream))

-- `events`; where nothing is fetched there are none.
pub events : (String → String) → TypeFilter → String → Option (List DeadLetter) → List DeadLetter
unfolding is_shown
events lower type_filter stream_filter fetched =
    filter (is_shown lower type_filter stream_filter) (or_else fetched [])

pub total : Option (List DeadLetter) → ℕ
total fetched = length (or_else fetched [])

-- `maxDeliverCount` and `terminatedCount`.
pub count_type : DeadLetterType → Option (List DeadLetter) → ℕ
count_type t fetched = length (filter (has_type (only t)) (or_else fetched []))
