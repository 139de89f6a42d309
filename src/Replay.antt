-- ===== src/Replay.antt =====
-- frontend/src/components/replay/ReplayStudio.tsx: starting and stopping replays. `parse_int` is
-- `parseInt`, `none` for a text that is no number, and `iso` is the time of the form as `Date` writes
-- it. A number that is not one is written as null in JSON, which is not told from an absent field.
pub mod Identifiers
mod Tests
use nats_ui.Prelude.{
  ℕ, ◌+◌, String, str_eq, ◌^+◌, decimal, Bool, true, false, not, ◌&&◌, ◌||◌, Option, none, some,
  or_else, is_some, List, [], ◌∷◌, filter, if◌then◌else◌,
}
use nats_ui.Types.Replays.{ReplayConfig, ReplayProgress}

pub data StartMode : Type 0 where
  seq time beginning : StartMode

pub record Studio : Type 0 where
  pub replay_counter : ℕ
  pub cluster_id : String
  pub stream : String
  pub mode : StartMode
  pub start_seq : String
  pub start_time : String
  pub end_seq : String
  pub throttle_ms : String
  pub filter_subj : String
  pub shadow_subj : String

-- `replay-${++replayCounter}-${Date.now()}`, for the counter's new value.
pub new_replay_id : ℕ → ℕ → String
new_replay_id n now = "replay-" ^+ (decimal n ^+ ("-" ^+ decimal now))

-- What goes to `ws.send`.
pub data Command : Type 0 where
  replay_start : ReplayConfig → Command
  replay_stop : String → Command

abbrev filled : String → Option String
filled v = if str_eq v "" then none else some v

abbrev filled_number : (String → Option ℕ) → String → Option ℕ
filled_number parse_int v = if str_eq v "" then none else parse_int v

pub replay_config : (String → Option ℕ) → (String → String) → String → Studio → ReplayConfig
replay_config parse_int iso id s = record {
  id = id;
  cluster_id = s.cluster_id;
  stream = s.stream;
  consumer_name = "natsui-replay-" ^+ id;
  start_seq = elim s.mode [ seq ↦ filled_number parse_int s.start_seq | _ ↦ none ];
  start_time = elim s.mode [
    | time ↦ if str_eq s.start_time "" then none else some (iso s.start_time)
    | _ ↦ none
  ];
  end_seq = filled_number parse_int s.end_seq;
  end_time = none;
  throttle_ms = some (or_else (parse_int s.throttle_ms) 0);
  shadow_subject = filled s.shadow_subj;
  filter_subject = filled s.filter_subj;
}

pub handle_start : (String → Option ℕ) → (String → String) → ℕ → Studio → Studio × List Command
unfolding replay_config new_replay_id
handle_start parse_int iso now s =
    let n = s.replay_counter + 1 in
    if str_eq s.stream "" then (s, []) else (
      record s { replay_counter = n },
      replay_start (replay_config parse_int iso (new_replay_id n now) s) ∷ [],
    )

pub handle_stop : String → List Command
handle_stop id = replay_stop id ∷ []

-- An error is one that is not an empty text.
abbrev pub has_ended : ReplayProgress → Bool
has_ended r = r.done || elim r.error [ none ↦ false | some e ↦ not (str_eq e "") ]

pub active_replays : List ReplayProgress → List ReplayProgress
active_replays replays = filter (λ r. not (has_ended r)) replays

pub done_replays : List ReplayProgress → List ReplayProgress
done_replays replays = filter has_ended replays
