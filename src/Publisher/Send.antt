-- ===== src/Publisher/Send.antt =====
-- `handleSend` of frontend/src/components/publisher/MessagePublisher.tsx: one message, or a burst of
-- up to 10000. Parameters, in `Runtime`, are what the browser and the backend give: fresh values for
-- the placeholders of each message and each of its texts, `Number`, the length of a text in JavaScript, the clock, the backend's answer to
-- each message, and whether the user has stopped the burst before it. The waits between the messages
-- of a burst, and the flash of "Sent!" that a timer ends, are left out.
pub mod Bursts
pub mod Requests
mod Tests
use nats_ui.Prelude.{
  ℕ, zero, suc, ◌+◌, min, max, String, str_eq, ◌^+◌, decimal, Bool, true, false, not, ◌&&◌, ◌||◌,
  Option, none, some, or_else, List, [], ◌∷◌, take, Dict, insert, ◌==◌, if◌then◌else◌,
}
use nats_ui.Types.Publishing.{
  PublishRequest, PublishResult, PublishEncoding, base64, text, PublishMode, auto,
}
use nats_ui.Store.Views.{PublisherTab, PublisherOpts, Header}
use nats_ui.Publisher.Placeholders.{Fresh, trim, substitute}

-- What `api.publish` resolves to, or the message of its error.
pub data Answer : Type 0 where
  published : PublishResult → Answer
  failed : Option String → Answer

pub record Runtime : Type 0 where
  pub fresh : ℕ → ℕ → Fresh
  pub number : String → ℕ
  pub text_length : String → ℕ
  pub now : ℕ
  pub elapsed : ℕ
  pub answer : ℕ → Answer
  pub stopped : ℕ → Bool

pub record BurstCount : Type 0 where
  pub ok : ℕ
  pub fail : ℕ
  pub elapsed_ms : ℕ

pub record HistoryEntry : Type 0 where
  pub id : ℕ
  pub tab_id : String
  pub subject : String
  pub payload_size : ℕ
  pub result : Option PublishResult
  pub error : Option String
  pub ts : ℕ
  pub burst : Option BurstCount

-- The state that sending changes.
pub record Session : Type 0 where
  pub loading : Bool
  pub send_ok : Bool
  pub bursting : Bool
  pub burst_sent : ℕ
  pub history : List HistoryEntry
  pub history_id : ℕ

-- `Math.max(1, Math.min(Math.floor(count) || 1, 10000))`.
pub total_of : ℕ → ℕ
total_of count = max 1 (min (if count == 0 then 1 else count) 10000)

-- The headers whose name is not blank; a later one replaces an earlier one of the same name.
pub headers_from : Dict String → List Header → Dict String
unfolding trim
headers_from acc [] = acc
headers_from acc (h ∷ hs) =
    headers_from (if str_eq (trim h.key) "" then acc else insert (trim h.key) h.value acc) hs

abbrev some_headers : Dict String → Option (Dict String)
some_headers [] = none
some_headers (h ∷ hs) = some (h ∷ hs)

-- `v?.trim()` where that is not empty.
pub trimmed : Option String → Option String
unfolding trim
trimmed none = none
trimmed (some v) = if str_eq (trim v) "" then none else some (trim v)

abbrev pub is_base64 : Option PublishEncoding → Bool
is_base64 (some base64) = true
is_base64 _ = false

-- `o.mode && o.mode !== 'auto'`.
abbrev pub chosen_mode : Option PublishMode → Option PublishMode
chosen_mode none = none
chosen_mode (some auto) = none
chosen_mode (some m) = some m

abbrev pub no_opts : PublisherOpts
no_opts = record {
  mode = none;
  encoding = none;
  reply_to = none;
  msg_id = none;
  expect_stream = none;
  expect_last_seq = none;
  expect_last_subject_seq = none;
  expect_last_msg_id = none;
}

-- `buildReq`.
pub build_req : Runtime → Dict String → PublisherTab → ℕ → PublishRequest
unfolding substitute trim trimmed headers_from
build_req rt vars tab seq =
    let o = or_else tab.opts no_opts in
    record {
      subject = substitute (rt.fresh seq 0) (trim tab.subject) vars seq;
      payload =
          if is_base64 o.encoding
          then tab.payload
          else substitute (rt.fresh seq 1) tab.payload vars seq;
      headers = some_headers (headers_from [] tab.headers);
      reply_to = trimmed o.reply_to;
      encoding = if is_base64 o.encoding then some base64 else none;
      mode = chosen_mode o.mode;
      msg_id = elim (trimmed o.msg_id) [
        | none ↦ none
        | some t ↦ some (substitute (rt.fresh seq 2) t vars seq)
      ];
      expect_stream = trimmed o.expect_stream;
      expect_last_seq = elim (trimmed o.expect_last_seq) [
        | none ↦ none
        | some t ↦ some (rt.number t)
      ];
      expect_last_subject_seq = elim (trimmed o.expect_last_subject_seq) [
        | none ↦ none
        | some t ↦ some (rt.number t)
      ];
      expect_last_msg_id = trimmed o.expect_last_msg_id;
    }

-- `ok`, `fail`, `lastErr` and `burstSent` of a burst.
pub record Progress : Type 0 where
  pub ok : ℕ
  pub fail : ℕ
  pub last_err : String
  pub sent : ℕ

pub count_answer : Answer → ℕ → Progress → Progress
count_answer (published _) i p = record p { ok = p.ok + 1; sent = i }
count_answer (failed e) i p = record p {
  fail = p.fail + 1;
  last_err = or_else e "publish failed";
  sent = i;
}

-- The loop of a burst from message `i` on, with the requests that it makes.
pub burst_from :
    (ℕ → Answer)
    → (ℕ → Bool)
    → (ℕ → PublishRequest)
    → ℕ
    → ℕ
    → Progress
    → Progress × List PublishRequest
unfolding count_answer
burst_from answer stopped build zero i p = (p, [])
burst_from answer stopped build (suc left) i p =
    let (p', rs) = burst_from answer stopped build left (i + 1) (count_answer (answer i) i p) in
    if stopped i then (p, []) else (p', build i ∷ rs)

-- The newest 100 entries.
abbrev pub history_limit : ℕ
history_limit = 100

pub remember : HistoryEntry → Session → Session
remember entry s = record s {
  history = take history_limit (entry ∷ s.history);
  history_id = entry.id;
}

abbrev plain_entry : Runtime → PublisherTab → Session → HistoryEntry
plain_entry rt tab s = record {
  id = s.history_id + 1;
  tab_id = tab.id;
  subject = trim tab.subject;
  payload_size = rt.text_length tab.payload;
  result = none;
  error = none;
  ts = rt.now;
  burst = none;
}

pub send_one : Runtime → Dict String → PublisherTab → Session → Session × List PublishRequest
unfolding remember build_req trim
send_one rt vars tab s =
    let entry = plain_entry rt tab s in
    elim (rt.answer 1) [
      | published r ↦ (
        remember (record entry { result = some r }) (record s { send_ok = true; loading = false }),
        build_req rt vars tab 1 ∷ [],
      )
      | failed e ↦ (
        remember (record entry { error = some (or_else e "publish failed") })
            (record s { send_ok = false; loading = false }),
        build_req rt vars tab 1 ∷ [],
      )
    ]

pub burst_entry : Runtime → PublisherTab → Session → Progress → HistoryEntry
unfolding trim
burst_entry rt tab s p = record (plain_entry rt tab s) {
  result =
      if p.fail == 0
      then some (record {
        subject = trim tab.subject;
        stream = none;
        seq = none;
        accepted = true;
        duplicate = none;
        delivery = none;
      })
      else none;
  error =
      if p.fail == 0
      then none
      else some (
          decimal p.fail
          ^+ (" failed" ^+ (if str_eq p.last_err "" then "" else " — " ^+ p.last_err)));
  burst = some (record { ok = p.ok; fail = p.fail; elapsed_ms = rt.elapsed });
}

abbrev pub no_progress : Progress
no_progress = record { ok = 0; fail = 0; last_err = ""; sent = 0 }

pub send_burst : Runtime → Dict String → PublisherTab → ℕ → Session → Session × List PublishRequest
unfolding burst_from remember burst_entry build_req
send_burst rt vars tab total s =
    let (p, rs) = burst_from rt.answer rt.stopped (build_req rt vars tab) total 1 no_progress in
    (remember (burst_entry rt tab s p) (record s { bursting = false; burst_sent = p.sent }), rs)

-- `handleSend`.
pub handle_send :
    Runtime
    → String
    → Dict String
    → Option PublisherTab
    → ℕ
    → Session
    → Session × List PublishRequest
unfolding trim total_of send_one send_burst
handle_send rt cluster_id vars none count s = (s, [])
handle_send rt cluster_id vars (some tab) count s =
    if str_eq cluster_id "" || str_eq (trim tab.subject) "" || s.loading || s.bursting
    then (s, [])
    else if total_of count == 1
    then send_one rt vars tab s
    else send_burst rt vars tab (total_of count) s
