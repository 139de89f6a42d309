-- ===== src/Format.antt =====
-- frontend/src/lib/format.ts. What the language gives is the parameter `Floats`: `(n / d).toFixed(1)`,
-- the same through `parseFloat` and back to a text, the quotient of logarithms, `JSON`, `atob` and
-- `toUpperCase`. Texts are sequences of characters. `formatTimestamp`, which only calls `Date`, and
-- sizes with other than one decimal are left out.
pub mod Clock
pub mod Levels
mod Tests
use Prim.Native.String
use nats_ui.Prelude.{
  ℕ, zero, suc, ◌+◌, ◌-◌, ◌*◌, ◌/◌, ◌%◌, ◌^◌, String, str_eq, ◌^+◌, decimal, chars, Bool, ◌||◌,
  Option, none, some, or_else, List, [], ◌∷◌, get_elem?, ltb, leb, ◌==◌, if◌then◌else◌,
}

pub record Floats : Type 0 where
  pub to_fixed : ℕ → ℕ → String
  pub short_fixed : ℕ → ℕ → String
  pub log_quotient : ℕ → ℕ → ℕ
  pub pretty_json : String → Option String
  pub atob : String → Option String
  pub to_upper_case : String → String

abbrev size_names : List String
size_names = "B" ∷ "KB" ∷ "MB" ∷ "GB" ∷ "TB" ∷ "PB" ∷ []

-- `formatBytes`; an index out of range gives the text of `undefined`.
pub format_bytes : Floats → ℕ → String
format_bytes fl bytes =
    let i = fl.log_quotient bytes 1024 in
    if bytes == 0
    then "0 B"
    else fl.short_fixed bytes (1024 ^ i) ^+ (" " ^+ or_else (get_elem? size_names i) "undefined")

pub format_bytes_per_sec : Floats → ℕ → String
unfolding format_bytes
format_bytes_per_sec fl bps = format_bytes fl bps ^+ "/s"

-- `formatNumber` of a whole number.
pub format_number : Floats → ℕ → String
format_number fl n =
    if leb 1000000000 n
    then fl.to_fixed n 1000000000 ^+ "B"
    else if leb 1000000 n
    then fl.to_fixed n 1000000 ^+ "M"
    else if leb 1000 n
    then fl.to_fixed n 1000 ^+ "K"
    else decimal n

pub format_msgs_per_sec : Floats → ℕ → String
unfolding format_number
format_msgs_per_sec fl mps = format_number fl mps ^+ " msg/s"

pub data LagSeverity : Type 0 where
  ok warn critical : LagSeverity

pub format_lag : Floats → ℕ → String × LagSeverity
unfolding format_number
format_lag fl lag =
    if lag == 0
    then ("0", ok)
    else if ltb lag 1000
    then (format_number fl lag, ok)
    else if ltb lag 100000
    then (format_number fl lag, warn)
    else (format_number fl lag, critical)

pub format_duration : Floats → ℕ → String
format_duration fl ms =
    if ltb ms 1000
    then decimal ms ^+ "ms"
    else if ltb ms 60000
    then fl.to_fixed ms 1000 ^+ "s"
    else if ltb ms 3600000
    then decimal (ms / 60000) ^+ ("m " ^+ (decimal (ms % 60000 / 1000) ^+ "s"))
    else decimal (ms / 3600000) ^+ ("h " ^+ (decimal (ms % 3600000 / 60000) ^+ "m"))

-- `formatTimeAgo` for two times in milliseconds; a later `past` makes the difference negative, and
-- the answer is that of zero.
pub format_time_ago : ℕ → ℕ → String
format_time_ago now past =
    let diff = now - past in
    if ltb diff 1000
    then "just now"
    else if ltb diff 60000
    then decimal (diff / 1000) ^+ "s ago"
    else if ltb diff 3600000
    then decimal (diff / 60000) ^+ "m ago"
    else if ltb diff 86400000
    then decimal (diff / 3600000) ^+ "h ago"
    else decimal (diff / 86400000) ^+ "d ago"

-- `String(n).padStart(2, '0')`.
pub pad_two : ℕ → String
pad_two n = if ltb n 10 then "0" ^+ decimal n else decimal n

pub format_hhmmss : ℕ → String
unfolding pad_two
format_hhmmss ms =
    let total_sec = ms / 1000 in
    pad_two (total_sec / 3600)
    ^+ (":" ^+ (pad_two (total_sec % 3600 / 60) ^+ (":" ^+ pad_two (total_sec % 60))))

pub try_parse_json : Floats → String → Option String
try_parse_json fl s = fl.pretty_json s

pub base64_to_text : Floats → String → String
base64_to_text fl b64 = or_else (fl.atob b64) b64

pub first_chars : ℕ → String → String
first_chars zero s = ""
first_chars (suc n) String.[] = ""
first_chars (suc n) (String.◌∷◌ c s) = String.◌∷◌ c (first_chars n s)

pub truncate : String → ℕ → String
unfolding first_chars
truncate s max = if leb (chars s) max then s else first_chars max s ^+ "…"

-- The cases that the three functions for colours share.
abbrev pub is_warning : String → Bool
is_warning health = str_eq health "degraded" || str_eq health "slow" || str_eq health "lagging"

abbrev pub is_bad : String → Bool
is_bad health = str_eq health "critical" || str_eq health "dead" || str_eq health "redelivery_storm"

pub health_color : String → String
health_color health =
    if str_eq health "ok"
    then "text-accent-green"
    else if is_warning health
    then "text-accent-yellow"
    else if is_bad health
    then "text-accent-red"
    else "text-text-secondary"

pub health_bg : String → String
health_bg health =
    if str_eq health "ok"
    then "bg-accent-green/10 border-accent-green/20"
    else if is_warning health
    then "bg-accent-yellow/10 border-accent-yellow/20"
    else if is_bad health
    then "bg-accent-red/10 border-accent-red/20"
    else "bg-bg-surface border-bg-border"

pub health_dot : String → String
health_dot health =
    if str_eq health "ok"
    then "bg-accent-green"
    else if is_warning health
    then "bg-accent-yellow"
    else if is_bad health
    then "bg-accent-red animate-pulse"
    else "bg-text-muted"

pub source_label : Floats → String → String
source_label fl source =
    if str_eq source "local"
    then "LOCAL"
    else if str_eq source "docker"
    then "DOCKER"
    else if str_eq source "kubernetes"
    then "K8S"
    else if str_eq source "manual"
    then "MANUAL"
    else fl.to_upper_case source
