-- ===== src/Backup/Values.antt =====
-- The values of JSON, as frontend/src/components/backup/StreamBackupRestore.tsx reads and writes them.
-- `config_value` is a configuration as an object, of which nothing is read.
use nats_ui.Prelude.{
  true, false, ℤ, pos, String, str_eq, Bool, Option, none, some, List, [], ◌∷◌, Dict, if◌then◌else◌,
}
use nats_ui.Types.Streams.{StreamConfig}
use nats_ui.Backup.Archives.{BackupMessage, StreamBackup}

mutual
  pub data Value : Type 0 where
    null : Value
    boolean : Bool → Value
    number : ℤ → Value
    text : String → Value
    array : Values → Value
    object : Members → Value

  pub data Values : Type 0 where
    no_values : Values
    with_value : Value → Values → Values

  pub data Members : Type 0 where
    no_members : Members
    member : String → Value → Members → Members

-- `members[name]`; `none` is undefined.
unfoldable pub find_member : String → Members → Option Value
find_member name no_members = none
find_member name (member k v rest) =
    let found = find_member name rest in if str_eq k name then some v else found

-- `v.name` of a field that only objects have.
unfoldable pub field : String → Value → Option Value
unfolding find_member
field name (object ms) = find_member name ms
field name _ = none

-- `typeof v === 'string'`, with the text, and `Array.isArray(v)`.
abbrev pub text_of : Option Value → Option String
text_of (some (text s)) = some s
text_of _ = none

abbrev pub is_array : Option Value → Bool
is_array (some (array ms)) = true
is_array _ = false

-- The check of `onFile`: the stream of an archive. `null` has no fields, and neither has any other
-- value that is false.
unfoldable pub archive_stream : Value → Option String
unfolding field
archive_stream v = if is_array (field "messages" v) then text_of (field "stream" v) else none

abbrev header_members : Dict String → Members
header_members [] = no_members
header_members ((k, v) ∷ hs) = member k (text v) (header_members hs)

-- A member that is there where its value is.
abbrev with_headers : Option (Dict String) → Members → Members
with_headers none rest = rest
with_headers (some hs) rest = member "headers" (object (header_members hs)) rest

abbrev with_truncated : Option Bool → Members → Members
with_truncated none rest = rest
with_truncated (some b) rest = member "truncated" (boolean b) rest

abbrev message_value : BackupMessage → Value
message_value m = object (
    member "subject" (text m.subject) (
      member "seq" (number (pos m.seq)) (
        member "time" (text m.time)
          (with_headers m.headers (member "data" (text m.data') no_members)))))

abbrev message_values : List BackupMessage → Values
message_values [] = no_values
message_values (m ∷ ms) = with_value (message_value m) (message_values ms)

-- A backup as the object that it is.
unfoldable pub value_of : (StreamConfig → Value) → StreamBackup → Value
value_of config_value b = object (
    member "version" (number (pos b.version)) (
      member "stream" (text b.stream) (
        member "capturedAt" (text b.captured_at) (
          member "config" (config_value b.config) (
            member "messageCount" (number (pos b.message_count)) (
              with_truncated b.truncated
                (member "messages" (array (message_values b.messages)) no_members)))))))
