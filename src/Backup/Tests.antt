-- ===== src/Backup/Tests.antt =====
-- A backup of an empty stream.
use nats_ui.Prelude.{if◌then◌else◌, ℕ, String, str_eq, ◌≡◌, refl, true, false, none, some, []}
use nats_ui.Types.Streams.{StreamConfig, limits, file}
use nats_ui.Publisher.Placeholders.Trimming.{IsTrimmed}
use nats_ui.Backup.Archives.{StreamBackup}
use nats_ui.Backup.Values.{
  Value, null, text, object, no_members, member, field, find_member, archive_stream, value_of,
}
use nats_ui.Backup.{
  BackupPanel, RestorePanel, RestoreRequest, File, Parsed, value, resolved, stamp, backup_answered,
  on_file, run_restore, run_backup,
}
use nats_ui.Backup.RoundTrip.{IsArchive, on_file-backup_answered}

abbrev backup : StreamBackup
backup = record {
  version = 1;
  stream = "s";
  captured_at = "";
  config = record {
    name = "s";
    description = none;
    subjects = [];
    retention = limits;
    storage = file;
    max_age = none;
    max_bytes = none;
    max_msgs = none;
    max_msg_size = none;
    replicas = 1;
    discard = none;
    duplicates = none;
  };
  message_count = 0;
  truncated = none;
  messages = [];
}

abbrev panel : BackupPanel
panel = record { selected = "s"; busy = false; error = ""; done = none }

abbrev restore : RestorePanel
restore = record {
  backup = none;
  file_name = "";
  target = "";
  create_stream = true;
  busy = false;
  error = "";
  result = none;
}

stamp_tests :
    (stamp 19 "2024-01-02T03:04:05.678Z" ≡ "2024-01-02T03-04-05")
    × ((run_backup panel).1 ≡ some "s")
unfolding stamp run_backup
stamp_tests = (refl, refl)

-- An object stands for a configuration, and `JSON.parse` reads one text that occurs here as a backup.
abbrev config_value : StreamConfig → Value
config_value c = object (member "name" (text c.name) no_members)

abbrev parse : String → Parsed
parse s = if str_eq s "null" then value null else value (value_of config_value backup)

abbrev stringify : Value → String
stringify b = "{}"

abbrev bytes : String → ℕ
bytes s = 2

restore_tests :
    ((run_restore (on_file parse (some (record { name = "f"; content = "null" })) restore)).1
      ≡ none)
    × (archive_stream (object (member "stream" (text "s") no_members)) ≡ none)
unfolding run_restore on_file archive_stream field find_member
restore_tests = (refl, refl)

on_file-backup_answered_example :
    let v = value_of config_value backup in
    let file = (backup_answered stringify config_value bytes "" "s" (resolved backup) panel).1 in
    (IsTrimmed "s"
      → str_eq "s" "" ≡ false
      → (run_restore (on_file parse file restore)).1
        ≡ some (record { target_stream = some "s"; create_stream = true; backup = v }))
    × ((f : File) (r : RestoreRequest)
        → (run_restore (on_file parse (some f) restore)).1 ≡ some r
        → (parse f.content ≡ value r.backup) × IsArchive r.backup)
on_file-backup_answered_example =
    on_file-backup_answered stringify config_value bytes parse backup refl "" "s" panel restore
