-- ===== src/Backup.antt =====
-- frontend/src/components/backup/StreamBackupRestore.tsx: backing up a stream into a file, and
-- restoring one from a file. `stringify` and `parse` are `JSON.stringify` and `JSON.parse`, and
-- `bytes` is the size of a `Blob`. The handlers are in two halves, up to a call and from its answer.
pub mod Archives
pub mod Values
pub mod RoundTrip
mod Tests
use Prim.Native.Char.{Char}
use Prim.Native.String
use nats_ui.Prelude.{
  ℕ, zero, suc, String, str_eq, char_eq, ◌^+◌, Bool, true, false, ◌||◌, Option, none, some, or_else,
  List, [], ◌∷◌, Dict, if◌then◌else◌,
}
use nats_ui.Types.Streams.{StreamConfig}
use nats_ui.Publisher.Placeholders.{trim}
use nats_ui.Backup.Archives.{BackupMessage, StreamBackup}
use nats_ui.Backup.Values.{Value, archive_stream, value_of}

-- `as StreamBackup` checks nothing: what was read is kept as it is.
pub record RestoreRequest : Type 0 where
  pub target_stream : Option String
  pub create_stream : Bool
  pub backup : Value

pub record RestoreResult : Type 0 where
  pub target_stream : String
  pub stream_created : Bool
  pub total : ℕ
  pub restored : ℕ
  pub failed : ℕ
  pub error : Option String

-- The answer to a call, or the message of an error; a thrown value that is no error has none.
pub data Answer (A : Type 0) : Type 0 where
  resolved : A → Answer A
  rejected : Option String → Answer A

pub record Done : Type 0 where
  pub stream : String
  pub count : ℕ
  pub bytes : ℕ
  pub truncated : Bool

pub record BackupPanel : Type 0 where
  pub selected : String
  pub busy : Bool
  pub error : String
  pub done : Option Done

-- A file with its name.
pub record File : Type 0 where
  pub name : String
  pub content : String

abbrev dashed : Char → Char
dashed c = if char_eq c ":" || char_eq c "." then "-" else c

-- `iso.replace(/[:.]/g, '-').slice(0, n)`.
pub stamp : ℕ → String → String
stamp zero s = String.[]
stamp (suc n) String.[] = String.[]
stamp (suc n) (String.◌∷◌ c s) = String.◌∷◌ (dashed c) (stamp n s)

pub select_stream : String → BackupPanel → BackupPanel
select_stream v p = record p { selected = v; done = none; error = "" }

-- The stream that `runBackup` asks for.
pub run_backup : BackupPanel → BackupPanel × Option String
run_backup p =
    if str_eq p.selected ""
    then (p, none)
    else (record p { busy = true; error = ""; done = none }, some p.selected)

-- The answer for the stream `name`, with the file that is downloaded.
unfoldable pub backup_answered :
    (Value → String)
    → (StreamConfig → Value)
    → (String → ℕ)
    → String
    → String
    → Answer StreamBackup
    → BackupPanel
    → BackupPanel × Option File
backup_answered stringify config_value bytes iso name (resolved b) p =
    let json = stringify (value_of config_value b) in
    (
      record p {
        done = some (record {
          stream = name;
          count = b.message_count;
          bytes = bytes json;
          truncated = or_else b.truncated false;
        });
        busy = false;
      },
      some (record {
        name = name ^+ ("-backup-" ^+ (stamp 19 iso ^+ ".natsui.json"));
        content = json;
      }),
    )
backup_answered stringify config_value bytes iso name (rejected message) p =
    (record p { error = or_else message "backup failed"; busy = false }, none)

-- What `JSON.parse` gives for a text: a value, or the message of the error that it throws.
pub data Parsed : Type 0 where
  no_json : String → Parsed
  value : Value → Parsed

pub record RestorePanel : Type 0 where
  pub backup : Option Value
  pub file_name : String
  pub target : String
  pub create_stream : Bool
  pub busy : Bool
  pub error : String
  pub result : Option RestoreResult

pub initial_restore : RestorePanel
initial_restore = record {
  backup = none;
  file_name = "";
  target = "";
  create_stream = true;
  busy = false;
  error = "";
  result = none;
}

-- The check of a value, and what follows it.
abbrev pub check_value : Option String → Value → String → RestorePanel → RestorePanel
check_value none v name p = record p { error = "not a NatsUI stream backup archive" }
check_value (some stream) v name p = record p { backup = some v; file_name = name; target = stream }

abbrev pub read_archive : Parsed → String → RestorePanel → RestorePanel
read_archive (no_json message) name p = record p { error = message }
read_archive (value v) name p = check_value (archive_stream v) v name p

-- `onFile`; `none` where no file was picked.
unfoldable pub on_file : (String → Parsed) → Option File → RestorePanel → RestorePanel
on_file parse none p = p
on_file parse (some f) p =
    read_archive (parse f.content) f.name (record p { error = ""; result = none; backup = none })

pub clear : RestorePanel → RestorePanel
clear p = record p { backup = none; file_name = ""; target = ""; result = none; error = "" }

abbrev or_undefined : String → Option String
or_undefined v = if str_eq v "" then none else some v

unfoldable pub run_restore : RestorePanel → RestorePanel × Option RestoreRequest
run_restore p = elim p.backup [
  | none ↦ (p, none)
  | some b ↦ (
    record p { busy = true; error = ""; result = none },
    some (record {
      target_stream = or_undefined (trim p.target);
      create_stream = p.create_stream;
      backup = b;
    }),
  )
]

pub restore_answered : Answer RestoreResult → RestorePanel → RestorePanel
restore_answered (resolved r) p = record p { result = some r; busy = false }
restore_answered (rejected message) p = record p {
  error = or_else message "restore failed";
  busy = false;
}
