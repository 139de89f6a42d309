-- ===== src/Backup/RoundTrip.antt =====
-- A backup that is restored from its file, and what is restored at all.
use nats_ui.Prelude.{
  true, Bool-cases, ℕ, String, str_eq, ◌≡◌, refl, ap, ◌∙◌, false, Option, none, some, inl, inr,
  Option-cases,
}
use nats_ui.Types.Streams.{StreamConfig}
use nats_ui.Publisher.Placeholders.{trim}
use nats_ui.Publisher.Placeholders.Trimming.{IsTrimmed}
use nats_ui.Backup.Archives.{StreamBackup}
use nats_ui.Backup.Values.{
  Value, Values, null, boolean, number, text, array, object, field, find_member, archive_stream,
  text_of, is_array, value_of,
}
use nats_ui.Backup.{
  BackupPanel, RestorePanel, RestoreRequest, File, Parsed, no_json, value, resolved, read_archive,
  backup_answered, on_file, run_restore,
}

-- A backup passes the check, with its stream.
archive_stream-value_of :
    (config_value : StreamConfig → Value) (b : StreamBackup)
    → archive_stream (value_of config_value b) ≡ some b.stream
unfolding archive_stream value_of field find_member
archive_stream-value_of config_value b = elim (Option-cases b.truncated) [
  | inl e ↦ rw e refl
  | inr (t, e) ↦ rw e refl
]

-- The panel after a file with an archive was read.
on_file-archive :
    (parse : String → Parsed) (f : File) (p : RestorePanel) (v : Value) (stream : String)
    → parse f.content ≡ value v
    → archive_stream v ≡ some stream
    → ((on_file parse (some f) p).backup ≡ some v)
      × ((on_file parse (some f) p).target ≡ stream)
      × ((on_file parse (some f) p).create_stream ≡ p.create_stream)
unfolding on_file
on_file-archive parse f p v stream e found = rw (e, found) (refl, refl, refl)

run_restore-of_backup :
    (p : RestorePanel) (v : Value) (target : String)
    → p.backup ≡ some v
    → trim p.target ≡ target
    → str_eq target "" ≡ false
    → (run_restore p).1
      ≡ some (record { target_stream = some target; create_stream = p.create_stream; backup = v })
unfolding run_restore
run_restore-of_backup p v target e t filled = rw (run_restore, e, t, filled) refl

-- What is restored is the backup of the panel.
run_restore-backup :
    (p : RestorePanel) (r : RestoreRequest) → (run_restore p).1 ≡ some r → p.backup ≡ some r.backup
unfolding run_restore
run_restore-backup p r e = elim (Option-cases p.backup) [
  | inl none_there ↦ absurd (let no : none ≡ some r = rw none_there at e in cc)
  | inr (v, there) ↦
      let same = rw there at e in
      there ∙ ap (λ o. elim o [ none ↦ none | some r ↦ some r.backup ]) same
]

-- An object whose `stream` is a text, and whose `messages` are an array.
pub record IsArchive (v : Value) : Type 0 where
  pub stream : String
  pub messages : Values
  pub has_stream : field "stream" v ≡ some (text stream)
  pub has_messages : field "messages" v ≡ some (array messages)

text_of_lem : (o : Option Value) (s : String) → text_of o ≡ some s → o ≡ some (text s)
text_of_lem none s e = cc
text_of_lem (some null) s e = cc
text_of_lem (some (boolean b)) s e = cc
text_of_lem (some (number n)) s e = cc
text_of_lem (some (text t)) s e = cc
text_of_lem (some (array vs)) s e = cc
text_of_lem (some (object ms)) s e = cc

is_array_lem : (o : Option Value) → is_array o ≡ true → (vs : Values) × (o ≡ some (array vs))
is_array_lem none e = cc
is_array_lem (some null) e = cc
is_array_lem (some (boolean b)) e = cc
is_array_lem (some (number n)) e = cc
is_array_lem (some (text t)) e = cc
is_array_lem (some (array vs)) e = (vs, refl)
is_array_lem (some (object ms)) e = cc

archive_stream-IsArchive : (v : Value) (s : String) → archive_stream v ≡ some s → IsArchive v
unfolding archive_stream
archive_stream-IsArchive v s e = elim (Bool-cases (is_array (field "messages" v))) [
  | inl h ↦
      let (vs, messages) = is_array_lem (field "messages" v) h in
      record {
        stream = s;
        messages = vs;
        has_stream = text_of_lem (field "stream" v) s (rw h at e);
        has_messages = messages;
      }
  | inr h ↦ absurd (let no : none ≡ some s = rw h at e in cc)
]

read_archive-IsArchive :
    (parsed : Parsed) (name : String) (p : RestorePanel) (v : Value)
    → p.backup ≡ none
    → (read_archive parsed name p).backup ≡ some v
    → (parsed ≡ value v) × IsArchive v
read_archive-IsArchive (no_json message) name p v empty e =
    absurd (let no : none ≡ some v = rw empty at e in cc)
read_archive-IsArchive (value w) name p v empty e = elim (Option-cases (archive_stream w)) [
  | inl h ↦ absurd (let no : none ≡ some v = rw (h, empty) at e in cc)
  | inr (s, h) ↦
      let same : some w ≡ some v = rw h at e in
      let eq : w ≡ v = cc in (ap value eq, rw (← eq) (archive_stream-IsArchive w s h))
]

on_file-IsArchive :
    (parse : String → Parsed) (f : File) (p : RestorePanel) (r : RestoreRequest)
    → (run_restore (on_file parse (some f) p)).1 ≡ some r
    → (parse f.content ≡ value r.backup) × IsArchive r.backup
unfolding on_file
on_file-IsArchive parse f p r e =
    read_archive-IsArchive (parse f.content) f.name
      (record p { error = ""; result = none; backup = none }) r.backup refl
      (run_restore-backup (on_file parse (some f) p) r e)

-- Where `JSON.parse` reads what `JSON.stringify` wrote of a backup, the file that is downloaded
-- restores this backup, as the stream that it was taken from if the name of this is trimmed and not
-- empty. Whatever file is read, a restore then sends nothing, or what `JSON.parse` gave for the file,
-- which is an object whose `stream` is a text and whose `messages` are an array.
pub on_file-backup_answered :
    (stringify : Value → String) (config_value : StreamConfig → Value) (bytes : String → ℕ)
    (parse : String → Parsed) (b : StreamBackup)
    → let v = value_of config_value b in
      parse (stringify v) ≡ value v
      → (iso name : String) (panel : BackupPanel) (p : RestorePanel)
      → let file = (backup_answered stringify config_value bytes iso name (resolved b) panel).1 in
        (IsTrimmed b.stream
          → str_eq b.stream "" ≡ false
          → (run_restore (on_file parse file p)).1
            ≡ some (record {
              target_stream = some b.stream;
              create_stream = p.create_stream;
              backup = v;
            }))
        × ((f : File) (r : RestoreRequest)
            → (run_restore (on_file parse (some f) p)).1 ≡ some r
            → (parse f.content ≡ value r.backup) × IsArchive r.backup)
unfolding backup_answered
on_file-backup_answered stringify config_value bytes parse b reads iso name panel p = (
  (λ trimmed filled.
      let v = value_of config_value b in
      let answered = backup_answered stringify config_value bytes iso name (resolved b) panel in
      let after = on_file parse answered.1 p in
      let (backup, target, create) =
        on_file-archive parse _ p v b.stream reads (archive_stream-value_of config_value b) in
      run_restore-of_backup after v b.stream backup (ap trim target ∙ trimmed) filled
      ∙ ap (λ c. some (record { target_stream = some b.stream; create_stream = c; backup = v }))
          create),
  (λ f r e. on_file-IsArchive parse f p r e),
)
