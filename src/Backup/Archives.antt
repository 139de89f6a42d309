-- ===== src/Backup/Archives.antt =====
-- The archives of frontend/src/components/backup/StreamBackupRestore.tsx, which
-- frontend/src/types/index.ts declares.
use nats_ui.Prelude.{ℕ, String, Bool, Option, List, Dict}
use nats_ui.Types.Streams.{StreamConfig}

pub record BackupMessage : Type 0 where
  pub subject : String
  pub seq : ℕ
  pub time : String
  pub headers : Option (Dict String)
  pub data' : String

pub record StreamBackup : Type 0 where
  pub version : ℕ
  pub stream : String
  pub captured_at : String
  pub config : StreamConfig
  pub message_count : ℕ
  pub truncated : Option Bool
  pub messages : List BackupMessage
