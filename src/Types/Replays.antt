-- ===== src/Types/Replays.antt =====
-- frontend/src/types/index.ts. Replay requests and their progress.
use nats_ui.Prelude.{ℕ, String, Bool, Option}

pub record ReplayConfig : Type 0 where
  pub id : String
  pub cluster_id : String
  pub stream : String
  pub consumer_name : String
  pub start_seq : Option ℕ
  pub start_time : Option String
  pub end_seq : Option ℕ
  pub end_time : Option String
  pub throttle_ms : Option ℕ
  pub shadow_subject : Option String
  pub filter_subject : Option String

pub record ReplayProgress : Type 0 where
  pub id : String
  pub current_seq : ℕ
  pub total_msgs : ℕ
  pub processed : ℕ
  pub rate : ℕ
  pub elapsed_ms : ℕ
  pub done : Bool
  pub error : Option String
