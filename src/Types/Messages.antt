-- ===== src/Types/Messages.antt =====
-- frontend/src/types/index.ts. Messages and throughput points.
use nats_ui.Prelude.{ℕ, String, Bool, Option, Dict}

pub record TailedMessage : Type 0 where
  pub id : Option String
  pub cluster_id : Option String
  pub stream : String
  pub subject_filter : Option String
  pub subject : String
  pub seq : ℕ
  pub timestamp : String
  pub payload : String
  pub payload_text : String
  pub payload_size : ℕ
  pub headers : Option (Dict String)
  pub redelivered : Bool
  pub reply_to : Option String

pub record StoredMessage : Type 0 where
  pub stream : String
  pub cluster_id : String
  pub subject : String
  pub seq : ℕ
  pub timestamp : String
  pub payload : String
  pub payload_text : String
  pub payload_size : ℕ
  pub headers : Option (Dict String)

pub record ThroughputPoint : Type 0 where
  pub cluster_id : String
  pub node_id : Option String
  pub timestamp : String
  pub in_msgs : ℕ
  pub out_msgs : ℕ
  pub in_bytes : ℕ
  pub out_bytes : ℕ
