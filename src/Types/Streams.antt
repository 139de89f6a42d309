-- ===== src/Types/Streams.antt =====
-- frontend/src/types/index.ts. Streams: configuration and state.
use nats_ui.Prelude.{ℕ, ℤ, String, Option, List}

pub data RetentionPolicy : Type 0 where
  limits interest workqueue : RetentionPolicy

pub data StorageType : Type 0 where
  file memory : StorageType

pub data DiscardPolicy : Type 0 where
  old new : DiscardPolicy

-- A limit of -1 is no limit.
pub record StreamConfig : Type 0 where
  pub name : String
  pub description : Option String
  pub subjects : List String
  pub retention : RetentionPolicy
  pub storage : StorageType
  pub max_age : Option ℤ
  pub max_bytes : Option ℤ
  pub max_msgs : Option ℤ
  pub max_msg_size : Option ℤ
  pub replicas : ℕ
  pub discard : Option DiscardPolicy
  pub duplicates : Option ℤ

pub record StreamState : Type 0 where
  pub messages : ℕ
  pub bytes : ℕ
  pub first_seq : ℕ
  pub first_time : String
  pub last_seq : ℕ
  pub last_time : String
  pub num_subjects : ℕ
  pub num_deleted : ℕ

pub record StreamInfo : Type 0 where
  pub config : StreamConfig
  pub state : StreamState
  pub cluster_id : String
  pub created : String
  pub health : String
