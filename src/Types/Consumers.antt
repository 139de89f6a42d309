-- ===== src/Types/Consumers.antt =====
-- frontend/src/types/index.ts. Consumers: configuration, positions and health.
use nats_ui.Prelude.{ℕ, ℤ, String, Option}

pub data DeliverPolicy : Type 0 where
  all last new by_start_sequence by_start_time : DeliverPolicy

pub data AckPolicy : Type 0 where
  explicit none all : AckPolicy

pub data ReplayPolicy : Type 0 where
  instant original : ReplayPolicy

-- A limit of -1 is no limit.
pub record ConsumerConfig : Type 0 where
  pub name : String
  pub durable_name : Option String
  pub description : Option String
  pub deliver_subject : Option String
  pub deliver_group : Option String
  pub deliver_policy : DeliverPolicy
  pub opt_start_seq : Option ℕ
  pub opt_start_time : Option String
  pub ack_policy : AckPolicy
  pub ack_wait : Option ℕ
  pub max_deliver : Option ℤ
  pub filter_subject : Option String
  pub replay_policy : ReplayPolicy
  pub max_ack_pending : Option ℤ

pub record ConsumerSequenceInfo : Type 0 where
  pub consumer_seq : ℕ
  pub stream_seq : ℕ

pub data ConsumerHealth : Type 0 where
  ok slow lagging redelivery_storm stuck dead : ConsumerHealth

pub record ConsumerInfo : Type 0 where
  pub stream : String
  pub name : String
  pub config : ConsumerConfig
  pub created : String
  pub delivered : ConsumerSequenceInfo
  pub ack_floor : ConsumerSequenceInfo
  pub num_ack_pending : ℕ
  pub num_redelivered : ℕ
  pub num_waiting : ℕ
  pub num_pending : ℕ
  pub cluster_id : String
  pub lag : ℕ
  pub health : ConsumerHealth
