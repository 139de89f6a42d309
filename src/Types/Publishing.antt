-- ===== src/Types/Publishing.antt =====
-- frontend/src/types/index.ts. Publish requests and their results.
use nats_ui.Prelude.{ℕ, String, Bool, Option, Dict}

pub data PublishEncoding : Type 0 where
  text base64 : PublishEncoding

pub data PublishMode : Type 0 where
  auto jetstream core : PublishMode

pub data Delivery : Type 0 where
  jetstream core : Delivery

pub record PublishRequest : Type 0 where
  pub subject : String
  pub payload : String
  pub headers : Option (Dict String)
  pub reply_to : Option String
  pub encoding : Option PublishEncoding
  pub mode : Option PublishMode
  pub msg_id : Option String
  pub expect_stream : Option String
  pub expect_last_seq : Option ℕ
  pub expect_last_subject_seq : Option ℕ
  pub expect_last_msg_id : Option String

pub record PublishResult : Type 0 where
  pub subject : String
  pub stream : Option String
  pub seq : Option ℕ
  pub accepted : Bool
  pub duplicate : Option Bool
  pub delivery : Option Delivery
