-- ===== src/Types/DeadLetters.antt =====
-- frontend/src/types/index.ts. Dead letters: what JetStream gave up on.
use nats_ui.Prelude.{ℕ, String, Option}

pub data DeadLetterType : Type 0 where
  max_deliver terminated : DeadLetterType

pub record DeadLetter : Type 0 where
  pub type : DeadLetterType
  pub stream : String
  pub consumer : String
  pub stream_seq : ℕ
  pub deliveries : ℕ
  pub reason : Option String
  pub timestamp : String
