-- ===== src/Types/Servers.antt =====
-- frontend/src/types/index.ts. Servers found by discovery.
use nats_ui.Prelude.{ℕ, String, Bool, Option, Dict}

pub data ServerSource : Type 0 where
  local docker kubernetes manual : ServerSource

pub record NatsServer : Type 0 where
  pub id : String
  pub name : String
  pub host : String
  pub client_port : ℕ
  pub monitor_port : ℕ
  pub source : ServerSource
  pub labels : Option (Dict String)
  pub tls_enabled : Bool
  pub discovered_at : String
