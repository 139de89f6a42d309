-- ===== src/Types/Profiles.antt =====
-- frontend/src/types/index.ts. Connection profiles.
use nats_ui.Prelude.{String, Option}

pub record ConnectionProfile : Type 0 where
  pub id : String
  pub name : String
  pub url : String
  pub username : Option String
  pub password : Option String
  pub token : Option String
  pub nkey_path : Option String
  pub creds_path : Option String
  pub tls_cert : Option String
  pub tls_key : Option String
  pub tls_ca : Option String
  pub creds_content : Option String
  pub nkey_seed : Option String
  pub tls_ca_content : Option String
