-- ===== src/NatsAuth.antt =====
-- frontend/src/components/auth/NatsAuthFields.tsx: the credentials that the connection form collects,
-- and the fields of a connection profile that they become. An absent field is `none`.
pub mod Secrets
mod Tests
use nats_ui.Prelude.{
  String, str_eq, ◌≡◌, ◌≢◌, refl, Bool, true, false, Option, none, some, is_some, if◌then◌else◌,
  Bool-cases, inl, inr, arith,
}
use nats_ui.Publisher.Placeholders.{trim}

pub data NatsAuthMethod : Type 0 where
  no_auth userpass token creds nkey : NatsAuthMethod

pub record NatsAuth : Type 0 where
  pub method : NatsAuthMethod
  pub username : String
  pub password : String
  pub token : String
  pub creds_content : String
  pub nkey_seed : String
  pub tls : Bool
  pub tls_ca_content : String

pub empty_nats_auth : NatsAuth
empty_nats_auth = record {
  method = no_auth;
  username = "";
  password = "";
  token = "";
  creds_content = "";
  nkey_seed = "";
  tls = false;
  tls_ca_content = "";
}

-- The fields of `Partial<ConnectionProfile>` that `authToProfile` writes.
pub record AuthFields : Type 0 where
  pub username : Option String
  pub password : Option String
  pub token : Option String
  pub creds_content : Option String
  pub nkey_seed : Option String
  pub tls_ca_content : Option String

-- `if (v) …`.
abbrev pub filled : String → Option String
filled v = if str_eq v "" then none else some v

abbrev pub filled_trimmed : String → Option String
filled_trimmed v = if str_eq v "" then none else some (trim v)

abbrev no_fields : AuthFields
no_fields = record {
  username = none;
  password = none;
  token = none;
  creds_content = none;
  nkey_seed = none;
  tls_ca_content = none;
}

-- The `switch` of `authToProfile`.
pub method_fields : NatsAuth → AuthFields
method_fields a = elim a.method [
  | no_auth ↦ no_fields
  | userpass ↦ record no_fields { username = filled a.username; password = filled a.password }
  | token ↦ record no_fields { token = filled_trimmed a.token }
  | creds ↦ record no_fields { creds_content = filled a.creds_content }
  | nkey ↦ record no_fields { nkey_seed = filled_trimmed a.nkey_seed }
]

pub auth_to_profile : NatsAuth → AuthFields
unfolding method_fields
auth_to_profile a = record (method_fields a) {
  tls_ca_content = if a.tls then filled a.tls_ca_content else none;
}
