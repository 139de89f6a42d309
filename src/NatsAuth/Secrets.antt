-- ===== src/NatsAuth/Secrets.antt =====
-- Which secrets leave the form.
use nats_ui.Prelude.{◌≡◌, ◌≢◌, false, none, arith}
use nats_ui.NatsAuth.{userpass, token, creds, nkey, NatsAuth, method_fields, auth_to_profile}

-- A profile has the secrets of the chosen method only: what was typed for another method, or for TLS
-- while it is off, is not sent.
pub auth_to_profile-chosen :
    (a : NatsAuth)
    → (a.method ≢ userpass
        → ((auth_to_profile a).username ≡ none) × ((auth_to_profile a).password ≡ none))
      × (a.method ≢ token → (auth_to_profile a).token ≡ none)
      × (a.method ≢ creds → (auth_to_profile a).creds_content ≡ none)
      × (a.method ≢ nkey → (auth_to_profile a).nkey_seed ≡ none)
      × (a.tls ≡ false → (auth_to_profile a).tls_ca_content ≡ none)
unfolding auth_to_profile method_fields
auth_to_profile-chosen a = ground arith
