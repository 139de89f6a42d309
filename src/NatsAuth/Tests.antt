-- ===== src/NatsAuth/Tests.antt =====
-- A form in which a password was typed before the token was chosen.
use nats_ui.Prelude.{◌≡◌, refl, false, none, some}
use nats_ui.NatsAuth.{token, NatsAuth, auth_to_profile}
use nats_ui.Publisher.Placeholders.{trim}

abbrev token_form : NatsAuth
token_form = record {
  method = token;
  username = "ann";
  password = "secret";
  token = " t ";
  creds_content = "";
  nkey_seed = "";
  tls = false;
  tls_ca_content = "pem";
}

form_tests :
    ((auth_to_profile token_form).token ≡ some "t") × ((auth_to_profile token_form).password ≡ none)
unfolding auth_to_profile trim
form_tests = (refl, refl)
