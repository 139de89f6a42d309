-- ===== src/Shell/Forms.antt =====
-- The forms that log in and connect: `handleSubmit` of frontend/src/components/auth/LoginPage.tsx and
-- of frontend/src/components/auth/ConnectionSetup.tsx, and `handleConnect` of
-- frontend/src/components/layout/AppShell.tsx. A handler is in two halves, up to the call of the
-- API and from its answer. An answer is a value, or the message of an error, which may be absent.
use nats_ui.Prelude.{
  ℕ, String, str_eq, ◌^+◌, Bool, true, false, ◌||◌, Option, none, some, or_else, if◌then◌else◌,
}
use nats_ui.Store.Ui.{Page, set_active_cluster}
use nats_ui.Publisher.Placeholders.{trim}
use nats_ui.NatsAuth.{NatsAuth, AuthFields, auth_to_profile}
use nats_ui.Shell.{Event, logged_in, connected}
use nats_ui.Shell.Address.{normalize_nats_url, form_url}

pub data Answer (A : Type 0) : Type 0 where
  resolved : A → Answer A
  rejected : Option String → Answer A

pub record Form : Type 0 where
  pub loading : Bool
  pub error : Option String

-- `setLoading(true); setError(null)`.
abbrev pub waiting : Form
waiting = record { loading = true; error = none }

pub record Credentials : Type 0 where
  pub username : String
  pub password : String

-- `handleSubmit` of the login, for the texts of its two fields.
unfoldable pub submit_login : String → String → Form → Form × Option Credentials
submit_login username_field password f =
    let username = trim username_field in
    if str_eq username "" || str_eq password ""
    then (record f { error = some "Username and password are required" }, none)
    else (waiting, some (record { username = username; password = password }))

-- The token of the answer goes to `setAuth`.
unfoldable pub login_answered : Answer String → Form → Form × Option Event
login_answered (resolved token) f = (record f { loading = false }, some (logged_in token))
login_answered (rejected message) f =
    (record { loading = false; error = some (or_else message "Login failed") }, none)

-- The body of `connections.connect`.
pub record ConnectBody : Type 0 where
  pub name : String
  pub url : String
  pub auth : AuthFields

abbrev pub or_text : String → String → String
or_text a b = if str_eq a "" then b else a

-- `handleSubmit` of the setup screen, for its address, its name and its credentials.
unfoldable pub submit_setup : String → String → NatsAuth → Form → Form × Option ConnectBody
submit_setup address name auth f =
    let raw = trim address in
    if str_eq raw "" then (record f { error = some "Server address is required" }, none) else (
      waiting,
      some (record {
        name = or_text (trim name) raw;
        url = normalize_nats_url raw;
        auth = auth_to_profile auth;
      }),
    )

pub record Connected : Type 0 where
  pub id : String
  pub jetstream : Bool

pub setup_answered : ℕ → Answer Connected → Form → Form × Option Event
setup_answered mount (resolved r) f = (record f { loading = false }, some (connected mount r.id))
setup_answered mount (rejected message) f =
    (record { loading = false; error = some (or_else message "Connection failed") }, none)

-- The form of the settings: whether it succeeded, and what it shows.
pub record Status : Type 0 where
  pub ok : Bool
  pub msg : String

pub record ConnectForm : Type 0 where
  pub status : Option Status
  pub loading : Bool

abbrev bool_text : Bool → String
bool_text true = "true"
bool_text false = "false"

unfoldable pub handle_connect : String → String → NatsAuth → ConnectForm × ConnectBody
handle_connect field name auth = (
  record { status = none; loading = true },
  record { name = or_text name (trim field); url = form_url field; auth = auth_to_profile auth },
)

pub connect_answered : Answer Connected → Page → ConnectForm × Page
connect_answered (resolved r) p = (
  record {
    status = some (record { ok = true; msg = "Connected — JetStream: " ^+ bool_text r.jetstream });
    loading = false;
  },
  record p { ui = set_active_cluster r.id p.ui },
)
connect_answered (rejected message) p = (
  record {
    status = some (record { ok = false; msg = or_else message "Connection failed" });
    loading = false;
  },
  p,
)
