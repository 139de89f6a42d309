-- ===== src/Api.antt =====
-- frontend/src/lib/api.ts: what a call of the API requests (`Api/Endpoints`), and what `req` does with
-- the response. Values of JSON are those of a parameter `J`; `encode` is `encodeURIComponent`, and
-- `stringify` is `JSON.stringify`. The base of the URL and `health`, which does not use `req`, are
-- left out. A page is the store and `localStorage`, as the logout changes them.
pub mod Endpoints
pub mod Unauthorized
mod Tests
use nats_ui.Prelude.{
  ℕ, String, str_eq, ◌^+◌, decimal, Bool, true, false, not, ◌&&◌, ◌||◌, Option, none, some, List,
  [], ◌∷◌, ◌++◌, Dict, leb, ◌==◌, if◌then◌else◌,
}
use nats_ui.Store.Ui.{Page, get_token, clear_token}

pub record Response (J : Type 0) : Type 0 where
  pub status : ℕ
  pub status_text : String
  pub json : Option J
  pub error_field : Option String

pub record Call (J : Type 0) : Type 0 where
  pub method : String
  pub path : String
  pub body : Option J
  pub skip_auth : Bool

-- What goes to `fetch`.
pub record HttpRequest : Type 0 where
  pub method : String
  pub path : String
  pub headers : Dict String
  pub body : Option String

-- A value, or the message of the error that is thrown.
pub data Outcome (J : Type 0) : Type 0 where
  value : Option J → Outcome J
  thrown : String → Outcome J

abbrev content_type : {J : Type 0} → Option J → Dict String
content_type none = []
content_type (some _) = ("Content-Type", "application/json") ∷ []

-- An empty token is no token.
abbrev authorization : Option String → Dict String
authorization none = []
authorization (some token) =
    if str_eq token "" then [] else ("Authorization", "Bearer " ^+ token) ∷ []

abbrev text_of : {J : Type 0} → (J → String) → Option J → Option String
text_of stringify none = none
text_of stringify (some j) = some (stringify j)

-- The first half of `req`, up to `fetch`.
pub http_request : {J : Type 0} → (J → String) → Call J → Page → HttpRequest
http_request stringify c p = record {
  method = c.method;
  path = c.path;
  headers =
      content_type c.body ++ (if c.skip_auth then [] else authorization (get_token p.storage));
  body = text_of stringify c.body;
}

-- `res.ok`.
abbrev pub is_ok : ℕ → Bool
is_ok status = leb 200 status && leb status 299

abbrev pub expired : String
expired = "Session expired — please log in again"

abbrev on_page : Option (Page → Page) → Page → Page
on_page none p = p
on_page (some handler) p = handler p

-- The message of an error response: `err.error ?? 'HTTP …'`, where a body that is not JSON gives the
-- status text.
abbrev pub error_message : {J : Type 0} → Response J → String
error_message r = elim r.json [
  | none ↦ r.status_text
  | some _ ↦ elim r.error_field [ none ↦ "HTTP " ^+ decimal r.status | some e ↦ e ]
]

-- The second half of `req`; `handler` is `_onUnauthorized`. A success that is no JSON is the error of
-- `res.json()`, whose message is the parameter `no_json`.
pub finish_request :
    {J : Type 0} → String → Option (Page → Page) → Call J → Response J → Page → Page × Outcome J
finish_request no_json handler c r p =
    if not (is_ok r.status)
    then (if r.status == 401 && not c.skip_auth
        then (on_page handler (record p { storage = clear_token p.storage }), thrown expired)
        else (p, thrown (error_message r)))
    else if r.status == 204
    then (p, value none)
    else elim r.json [ none ↦ (p, thrown no_json) | some j ↦ (p, value (some j)) ]
