-- ===== src/Api/Unauthorized.antt =====
-- A session that the backend no longer takes.
use nats_ui.Prelude.{
  String, ◌≡◌, refl, ◌∙◌, ap, false, not, ◌&&◌, Option, none, some, inl, inr, [], lookup, ◌==◌,
  Bool-cases, Option-cases,
}
use nats_ui.Store.Ui.{Page, get_token, clear_token, clear_auth}
use nats_ui.Store.Ui.Auth.{clear_auth-parts}
use nats_ui.Api.{Response, Call, thrown, http_request, is_ok, expired, finish_request}

-- `_onUnauthorized` as `App` sets it: the store's `clearAuth`.
abbrev pub log_out : Option (Page → Page)
log_out = some clear_auth

module _ {J : Type 0} (no_json : String) (c : Call J) (r : Response J) (p : Page) where
  -- The page after the response.
  abbrev pub page_after : Page
  page_after = (finish_request no_json log_out c r p).0

  finish_request-unauthorized :
      c.skip_auth ≡ false
      → r.status ≡ 401
      → finish_request no_json log_out c r p
        ≡ (clear_auth (record p { storage = clear_token p.storage }), thrown expired)
  unfolding finish_request
  finish_request-unauthorized e s = rw (e, s) refl

  finish_request-other : (r.status == 401 && not c.skip_auth) ≡ false → page_after ≡ p
  unfolding finish_request
  finish_request-other e = elim (Bool-cases (is_ok r.status)) [
    | inr bad ↦ rw (page_after, finish_request, bad, e) refl
    | inl good ↦ elim (Bool-cases (r.status == 204)) [
      | inl empty ↦ rw (page_after, finish_request, good, empty) refl
      | inr full ↦ elim (Option-cases r.json) [
        | inl j ↦ rw (page_after, finish_request, good, full, j) refl
        | inr (x, j) ↦ rw (page_after, finish_request, good, full, j) refl
      ]
    ]
  ]

-- The token that a page has stored goes with a request.
abbrev pub sent_token : {J : Type 0} → (J → String) → Call J → Page → Option String
sent_token stringify c p = lookup "Authorization" (http_request stringify c p).headers

sent_token-none :
    {J : Type 0} (stringify : J → String) (c : Call J) (p : Page)
    → get_token p.storage ≡ none
    → sent_token stringify c p ≡ none
unfolding http_request lookup
sent_token-none stringify c p e = elim (Option-cases c.body) [
  | inl none_sent ↦
      rw (none_sent, e) (elim (Bool-cases c.skip_auth) [ inl k ↦ rw k refl | inr k ↦ rw k refl ])
  | inr (j, sent) ↦
      rw (sent, e) (elim (Bool-cases c.skip_auth) [ inl k ↦ rw k refl | inr k ↦ rw k refl ])
]

-- When the backend answers 401 to a call that carries the token, the user is logged out: no token is
-- stored, no cluster is connected, the call fails with the message of an expired session, and no
-- later call sends a token. Every other response, also a 401 to the login, leaves the page as it is.
pub finish_request-logs_out :
    {J : Type 0} (no_json : String) (c : Call J) (r : Response J) (p : Page)
    → (c.skip_auth ≡ false
        → r.status ≡ 401
        → (get_token (page_after no_json c r p).storage ≡ none)
          × ((page_after no_json c r p).ui.is_authenticated ≡ false)
          × ((page_after no_json c r p).ui.active_clusters ≡ [])
          × ((finish_request no_json log_out c r p).1 ≡ thrown expired)
          × ((stringify : J → String) (c' : Call J)
              → sent_token stringify c' (page_after no_json c r p) ≡ none))
      × ((r.status == 401 && not c.skip_auth) ≡ false → page_after no_json c r p ≡ p)
finish_request-logs_out no_json c r p = (
  (λ e s.
      let out = finish_request-unauthorized no_json c r p e s in
      let (token, auth, clusters) =
        clear_auth-parts (record p { storage = clear_token p.storage }) in
      let no_token : get_token (page_after no_json c r p).storage ≡ none =
        ap (λ x. get_token x.0.storage) out ∙ token in
      (
        no_token,
        ap (λ x. x.0.ui.is_authenticated) out ∙ auth,
        ap (λ x. x.0.ui.active_clusters) out ∙ clusters,
        ap (λ x. x.1) out,
        (λ stringify c'. sent_token-none stringify c' (page_after no_json c r p) no_token),
      )),
  finish_request-other no_json c r p,
)
