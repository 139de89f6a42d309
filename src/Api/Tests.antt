-- ===== src/Api/Tests.antt =====
-- Calls of the API, on a page of a logged-in user; values of JSON are texts.
use nats_ui.Prelude.{ℕ, String, ◌≡◌, false, not, ◌&&◌, ◌==◌, none, [], ◌∷◌}
use nats_ui.Store.Ui.{Page, get_token, token_key}
use nats_ui.Store.Ui.Auth.{loaded}
use nats_ui.Api.{Response, Call, thrown, finish_request, expired}
use nats_ui.Api.Endpoints.{cluster_topology}
use nats_ui.Api.Unauthorized.{log_out, page_after, sent_token, finish_request-logs_out}

abbrev logged_in_page : Page
logged_in_page = loaded "0" ((token_key, "jwt") ∷ [])

abbrev encoded : String → String
encoded s = s

abbrev topology_call : Call String
topology_call = cluster_topology encoded "c"

abbrev unauthorized : Response String
unauthorized = record {
  status = 401;
  status_text = "Unauthorized";
  json = none;
  error_field = none;
}

finish_request-logs_out_example :
    (topology_call.skip_auth ≡ false
      → ◌≡◌ {A = ℕ} 401 401
      → (get_token (page_after "" topology_call unauthorized logged_in_page).storage ≡ none)
        × ((page_after "" topology_call unauthorized logged_in_page).ui.is_authenticated ≡ false)
        × ((page_after "" topology_call unauthorized logged_in_page).ui.active_clusters ≡ [])
        × ((finish_request "" log_out topology_call unauthorized logged_in_page).1 ≡ thrown expired)
        × ((stringify : String → String) (c' : Call String)
            → sent_token stringify c' (page_after "" topology_call unauthorized logged_in_page)
              ≡ none))
    × ((401 == 401 && not topology_call.skip_auth) ≡ false
        → page_after "" topology_call unauthorized logged_in_page ≡ logged_in_page)
finish_request-logs_out_example =
    finish_request-logs_out "" topology_call unauthorized logged_in_page
