-- ===== src/Shell/Tests.antt =====
-- A user who logs in, connects and logs out.
use nats_ui.Prelude.{
  str_eq, ◌≡◌, refl, true, false, ◌||◌, none, some, lookup, none, some, [], ◌∷◌, All, arith,
}
use nats_ui.Store.Ui.{Page, initial_ui, get_token}
use nats_ui.Types.Cluster.{ClusterInfo, degraded}
use nats_ui.NatsAuth.{empty_nats_auth}
use nats_ui.Publisher.Placeholders.{trim}
use nats_ui.Tail.{starts_with, includes}
use nats_ui.Socket.{Browser, closed}
use nats_ui.Shell.{
  App, login_page, loading_screen, connection_setup, app_shell, logged_in, logged_out, listed,
  list_failed, connected, handle, run, screen,
}
use nats_ui.Shell.Address.{normalize_nats_url, form_url}
use nats_ui.Shell.Forms.{ConnectBody, waiting, submit_setup, handle_connect}
use nats_ui.Shell.Submits.{submit_setup-handle_connect}
use nats_ui.Shell.Late.{is_listed}
use nats_ui.Shell.Session.{logged_in-screen, logged_out-late}

abbrev page : Page
page = record { ui = initial_ui "t" []; storage = []; dark_class = true; background = "" }

abbrev app : App
app = record { page = page; inner = record { mount = 0; loading = false; has_connections = false } }

url_tests :
    (normalize_nats_url " h " ≡ "nats://h:4222")
    × (normalize_nats_url "h:1" ≡ "nats://h:1")
    × (form_url "tls://h" ≡ "tls://h")
unfolding normalize_nats_url form_url trim starts_with includes
url_tests = (refl, refl, refl)

submit_setup-handle_connect_example :
    (str_eq (trim "h") "" ≡ false
      → (b : ConnectBody) × (submit_setup "h" "" empty_nats_auth waiting ≡ (waiting, some b))
        × (str_eq b.name "" ≡ false)
        × ((starts_with "nats://" b.url || starts_with "tls://" b.url) ≡ true)
        × (b.url ≡ (handle_connect "h" "" empty_nats_auth).1.url)
        × (b.auth ≡ (handle_connect "h" "" empty_nats_auth).1.auth))
    × (trim "h" ≡ ""
        → ((submit_setup "h" "" empty_nats_auth waiting).1 ≡ none)
          × ((submit_setup "h" "" empty_nats_auth waiting).0.loading ≡ true)
          × ((handle_connect "h" "" empty_nats_auth).1.url ≡ ""))
submit_setup-handle_connect_example = submit_setup-handle_connect "h" "" empty_nats_auth waiting

not_logged_in : page.ui.is_authenticated ≡ false
unfolding initial_ui get_token lookup
not_logged_in = refl

logged_in-screen_example :
    let b = run (list_failed 0 ∷ []) (handle (logged_in "x") app) in
    (screen b ≡ loading_screen)
    × (screen (handle (listed 1 ("c" ∷ [])) b) ≡ app_shell)
    × All (λ id. is_listed id (handle (listed 1 ("c" ∷ [])) b).page.ui ≡ true) ("c" ∷ [])
    × (screen (handle (list_failed 1) b) ≡ connection_setup)
logged_in-screen_example =
    logged_in-screen "x" app (list_failed 0 ∷ []) ("c" ∷ []) not_logged_in (omega arith, tt)

logged_out-late_example :
    let b = run (connected 0 "d" ∷ []) (handle logged_out app) in
    (screen b ≡ login_page)
    × (screen (handle (listed 0 ("c" ∷ [])) b) ≡ login_page)
    × All (λ id. is_listed id (handle (listed 0 ("c" ∷ [])) b).page.ui ≡ true) ("c" ∷ [])
logged_out-late_example =
    logged_out-late app (connected 0 "d" ∷ []) 0 ("c" ∷ []) (omega arith, tt) (omega arith)

abbrev closed_browser : Browser
closed_browser = record { ready = λ n. closed; created = none; timer = 1 }

abbrev slow_cluster : ClusterInfo
slow_cluster = record {
  id = "c";
  name = "c";
  nodes = [];
  routes = [];
  gateways = none;
  leaf_nodes = none;
  health = degraded;
  num_nodes = 0;
}
