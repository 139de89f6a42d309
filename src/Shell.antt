-- ===== src/Shell.antt =====
-- frontend/src/App.tsx, and handleLogout of frontend/src/components/layout/TopBar.tsx: which screen is
-- shown, from the store and the state of `AppInner`. `AppInner` is mounted anew at each login; its
-- first effect asks for the connections, and the answer belongs to the mount that asked. The forms
-- (`Shell/Address`, `Shell/Forms`), the list of connections (`Shell/Connections`) and the navigation
-- (`Shell/Palette`) are child modules.
pub mod Address
pub mod Bar
pub mod Forms
pub mod Submits
pub mod Connections
pub mod Palette
pub mod Late
pub mod Session
mod Tests
use nats_ui.Prelude.{
  ℕ, ◌+◌, String, Bool, true, false, not, ◌&&◌, List, [], ◌∷◌, length, ltb, ◌==◌, if◌then◌else◌,
}
use nats_ui.Store.Ui.{Page, UiState, set_active_cluster, set_auth, clear_auth}

pub data Screen : Type 0 where
  login_page loading_screen connection_setup app_shell : Screen

-- The state of the mounted `AppInner`. It is what the last mount left where nobody is logged in.
pub record Inner : Type 0 where
  pub mount : ℕ
  pub loading : Bool
  pub has_connections : Bool

pub record App : Type 0 where
  pub page : Page
  pub inner : Inner

-- `useState(true)` and `useState(false)` of a new mount.
abbrev pub mounted : ℕ → Inner
mounted n = record { mount = n; loading = true; has_connections = false }

abbrev pub on_ui : (UiState → UiState) → Page → Page
on_ui f p = record p { ui = f p.ui }

-- What happens to the application: a login that succeeds, a logout by the user or by an answer 401,
-- the answer to `connections.list` for a mount, and a connection that the setup screen of a mount made.
pub data Event : Type 0 where
  logged_in : String → Event
  logged_out : Event
  listed : ℕ → List String → Event
  list_failed : ℕ → Event
  connected : ℕ → String → Event

-- `setState` of a mount that is no longer there does nothing.
abbrev pub set_inner : ℕ → (Inner → Inner) → App → App
set_inner n f a =
    if a.page.ui.is_authenticated && a.inner.mount == n then record a { inner = f a.inner } else a

-- `setHasConnections(has)` and `setLoading(false)`.
abbrev pub answered : Bool → Inner → Inner
answered has i = record i { loading = false; has_connections = has }

-- `conns.forEach(c => setActiveCluster(c.id))`, on the store.
pub set_each : List String → UiState → UiState
set_each [] s = s
set_each (id ∷ ids) s = set_each ids (set_active_cluster id s)

-- `isAuthenticated ? <AppInner /> : <LoginPage />` mounts `AppInner` when the flag turns true.
pub handle : Event → App → App
unfolding set_each
handle (logged_in token) a = record a {
  page = set_auth token a.page;
  inner = if a.page.ui.is_authenticated then a.inner else mounted (a.inner.mount + 1);
}
handle logged_out a = record a { page = clear_auth a.page }
handle (listed n ids) a =
    set_inner n (answered (ltb 0 (length ids))) (record a { page = on_ui (set_each ids) a.page })
handle (list_failed n) a = set_inner n (answered false) a
handle (connected n id) a =
    set_inner n (λ i. record i { has_connections = true })
      (record a { page = on_ui (set_active_cluster id) a.page })

pub run : List Event → App → App
unfolding handle
run [] a = a
run (e ∷ es) a = run es (handle e a)

pub screen : App → Screen
screen a =
    if not a.page.ui.is_authenticated
    then login_page
    else if a.inner.loading
    then loading_screen
    else if not a.inner.has_connections
    then connection_setup
    else app_shell
