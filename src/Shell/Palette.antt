-- ===== src/Shell/Palette.antt =====
-- Navigation: the content of the shell (frontend/src/components/layout/AppShell.tsx), the sidebar
-- (frontend/src/components/layout/Sidebar.tsx), the bar at the top
-- (frontend/src/components/layout/TopBar.tsx) and the command palette
-- (frontend/src/components/layout/CommandPalette.tsx). Icons, animations and the wrappers that load
-- a view lazily and catch its crash are left out.
pub mod Navigation
use nats_ui.Prelude.{
  ℕ, ◌+◌, String, str_eq, ◌^+◌, decimal, ◌≡◌, refl, Bool, true, false, ◌&&◌, ◌||◌, Option, none,
  some, List, [], ◌∷◌, ◌++◌, map, any, find?, last?, Dict, get_elem?, ◌⊎◌, inl, inr, if◌then◌else◌,
}
use nats_ui.Types.Views.{
  View, overview, topology, streams, consumers, kv, objects, tail, browser, publisher, request,
  replay, lab, metrics, services, health, latency, backup, accounts, dlq, settings,
}
use nats_ui.Types.Cluster
use nats_ui.Types.Cluster.{ClusterHealth, ClusterInfo}
use nats_ui.Store.Ui.{
  UiState, set_view, set_active_cluster, open_command_palette, close_command_palette,
}

-- The component of each view.
pub data Content : Type 0 where
  overview_view cluster_topology stream_explorer consumer_inspector kv_manager object_store
        message_tail message_browser message_publisher request_reply_console replay_studio
        consumer_lab metrics_dashboard services_explorer health_panel server_latency
        stream_backup_view accounts_view dead_letter_queue settings_view :
      Content

pub view_content : View → Content
view_content overview = overview_view
view_content topology = cluster_topology
view_content streams = stream_explorer
view_content consumers = consumer_inspector
view_content kv = kv_manager
view_content objects = object_store
view_content tail = message_tail
view_content browser = message_browser
view_content publisher = message_publisher
view_content request = request_reply_console
view_content replay = replay_studio
view_content lab = consumer_lab
view_content metrics = metrics_dashboard
view_content services = services_explorer
view_content health = health_panel
view_content latency = server_latency
view_content backup = stream_backup_view
view_content accounts = accounts_view
view_content dlq = dead_letter_queue
view_content settings = settings_view

pub view_label : View → String
view_label overview = "Overview"
view_label topology = "Cluster Topology"
view_label streams = "Stream Explorer"
view_label consumers = "Consumer Inspector"
view_label kv = "Key-Value Store"
view_label objects = "Object Store"
view_label tail = "Live Tail"
view_label browser = "Message Browser"
view_label publisher = "Publish Message"
view_label request = "Request–Reply"
view_label replay = "Replay Studio"
view_label lab = "Consumer Lab"
view_label metrics = "Metrics Dashboard"
view_label services = "Services"
view_label health = "Health & Alerts"
view_label latency = "Server Latency"
view_label backup = "Backup & Restore"
view_label accounts = "Accounts & Users"
view_label dlq = "Dead Letter Queue"
view_label settings = "Settings"

pub record NavItem : Type 0 where
  pub id : View
  pub label : String

pub record NavGroup : Type 0 where
  pub label : String
  pub items : List NavItem

abbrev nav : View → String → NavItem
nav id label = record { id = id; label = label }

abbrev pub nav_groups : List NavGroup
nav_groups =
    record {
      label = "Monitor";
      items =
          nav overview "Overview"
          ∷ nav topology "Topology"
          ∷ nav metrics "Metrics"
          ∷ nav services "Services"
          ∷ nav health "Health"
          ∷ nav latency "Latency"
          ∷ [];
    }
    ∷ record {
      label = "Streams";
      items =
          nav streams "Streams"
          ∷ nav consumers "Consumers"
          ∷ nav kv "Key-Value"
          ∷ nav objects "Object Store"
          ∷ nav backup "Backup & Restore"
          ∷ nav accounts "Accounts"
          ∷ [];
    }
    ∷ record {
      label = "Messages";
      items =
          nav tail "Live Tail"
          ∷ nav browser "Message Browser"
          ∷ nav publisher "Publisher"
          ∷ nav request "Request–Reply"
          ∷ nav replay "Replay Studio"
          ∷ nav lab "Consumer Lab"
          ∷ [];
    }
    ∷ record { label = "Admin"; items = nav dlq "Dead Letters" ∷ [] }
    ∷ []

-- `NAV_GROUPS.flatMap(g => g.items)`.
abbrev items_of : List NavGroup → List NavItem
items_of [] = []
items_of (g ∷ gs) = g.items ++ items_of gs

abbrev pub all_nav : List NavItem
all_nav = items_of nav_groups

-- An item of the palette; an action has no view.
pub record Item : Type 0 where
  pub id : String
  pub label : String
  pub shortcut : List String
  pub view : Option View

abbrev item : String → String → List String → Option View → Item
item id label shortcut view = record { id = id; label = label; shortcut = shortcut; view = view }

pub record Group : Type 0 where
  pub label : String
  pub items : List Item

abbrev pub groups : List Group
groups =
    record {
      label = "Navigation";
      items =
          item "overview" "Overview" ("G" ∷ "O" ∷ []) (some overview)
          ∷ item "topology" "Cluster Topology" ("G" ∷ "T" ∷ []) (some topology)
          ∷ item "streams" "Stream Explorer" ("G" ∷ "S" ∷ []) (some streams)
          ∷ item "consumers" "Consumer Inspector" ("G" ∷ "C" ∷ []) (some consumers)
          ∷ item "tail" "Live Tail" ("G" ∷ "L" ∷ []) (some tail)
          ∷ item "browser" "Message Browser" ("G" ∷ "B" ∷ []) (some browser)
          ∷ item "publisher" "Publish Message" ("G" ∷ "P" ∷ []) (some publisher)
          ∷ item "replay" "Replay Studio" ("G" ∷ "R" ∷ []) (some replay)
          ∷ item "metrics" "Metrics Dashboard" ("G" ∷ "M" ∷ []) (some metrics)
          ∷ item "accounts" "Accounts & Users" ("G" ∷ "A" ∷ []) (some accounts)
          ∷ item "settings" "Settings" ("G" ∷ "," ∷ []) (some settings)
          ∷ [];
    }
    ∷ record {
      label = "Actions";
      items =
          item "connect" "Connect to NATS Server" ("N" ∷ []) none
          ∷ item "scan" "Scan for NATS Servers" ("D" ∷ []) none
          ∷ item "new-tail" "New Message Tail" ("T" ∷ []) none
          ∷ [];
    }
    ∷ []

abbrev entries : List Group → List Item
entries [] = []
entries (g ∷ gs) = g.items ++ entries gs

abbrev pub all_items : List Item
all_items = entries groups

-- `handleSelect`.
pub handle_select : String → UiState → UiState
handle_select id s = elim (find? (λ i. str_eq i.id id) all_items) [
  | none ↦ s
  | some i ↦ close_command_palette (elim i.view [ none ↦ s | some v ↦ set_view v s ])
]

-- The listener of `keydown`, for whether meta or control is held, and the key.
pub handle_key : Bool → String → UiState → UiState
handle_key held key s =
    let opened = if held && str_eq key "k" then open_command_palette s else s in
    if str_eq key "Escape" then close_command_palette opened else opened

-- A click in the sidebar.
pub click_nav : NavItem → UiState → UiState
click_nav n s = set_view n.id s

-- The button below the groups.
pub click_settings : UiState → UiState
click_settings s = set_view settings s

-- The body of the call by which the sidebar connects a discovered server, and what its answer does.
pub discovered_body : String → ℕ → String × String
discovered_body host port =
    let address = host ^+ (":" ^+ decimal port) in (address, "nats://" ^+ address)

pub discovered_answered : Option String → UiState → UiState
discovered_answered none s = s
discovered_answered (some id) s = set_active_cluster id s
