-- ===== src/Shell/Palette/Navigation.antt =====
-- Which views the sidebar and the palette lead to.
use nats_ui.Prelude.{ℕ, ◌≡◌, refl, ap, sym, ◌∙◌, ◌⊎◌, inl, inr, some, get_elem?}
use nats_ui.Types.Views.{
  View, overview, topology, streams, consumers, kv, objects, tail, browser, publisher, request,
  replay, lab, metrics, services, health, latency, backup, accounts, dlq, settings,
}
use nats_ui.Store.Ui.{UiState, set_view, close_command_palette}
use nats_ui.Shell.Palette
use nats_ui.Shell.Palette.{
  Content, NavItem, view_content, all_nav, handle_select, click_nav, click_settings,
}

view_of : Content → View
view_of Palette.overview_view = overview
view_of Palette.cluster_topology = topology
view_of Palette.stream_explorer = streams
view_of Palette.consumer_inspector = consumers
view_of Palette.kv_manager = kv
view_of Palette.object_store = objects
view_of Palette.message_tail = tail
view_of Palette.message_browser = browser
view_of Palette.message_publisher = publisher
view_of Palette.request_reply_console = request
view_of Palette.replay_studio = replay
view_of Palette.consumer_lab = lab
view_of Palette.metrics_dashboard = metrics
view_of Palette.services_explorer = services
view_of Palette.health_panel = health
view_of Palette.server_latency = latency
view_of Palette.stream_backup_view = backup
view_of Palette.accounts_view = accounts
view_of Palette.dead_letter_queue = dlq
view_of Palette.settings_view = settings

view_of-view_content : (v : View) → view_of (view_content v) ≡ v
unfolding view_of view_content
view_of-view_content overview = refl
view_of-view_content topology = refl
view_of-view_content streams = refl
view_of-view_content consumers = refl
view_of-view_content kv = refl
view_of-view_content objects = refl
view_of-view_content tail = refl
view_of-view_content browser = refl
view_of-view_content publisher = refl
view_of-view_content request = refl
view_of-view_content replay = refl
view_of-view_content lab = refl
view_of-view_content metrics = refl
view_of-view_content services = refl
view_of-view_content health = refl
view_of-view_content latency = refl
view_of-view_content backup = refl
view_of-view_content accounts = refl
view_of-view_content dlq = refl
view_of-view_content settings = refl

-- A view is what a click on an entry of the sidebar shows, or on the button of the settings.
abbrev pub IsOffered : View → UiState → Type 0
IsOffered v s =
    ((i : ℕ) × (n : NavItem) × (get_elem? all_nav i ≡ some n) × (click_nav n s ≡ set_view v s))
    ⊎ (click_settings s ≡ set_view v s)

offered : (v : View) (s : UiState) → IsOffered v s
unfolding click_nav click_settings
offered overview s = inl (0, _, refl, refl)
offered topology s = inl (1, _, refl, refl)
offered streams s = inl (6, _, refl, refl)
offered consumers s = inl (7, _, refl, refl)
offered kv s = inl (8, _, refl, refl)
offered objects s = inl (9, _, refl, refl)
offered tail s = inl (12, _, refl, refl)
offered browser s = inl (13, _, refl, refl)
offered publisher s = inl (14, _, refl, refl)
offered request s = inl (15, _, refl, refl)
offered replay s = inl (16, _, refl, refl)
offered lab s = inl (17, _, refl, refl)
offered metrics s = inl (2, _, refl, refl)
offered services s = inl (3, _, refl, refl)
offered health s = inl (4, _, refl, refl)
offered latency s = inl (5, _, refl, refl)
offered backup s = inl (10, _, refl, refl)
offered accounts s = inl (11, _, refl, refl)
offered dlq s = inl (18, _, refl, refl)
offered settings s = inr refl

-- Every view is offered by the sidebar, and two views are never shown by the same component. The
-- actions of the palette that connect, scan and open a tail only close the palette.
pub view_content-IsOffered :
    (v w : View) (s : UiState)
    → IsOffered v s
      × (view_content v ≡ view_content w → v ≡ w)
      × (handle_select "connect" s ≡ close_command_palette s)
      × (handle_select "scan" s ≡ close_command_palette s)
      × (handle_select "new-tail" s ≡ close_command_palette s)
unfolding handle_select
view_content-IsOffered v w s = (
  offered v s,
  (λ e. sym (view_of-view_content v) ∙ ap view_of e ∙ view_of-view_content w),
  refl,
  refl,
  refl,
)
