-- ===== src/Store/Data/Servers.antt =====
-- The discovered servers, as a finite map from their identifiers.
use nats_ui.Prelude.{
  ℕ, String, str_eq, str_eq_refl, ◌≡◌, ◌∙◌, Option, none, some, List, find_key, count_key,
  find_key-without, find_key-append_new, count_key-append_new, if◌then◌else◌, ap,
}
use nats_ui.Types.Servers.{NatsServer}
use nats_ui.Store.Data.{DataState, add_discovered_server, remove_discovered_server}

abbrev id_of : NatsServer → String
id_of d = d.id

-- The entry of a server, and the number of its entries.
abbrev pub find_server : String → List NatsServer → Option NatsServer
find_server id servers = find_key id_of id servers

abbrev pub count_server : String → List NatsServer → ℕ
count_server id servers = count_key id_of id servers

-- Adding a server makes it the one entry of its identifier, removing one leaves none, and neither
-- changes the entry of another identifier.
pub discovered_servers-lookup :
    (server : NatsServer) (other : String) (s : DataState)
    → (find_server other (add_discovered_server server s).discovered_servers
        ≡ (if str_eq server.id other then some server else find_server other s.discovered_servers))
      × (count_server server.id (add_discovered_server server s).discovered_servers ≡ 1)
      × (find_server other (remove_discovered_server server.id s).discovered_servers
          ≡ (if str_eq server.id other then none else find_server other s.discovered_servers))
unfolding add_discovered_server remove_discovered_server
discovered_servers-lookup server other s = (
  find_key-append_new id_of other s.discovered_servers server,
  count_key-append_new id_of server.id s.discovered_servers server
      ∙ ap (λ b. if b then 1 else count_server server.id s.discovered_servers)
          (str_eq_refl server.id),
  find_key-without id_of server.id other s.discovered_servers,
)
