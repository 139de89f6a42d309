-- ===== src/Api/Endpoints/Tests.antt =====
-- The paths of some calls.
use nats_ui.Prelude.{String, ◌≡◌, refl, true, none, some, decimal}
use nats_ui.Api.Endpoints.{cluster_topology, kv_delete, streams_messages}

abbrev encoded : String → String
encoded s = s

path_tests :
    ((cluster_topology {J = String} encoded "c").path ≡ "/clusters/c/topology")
    × ((kv_delete {J = String} encoded "c" "b" "k" true).path
        ≡ "/clusters/c/kv/b/entry?key=k&purge=true")
    × ((streams_messages {J = String} encoded encoded "c" "s" (some 5) none (some "a")).path
        ≡ "/clusters/c/streams/s/messages?startSeq=5&subject=a")
unfolding cluster_topology kv_delete streams_messages decimal
path_tests = (refl, refl, refl)
