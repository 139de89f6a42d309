-- ===== src/Api/Endpoints.antt =====
-- The endpoints of the `api` object, each as the call of `req` that it makes. A body is passed as it
-- goes to `JSON.stringify`.
mod Tests
use nats_ui.Prelude.{
  ℕ, String, str_eq, ◌^+◌, decimal, Bool, true, false, Option, none, some, ◌==◌, if◌then◌else◌,
}
use nats_ui.Api.{Call}

-- One parameter of the query of `messages`, after those before it.
abbrev with_param : String → String → String → String
with_param qs name v = qs ^+ ((if str_eq qs "" then "?" else "&") ^+ (name ^+ ("=" ^+ v)))

abbrev with_number : String → String → Option ℕ → String
with_number qs name none = qs
with_number qs name (some n) = if n == 0 then qs else with_param qs name (decimal n)

abbrev with_text : (String → String) → String → String → Option String → String
with_text form_encode qs name none = qs
with_text form_encode qs name (some v) =
    if str_eq v "" then qs else with_param qs name (form_encode v)

module _ {J : Type 0} (encode : String → String) where
  abbrev get : String → Call J
  get path = record { method = "GET"; path = path; body = none; skip_auth = false }

  abbrev post : String → J → Call J
  post path body = record { method = "POST"; path = path; body = some body; skip_auth = false }

  abbrev put : String → J → Call J
  put path body = record { method = "PUT"; path = path; body = some body; skip_auth = false }

  abbrev del : String → Call J
  del path = record { method = "DELETE"; path = path; body = none; skip_auth = false }

  pub auth_login : J → Call J
  auth_login body = record {
    method = "POST";
    path = "/auth/login";
    body = some body;
    skip_auth = true;
  }

  pub auth_me : Call J
  auth_me = get "/auth/me"

  pub discovery_scan : Call J
  discovery_scan = get "/discovery/scan"

  pub discovery_known : Call J
  discovery_known = get "/discovery/known"

  pub connections_list : Call J
  connections_list = get "/connections"

  pub connections_connect : J → Call J
  connections_connect body = post "/connections" body

  pub connections_remove : String → Call J
  connections_remove id = del ("/connections/" ^+ id)

  pub cluster_topology : String → Call J
  cluster_topology id = get ("/clusters/" ^+ (id ^+ "/topology"))

  pub cluster_health : String → Call J
  cluster_health id = get ("/clusters/" ^+ (id ^+ "/health"))

  pub cluster_accounts : String → Call J
  cluster_accounts id = get ("/clusters/" ^+ (id ^+ "/accounts"))

  pub cluster_connz : String → Call J
  cluster_connz id = get ("/clusters/" ^+ (id ^+ "/connz"))

  pub cluster_rtt : String → Call J
  cluster_rtt id = get ("/clusters/" ^+ (id ^+ "/rtt"))

  pub streams_list : String → Call J
  streams_list cluster = get ("/clusters/" ^+ (cluster ^+ "/streams"))

  pub streams_get : String → String → Call J
  streams_get cluster name = get ("/clusters/" ^+ (cluster ^+ ("/streams/" ^+ name)))

  pub streams_create : String → J → Call J
  streams_create cluster body = post ("/clusters/" ^+ (cluster ^+ "/streams")) body

  pub streams_update : String → String → J → Call J
  streams_update cluster name body = put ("/clusters/" ^+ (cluster ^+ ("/streams/" ^+ name))) body

  pub streams_delete : String → String → Call J
  streams_delete cluster name = del ("/clusters/" ^+ (cluster ^+ ("/streams/" ^+ name)))

  pub streams_backup : String → String → Call J
  streams_backup cluster stream =
      get ("/clusters/" ^+ (cluster ^+ ("/streams/" ^+ (stream ^+ "/backup"))))

  pub streams_restore : String → J → Call J
  streams_restore cluster body = post ("/clusters/" ^+ (cluster ^+ "/restore")) body

  pub consumers_list : String → String → Call J
  consumers_list cluster stream =
      get ("/clusters/" ^+ (cluster ^+ ("/streams/" ^+ (stream ^+ "/consumers"))))

  pub consumers_get : String → String → String → Call J
  consumers_get cluster stream name =
      get ("/clusters/" ^+ (cluster ^+ ("/streams/" ^+ (stream ^+ ("/consumers/" ^+ name)))))

  pub consumers_create : String → String → J → Call J
  consumers_create cluster stream body =
      post ("/clusters/" ^+ (cluster ^+ ("/streams/" ^+ (stream ^+ "/consumers")))) body

  pub consumers_delete : String → String → String → Call J
  consumers_delete cluster stream name =
      del ("/clusters/" ^+ (cluster ^+ ("/streams/" ^+ (stream ^+ ("/consumers/" ^+ name)))))

  pub subjects_list : String → Call J
  subjects_list cluster = get ("/clusters/" ^+ (cluster ^+ "/subjects"))

  pub kv_buckets : String → Call J
  kv_buckets cluster = get ("/clusters/" ^+ (cluster ^+ "/kv"))

  pub kv_create_bucket : String → J → Call J
  kv_create_bucket cluster body = post ("/clusters/" ^+ (cluster ^+ "/kv")) body

  pub kv_delete_bucket : String → String → Call J
  kv_delete_bucket cluster bucket = del ("/clusters/" ^+ (cluster ^+ ("/kv/" ^+ encode bucket)))

  pub kv_keys : String → String → Call J
  kv_keys cluster bucket = get ("/clusters/" ^+ (cluster ^+ ("/kv/" ^+ (encode bucket ^+ "/keys"))))

  pub kv_history : String → String → String → Call J
  kv_history cluster bucket key =
      get (
        "/clusters/" ^+ (cluster ^+ ("/kv/" ^+ (encode bucket ^+ ("/history?key=" ^+ encode key)))))

  pub kv_put : String → String → String → J → Call J
  kv_put cluster bucket key body =
      put
        ("/clusters/" ^+ (cluster ^+ ("/kv/" ^+ (encode bucket ^+ ("/entry?key=" ^+ encode key)))))
        body

  pub obj_buckets : String → Call J
  obj_buckets cluster = get ("/clusters/" ^+ (cluster ^+ "/obj"))

  pub obj_create_bucket : String → J → Call J
  obj_create_bucket cluster body = post ("/clusters/" ^+ (cluster ^+ "/obj")) body

  pub obj_delete_bucket : String → String → Call J
  obj_delete_bucket cluster bucket = del ("/clusters/" ^+ (cluster ^+ ("/obj/" ^+ encode bucket)))

  pub obj_objects : String → String → Call J
  obj_objects cluster bucket =
      get ("/clusters/" ^+ (cluster ^+ ("/obj/" ^+ (encode bucket ^+ "/objects"))))

  pub obj_get : String → String → String → Call J
  obj_get cluster bucket name = get (
      "/clusters/" ^+ (cluster ^+ ("/obj/" ^+ (encode bucket ^+ ("/object?name=" ^+ encode name)))))

  pub obj_put : String → String → String → J → Call J
  obj_put cluster bucket name body =
      put
        ("/clusters/"
          ^+ (cluster ^+ ("/obj/" ^+ (encode bucket ^+ ("/object?name=" ^+ encode name)))))
        body

  pub obj_delete : String → String → String → Call J
  obj_delete cluster bucket name = del (
      "/clusters/" ^+ (cluster ^+ ("/obj/" ^+ (encode bucket ^+ ("/object?name=" ^+ encode name)))))

  pub publish : String → J → Call J
  publish cluster body = post ("/clusters/" ^+ (cluster ^+ "/publish")) body

  pub request : String → J → Call J
  request cluster body = post ("/clusters/" ^+ (cluster ^+ "/request")) body

  pub services_list : String → Call J
  services_list cluster = get ("/clusters/" ^+ (cluster ^+ "/services"))

  pub services_ping : String → Call J
  services_ping cluster = get ("/clusters/" ^+ (cluster ^+ "/services/ping"))

  pub debug_fetch : String → J → Call J
  debug_fetch cluster body = post ("/clusters/" ^+ (cluster ^+ "/debug/fetch")) body

  pub debug_ack : String → J → Call J
  debug_ack cluster body = post ("/clusters/" ^+ (cluster ^+ "/debug/ack")) body

  pub dlq_list : String → Call J
  dlq_list cluster = get ("/clusters/" ^+ (cluster ^+ "/dlq"))

  pub dlq_message : String → String → ℕ → Call J
  dlq_message cluster stream seq = get (
      "/clusters/"
      ^+ (cluster ^+ ("/dlq/message?stream=" ^+ (encode stream ^+ ("&seq=" ^+ decimal seq)))))

  pub dlq_redeliver : String → String → ℕ → J → Call J
  dlq_redeliver cluster stream seq body =
      post
        ("/clusters/"
          ^+ (cluster ^+ ("/dlq/redeliver?stream=" ^+ (encode stream ^+ ("&seq=" ^+ decimal seq)))))
        body

  pub dlq_clear : String → Call J
  dlq_clear cluster = del ("/clusters/" ^+ (cluster ^+ "/dlq"))

  pub metrics_throughput : String → Call J
  metrics_throughput cluster = get ("/clusters/" ^+ (cluster ^+ "/metrics/throughput"))

  -- The flag adds a second parameter to the query.
  pub kv_delete : String → String → String → Bool → Call J
  kv_delete cluster bucket key purge = del (
      "/clusters/"
      ^+ (cluster
          ^+ ("/kv/"
              ^+ (encode bucket
                  ^+ ("/entry?key=" ^+ (encode key ^+ (if purge then "&purge=true" else "")))))))

  -- `messages`; `form_encode` is how `URLSearchParams` writes a value.
  pub streams_messages :
      (String → String) → String → String → Option ℕ → Option ℕ → Option String → Call J
  streams_messages form_encode cluster stream start_seq limit subject =
      let qs =
        with_text form_encode (with_number (with_number "" "startSeq" start_seq) "limit" limit)
          "subject" subject in
      get ("/clusters/" ^+ (cluster ^+ ("/streams/" ^+ (stream ^+ ("/messages" ^+ qs)))))
