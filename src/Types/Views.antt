-- ===== src/Types/Views.antt =====
-- frontend/src/types/index.ts. Views and tabs of the user interface.
use nats_ui.Prelude.{String, Bool, Option}

pub data View : Type 0 where
  overview topology streams consumers kv objects tail browser publisher request replay lab metrics
        services health latency backup dlq accounts settings :
      View

pub record Tab : Type 0 where
  pub id : String
  pub label : String
  pub view : View
  pub cluster_id : Option String
  pub stream : Option String
  pub consumer : Option String
  pub pinned : Option Bool
