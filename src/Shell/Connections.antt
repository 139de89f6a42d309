-- ===== src/Shell/Connections.antt =====
-- The list of connections in the settings, `ConnectionList` of
-- frontend/src/components/layout/AppShell.tsx. `handleRemove` is in two halves, up to the call of the
-- API and from its answer.
use nats_ui.Prelude.{String, str_eq, Bool, true, false, not, Option, none, some, List, filter}
use nats_ui.Store.Ui.{UiState, remove_active_cluster}

pub record SavedConn : Type 0 where
  pub id : String
  pub name : String
  pub url : String
  pub jetstream : Bool
  pub status : String

pub record ConnList : Type 0 where
  pub conns : List SavedConn
  pub removing : Option String

-- `load`, when its answer is there; an error leaves the list.
pub loaded : Option (List SavedConn) → ConnList → ConnList
loaded none l = l
loaded (some conns) l = record l { conns = conns }

pub start_remove : String → ConnList → ConnList
start_remove id l = record l { removing = some id }

-- The rest of `handleRemove`, where `ok` tells whether the call succeeded.
pub removed : String → Bool → ConnList → UiState → ConnList × UiState
removed id true l s = (
  record { conns = filter (λ c. not (str_eq c.id id)) l.conns; removing = none },
  remove_active_cluster id s,
)
removed id false l s = (record l { removing = none }, s)
