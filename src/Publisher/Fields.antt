-- ===== src/Publisher/Fields.antt =====
-- The fields of the active tab in frontend/src/components/publisher/MessagePublisher.tsx. Each
-- helper reads the tab that is shown and writes to the tab with the active identifier.
use nats_ui.Prelude.{ℕ, suc, zero, String, Option, none, some, or_else, List, [], ◌∷◌, ◌++◌}
use nats_ui.Store.Views.{PublisherOpts, Header}
use nats_ui.Publisher.Tabs.{Form, active_tab, update_active_tab}
use nats_ui.Publisher.Send.{no_opts}

-- `activeTab?.headers ?? []` and `activeTab?.opts ?? {}`.
abbrev pub shown_headers : Form → List Header
shown_headers s = elim (active_tab s) [ none ↦ [] | some t ↦ t.headers ]

abbrev pub shown_opts : Form → PublisherOpts
shown_opts s = elim (active_tab s) [ none ↦ no_opts | some t ↦ or_else t.opts no_opts ]

pub set_subject : String → Form → Form
set_subject v s = update_active_tab (λ t. record t { subject = v }) s

pub set_payload : String → Form → Form
set_payload v s = update_active_tab (λ t. record t { payload = v }) s

abbrev set_headers : List Header → Form → Form
set_headers hs s = update_active_tab (λ t. record t { headers = hs }) s

pub add_header : Form → Form
add_header s = set_headers (shown_headers s ++ record { key = ""; value = "" } ∷ []) s

-- `filter((_, idx) => idx !== i)`.
pub remove_at : ℕ → List Header → List Header
remove_at i [] = []
remove_at zero (h ∷ hs) = hs
remove_at (suc i) (h ∷ hs) = h ∷ remove_at i hs

pub remove_header : ℕ → Form → Form
unfolding remove_at
remove_header i s = set_headers (remove_at i (shown_headers s)) s

pub data HeaderField : Type 0 where
  key_field value_field : HeaderField

-- `{ ...h, [field]: val }`.
abbrev pub write_field : HeaderField → String → Header → Header
write_field key_field v h = record h { key = v }
write_field value_field v h = record h { value = v }

-- `map((h, idx) => idx === i ? … : h)`.
pub update_at : ℕ → (Header → Header) → List Header → List Header
update_at i f [] = []
update_at zero f (h ∷ hs) = f h ∷ hs
update_at (suc i) f (h ∷ hs) = h ∷ update_at i f hs

pub update_header : ℕ → HeaderField → String → Form → Form
unfolding update_at
update_header i field v s = set_headers (update_at i (write_field field v) (shown_headers s)) s

-- `updateOpts`; what the patch writes is a function.
pub update_opts : (PublisherOpts → PublisherOpts) → Form → Form
update_opts patch s =
    let opts = patch (shown_opts s) in update_active_tab (λ t. record t { opts = some opts }) s

-- `formatJSON`; `pretty` parses and prints, and is `none` where the text does not parse.
pub format_json : (String → Option String) → Form → Form
unfolding set_payload
format_json pretty s = elim (active_tab s) [
  | none ↦ s
  | some t ↦ elim (pretty t.payload) [ none ↦ s | some p ↦ set_payload p s ]
]
