-- ===== src/Publisher/Tabs.antt =====
-- The tabs of frontend/src/components/publisher/MessagePublisher.tsx: `MessagePublisher` from its
-- first state on, and the fields of the active tab. `JSON.parse` and `JSON.stringify` are the
-- parameter `pretty`. `now` is `Date.now()`.
pub mod Laws
mod Tests
use nats_ui.Prelude.{
  ℕ, ◌+◌, ◌-◌, String, str_eq, ◌^+◌, decimal, not, Option, none, some, List, [], ◌∷◌, ◌++◌, map,
  length, filter, find?, get_elem?, ◌==◌, if◌then◌else◌,
}
use nats_ui.Store.Views.{PublisherTab, PublisherViewState}

-- `tabs`, `activeTabId` and the module's `tabCounter`.
pub record Form : Type 0 where
  pub tabs : List PublisherTab
  pub active_tab_id : String
  pub tab_counter : ℕ

pub tab_id : ℕ → ℕ → String
tab_id now n = "tab-" ^+ (decimal now ^+ ("-" ^+ decimal n))

-- `makeTab`, after it has counted.
pub make_tab : ℕ → ℕ → PublisherTab
unfolding tab_id
make_tab now n = record {
  id = tab_id now n;
  label = "Tab " ^+ decimal n;
  subject = "";
  payload = "";
  headers = [];
  opts = none;
}

-- The tabs at first: those of the store, or a new one; and `||`, which passes over an empty text.
pub initial_form : ℕ → ℕ → PublisherViewState → Form
unfolding make_tab
initial_form now counter stored = elim stored.tabs [
  | [] ↦
      let tab = make_tab now (counter + 1) in
      record {
        tabs = tab ∷ [];
        active_tab_id = if str_eq stored.active_tab_id "" then tab.id else stored.active_tab_id;
        tab_counter = counter + 1;
      }
  | t ∷ ts ↦ record {
    tabs = t ∷ ts;
    active_tab_id = if str_eq stored.active_tab_id "" then t.id else stored.active_tab_id;
    tab_counter = counter;
  }
]

-- `tabs.find(t => t.id === activeTabId) ?? tabs[0]`.
pub active_tab : Form → Option PublisherTab
active_tab s = elim (find? (λ t. str_eq t.id s.active_tab_id) s.tabs) [
  | some t ↦ some t
  | none ↦ get_elem? s.tabs 0
]

-- `updateActiveTab`; what the patch writes is a function.
pub update_active_tab : (PublisherTab → PublisherTab) → Form → Form
update_active_tab patch s = record s {
  tabs = map (λ t. if str_eq t.id s.active_tab_id then patch t else t) s.tabs;
}

pub add_tab : ℕ → Form → Form
unfolding make_tab
add_tab now s =
    let tab = make_tab now (s.tab_counter + 1) in
    record { tabs = s.tabs ++ tab ∷ []; active_tab_id = tab.id; tab_counter = s.tab_counter + 1 }

-- `Math.max(0, idx - 1)` for `findIndex`, which is -1 where there is no such tab.
abbrev find_index : String → List PublisherTab → Option ℕ
find_index id [] = none
find_index id (t ∷ ts) =
    let rest = find_index id ts in
    if str_eq t.id id then some 0 else elim rest [ none ↦ none | some i ↦ some (i + 1) ]

pub index_before : String → List PublisherTab → ℕ
index_before id tabs = elim (find_index id tabs) [ none ↦ 0 | some i ↦ i - 1 ]

-- `next[i]?.id ?? next[0]?.id ?? ''`.
pub id_at : ℕ → List PublisherTab → String
id_at i next = elim (get_elem? next i) [
  | some t ↦ t.id
  | none ↦ elim (get_elem? next 0) [ some t ↦ t.id | none ↦ "" ]
]

pub without_tab : String → List PublisherTab → List PublisherTab
without_tab id tabs = filter (λ t. not (str_eq t.id id)) tabs

pub close_tab : String → Form → Form
unfolding index_before id_at without_tab
close_tab id s =
    let next = without_tab id s.tabs in
    if length s.tabs == 1 then s else record s {
      tabs = next;
      active_tab_id =
          if str_eq id s.active_tab_id
          then id_at (index_before id s.tabs) next
          else s.active_tab_id;
    }

pub rename_tab : String → String → Form → Form
rename_tab id label s = record s {
  tabs = map (λ t. if str_eq t.id id then record t { label = label } else t) s.tabs;
}

-- `setActiveTabIdLocal`.
pub go_to_tab : String → Form → Form
go_to_tab id s = record s { active_tab_id = id }
