-- ===== src/Publisher/Templates.antt =====
-- The saved templates of frontend/src/components/publisher/MessagePublisher.tsx. `JSON` is the
-- parameters `encode` and `decode`; `fits` tells whether `localStorage` takes the text. What `slice`
-- keeps of a name is counted in characters.
pub mod Laws
mod Tests
use Prim.Native.String
use nats_ui.Prelude.{
  ℕ, zero, suc, String, str_eq, ◌^+◌, decimal, Bool, not, Option, none, some, or_else, List, [],
  ◌∷◌, take, filter, Dict, lookup, insert, if◌then◌else◌,
}
use nats_ui.Store.Views.{PublisherTab, Header}
use nats_ui.Publisher.Placeholders.{trim}
use nats_ui.Publisher.Tabs.{Form, update_active_tab}

pub record Template : Type 0 where
  pub id : String
  pub name : String
  pub subject : String
  pub payload : String
  pub headers : List Header

abbrev pub tpl_key : String
tpl_key = "natsui-publisher-templates"

abbrev pub template_limit : ℕ
template_limit = 50

-- `templates`, and `localStorage`.
pub record Saved : Type 0 where
  pub templates : List Template
  pub storage : Dict String

-- `loadTemplates`; `||` takes "[]" for an empty text too.
pub load_templates : (String → Option (List Template)) → Dict String → List Template
load_templates decode storage =
    let stored = or_else (lookup tpl_key storage) "" in
    or_else (decode (if str_eq stored "" then "[]" else stored)) []

pub persist_templates :
    (List Template → String) → (String → Bool) → List Template → Dict String → Dict String
persist_templates encode fits ts storage =
    if fits (encode ts) then insert tpl_key (encode ts) storage else storage

-- `slice(0, 40)`.
pub take_chars : ℕ → String → String
take_chars zero s = ""
take_chars (suc n) String.[] = ""
take_chars (suc n) (String.◌∷◌ c s) = String.◌∷◌ c (take_chars n s)

abbrev pub first_filled : String → String → String
first_filled a b = if str_eq a "" then b else a

-- `(saveName.trim() || activeTab.subject.trim() || 'Untitled').slice(0, 40)`.
pub template_name : String → PublisherTab → String
unfolding take_chars
template_name save_name tab =
    take_chars 40 (first_filled (trim save_name) (first_filled (trim tab.subject) "Untitled"))

pub new_template : ℕ → String → PublisherTab → Template
unfolding template_name
new_template now save_name tab = record {
  id = "tpl-" ^+ decimal now;
  name = template_name save_name tab;
  subject = tab.subject;
  payload = tab.payload;
  headers = tab.headers;
}

abbrev pub without_name : String → List Template → List Template
without_name name ts = filter (λ t. not (str_eq t.name name)) ts

module _ (encode : List Template → String) (fits : String → Bool) where
  abbrev store_templates : List Template → Saved → Saved
  store_templates next s = record {
    templates = next;
    storage = persist_templates encode fits next s.storage;
  }

  -- `saveTemplate`, where a tab is shown.
  pub save_template : ℕ → String → PublisherTab → Saved → Saved
  unfolding new_template
  save_template now save_name tab s =
      let tpl = new_template now save_name tab in
      store_templates (take template_limit (tpl ∷ without_name tpl.name s.templates)) s

  pub delete_template : String → Saved → Saved
  delete_template id s = store_templates (filter (λ t. not (str_eq t.id id)) s.templates) s

-- `loadTemplate`.
pub load_template : Template → Form → Form
load_template tpl s =
    update_active_tab
      (λ t. record t { subject = tpl.subject; payload = tpl.payload; headers = tpl.headers }) s
