-- ===== src/Publisher/Templates/Tests.antt =====
-- A list of one template, and a tab that is saved under its name.
use nats_ui.Prelude.{String, ◌≡◌, refl, Bool, true, List, [], ◌∷◌, none, arith}
use nats_ui.Store.Views.{PublisherTab}
use nats_ui.Publisher.Placeholders.{trim}
use nats_ui.Publisher.Templates.{Template, Saved, template_name, save_template, delete_template}
use nats_ui.Publisher.Templates.Laws.{IsTidy, save_template-IsTidy, count_name}
use nats_ui.Prelude.{count_key}

abbrev one_template : List Template
one_template =
    record { id = "tpl-1"; name = "orders"; subject = "a"; payload = ""; headers = [] } ∷ []

abbrev saved_tab : PublisherTab
saved_tab = record {
  id = "tab-5-2";
  label = "Tab 2";
  subject = " orders ";
  payload = "{}";
  headers = [];
  opts = none;
}

abbrev one_saved : Saved
one_saved = record { templates = one_template; storage = [] }

abbrev encode_none : List Template → String
encode_none ts = "[]"

abbrev always : String → Bool
always text = true

name_tests : (template_name "  " saved_tab ≡ "orders") × (template_name " x" saved_tab ≡ "x")
unfolding template_name trim
name_tests = (refl, refl)

one_template-IsTidy : IsTidy one_template
one_template-IsTidy = record { unique = λ name. ground arith; short = omega arith }

save_template-IsTidy_example :
    IsTidy (save_template encode_none always 2 "" saved_tab one_saved).templates
    × ((id : String)
        → IsTidy (delete_template encode_none always id one_saved).templates
          × (count_key (λ t. t.id) id (delete_template encode_none always id one_saved).templates
              ≡ 0))
    × (count_name
          (template_name "" saved_tab)
          (save_template encode_none always 2 "" saved_tab one_saved).templates
        ≡ 1)
save_template-IsTidy_example =
    save_template-IsTidy encode_none always 2 "" saved_tab one_saved one_template-IsTidy
