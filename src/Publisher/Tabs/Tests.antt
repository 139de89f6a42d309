-- ===== src/Publisher/Tabs/Tests.antt =====
-- Runs of the publisher's tabs, from a form with one new tab.
use nats_ui.Prelude.{◌≡◌, refl, [], ◌∷◌, arith, decimal}
use nats_ui.Store.Views.{PublisherViewState}
use nats_ui.Publisher.Tabs.{Form, make_tab, initial_form, add_tab, close_tab, rename_tab}
use nats_ui.Publisher.Tabs.Laws.{IsValid, here, next, adds, closes, renames, Reach-IsValid_form}

abbrev nothing_stored : PublisherViewState
nothing_stored = record { tabs = []; active_tab_id = "" }

abbrev first_form : Form
first_form = record { tabs = make_tab 5 2 ∷ []; active_tab_id = "tab-5-2"; tab_counter = 2 }

tab_tests :
    (initial_form 5 1 nothing_stored ≡ first_form)
    × (close_tab "tab-5-2" first_form ≡ first_form)
    × ((close_tab "tab-6-3" (add_tab 6 first_form)).active_tab_id ≡ "tab-5-2")
    × ((close_tab "tab-5-2" (add_tab 6 first_form)).active_tab_id ≡ "tab-6-3")
unfolding initial_form make_tab close_tab add_tab decimal
tab_tests = (refl, refl, refl, refl)

first_form-IsValid : IsValid first_form
unfolding make_tab decimal
first_form-IsValid = record {
  made = ((5, 2, omega arith, refl), tt);
  unique = λ id. ground arith;
  some_tab = omega arith;
  active = omega arith;
}

Reach-IsValid_form_example :
    IsValid (rename_tab "tab-5-2" "x" (close_tab "tab-6-3" (add_tab 6 first_form)))
Reach-IsValid_form_example = Reach-IsValid_form first_form-IsValid (
    next (next (next here (adds 6 first_form)) (closes "tab-6-3" (add_tab 6 first_form)))
      (renames "tab-5-2" "x" (close_tab "tab-6-3" (add_tab 6 first_form))))
