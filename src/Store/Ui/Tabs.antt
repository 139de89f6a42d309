-- ===== src/Store/Ui/Tabs.antt =====
-- The tabs of `useUIStore`: one tab for each identifier, and an active tab that is one of them.
use nats_ui.Prelude.{
  ℕ, ◌≤◌, ◌<◌, String, str_eq, str_eq_iff, str_eq_refl, ◌≡◌, ◌≢◌, refl, ◌∙◌, ap, false, Option,
  none, some, List, [], ◌∷◌, count_key, count_key-without, count_key-append_new, if◌then◌else◌,
  arith, Bool-cases, inl, inr,
}
use nats_ui.Types.Views.{Tab}
use nats_ui.Store.Ui.{UiState, without_tab, is_active, last_id, add_tab, close_tab, set_active_tab}

abbrev id_of : Tab → String
id_of t = t.id

abbrev pub count_tab : String → List Tab → ℕ
count_tab id tabs = count_key id_of id tabs

pub record IsValid (s : UiState) : Type 0 where
  pub unique : (id : String) → count_tab id s.tabs ≤ 1
  pub active : (id : String) → s.active_tab_id ≡ some id → 0 < count_tab id s.tabs

count_tab-last :
    (t : Tab) (tabs : List Tab) (id : String)
    → last_id (t ∷ tabs) ≡ some id
    → 0 < count_tab id (t ∷ tabs)
count_tab-last t [] id e = ground (arith, str_eq_iff t.id id)
count_tab-last t (u ∷ tabs) id e = ground (arith, count_tab-last u tabs id e)

last_id-count : (tabs : List Tab) (id : String) → last_id tabs ≡ some id → 0 < count_tab id tabs
last_id-count [] id e = cc
last_id-count (t ∷ tabs) id e = count_tab-last t tabs id e

add_tab-IsValid : (t : Tab) (s : UiState) → IsValid s → IsValid (add_tab t s)
unfolding add_tab
add_tab-IsValid t s v = record {
  unique = λ id. ground (arith, count_key-append_new id_of id s.tabs t, v.unique id);
  active = λ id e. ground (arith, count_key-append_new id_of id s.tabs t, str_eq_iff t.id id);
}

close_tab-IsValid : (id : String) (s : UiState) → IsValid s → IsValid (close_tab id s)
unfolding close_tab
close_tab-IsValid id s v = record {
  unique = λ j. ground (arith, count_key-without id_of id j s.tabs, v.unique j);
  active = λ j e. elim (Bool-cases (is_active s.active_tab_id id)) [
    | inl same ↦ last_id-count (without_tab id s.tabs) j (ground arith)
    | inr other ↦
        ground
          (arith, count_key-without id_of id j s.tabs, v.active j, str_eq_iff j id, str_eq_iff id j)
  ];
}

-- The user opens a tab, closes one, or goes to one that is shown.
pub data Step : UiState → UiState → Type 0 where
  opens : (t : Tab) (s : UiState) → Step s (add_tab t s)
  closes : (id : String) (s : UiState) → Step s (close_tab id s)
  goes : (id : String) (s : UiState) → 0 < count_tab id s.tabs → Step s (set_active_tab id s)

pub data Reach (s : UiState) : UiState → Type 0 where
  here : Reach s s
  next : {t u : UiState} → Reach s t → Step t u → Reach s u

Step-IsValid : {s t : UiState} → Step s t → IsValid s → IsValid t
unfolding set_active_tab
Step-IsValid (opens t s) v = add_tab-IsValid t s v
Step-IsValid (closes id s) v = close_tab-IsValid id s v
Step-IsValid (goes id s h) v = record {
  unique = v.unique;
  active = λ j e. let same : id ≡ j = cc in rw (← same) h;
}

-- From a valid state, as the initial one is, opening, closing and going to tabs keeps one tab for
-- each identifier, and the active tab among the tabs.
pub Reach-IsValid : {s t : UiState} → IsValid s → Reach s t → IsValid t
Reach-IsValid v here = v
Reach-IsValid v (next r st) = Step-IsValid st (Reach-IsValid v r)

is_active-false : (o : Option String) (id : String) → o ≢ some id → is_active o id ≡ false
is_active-false none id ne = refl
is_active-false (some j) id ne = elim (Bool-cases (str_eq j id)) [
  | inl e ↦ absurd (ne (ap some ((str_eq_iff j id).0 e)))
  | inr e ↦ e
]

-- Closing the active tab goes to the last tab that is left, to none exactly where none is left;
-- closing another tab leaves the active one.
pub active-close_tab :
    (id : String) (s : UiState)
    → (s.active_tab_id ≡ some id → (close_tab id s).active_tab_id ≡ last_id (close_tab id s).tabs)
      × (s.active_tab_id ≢ some id → (close_tab id s).active_tab_id ≡ s.active_tab_id)
      × (count_tab id (close_tab id s).tabs ≡ 0)
unfolding close_tab
active-close_tab id s = (
  (λ e. ground (arith, str_eq_refl id)),
  (λ ne. rw (is_active-false s.active_tab_id id ne) refl),
  count_key-without id_of id id s.tabs
      ∙ ap (λ b. if b then 0 else count_tab id s.tabs) (str_eq_refl id),
)
