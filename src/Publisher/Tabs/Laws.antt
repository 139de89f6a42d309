-- ===== src/Publisher/Tabs/Laws.antt =====
-- Runs of the publisher's tabs: there is always one, and the active tab is one of them.
use Prim.Native.Char.{Char}
use nats_ui.Prelude.{
  ℕ, zero, suc, ◌+◌, ◌≤◌, String, str_eq, str_eq_iff, str_eq_refl, ◌^+◌, decimal, decimal_inj, ◌≡◌,
  refl, sym, ◌∙◌, ap, not, none, some, inl, inr, List, [], ◌∷◌, ◌++◌, map, length, length-append,
  All, All-append, All-filter, get_elem?, ◌==◌, count_key, count_key-without, if◌then◌else◌, arith,
  Bool-cases, Option-cases, split_at, Avoids-decimal,
}
use mathlib.Core.Path.{ap₂, subst}
use text.Mathlib.TextLemmas.{cons-append, nil-append, append_cancel_left}
use nats_ui.Store.Views.{PublisherTab}
use nats_ui.Publisher.Tabs.{
  Form, tab_id, make_tab, update_active_tab, add_tab, id_at, index_before, without_tab, close_tab,
  rename_tab, go_to_tab,
}

abbrev id_of : PublisherTab → String
id_of t = t.id

abbrev pub count_id : String → List PublisherTab → ℕ
count_id id tabs = count_key id_of id tabs

abbrev dash : Char
dash = "-"

tab_id-shape : (now n : ℕ) → tab_id now n ≡ ("tab-" ^+ (decimal now ^+ String.◌∷◌ dash (decimal n)))
unfolding tab_id
tab_id-shape now n =
    ap (λ x. "tab-" ^+ (decimal now ^+ x))
      (cons-append dash "" (decimal n) ∙ ap (String.◌∷◌ dash) (nil-append (decimal n)))

-- The number of a tab is part of its identifier.
pub tab_id_inj : (now now' m n : ℕ) → tab_id now m ≡ tab_id now' n → m ≡ n
tab_id_inj now now' m n e =
    let tail = append_cancel_left "tab-" _ _ (sym (tab_id-shape now m) ∙ e ∙ tab_id-shape now' n) in
    decimal_inj m n
      (split_at dash (decimal now) (decimal now') (decimal m) (decimal n)
        (Avoids-decimal b'-' now (inl (omega arith))) (Avoids-decimal b'-' now' (inl (omega arith)))
        tail).1

-- The tab was made by `makeTab`, at most as the `n`-th.
abbrev pub IsMade : ℕ → PublisherTab → Type 0
IsMade n t = (now : ℕ) × (k : ℕ) × (k ≤ n) × (t.id ≡ tab_id now k)

-- One tab for each identifier, at least one tab, and the active one among them.
pub record IsValid (s : Form) : Type 0 where
  pub made : All (IsMade s.tab_counter) s.tabs
  pub unique : (id : String) → count_id id s.tabs ≤ 1
  pub some_tab : 1 ≤ length s.tabs
  pub active : 1 ≤ count_id s.active_tab_id s.tabs

IsMade-suc : (n : ℕ) (tabs : List PublisherTab) → All (IsMade n) tabs → All (IsMade (n + 1)) tabs
IsMade-suc n [] h = tt
IsMade-suc n (t ∷ tabs) ((now, k, low, e), h) = ((now, k, omega arith, e), IsMade-suc n tabs h)

count_id-new :
    (now n : ℕ) (tabs : List PublisherTab)
    → All (IsMade n) tabs
    → count_id (tab_id now (n + 1)) tabs ≡ 0
count_id-new now n [] h = refl
count_id-new now n (t ∷ tabs) ((now', k, low, e), h) =
    elim (Bool-cases (str_eq t.id (tab_id now (n + 1)))) [
      | inl same ↦ absurd (
          let k_eq : k ≡ n + 1 = tab_id_inj now' now k (n + 1) (sym e ∙ (str_eq_iff _ _).0 same) in
          omega arith)
      | inr other ↦ rw other (count_id-new now n tabs h)
    ]

count_id-cons :
    (id : String) (t : PublisherTab) (tabs : List PublisherTab)
    → count_id id (t ∷ tabs) ≡ (if str_eq t.id id then suc (count_id id tabs) else count_id id tabs)
count_id-cons id t tabs = ground arith

count_id-append_one :
    (id : String) (t : PublisherTab) (tabs : List PublisherTab)
    → count_id id (tabs ++ t ∷ [])
      ≡ (if str_eq t.id id then suc (count_id id tabs) else count_id id tabs)
count_id-append_one id t [] = ground arith
count_id-append_one id t (u ∷ tabs) = ground (arith, count_id-append_one id t tabs)

-- What a map keeps that changes no identifier.
map-parts :
    (g : PublisherTab → PublisherTab) (n : ℕ) (tabs : List PublisherTab)
    → ((t : PublisherTab) → (g t).id ≡ t.id)
    → All (IsMade n) tabs
    → All (IsMade n) (map g tabs)
      × ((id : String) → count_id id (map g tabs) ≡ count_id id tabs)
      × (length (map g tabs) ≡ length tabs)
map-parts g n [] same h = (tt, (λ id. refl), refl)
map-parts g n (t ∷ tabs) same ((now, k, low, e), h) =
    let (made, counts, len) = map-parts g n tabs same h in
    (
      ((now, k, low, same t ∙ e), made),
      (λ id.
          count_id-cons id (g t) (map g tabs)
          ∙ ap₂ (λ x m. if str_eq x id then suc m else m) (same t) (counts id)
          ∙ sym (count_id-cons id t tabs)),
      ap suc len,
    )

map-IsValid :
    (g : PublisherTab → PublisherTab) (s : Form)
    → ((t : PublisherTab) → (g t).id ≡ t.id)
    → IsValid s
    → IsValid (record s { tabs = map g s.tabs })
map-IsValid g s same v =
    let (made, counts, len) = map-parts g s.tab_counter s.tabs same v.made in
    record {
      made = made;
      unique = λ id. rw (counts id) (v.unique id);
      some_tab = rw len v.some_tab;
      active = rw (counts s.active_tab_id) v.active;
    }

length-without_tab :
    (id : String) (tabs : List PublisherTab)
    → length (without_tab id tabs) + count_id id tabs ≡ length tabs
unfolding without_tab
length-without_tab id [] = refl
length-without_tab id (t ∷ tabs) = ground (arith, length-without_tab id tabs)

count_id-without_tab :
    (id j : String) (tabs : List PublisherTab)
    → count_id j (without_tab id tabs) ≡ (if str_eq id j then 0 else count_id j tabs)
unfolding without_tab
count_id-without_tab id j tabs = count_key-without id_of id j tabs

count_id-get_elem? :
    (tabs : List PublisherTab) (i : ℕ) (t : PublisherTab)
    → get_elem? tabs i ≡ some t
    → 1 ≤ count_id t.id tabs
count_id-get_elem? [] i t e = cc
count_id-get_elem? (u ∷ tabs) zero t e =
    let same : u ≡ t = cc in rw (same, str_eq_refl t.id) (omega arith)
count_id-get_elem? (u ∷ tabs) (suc i) t e = ground (arith, count_id-get_elem? tabs i t e)

id_at-some :
    (i : ℕ) (tabs : List PublisherTab) {t : PublisherTab}
    → get_elem? tabs i ≡ some t
    → id_at i tabs ≡ t.id
unfolding id_at
id_at-some i tabs e = rw (e, id_at) refl

id_at-none :
    (i : ℕ) (t : PublisherTab) (tabs : List PublisherTab)
    → get_elem? (t ∷ tabs) i ≡ none
    → id_at i (t ∷ tabs) ≡ t.id
unfolding id_at
id_at-none i t tabs e = rw (e, id_at) refl

count_id-id_at :
    (i : ℕ) (tabs : List PublisherTab) → 1 ≤ length tabs → 1 ≤ count_id (id_at i tabs) tabs
count_id-id_at i [] h = absurd (omega arith)
count_id-id_at i (t ∷ tabs) h = elim (Option-cases (get_elem? (t ∷ tabs) i)) [
  | inl e ↦
      subst (λ x. 1 ≤ count_id x (t ∷ tabs)) (sym (id_at-none i t tabs e))
        (count_id-get_elem? (t ∷ tabs) 0 t refl)
  | inr (u, e) ↦
      subst (λ x. 1 ≤ count_id x (t ∷ tabs)) (sym (id_at-some i (t ∷ tabs) e))
        (count_id-get_elem? (t ∷ tabs) i u e)
]

add_tab-IsValid : (now : ℕ) (s : Form) → IsValid s → IsValid (add_tab now s)
unfolding add_tab make_tab
add_tab-IsValid now s v =
    let n : ℕ = s.tab_counter + 1 in
    let t : PublisherTab = make_tab now n in
    record {
      made =
          All-append (IsMade n) s.tabs (t ∷ []) (IsMade-suc s.tab_counter s.tabs v.made)
            ((now, n, omega arith, refl), tt);
      unique = λ id. rw (count_id-append_one id t s.tabs) (elim (Bool-cases (str_eq t.id id)) [
        | inl e ↦
            let new : count_id id s.tabs ≡ 0 =
              ap (λ x. count_id x s.tabs) (sym ((str_eq_iff t.id id).0 e))
              ∙ count_id-new now s.tab_counter s.tabs v.made in
            rw (e, new) (omega arith)
        | inr e ↦ rw e (v.unique id)
      ]);
      some_tab = omega (arith, length-append s.tabs (t ∷ []));
      active = rw (count_id-append_one t.id t s.tabs, str_eq_refl t.id) (omega arith);
    }

close_tab-IsValid : (id : String) (s : Form) → IsValid s → IsValid (close_tab id s)
unfolding close_tab
close_tab-IsValid id s v =
    let rest : List PublisherTab = without_tab id s.tabs in
    let left : 2 ≤ length s.tabs → 1 ≤ length rest =
      λ two. omega (arith, length-without_tab id s.tabs, v.unique id) in
    elim (Bool-cases (length s.tabs == 1)) [
      | inl e ↦ rw e v
      | inr e ↦
          let two : 2 ≤ length s.tabs = ground (arith, v.some_tab) in
          rw e (record {
            made = All-filter (IsMade s.tab_counter) (λ t. not (str_eq t.id id)) s.tabs v.made;
            unique = λ j. ground (arith, count_id-without_tab id j s.tabs, v.unique j);
            some_tab = left two;
            active = elim (Bool-cases (str_eq id s.active_tab_id)) [
              | inl same ↦ rw same (count_id-id_at (index_before id s.tabs) rest (left two))
              | inr other ↦
                  rw other
                    (ground (arith, count_id-without_tab id s.active_tab_id s.tabs, v.active))
            ];
          })
    ]

-- What the user does: writes to the fields of the active tab, adds, closes and renames tabs, and
-- goes to a tab that is shown.
pub data Step : Form → Form → Type 0 where
  updates :
      (patch : PublisherTab → PublisherTab) (s : Form)
      → ((t : PublisherTab) → (patch t).id ≡ t.id)
      → Step s (update_active_tab patch s)
  adds : (now : ℕ) (s : Form) → Step s (add_tab now s)
  closes : (id : String) (s : Form) → Step s (close_tab id s)
  renames : (id label : String) (s : Form) → Step s (rename_tab id label s)
  goes : (id : String) (s : Form) → 1 ≤ count_id id s.tabs → Step s (go_to_tab id s)

pub data Reach (s : Form) : Form → Type 0 where
  here : Reach s s
  next : {t u : Form} → Reach s t → Step t u → Reach s u

Step-IsValid : {s t : Form} → Step s t → IsValid s → IsValid t
unfolding update_active_tab rename_tab go_to_tab
Step-IsValid (updates patch s same) v =
    map-IsValid _ s
      (λ t. elim (Bool-cases (str_eq t.id s.active_tab_id)) [
        | inl e ↦ rw e (same t)
        | inr e ↦ rw e refl
      ])
      v
Step-IsValid (adds now s) v = add_tab-IsValid now s v
Step-IsValid (closes id s) v = close_tab-IsValid id s v
Step-IsValid (renames id label s) v =
    map-IsValid _ s
      (λ t. elim (Bool-cases (str_eq t.id id)) [ inl e ↦ rw e refl | inr e ↦ rw e refl ]) v
Step-IsValid (goes id s h) v = record {
  made = v.made;
  unique = v.unique;
  some_tab = v.some_tab;
  active = h;
}

-- Whatever is done with the tabs of a valid form, which a new form is, there is at least one tab, the
-- active tab is one of them, and no two tabs have the same identifier.
pub Reach-IsValid_form : {s t : Form} → IsValid s → Reach s t → IsValid t
Reach-IsValid_form v here = v
Reach-IsValid_form v (next r st) = Step-IsValid st (Reach-IsValid_form v r)
