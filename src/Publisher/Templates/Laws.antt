-- ===== src/Publisher/Templates/Laws.antt =====
-- The list of templates after saves and deletions, and what a reload finds.
use nats_ui.Prelude.{
  ℕ, zero, suc, ◌≤◌, String, str_eq, str_eq_refl, ◌≡◌, refl, ◌∙◌, ap, Bool, true, false, not,
  Option, some, List, [], ◌∷◌, length, take, filter, count_key, count_key-without, Dict,
  lookup-insert_self, if◌then◌else◌, arith,
}
use nats_ui.Store.Views.{PublisherTab}
use nats_ui.Publisher.Templates.{
  Template, Saved, tpl_key, template_limit, load_templates, persist_templates, template_name,
  new_template, save_template, delete_template, without_name,
}

abbrev name_of : Template → String
name_of t = t.name

abbrev pub count_name : String → List Template → ℕ
count_name name ts = count_key name_of name ts

-- No two templates have the same name, and there are at most 50.
pub record IsTidy (ts : List Template) : Type 0 where
  pub unique : (name : String) → count_name name ts ≤ 1
  pub short : length ts ≤ template_limit

count_name-take :
    (n : ℕ) (name : String) (ts : List Template) → count_name name (take n ts) ≤ count_name name ts
count_name-take zero name ts = ground arith
count_name-take (suc n) name [] = omega arith
count_name-take (suc n) name (t ∷ ts) = ground (arith, count_name-take n name ts)

length-take_limit : (n : ℕ) (ts : List Template) → length (take n ts) ≤ n
length-take_limit zero ts = ground arith
length-take_limit (suc n) [] = omega arith
length-take_limit (suc n) (t ∷ ts) = omega (arith, length-take_limit n ts)

count_name-filter :
    (p : Template → Bool) (name : String) (ts : List Template)
    → count_name name (filter p ts) ≤ count_name name ts
count_name-filter p name [] = omega arith
count_name-filter p name (t ∷ ts) = ground (arith, count_name-filter p name ts)

length-filter_limit : (p : Template → Bool) (ts : List Template) → length (filter p ts) ≤ length ts
length-filter_limit p [] = omega arith
length-filter_limit p (t ∷ ts) = ground (arith, length-filter_limit p ts)

put_first-IsTidy :
    (t : Template) (ts : List Template)
    → IsTidy ts
    → IsTidy (t ∷ take 49 (without_name t.name ts))
      × (count_name t.name (t ∷ take 49 (without_name t.name ts)) ≡ 1)
put_first-IsTidy t ts v =
    let rest : List Template = without_name t.name ts in
    (
      record {
        unique = λ j.
            ground
              (arith, count_name-take 49 j rest, count_key-without name_of t.name j ts, v.unique j);
        short = omega (arith, length-take_limit 49 rest);
      },
      ground (
        arith,
        count_name-take 49 t.name rest,
        count_key-without name_of t.name t.name ts,
        str_eq_refl t.name,
      ),
    )

filter-IsTidy : (p : Template → Bool) (ts : List Template) → IsTidy ts → IsTidy (filter p ts)
filter-IsTidy p ts v = record {
  unique = λ j. omega (arith, count_name-filter p j ts, v.unique j);
  short = omega (arith, length-filter_limit p ts, v.short);
}

without_id-none :
    (id : String) (ts : List Template)
    → count_key (λ t. t.id) id (filter (λ t. not (str_eq t.id id)) ts) ≡ 0
without_id-none id ts =
    count_key-without (λ t. t.id) id id ts
    ∙ ap (λ b. if b then 0 else count_key (λ t. t.id) id ts) (str_eq_refl id)

module _ (encode : List Template → String) (fits : String → Bool) where
  persisted :
      (decode : String → Option (List Template))
      → ((text : String) → fits text ≡ true)
      → ((ts : List Template) → decode (encode ts) ≡ some ts)
      → ((ts : List Template) → str_eq (encode ts) "" ≡ false)
      → (ts : List Template) (storage : Dict String)
      → load_templates decode (persist_templates encode fits ts storage) ≡ ts
  unfolding load_templates persist_templates
  persisted decode takes reads filled ts storage =
      rw (takes (encode ts), lookup-insert_self tpl_key (encode ts) storage, filled ts, reads ts)
        refl

  -- Saving puts the new template first and takes out the one of its name; deleting leaves none of
  -- the identifier. Both keep one template for each name, and at most 50.
  pub save_template-IsTidy :
      (now : ℕ) (save_name : String) (tab : PublisherTab) (s : Saved)
      → IsTidy s.templates
      → IsTidy (save_template encode fits now save_name tab s).templates
        × ((id : String)
            → IsTidy (delete_template encode fits id s).templates
              × (count_key (λ t. t.id) id (delete_template encode fits id s).templates ≡ 0))
        × (count_name
              (template_name save_name tab)
              (save_template encode fits now save_name tab s).templates
            ≡ 1)
  unfolding save_template delete_template new_template
  save_template-IsTidy now save_name tab s v =
      let (tidy, one) = put_first-IsTidy (new_template now save_name tab) s.templates v in
      (
        tidy,
        (λ id. (
          filter-IsTidy (λ t. not (str_eq t.id id)) s.templates v,
          without_id-none id s.templates,
        )),
        one,
      )

  -- Where the store takes every text, and a list of templates that is written as JSON is read back as
  -- it was, a reload finds the templates as saving or deleting left them.
  pub load_templates-saved :
      (decode : String → Option (List Template)) (now : ℕ) (save_name id : String)
      (tab : PublisherTab) (s : Saved)
      → ((text : String) → fits text ≡ true)
      → ((ts : List Template) → decode (encode ts) ≡ some ts)
      → ((ts : List Template) → str_eq (encode ts) "" ≡ false)
      → (load_templates decode (save_template encode fits now save_name tab s).storage
          ≡ (save_template encode fits now save_name tab s).templates)
        × (load_templates decode (delete_template encode fits id s).storage
            ≡ (delete_template encode fits id s).templates)
  unfolding save_template delete_template
  load_templates-saved decode now save_name id tab s takes reads filled = (
    persisted decode takes reads filled _ s.storage,
    persisted decode takes reads filled _ s.storage,
  )
