-- ===== src/Store/Ui/Clusters.antt =====
-- The connected clusters of `useUIStore`, an array used as a set.
use nats_ui.Prelude.{
  ℕ, suc, ◌≤◌, String, str_eq, str_eq_iff, str_eq_refl, ◌≡◌, ◌≢◌, refl, true, false, List, [], ◌∷◌,
  ◌++◌, any, count_key, count_key-without, if◌then◌else◌, arith, Bool-cases, inl, inr,
}
use nats_ui.Store.Ui.{UiState, set_active_cluster, remove_active_cluster}

-- How often a cluster is listed.
abbrev pub count_cluster : String → UiState → ℕ
count_cluster id s = count_key (λ c. c) id s.active_clusters

count-of_absent :
    (id : String) (cs : List String)
    → any (λ c. str_eq c id) cs ≡ false
    → count_key (λ c. c) id cs ≡ 0
count-of_absent id [] e = refl
count-of_absent id (c ∷ cs) e = ground (arith, count-of_absent id cs)

count-of_present :
    (id : String) (cs : List String)
    → any (λ c. str_eq c id) cs ≡ true
    → 1 ≤ count_key (λ c. c) id cs
count-of_present id [] e = cc
count-of_present id (c ∷ cs) e = ground (arith, count-of_present id cs)

count-append_one :
    (id new : String) (cs : List String)
    → count_key (λ c. c) id (cs ++ new ∷ [])
      ≡ (if str_eq new id then suc (count_key (λ c. c) id cs) else count_key (λ c. c) id cs)
count-append_one id new [] = ground arith
count-append_one id new (c ∷ cs) = ground (arith, count-append_one id new cs)

-- If no cluster is listed twice, then none is after connecting or removing one; a connected cluster
-- is listed once, a removed one not at all, and the others stay as they were.
pub count_cluster-after :
    (id other : String) (s : UiState)
    → count_cluster id s ≤ 1
    → (count_cluster id (set_active_cluster id s) ≡ 1)
      × (count_cluster id (remove_active_cluster id s) ≡ 0)
      × (id ≢ other
          → (count_cluster other (set_active_cluster id s) ≡ count_cluster other s)
            × (count_cluster other (remove_active_cluster id s) ≡ count_cluster other s))
unfolding set_active_cluster remove_active_cluster
count_cluster-after id other s h =
    let cs : List String = s.active_clusters in
    elim (Bool-cases (any (λ c. str_eq c id) cs)) [
      | inl e ↦ rw e (
        omega (arith, count-of_present id cs e),
        ground (arith, count_key-without (λ c. c) id id cs, str_eq_refl id),
        (λ ne. (refl, ground (arith, count_key-without (λ c. c) id other cs, str_eq_iff id other))),
      )
      | inr e ↦ rw e (
        ground (arith, count-append_one id id cs, count-of_absent id cs e, str_eq_refl id),
        ground (arith, count_key-without (λ c. c) id id cs, str_eq_refl id),
        (λ ne. (
          ground (arith, count-append_one other id cs, str_eq_iff id other),
          ground (arith, count_key-without (λ c. c) id other cs, str_eq_iff id other),
        )),
      )
    ]
