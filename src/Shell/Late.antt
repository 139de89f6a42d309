-- ===== src/Shell/Late.antt =====
-- Answers that come when the mount that asked is gone, and the clusters that an answer lists.
use nats_ui.Prelude.{
  ℕ, ◌<◌, String, str_eq, str_eq_refl, ◌≡◌, refl, ap, ◌∙◌, ◌⊎◌, inl, inr, Bool, true, false, List,
  [], ◌∷◌, any, any-append, length, ltb, All, ◌==◌, Bool-cases, arith,
}
use nats_ui.Store.Ui.{UiState, set_active_cluster}
use nats_ui.Shell.{
  on_ui, set_inner, answered, App, Event, Inner, logged_in, logged_out, listed, list_failed,
  connected, set_each, handle, run,
}

-- An answer to a mount before the current one.
abbrev pub IsLate : ℕ → Event → Type 0
IsLate mount (logged_in token) = ⊥
IsLate mount logged_out = ⊥
IsLate mount (listed n ids) = n < mount
IsLate mount (list_failed n) = n < mount
IsLate mount (connected n id) = n < mount

abbrev pub is_listed : String → UiState → Bool
is_listed id s = any (λ c. str_eq c id) s.active_clusters

-- What connecting clusters leaves alone.
pub set_each-is_authenticated :
    (ids : List String) (s : UiState) → (set_each ids s).is_authenticated ≡ s.is_authenticated
unfolding set_each set_active_cluster
set_each-is_authenticated [] s = refl
set_each-is_authenticated (id ∷ ids) s = set_each-is_authenticated ids (set_active_cluster id s)

late_mount : (m n : ℕ) → n < m → (m == n) ≡ false
late_mount m n h = ground arith

-- An application where nothing waits for an answer to a mount before `m`.
unfoldable pub IsDeaf : ℕ → App → Type 0
IsDeaf m a = (a.page.ui.is_authenticated ≡ false) ⊎ (a.inner.mount ≡ m)

pub set_inner-late :
    (m n : ℕ) (f : Inner → Inner) (a : App) → IsDeaf m a → n < m → set_inner n f a ≡ a
unfolding IsDeaf
set_inner-late m n f a (inl e) h = rw e refl
set_inner-late m n f a (inr e) h =
    rw (e, late_mount m n h)
      (elim (Bool-cases a.page.ui.is_authenticated) [ inl e ↦ rw e refl | inr e ↦ rw e refl ])

-- The mount that is asked of, and whether somebody is logged in, with what the screen depends on.
pub record SameSession (a b : App) : Type 0 where
  pub inner : a.inner ≡ b.inner
  pub logged_in : a.page.ui.is_authenticated ≡ b.page.ui.is_authenticated

pub same-IsDeaf : (m : ℕ) (a b : App) → SameSession a b → IsDeaf m b → IsDeaf m a
unfolding IsDeaf
same-IsDeaf m a b h (inl e) = inl (h.logged_in ∙ e)
same-IsDeaf m a b h (inr e) = inr (ap (λ i. i.mount) h.inner ∙ e)

pub listing-same :
    (ids : List String) (a : App) → SameSession (record a { page = on_ui (set_each ids) a.page }) a
listing-same ids a = record { inner = refl; logged_in = set_each-is_authenticated ids a.page.ui }

late-same :
    (m n : ℕ) (f : Inner → Inner) (a b : App)
    → SameSession b a
    → IsDeaf m a
    → n < m
    → SameSession (set_inner n f b) a
late-same m n f a b same deaf h = rw (set_inner-late m n f b (same-IsDeaf m b a same deaf) h) same

pub handle-late :
    (m : ℕ) (e : Event) (a : App) → IsDeaf m a → IsLate m e → SameSession (handle e a) a
unfolding handle set_each
handle-late m (logged_in token) a deaf h = elim h [ ]
handle-late m logged_out a deaf h = elim h [ ]
handle-late m (listed n ids) a deaf h =
    late-same m n (answered (ltb 0 (length ids))) a
      (record a { page = on_ui (set_each ids) a.page }) (listing-same ids a) deaf h
handle-late m (list_failed n) a deaf h =
    late-same m n (answered false) a a (listing-same [] a) deaf h
handle-late m (connected n id) a deaf h =
    late-same m n (λ i. record i { has_connections = true }) a
      (record a { page = on_ui (set_each (id ∷ [])) a.page }) (listing-same (id ∷ []) a) deaf h

pub run-late :
    (m : ℕ) (es : List Event) (a : App) → IsDeaf m a → All (IsLate m) es → SameSession (run es a) a
unfolding run
run-late m [] a deaf h = record { inner = refl; logged_in = refl }
run-late m (e ∷ es) a deaf h =
    let first = handle-late m e a deaf h.0 in
    let rest = run-late m es (handle e a) (same-IsDeaf m (handle e a) a first deaf) h.1 in
    record { inner = rest.inner ∙ first.inner; logged_in = rest.logged_in ∙ first.logged_in }

-- Connecting clusters keeps those that are listed and lists the new ones.
set_active-kept :
    (id other : String) (s : UiState)
    → is_listed other s ≡ true
    → is_listed other (set_active_cluster id s) ≡ true
unfolding set_active_cluster
set_active-kept id other s h = elim (Bool-cases (any (λ c. str_eq c id) s.active_clusters)) [
  | inl e ↦ rw e h
  | inr e ↦ rw (e, any-append (λ c. str_eq c other) s.active_clusters (id ∷ []), h) refl
]

set_active-listed : (id : String) (s : UiState) → is_listed id (set_active_cluster id s) ≡ true
unfolding set_active_cluster
set_active-listed id s = elim (Bool-cases (any (λ c. str_eq c id) s.active_clusters)) [
  | inl e ↦ rw e e
  | inr e ↦
      rw (e, any-append (λ c. str_eq c id) s.active_clusters (id ∷ []), e, str_eq_refl id) refl
]

set_each-kept :
    (ids : List String) (other : String) (s : UiState)
    → is_listed other s ≡ true
    → is_listed other (set_each ids s) ≡ true
unfolding set_each
set_each-kept [] other s h = h
set_each-kept (id ∷ ids) other s h =
    set_each-kept ids other (set_active_cluster id s) (set_active-kept id other s h)

pub set_each-listed :
    (ids : List String) (s : UiState) → All (λ id. is_listed id (set_each ids s) ≡ true) ids
unfolding set_each
set_each-listed [] s = tt
set_each-listed (id ∷ ids) s = (
  set_each-kept ids id (set_active_cluster id s) (set_active-listed id s),
  set_each-listed ids (set_active_cluster id s),
)
