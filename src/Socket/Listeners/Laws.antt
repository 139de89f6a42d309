-- ===== src/Socket/Listeners/Laws.antt =====
-- What subscribing and unsubscribing mean for the events that follow.
use nats_ui.Prelude.{
  ℕ, ◌==◌, String, str_eq, str_eq_iff, str_eq_refl, ◌≡◌, ◌≢◌, refl, sym, ap, Bool, false, not,
  Option, inl, inr, or_else, List, [], ◌∷◌, ◌++◌, map, filter, filter-append, any, All, append-nil,
  All-append_left, All-append_right, lookup, lookup-insert, if◌then◌else◌, arith, Bool-cases,
}
use mathlib.Core.List.{map-append}
use nats_ui.Socket.{Client}
use nats_ui.Socket.Listeners.{set_add, set_delete, listeners_of, on, off, call_each, dispatch}

pub listeners_of-on :
    (kind other : String) (cb : ℕ) (c : Client)
    → listeners_of other (on kind cb c)
      ≡ (if str_eq kind other then set_add cb (listeners_of kind c) else listeners_of other c)
unfolding listeners_of on
listeners_of-on kind other cb c = ground (
  arith,
  lookup-insert kind other (set_add cb (or_else (lookup kind c.listeners) [])) c.listeners,
)

pub listeners_of-off :
    (kind other : String) (cb : ℕ) (c : Client)
    → listeners_of other (off kind cb c)
      ≡ (if str_eq kind other then set_delete cb (listeners_of kind c) else listeners_of other c)
unfolding listeners_of off
listeners_of-off kind other cb c = ground (
  arith,
  lookup-insert kind other (set_delete cb (or_else (lookup kind c.listeners) [])) c.listeners,
)

filter_absent :
    (cb : ℕ) (s : List ℕ) → any (λ x. x == cb) s ≡ false → filter (λ x. not (x == cb)) s ≡ s
filter_absent cb [] new = refl
filter_absent cb (x ∷ s) new = ground (arith, filter_absent cb s)

set_delete-set_add :
    (cb : ℕ) (s : List ℕ) → any (λ x. x == cb) s ≡ false → set_delete cb (set_add cb s) ≡ s
unfolding set_delete set_add
set_delete-set_add cb s new =
    ground
      (arith, filter-append (λ x. not (x == cb)) s (cb ∷ []), filter_absent cb s new, append-nil s)

any-set_delete : (cb : ℕ) (s : List ℕ) → any (λ x. x == cb) (set_delete cb s) ≡ false
unfolding set_delete
any-set_delete cb [] = refl
any-set_delete cb (x ∷ s) = ground (arith, any-set_delete cb s)

-- Unsubscribing takes the callback out of its type's listeners and leaves the other types' alone;
-- where it was not subscribed before, subscribing and unsubscribing changes nobody's listeners.
pub listeners_of-off_on :
    (kind other : String) (cb : ℕ) (c : Client)
    → (any (λ x. x == cb) (listeners_of kind (off kind cb (on kind cb c))) ≡ false)
      × (kind ≢ other → listeners_of other (off kind cb (on kind cb c)) ≡ listeners_of other c)
      × (any (λ x. x == cb) (listeners_of kind c) ≡ false
          → listeners_of other (off kind cb (on kind cb c)) ≡ listeners_of other c)
listeners_of-off_on kind other cb c =
    let now = listeners_of-off kind other cb (on kind cb c) in
    let same = listeners_of-on kind kind cb c in
    let before = listeners_of-on kind other cb c in
    let s : List ℕ = listeners_of kind c in
    (
      rw (listeners_of-off kind kind cb (on kind cb c), str_eq_refl kind)
          (any-set_delete cb (listeners_of kind (on kind cb c))),
      (λ ne. ground (arith, now, before, str_eq_iff kind other)),
      (λ new. elim (Bool-cases (str_eq kind other)) [
        | inl e ↦
            rw (now, e, same, str_eq_refl kind, set_delete-set_add cb s new)
              (ap (λ k. listeners_of k c) ((str_eq_iff kind other).0 e))
        | inr e ↦ rw (now, e, before, e) refl
      ]),
    )

module _ {E : Type 0} (kind : E → String) (parse : String → Option E) (raises : ℕ → E → Bool) where
  call_each-All :
      (e : E) (cbs : List ℕ)
      → All (λ cb. raises cb e ≡ false) cbs
      → call_each kind parse raises e cbs ≡ (map (λ cb. (cb, e)) cbs, false)
  unfolding call_each
  call_each-All e [] h = refl
  call_each-All e (cb ∷ cbs) h = rw (call_each-All e cbs h.1, h.0) refl

  -- Where no callback throws, an event goes to each listener of its type, in the order of their
  -- subscription, and then to each listener of "*".
  pub dispatch-All :
      (c : Client) (e : E)
      → All (λ cb. raises cb e ≡ false) (listeners_of (kind e) c ++ listeners_of "*" c)
      → dispatch kind parse raises c e
        ≡ map (λ cb. (cb, e)) (listeners_of (kind e) c ++ listeners_of "*" c)
  unfolding dispatch
  dispatch-All c e h =
      let mine : List ℕ = listeners_of (kind e) c in
      let wild : List ℕ = listeners_of "*" c in
      rw
        (
          call_each-All e mine (All-append_left _ mine wild h),
          call_each-All e wild (All-append_right _ mine wild h),
        )
        (sym (map-append (λ cb. (cb, e)) mine wild))
