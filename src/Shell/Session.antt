-- ===== src/Shell/Session.antt =====
-- Sessions: what a login and a logout lead to.
use nats_ui.Prelude.{
  ℕ, ◌+◌, ◌<◌, String, ◌≡◌, refl, ap, ◌∙◌, inl, inr, true, false, List, [], ◌∷◌, length, ltb, All,
  ==_iff, lt→ltb, suc, arith,
}
use nats_ui.Store.Ui.{set_auth, clear_auth}
use nats_ui.Shell.{
  on_ui, set_inner, answered, mounted, App, Event, Inner, Screen, login_page, loading_screen,
  connection_setup, app_shell, logged_in, logged_out, listed, list_failed, set_each, handle, run,
  screen,
}
use nats_ui.Shell.Late.{
  is_listed, IsLate, set_each-is_authenticated, IsDeaf, set_inner-late, listing-same, same-IsDeaf,
  handle-late, run-late, set_each-listed,
}

-- The screen that the answer `ids` leads to.
abbrev pub screen_for : List String → Screen
screen_for [] = connection_setup
screen_for (id ∷ ids) = app_shell

-- A mount that still waits for its answer.
record IsWaiting (n : ℕ) (a : App) : Type 0 where
  inner : a.inner ≡ mounted n
  logged_in : a.page.ui.is_authenticated ≡ true

set_inner-current :
    (n : ℕ) (f : Inner → Inner) (a : App)
    → a.inner.mount ≡ n
    → a.page.ui.is_authenticated ≡ true
    → set_inner n f a ≡ record a { inner = f a.inner }
set_inner-current n f a m e = rw (e, (==_iff a.inner.mount n).1 m) refl

waiting-listed :
    (n : ℕ) (a : App) (ids : List String)
    → IsWaiting n a
    → handle (listed n ids) a
      ≡ record { page = on_ui (set_each ids) a.page; inner = answered (ltb 0 (length ids)) a.inner }
unfolding handle
waiting-listed n a ids h =
    set_inner-current n (answered (ltb 0 (length ids)))
      (record a { page = on_ui (set_each ids) a.page }) (ap (λ i. i.mount) h.inner)
      (set_each-is_authenticated ids a.page.ui ∙ h.logged_in)

waiting-screen : (n : ℕ) (a : App) → IsWaiting n a → screen a ≡ loading_screen
unfolding screen
waiting-screen n a h = rw (h.inner, h.logged_in) refl

waiting-failed :
    (n : ℕ) (a : App) → IsWaiting n a → screen (handle (list_failed n) a) ≡ connection_setup
unfolding handle screen
waiting-failed n a h =
    rw (set_inner-current n (answered false) a (ap (λ i. i.mount) h.inner) h.logged_in, h.logged_in)
      refl

waiting-listed_screen :
    (n : ℕ) (a : App) (ids : List String)
    → IsWaiting n a
    → screen (handle (listed n ids) a) ≡ screen_for ids
unfolding screen
waiting-listed_screen n a [] h =
    rw (waiting-listed n a [] h, set_each-is_authenticated [] a.page.ui, h.logged_in) refl
waiting-listed_screen n a (id ∷ ids) h =
    rw
      (
        waiting-listed n a (id ∷ ids) h,
        set_each-is_authenticated (id ∷ ids) a.page.ui,
        h.logged_in,
        lt→ltb 0 (suc (length ids)) (omega arith),
      )
      refl

logged_in-IsWaiting :
    (token : String) (a : App) (late : List Event)
    → a.page.ui.is_authenticated ≡ false
    → All (IsLate (a.inner.mount + 1)) late
    → IsWaiting (a.inner.mount + 1) (run late (handle (logged_in token) a))
unfolding handle set_auth IsDeaf
logged_in-IsWaiting token a late out h =
    let start : (handle (logged_in token) a).inner ≡ mounted (a.inner.mount + 1) = rw out refl in
    let same =
      run-late (a.inner.mount + 1) late (handle (logged_in token) a) (inr (ap (λ i. i.mount) start))
        h in
    record { inner = same.inner ∙ start; logged_in = same.logged_in }

-- After a login, answers to earlier mounts leave the screen at loading. The answer of the new mount
-- shows the setup screen where there is no connection, and else the shell, with every connection
-- among the active clusters; if asking fails, the setup screen is shown.
pub logged_in-screen :
    (token : String) (a : App) (late : List Event) (ids : List String)
    → a.page.ui.is_authenticated ≡ false
    → All (IsLate (a.inner.mount + 1)) late
    → let n = a.inner.mount + 1 in
      let b = run late (handle (logged_in token) a) in
      (screen b ≡ loading_screen)
      × (screen (handle (listed n ids) b) ≡ screen_for ids)
      × All (λ id. is_listed id (handle (listed n ids) b).page.ui ≡ true) ids
      × (screen (handle (list_failed n) b) ≡ connection_setup)
logged_in-screen token a late ids out h =
    let n = a.inner.mount + 1 in
    let b = run late (handle (logged_in token) a) in
    let waiting = logged_in-IsWaiting token a late out h in
    (
      waiting-screen n b waiting,
      waiting-listed_screen n b ids waiting,
      rw (waiting-listed n b ids waiting) (set_each-listed ids b.page.ui),
      waiting-failed n b waiting,
    )

out-screen : (a : App) → a.page.ui.is_authenticated ≡ false → screen a ≡ login_page
unfolding screen
out-screen a e = rw e refl

listed-of_late :
    (m n : ℕ) (a : App) (ids : List String)
    → IsDeaf m a
    → n < m
    → All (λ id. is_listed id (handle (listed n ids) a).page.ui ≡ true) ids
unfolding handle
listed-of_late m n a ids deaf h =
    let b : App = record a { page = on_ui (set_each ids) a.page } in
    rw
      (set_inner-late m n (answered (ltb 0 (length ids))) b
        (same-IsDeaf m b a (listing-same ids a) deaf) h)
      (set_each-listed ids a.page.ui)

-- After a logout the login is shown, whatever answers to the mounts before it still come. An answer
-- that lists connections after the logout fills the active clusters again.
pub logged_out-late :
    (a : App) (late : List Event) (n : ℕ) (ids : List String)
    → All (IsLate (a.inner.mount + 1)) late
    → n < a.inner.mount + 1
    → let b = run late (handle logged_out a) in
      (screen b ≡ login_page)
      × (screen (handle (listed n ids) b) ≡ login_page)
      × All (λ id. is_listed id (handle (listed n ids) b).page.ui ≡ true) ids
unfolding handle clear_auth IsDeaf
logged_out-late a late n ids h k =
    let m = a.inner.mount + 1 in
    let b = run late (handle logged_out a) in
    let deaf : b.page.ui.is_authenticated ≡ false =
      (run-late m late (handle logged_out a) (inl refl) h).logged_in in
    let same = handle-late m (listed n ids) b (inl deaf) k in
    (
      out-screen b deaf,
      out-screen (handle (listed n ids) b) (same.logged_in ∙ deaf),
      listed-of_late m n b ids (inl deaf) k,
    )
