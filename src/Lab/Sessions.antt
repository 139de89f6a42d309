-- ===== src/Lab/Sessions.antt =====
-- Which session the messages that are shown belong to.
use nats_ui.Prelude.{
  ℕ, ◌≤◌, false, String, str_eq, ◌≡◌, refl, not, some, List, [], ◌∷◌, All, All-filter, Bool-cases,
  inl, inr, ◌||◌, arith,
}
use nats_ui.Widgets.{IsWithin, stepped-IsWithin}
use nats_ui.Lab.{
  fetch, DebugMessage, Lab, Event, Action, fetched, act, choose_consumer, choose_stream, fewer,
  more, do_fetch, fetch_failed, acted, act_failed, answer, batch_stepper, initial_lab, handle, run,
}

module _ (Owns : String → DebugMessage → Type 0) where
  -- Every answer has messages of its own session.
  abbrev pub IsOwned : Event → Type 0
  IsOwned (fetched session ms) = All (Owns session) ms
  IsOwned _ = Unit

  -- The messages that are shown are those of the session, and the size of the batch is one that the
  -- stepper allows.
  pub record IsCoherent (s : Lab) : Type 0 where
    pub owned : All (Owns s.session_id) s.messages
    pub batch : IsWithin batch_stepper s.batch

  do_fetch-IsCoherent : (s : Lab) → IsCoherent s → IsCoherent (handle do_fetch s).0
  unfolding handle
  do_fetch-IsCoherent s h = elim (Bool-cases (str_eq s.stream "" || str_eq s.consumer "")) [
    | inl e ↦ rw e (record { owned = h.owned; batch = h.batch })
    | inr e ↦ rw e (record { owned = h.owned; batch = h.batch })
  ]

  handle-IsCoherent : (e : Event) (s : Lab) → IsOwned e → IsCoherent s → IsCoherent (handle e s).0
  unfolding handle
  handle-IsCoherent (choose_stream v) s o h = record { owned = tt; batch = h.batch }
  handle-IsCoherent (choose_consumer v) s o h = record { owned = tt; batch = h.batch }
  handle-IsCoherent fewer s o h = record {
    owned = h.owned;
    batch = (stepped-IsWithin batch_stepper s.batch (omega arith) h.batch).0;
  }
  handle-IsCoherent more s o h = record {
    owned = h.owned;
    batch = (stepped-IsWithin batch_stepper s.batch (omega arith) h.batch).1;
  }
  handle-IsCoherent do_fetch s o h = do_fetch-IsCoherent s h
  handle-IsCoherent (fetched session ms) s o h = record { owned = o; batch = h.batch }
  handle-IsCoherent (fetch_failed message) s o h = record { owned = h.owned; batch = h.batch }
  handle-IsCoherent (act id action) s o h = record { owned = h.owned; batch = h.batch }
  handle-IsCoherent (acted id) s o h = record {
    owned = All-filter (Owns s.session_id) (λ m. not (str_eq m.id id)) s.messages h.owned;
    batch = h.batch;
  }
  handle-IsCoherent (act_failed message) s o h = record { owned = h.owned; batch = h.batch }

  run-IsCoherent :
      (es : List Event) (s : Lab) → All IsOwned es → IsCoherent s → IsCoherent (run es s)
  unfolding run
  run-IsCoherent [] s o h = h
  run-IsCoherent (e ∷ es) s o h = run-IsCoherent es (handle e s).0 o.1 (handle-IsCoherent e s o.0 h)

  initial-IsCoherent : IsCoherent initial_lab
  unfolding initial_lab
  initial-IsCoherent = record {
    owned = tt;
    batch = record { above = omega arith; below = omega arith };
  }

  -- After any events in which every answer has messages of its own session, all messages shown are of
  -- the current session, an answer to any message goes to this session, and where a stream and a
  -- consumer are chosen, a fetch asks for 1 to 50 messages of them.
  pub run-owned :
      (es : List Event)
      → All IsOwned es
      → let s = run es initial_lab in
        All (Owns s.session_id) s.messages
        × ((id : String) (a : Action) → (handle (act id a) s).1 ≡ some (answer s.session_id id a))
        × (str_eq s.stream "" ≡ false
            → str_eq s.consumer "" ≡ false
            → (n : ℕ) × ((handle do_fetch s).1 ≡ some (fetch s.stream s.consumer n))
              × (1 ≤ n)
              × (n ≤ 50))
  unfolding handle
  run-owned es o =
      let s = run es initial_lab in
      let valid = run-IsCoherent es initial_lab o initial-IsCoherent in
      (
        valid.owned,
        λ id a. refl,
        λ stream consumer.
            (s.batch, rw (stream, consumer) refl, valid.batch.above, valid.batch.below),
      )

-- An answer that comes after another consumer was chosen is shown under that consumer.
pub fetched-choose_consumer :
    (s : Lab) (consumer session : String) (ms : List DebugMessage)
    → let later = (handle (fetched session ms) (handle (choose_consumer consumer) s).0).0 in
      (later.messages ≡ ms) × (later.consumer ≡ consumer)
unfolding handle
fetched-choose_consumer s consumer session ms = (refl, refl)
