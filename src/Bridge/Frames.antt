-- ===== src/Bridge/Frames.antt =====
-- From the messages that come in between two animation frames to the tails that the views show.
use nats_ui.Prelude.{
  ℕ, ◌≤◌, String, str_eq, str_eq_refl, ◌≡◌, refl, sym, ◌∙◌, ap, none, inl, inr, List, [], ◌∷◌, ◌++◌,
  append-nil, append_assoc, length, last_n, last_n_short, last_n-append_left, length-last_n, arith,
  Bool-cases,
}
use mathlib.Core.Path.{ap₂}
use nats_ui.Types.Messages.{TailedMessage}
use nats_ui.Store.Data.{max_tail_messages}
use nats_ui.Store.Data.Buffers.{tail_of}
use nats_ui.Bridge.{App, max_buffer_per_key, enqueue_message, flush_pending_messages}
use nats_ui.Bridge.Buffer.{
  waiting, HasDistinctKeys, waiting-enqueue, enqueue-parts, enqueue-HasDistinctKeys,
  tail_of-flush_each, waiting-drained, drained-HasDistinctKeys, enqueue_all,
}

-- The buffer as the handlers keep it: bounded, each key once, and with a frame requested where
-- anything waits.
pub record IsScheduled (a : App) : Type 0 where
  pub distinct : HasDistinctKeys a.pending
  pub bounded : (key : String) → length (waiting key a.pending) ≤ max_buffer_per_key
  pub scheduled : (key : String) → a.raf_handle ≡ none → waiting key a.pending ≡ []

pub enqueue-IsScheduled :
    (raf : ℕ) (key : String) (m : TailedMessage) (a : App)
    → IsScheduled a
    → IsScheduled (enqueue_message raf key m a)
enqueue-IsScheduled raf key m a v = record {
  distinct = enqueue-HasDistinctKeys raf key m a v.distinct;
  bounded = λ other.
      rw (waiting-enqueue raf key other m a (v.bounded key)) (elim (Bool-cases (str_eq key other)) [
        | inl e ↦
            rw e (omega (arith, length-last_n max_buffer_per_key (waiting key a.pending ++ m ∷ [])))
        | inr e ↦ rw e (v.bounded other)
      ]);
  scheduled = λ other e. absurd ((enqueue-parts raf key m a).1 e);
}

pub flush-IsScheduled : (a : App) → IsScheduled a → IsScheduled (flush_pending_messages a)
unfolding flush_pending_messages
flush-IsScheduled a v = record {
  distinct = drained-HasDistinctKeys a.pending v.distinct;
  bounded = λ key. rw (waiting-drained key a.pending) (omega arith);
  scheduled = λ key e. waiting-drained key a.pending;
}

waiting-enqueue_all :
    (raf : ℕ) (key : String) (ms : List TailedMessage) (a : App)
    → IsScheduled a
    → (waiting key (enqueue_all raf key ms a).pending
        ≡ last_n max_buffer_per_key (waiting key a.pending ++ ms))
      × ((enqueue_all raf key ms a).store ≡ a.store)
      × IsScheduled (enqueue_all raf key ms a)
waiting-enqueue_all raf key [] a v = (
  sym (
      ap (last_n max_buffer_per_key) (append-nil (waiting key a.pending))
      ∙ last_n_short max_buffer_per_key (waiting key a.pending) (v.bounded key)),
  refl,
  v,
)
waiting-enqueue_all raf key (m ∷ ms) a v =
    let n : ℕ = max_buffer_per_key in
    let a' : App = enqueue_message raf key m a in
    let now : waiting key a'.pending ≡ last_n n (waiting key a.pending ++ m ∷ []) =
      rw (waiting-enqueue raf key key m a (v.bounded key), str_eq_refl key) refl in
    let (queue, store, valid) =
      waiting-enqueue_all raf key ms a' (enqueue-IsScheduled raf key m a v) in
    (
      queue
          ∙ ap (λ q. last_n n (q ++ ms)) now
          ∙ last_n-append_left n (waiting key a.pending ++ m ∷ []) ms
          ∙ ap (last_n n) (append_assoc (waiting key a.pending) (m ∷ []) ms),
      store ∙ (enqueue-parts raf key m a).0,
      valid,
    )

-- From a buffer as the handlers keep it and a tail within its limit, the frame after any number of
-- messages for one key: its tail holds the newest 10000 of what was
-- shown followed by the newest 2000 of what came since the last frame, in order; nothing waits any
-- more, and the next message requests a frame again.
pub tail_of-frame :
    (raf : ℕ) (key : String) (ms : List TailedMessage) (a : App)
    → IsScheduled a
    → length (tail_of key a.store) ≤ max_tail_messages
    → (tail_of key (flush_pending_messages (enqueue_all raf key ms a)).store
        ≡ last_n max_tail_messages
            (tail_of key a.store ++ last_n max_buffer_per_key (waiting key a.pending ++ ms)))
      × (waiting key (flush_pending_messages (enqueue_all raf key ms a)).pending ≡ [])
      × IsScheduled (flush_pending_messages (enqueue_all raf key ms a))
unfolding flush_pending_messages
tail_of-frame raf key ms a v l =
    let a' : App = enqueue_all raf key ms a in
    let (queue, store, valid) = waiting-enqueue_all raf key ms a v in
    let short : length (tail_of key a'.store) ≤ max_tail_messages = rw store l in
    (
      tail_of-flush_each key a'.pending a'.store valid.distinct short
          ∙ ap₂ (λ s q. last_n max_tail_messages (tail_of key s ++ q)) store queue,
      waiting-drained key a'.pending,
      flush-IsScheduled a' valid,
    )
