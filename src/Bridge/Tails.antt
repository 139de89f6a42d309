-- ===== src/Bridge/Tails.antt =====
-- Runs of the application: events, frames, and what the user does with a tail.
use nats_ui.Prelude.{
  ℕ, ◌+◌, ◌≤◌, String, str_eq, str_eq_iff, str_eq_refl, ◌≡◌, ◌≢◌, refl, sym, ◌∙◌, ap, Bool, some,
  inl, inr, or_else, [], ◌∷◌, length, last?, last_n, last?-last_n, last?-append_one, ◌++◌, erase,
  lookup-insert_self, lookup-insert_ne, if◌then◌else◌, arith, Bool-cases,
}
use nats_ui.Types.Messages.{TailedMessage}
use nats_ui.Store.Data.{clear_tail}
use nats_ui.Store.Data.Buffers.{tail_of}
use nats_ui.Bridge.{
  App, Event, message_received, topology, handle, receive, flush_pending_messages, check_connection,
  tail_key, message_id, stream_key, subject_key, tail_start, tail_stop, tail_clear, subject_start,
  subject_stop, subject_clear, max_buffer_per_key,
}
use nats_ui.Bridge.Buffer.{
  waiting, tail_of-flush_each, erase-HasDistinctKeys, waiting-erase, waiting-enqueue,
}
use nats_ui.Bridge.Keys.{message_id_inj}
use nats_ui.Bridge.Frames.{IsScheduled, enqueue-IsScheduled, flush-IsScheduled}

-- What has the same buffer and the same request for a frame is as well scheduled.
same-IsScheduled :
    {a b : App}
    → b.pending ≡ a.pending
    → b.raf_handle ≡ a.raf_handle
    → IsScheduled a
    → IsScheduled b
same-IsScheduled {a} {b} p r v = record {
  distinct = rw p v.distinct;
  bounded = λ key. rw p (v.bounded key);
  scheduled = λ key e. rw p (v.scheduled key (sym r ∙ e));
}

-- A run while the bridge is mounted: events, frames, the connection check, and the user's tails.
pub data Step : App → App → Type 0 where
  event : (raf : ℕ) (e : Event) (a : App) → Step a (handle raf e a)
  frame : (a : App) → Step a (flush_pending_messages a)
  check : (b : Bool) (a : App) → Step a (check_connection b a)
  starts : (c s : String) (a : App) → Step a (tail_start c s a).0
  stops : (c s : String) (a : App) → Step a (tail_stop c s a).0
  clears : (c s : String) (a : App) → Step a (tail_clear c s a)
  subject_starts : (c s : String) (a : App) → Step a (subject_start c s a).0
  subject_stops : (c s : String) (a : App) → Step a (subject_stop c s a).0
  subject_clears : (c s : String) (a : App) → Step a (subject_clear c s a)

pub data Reach (a : App) : App → Type 0 where
  here : Reach a a
  next : {b c : App} → Reach a b → Step b c → Reach a c

receive-IsScheduled :
    (raf : ℕ) (m : TailedMessage) (a : App) → IsScheduled a → IsScheduled (receive raf m a)
unfolding receive
receive-IsScheduled raf m a v =
    enqueue-IsScheduled raf (tail_key m.cluster_id m.stream m.subject_filter) _ _
      (same-IsScheduled refl refl v)

handle-IsScheduled : (raf : ℕ) (e : Event) (a : App) → IsScheduled a → IsScheduled (handle raf e a)
unfolding handle
handle-IsScheduled raf (message_received m) a v = receive-IsScheduled raf m a v
handle-IsScheduled raf (topology c) a v = elim (Bool-cases (str_eq c.id "")) [
  | inl e ↦ rw e (same-IsScheduled refl refl v)
  | inr e ↦ rw e (same-IsScheduled refl refl v)
]
handle-IsScheduled raf e a v = same-IsScheduled refl refl v

clearing-IsScheduled :
    (key : String) (a b : App)
    → b.pending ≡ erase key a.pending
    → b.raf_handle ≡ a.raf_handle
    → IsScheduled a
    → IsScheduled b
clearing-IsScheduled key a b p r v = record {
  distinct = rw p (erase-HasDistinctKeys key a.pending v.distinct);
  bounded = λ other.
      rw (p, waiting-erase key other a.pending)
        (elim (Bool-cases (str_eq key other)) [
          | inl e ↦ rw e (omega arith)
          | inr e ↦ rw e (v.bounded other)
        ]);
  scheduled = λ other e.
      rw (p, waiting-erase key other a.pending)
        (elim (Bool-cases (str_eq key other)) [
          | inl k ↦ rw k refl
          | inr k ↦ rw k (v.scheduled other (sym r ∙ e))
        ]);
}

start-parts :
    (c s : String) (a : App)
    → ((tail_start c s a).0.pending ≡ a.pending)
      × ((tail_start c s a).0.raf_handle ≡ a.raf_handle)
      × ((tail_stop c s a).0.pending ≡ a.pending)
      × ((tail_stop c s a).0.raf_handle ≡ a.raf_handle)
unfolding tail_start tail_stop
start-parts c s a = ground arith

subject-parts :
    (c s : String) (a : App)
    → ((subject_start c s a).0.pending ≡ a.pending)
      × ((subject_start c s a).0.raf_handle ≡ a.raf_handle)
      × ((subject_stop c s a).0.pending ≡ a.pending)
      × ((subject_stop c s a).0.raf_handle ≡ a.raf_handle)
unfolding subject_start subject_stop
subject-parts c s a = ground arith

Step-IsScheduled : {a b : App} → Step a b → IsScheduled a → IsScheduled b
unfolding check_connection tail_clear subject_clear
Step-IsScheduled (event raf e a) v = handle-IsScheduled raf e a v
Step-IsScheduled (frame a) v = flush-IsScheduled a v
Step-IsScheduled (check b a) v = same-IsScheduled refl refl v
Step-IsScheduled (starts c s a) v = same-IsScheduled (start-parts c s a).0 (start-parts c s a).1 v
Step-IsScheduled (stops c s a) v = same-IsScheduled (start-parts c s a).2 (start-parts c s a).3 v
Step-IsScheduled (clears c s a) v = clearing-IsScheduled (stream_key c s) a _ refl refl v
Step-IsScheduled (subject_starts c s a) v =
    same-IsScheduled (subject-parts c s a).0 (subject-parts c s a).1 v
Step-IsScheduled (subject_stops c s a) v =
    same-IsScheduled (subject-parts c s a).2 (subject-parts c s a).3 v
Step-IsScheduled (subject_clears c s a) v = clearing-IsScheduled (subject_key c s) a _ refl refl v

-- From a state in which this holds, while the bridge is mounted, whatever events, frames and user actions come, every queue of the
-- buffer holds at most 2000 messages, and a frame is requested whenever one is not empty.
pub Reach-IsScheduled : {a b : App} → IsScheduled a → Reach a b → IsScheduled b
Reach-IsScheduled v here = v
Reach-IsScheduled v (next r st) = Step-IsScheduled st (Reach-IsScheduled v r)

-- Clearing the tail of a stream empties what is shown and what waits for it, so that the next frame
-- shows nothing of it; the tails of other keys, shown and waiting, stay.
pub tail_clear-then_frame :
    (c s other : String) (a : App)
    → IsScheduled a
    → (tail_of (stream_key c s) (flush_pending_messages (tail_clear c s a)).store ≡ [])
      × (stream_key c s ≢ other
          → (tail_of other (tail_clear c s a).store ≡ tail_of other a.store)
            × (waiting other (tail_clear c s a).pending ≡ waiting other a.pending))
unfolding tail_clear clear_tail flush_pending_messages
tail_clear-then_frame c s other a v =
    let key : String = stream_key c s in
    let b : App = tail_clear c s a in
    let shown : tail_of key b.store ≡ [] =
      ap (λ o. or_else o []) (lookup-insert_self key [] a.store.tail_messages) in
    let none_waits : waiting key b.pending ≡ [] =
      waiting-erase key key a.pending
      ∙ ap (λ t. if t then [] else waiting key a.pending) (str_eq_refl key) in
    (
      tail_of-flush_each key b.pending b.store (erase-HasDistinctKeys key a.pending v.distinct)
            (rw shown (omega arith))
          ∙ rw (shown, none_waits) refl,
      (λ ne. (
        ap (λ o. or_else o []) (lookup-insert_ne key other [] a.store.tail_messages ne),
        waiting-erase key other a.pending ∙ ground (arith, str_eq_iff key other),
      )),
    )

-- The key of a message's tail.
abbrev pub key_of : TailedMessage → String
key_of m = tail_key m.cluster_id m.stream m.subject_filter

receive-counter :
    (raf : ℕ) (m : TailedMessage) (a : App) → (receive raf m a).id_counter ≡ a.id_counter + 1
unfolding receive
receive-counter raf m a = ground arith

receive-pending :
    (raf : ℕ) (m : TailedMessage) (a : App)
    → length (waiting (key_of m) a.pending) ≤ max_buffer_per_key
    → waiting (key_of m) (receive raf m a).pending
      ≡ last_n max_buffer_per_key (
          waiting (key_of m) a.pending
          ++ record m { id = some (message_id (a.id_counter + 1)) } ∷ [])
unfolding receive
receive-pending raf m a h =
    let m' : TailedMessage = record m { id = some (message_id (a.id_counter + 1)) } in
    let a' : App = record a { id_counter = a.id_counter + 1 } in
    waiting-enqueue raf (key_of m) (key_of m) m' a' h
    ∙ ap
        (λ t.
          if t
          then last_n max_buffer_per_key (waiting (key_of m) a.pending ++ m' ∷ [])
          else waiting (key_of m) a.pending)
        (str_eq_refl (key_of m))

-- A received message waits at the end of its key's queue, with the identifier of the counter's new
-- value, which no smaller number gives.
pub receive-fresh :
    (raf n : ℕ) (m : TailedMessage) (a : App)
    → IsScheduled a
    → n ≤ a.id_counter
    → (last? (waiting (key_of m) (receive raf m a).pending)
        ≡ some (record m { id = some (message_id (receive raf m a).id_counter) }))
      × (message_id n ≢ message_id (receive raf m a).id_counter)
receive-fresh raf n m a v h =
    let new : ℕ = a.id_counter + 1 in
    let m' : TailedMessage = record m { id = some (message_id new) } in
    rw (receive-counter raf m a) (
      ap last? (receive-pending raf m a (v.bounded (key_of m)))
          ∙ last?-last_n max_buffer_per_key (waiting (key_of m) a.pending ++ m' ∷ []) (omega arith)
          ∙ last?-append_one (waiting (key_of m) a.pending) m',
      λ e. absurd (omega (arith, message_id_inj n new e)),
    )
