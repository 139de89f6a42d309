-- ===== src/Store/Data/Buffers.antt =====
-- The bounded lists of `useDataStore`: tailed messages and throughput points.
use nats_ui.Prelude.{
  ℕ, ◌≤◌, ◌<◌, String, ◌≡◌, ◌≢◌, refl, ◌∙◌, sym, ap, List, [], ◌∷◌, ◌++◌, append-nil, append_assoc,
  length, last_n, last_n_short, last_n-append_left, length-last_n, drop-eq-last_n, slice_end,
  slice_end_pos, lookup, insert, lookup-insert_self, insert-insert, lookup-insert_ne, or_else, ltb,
  arith, Bool-cases, inl, inr,
}
use nats_ui.Types.Messages.{TailedMessage, ThroughputPoint}
use nats_ui.Store.Data.{
  DataState, push_throughput, splice_over, push_tail_message, batch_push_tail_messages,
}

-- What the tail view of `key` shows, oldest first.
abbrev pub tail_of : String → DataState → List TailedMessage
tail_of key s = or_else (lookup key s.tail_messages) []

pub splice_over-eq-last_n {ℓ} : {A : Type ℓ} (n : ℕ) (xs : List A) → splice_over n xs ≡ last_n n xs
splice_over-eq-last_n n xs = elim (Bool-cases (ltb n (length xs))) [
  | inl e ↦ rw e (drop-eq-last_n n xs)
  | inr e ↦ rw e (sym (last_n_short n xs (ground arith)))
]

pub tail_of-push :
    (n : ℕ) (key : String) (m : TailedMessage) (s : DataState)
    → tail_of key (push_tail_message n key m s) ≡ last_n n (tail_of key s ++ m ∷ [])
unfolding push_tail_message
tail_of-push n key m s =
    rw (splice_over-eq-last_n n (tail_of key s ++ m ∷ []), lookup-insert_self) refl

-- The state with `next` as the tail of `key`.
abbrev pub put_tail : String → List TailedMessage → DataState → DataState
put_tail key next s = record s { tail_messages = insert key next s.tail_messages }

pub push-eq-put :
    (n : ℕ) (key : String) (m : TailedMessage) (s : DataState)
    → push_tail_message n key m s ≡ put_tail key (last_n n (tail_of key s ++ m ∷ [])) s
unfolding push_tail_message
push-eq-put n key m s =
    ap (λ next. put_tail key next s) (splice_over-eq-last_n n (tail_of key s ++ m ∷ []))

-- One call of `pushTailMessage` for each message.
abbrev pub push_each : ℕ → String → List TailedMessage → DataState → DataState
push_each n key [] s = s
push_each n key (m ∷ ms) s = push_each n key ms (push_tail_message n key m s)

push-put :
    (n : ℕ) (key : String) (v : List TailedMessage) (m : TailedMessage) (s : DataState)
    → push_tail_message n key m (put_tail key v s) ≡ put_tail key (last_n n (v ++ m ∷ [])) s
push-put n key v m s =
    push-eq-put n key m (put_tail key v s) ∙ simp (lookup-insert_self, insert-insert) refl

push_each-put :
    (n : ℕ) (key : String) (v ms : List TailedMessage) (s : DataState)
    → length v ≤ n
    → push_each n key ms (put_tail key v s) ≡ put_tail key (last_n n (v ++ ms)) s
push_each-put n key v [] s h =
    ap (λ next. put_tail key next s) (sym (rw append-nil (last_n_short n v h)))
push_each-put n key v (m ∷ ms) s h =
    let next : List TailedMessage = last_n n (v ++ m ∷ []) in
    ap (push_each n key ms) (push-put n key v m s)
    ∙ push_each-put n key next ms s (omega (arith, length-last_n n (v ++ m ∷ [])))
    ∙ ap (λ l. put_tail key l s)
        (last_n-append_left n (v ++ m ∷ []) ms ∙ ap (last_n n) (append_assoc v (m ∷ []) ms))

batch-put :
    (n : ℕ) (key : String) (m : TailedMessage) (ms : List TailedMessage) (s : DataState)
    → 0 < n
    → batch_push_tail_messages n key (m ∷ ms) s
      ≡ put_tail key (last_n n (tail_of key s ++ m ∷ ms)) s
unfolding batch_push_tail_messages
batch-put n key m ms s pos =
    let combined : List TailedMessage = tail_of key s ++ m ∷ ms in
    ap (λ l. put_tail key l s)
      (elim (Bool-cases (ltb n (length combined))) [
        | inl e ↦ rw e (slice_end_pos n combined pos)
        | inr e ↦ rw e (sym (last_n_short n combined (ground arith)))
      ])

-- With a positive limit, which every list of the store has, a batch does exactly what one
-- `pushTailMessage` for each of its messages does.
pub batch-eq-push_each :
    (n : ℕ) (key : String) (ms : List TailedMessage) (s : DataState)
    → 0 < n
    → batch_push_tail_messages n key ms s ≡ push_each n key ms s
batch-eq-push_each n key [] s pos = unfold batch_push_tail_messages in refl
batch-eq-push_each n key (m ∷ ms) s pos =
    let one : List TailedMessage = last_n n (tail_of key s ++ m ∷ []) in
    batch-put n key m ms s pos
    ∙ ap (λ l. put_tail key l s)
        (ap (last_n n) (sym (append_assoc (tail_of key s) (m ∷ []) ms))
          ∙ sym (last_n-append_left n (tail_of key s ++ m ∷ []) ms))
    ∙ sym (push_each-put n key one ms s (omega (arith, length-last_n n (tail_of key s ++ m ∷ []))))
    ∙ ap (push_each n key ms) (sym (push-eq-put n key m s))

-- The throughput points of a cluster.
abbrev pub points_of : String → DataState → List ThroughputPoint
points_of id s = or_else (lookup id s.throughput) []

-- A new point goes behind the newest of the old ones, and no other cluster's points change.
pub points_of-push :
    (n : ℕ) (id other : String) (p : ThroughputPoint) (s : DataState)
    → 0 < n
    → (points_of id (push_throughput n id p s) ≡ last_n n (points_of id s ++ p ∷ []))
      × (length (points_of id (push_throughput n id p s)) ≤ n)
      × (id ≢ other → points_of other (push_throughput n id p s) ≡ points_of other s)
unfolding push_throughput
points_of-push n id other p s pos =
    let next : List ThroughputPoint = points_of id s ++ p ∷ [] in
    let now : points_of id (push_throughput n id p s) ≡ last_n n next =
      rw (lookup-insert_self id (slice_end n next) s.throughput) (slice_end_pos n next pos) in
    (
      now,
      rw now (omega (arith, length-last_n n next)),
      λ ne. rw (lookup-insert_ne id other (slice_end n next) s.throughput ne) refl,
    )

-- A batch for one key leaves the newest messages of the old tail and the batch, and changes no other
-- tail.
pub tail_of-batch :
    (n : ℕ) (key : String) (ms : List TailedMessage) (s : DataState)
    → 0 < n
    → length (tail_of key s) ≤ n
    → tail_of key (batch_push_tail_messages n key ms s) ≡ last_n n (tail_of key s ++ ms)
tail_of-batch n key [] s pos h =
    unfold batch_push_tail_messages in sym (rw append-nil (last_n_short n (tail_of key s) h))
tail_of-batch n key (m ∷ ms) s pos h =
    ap (tail_of key) (batch-put n key m ms s pos)
    ∙ ap (λ o. or_else o [])
        (lookup-insert_self key (last_n n (tail_of key s ++ m ∷ ms)) s.tail_messages)

pub tail_of-batch_other :
    (n : ℕ) (key other : String) (ms : List TailedMessage) (s : DataState)
    → key ≢ other
    → tail_of other (batch_push_tail_messages n key ms s) ≡ tail_of other s
unfolding batch_push_tail_messages
tail_of-batch_other n key other [] s ne = refl
tail_of-batch_other n key other (m ∷ ms) s ne =
    rw (lookup-insert_ne key other _ s.tail_messages ne) refl

pub batch-nil : (n : ℕ) (key : String) (s : DataState) → batch_push_tail_messages n key [] s ≡ s
unfolding batch_push_tail_messages
batch-nil n key s = refl
