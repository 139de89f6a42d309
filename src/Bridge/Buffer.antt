-- ===== src/Bridge/Buffer.antt =====
-- The buffer of tailed messages: its bound, and what a flush commits.
use nats_ui.Prelude.{
  ℕ, ◌≤◌, String, str_eq, str_eq_iff, ◌≡◌, ◌≢◌, refl, sym, ◌∙◌, ap, none, inl, inr, or_else, List,
  [], ◌∷◌, ◌++◌, append-nil, length, length-append, last_n, last_n_short, last_n_long,
  length-last_n, Dict, lookup, insert, erase, lookup-erase, lookup-insert, ltb, if◌then◌else◌,
  arith, Bool-cases,
}
use mathlib.Core.Path.{ap₂}
use nats_ui.Types.Messages.{TailedMessage}
use nats_ui.Store.Data.{DataState, max_tail_messages, batch_push_tail_messages}
use nats_ui.Store.Data.Buffers.{batch-nil, tail_of, tail_of-batch, tail_of-batch_other}
use nats_ui.Bridge.{App, max_buffer_per_key, shift_long, enqueue_message, flush_each, drained}

-- The messages of `key` that wait in the buffer.
abbrev pub waiting : String → Dict (List TailedMessage) → List TailedMessage
waiting key d = or_else (lookup key d) []

-- No key stands twice in the buffer: later entries of its keys are not there.
abbrev pub HasDistinctKeys : Dict (List TailedMessage) → Type 0
HasDistinctKeys [] = Unit
HasDistinctKeys ((key, ms) ∷ rest) = (lookup key rest ≡ none) × HasDistinctKeys rest

insert-HasDistinctKeys :
    (key : String) (ms : List TailedMessage) (d : Dict (List TailedMessage))
    → HasDistinctKeys d
    → HasDistinctKeys (insert key ms d)
unfolding insert lookup
insert-HasDistinctKeys key ms [] h = (refl, tt)
insert-HasDistinctKeys key ms ((j, w) ∷ rest) h = ground (
  arith,
  insert-HasDistinctKeys key ms rest h.1,
  lookup-insert key j ms rest,
  str_eq_iff j key,
  str_eq_iff key j,
)

waiting-cons :
    (key j : String) (w : List TailedMessage) (rest : Dict (List TailedMessage))
    → waiting key ((j, w) ∷ rest) ≡ (if str_eq j key then w else waiting key rest)
unfolding lookup
waiting-cons key j w rest = ground arith

flush_each-cons :
    (j : String) (w : List TailedMessage) (rest : Dict (List TailedMessage)) (s : DataState)
    → flush_each ((j, w) ∷ rest) s
      ≡ flush_each rest (batch_push_tail_messages max_tail_messages j w s)
unfolding flush_each
flush_each-cons j [] rest s = ap (flush_each rest) (sym (batch-nil max_tail_messages j s))
flush_each-cons j (m ∷ ms) rest s = refl

pub tail_of-flush_each :
    (key : String) (d : Dict (List TailedMessage)) (s : DataState)
    → HasDistinctKeys d
    → length (tail_of key s) ≤ max_tail_messages
    → tail_of key (flush_each d s) ≡ last_n max_tail_messages (tail_of key s ++ waiting key d)
tail_of-flush_each key [] s h l =
    unfold flush_each lookup in
    sym (
      ap (last_n max_tail_messages) (append-nil (tail_of key s))
      ∙ last_n_short max_tail_messages (tail_of key s) l)
tail_of-flush_each key ((j, w) ∷ rest) s h l =
    let n : ℕ = max_tail_messages in
    let s' : DataState = batch_push_tail_messages n j w s in
    ap (tail_of key) (flush_each-cons j w rest s) ∙ elim (Bool-cases (str_eq j key)) [
      | inl e ↦
          let same : j ≡ key = (str_eq_iff j key).0 e in
          let now : tail_of key s' ≡ last_n n (tail_of key s ++ w) =
            rw same (tail_of-batch n key w s (omega arith) l) in
          let none_left : waiting key rest ≡ [] = ap (λ o. or_else o []) (rw same at h.0) in
          let short : length (tail_of key s') ≤ n =
            rw now (omega (arith, length-last_n n (tail_of key s ++ w))) in
          tail_of-flush_each key rest s' h.1 short
          ∙ ap (last_n n) (ap (λ q. tail_of key s' ++ q) none_left ∙ append-nil (tail_of key s'))
          ∙ last_n_short n (tail_of key s') short
          ∙ now
          ∙ ap (λ q. last_n n (tail_of key s ++ q)) (sym (rw (waiting-cons key j w rest, e) refl))
      | inr e ↦
          let other : j ≢ key = λ p. absurd (ground (arith, str_eq_iff j key)) in
          let now : tail_of key s' ≡ tail_of key s = tail_of-batch_other n j key w s other in
          tail_of-flush_each key rest s' h.1 (rw now l)
          ∙ ap₂ (λ t q. last_n n (t ++ q)) now (sym (rw (waiting-cons key j w rest, e) refl))
    ]

pub waiting-drained : (key : String) (d : Dict (List TailedMessage)) → waiting key (drained d) ≡ []
unfolding drained lookup
waiting-drained key [] = refl
waiting-drained key ((j, w) ∷ rest) = ground (arith, waiting-drained key rest)

lookup-drained_none :
    (key : String) (d : Dict (List TailedMessage))
    → lookup key d ≡ none
    → lookup key (drained d) ≡ none
unfolding drained lookup
lookup-drained_none key [] e = refl
lookup-drained_none key ((j, w) ∷ rest) e = ground (arith, lookup-drained_none key rest)

pub drained-HasDistinctKeys :
    (d : Dict (List TailedMessage)) → HasDistinctKeys d → HasDistinctKeys (drained d)
unfolding drained
drained-HasDistinctKeys [] h = h
drained-HasDistinctKeys ((j, w) ∷ rest) h =
    (lookup-drained_none j rest h.0, drained-HasDistinctKeys rest h.1)

shift_long-eq-last_n :
    (q : List TailedMessage) (m : TailedMessage)
    → length q ≤ max_buffer_per_key
    → shift_long (q ++ m ∷ []) ≡ last_n max_buffer_per_key (q ++ m ∷ [])
shift_long-eq-last_n [] m h = refl
shift_long-eq-last_n (x ∷ q) m h =
    let n : ℕ = max_buffer_per_key in
    elim (Bool-cases (ltb n (length (x ∷ (q ++ m ∷ []))))) [
      | inl e ↦ rw e (
          sym (
            last_n_long n x (q ++ m ∷ []) (ground arith)
            ∙ last_n_short n (q ++ m ∷ []) (omega (arith, length-append q (m ∷ [])))))
      | inr e ↦ rw e (sym (last_n_short n (x ∷ (q ++ m ∷ [])) (ground arith)))
    ]

-- A message goes to the end of its key's queue, which keeps the newest 2000.
pub waiting-enqueue :
    (raf : ℕ) (key other : String) (m : TailedMessage) (a : App)
    → length (waiting key a.pending) ≤ max_buffer_per_key
    → waiting other (enqueue_message raf key m a).pending ≡ (
        if str_eq key other
        then last_n max_buffer_per_key (waiting key a.pending ++ m ∷ [])
        else waiting other a.pending)
unfolding enqueue_message
waiting-enqueue raf key other m a h =
    let q : List TailedMessage = waiting key a.pending ++ m ∷ [] in
    let kept : shift_long q ≡ last_n max_buffer_per_key q =
      shift_long-eq-last_n (waiting key a.pending) m h in
    ground (arith, lookup-insert key other (shift_long q) a.pending, kept)

-- One call for each message, as they come in between two frames.
abbrev pub enqueue_all : ℕ → String → List TailedMessage → App → App
enqueue_all raf key [] a = a
enqueue_all raf key (m ∷ ms) a = enqueue_all raf key ms (enqueue_message raf key m a)

pub enqueue-parts :
    (raf : ℕ) (key : String) (m : TailedMessage) (a : App)
    → ((enqueue_message raf key m a).store ≡ a.store)
      × ((enqueue_message raf key m a).raf_handle ≢ none)
      × ((enqueue_message raf key m a).pending
          ≡ insert key (shift_long (waiting key a.pending ++ m ∷ [])) a.pending)
unfolding enqueue_message
enqueue-parts raf key m a = (ground arith, ground arith, ground arith)

pub enqueue-HasDistinctKeys :
    (raf : ℕ) (key : String) (m : TailedMessage) (a : App)
    → HasDistinctKeys a.pending
    → HasDistinctKeys (enqueue_message raf key m a).pending
enqueue-HasDistinctKeys raf key m a h =
    rw ((enqueue-parts raf key m a).2)
      (insert-HasDistinctKeys key (shift_long (waiting key a.pending ++ m ∷ [])) a.pending h)

pub waiting-erase :
    (key other : String) (d : Dict (List TailedMessage))
    → waiting other (erase key d) ≡ (if str_eq key other then [] else waiting other d)
waiting-erase key other d = ground (arith, lookup-erase key other d)

pub erase-HasDistinctKeys :
    (key : String) (d : Dict (List TailedMessage))
    → HasDistinctKeys d
    → HasDistinctKeys (erase key d)
unfolding erase
erase-HasDistinctKeys key [] h = h
erase-HasDistinctKeys key ((j, w) ∷ rest) h =
    ground (arith, erase-HasDistinctKeys key rest h.1, lookup-erase key j rest)
