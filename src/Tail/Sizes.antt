-- ===== src/Tail/Sizes.antt =====
-- The sum of the sizes that the tail view shows.
use nats_ui.Prelude.{
  ℕ, suc, ◌+◌, ◌<◌, String, ◌≡◌, refl, sym, ◌∙◌, ap, true, false, List, [], ◌∷◌, ◌++◌, append-nil,
  length, length-append, drop, last_n, last_n_long, last_n_short, ltb, arith,
}
use nats_ui.Types.Messages.{TailedMessage}
use nats_ui.Store.Data.{DataState, max_tail_messages, push_tail_message}
use nats_ui.Store.Data.Buffers.{tail_of, tail_of-push}
use nats_ui.Tail.{Total, payload_sum, update_total}

payload_sum-append :
    (xs ys : List TailedMessage) → payload_sum (xs ++ ys) ≡ payload_sum xs + payload_sum ys
unfolding payload_sum
payload_sum-append [] ys = omega arith
payload_sum-append (x ∷ xs) ys = omega (arith, payload_sum-append xs ys)

drop-append : (xs ys : List TailedMessage) → drop (length xs) (xs ++ ys) ≡ ys
drop-append [] ys = refl
drop-append (x ∷ xs) ys = drop-append xs ys

-- The sum of what is shown.
abbrev pub exact : List TailedMessage → Total
exact xs = record { total_bytes = payload_sum xs; prev_len = length xs }

grown-bytes :
    (xs ys : List TailedMessage)
    → (update_total (exact xs) (xs ++ ys)).total_bytes ≡ payload_sum (xs ++ ys)
unfolding update_total
grown-bytes xs [] =
    let same : ltb (length xs) (length xs) ≡ false = ground arith in rw (append-nil, same) refl
grown-bytes xs (y ∷ ys) =
    let longer : length xs < length (xs ++ y ∷ ys) = omega (arith, length-append xs (y ∷ ys)) in
    let not_shorter : ltb (length (xs ++ y ∷ ys)) (length xs) ≡ false = ground arith in
    let is_longer : ltb (length xs) (length (xs ++ y ∷ ys)) ≡ true = ground arith in
    rw (not_shorter, is_longer, drop-append xs (y ∷ ys)) (sym (payload_sum-append xs (y ∷ ys)))

shorter-bytes :
    (t : Total) (zs : List TailedMessage)
    → length zs < t.prev_len
    → (update_total t zs).total_bytes ≡ payload_sum zs
unfolding update_total
shorter-bytes t zs h = ground arith

same_length-bytes :
    (t : Total) (zs : List TailedMessage)
    → length zs ≡ t.prev_len
    → (update_total t zs).total_bytes ≡ t.total_bytes
unfolding update_total
same_length-bytes t zs h = ground arith

update_total-prev_len :
    (t : Total) (zs : List TailedMessage) → (update_total t zs).prev_len ≡ length zs
unfolding update_total
update_total-prev_len t zs = refl

-- The sum is right after messages were appended, and after the list became shorter.
pub update_total-exact :
    (xs ys zs : List TailedMessage)
    → length zs < length xs
    → (update_total (exact xs) (xs ++ ys) ≡ exact (xs ++ ys))
      × (update_total (exact xs) zs ≡ exact zs)
update_total-exact xs ys zs h = (
  (λ i. record {
    total_bytes = grown-bytes xs ys i;
    prev_len = update_total-prev_len (exact xs) (xs ++ ys) i;
  }),
  (λ i. record {
    total_bytes = shorter-bytes (exact xs) zs h i;
    prev_len = update_total-prev_len (exact xs) zs i;
  }),
)

-- Once a tail holds 10000 messages the sum stays as it is: a new message takes the place of the
-- oldest one, and the sum is wrong by the difference of their sizes.
pub update_total-stale :
    (key : String) (first m : TailedMessage) (rest : List TailedMessage) (s : DataState)
    → tail_of key s ≡ first ∷ rest
    → length (tail_of key s) ≡ max_tail_messages
    → ((update_total
          (exact (tail_of key s))
          (tail_of key (push_tail_message max_tail_messages key m s))).total_bytes
        ≡ payload_sum (tail_of key s))
      × (payload_sum (tail_of key (push_tail_message max_tail_messages key m s))
            + first.payload_size
          ≡ payload_sum (tail_of key s) + m.payload_size)
unfolding payload_sum
update_total-stale key first m rest s e l =
    let n : ℕ = max_tail_messages in
    let full : suc (length rest) ≡ n = sym (ap length e) ∙ l in
    let added : length (rest ++ m ∷ []) ≡ length rest + 1 = length-append rest (m ∷ []) in
    let now : tail_of key (push_tail_message n key m s) ≡ rest ++ m ∷ [] =
      tail_of-push n key m s
      ∙ ap (λ x. last_n n (x ++ m ∷ [])) e
      ∙ last_n_long n first (rest ++ m ∷ []) (omega (arith, full, added))
      ∙ last_n_short n (rest ++ m ∷ []) (omega (arith, full, added)) in
    (
      same_length-bytes (exact (tail_of key s)) (tail_of key (push_tail_message n key m s))
          (ap length now ∙ added ∙ omega (arith, full, l)),
      rw (now, e) (omega (arith, payload_sum-append rest (m ∷ []))),
    )
