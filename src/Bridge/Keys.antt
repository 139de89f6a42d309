-- ===== src/Bridge/Keys.antt =====
-- The keys of the tails: no two streams of clusters without a colon share one.
use Prim.Native.Char.{Char, code}
use nats_ui.Prelude.{ℕ, String, ◌^+◌, ◌≡◌, ◌≢◌, refl, ap, decimal_inj, decimal, arith, sym, ◌∙◌}
use mathlib.Core.Path.{ap₂}
use text.Mathlib.TextLemmas.{
  nil-append, cons-append, append_assoc as text_assoc, append_cancel_left, head-eq_of_cons-eq,
  tail-eq_of_cons-eq,
}
use nats_ui.Bridge.{stream_key, subject_key, message_id}

-- No character is a colon.
abbrev pub NoColon : String → Type 0
NoColon String.[] = Unit
NoColon (String.◌∷◌ c s) = (code c ≢ b':') × NoColon s

abbrev colon : Char
colon = ":"

colon-append : (s : String) → (":" ^+ s) ≡ String.◌∷◌ colon s
colon-append s = cons-append colon "" s ∙ ap (String.◌∷◌ colon) (nil-append s)

-- The text that `a:s` is, by the shape of `a`.
empty-append : (s : String) → ("" ^+ (":" ^+ s)) ≡ String.◌∷◌ colon s
empty-append s = nil-append (":" ^+ s) ∙ colon-append s

-- Where the part before the first colon has none, it and the rest are determined.
colon_split :
    (a b s t : String)
    → NoColon a
    → NoColon b
    → (a ^+ (":" ^+ s)) ≡ (b ^+ (":" ^+ t))
    → (a ≡ b) × (s ≡ t)
colon_split String.[] String.[] s t p q e =
    (refl, tail-eq_of_cons-eq (sym (empty-append s) ∙ e ∙ empty-append t))
colon_split String.[] (String.◌∷◌ d b) s t p q e = absurd (
    q.0
      (sym (ap code (head-eq_of_cons-eq (sym (empty-append s) ∙ e ∙ cons-append d b (":" ^+ t))))))
colon_split (String.◌∷◌ c a) String.[] s t p q e =
    absurd
      (p.0 (ap code (head-eq_of_cons-eq (sym (cons-append c a (":" ^+ s)) ∙ e ∙ empty-append t))))
colon_split (String.◌∷◌ c a) (String.◌∷◌ d b) s t p q e =
    let whole = sym (cons-append c a (":" ^+ s)) ∙ e ∙ cons-append d b (":" ^+ t) in
    let (same, rest) = colon_split a b s t p.1 q.1 (tail-eq_of_cons-eq whole) in
    (ap₂ String.◌∷◌ (head-eq_of_cons-eq whole) same, rest)

subj-NoColon : NoColon "subj"
subj-NoColon = omega arith

subject_key-shape : (c s : String) → subject_key c s ≡ ("subj" ^+ (":" ^+ stream_key c s))
subject_key-shape c s = text_assoc "subj" ":" (stream_key c s)

-- For cluster identifiers without a colon the keys of two streams are equal only for the same stream
-- of the same cluster, and those of two subjects only for the same subject of the same cluster; the
-- key of a stream is that of a subject only where the cluster is called "subj".
pub tail_keys_distinct :
    (c c' s s' : String)
    → NoColon c
    → NoColon c'
    → (stream_key c s ≡ stream_key c' s' → (c ≡ c') × (s ≡ s'))
      × (subject_key c s ≡ subject_key c' s' → (c ≡ c') × (s ≡ s'))
      × (stream_key c s ≡ subject_key c' s' → c ≡ "subj")
tail_keys_distinct c c' s s' p q = (
  colon_split c c' s s' p q,
  (λ e.
      colon_split c c' s s' p q (append_cancel_left "subj:" (stream_key c s) (stream_key c' s') e)),
  (λ e. (colon_split c "subj" s (stream_key c' s') p subj-NoColon (e ∙ subject_key-shape c' s')).0),
)

-- Different numbers give different message identifiers.
pub message_id_inj : (m n : ℕ) → message_id m ≡ message_id n → m ≡ n
unfolding message_id
message_id_inj m n e = decimal_inj m n (append_cancel_left "msg-" (decimal m) (decimal n) e)
