-- ===== src/Publisher/Placeholders/Blanks.antt =====
-- Blanks at the ends of a text: they are in no placeholder, so that the trimmed text has the same ones.
use Prim.Native.Char.{Char}
use nats_ui.Prelude.{
  ℕ, zero, suc, ◌≤◌, String, str_eq, str_eq_iff, char_eq, eq_of_char_eq, chars, ◌≡◌, refl, sym, ap,
  ◌∙◌, ◌⊎◌, inl, inr, true, false, ◌&&◌, Option, none, some, ◌∷◌, Bool-cases, Option-cases, arith,
}
use nats_ui.Publisher.Placeholders.{
  is_space, trim, trim_start, trim_end, closed, longer, filled, plain, hole, closing, opening,
  pieces, pieces_of, tokens,
}
use mathlib.Core.Bool.{and-eq-true_iff}
use nats_ui.Publisher.Placeholders.Laws.{chars-opening}

-- More rounds than a text has characters find the same pieces.
pieces-enough : (f g : ℕ) (s : String) → chars s ≤ f → chars s ≤ g → pieces f s ≡ pieces g s
unfolding pieces
pieces-enough zero zero String.[] h k = refl
pieces-enough zero (suc g) String.[] h k = refl
pieces-enough (suc f) zero String.[] h k = refl
pieces-enough (suc f) (suc g) String.[] h k = refl
pieces-enough zero g (String.◌∷◌ c s) h k = absurd (omega (arith, h))
pieces-enough (suc f) zero (String.◌∷◌ c s) h k = absurd (omega (arith, k))
pieces-enough (suc f) (suc g) (String.◌∷◌ c s) h k =
    elim (Option-cases (opening (String.◌∷◌ c s))) [
      | inl e ↦
          rw (pieces, e)
            (ap (plain c ∷◌) (pieces-enough f g s (omega (arith, h)) (omega (arith, k))))
      | inr ((b, r), e) ↦
          let shorter = chars-opening (String.◌∷◌ c s) b r e in
          rw (pieces, e)
            (ap (hole b ∷◌)
              (pieces-enough f g r (omega (arith, h, shorter)) (omega (arith, k, shorter))))
    ]

pub pieces_of-plain :
    (c : Char) (s : String)
    → opening (String.◌∷◌ c s) ≡ none
    → pieces_of (String.◌∷◌ c s) ≡ plain c ∷ pieces_of s
unfolding pieces_of pieces
pieces_of-plain c s e = rw (pieces, e) refl

pub pieces_of-hole : (s b r : String) → opening s ≡ some (b, r) → pieces_of s ≡ hole b ∷ pieces_of r
unfolding pieces_of pieces opening
pieces_of-hole String.[] b r e = cc
pieces_of-hole (String.◌∷◌ c s) b r e =
    let shorter = chars-opening (String.◌∷◌ c s) b r e in
    rw (pieces, e)
      (ap (hole b ∷◌) (pieces-enough (chars s) (chars r) r (omega (arith, shorter)) (omega arith)))

-- No placeholder starts with another character than a brace.
pub opening-of_other :
    (c : Char) (s : String) → char_eq c "{" ≡ false → opening (String.◌∷◌ c s) ≡ none
unfolding opening
opening-of_other c String.[] e = refl
opening-of_other c (String.◌∷◌ d s) e = rw e refl

brace-is_space : (c : Char) → is_space c ≡ true → char_eq c "{" ≡ false
brace-is_space c h = elim (Bool-cases (char_eq c "{")) [
  | inl e ↦
      let same : c ≡ "{" = eq_of_char_eq c "{" e in
      let no : is_space "{" ≡ true = ap is_space (sym same) ∙ h in cc
  | inr e ↦ e
]

tokens-trim_start : (s : String) → tokens (pieces_of (trim_start s)) ≡ tokens (pieces_of s)
unfolding trim_start tokens
tokens-trim_start String.[] = refl
tokens-trim_start (String.◌∷◌ c s) = elim (Bool-cases (is_space c)) [
  | inl e ↦
      rw (e, pieces_of-plain c s (opening-of_other c s (brace-is_space c e))) (tokens-trim_start s)
  | inr e ↦ rw e refl
]

-- A character at the end is trimmed with all that follows it, or it is kept.
trim_end-cases :
    (c : Char) (s : String)
    → ((trim_end (String.◌∷◌ c s) ≡ "") × (trim_end s ≡ ""))
      ⊎ (trim_end (String.◌∷◌ c s) ≡ String.◌∷◌ c (trim_end s))
unfolding trim_end
trim_end-cases c s = elim (Bool-cases (is_space c)) [
  | inl e ↦ elim (Bool-cases (str_eq (trim_end s) "")) [
    | inl h ↦ inl (rw (e, h) refl, (str_eq_iff (trim_end s) "").0 h)
    | inr h ↦ inr (rw (e, h) refl)
  ]
  | inr e ↦ inr (rw e refl)
]

trim_end-of_kept :
    (c : Char) (s : String)
    → is_space c ≡ false
    → trim_end (String.◌∷◌ c s) ≡ String.◌∷◌ c (trim_end s)
unfolding trim_end
trim_end-of_kept c s e = rw e refl

-- What a placeholder becomes when the text is trimmed: the same one, and the rest is trimmed.
abbrev trimmed_rest : Option (String × String) → Option (String × String)
trimmed_rest none = none
trimmed_rest (some (b, r)) = some (b, trim_end r)

of_brace : (x c : Char) → is_space x ≡ false → char_eq c x ≡ true → is_space c ≡ false
of_brace x c tight e = ap is_space (eq_of_char_eq c x e) ∙ tight

closed-trim_end : (s : String) → closed (trim_end s) ≡ trimmed_rest (closed s)
closed-trim_end String.[] = unfold trim_end in refl
closed-trim_end (String.◌∷◌ d t) = elim (Bool-cases (char_eq d "}")) [
  | inl e ↦ rw (trim_end-of_kept d t (of_brace "}" d refl e), e) refl
  | inr e ↦ elim (trim_end-cases d t) [
    | inl (gone, rest) ↦ rw (gone, e) refl
    | inr kept ↦ rw (kept, e) refl
  ]
]

longer-trimmed_rest :
    (c : Char) (o : Option (String × String))
    → longer c (trimmed_rest o) ≡ trimmed_rest (longer c o)
longer-trimmed_rest c none = refl
longer-trimmed_rest c (some (b, r)) = refl

longer-none : (c : Char) (o : Option (String × String)) → trimmed_rest o ≡ none → longer c o ≡ none
longer-none c none e = refl
longer-none c (some (b, r)) e = cc

closing-trim_end : (s : String) → closing (trim_end s) ≡ trimmed_rest (closing s)
unfolding closing
closing-trim_end String.[] = unfold trim_end in refl
closing-trim_end (String.◌∷◌ c s) = elim (Bool-cases (char_eq c "}")) [
  | inl e ↦ rw (trim_end-of_kept c s (of_brace "}" c refl e), e) (closed-trim_end s)
  | inr e ↦ elim (trim_end-cases c s) [
    | inl (gone, rest) ↦
        let nothing : trimmed_rest (closing s) ≡ none =
          sym (closing-trim_end s) ∙ ap closing rest in
        rw (gone, e, longer-none c (closing s) nothing) refl
    | inr kept ↦ rw (kept, e, closing-trim_end s) (longer-trimmed_rest c (closing s))
  ]
]

filled-trimmed_rest :
    (o : Option (String × String)) → filled (trimmed_rest o) ≡ trimmed_rest (filled o)
filled-trimmed_rest none = refl
filled-trimmed_rest (some (b, r)) = elim (Bool-cases (str_eq b "")) [
  | inl e ↦ rw e refl
  | inr e ↦ rw e refl
]

opening-trim_end : (s : String) → opening (trim_end s) ≡ trimmed_rest (opening s)
unfolding opening
opening-trim_end String.[] = unfold trim_end in refl
opening-trim_end (String.◌∷◌ c String.[]) = elim (trim_end-cases c "") [
  | inl (gone, rest) ↦ rw gone refl
  | inr kept ↦ rw kept (unfold trim_end in refl)
]
opening-trim_end (String.◌∷◌ c (String.◌∷◌ d s)) =
    elim (Bool-cases (char_eq c "{" && char_eq d "{")) [
      | inl e ↦
          let (first, second) = (and-eq-true_iff _ _).0 e in
          rw
            (
              trim_end-of_kept c (String.◌∷◌ d s) (of_brace "{" c refl first),
              trim_end-of_kept d s (of_brace "{" d refl second),
              e,
              closing-trim_end s,
            )
            (filled-trimmed_rest (closing s))
      | inr e ↦ elim (trim_end-cases c (String.◌∷◌ d s)) [
        | inl (gone, rest) ↦ rw (gone, e) refl
        | inr kept ↦ elim (trim_end-cases d s) [
          | inl (gone, rest) ↦ rw (kept, gone, e) refl
          | inr kept' ↦ rw (kept, kept', e) refl
        ]
      ]
    ]

tokens-trim_end :
    (f : ℕ) (s : String) → chars s ≤ f → tokens (pieces_of (trim_end s)) ≡ tokens (pieces_of s)
unfolding tokens
tokens-trim_end f String.[] h = unfold trim_end in refl
tokens-trim_end zero (String.◌∷◌ c s) h = absurd (omega (arith, h))
tokens-trim_end (suc f) (String.◌∷◌ c s) h = elim (Option-cases (opening (String.◌∷◌ c s))) [
  | inl e ↦
      let rest = tokens-trim_end f s (omega (arith, h)) in
      rw (pieces_of-plain c s e) (elim (trim_end-cases c s) [
        | inl (gone, blank) ↦ rw gone (ap (λ t. tokens (pieces_of t)) (sym blank) ∙ rest)
        | inr kept ↦
            let trimmed : opening (String.◌∷◌ c (trim_end s)) ≡ none =
              ap opening (sym kept) ∙ opening-trim_end (String.◌∷◌ c s) ∙ ap trimmed_rest e in
            rw (kept, pieces_of-plain c (trim_end s) trimmed) rest
      ])
  | inr ((b, r), e) ↦
      let trimmed = opening-trim_end (String.◌∷◌ c s) ∙ ap trimmed_rest e in
      let shorter = chars-opening (String.◌∷◌ c s) b r e in
      rw
        (
          pieces_of-hole (String.◌∷◌ c s) b r e,
          pieces_of-hole (trim_end (String.◌∷◌ c s)) b (trim_end r) trimmed,
        )
        (ap (trim b ∷◌) (tokens-trim_end f r (omega (arith, h, shorter))))
]

-- The trimmed text has the placeholders of the text.
pub tokens-trim : (s : String) → tokens (pieces_of (trim s)) ≡ tokens (pieces_of s)
unfolding trim
tokens-trim s =
    tokens-trim_end (chars (trim_start s)) (trim_start s) (omega arith) ∙ tokens-trim_start s
