-- ===== src/Publisher/Placeholders/Laws.antt =====
-- What a substitution changes, and what it depends on.
use Prim.Native.Char.{Char}
use nats_ui.Prelude.{
  ℕ, zero, suc, ◌+◌, ◌≤◌, ◌<◌, String, ◌^+◌, ◌≡◌, refl, sym, ◌∙◌, ap, ◌&&◌, Option, none, some, inl,
  inr, List, [], ◌∷◌, char_eq, eq_of_char_eq, chars, arith, Bool-cases, Option-cases,
}
use mathlib.Core.Path.{ap₂}
use mathlib.Core.Bool.{and-eq-true_iff}
use text.Mathlib.TextLemmas.{nil-append, cons-append, append_assoc as text_assoc}
use nats_ui.Publisher.Placeholders.{
  closed, longer, filled, Piece, plain, hole, closing, opening, pieces, pieces_of, braces,
}

-- A text, from its pieces.
abbrev pub print : List Piece → String
print [] = ""
print (plain c ∷ ps) = String.◌∷◌ c (print ps)
print (hole body ∷ ps) = braces body ^+ print ps

pub braces-append : (b r : String) → (braces b ^+ r) ≡ ("{{" ^+ (b ^+ ("}}" ^+ r)))
braces-append b r = text_assoc "{{" (b ^+ "}}") r ∙ ap (λ x. "{{" ^+ x) (text_assoc b "}}" r)

chars-append : (s t : String) → chars (s ^+ t) ≡ chars s + chars t
chars-append String.[] t = rw nil-append (omega arith)
chars-append (String.◌∷◌ c s) t = rw cons-append (omega (arith, chars-append s t))

two_chars :
    (c d : Char) (s : String)
    → (String.◌∷◌ c (String.◌∷◌ d String.[]) ^+ s) ≡ String.◌∷◌ c (String.◌∷◌ d s)
two_chars c d s =
    cons-append c (String.◌∷◌ d String.[]) s
    ∙ ap (String.◌∷◌ c) (cons-append d String.[] s ∙ ap (String.◌∷◌ d) (nil-append s))

closed_lem : (s b r : String) → closed s ≡ some (b, r) → (b ≡ "") × (s ≡ String.◌∷◌ "}" r)
closed_lem String.[] b r e = cc
closed_lem (String.◌∷◌ d t) b r e = elim (Bool-cases (char_eq d "}")) [
  | inl h ↦
      let same : some (String.[], t) ≡ some (b, r) = rw h at e in
      (cc, ap₂ String.◌∷◌ (eq_of_char_eq d "}" h) (cc))
  | inr h ↦ absurd (let no_match : none ≡ some (b, r) = rw h at e in cc)
]

longer_lem :
    (c : Char) (o : Option (String × String)) (b r : String)
    → longer c o ≡ some (b, r)
    → (b' : String) × (o ≡ some (b', r)) × (String.◌∷◌ c b' ≡ b)
longer_lem c none b r e = cc
longer_lem c (some (b', r')) b r e = (b', cc, cc)

pub closing_lem : (s b r : String) → closing s ≡ some (b, r) → s ≡ (b ^+ ("}}" ^+ r))
unfolding closing
closing_lem String.[] b r e = cc
closing_lem (String.◌∷◌ c s) b r e = elim (Bool-cases (char_eq c "}")) [
  | inl h ↦
      let (empty, rest) = closed_lem s b r (rw h at e) in
      ap₂ String.◌∷◌ (eq_of_char_eq c "}" h) rest
      ∙ sym (two_chars "}" "}" r)
      ∙ sym (nil-append ("}}" ^+ r))
      ∙ ap (λ x. x ^+ ("}}" ^+ r)) (sym empty)
  | inr h ↦
      let (b', found, whole) = longer_lem c (closing s) b r (rw h at e) in
      ap (String.◌∷◌ c) (closing_lem s b' r found)
      ∙ sym (cons-append c b' ("}}" ^+ r))
      ∙ ap (λ x. x ^+ ("}}" ^+ r)) whole
]

filled_lem :
    (o : Option (String × String)) (b r : String) → filled o ≡ some (b, r) → o ≡ some (b, r)
filled_lem none b r e = cc
filled_lem (some (b', r')) b r e = ground arith

pub opening_lem : (s b r : String) → opening s ≡ some (b, r) → s ≡ (braces b ^+ r)
unfolding opening
opening_lem String.[] b r e = cc
opening_lem (String.◌∷◌ c String.[]) b r e = cc
opening_lem (String.◌∷◌ c (String.◌∷◌ d s)) b r e =
    elim (Bool-cases (char_eq c "{" && char_eq d "{")) [
      | inl h ↦
          let (first, second) = (and-eq-true_iff _ _).0 h in
          let found : closing s ≡ some (b, r) = filled_lem (closing s) b r (rw h at e) in
          ap₂ String.◌∷◌ (eq_of_char_eq c "{" first)
            (ap₂ String.◌∷◌ (eq_of_char_eq d "{" second) (closing_lem s b r found))
          ∙ sym (two_chars "{" "{" (b ^+ ("}}" ^+ r)))
          ∙ sym (braces-append b r)
      | inr h ↦ absurd (let no_match : none ≡ some (b, r) = rw h at e in cc)
    ]

pub chars-opening : (s b r : String) → opening s ≡ some (b, r) → chars r < chars s
chars-opening s b r e =
    let whole : chars s ≡ chars ("{{" ^+ (b ^+ ("}}" ^+ r))) =
      ap chars (opening_lem s b r e ∙ braces-append b r) in
    omega (
      arith,
      whole,
      chars-append "{{" (b ^+ ("}}" ^+ r)),
      chars-append b ("}}" ^+ r),
      chars-append "}}" r,
    )

print-pieces : (f : ℕ) (s : String) → chars s ≤ f → print (pieces f s) ≡ s
unfolding pieces
print-pieces zero String.[] h = refl
print-pieces zero (String.◌∷◌ c s) h = absurd (omega arith)
print-pieces (suc f) String.[] h = refl
print-pieces (suc f) (String.◌∷◌ c s) h = elim (Option-cases (opening (String.◌∷◌ c s))) [
  | inl e ↦ rw (e, pieces) (ap (String.◌∷◌ c) (print-pieces f s (omega arith)))
  | inr ((b, r), e) ↦
      rw (e, pieces)
        (ap (λ x. braces b ^+ x)
            (print-pieces f r (omega (arith, chars-opening (String.◌∷◌ c s) b r e)))
          ∙ sym (opening_lem (String.◌∷◌ c s) b r e))
]

-- The pieces of a text are the whole text: nothing outside the placeholders is lost or moved.
pub print-pieces_of : (s : String) → print (pieces_of s) ≡ s
unfolding pieces_of
print-pieces_of s = print-pieces (chars s) s (omega arith)
