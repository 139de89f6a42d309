-- ===== src/Publisher/Placeholders/Substitution.antt =====
-- What a substitution puts in the place of a placeholder, and what it leaves as it is.
use Prim.Native.Char.{Char, code}
use nats_ui.Prelude.{
  ◌≢◌, ℕ, suc, String, str_eq, char_eq, eq_of_char_eq, ◌^+◌, ◌≡◌, refl, sym, ap, ◌∙◌, inl, inr,
  true, false, some, or_else, Dict, lookup, decimal, Avoids, Bool-cases, arith,
}
use text.Mathlib.TextLemmas.{nil-append, cons-append}
use nats_ui.Publisher.Placeholders.{
  Fresh, after_first, closing, opening, trim, is_seq_var, is_fresh_var, is_builtin_var, braces,
  resolve, fill, substitute,
}
use nats_ui.Publisher.Placeholders.Laws.{braces-append}
use nats_ui.Publisher.Placeholders.Blanks.{pieces_of-plain, pieces_of-hole, opening-of_other}

not_char : (c x : Char) → code c ≢ code x → char_eq c x ≡ false
not_char c x h = elim (Bool-cases (char_eq c x)) [
  | inl e ↦ absurd (h (ap code (eq_of_char_eq c x e)))
  | inr e ↦ e
]

-- The body of a placeholder ends at its first closing brace.
closing-of_body : (b r : String) → Avoids b'}' b → closing (b ^+ ("}}" ^+ r)) ≡ some (b, r)
unfolding closing
closing-of_body String.[] r h =
    rw (nil-append ("}}" ^+ r), cons-append, cons-append, nil-append) refl
closing-of_body (String.◌∷◌ c b) r (other, h) =
    rw (cons-append c b ("}}" ^+ r), not_char c "}" other, closing-of_body b r h) refl

opening-of_braces :
    (b r : String) → Avoids b'}' b → str_eq b "" ≡ false → opening (braces b ^+ r) ≡ some (b, r)
unfolding opening
opening-of_braces b r h e =
    rw (braces-append b r, cons-append, cons-append, nil-append, closing-of_body b r h, e) refl

-- A text without an opening brace is left as it is, in front of any other text.
substitute-plain :
    (fresh : Fresh) (vars : Dict String) (seq : ℕ) (a s : String)
    → Avoids b'{' a
    → substitute fresh (a ^+ s) vars seq ≡ (a ^+ substitute fresh s vars seq)
unfolding substitute fill
substitute-plain fresh vars seq String.[] s h =
    ap (λ t. substitute fresh t vars seq) (nil-append s)
    ∙ sym (nil-append (substitute fresh s vars seq))
substitute-plain fresh vars seq (String.◌∷◌ c a) s (other, h) =
    rw
      (
        cons-append c a s,
        pieces_of-plain c (a ^+ s) (opening-of_other c (a ^+ s) (not_char c "{" other)),
      )
      (ap (String.◌∷◌ c) (substitute-plain fresh vars seq a s h)
        ∙ sym (cons-append c a (substitute fresh s vars seq)))

substitute-hole :
    (fresh : Fresh) (vars : Dict String) (seq : ℕ) (b r : String)
    → Avoids b'}' b
    → str_eq b "" ≡ false
    → substitute fresh (braces b ^+ r) vars seq
      ≡ (resolve (fresh 0) vars seq (trim b) ^+ substitute (after_first fresh) r vars seq)
unfolding substitute fill
substitute-hole fresh vars seq b r h e =
    ap (fill fresh vars seq) (pieces_of-hole (braces b ^+ r) b r (opening-of_braces b r h e))

resolve_lem :
    (fresh : String → String) (vars : Dict String) (seq : ℕ) (t : String)
    → (is_seq_var t ≡ true → resolve fresh vars seq t ≡ decimal seq)
      × (is_seq_var t ≡ false → is_fresh_var t ≡ true → resolve fresh vars seq t ≡ fresh t)
      × (is_builtin_var t ≡ false → resolve fresh vars seq t ≡ or_else (lookup t vars) (braces t))
unfolding resolve is_builtin_var
resolve_lem fresh vars seq t = (
  λ h. rw h refl,
  λ h k. rw (h, k) refl,
  λ h. elim (Bool-cases (is_seq_var t)) [
    | inl e ↦ absurd (ground (arith, e, h))
    | inr e ↦ elim (Bool-cases (is_fresh_var t)) [
      | inl f ↦ absurd (ground (arith, e, f, h))
      | inr f ↦ rw (e, f) refl
    ]
  ],
)

-- A text without an opening brace, then a placeholder, whose body is not empty and has no closing
-- brace, then any text: the first part is left as it is; the placeholder becomes the number of the
-- message where its trimmed body is a name for it, a new value where it is another built-in name, and
-- else its custom value, or itself without blanks where it has none; and the rest is substituted, with
-- the new values that follow.
pub substitute-braces :
    (fresh : Fresh) (vars : Dict String) (seq : ℕ) (a b r : String)
    → Avoids b'{' a
    → Avoids b'}' b
    → str_eq b "" ≡ false
    → let whole = substitute fresh (a ^+ (braces b ^+ r)) vars seq in
      let rest = substitute (λ k. fresh (suc k)) r vars seq in
      (is_seq_var (trim b) ≡ true → whole ≡ (a ^+ (decimal seq ^+ rest)))
      × (is_seq_var (trim b) ≡ false
          → is_fresh_var (trim b) ≡ true
          → whole ≡ (a ^+ (fresh 0 (trim b) ^+ rest)))
      × (is_builtin_var (trim b) ≡ false
          → whole ≡ (a ^+ (or_else (lookup (trim b) vars) (braces (trim b)) ^+ rest)))
substitute-braces fresh vars seq a b r h k e =
    let rest = substitute (after_first fresh) r vars seq in
    let whole =
      substitute-plain fresh vars seq a (braces b ^+ r) h
      ∙ ap (λ s. a ^+ s) (substitute-hole fresh vars seq b r k e) in
    let put = λ (s : String). a ^+ (s ^+ rest) in
    let (number, new, custom) = resolve_lem (fresh 0) vars seq (trim b) in
    (
      λ c. whole ∙ ap put (number c),
      λ c d. whole ∙ ap put (new c d),
      λ c. whole ∙ ap put (custom c),
    )
