-- ===== src/Publisher/Placeholders/Tests.antt =====
-- Placeholders of concrete texts.
use nats_ui.Prelude.{
  Dict, suc, String, ◌^+◌, ◌≡◌, refl, true, false, or_else, [], ◌∷◌, lookup, decimal, arith,
}
use nats_ui.Publisher.Placeholders.{
  Fresh, trim, braces, is_seq_var, is_fresh_var, is_builtin_var, substitute, custom_placeholders,
}
use nats_ui.Publisher.Placeholders.Substitution.{substitute-braces}

abbrev fixed : Fresh
fixed k t = decimal k

placeholder_tests :
    (substitute fixed "orders.{{ seq }}.{{who}}{{" (("who", "ann") ∷ []) 12 ≡ "orders.12.ann{{")
    × (substitute fixed "{{ who }}{{}}" [] 1 ≡ "{{who}}{{}}")
    × (substitute fixed "{{uuid}}-{{uuid}}" [] 1 ≡ "0-1")
    × (custom_placeholders "a.{{who}}.{{RAND:1:-5}}" "{{seq}} {{ who }} {{rand:x:5}}"
        ≡ "who" ∷ "rand:x:5" ∷ [])
unfolding substitute custom_placeholders lookup decimal
placeholder_tests = (refl, refl, refl, refl)

substitute-braces_example :
    let vars : Dict String = ("who", "ann") ∷ [] in
    let whole = substitute fixed ("a." ^+ (braces " who " ^+ ".{{seq}}")) vars 7 in
    let rest = substitute (λ k. fixed (suc k)) ".{{seq}}" vars 7 in
    (is_seq_var (trim " who ") ≡ true → whole ≡ ("a." ^+ (decimal 7 ^+ rest)))
    × (is_seq_var (trim " who ") ≡ false
        → is_fresh_var (trim " who ") ≡ true
        → whole ≡ ("a." ^+ (fixed 0 (trim " who ") ^+ rest)))
    × (is_builtin_var (trim " who ") ≡ false
        → whole ≡ ("a." ^+ (or_else (lookup (trim " who ") vars) (braces (trim " who ")) ^+ rest)))
substitute-braces_example =
    substitute-braces fixed (("who", "ann") ∷ []) 7 "a." " who " ".{{seq}}" (ground arith)
      (ground arith) refl
