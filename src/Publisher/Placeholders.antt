-- ===== src/Publisher/Placeholders.antt =====
-- The placeholders of frontend/src/components/publisher/MessagePublisher.tsx: `{{seq}}`, `{{name}}`
-- and the like in subjects, payloads and message identifiers. A text is read once into pieces, as the
-- regular expression /\{\{\s*([^}]+?)\s*\}\}/g finds them. `toLowerCase` is that of ASCII: no other
-- character has a letter of the built-in names as its lower case. The values of the clock, the
-- random numbers and the identifiers are the parameter `fresh`: what it gives for the first placeholder of
-- a text, for the second and so on, each of them a new value.
pub mod Laws
pub mod Values
pub mod Trimming
pub mod Blanks
pub mod Substitution
mod Tests
use Prim.Native.Char.{Char, code}
use Prim.Native.String
use nats_ui.Prelude.{
  ℕ, zero, suc, ◌+◌, String, str_eq, char_eq, chars, ◌^+◌, Bool, true, false, not, ◌&&◌, ◌||◌,
  Option, none, some, or_else, List, [], ◌∷◌, ◌++◌, any, filter, map, Dict, lookup, decimal, ltb,
  leb, ◌==◌, if◌then◌else◌,
}

-- `\s`, which is what `trim` removes.
abbrev pub is_space : Char → Bool
is_space c =
    let n = code c in
    (leb 9 n && leb n 13)
    || n == 32
    || n == 160
    || n == 5760
    || (leb 8192 n && leb n 8202)
    || n == 8232
    || n == 8233
    || n == 8239
    || n == 8287
    || n == 12288
    || n == 65279

-- `trim`, from the start and from the end.
pub trim_start : String → String
trim_start String.[] = String.[]
trim_start (String.◌∷◌ c s) = let rest = trim_start s in if is_space c then rest else String.◌∷◌ c s

pub trim_end : String → String
trim_end String.[] = String.[]
trim_end (String.◌∷◌ c s) =
    let rest = trim_end s in if is_space c && str_eq rest "" then String.[] else String.◌∷◌ c rest

unfoldable pub trim : String → String
unfolding trim_start trim_end
trim s = trim_end (trim_start s)

-- A piece is a character outside placeholders, or what stands between `{{` and `}}`.
pub data Piece : Type 0 where
  plain : Char → Piece
  hole : String → Piece

abbrev closed : String → Option (String × String)
closed String.[] = none
closed (String.◌∷◌ d t) = if char_eq d "}" then some (String.[], t) else none

abbrev longer : Char → Option (String × String) → Option (String × String)
longer c none = none
longer c (some (body, rest)) = some (String.◌∷◌ c body, rest)

-- After `{{`: the text up to the first `}` and what follows the `}}`, where `}}` is what comes.
pub closing : String → Option (String × String)
closing String.[] = none
closing (String.◌∷◌ c s) = let more = closing s in if char_eq c "}" then closed s else longer c more

-- `[^}]+?` takes at least one character.
abbrev filled : Option (String × String) → Option (String × String)
filled none = none
filled (some (body, rest)) = if str_eq body "" then none else some (body, rest)

-- The placeholder at the start of a text, with what follows it.
pub opening : String → Option (String × String)
unfolding closing
opening String.[] = none
opening (String.◌∷◌ c String.[]) = none
opening (String.◌∷◌ c (String.◌∷◌ d s)) =
    if char_eq c "{" && char_eq d "{" then filled (closing s) else none

-- The pieces of a text; one round for each character is enough.
pub pieces : ℕ → String → List Piece
pieces zero s = []
pieces (suc f) String.[] = []
pieces (suc f) (String.◌∷◌ c s) = elim (opening (String.◌∷◌ c s)) [
  | none ↦ plain c ∷ pieces f s
  | some (body, rest) ↦ hole body ∷ pieces f rest
]

pub pieces_of : String → List Piece
unfolding pieces opening
pieces_of s = pieces (chars s) s

-- Comparison without case, on code points.
abbrev lower : ℕ → ℕ
lower n = if leb b'A' n && leb n b'Z' then n + 32 else n

abbrev lowers : String → List ℕ
lowers String.[] = []
lowers (String.◌∷◌ c s) = lower (code c) ∷ lowers s

abbrev same_codes : List ℕ → List ℕ → Bool
same_codes [] [] = true
same_codes (a ∷ as') (b ∷ bs) = a == b && same_codes as' bs
same_codes _ _ = false

-- `t.toLowerCase() === word` for a word in lower case.
abbrev is_word : String → String → Bool
is_word word t = same_codes (lowers word) (lowers t)

abbrev is_digit : ℕ → Bool
is_digit n = leb b'0' n && leb n b'9'

-- What follows `-?`, and what follows `\d+`.
abbrev after_sign : List ℕ → List ℕ
after_sign [] = []
after_sign (n ∷ ns) = if n == b'-' then ns else n ∷ ns

abbrev skip_digits : List ℕ → List ℕ
skip_digits [] = []
skip_digits (n ∷ ns) = let rest = skip_digits ns in if is_digit n then rest else n ∷ ns

abbrev after_number : List ℕ → Option (List ℕ)
after_number [] = none
after_number (n ∷ ns) = if is_digit n then some (skip_digits ns) else none

-- /^-?\d+:-?\d+$/.
abbrev second_number : Option (List ℕ) → Bool
second_number none = false
second_number (some []) = false
second_number (some (n ∷ ns)) =
    if n == b':'
    then elim (after_number (after_sign ns)) [
      | none ↦ false
      | some [] ↦ true
      | some (_ ∷ _) ↦ false
    ]
    else false

abbrev two_numbers : List ℕ → Bool
two_numbers ns = second_number (after_number (after_sign ns))

abbrev after_prefix : List ℕ → List ℕ → Option (List ℕ)
after_prefix [] ns = some ns
after_prefix (p ∷ ps) [] = none
after_prefix (p ∷ ps) (n ∷ ns) = let rest = after_prefix ps ns in if p == n then rest else none

-- /^rand:-?\d+:-?\d+$/i.
pub is_rand_range : String → Bool
is_rand_range t = elim (after_prefix (lowers "rand:") (lowers t)) [
  | none ↦ false
  | some ns ↦ two_numbers ns
]

pub is_seq_var : String → Bool
is_seq_var t = is_word "seq" t || is_word "i" t || is_word "index" t

-- The built-in names whose value is new each time.
pub is_fresh_var : String → Bool
unfolding is_rand_range
is_fresh_var t =
    any (λ word. is_word word t)
      ("uuid" ∷ "timestamp" ∷ "ts" ∷ "time" ∷ "now" ∷ "rand" ∷ "random" ∷ [])
    || is_rand_range t

pub is_builtin_var : String → Bool
unfolding is_seq_var is_fresh_var
is_builtin_var t = is_seq_var t || is_fresh_var t

abbrev pub braces : String → String
braces t = "{{" ^+ (t ^+ "}}")

-- The text that `substitute` puts for one placeholder `t`; `fresh` gives the clock's, the random and
-- the unique values at this place.
pub resolve : (String → String) → Dict String → ℕ → String → String
unfolding is_seq_var is_fresh_var
resolve fresh vars seq t =
    if is_seq_var t
    then decimal seq
    else if is_fresh_var t
    then fresh t
    else or_else (lookup t vars) (braces t)

abbrev pub Fresh : Type 0
Fresh = ℕ → String → String

abbrev pub after_first : Fresh → Fresh
after_first fresh k = fresh (suc k)

pub fill : Fresh → Dict String → ℕ → List Piece → String
unfolding resolve trim
fill fresh vars seq [] = ""
fill fresh vars seq (plain c ∷ ps) = String.◌∷◌ c (fill fresh vars seq ps)
fill fresh vars seq (hole body ∷ ps) =
    resolve (fresh 0) vars seq (trim body) ^+ fill (after_first fresh) vars seq ps

unfoldable pub substitute : Fresh → String → Dict String → ℕ → String
unfolding fill pieces_of
substitute fresh text vars seq = fill fresh vars seq (pieces_of text)

-- `out.add(m[1].trim())` for each placeholder, in order.
pub tokens : List Piece → List String
unfolding trim
tokens [] = []
tokens (plain c ∷ ps) = tokens ps
tokens (hole body ∷ ps) = trim body ∷ tokens ps

-- `[...new Set(xs)]`: the first of each.
pub unique_from : List String → List String → List String
unique_from seen [] = seen
unique_from seen (x ∷ xs) =
    unique_from (if any (λ y. str_eq y x) seen then seen else seen ++ x ∷ []) xs

pub detect_placeholders : String → List String
unfolding unique_from tokens pieces_of
detect_placeholders text = unique_from [] (tokens (pieces_of text))

-- The placeholders that the user is asked for, and the others.
unfoldable pub custom_placeholders : String → String → List String
unfolding detect_placeholders is_builtin_var
custom_placeholders subject payload =
    filter (λ t. not (is_builtin_var t))
      (unique_from [] (detect_placeholders subject ++ detect_placeholders payload))

pub builtin_placeholders : String → String → List String
unfolding detect_placeholders is_builtin_var
builtin_placeholders subject payload =
    filter is_builtin_var
      (unique_from [] (detect_placeholders subject ++ detect_placeholders payload))
