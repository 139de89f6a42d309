-- ===== src/Payload.antt =====
-- The dump of a payload in frontend/src/components/tail/PayloadViewer.tsx. The bytes of the text are
-- what `TextEncoder` gives, and `char_of` is `String.fromCharCode`. The loop over the rows goes by
-- fuel, one round for each row; 32 rounds are enough, since a dump has at most 512 bytes.
pub mod Rows
mod Tests
use nats_ui.Prelude.{
  ℕ, zero, suc, ◌+◌, ◌-◌, ◌*◌, ◌/◌, ◌%◌, min, String, ◌^+◌, chars, decimal, Bool, true, false, ◌&&◌,
  List, [], ◌∷◌, map, length, take, drop, ltb, leb, ◌==◌, if◌then◌else◌,
}
use nats_ui.Export.{join}

pub record Row : Type 0 where
  pub addr : ℕ
  pub chunk : List ℕ

-- The rows of the loop from the address `i`.
pub rows_from : ℕ → ℕ → List ℕ → List Row
rows_from zero i bytes = []
rows_from (suc f) i bytes =
    let rest = rows_from f (i + 16) bytes in
    if ltb i (min (length bytes) 512)
    then record { addr = i; chunk = take 16 (drop i bytes) } ∷ rest
    else []

pub rows : List ℕ → List Row
rows bytes = rows_from 32 0 bytes

-- A digit of `toString(16)`.
pub hex_digit : ℕ → String
hex_digit n =
    if ltb n 10
    then decimal n
    else if n == 10
    then "a"
    else if n == 11
    then "b"
    else if n == 12
    then "c"
    else if n == 13
    then "d"
    else if n == 14
    then "e"
    else "f"

pub hex_digits : ℕ → ℕ → String → String
hex_digits zero n rest = rest
hex_digits (suc f) n rest =
    let more = hex_digits f (n / 16) (hex_digit (n % 16) ^+ rest) in
    if n / 16 == 0 then hex_digit (n % 16) ^+ rest else more

-- `n.toString(16)`.
pub hex : ℕ → String
hex n = hex_digits (suc n) n ""

pub repeat : ℕ → String → String
repeat zero s = ""
repeat (suc n) s = s ^+ repeat n s

-- `padStart` and `padEnd` by one character.
pub pad_start : ℕ → String → String → String
pad_start w fill s = repeat (w - chars s) fill ^+ s

pub pad_end : ℕ → String → String → String
pad_end w fill s = s ^+ repeat (w - chars s) fill

abbrev printed : (ℕ → String) → ℕ → String
printed char_of b = if leb 32 b && ltb b 127 then char_of b else "."

pub row_text : (ℕ → String) → Row → String
row_text char_of r =
    pad_start 8 "0" (hex r.addr)
    ^+ ("  "
        ^+ (pad_end 47 " " (join " " (map (λ b. pad_start 2 "0" (hex b)) r.chunk))
            ^+ ("  " ^+ join "" (map (printed char_of) r.chunk))))

pub hex_dump : (ℕ → String) → List ℕ → String
hex_dump char_of bytes =
    join "\n" (map (row_text char_of) (rows bytes))
    ^+ (if ltb 512 (length bytes)
        then "\n... (" ^+ (decimal (length bytes - 512) ^+ " more bytes)")
        else "")
