-- ===== src/Payload/Tests.antt =====
-- A dump of two bytes.
use nats_ui.Prelude.{◌+◌, ◌≤◌, ◌≡◌, refl, [], ◌∷◌, length, take, All, decimal}
use nats_ui.Payload.{rows_from, rows, hex, hex_digits, hex_digit, pad_start, repeat}
use nats_ui.Payload.Rows.{bytes_of, rows_lem}

hex_tests : (hex 255 ≡ "ff") × (pad_start 8 "0" (hex 16) ≡ "00000010")
unfolding hex hex_digits hex_digit pad_start repeat decimal
hex_tests = (refl, refl)

rows_lem_example :
    (rows_from (32 + 5) 0 (104 ∷ 105 ∷ []) ≡ rows (104 ∷ 105 ∷ []))
    × (bytes_of (rows (104 ∷ 105 ∷ [])) ≡ take 512 (104 ∷ 105 ∷ []))
    × All (λ r. length r.chunk ≤ 16) (rows (104 ∷ 105 ∷ []))
rows_lem_example = rows_lem (104 ∷ 105 ∷ []) 5
