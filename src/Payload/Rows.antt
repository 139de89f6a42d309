-- ===== src/Payload/Rows.antt =====
-- The rows of a dump: enough rounds, and the bytes that they show.
use nats_ui.Prelude.{
  ℕ, zero, suc, ◌+◌, ◌*◌, ◌≤◌, min, ◌≡◌, refl, sym, inl, inr, List, [], ◌∷◌, ◌++◌, length, take,
  length-take_le, drop, All, ltb, Bool-cases, arith,
}
use nats_ui.Slices.{drop-beyond, take-nil, drop-drop, take-append}
use nats_ui.Payload.{Row, rows_from, rows}

-- No row starts at or after byte 512.
rows_from-end : (f i : ℕ) (bytes : List ℕ) → 512 ≤ i → rows_from f i bytes ≡ []
unfolding rows_from
rows_from-end zero i bytes h = refl
rows_from-end (suc f) i bytes h = elim (Bool-cases (ltb i (min (length bytes) 512))) [
  | inl e ↦ absurd (ground (arith, e))
  | inr e ↦ rw e refl
]

-- More rounds than are enough find no more rows.
rows_from-enough :
    (f k i : ℕ) (bytes : List ℕ)
    → 512 ≤ i + 16 * f
    → rows_from (f + k) i bytes ≡ rows_from f i bytes
unfolding rows_from
rows_from-enough zero k i bytes h = rows_from-end (0 + k) i bytes (omega (arith, h))
rows_from-enough (suc f) k i bytes h =
    let more : suc f + k ≡ suc (f + k) = omega arith in
    rw (more, rows_from-enough f k (i + 16) bytes (omega (arith, h))) refl

-- The bytes of the rows.
abbrev pub bytes_of : List Row → List ℕ
bytes_of [] = []
bytes_of (r ∷ rs) = r.chunk ++ bytes_of rs

-- From an address where the remaining rounds reach byte 512, the rows show what comes next.
bytes_of-rows_from :
    (f i : ℕ) (bytes : List ℕ)
    → i + 16 * f ≡ 512
    → bytes_of (rows_from f i bytes) ≡ take (16 * f) (drop i bytes)
unfolding rows_from
bytes_of-rows_from zero i bytes h = refl
bytes_of-rows_from (suc f) i bytes h =
    let sixteen : 16 * suc f ≡ 16 + 16 * f = omega arith in
    elim (Bool-cases (ltb i (min (length bytes) 512))) [
      | inl e ↦
          rw
            (
              e,
              bytes_of-rows_from f (i + 16) bytes (omega (arith, h)),
              sixteen,
              take-append 16 (16 * f) (drop i bytes),
              drop-drop i 16 bytes,
            )
            refl
      | inr e ↦ rw (e, drop-beyond i bytes (ground (arith, e, h))) (sym (take-nil (16 * suc f)))
    ]

-- Every row has at most 16 bytes.
rows_from-short : (f i : ℕ) (bytes : List ℕ) → All (λ r. length r.chunk ≤ 16) (rows_from f i bytes)
unfolding rows_from
rows_from-short zero i bytes = tt
rows_from-short (suc f) i bytes = elim (Bool-cases (ltb i (min (length bytes) 512))) [
  | inl e ↦ rw e (length-take_le 16 (drop i bytes), rows_from-short f (i + 16) bytes)
  | inr e ↦ rw e tt
]

-- The loop ends within 32 rounds: more rounds find no more rows. The rows, of at most 16 bytes each,
-- show the first 512 bytes, each of them once and in order.
pub rows_lem :
    (bytes : List ℕ) (more : ℕ)
    → (rows_from (32 + more) 0 bytes ≡ rows bytes)
      × (bytes_of (rows bytes) ≡ take 512 bytes)
      × All (λ r. length r.chunk ≤ 16) (rows bytes)
unfolding rows
rows_lem bytes more = (
  rows_from-enough 32 more 0 bytes (omega arith),
  bytes_of-rows_from 32 0 bytes refl,
  rows_from-short 32 0 bytes,
)
