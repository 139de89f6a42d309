-- ===== src/Prelude/Suffix.antt =====
-- The end of a list: `slice(-n)`, and dropping from the front until at most `n` elements are left.
use Prim.Native.Nat.{ℕ, zero, suc, ◌-◌, ◌≤◌, ◌<◌, min}
use mathlib.Core.Path.{◌≡◌, refl, sym, ◌∙◌}
use mathlib.Core.Logic.{inl, inr}
use mathlib.Core.Bool.{false}
use mathlib.Core.List.{List, [], ◌∷◌, ◌++◌}
use native.Mathlib.Omega.{arith}
use nats_ui.Prelude.Tests.{if◌then◌else◌, leb, ◌==◌, le→leb, lt→leb, Bool-cases}
use nats_ui.Prelude.Lists.{length, last?, drop, length-append}

pos_ne : (n : ℕ) → 0 < n → (n == 0) ≡ false
pos_ne n h = ground arith

module _ {ℓ} {A : Type ℓ} where
  -- The longest suffix of at most `n` elements.
  abbrev pub last_n : ℕ → List A → List A
  last_n n [] = []
  last_n n (x ∷ xs) = let rest = last_n n xs in if leb (length (x ∷ xs)) n then x ∷ xs else rest

  -- `xs.slice(-n)`; `slice(-0)` is `slice(0)`, which keeps everything.
  abbrev pub slice_end : ℕ → List A → List A
  slice_end n xs = if n == 0 then xs else drop (length xs - n) xs

  pub last_n_short : (n : ℕ) (xs : List A) → length xs ≤ n → last_n n xs ≡ xs
  last_n_short n [] h = refl
  last_n_short n (x ∷ xs) h = rw (le→leb (length (x ∷ xs)) n h)

  pub last_n_long : (n : ℕ) (x : A) (xs : List A) → n ≤ length xs → last_n n (x ∷ xs) ≡ last_n n xs
  last_n_long n x xs h = rw (lt→leb (length (x ∷ xs)) n (omega arith))

  pub length-last_n : (n : ℕ) (xs : List A) → length (last_n n xs) ≡ min n (length xs)
  length-last_n n [] = omega arith
  length-last_n n (x ∷ xs) = ground (arith, length-last_n n xs)

  -- Dropping what is too much keeps the longest suffix.
  drop_nil : (k : ℕ) → drop k (let none_left : List A = [] in none_left) ≡ []
  drop_nil zero = refl
  drop_nil (suc k) = refl

  drop-suc_sub :
      (n : ℕ) (x : A) (xs : List A)
      → n ≤ length xs
      → drop (suc (length xs) - n) (x ∷ xs) ≡ drop (length xs - n) xs
  drop-suc_sub n x xs h =
      let e : suc (length xs) - n ≡ suc (length xs - n) = omega arith in rw e refl

  pub drop-eq-last_n : (n : ℕ) (xs : List A) → drop (length xs - n) xs ≡ last_n n xs
  drop-eq-last_n n [] = drop_nil (0 - n)
  drop-eq-last_n n (x ∷ xs) = elim (Bool-cases (leb (length (x ∷ xs)) n)) [
    | inl e ↦ let z : suc (length xs) - n ≡ 0 = ground arith in rw (z, e) refl
    | inr e ↦
        drop-suc_sub n x xs (ground arith)
        ∙ drop-eq-last_n n xs
        ∙ sym (last_n_long n x xs (ground arith))
  ]

  pub slice_end_pos : (n : ℕ) (xs : List A) → 0 < n → slice_end n xs ≡ last_n n xs
  slice_end_pos n xs h = rw (pos_ne n h) (drop-eq-last_n n xs)

  -- Truncating early does not change a later truncation.
  pub last_n-append_left :
      (n : ℕ) (xs ys : List A) → last_n n (last_n n xs ++ ys) ≡ last_n n (xs ++ ys)
  last_n-append_left n [] ys = refl
  last_n-append_left n (x ∷ xs) ys = elim (Bool-cases (leb (length (x ∷ xs)) n)) [
    | inl e ↦ rw e
    | inr e ↦ rw e (
        last_n-append_left n xs ys
        ∙ sym (last_n_long n x (xs ++ ys) (ground (arith, length-append xs ys))))
  ]

  -- A truncation that keeps something keeps the last element.
  pub last?-last_n : (n : ℕ) (xs : List A) → 0 < n → last? (last_n n xs) ≡ last? xs
  last?-last_n n [] h = refl
  last?-last_n n (x ∷ []) h = rw (last_n_short n (x ∷ []) h) refl
  last?-last_n n (x ∷ (y ∷ xs)) h = elim (Bool-cases (leb (length (x ∷ (y ∷ xs))) n)) [
    | inl e ↦ rw e refl
    | inr e ↦ rw e (last?-last_n n (y ∷ xs) h)
  ]
