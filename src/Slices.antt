-- ===== src/Slices.antt =====
-- Cutting a list at a position, as loops over an array do that go by a number of bytes at a time.
use nats_ui.Prelude.{
  ℕ, zero, suc, ◌+◌, ◌≤◌, ◌≡◌, refl, ap, List, [], ◌∷◌, ◌++◌, length, take, drop, arith,
}

zero_plus : (n : ℕ) → 0 + n ≡ n
zero_plus n = omega arith

suc_plus : (m n : ℕ) → suc m + n ≡ suc (m + n)
suc_plus m n = omega arith

pub drop-beyond {ℓ} : {A : Type ℓ} → (i : ℕ) (xs : List A) → length xs ≤ i → drop i xs ≡ []
drop-beyond zero [] h = refl
drop-beyond zero (x ∷ xs) h = absurd (omega (arith, h))
drop-beyond (suc i) [] h = refl
drop-beyond (suc i) (x ∷ xs) h = drop-beyond i xs (omega (arith, h))

drop-nil {ℓ} : {A : Type ℓ} → (n : ℕ) → drop {A = A} n [] ≡ []
drop-nil zero = refl
drop-nil (suc n) = refl

pub take-nil {ℓ} : {A : Type ℓ} → (n : ℕ) → take {A = A} n [] ≡ []
take-nil zero = refl
take-nil (suc n) = refl

pub drop-drop {ℓ} : {A : Type ℓ} → (m n : ℕ) (xs : List A) → drop (m + n) xs ≡ drop n (drop m xs)
drop-drop zero n xs = rw (zero_plus n) refl
drop-drop (suc m) n [] = rw (drop-nil (suc m + n), drop-nil n) refl
drop-drop (suc m) n (x ∷ xs) = rw (suc_plus m n) (drop-drop m n xs)

pub take-append {ℓ} :
    {A : Type ℓ} → (m n : ℕ) (xs : List A) → take (m + n) xs ≡ take m xs ++ take n (drop m xs)
take-append zero n xs = rw (zero_plus n) refl
take-append (suc m) n [] = rw (take-nil (suc m + n), take-nil n) refl
take-append (suc m) n (x ∷ xs) = rw (suc_plus m n) (ap (x ∷◌) (take-append m n xs))

pub take-drop {ℓ} : {A : Type ℓ} → (n : ℕ) (xs : List A) → take n xs ++ drop n xs ≡ xs
take-drop zero xs = refl
take-drop (suc n) [] = refl
take-drop (suc n) (x ∷ xs) = ap (x ∷◌) (take-drop n xs)
