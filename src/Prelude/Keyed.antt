-- ===== src/Prelude/Keyed.antt =====
-- Lists whose elements carry a key: finding, counting and removing the elements of a key.
use Prim.Native.Nat.{ℕ}
use Prim.Native.String.{String}
use mathlib.Core.Path.{◌≡◌}
use mathlib.Core.Bool.{not}
use mathlib.Core.Option.{Option, none, some}
use mathlib.Core.List.{List, [], ◌∷◌, ◌++◌}
use native.Mathlib.Omega.{arith}
use nats_ui.Prelude.Tests.{if◌then◌else◌}
use nats_ui.Prelude.Lists.{length, filter, find?}
use nats_ui.Prelude.Texts.{str_eq, str_eq_iff}

module _ {ℓ} {A : Type ℓ} (key : A → String) where
  abbrev pub find_key : String → List A → Option A
  find_key k xs = find? (λ a. str_eq (key a) k) xs

  abbrev pub without_key : String → List A → List A
  without_key k xs = filter (λ a. not (str_eq (key a) k)) xs

  abbrev pub count_key : String → List A → ℕ
  count_key k xs = length (filter (λ a. str_eq (key a) k) xs)

  pub find_key-without :
      (k j : String) (xs : List A)
      → find_key j (without_key k xs) ≡ (if str_eq k j then none else find_key j xs)
  find_key-without k j [] = ground arith
  find_key-without k j (x ∷ xs) =
      ground
        (arith, find_key-without k j xs, str_eq_iff (key x) k, str_eq_iff (key x) j, str_eq_iff k j)

  pub find_key-append_new :
      (k : String) (xs : List A) (x : A)
      → find_key k (without_key (key x) xs ++ x ∷ [])
        ≡ (if str_eq (key x) k then some x else find_key k xs)
  find_key-append_new k [] x = ground arith
  find_key-append_new k (y ∷ xs) x = ground (
    arith,
    find_key-append_new k xs x,
    str_eq_iff (key y) k,
    str_eq_iff (key y) (key x),
    str_eq_iff (key x) k,
  )

  pub count_key-without :
      (k j : String) (xs : List A)
      → count_key j (without_key k xs) ≡ (if str_eq k j then 0 else count_key j xs)
  count_key-without k j [] = ground arith
  count_key-without k j (x ∷ xs) =
      ground (
        arith,
        count_key-without k j xs,
        str_eq_iff (key x) k,
        str_eq_iff (key x) j,
        str_eq_iff k j,
      )

  pub count_key-append_new :
      (k : String) (xs : List A) (x : A)
      → count_key k (without_key (key x) xs ++ x ∷ [])
        ≡ (if str_eq (key x) k then 1 else count_key k xs)
  count_key-append_new k [] x = ground arith
  count_key-append_new k (y ∷ xs) x = ground (
    arith,
    count_key-append_new k xs x,
    str_eq_iff (key y) k,
    str_eq_iff (key y) (key x),
    str_eq_iff (key x) k,
  )
