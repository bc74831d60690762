-- ===== src/Prelude/Digits.antt =====
-- The operations on binary digits, one digit at a time: an equation for the lowest digit that holds
-- for each of them, and induction on the number of digits.
use Prim.Native.Nat.{
  ℕ, zero, suc, ◌+◌, ◌*◌, ◌/◌, ◌%◌, ◌≤◌, min, max, bit_and, bit_or, digits, bitwise,
  bit_and-bitwise, bit_or-bitwise,
}
use mathlib.Core.Path.{◌≡◌, refl, sym, ap, ◌∙◌}
use native.Mathlib.Omega.{arith}

module _ {ℓ} (P : ℕ → Type ℓ) (base : P 0) (digit : (x : ℕ) → P (x / 2) → P x) where
  within : (bound x : ℕ) → x ≤ bound → P x
  within bound zero h = base
  within zero (suc x) h = absurd (omega arith)
  within (suc bound) (suc x) h = digit (suc x) (within bound (suc x / 2) (omega arith))

  -- What holds of 0, and of a number if it holds of its half, holds of all numbers.
  pub by_halves : (x : ℕ) → P x
  by_halves x = within x x (omega arith)

-- `last y` is the result once the first number has run out.
module _ (last : ℕ → ℕ) (op : ℕ → ℕ → ℕ) where
  digits-zero : (fuel y : ℕ) → digits last op fuel 0 y ≡ last y
  digits-zero zero y = refl
  digits-zero (suc fuel) y = refl

  same_digits :
      (x y fuel more : ℕ) → x ≤ fuel → x ≤ more → digits last op fuel x y ≡ digits last op more x y
  same_digits x y zero zero h k = refl
  same_digits zero y fuel more h k = digits-zero fuel y ∙ sym (digits-zero more y)
  same_digits (suc x) y zero (suc more) h k = absurd (omega arith)
  same_digits (suc x) y (suc fuel) zero h k = absurd (omega arith)
  same_digits (suc x) y (suc fuel) (suc more) h k =
      ap (λ (d : ℕ). d * 2 + op (suc x % 2) (y % 2))
        (same_digits (suc x / 2) (y / 2) fuel more (omega arith) (omega arith))

  lowest_digit :
      ((y : ℕ) → last y ≡ last (y / 2) * 2 + op 0 (y % 2))
      → (x y : ℕ) → bitwise last op x y ≡ bitwise last op (x / 2) (y / 2) * 2 + op (x % 2) (y % 2)
  lowest_digit ends zero y = ends y
  lowest_digit ends (suc x) y =
      ap (λ (d : ℕ). d * 2 + op (suc x % 2) (y % 2))
        (same_digits (suc x / 2) (y / 2) x (suc x / 2) (omega arith) (omega arith))

pub bit_and_lowest : (x y : ℕ) → bit_and x y ≡ bit_and (x / 2) (y / 2) * 2 + min (x % 2) (y % 2)
bit_and_lowest x y =
    let shape = lowest_digit (λ b. zero) min (λ b. omega arith) x y in
    rw (bit_and-bitwise x y, bit_and-bitwise (x / 2) (y / 2)) shape

pub bit_or_lowest : (x y : ℕ) → bit_or x y ≡ bit_or (x / 2) (y / 2) * 2 + max (x % 2) (y % 2)
bit_or_lowest x y =
    let shape = lowest_digit (λ b. b) max (λ b. omega arith) x y in
    rw (bit_or-bitwise x y, bit_or-bitwise (x / 2) (y / 2)) shape

pub bit_and-right_zero : (x : ℕ) → bit_and x 0 ≡ 0
bit_and-right_zero =
    by_halves (λ x. bit_and x 0 ≡ 0) refl (λ x h. omega (arith, bit_and_lowest x 0, h))

pub bit_and_self : (x : ℕ) → bit_and x x ≡ x
bit_and_self = by_halves (λ x. bit_and x x ≡ x) refl (λ x h. omega (arith, bit_and_lowest x x, h))

pub zero-bit_or : (y : ℕ) → bit_or 0 y ≡ y
zero-bit_or y = bit_or-bitwise 0 y
