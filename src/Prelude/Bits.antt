-- ===== src/Prelude/Bits.antt =====
-- `x & (x - 1)`, the test for a power of two, as arithmetic.
use Prim.Native.Nat.{ℕ, zero, suc, ◌+◌, ◌-◌, ◌*◌, ◌/◌, ◌^◌, ◌≤◌, ◌<◌, bit_and}
use mathlib.Core.Path.{◌≡◌, refl, sym, ◌∙◌}
use mathlib.Core.Logic.{◌⊎◌, inl, inr}
use native.Mathlib.Nat.{pow-suc}
use native.Mathlib.Omega.{arith}
use xproc.Prelude.Digits.{bit_and_lowest, bit_and_self}

parity : (a : ℕ) → (a ≡ a / 2 * 2) ⊎ (a ≡ a / 2 * 2 + 1)
parity a = omega arith

-- `a & (a - 1)` at an even and at an odd number.
even_step : (a m : ℕ) → 0 < m → a ≡ m * 2 → bit_and a (a - 1) ≡ bit_and m (m - 1) * 2
even_step a m p e =
    let halves : a / 2 ≡ m = omega arith in
    let below : (a - 1) / 2 ≡ m - 1 = omega arith in
    bit_and_lowest a (a - 1) ∙ rw (halves, below) (omega arith)

odd_step : (a m : ℕ) → a ≡ m * 2 + 1 → bit_and a (a - 1) ≡ m * 2
odd_step a m e =
    let halves : a / 2 ≡ m = omega arith in
    let below : (a - 1) / 2 ≡ m = omega arith in
    bit_and_lowest a (a - 1) ∙ rw (halves, below, bit_and_self) (omega arith)

double-pow : (k : ℕ) → 2 ^ k * 2 ≡ 2 ^ suc k
double-pow k = omega (arith, pow-suc 2 k)

pow-pos : (k : ℕ) → 0 < 2 ^ k
pow-pos zero = omega arith
pow-pos (suc k) = omega (arith, pow-pos k, double-pow k)

pow2_of_mask_fuel : (n a : ℕ) → a ≤ n → 0 < a → bit_and a (a - 1) ≡ 0 → (k : ℕ) × (a ≡ 2 ^ k)
pow2_of_mask_fuel zero a h p e = absurd (omega arith)
pow2_of_mask_fuel (suc n) a h p e = elim (parity a) [
  | inl even ↦
      let (k, q) =
        pow2_of_mask_fuel n (a / 2) (omega arith) (omega arith)
          (omega (arith, even_step a (a / 2) (omega arith) even)) in
      (suc k, omega (arith, double-pow k))
  | inr odd ↦ (0, omega (arith, odd_step a (a / 2) odd))
]

pub pow2_of_mask : (a : ℕ) → 0 < a → bit_and a (a - 1) ≡ 0 → (k : ℕ) × (a ≡ 2 ^ k)
pow2_of_mask a p e = pow2_of_mask_fuel a a (omega arith) p e

pub mask_of_pow2 : (k : ℕ) → bit_and (2 ^ k) (2 ^ k - 1) ≡ 0
mask_of_pow2 zero = refl
mask_of_pow2 (suc k) =
    omega (arith, even_step (2 ^ suc k) (2 ^ k) (pow-pos k) (sym (double-pow k)), mask_of_pow2 k)
