-- ===== src/Prelude/Or.antt =====
-- `|` on numbers that share no bit, and `& 0xff`, as arithmetic.
use Prim.Native.Nat.{ℕ, zero, suc, ◌+◌, ◌*◌, ◌/◌, ◌%◌, ◌^◌, ◌<◌, bit_and, bit_or}
use mathlib.Core.Path.{◌≡◌, ap, ◌∙◌}
use native.Mathlib.Nat.{pow-suc}
use native.Mathlib.Omega.{arith}
use xproc.Prelude.Digits.{bit_and_lowest, bit_or_lowest, bit_and-right_zero, zero-bit_or}

-- One more digit below: `t` is `b * 2 ^ k`.
or_round : (a t : ℕ) → bit_or (a / 2) t ≡ a / 2 + t → bit_or a (t * 2) ≡ a + t * 2
or_round a t e =
    let half : t * 2 / 2 ≡ t = omega arith in bit_or_lowest a (t * 2) ∙ rw (half, e) (omega arith)

-- Numbers below 2 ^ k and multiples of 2 ^ k share no bit.
pub bit_or_disjoint : (k a b : ℕ) → a < 2 ^ k → bit_or a (b * 2 ^ k) ≡ a + b * 2 ^ k
bit_or_disjoint zero zero b h = zero-bit_or (b * 2 ^ 0) ∙ omega arith
bit_or_disjoint zero (suc a) b h = absurd (omega arith)
bit_or_disjoint (suc k) a b h =
    let power : b * 2 ^ suc k ≡ b * 2 ^ k * 2 =
      omega (arith, ap (λ (t : ℕ). b * t) (pow-suc 2 k)) in
    rw power (or_round a (b * 2 ^ k) (bit_or_disjoint k (a / 2) b (omega (arith, pow-suc 2 k))))

-- A mask of k ones keeps k digits.
mask_1 : (a : ℕ) → bit_and a 1 ≡ a % 2
mask_1 a = omega (arith, bit_and_lowest a 1, bit_and-right_zero (a / 2))

mask_2 : (a : ℕ) → bit_and a 3 ≡ a % 4
mask_2 a = omega (arith, bit_and_lowest a 3, mask_1 (a / 2))

mask_3 : (a : ℕ) → bit_and a 7 ≡ a % 8
mask_3 a = omega (arith, bit_and_lowest a 7, mask_2 (a / 2))

mask_4 : (a : ℕ) → bit_and a 15 ≡ a % 16
mask_4 a = omega (arith, bit_and_lowest a 15, mask_3 (a / 2))

mask_5 : (a : ℕ) → bit_and a 31 ≡ a % 32
mask_5 a = omega (arith, bit_and_lowest a 31, mask_4 (a / 2))

mask_6 : (a : ℕ) → bit_and a 63 ≡ a % 64
mask_6 a = omega (arith, bit_and_lowest a 63, mask_5 (a / 2))

mask_7 : (a : ℕ) → bit_and a 127 ≡ a % 128
mask_7 a = omega (arith, bit_and_lowest a 127, mask_6 (a / 2))

pub low_byte : (a : ℕ) → bit_and a 0xff ≡ a % 256
low_byte a = omega (arith, bit_and_lowest a 255, mask_7 (a / 2))
