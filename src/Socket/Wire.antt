-- ===== src/Socket/Wire.antt =====
-- src/ipc/socket_channel.cpp: the little-endian length prefix, the host name, the limit on a
-- variable-length message. A byte is a number below 256; `v >> 8` is `v / 2 ^ 8`.
use xproc.Prelude.{ℕ, ◌+◌, ◌*◌, ◌/◌, ◌%◌, ◌^◌, ◌<◌, ◌≡◌, ◌∙◌, List, [], ◌∷◌, bit_and, bit_or, arith}
use xproc.Prelude.Or.{bit_or_disjoint, low_byte}

abbrev pub k_max_varlen : ℕ
k_max_varlen = 16 * 1024 * 1024

abbrev pub IsByte : ℕ → Type 0
IsByte b = b < 256

unfoldable pub store_le32 : ℕ → List ℕ
store_le32 v =
    bit_and v 0xff
    ∷ bit_and (v / 2 ^ 8) 0xff
    ∷ bit_and (v / 2 ^ 16) 0xff
    ∷ bit_and (v / 2 ^ 24) 0xff
    ∷ []

-- The four bytes at `p`.
unfoldable pub load_le32 : ℕ → ℕ → ℕ → ℕ → ℕ
load_le32 b0 b1 b2 b3 = bit_or (bit_or (bit_or b0 (b1 * 2 ^ 8)) (b2 * 2 ^ 16)) (b3 * 2 ^ 24)

-- In plain arithmetic.
pub load_le32_lem :
    (b0 b1 b2 b3 : ℕ)
    → IsByte b0
    → IsByte b1
    → IsByte b2
    → load_le32 b0 b1 b2 b3 ≡ b0 + b1 * 256 + b2 * 65536 + b3 * 16777216
unfolding load_le32
load_le32_lem b0 b1 b2 b3 h0 h1 h2 =
    let e1 : bit_or b0 (b1 * 2 ^ 8) ≡ b0 + b1 * 2 ^ 8 = bit_or_disjoint 8 b0 b1 (omega arith) in
    let e2 : bit_or (b0 + b1 * 2 ^ 8) (b2 * 2 ^ 16) ≡ b0 + b1 * 2 ^ 8 + b2 * 2 ^ 16 =
      bit_or_disjoint 16 (b0 + b1 * 2 ^ 8) b2 (omega arith) in
    rw (e1, e2) (bit_or_disjoint 24 (b0 + b1 * 2 ^ 8 + b2 * 2 ^ 16) b3 (omega arith) ∙ omega arith)

pub store_le32_lem :
    (v : ℕ)
    → store_le32 v ≡ v % 256 ∷ (v / 256 % 256) ∷ (v / 65536 % 256) ∷ (v / 16777216 % 256) ∷ []
unfolding store_le32
store_le32_lem v =
    rw (low_byte v, low_byte (v / 2 ^ 8), low_byte (v / 2 ^ 16), low_byte (v / 2 ^ 24))

-- Reading back the prefix of a uint32 gives the number.
pub load-store_le32 :
    (v : ℕ)
    → v < 2 ^ 32
    → load_le32 (v % 256) (v / 256 % 256) (v / 65536 % 256) (v / 16777216 % 256) ≡ v
load-store_le32 v h =
    load_le32_lem (v % 256) (v / 256 % 256) (v / 65536 % 256) (v / 16777216 % 256) (omega arith)
      (omega arith) (omega arith)
    ∙ omega arith

-- Four bytes are the prefix of the number that they hold.
pub store-load_le32 :
    (b0 b1 b2 b3 : ℕ)
    → IsByte b0
    → IsByte b1
    → IsByte b2
    → IsByte b3
    → store_le32 (load_le32 b0 b1 b2 b3) ≡ b0 ∷ b1 ∷ b2 ∷ b3 ∷ []
store-load_le32 b0 b1 b2 b3 h0 h1 h2 h3 =
    let n : ℕ = b0 + b1 * 256 + b2 * 65536 + b3 * 16777216 in
    let e0 : n % 256 ≡ b0 = omega arith in
    let e1 : n / 256 % 256 ≡ b1 = omega arith in
    let e2 : n / 65536 % 256 ≡ b2 = omega arith in
    let e3 : n / 16777216 % 256 ≡ b3 = omega arith in
    rw (load_le32_lem b0 b1 b2 b3 h0 h1 h2, store_le32_lem) (rw (e0, e1, e2, e3))
