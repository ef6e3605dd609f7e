-- ===== src/Codec/Zigzag.antt =====
-- Zigzag (JKYi/bytearray.cc, EncodeZigzag32 to DecodeZigzag64): integers as unsigned numbers.
use jkyi.Base.{ℕ, ◌+◌, ◌-◌, ◌*◌, ◌/◌, ◌%◌, ◌^◌, ◌<◌, ◌≡◌, ◌∙◌, ap, arith}
use jkyi.Base.Bits.{xor_ones, bit_xor-zero, and_mask}
use jkyi.Codec.{encode_zigzag32, encode_zigzag64, decode_zigzag32, decode_zigzag64}
use jkyi.Codec.Int.{ℤ, pos, negsuc, to_signed, Fits}
use Prim.Native.Nat.{bit_and, bit_xor}
use mathlib.Core.Path.{ap₂}
use native.Mathlib.Nat.{mod-eq_of_lt}

-- The numbers 0, -1, 1, -2, … in this order.
pub zigzag : ℤ → ℕ
zigzag (pos n) = 2 * n
zigzag (negsuc n) = 2 * n + 1

-- The encoders number the integers 0, -1, 1, -2, … from 0 on, on the whole range of the type.
pub encode_zigzag32_lem : (v : ℤ) → Fits (2 ^ 32) v → encode_zigzag32 v ≡ zigzag v
unfolding encode_zigzag32 zigzag
encode_zigzag32_lem (pos n) h = omega arith
encode_zigzag32_lem (negsuc n) h = omega arith

pub encode_zigzag64_lem : (v : ℤ) → Fits (2 ^ 64) v → encode_zigzag64 v ≡ zigzag v
unfolding encode_zigzag64 zigzag
encode_zigzag64_lem (pos n) h = omega arith
encode_zigzag64_lem (negsuc n) h = omega arith

low_even : (n : ℕ) → bit_and (2 * n) 1 ≡ 0
low_even n = omega (arith, and_mask 1 (2 * n))

low_odd : (n : ℕ) → bit_and (2 * n + 1) 1 ≡ 1
low_odd n = omega (arith, and_mask 1 (2 * n + 1))

-- `(val >> 1) ^ -(val & 1)` on the two kinds of numbers.
unsigned_even : (m n : ℕ) → 1 < m → bit_xor (2 * n / 2) ((m - bit_and (2 * n) 1) % m) ≡ n
unsigned_even m n h = ap₂ bit_xor half sign ∙ bit_xor-zero n
  where
    half : 2 * n / 2 ≡ n
    half = omega arith

    sign : (m - bit_and (2 * n) 1) % m ≡ 0
    sign = rw (low_even n) (grind arith)

unsigned_odd :
    (k n : ℕ)
    → 1 < 2 ^ k
    → n < 2 ^ k
    → bit_xor ((2 * n + 1) / 2) ((2 ^ k - bit_and (2 * n + 1) 1) % 2 ^ k) ≡ 2 ^ k - 1 - n
unsigned_odd k n h l = ap₂ bit_xor half sign ∙ xor_ones k n l
  where
    half : (2 * n + 1) / 2 ≡ n
    half = omega arith

    sign : (2 ^ k - bit_and (2 * n + 1) 1) % 2 ^ k ≡ 2 ^ k - 1
    sign = rw (low_odd n) (mod-eq_of_lt {n = 2 ^ k - 1} {m = 2 ^ k} (omega arith))

decode_zigzag32_lem : (v : ℤ) → Fits (2 ^ 32) v → decode_zigzag32 (zigzag v) ≡ v
unfolding decode_zigzag32 zigzag to_signed
decode_zigzag32_lem (pos n) h = rw (unsigned_even (2 ^ 32) n (omega arith)) (ground arith)
decode_zigzag32_lem (negsuc n) h = rw (unsigned_odd 32 n (omega arith) (omega arith)) (ground arith)

decode_zigzag64_lem : (v : ℤ) → Fits (2 ^ 64) v → decode_zigzag64 (zigzag v) ≡ v
unfolding decode_zigzag64 zigzag to_signed
decode_zigzag64_lem (pos n) h = rw (unsigned_even (2 ^ 64) n (omega arith)) (ground arith)
decode_zigzag64_lem (negsuc n) h = rw (unsigned_odd 64 n (omega arith) (omega arith)) (ground arith)

-- Decoding gives back every `int32_t` that was encoded.
pub decode-encode_zigzag32 : (v : ℤ) → Fits (2 ^ 32) v → decode_zigzag32 (encode_zigzag32 v) ≡ v
decode-encode_zigzag32 v h = ap decode_zigzag32 (encode_zigzag32_lem v h) ∙ decode_zigzag32_lem v h

-- Decoding gives back every `int64_t` that was encoded.
pub decode-encode_zigzag64 : (v : ℤ) → Fits (2 ^ 64) v → decode_zigzag64 (encode_zigzag64 v) ≡ v
decode-encode_zigzag64 v h = ap decode_zigzag64 (encode_zigzag64_lem v h) ∙ decode_zigzag64_lem v h

pub zigzag32-lt : (v : ℤ) → Fits (2 ^ 32) v → encode_zigzag32 v < 2 ^ 32
unfolding encode_zigzag32
zigzag32-lt (pos n) h = omega arith
zigzag32-lt (negsuc n) h = omega arith

pub zigzag64-lt : (v : ℤ) → Fits (2 ^ 64) v → encode_zigzag64 v < 2 ^ 64
unfolding encode_zigzag64
zigzag64-lt (pos n) h = omega arith
zigzag64-lt (negsuc n) h = omega arith
