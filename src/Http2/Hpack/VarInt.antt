-- ===== src/Http2/Hpack/VarInt.antt =====
-- The integers of HPACK (JKYi/http2/hpack.cc, WriteVarInt and ReadVarInt), written and read back.
use jkyi.Base.{
  ℕ, zero, suc, ◌+◌, ◌-◌, ◌*◌, ◌/◌, ◌%◌, ◌^◌, ◌<◌, ◌≤◌, ◌≡◌, ◌∙◌, ap, refl, arith, List, [], ◌∷◌,
  length, ltb, if◌then◌else◌, size_sub, size_sub_le,
}
use jkyi.Base.Bits.{and_mask, or_fields, or_bound}
use Prim.Native.Nat.{bit_or}
use jkyi.Endian.{Endian}
use jkyi.ByteArray.{ByteArray, M, ok, ◌>>=◌, ◌>>◌, pure}
use jkyi.ByteArray.Inv.{IsValid}
use jkyi.ByteArray.Write.{Written}
use jkyi.Codec.{write_fuint8}
use jkyi.Codec.Reread.{WritesAs, write_then}
use jkyi.Codec.Fixed.{write_fuint8_lem}
use jkyi.Http2.Hpack.{counted, write_rest, write_var_int}
use native.Mathlib.Decide.{dec_lt}
use native.Mathlib.Nat.{pow-suc}

-- What `WriteVarInt` puts behind the first byte.
unfoldable pub rest_bytes : ℕ → ℕ → List ℕ
rest_bytes zero x = x ∷ []
rest_bytes (suc k) x =
    let more = rest_bytes k (x / 128) in if ltb x 128 then x ∷ [] else bit_or 8 (x % 128) ∷ more

pub rest_bytes_last : (k x : ℕ) → x < 128 → rest_bytes k x ≡ x ∷ []
unfolding rest_bytes
rest_bytes_last zero x h = refl
rest_bytes_last (suc k) x h = ground arith

rest_bytes_more :
    (k x : ℕ) → 128 ≤ x → rest_bytes (suc k) x ≡ bit_or 8 (x % 128) ∷ rest_bytes k (x / 128)
unfolding rest_bytes
rest_bytes_more k x h = ground arith

pub more_byte : (x : ℕ) → bit_or 8 (x % 128) < 128
more_byte x = or_bound 7 8 (x % 128) (omega arith) (omega arith)

module _ (host : Endian) where
  write_rest_last : (k x : ℕ) → x < 128 → write_rest host (suc k) x ≡ write_fuint8 host x
  unfolding write_rest
  write_rest_last k x h = ground arith

  write_rest_more :
      (k x : ℕ)
      → 128 ≤ x
      → write_rest host (suc k) x
        ≡ (write_fuint8 host (bit_or 8 (x % 128)) >> write_rest host k (x / 128))
  unfolding write_rest
  write_rest_more k x h = ground (arith, and_mask 7 x)

  write_rest_lem :
      (k x : ℕ) {ba : ByteArray}
      → IsValid ba
      → x < 128 ^ suc k
      → WritesAs (write_rest host (suc k) x) (rest_bytes k x) ba
  write_rest_lem zero x v h =
      rw (write_rest_last 0 x h, rest_bytes_last 0 x h) (write_fuint8_lem host x v (omega arith))
  write_rest_lem (suc k) x v h = elim (dec_lt x 128) [
    | yes last ↦
        rw (write_rest_last (suc k) x last, rest_bytes_last (suc k) x last)
          (write_fuint8_lem host x v (omega arith))
    | no more ↦
        rw (write_rest_more (suc k) x (omega arith), rest_bytes_more k x (omega arith))
          (write_then (write_fuint8 host (bit_or 8 (x % 128))) (write_rest host (suc k) (x / 128))
            (bit_or 8 (x % 128) ∷ []) (rest_bytes k (x / 128)) v
            (write_fuint8_lem host (bit_or 8 (x % 128)) v (omega (arith, more_byte x)))
            (λ mid u. write_rest_lem k (x / 128) u.valid (omega (arith, pow-suc 128 (suc k)))))
  ]

-- All of what `WriteVarInt` writes: the flags in the high bits of the first byte.
unfoldable pub var_int_bytes : ℕ → ℕ → ℕ → List ℕ
var_int_bytes prefix value flags =
    let v = 2 ^ prefix - 1 in
    let long = (v + flags) ∷ rest_bytes 9 (value - v) in
    if ltb value v then (value + flags) ∷ [] else long

-- What `WriteVarInt` does, with the number of bytes that it returns.
abbrev pub WritesVarInt : Endian → ℕ → ℕ → ℕ → ByteArray → Type 0
WritesVarInt host prefix value flags ba =
    (after : ByteArray) × (write_var_int host prefix value flags ba
      ≡ ok (length (var_int_bytes prefix value flags)) after)
    × Written (var_int_bytes prefix value flags) ba after

module _ (prefix value flags : ℕ) where
  pub var_int_bytes_short :
      value < 2 ^ prefix - 1 → var_int_bytes prefix value flags ≡ (value + flags) ∷ []
  unfolding var_int_bytes
  var_int_bytes_short l = ground arith

  pub var_int_bytes_long :
      2 ^ prefix - 1 ≤ value
      → var_int_bytes prefix value flags
        ≡ (2 ^ prefix - 1 + flags) ∷ rest_bytes 9 (value - (2 ^ prefix - 1))
  unfolding var_int_bytes
  var_int_bytes_long l = ground arith

  write_var_int_short :
      (host : Endian)
      → value < 2 ^ prefix - 1
      → write_var_int host prefix value flags ≡ (write_fuint8 host (bit_or value flags) >> pure 1)
  unfolding write_var_int
  write_var_int_short host l = ground arith

  write_var_int_long :
      (host : Endian)
      → 2 ^ prefix - 1 ≤ value
      → write_var_int host prefix value flags
        ≡ counted (
            write_fuint8 host (bit_or (2 ^ prefix - 1) flags)
            >> write_rest host 10 (value - (2 ^ prefix - 1)))
  unfolding write_var_int
  write_var_int_long host l = ground arith

-- A writer's bytes are what the position moves by.
pub counted_lem :
    (m : M (Unit {0})) (buf : List ℕ) (ba : ByteArray)
    → WritesAs m buf ba
    → (after : ByteArray) × (counted m ba ≡ ok (length buf) after) × Written buf ba after
counted_lem m buf ba (after, e, w) = (
  after,
  rw (e, ◌>>=◌)
      (ap (λ (n : ℕ). ok n after)
        (size_sub_moved ba.position after.position (length buf) w.position_lem)),
  w,
)
  where
    size_sub_moved : (p q n : ℕ) → q ≡ p + n → size_sub q p ≡ n
    size_sub_moved p q n e = size_sub_le q p (omega arith) ∙ omega arith

module _ (host : Endian) (prefix value q : ℕ) where
  pub write_var_int_lem :
      {ba : ByteArray}
      → IsValid ba
      → value < 2 ^ 64
      → 0 < 2 ^ prefix
      → 2 ^ prefix + q * 2 ^ prefix ≤ 256
      → WritesVarInt host prefix value (q * 2 ^ prefix) ba
  write_var_int_lem {ba} v small one fits = elim (dec_lt value (2 ^ prefix - 1)) [
    | yes l ↦
        let (after, e, w) = write_fuint8_lem host (value + q * 2 ^ prefix) v (omega arith) in
        rw
          (
            write_var_int_short prefix value (q * 2 ^ prefix) host l,
            var_int_bytes_short prefix value (q * 2 ^ prefix) l,
            or_fields prefix q value (omega arith),
          )
          (after, rw (e, ◌>>=◌) refl, w)
    | no l ↦
        rw
          (
            write_var_int_long prefix value (q * 2 ^ prefix) host (omega arith),
            var_int_bytes_long prefix value (q * 2 ^ prefix) (omega arith),
            or_fields prefix q (2 ^ prefix - 1) (omega arith),
          )
          (counted_lem
            (write_fuint8 host (2 ^ prefix - 1 + q * 2 ^ prefix)
              >> write_rest host 10 (value - (2 ^ prefix - 1)))
            ((2 ^ prefix - 1 + q * 2 ^ prefix) ∷ rest_bytes 9 (value - (2 ^ prefix - 1))) ba
            (write_then (write_fuint8 host (2 ^ prefix - 1 + q * 2 ^ prefix))
              (write_rest host 10 (value - (2 ^ prefix - 1)))
              ((2 ^ prefix - 1 + q * 2 ^ prefix) ∷ []) (rest_bytes 9 (value - (2 ^ prefix - 1))) v
              (write_fuint8_lem host (2 ^ prefix - 1 + q * 2 ^ prefix) v (omega arith))
              (λ mid u. write_rest_lem host 9 (value - (2 ^ prefix - 1)) u.valid (omega arith))))
  ]

pub rest_bytes_head :
    (k x : ℕ)
    → (tail : List ℕ) × (rest_bytes (suc k) x
        ≡ (if ltb x 128 then x else bit_or 8 (x % 128)) ∷ tail)
unfolding rest_bytes
rest_bytes_head k x = elim (dec_lt x 128) [
  | yes l ↦ ([], ground arith)
  | no l ↦ (rest_bytes k (x / 128), ground arith)
]
