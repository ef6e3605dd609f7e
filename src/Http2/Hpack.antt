-- ===== src/Http2/Hpack.antt =====
-- JKYi/http2/hpack.cc: the integers and strings of HPACK in the byte array. `prefix` is 4 to 7, as
-- in every call. `host` is the byte order of the machine.
pub mod VarInt
pub mod ReadBack
mod Runs
use jkyi.Base.{
  ℕ, zero, suc, ◌+◌, ◌-◌, ◌*◌, ◌/◌, ◌%◌, ◌^◌, Bool, true, false, List, [], ◌∷◌, ◌++◌, ltb, leb,
  ◌==◌, if◌then◌else◌, length, take, size_sub,
}
use Prim.Native.Nat.{bit_and, bit_or}
use jkyi.Endian.{Endian}
use jkyi.ByteArray.{ByteArray, M, ok, out_of_range, fault, ◌>>=◌, ◌>>◌, pure, write, read}
use jkyi.Codec.{write_fuint8, read_fuint8}

-- The functions that return `ba->getPosition() - pos`
abbrev pub counted : M (Unit {0}) → M ℕ
counted m ba = (m >> (λ after. ok (size_sub after.position ba.position) after)) ba

module _ (host : Endian) where
  -- The loop of `WriteVarInt` and the write behind it, for at most `rounds` bytes
  unfoldable pub write_rest : ℕ → ℕ → M (Unit {0})
  write_rest zero value = λ ba. fault
  write_rest (suc rounds) value =
      let more = write_rest rounds (value / 2 ^ 7) in
      if leb 128 value
      then write_fuint8 host (bit_or 0x8 (bit_and value 0x7f)) >> more
      else write_fuint8 host value

  -- A `uint64_t` has at most 10 groups of seven bits.
  unfoldable pub write_var_int : ℕ → ℕ → ℕ → M ℕ
  write_var_int prefix value flags =
      let v = 2 ^ prefix - 1 in
      if ltb value v
      then write_fuint8 host (bit_or value flags) >> pure 1
      else counted (write_fuint8 host (bit_or v flags) >> write_rest 10 (value - v))

  -- The loop of `ReadVarInt` at the shift `m`, with `rounds` shifts below 64 left; a shift by more
  -- is undefined.
  unfoldable pub read_rest : ℕ → ℕ → ℕ → M ℕ
  read_rest zero m iv = λ ba. fault
  read_rest (suc rounds) m iv = do
    b ← read_fuint8 host
    let next = (iv + bit_and b 0x7f * 2 ^ m % 2 ^ 64) % 2 ^ 64
    elim (bit_and b 0x80 == 0) [ true ↦ pure next | false ↦ read_rest rounds (m + 7) next ]

  -- `ReadVarInt(ba, b, prefix)`, for a first byte that is read already
  unfoldable pub read_var_int_after : ℕ → ℕ → M ℕ
  read_var_int_after b prefix =
      let v = (2 ^ prefix - 1) % 256 in
      let low = bit_and b v in if ltb low v then pure low else read_rest 10 0 v

  -- `ReadVarInt(ba, prefix)`: from there on it does the same, with `b` for `v`, which are equal
  -- there.
  unfoldable pub read_var_int : ℕ → M ℕ
  read_var_int prefix = do b ← read_fuint8 host; read_var_int_after b prefix
