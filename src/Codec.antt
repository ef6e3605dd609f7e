-- ===== src/Codec.antt =====
-- JKYi/bytearray.h, bytearray.cc: numbers and strings in the byte array. A `uintN_t` is a number
-- below 2 ^ N, an `intN_t` an integer; a `std::string` is the list of its bytes. `host` is the byte
-- order of the machine (JKYI_BYTE_ORDER).
pub mod Int
pub mod Zigzag
pub mod Varint
pub mod Reread
pub mod Fixed
pub mod Numbers
pub mod Strings
mod Runs
use Prim.Native.Nat.{bit_and, bit_or, bit_xor}
use jkyi.Base.{
  ℕ, zero, suc, ◌+◌, ◌-◌, ◌*◌, ◌/◌, ◌%◌, ◌^◌, true, false, Option, none, some, List, [], ◌∷◌, ltb,
  leb, if◌then◌else◌, length,
}
use jkyi.Endian.{Endian, same_order, byteswap, to_memory, from_memory}
use jkyi.ByteArray.{ByteArray, M, ok, fault, ◌>>=◌, ◌>>◌, pure, write, read}
use Int.{ℤ, pos, negsuc, to_unsigned, to_signed}

module _ (host : Endian) where
  -- `writeFuint16`, `writeFuint32` and `writeFuint64`, for `w` of 2, 4 and 8
  unfoldable pub write_fuint : ℕ → ℕ → M (Unit {0})
  write_fuint w val ba =
      write (to_memory host w (if same_order ba.endian host then val else byteswap w val)) ba

  unfoldable pub write_fuint8 : ℕ → M (Unit {0})
  write_fuint8 val = write (to_memory host 1 val)

  -- `writeFint8` to `writeFint64`: the same on the bits of the integer
  unfoldable pub write_fint : ℕ → ℤ → M (Unit {0})
  write_fint w val = write_fuint w (to_unsigned (256 ^ w) val)

  unfoldable pub write_fint8 : ℤ → M (Unit {0})
  write_fint8 val = write_fuint8 (to_unsigned 256 val)

  -- `readFuint16`, `readFuint32` and `readFuint64` (the macro XX)
  in_order : ℕ → List ℕ → M ℕ
  in_order w bytes ba =
      let val = from_memory host bytes in
      ok (if same_order ba.endian host then val else byteswap w val) ba

  unfoldable pub read_fuint : ℕ → M ℕ
  unfolding in_order
  read_fuint w = do bytes ← read w; in_order w bytes

  unfoldable pub read_fuint8 : M ℕ
  read_fuint8 = do bytes ← read 1; pure (from_memory host bytes)

  unfoldable pub read_fint : ℕ → M ℤ
  read_fint w = do val ← read_fuint w; pure (to_signed (256 ^ w) val)

  unfoldable pub read_fint8 : M ℤ
  read_fint8 = do val ← read_fuint8; pure (to_signed 256 val)

  -- The loop of `readUint32` and `readUint64` at the shift `i`, with `rounds` values of `i` left;
  -- a number of the result has `bits` bits.
  unfoldable pub read_uint_loop : ℕ → ℕ → ℕ → ℕ → M ℕ
  read_uint_loop bits zero i result = pure result
  read_uint_loop bits (suc rounds) i result = do
    val ← read_fuint8
    elim (ltb val 0x80) [
      | true ↦ pure (bit_or result (val * 2 ^ i % 2 ^ bits))
      | false ↦
          read_uint_loop bits rounds (i + 7) (bit_or result (bit_and val 0x7f * 2 ^ i % 2 ^ bits))
    ]

-- `EncodeZigzag32`, `EncodeZigzag64`, `DecodeZigzag32` and `DecodeZigzag64`. `-val` and `val * 2`
-- wrap, as they do in the two's complement of the compilers used.
unfoldable pub encode_zigzag32 : ℤ → ℕ
encode_zigzag32 (negsuc n) = (suc n % 2 ^ 32 * 2 + 2 ^ 32 - 1) % 2 ^ 32
encode_zigzag32 (pos n) = n * 2 % 2 ^ 32

unfoldable pub encode_zigzag64 : ℤ → ℕ
encode_zigzag64 (negsuc n) = (suc n % 2 ^ 64 * 2 + 2 ^ 64 - 1) % 2 ^ 64
encode_zigzag64 (pos n) = n * 2 % 2 ^ 64

unfoldable pub decode_zigzag32 : ℕ → ℤ
decode_zigzag32 val = to_signed (2 ^ 32) (bit_xor (val / 2) ((2 ^ 32 - bit_and val 1) % 2 ^ 32))

unfoldable pub decode_zigzag64 : ℕ → ℤ
decode_zigzag64 val = to_signed (2 ^ 64) (bit_xor (val / 2) ((2 ^ 64 - bit_and val 1) % 2 ^ 64))

-- The loop of `writeUint32` and `writeUint64` on what is free of `tmp`. `none`: a write past its
-- end.
unfoldable pub varint_bytes : ℕ → ℕ → Option (List ℕ)
varint_bytes zero val = none
varint_bytes (suc free) val =
    let more = varint_bytes free (val / 2 ^ 7) in
    if leb 0x80 val
    then elim more [ none ↦ none | some bytes ↦ some (bit_or (bit_and val 0x7f) 0x80 ∷ bytes) ]
    else some (val ∷ [])

write_all : Option (List ℕ) → M (Unit {0})
write_all none ba = fault
write_all (some bytes) ba = write bytes ba

unfoldable pub write_uint32 : ℕ → M (Unit {0})
unfolding write_all
write_uint32 val = write_all (varint_bytes 5 val)

unfoldable pub write_uint64 : ℕ → M (Unit {0})
unfolding write_all
write_uint64 val = write_all (varint_bytes 10 val)

unfoldable pub write_int32 : ℤ → M (Unit {0})
write_int32 val = write_uint32 (encode_zigzag32 val)

unfoldable pub write_int64 : ℤ → M (Unit {0})
write_int64 val = write_uint64 (encode_zigzag64 val)

module _ (host : Endian) where
  unfoldable pub read_uint32 : M ℕ
  read_uint32 = read_uint_loop host 32 5 0 0

  unfoldable pub read_uint64 : M ℕ
  read_uint64 = read_uint_loop host 64 10 0 0

  unfoldable pub read_int32 : M ℤ
  read_int32 = do val ← read_uint32; pure (decode_zigzag32 val)

  unfoldable pub read_int64 : M ℤ
  read_int64 = do val ← read_uint64; pure (decode_zigzag64 val)

  -- `writeStringF16`, `writeStringF32`, `writeStringF64` and their readers, for `w` of 2, 4 and 8
  unfoldable pub write_string_f : ℕ → List ℕ → M (Unit {0})
  write_string_f w value = do write_fuint host w (length value % 256 ^ w); write value

  unfoldable pub read_string_f : ℕ → M (List ℕ)
  read_string_f w = do len ← read_fuint host w; read len

  unfoldable pub read_string_vint : M (List ℕ)
  read_string_vint = do len ← read_uint64; read len

unfoldable pub write_string_vint : List ℕ → M (Unit {0})
write_string_vint value = do write_uint64 (length value); write value

unfoldable pub write_string_without_length : List ℕ → M (Unit {0})
write_string_without_length value = write value
