-- ===== src/Codec/Strings.antt =====
-- Strings behind their length (JKYi/bytearray.cc, writeStringF16 to readStringVint). `resize` is
-- taken to find the memory that it asks for.
use jkyi.Base.{
  ℕ, ◌+◌, ◌^◌, ◌<◌, ◌≡◌, sym, ◌∙◌, arith, List, [], ◌++◌, append_assoc, append-nil, length,
}
use jkyi.Endian.{Endian, ordered, le_bytes}
use jkyi.ByteArray.{ByteArray, M, ok, fault, ◌>>=◌, ◌>>◌, write, read, set_position}
use jkyi.ByteArray.Inv.{IsValid}
use jkyi.ByteArray.Content.{unread}
use jkyi.ByteArray.Write.{write_lem}
use jkyi.ByteArray.Read.{read_prefix, unread-IsRead, read_none_at_end}
use jkyi.Codec.{
  write_fuint, read_fuint, write_uint64, read_uint64, write_string_f, read_string_f,
  write_string_vint, read_string_vint,
}
use jkyi.Codec.Varint.{groups}
use jkyi.Codec.Numbers.{write_uint64-groups, read_uint64_back}
use jkyi.Codec.Reread.{ReadsBack, WritesAs, reread, write_then, read_then}
use jkyi.Codec.Fixed.{write_fuint_wire, read_fuint_back, length-wire}
use native.Mathlib.Nat.{mod-eq_of_lt, one-le-pow}

-- The bytes of `len` and then the string, for any reader of lengths.
module _ (reader : M ℕ) (prefix value rest : List ℕ) {ba : ByteArray}
    (some_bytes : 0 < length value) (e : unread ba ≡ (prefix ++ value) ++ rest) where
  read_counted :
      ReadsBack reader prefix (length value) ba
      → ReadsBack (reader >>= λ len. read len) (prefix ++ value) value ba
  read_counted first =
      read_then reader (λ len. read len) prefix value (length value) value first
        (λ mid r.
          read_prefix value rest r.valid some_bytes
            (unread-IsRead prefix (value ++ rest) r (e ∙ append_assoc prefix value rest)))

module _ (host : Endian) where
  write_string_f_bytes :
      (w : ℕ) (value : List ℕ) {ba : ByteArray}
      → IsValid ba
      → length value < 256 ^ w
      → WritesAs
          (write_string_f host w value)
          (ordered ba.endian (le_bytes w (length value)) ++ value)
          ba
  unfolding write_string_f
  write_string_f_bytes w value {ba} v h = rw (mod-eq_of_lt h) (
      write_then (write_fuint host w (length value)) (write value)
        (ordered ba.endian (le_bytes w (length value))) value v
        (write_fuint_wire host w (length value) v) (λ mid u. write_lem value u.valid))

  -- A string that is not empty and whose length fits the `w` bytes of the length comes back.
  pub read-write_string_f :
      (w : ℕ) (value : List ℕ) {ba : ByteArray}
      → IsValid ba
      → 0 < w
      → 0 < length value
      → length value < 256 ^ w
      → (after : ByteArray) × ((write_string_f host w value
              >> (set_position ba.position >> read_string_f host w))
            ba
          ≡ ok value after)
        × IsValid after
        × (after.position
            ≡ ba.position + length (ordered ba.endian (le_bytes w (length value)) ++ value))
  unfolding read_string_f
  read-write_string_f w value {ba} v pos some_bytes h =
      reread (write_string_f host w value) (read_string_f host w)
        (ordered ba.endian (le_bytes w (length value)) ++ value) value v
        (write_string_f_bytes w value v h)
        (λ back r.
          read_counted (read_fuint host w) (ordered ba.endian (le_bytes w (length value))) value
            r.begins.0 some_bytes r.begins.1
            (rw (← r.same_endian) (
              read_fuint_back host w (length value) (value ++ r.begins.0) r.valid pos h
                (rw r.same_endian (r.begins.1 ∙ append_assoc _ value r.begins.0)))))

  write_string_vint_bytes :
      (value : List ℕ) {ba : ByteArray}
      → IsValid ba
      → length value < 2 ^ 64
      → WritesAs (write_string_vint value) (groups 9 (length value) ++ value) ba
  unfolding write_string_vint
  write_string_vint_bytes value v h =
      write_then (write_uint64 (length value)) (write value) (groups 9 (length value)) value v
        (write_uint64-groups (length value) v h) (λ mid u. write_lem value u.valid)

  -- A string that is not empty, of less than 2 ^ 64 bytes, comes back behind a length of variable
  -- size.
  pub read-write_string_vint :
      (value : List ℕ) {ba : ByteArray}
      → IsValid ba
      → 0 < length value
      → length value < 2 ^ 64
      → (after : ByteArray) × ((write_string_vint value
              >> (set_position ba.position >> read_string_vint host))
            ba
          ≡ ok value after)
        × IsValid after
        × (after.position ≡ ba.position + length (groups 9 (length value) ++ value))
  unfolding read_string_vint
  read-write_string_vint value {ba} v some_bytes h =
      reread (write_string_vint value) (read_string_vint host) (groups 9 (length value) ++ value)
        value v (write_string_vint_bytes value v h)
        (λ back r.
          read_counted (read_uint64 host) (groups 9 (length value)) value r.begins.0 some_bytes
            r.begins.1
            (read_uint64_back host (length value) (value ++ r.begins.0) r.valid h
              (r.begins.1 ∙ append_assoc _ value r.begins.0)))

  -- An empty string whose length ends exactly at the end of the last node cannot be read: the read
  -- of its 0 bytes goes through a null pointer.
  pub read_string_f-empty_at_end :
      (w : ℕ) {ba : ByteArray}
      → IsValid ba
      → 0 < w
      → unread ba ≡ ordered ba.endian (le_bytes w 0)
      → ba.position + w ≡ ba.capacity
      → read_string_f host w ba ≡ fault
  unfolding read_string_f
  read_string_f-empty_at_end w {ba} v pos e at_end =
      let (mid, r, i) =
        read_fuint_back host w 0 [] v pos (one-le-pow w 256 (omega arith))
          (e ∙ sym (append-nil _)) in
      rw (r, ◌>>=◌)
        (read_none_at_end i.valid
          (omega (arith, i.position_lem, i.same_capacity, at_end, length-wire host ba.endian w 0)))
