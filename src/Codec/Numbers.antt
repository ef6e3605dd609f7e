-- ===== src/Codec/Numbers.antt =====
-- The variable-length numbers and the strings, written and read back (JKYi/bytearray.cc,
-- writeInt32 to readStringVint).
use jkyi.Base.{ℕ, ◌+◌, ◌^◌, ◌≤◌, ◌<◌, ◌≡◌, ◌∙◌, ap, arith, List, ◌++◌}
use jkyi.Endian.{Endian}
use jkyi.ByteArray.{ByteArray, ok, ◌>>=◌, ◌>>◌, pure, set_position}
use jkyi.ByteArray.Inv.{IsValid}
use jkyi.ByteArray.Content.{unread}
use jkyi.ByteArray.Write.{write_lem}
use jkyi.Codec.{
  write_uint32, write_uint64, write_int32, write_int64, read_uint32, read_uint64, read_int32,
  read_int64, encode_zigzag32, encode_zigzag64, decode_zigzag32, decode_zigzag64,
}
use jkyi.Codec.Int.{ℤ, Fits}
use jkyi.Codec.Zigzag.{decode-encode_zigzag32, decode-encode_zigzag64, zigzag32-lt, zigzag64-lt}
use jkyi.Codec.Varint.{groups, varint_bytes-groups, length-groups, read_groups}
use jkyi.Codec.Reread.{ReadsBack, WritesAs, reread, then_also}

write_uint32-groups :
    (val : ℕ) {ba : ByteArray}
    → IsValid ba
    → val < 2 ^ 32
    → WritesAs (write_uint32 val) (groups 4 val) ba
unfolding write_uint32
write_uint32-groups val v h =
    rw (varint_bytes-groups 4 val (omega arith)) (write_lem (groups 4 val) v)

pub write_uint64-groups :
    (val : ℕ) {ba : ByteArray}
    → IsValid ba
    → val < 2 ^ 64
    → WritesAs (write_uint64 val) (groups 9 val) ba
unfolding write_uint64
write_uint64-groups val v h =
    rw (varint_bytes-groups 9 val (omega arith)) (write_lem (groups 9 val) v)

module _ (host : Endian) where
  read_uint32_back :
      (val : ℕ) (rest : List ℕ) {ba : ByteArray}
      → IsValid ba
      → val < 2 ^ 32
      → unread ba ≡ groups 4 val ++ rest
      → ReadsBack (read_uint32 host) (groups 4 val) val ba
  unfolding read_uint32
  read_uint32_back val rest v h e =
      let (after, r, i) =
        read_groups host 32 4 val 0 0 rest v (omega arith) (omega arith) (omega arith) e in
      (after, r ∙ ap (λ (n : ℕ). ok n after) (omega arith), i)

  pub read_uint64_back :
      (val : ℕ) (rest : List ℕ) {ba : ByteArray}
      → IsValid ba
      → val < 2 ^ 64
      → unread ba ≡ groups 9 val ++ rest
      → ReadsBack (read_uint64 host) (groups 9 val) val ba
  unfolding read_uint64
  read_uint64_back val rest v h e =
      let (after, r, i) =
        read_groups host 64 9 val 0 0 rest v (omega arith) (omega arith) (omega arith) e in
      (after, r ∙ ap (λ (n : ℕ). ok n after) (omega arith), i)

  -- Every `uint32_t` that is written in variable length comes back, and takes 1 to 5 bytes.
  pub read-write_uint32 :
      (val : ℕ) {ba : ByteArray}
      → IsValid ba
      → val < 2 ^ 32
      → (after : ByteArray) × ((write_uint32 val >> (set_position ba.position >> read_uint32 host))
            ba
          ≡ ok val after)
        × IsValid after
        × (ba.position < after.position)
        × (after.position ≤ ba.position + 5)
  read-write_uint32 val {ba} v h =
      let (after, e, v', p) =
        reread (write_uint32 val) (read_uint32 host) (groups 4 val) val v
          (write_uint32-groups val v h)
          (λ back r. read_uint32_back val r.begins.0 r.valid h r.begins.1) in
      (after, e, v', omega (arith, length-groups 4 val, p), omega (arith, length-groups 4 val, p))

  -- Every `uint64_t` that is written in variable length comes back, and takes 1 to 10 bytes.
  pub read-write_uint64 :
      (val : ℕ) {ba : ByteArray}
      → IsValid ba
      → val < 2 ^ 64
      → (after : ByteArray) × ((write_uint64 val >> (set_position ba.position >> read_uint64 host))
            ba
          ≡ ok val after)
        × IsValid after
        × (ba.position < after.position)
        × (after.position ≤ ba.position + 10)
  read-write_uint64 val {ba} v h =
      let (after, e, v', p) =
        reread (write_uint64 val) (read_uint64 host) (groups 9 val) val v
          (write_uint64-groups val v h)
          (λ back r. read_uint64_back val r.begins.0 r.valid h r.begins.1) in
      (after, e, v', omega (arith, length-groups 9 val, p), omega (arith, length-groups 9 val, p))

  -- Every `int32_t` comes back, the negative ones too, and takes 1 to 5 bytes.
  pub read-write_int32 :
      (val : ℤ) {ba : ByteArray}
      → IsValid ba
      → Fits (2 ^ 32) val
      → (after : ByteArray) × ((write_int32 val >> (set_position ba.position >> read_int32 host)) ba
          ≡ ok val after)
        × IsValid after
        × (after.position ≤ ba.position + 5)
  unfolding write_int32 read_int32
  read-write_int32 val {ba} v h =
      let code = encode_zigzag32 val in
      let (after, e, v', lo, hi) = read-write_uint32 code v (zigzag32-lt val h) in
      (
        after,
        then_also (write_uint32 code) (set_position ba.position) (read_uint32 host)
              (λ (n : ℕ). pure (decode_zigzag32 n)) ba
            ∙ rw (e, ◌>>=◌) (ap (λ (z : ℤ). ok z after) (decode-encode_zigzag32 val h)),
        v',
        hi,
      )

  -- Every `int64_t` comes back, and takes 1 to 10 bytes.
  pub read-write_int64 :
      (val : ℤ) {ba : ByteArray}
      → IsValid ba
      → Fits (2 ^ 64) val
      → (after : ByteArray) × ((write_int64 val >> (set_position ba.position >> read_int64 host)) ba
          ≡ ok val after)
        × IsValid after
        × (after.position ≤ ba.position + 10)
  unfolding write_int64 read_int64
  read-write_int64 val {ba} v h =
      let code = encode_zigzag64 val in
      let (after, e, v', lo, hi) = read-write_uint64 code v (zigzag64-lt val h) in
      (
        after,
        then_also (write_uint64 code) (set_position ba.position) (read_uint64 host)
              (λ (n : ℕ). pure (decode_zigzag64 n)) ba
            ∙ rw (e, ◌>>=◌) (ap (λ (z : ℤ). ok z after) (decode-encode_zigzag64 val h)),
        v',
        hi,
      )
