-- ===== src/Codec/Fixed.antt =====
-- Numbers of a fixed width (JKYi/bytearray.cc, writeFint8 to readFuint64).
use jkyi.Base.{
  ℕ, suc, ◌+◌, ◌*◌, ◌^◌, ◌<◌, ◌≡◌, sym, ◌∙◌, ap, arith, List, [], ◌∷◌, ◌++◌, length, if◌then◌else◌,
}
use jkyi.Endian.{
  Endian, little, big, same_order, byteswap, le_bytes, from_le, ordered, from_memory,
  length-ordered, length-le_bytes, to_memory_order, to_memory, from_memory_order,
}
use jkyi.ByteArray.{ByteArray, ok, ◌>>=◌, ◌>>◌, pure, write, read, set_position}
use jkyi.ByteArray.Inv.{IsValid}
use jkyi.ByteArray.Content.{unread}
use jkyi.ByteArray.Write.{Written, write_lem}
use jkyi.ByteArray.Read.{read_prefix}
use jkyi.Codec.{write_fuint, write_fuint8, read_fuint, read_fuint8, write_fint, read_fint}
use jkyi.Codec.Int.{ℤ, Fits, to_unsigned, to_signed, to_signed-to_unsigned, to_unsigned-lt}
use jkyi.Codec.Reread.{ReadsBack, WritesAs, reread, then_also}
use native.Mathlib.Nat.{pow-suc, one-le-pow}

module _ (host : Endian) where
  write_fuint_bytes :
      (w val : ℕ) (ba : ByteArray)
      → write_fuint host w val ba ≡ write (ordered ba.endian (le_bytes w val)) ba
  unfolding write_fuint
  write_fuint_bytes w val ba =
      ap (λ (bytes : List ℕ). write bytes ba) (to_memory_order host ba.endian w val)

  -- A number of `w` bytes goes out in the byte order that the array is set to, on either host, and
  -- takes `w` bytes from the position on.
  pub write_fuint_wire :
      (w val : ℕ) {ba : ByteArray}
      → IsValid ba
      → (after : ByteArray) × (write_fuint host w val ba ≡ ok tt after)
        × Written (ordered ba.endian (le_bytes w val)) ba after
  write_fuint_wire w val {ba} v =
      let (after, e, written) = write_lem (ordered ba.endian (le_bytes w val)) v in
      (after, write_fuint_bytes w val ba ∙ e, written)

  pub length-wire : (e : Endian) (w val : ℕ) → length (ordered e (le_bytes w val)) ≡ w
  length-wire e w val = length-ordered e (le_bytes w val) ∙ length-le_bytes w val

  -- What `read_fuint` makes of the bytes, in an array of the order `e`.
  as_number : ℕ → List ℕ → Endian → ℕ
  as_number w bytes e =
      let val = from_memory host bytes in if same_order e host then val else byteswap w val

  read_fuint_bytes :
      (w : ℕ) (bytes : List ℕ) (ba : ByteArray) {after : ByteArray}
      → read w ba ≡ ok bytes after
      → read_fuint host w ba ≡ ok (as_number w bytes after.endian) after
  unfolding read_fuint as_number
  read_fuint_bytes w bytes ba e = rw (e, ◌>>=◌)

  pub read_fuint_back :
      (w val : ℕ) (rest : List ℕ) {ba : ByteArray}
      → IsValid ba
      → 0 < w
      → val < 256 ^ w
      → unread ba ≡ ordered ba.endian (le_bytes w val) ++ rest
      → ReadsBack (read_fuint host w) (ordered ba.endian (le_bytes w val)) val ba
  read_fuint_back w val rest {ba} v pos fits e =
      let bytes = ordered ba.endian (le_bytes w val) in
      let (after, r, i) = read_prefix bytes rest v (rw length-wire pos) e in
      (
        after,
        read_fuint_bytes w bytes ba
              (ap (λ (n : ℕ). read n ba) (sym (length-wire ba.endian w val)) ∙ r)
            ∙ ap (λ (o : Endian). ok (as_number w bytes o) after) i.same_endian
            ∙ ap (λ (n : ℕ). ok n after)
                (unfold as_number in from_memory_order host ba.endian w val fits),
        i,
      )

  -- A number of `w` bytes that is written, and read from where it was written, comes back, in
  -- either byte order and on either host; the position is then behind it.
  pub read-write_fuint :
      (w val : ℕ) {ba : ByteArray}
      → IsValid ba
      → 0 < w
      → val < 256 ^ w
      → (after : ByteArray) × ((write_fuint host w val
              >> (set_position ba.position >> read_fuint host w))
            ba
          ≡ ok val after)
        × IsValid after
        × (after.position ≡ ba.position + w)
  read-write_fuint w val {ba} v pos fits =
      let (after, e, v', p) =
        reread (write_fuint host w val) (read_fuint host w) (ordered ba.endian (le_bytes w val)) val
          v (write_fuint_wire w val v)
          (λ back r.
            rw (← r.same_endian)
              (read_fuint_back w val r.begins.0 r.valid pos fits (rw r.same_endian r.begins.1))) in
      (after, e, v', p ∙ ap (λ (n : ℕ). ba.position + n) (length-wire ba.endian w val))

  pub write_fuint8_lem :
      (b : ℕ) {ba : ByteArray} → IsValid ba → b < 256 → WritesAs (write_fuint8 host b) (b ∷ []) ba
  unfolding write_fuint8
  write_fuint8_lem b v h = rw (one_byte host) (write_lem (b ∷ []) v)
    where
      one_byte : (host : Endian) → to_memory host 1 b ≡ b ∷ []
      one_byte little = unfold to_memory ordered le_bytes in ap (λ (n : ℕ). n ∷ []) (omega arith)
      one_byte big = unfold to_memory ordered le_bytes in ap (λ (n : ℕ). n ∷ []) (omega arith)

  -- One byte.
  pub read_fuint8_back :
      (b : ℕ) (rest : List ℕ) {ba : ByteArray}
      → IsValid ba
      → unread ba ≡ b ∷ rest
      → ReadsBack (read_fuint8 host) (b ∷ []) b ba
  unfolding read_fuint8
  read_fuint8_back b rest v e =
      let (after, r, i) = read_prefix (b ∷ []) rest v (omega arith) e in
      (after, rw (r, ◌>>=◌) (ap (λ (n : ℕ). ok n after) (from_memory_byte host b)), i)
    where
      from_memory_byte : (host : Endian) (b : ℕ) → from_memory host (b ∷ []) ≡ b
      from_memory_byte little b = unfold from_memory ordered from_le in omega arith
      from_memory_byte big b = unfold from_memory ordered from_le in omega arith

  -- A signed integer that fits `w` bytes, written and read from where it was written, comes back.
  pub read-write_fint :
      (w : ℕ) (val : ℤ) {ba : ByteArray}
      → IsValid ba
      → Fits (256 ^ suc w) val
      → (after : ByteArray) × ((write_fint host (suc w) val
              >> (set_position ba.position >> read_fint host (suc w)))
            ba
          ≡ ok val after)
        × IsValid after
        × (after.position ≡ ba.position + suc w)
  unfolding write_fint read_fint
  read-write_fint w val {ba} v fits =
      let m = 256 ^ suc w in
      let even : m ≡ 256 ^ w * 128 * 2 = omega (arith, pow-suc 256 w) in
      let (after, e, v', p) =
        read-write_fuint (suc w) (to_unsigned m val) v (omega arith)
          (to_unsigned-lt m val (one-le-pow (suc w) 256 (omega arith))) in
      (
        after,
        then_also (write_fint host (suc w) val) (set_position ba.position) (read_fuint host (suc w))
              (λ (x : ℕ). pure (to_signed m x)) ba
            ∙ rw (e, ◌>>=◌)
                (ap (λ (z : ℤ). ok z after)
                  (to_signed-to_unsigned m (256 ^ w * 128) val even fits)),
        v',
        p,
      )
