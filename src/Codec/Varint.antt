-- ===== src/Codec/Varint.antt =====
-- Variable-length numbers (JKYi/bytearray.cc, writeUint32 to readUint64): seven bits a byte, lowest
-- first, the top bit set on all bytes but the last.
use jkyi.Base.{
  ℕ, zero, suc, ◌+◌, ◌*◌, ◌/◌, ◌%◌, ◌^◌, ◌≤◌, ◌<◌, ◌≡◌, ◌∙◌, ap, arith, some, List, [], ◌∷◌, ◌++◌,
  ltb, if◌then◌else◌, length, lt→ltb, le→ltb-false,
}
use jkyi.Base.Bits.{and_mask, or_fields}
use jkyi.Endian.{Endian}
use jkyi.ByteArray.{ByteArray, ok, ◌>>=◌}
use jkyi.ByteArray.Inv.{IsValid}
use jkyi.ByteArray.Content.{unread}
use jkyi.ByteArray.Read.{IsRead, IsRead-suc, unread-IsRead}
use jkyi.Codec.{varint_bytes, read_uint_loop}
use jkyi.Codec.Reread.{ReadsBack}
use jkyi.Codec.Fixed.{read_fuint8_back}
use Prim.Native.Nat.{bit_and, bit_or}
use native.Mathlib.Nat.{mod-eq_of_lt, div-add-mod, pow-suc}
use native.Mathlib.Numerals.{towards_suc}
use native.Mathlib.Decide.{dec_lt}

-- The groups of seven bits of a number below 128 ^ (k + 1).
unfoldable pub groups : ℕ → ℕ → List ℕ
groups zero v = v ∷ []
groups (suc k) v =
    let rest = groups k (v / 128) in if ltb v 128 then v ∷ [] else (v % 128 + 128) ∷ rest

groups_last : (k v : ℕ) → v < 128 → groups (suc k) v ≡ v ∷ []
unfolding groups
groups_last k v h = ground arith

groups_more : (k v : ℕ) → ¬ (v < 128) → groups (suc k) v ≡ (v % 128 + 128) ∷ groups k (v / 128)
unfolding groups
groups_more k v h = ground arith

-- `(val & 0x7f) | 0x80`
inner_byte : (v : ℕ) → bit_or (bit_and v 0x7f) 0x80 ≡ v % 128 + 128
inner_byte v = rw (and_mask 7 v) (or_fields 7 1 (v % 128) (omega arith))

-- The `tmp` array is large enough: with room for k + 1 bytes the loop writes a number below
-- 128 ^ (k + 1) as its groups, and never past the end.
pub varint_bytes-groups : (k v : ℕ) → v < 128 ^ suc k → varint_bytes (suc k) v ≡ some (groups k v)
unfolding varint_bytes groups
varint_bytes-groups zero v h = ground arith
varint_bytes-groups (suc k) v h =
    ground
      (arith, inner_byte v, varint_bytes-groups k (v / 128) (omega (arith, pow-suc 128 (suc k))))

pub length-groups : (k v : ℕ) → (0 < length (groups k v)) × (length (groups k v) ≤ suc k)
unfolding groups
length-groups zero v = omega arith
length-groups (suc k) v = ground (arith, length-groups k (v / 128))

shift_seven : (i : ℕ) → 2 ^ (i + 7) ≡ 128 * 2 ^ i
shift_seven i = simp towards_suc (omega arith)

-- The lowest group of `w` and the others, both shifted.
shifted_groups : (w i : ℕ) → w * 2 ^ i ≡ w % 128 * 2 ^ i + w / 128 * 2 ^ (i + 7)
shifted_groups w i = omega (
  arith,
  ap (λ (t : ℕ). t * 2 ^ i) (div-add-mod w 128),
  ap (λ (t : ℕ). w / 128 * t) (shift_seven i),
)

next_small : (g i result : ℕ) → result < 2 ^ i → g < 128 → result + g * 2 ^ i < 2 ^ (i + 7)
next_small g i result h l = rw (shift_seven i) (grind arith)

module _ (host : Endian) (bits : ℕ) where
  -- One group, `g`, joins the result.
  joined :
      (g i result : ℕ)
      → result < 2 ^ i
      → result + g * 2 ^ i < 2 ^ bits
      → bit_or result (g * 2 ^ i % 2 ^ bits) ≡ result + g * 2 ^ i
  joined g i result small fits =
      ap (bit_or result) (mod-eq_of_lt {n = g * 2 ^ i} {m = 2 ^ bits} (omega arith))
      ∙ or_fields i g result small

  last_group :
      (rounds w i result : ℕ) (rest : List ℕ) {ba : ByteArray}
      → IsValid ba
      → w < 128
      → result < 2 ^ i
      → result + w * 2 ^ i < 2 ^ bits
      → unread ba ≡ w ∷ rest
      → ReadsBack (read_uint_loop host bits (suc rounds) i result) (w ∷ []) (result + w * 2 ^ i) ba
  unfolding read_uint_loop
  last_group rounds w i result rest v hw small fits e =
      let (after, r, ir) = read_fuint8_back host w rest v e in
      (
        after,
        rw (r, ◌>>=◌)
            (rw (lt→ltb w 128 hw) (ap (λ (n : ℕ). ok n after) (joined w i result small fits))),
        ir,
      )

  inner_group :
      (rounds g i result : ℕ) (rest : List ℕ) {ba : ByteArray}
      → IsValid ba
      → g < 128
      → result < 2 ^ i
      → result + g * 2 ^ i < 2 ^ bits
      → unread ba ≡ (g + 128) ∷ rest
      → (mid : ByteArray) × (read_uint_loop host bits (suc rounds) i result ba
          ≡ read_uint_loop host bits rounds (i + 7) (result + g * 2 ^ i) mid)
        × IsRead 1 ba mid
  unfolding read_uint_loop
  inner_group rounds g i result rest v hg small fits e =
      let (mid, r, ir) = read_fuint8_back host (g + 128) rest v e in
      (
        mid,
        rw (r, ◌>>=◌)
            (rw (le→ltb-false (g + 128) 128 (omega arith)) (
              ap (λ (n : ℕ). read_uint_loop host bits rounds (i + 7) n mid)
                (ap (λ (m : ℕ). bit_or result (m * 2 ^ i % 2 ^ bits)) low
                  ∙ joined g i result small fits))),
        ir,
      )
    where
      low : bit_and (g + 128) 0x7f ≡ g
      low = omega (arith, and_mask 7 (g + 128))

  -- The reader's loop on the groups of `w`, which counts from bit `i` on.
  pub read_groups :
      (k w i result : ℕ) (rest : List ℕ) {ba : ByteArray}
      → IsValid ba
      → w < 128 ^ suc k
      → result < 2 ^ i
      → result + w * 2 ^ i < 2 ^ bits
      → unread ba ≡ groups k w ++ rest
      → ReadsBack (read_uint_loop host bits (suc k) i result) (groups k w) (result + w * 2 ^ i) ba
  read_groups zero w i result rest v hw small fits e =
      unfold groups in last_group 0 w i result rest v (omega arith) small fits e
  read_groups (suc k) w i result rest {ba} v hw small fits e = elim (dec_lt w 128) [
    | yes last ↦ rw (groups_last k w last) (
        last_group (suc k) w i result rest v last small fits
          (e ∙ ap (λ (r : List ℕ). r ++ rest) (groups_last k w last)))
    | no more ↦
        let g = w % 128 in
        let next = result + g * 2 ^ i in
        let (mid, step, one) =
          inner_group (suc k) g i result (groups k (w / 128) ++ rest) v (omega arith) small
            (omega (arith, shifted_groups w i))
            (e ∙ ap (λ (r : List ℕ). r ++ rest) (groups_more k w more)) in
        let (after, r, others) =
          read_groups k (w / 128) (i + 7) next rest one.valid (omega (arith, pow-suc 128 (suc k)))
            (next_small g i result small (omega arith)) (omega (arith, shifted_groups w i))
            (unread-IsRead ((g + 128) ∷ []) (groups k (w / 128) ++ rest) one
              (e ∙ ap (λ (r : List ℕ). r ++ rest) (groups_more k w more))) in
        rw (groups_more k w more) (
          after,
          step ∙ r ∙ ap (λ (n : ℕ). ok n after) (omega (arith, shifted_groups w i)),
          IsRead-suc one others,
        )
  ]
