-- ===== src/Http2/Hpack/ReadBack.antt =====
-- The integers of HPACK (JKYi/http2/hpack.cc, ReadVarInt), read where `WriteVarInt` wrote them.
use jkyi.Base.{
  ℕ, suc, ◌+◌, ◌-◌, ◌*◌, ◌%◌, ◌^◌, ◌<◌, ◌≤◌, ◌≡◌, ◌∙◌, ap, arith, List, [], ◌∷◌, ◌++◌, length, ltb,
  if◌then◌else◌,
}
use jkyi.Base.Bits.{mod_unique, and_mask, and_bit}
use Prim.Native.Nat.{bit_and, bit_or}
use jkyi.Endian.{Endian}
use jkyi.ByteArray.{ByteArray, M, ok, ◌>>=◌, ◌>>◌, pure, set_position}
use jkyi.ByteArray.Inv.{IsValid}
use jkyi.ByteArray.Content.{unread}
use jkyi.ByteArray.Read.{unread-IsRead}
use jkyi.Codec.{read_fuint8}
use jkyi.Codec.Fixed.{read_fuint8_back}
use jkyi.Codec.Reread.{ReadsBack, read_then}
use jkyi.Http2.Hpack.{write_var_int, read_rest, read_var_int_after, read_var_int}
use native.Mathlib.Decide.{dec_lt}
use native.Mathlib.Nat.{mod-eq_of_lt}
use jkyi.Http2.Hpack.VarInt.{
  rest_bytes_last, rest_bytes_head, more_byte, var_int_bytes, var_int_bytes_short,
  var_int_bytes_long, write_var_int_lem,
}
use jkyi.Codec.Reread.{Rewound, rewind}

-- The byte behind the prefix that ends the number for the reader
abbrev second : ℕ → ℕ → ℕ
second prefix value =
    let x = value - (2 ^ prefix - 1) in if ltb x 128 then x else bit_or 8 (x % 128)

second-lt : (prefix value : ℕ) → second prefix value < 128
second-lt prefix value = ground (arith, more_byte (value - (2 ^ prefix - 1)))

module _ (host : Endian) where
  read_rest_one :
      (k iv b : ℕ) (rest : List ℕ) {ba : ByteArray}
      → IsValid ba
      → b < 128
      → iv + b < 2 ^ 64
      → unread ba ≡ b ∷ rest
      → ReadsBack (read_rest host (suc k) 0 iv) (b ∷ []) (iv + b) ba
  unfolding read_rest
  read_rest_one k iv b rest v small fits e =
      let (after, r, i) = read_fuint8_back host b rest v e in
      (after, rw (r, ◌>>=◌) ground (arith, and_bit 7 b, and_mask 7 b), i)

  module _ (prefix low q : ℕ) (h : low < 2 ^ prefix)
      (fits : 2 ^ prefix + q * 2 ^ prefix ≤ 256) where
    low_bits : bit_and (low + q * 2 ^ prefix) ((2 ^ prefix - 1) % 256) ≡ low
    low_bits =
        let mask : (2 ^ prefix - 1) % 256 ≡ 2 ^ prefix - 1 = mod-eq_of_lt (omega arith) in
        rw (mask, and_mask prefix (low + q * 2 ^ prefix))
          (mod_unique q (2 ^ prefix) low (low + q * 2 ^ prefix) (omega arith) h)

    read_after_short :
        low < 2 ^ prefix - 1 → read_var_int_after host (low + q * 2 ^ prefix) prefix ≡ pure low
    unfolding read_var_int_after
    read_after_short l =
        let mask : (2 ^ prefix - 1) % 256 ≡ 2 ^ prefix - 1 = mod-eq_of_lt (omega arith) in
        rw (low_bits, mask) (ground arith)

    read_after_long :
        2 ^ prefix - 1 ≤ low
        → read_var_int_after host (low + q * 2 ^ prefix) prefix
          ≡ read_rest host 10 0 (2 ^ prefix - 1)
    unfolding read_var_int_after
    read_after_long l =
        let mask : (2 ^ prefix - 1) % 256 ≡ 2 ^ prefix - 1 = mod-eq_of_lt (omega arith) in
        rw (low_bits, mask) (ground arith)

  module _ (prefix value q : ℕ) (rest : List ℕ) {ba : ByteArray} (v : IsValid ba)
      (one : 0 < 2 ^ prefix) (fits : 2 ^ prefix + q * 2 ^ prefix ≤ 256) (small : value < 2 ^ 64)
      (e : unread ba ≡ var_int_bytes prefix value (q * 2 ^ prefix) ++ rest) where
    pub read_short :
        value < 2 ^ prefix - 1
        → ReadsBack (read_var_int host prefix) ((value + q * 2 ^ prefix) ∷ []) value ba
    unfolding read_var_int
    read_short l =
        let (after, r, i) = read_fuint8_back host (value + q * 2 ^ prefix) rest v (
          e
          ∙ ap (λ (bs : List ℕ). bs ++ rest)
              (var_int_bytes_short prefix value (q * 2 ^ prefix) l)) in
        (
          after,
          rw (r, ◌>>=◌)
              (ap (λ (m : M ℕ). m after) (read_after_short prefix value q (omega arith) fits l)),
          i,
        )

    pub read_long :
        2 ^ prefix - 1 ≤ value
        → ReadsBack
            (read_var_int host prefix)
            ((2 ^ prefix - 1 + q * 2 ^ prefix) ∷ second prefix value ∷ [])
            (2 ^ prefix - 1 + second prefix value)
            ba
    unfolding read_var_int
    read_long l =
        let next = second prefix value in
        let (tail, head) = rest_bytes_head 8 (value - (2 ^ prefix - 1)) in
        let bytes : unread ba ≡ (2 ^ prefix - 1 + q * 2 ^ prefix) ∷ next ∷ (tail ++ rest) =
          e
          ∙ ap (λ (bs : List ℕ). bs ++ rest) (var_int_bytes_long prefix value (q * 2 ^ prefix) l)
          ∙ ap (λ (bs : List ℕ). (2 ^ prefix - 1 + q * 2 ^ prefix) ∷ (bs ++ rest)) head in
        read_then (read_fuint8 host) (λ b. read_var_int_after host b prefix)
          ((2 ^ prefix - 1 + q * 2 ^ prefix) ∷ []) (next ∷ []) (2 ^ prefix - 1 + q * 2 ^ prefix)
          (2 ^ prefix - 1 + next)
          (read_fuint8_back host (2 ^ prefix - 1 + q * 2 ^ prefix) (next ∷ (tail ++ rest)) v bytes)
          (λ mid r.
            rw (read_after_long prefix (2 ^ prefix - 1) q (omega arith) fits (omega arith)) (
              read_rest_one 9 (2 ^ prefix - 1) next (tail ++ rest) r.valid (second-lt prefix value)
                (omega (arith, second-lt prefix value))
                (unread-IsRead ((2 ^ prefix - 1 + q * 2 ^ prefix) ∷ []) (next ∷ (tail ++ rest)) r
                  bytes)))

-- Writing, going back and reading
abbrev pub rewritten : Endian → ℕ → ℕ → ℕ → ByteArray → M ℕ
rewritten host prefix value flags ba = write_var_int host prefix value flags >>= λ n.
    set_position ba.position >> read_var_int host prefix

module _ (host : Endian) (prefix value q : ℕ) {ba : ByteArray} (v : IsValid ba)
    (one : 0 < 2 ^ prefix) (fits : 2 ^ prefix + q * 2 ^ prefix ≤ 256) where
  rewritten_lem :
      (taken : List ℕ) (n : ℕ)
      → value < 2 ^ 64
      → ((back : ByteArray)
          → Rewound (var_int_bytes prefix value (q * 2 ^ prefix)) ba back
          → ReadsBack (read_var_int host prefix) taken n back)
      → (after : ByteArray) × (rewritten host prefix value (q * 2 ^ prefix) ba ba ≡ ok n after)
        × IsValid after
        × (after.position ≡ ba.position + length taken)
  rewritten_lem taken n small reads =
      let (written, e, w) = write_var_int_lem host prefix value q v small one fits in
      let (back, e', r) = rewind (var_int_bytes prefix value (q * 2 ^ prefix)) v w in
      let (after, e'', i) = reads back r in
      (
        after,
        rw (e, ◌>>=◌) (rw (e', ◌>>=◌) e''),
        i.valid,
        i.position_lem ∙ ap (λ (m : ℕ). m + length taken) r.position_lem,
      )

  -- An integer of HPACK that needs at most one byte behind the prefix comes back, and the position
  -- is behind all that was written. The flags are any bits above the prefix.
  pub read-write_var_int :
      value < 2 ^ prefix + 127
      → (after : ByteArray) × (rewritten host prefix value (q * 2 ^ prefix) ba ba ≡ ok value after)
        × IsValid after
        × (after.position ≡ ba.position + length (var_int_bytes prefix value (q * 2 ^ prefix)))
  read-write_var_int small = elim (dec_lt value (2 ^ prefix - 1)) [
    | yes l ↦ rw (var_int_bytes_short prefix value (q * 2 ^ prefix) l) (
        rewritten_lem ((value + q * 2 ^ prefix) ∷ []) value (omega arith) (λ back r.
          read_short host prefix value q r.begins.0 r.valid one fits (omega arith) r.begins.1 l))
    | no l ↦
        let last = value - (2 ^ prefix - 1) in
        let sum : 2 ^ prefix - 1 + second prefix value ≡ value = ground arith in
        rw
          (
            var_int_bytes_long prefix value (q * 2 ^ prefix) (omega arith),
            rest_bytes_last 9 last (omega arith),
          )
          (let (after, e, v', p) =
              rewritten_lem ((2 ^ prefix - 1 + q * 2 ^ prefix) ∷ second prefix value ∷ [])
                (2 ^ prefix - 1 + second prefix value) (omega arith)
                (λ back r.
                  read_long host prefix value q r.begins.0 r.valid one fits (omega arith) r.begins.1
                    (omega arith)) in
            (after, e ∙ ap (λ (n : ℕ). ok n after) sum, v', p))
  ]

  -- An integer of HPACK below 2 ^ 64 that needs more than one byte behind the prefix is read back
  -- too small, since the bytes that continue are written with bit 3 set in place of bit 7. The
  -- flags are any bits above the prefix.
  pub read-write_var_int_large :
      2 ^ prefix + 127 ≤ value
      → value < 2 ^ 64
      → (after : ByteArray) × (n : ℕ) × (rewritten host prefix value (q * 2 ^ prefix) ba ba
          ≡ ok n after)
        × (n < value)
  read-write_var_int_large large small =
      let (after, e, v', p) =
        rewritten_lem ((2 ^ prefix - 1 + q * 2 ^ prefix) ∷ second prefix value ∷ [])
          (2 ^ prefix - 1 + second prefix value) small
          (λ back r.
            read_long host prefix value q r.begins.0 r.valid one fits small r.begins.1
              (omega arith)) in
      (after, 2 ^ prefix - 1 + second prefix value, e, omega (arith, second-lt prefix value))
