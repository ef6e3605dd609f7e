-- ===== src/ByteArray/Read.antt =====
-- `read`, `toString`, `setPosition` and `clear` (JKYi/bytearray.cc) on the flat sequence.
use jkyi.Base.{
  ℕ, suc, ◌+◌, ◌-◌, ◌*◌, ◌%◌, ◌≤◌, ◌<◌, max, ◌≡◌, refl, sym, ◌∙◌, ap, arith, some, List, ◌++◌,
  append-nil, ltb, if◌then◌else◌, length, take, drop, length-append, drop-take, drop-drop,
  drop-append, take-take, take-append, take_all, drop_all, lt→ltb,
}
use native.Mathlib.Decide.{dec_lt}
use jkyi.Base.Blocks.{All-drop}
use jkyi.ByteArray.{
  ByteArray, ok, out_of_range, fault, read, read_chain, read_at, to_string, set_position,
}
use jkyi.ByteArray.Chain.{ReadRun, read_chain-Fetched, seek_chain_lem}
use jkyi.ByteArray.Inv.{IsValid}
use jkyi.ByteArray.Content.{
  behind_position, length-unread, read_size_lem, memory, content, unread, length-memory,
  length-content, offset, length-chain,
}

-- What a read of `len` bytes leaves: nothing stored changes, the position moves on.
pub record IsRead (len : ℕ) (ba ba' : ByteArray) : Type 0 where
  pub valid : IsValid ba'
  pub same_content : content ba' ≡ content ba
  pub position_lem : ba'.position ≡ ba.position + len
  pub same_endian : ba'.endian ≡ ba.endian
  pub same_base : ba'.base_size ≡ ba.base_size
  pub same_capacity : ba'.capacity ≡ ba.capacity

pub IsRead-suc :
    {n : ℕ} {ba mid after : ByteArray}
    → IsRead 1 ba mid
    → IsRead n mid after
    → IsRead (suc n) ba after
IsRead-suc r s = record {
  valid = s.valid;
  same_content = s.same_content ∙ r.same_content;
  position_lem = omega (arith, r.position_lem, s.position_lem);
  same_endian = s.same_endian ∙ r.same_endian;
  same_base = s.same_base ∙ r.same_base;
  same_capacity = s.same_capacity ∙ r.same_capacity;
}

-- What is left to be read.
pub unread-IsRead :
    (xs rest : List ℕ) {ba after : ByteArray}
    → IsRead (length xs) ba after
    → unread ba ≡ xs ++ rest
    → unread after ≡ rest
unread-IsRead xs rest {ba} {after} r e =
    ap (λ (c : List ℕ). drop after.position c) r.same_content
    ∙ ap (λ (n : ℕ). drop n (content ba)) r.position_lem
    ∙ sym (drop-drop (length xs) ba.position (content ba))
    ∙ ap (λ (c : List ℕ). drop (length xs) c) e
    ∙ ground (arith, drop-append (length xs) xs rest, drop_all (length xs) xs)

abbrev pub Reads : List ℕ → ByteArray → Type 0
Reads bytes ba =
    (ba' : ByteArray) × (read (length bytes) ba ≡ ok bytes ba') × IsRead (length bytes) ba ba'

module _ (len : ℕ) {ba : ByteArray} (v : IsValid ba) (pos : 0 < len)
    (enough : ba.position + len ≤ ba.size) where
  read_run : ReadRun ba.base_size (drop ba.cur ba.nodes) (ba.position - ba.cur * ba.base_size) len
  read_run =
      read_chain-Fetched ba.base_size (drop ba.cur ba.nodes) (ba.position - ba.cur * ba.base_size)
        len (All-drop _ ba.cur ba.nodes v.blocks) (omega (arith, v.lower, v.upper)) pos
        (omega (arith, length-chain v, v.size_le, v.lower))

  -- The bytes of the chain behind the position are those that are stored there.
  stored_bytes : take len (drop ba.position (memory ba)) ≡ take len (unread ba)
  stored_bytes =
      rw (drop-take ba.position ba.size (memory ba))
        (sym (take-take len (ba.size - ba.position) (drop ba.position (memory ba)) (omega arith)))

  read_ok :
      (k : ℕ)
      → read_chain (drop ba.cur ba.nodes) (ba.position % ba.base_size) len
        ≡ some (take len (unread ba), k)
      → read len ba
        ≡ ok (take len (unread ba)) (record ba { position = ba.position + len; cur = ba.cur + k })
  unfolding read
  read_ok k e = rw (e, read_size_lem v) (ground (arith, v.base_pos))

  -- A read of at least one byte, and of no more than are stored from the position on, gives the
  -- next `len` bytes, and moves the position behind them.
  pub read_lem :
      (ba' : ByteArray) × (read len ba ≡ ok (take len (unread ba)) ba') × IsRead len ba ba'
  read_lem =
      let (bytes, k, e, f) = read_run in
      (
        record ba { position = ba.position + len; cur = ba.cur + k },
        read_ok k (
            rw (offset v) (
              e
              ∙ ap (λ (r : List ℕ). some (r, k))
                  (f.bytes_lem
                    ∙ ap (λ (r : List ℕ). take len r) (behind_position v)
                    ∙ stored_bytes))),
        record {
          valid = record {
            base_pos = v.base_pos;
            rooted = v.rooted;
            blocks = v.blocks;
            capacity_lem = v.capacity_lem;
            position_le = enough;
            size_le = v.size_le;
            lower = omega (arith, f.lower, v.lower);
            upper = omega (arith, f.upper, v.lower);
          };
          same_content = refl;
          position_lem = refl;
          same_endian = refl;
          same_base = refl;
          same_capacity = refl;
        },
      )

-- If the stored bytes from the position on begin with `xs`, a read of as many gives `xs`.
pub read_prefix :
    (xs rest : List ℕ) {ba : ByteArray}
    → IsValid ba
    → 0 < length xs
    → unread ba ≡ xs ++ rest
    → Reads xs ba
read_prefix xs rest {ba} v pos e =
    let (ba', r, after) = read_lem (length xs) v pos fits in (ba', r ∙ cc same, after)
  where
    fits : ba.position + length xs ≤ ba.size
    fits = omega (arith, ap length e, length-append xs rest, length-unread v, v.position_le)

    same : take (length xs) (unread ba) ≡ xs
    same =
        ap (λ (r : List ℕ). take (length xs) r) e
        ∙ ground (arith, take-append (length xs) xs rest, take_all (length xs) xs, append-nil xs)

same_block : (b c l : ℕ) → l * b < c * b + b → l ≤ c
same_block b c l h = grind arith

-- A read of no bytes at the end of the last node reads through the null `m_cur`.
pub read_none_at_end : {ba : ByteArray} → IsValid ba → ba.position ≡ ba.capacity → read 0 ba ≡ fault
unfolding read
read_none_at_end {ba} v h =
    rw (drop_all ba.cur ba.nodes at_end, read_size_lem v)
      (unfold read_chain in ground (arith, v.base_pos))
  where
    at_end : length ba.nodes ≤ ba.cur
    at_end =
        same_block ba.base_size ba.cur (length ba.nodes) (omega (arith, v.capacity_lem, v.upper))

-- `toString` gives the stored bytes from the position on, and changes nothing.
pub to_string_lem : {ba : ByteArray} → IsValid ba → to_string ba ≡ ok (unread ba) ba
unfolding to_string read_at
to_string_lem {ba} v = elim (dec_lt ba.position ba.size) [
  | yes more ↦
      let (bytes, k, e, f) = read_run (ba.size - ba.position) v (omega arith) (omega arith) in
      rw (read_size_lem v, offset v, e)
        (ground (
          arith,
          v.base_pos,
          f.bytes_lem,
          behind_position v,
          drop-take ba.position ba.size (memory ba),
        ))
  | no none_left ↦
      rw (read_size_lem v)
        (ground (arith, drop_all ba.position (content ba) (omega (arith, length-content v))))
]

-- What a jump to the position `p` leaves: bytes of the chain up to `p` count as stored.
pub record Moved (p : ℕ) (ba ba' : ByteArray) : Type 0 where
  pub valid : IsValid ba'
  pub same_memory : memory ba' ≡ memory ba
  pub position_lem : ba'.position ≡ p
  pub size_lem : ba'.size ≡ max ba.size p
  pub same_endian : ba'.endian ≡ ba.endian

-- `setPosition(p)` within the capacity succeeds: it keeps the bytes of the chain and the invariant,
-- and the stored bytes reach up to `p` at least.
pub set_position_lem :
    (p : ℕ) {ba : ByteArray}
    → IsValid ba
    → p ≤ ba.capacity
    → (ba' : ByteArray) × (set_position p ba ≡ ok tt ba') × Moved p ba ba'
unfolding set_position
set_position_lem p {ba} v h =
    let (k, e, lower, upper) =
      seek_chain_lem ba.base_size ba.nodes p v.blocks v.base_pos v.rooted
        (omega (arith, length-memory v)) in
    (
      record ba { position = p; size = if ltb ba.size p then p else ba.size; cur = k },
      rw e (ground arith),
      record {
        valid = record {
          base_pos = v.base_pos;
          rooted = v.rooted;
          blocks = v.blocks;
          capacity_lem = v.capacity_lem;
          position_le = ground arith;
          size_le = ground (arith, v.size_le);
          lower = lower;
          upper = upper;
        };
        same_memory = refl;
        position_lem = refl;
        size_lem = ground arith;
        same_endian = refl;
      },
    )

pub set_position_beyond :
    (p : ℕ) (ba : ByteArray) → ba.capacity < p → set_position p ba ≡ out_of_range ba
unfolding set_position
set_position_beyond p ba h = rw (lt→ltb ba.capacity p h)
