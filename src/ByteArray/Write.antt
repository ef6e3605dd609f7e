-- ===== src/ByteArray/Write.antt =====
-- `write` (JKYi/bytearray.cc) as a write into the flat sequence.
use jkyi.Base.{
  ℕ, ◌+◌, ◌-◌, ◌*◌, ◌%◌, ◌<◌, ◌≡◌, refl, sym, ◌∙◌, ap, arith, some, List, [], ◌∷◌, ◌++◌, append-nil,
  ltb, if◌then◌else◌, length, take, drop, length-append, length-drop, length-take, take-append-drop,
  take-append,
}
use jkyi.Base.Splice.{take-splice}
use jkyi.Base.Blocks.{All-append, All-take, All-drop}
use jkyi.ByteArray.{ByteArray, ok, add_capacity, write, write_chain}
use jkyi.ByteArray.Chain.{Wrote, WriteRun, write_chain-Wrote}
use jkyi.ByteArray.Inv.{IsValid, Grown, add_capacity-Grown}
use jkyi.ByteArray.Content.{memory, content, length-memory, offset, length-chain, rejoined, cur_le}

-- What `write buf` leaves: the bytes from the position on are replaced, the position is behind
-- them.
pub record Written (buf : List ℕ) (ba ba' : ByteArray) : Type 0 where
  pub valid : IsValid ba'
  pub content_lem :
      content ba'
      ≡ take ba.position (content ba) ++ (buf ++ drop (ba.position + length buf) (content ba))
  pub position_lem : ba'.position ≡ ba.position + length buf
  pub same_endian : ba'.endian ≡ ba.endian
  pub same_base : ba'.base_size ≡ ba.base_size

-- The array `m` with `chain` in place of the nodes from `m_cur` on.
after : ByteArray → ℕ → List (List ℕ) → ℕ → ByteArray
after m len chain k = record m {
  nodes = take m.cur m.nodes ++ chain;
  cur = m.cur + k;
  position = m.position + len;
  size = if ltb m.size (m.position + len) then m.position + len else m.size;
}

module _ (buf : List ℕ) {ba m : ByteArray} (g : Grown (length buf) ba m) (pos : 0 < length buf)
    (v : IsValid ba) where
  written_run : WriteRun m.base_size (drop m.cur m.nodes) (m.position - m.cur * m.base_size) buf
  written_run =
      write_chain-Wrote m.base_size (drop m.cur m.nodes) (m.position - m.cur * m.base_size) buf
        (All-drop _ m.cur m.nodes g.valid.blocks) (omega (arith, g.valid.lower, g.valid.upper)) pos
        (omega (arith, length-chain g.valid, g.room, g.valid.lower))

  module _ (chain : List (List ℕ)) (k : ℕ)
      (w : Wrote m.base_size
        (drop m.cur m.nodes)
        (m.position - m.cur * m.base_size)
        buf
        chain
        k) where
    count_after : length (take m.cur m.nodes ++ chain) ≡ length m.nodes
    count_after = omega (
      arith,
      length-append (take m.cur m.nodes) chain,
      w.count,
      length-take m.cur m.nodes,
      length-drop m.cur m.nodes,
      cur_le g.valid,
    )

    after-IsValid : IsValid (after m (length buf) chain k)
    unfolding after
    after-IsValid = record {
      base_pos = g.valid.base_pos;
      rooted = omega (arith, count_after, g.valid.rooted);
      blocks =
          All-append _ (take m.cur m.nodes) chain (All-take _ m.cur m.nodes g.valid.blocks)
            w.blocks;
      capacity_lem = rw count_after g.valid.capacity_lem;
      position_le = ground arith;
      size_le = ground (arith, g.room, g.valid.size_le);
      lower = omega (arith, w.lower, g.valid.lower);
      upper = omega (arith, w.upper, g.valid.lower);
    }

    same_content : content m ≡ content ba
    same_content = ground (
      arith,
      g.kept.1,
      g.same_size,
      take-append ba.size (memory ba) g.kept.0,
      length-memory v,
      v.size_le,
      append-nil (content ba),
    )

    content-after :
        content (after m (length buf) chain k)
        ≡ take m.position (content m) ++ (buf ++ drop (m.position + length buf) (content m))
    unfolding after
    content-after =
        ap (λ (r : List ℕ). take (after m (length buf) chain k).size r)
          (rejoined g.valid chain buf w.bytes)
        ∙ take-splice (memory m) m.position m.size (after m (length buf) chain k).size buf
            g.valid.position_le (omega (arith, g.valid.size_le, length-memory g.valid))
            (omega (arith, g.room, length-memory g.valid)) (ground arith)

    after-Written : Written buf ba (after m (length buf) chain k)
    unfolding after
    after-Written = record {
      valid = after-IsValid;
      content_lem = content-after ∙ cc (same_content, g.same_position);
      position_lem = ap (λ (n : ℕ). n + length buf) g.same_position;
      same_endian = g.same_endian;
      same_base = g.same_base;
    }

abbrev pub Writes : List ℕ → ByteArray → Type 0
Writes buf ba = (ba' : ByteArray) × (write buf ba ≡ ok tt ba') × Written buf ba ba'

module _ (x : ℕ) (xs : List ℕ) {ba : ByteArray} (v : IsValid ba) where
  write_run :
      (chain : List (List ℕ)) (k : ℕ)
      → let m = add_capacity (length (x ∷ xs)) ba in
        write_chain (drop m.cur m.nodes) (m.position % m.base_size) (x ∷ xs) ≡ some (chain, k)
        → write (x ∷ xs) ba
          ≡ ok tt (after (add_capacity (length (x ∷ xs)) ba) (length (x ∷ xs)) chain k)
  unfolding write after
  write_run chain k e = rw e (ground (arith, v.base_pos))

  write_nonempty : Writes (x ∷ xs) ba
  write_nonempty =
      let g = add_capacity-Grown (length (x ∷ xs)) v in
      let (chain, k, e, w) = written_run (x ∷ xs) g (omega arith) v in
      (
        after (add_capacity (length (x ∷ xs)) ba) (length (x ∷ xs)) chain k,
        write_run chain k (rw (offset g.valid) e),
        after-Written (x ∷ xs) g (omega arith) v chain k w,
      )

-- `write` always succeeds, whatever the position: it puts the bytes over those stored from the
-- position on, lengthens what is stored if need be, moves the position behind them, and keeps the
-- invariant and all other bytes.
pub write_lem : (buf : List ℕ) {ba : ByteArray} → IsValid ba → Writes buf ba
unfolding write
write_lem [] {ba} v = (
  ba,
  refl,
  record {
    valid = v;
    content_lem = sym (take-append-drop ba.position (content ba)) ∙ ground arith;
    position_lem = omega arith;
    same_endian = refl;
    same_base = refl;
  },
)
write_lem (x ∷ xs) v = write_nonempty x xs v
