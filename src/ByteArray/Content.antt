-- ===== src/ByteArray/Content.antt =====
-- The byte array (JKYi/bytearray.cc) as a flat sequence: what is stored, with a position in it.
use jkyi.Base.{
  ℕ, ◌-◌, ◌*◌, ◌%◌, ◌≤◌, ◌<◌, ◌≡◌, sym, ◌∙◌, ap, arith, List, ◌++◌, size_sub_le, length, take, drop,
  flatten, length-drop, length-take, flatten-append, take-append-drop, drop-drop,
}
use jkyi.Base.Splice.{splice, splice-append_right}
use jkyi.Base.Blocks.{length-flatten, flatten-drop, block_index_unique, All-take}
use jkyi.ByteArray.{ByteArray, read_size}
use jkyi.ByteArray.Inv.{IsValid}

-- All bytes of the chain, and those that are stored.
abbrev pub memory : ByteArray → List ℕ
memory ba = flatten ba.nodes

abbrev pub content : ByteArray → List ℕ
content ba = take ba.size (memory ba)

-- What is stored from the position on.
abbrev pub unread : ByteArray → List ℕ
unread ba = drop ba.position (content ba)

le_of_product : (b c l p : ℕ) → 0 < b → c * b ≤ p → p ≤ l * b → c ≤ l
le_of_product b c l p h k m = grind arith

module _ {ba : ByteArray} (v : IsValid ba) where
  pub length-memory : length (memory ba) ≡ ba.capacity
  length-memory = length-flatten ba.base_size ba.nodes v.blocks ∙ sym v.capacity_lem

  pub length-content : length (content ba) ≡ ba.size
  length-content = omega (arith, length-take ba.size (memory ba), length-memory, v.size_le)

  -- `m_position % m_baseSize` is the place in the current node.
  pub offset : ba.position % ba.base_size ≡ ba.position - ba.cur * ba.base_size
  offset = block_index_unique ba.base_size ba.position ba.cur v.lower v.upper

  pub cur_le : ba.cur ≤ length ba.nodes
  cur_le =
      le_of_product ba.base_size ba.cur (length ba.nodes) ba.position v.base_pos v.lower
        (omega (arith, v.position_le, v.size_le, v.capacity_lem))

  chain_bytes : flatten (drop ba.cur ba.nodes) ≡ drop (ba.cur * ba.base_size) (memory ba)
  chain_bytes = flatten-drop ba.base_size ba.cur ba.nodes v.blocks

  pub length-chain : length (flatten (drop ba.cur ba.nodes)) ≡ ba.capacity - ba.cur * ba.base_size
  length-chain =
      omega (
        arith,
        ap length chain_bytes,
        length-drop (ba.cur * ba.base_size) (memory ba),
        length-memory,
      )

  front_length : length (flatten (take ba.cur ba.nodes)) ≡ ba.cur * ba.base_size
  front_length =
      length-flatten ba.base_size (take ba.cur ba.nodes) (All-take _ ba.cur ba.nodes v.blocks)
      ∙ ap (λ (n : ℕ). n * ba.base_size)
          (let e : length (take ba.cur ba.nodes) ≡ ba.cur =
              omega (arith, length-take ba.cur ba.nodes, cur_le) in
            e)

  -- A chain that is written from `m_cur` on, behind the nodes before it.
  pub rejoined :
      (chain : List (List ℕ)) (buf : List ℕ)
      → flatten chain
        ≡ splice (flatten (drop ba.cur ba.nodes)) (ba.position - ba.cur * ba.base_size) buf
      → flatten (take ba.cur ba.nodes ++ chain) ≡ splice (memory ba) ba.position buf
  rejoined chain buf e =
      flatten-append (take ba.cur ba.nodes) chain
      ∙ ap (λ (r : List ℕ). flatten (take ba.cur ba.nodes) ++ r) e
      ∙ sym (
          splice-append_right (flatten (take ba.cur ba.nodes)) (flatten (drop ba.cur ba.nodes))
            (ba.position - ba.cur * ba.base_size) buf)
      ∙ ground (
        arith,
        flatten-append (take ba.cur ba.nodes) (drop ba.cur ba.nodes),
        take-append-drop ba.cur ba.nodes,
        front_length,
        v.lower,
      )

  -- What the chain from `m_cur` on holds behind the offset is what lies behind the position.
  pub behind_position :
      drop (ba.position - ba.cur * ba.base_size) (flatten (drop ba.cur ba.nodes))
      ≡ drop ba.position (memory ba)
  behind_position =
      ap (λ (r : List ℕ). drop (ba.position - ba.cur * ba.base_size) r) chain_bytes
      ∙ drop-drop (ba.position - ba.cur * ba.base_size) (ba.cur * ba.base_size) (memory ba)
      ∙ ground (arith, v.lower)

  pub length-unread : length (unread ba) ≡ ba.size - ba.position
  length-unread = omega (arith, length-drop ba.position (content ba), length-content)

  pub read_size_lem : read_size ba ≡ ba.size - ba.position
  read_size_lem = size_sub_le ba.size ba.position v.position_le
