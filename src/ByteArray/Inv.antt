-- ===== src/ByteArray/Inv.antt =====
-- The invariant of the byte array, and that the operations on the chain keep it.
use jkyi.Base.{
  ℕ, ◌+◌, ◌-◌, ◌*◌, ◌/◌, ◌≤◌, ◌<◌, ◌≡◌, refl, sym, arith, Bool, List, [], ◌++◌, append-nil,
  size_sub_le, ◌||◌, true, false, leb, ◌==◌, if◌then◌else◌, Bool-cases, inl, inr, length, take,
  flatten, flatten-append, replicate, All, length-append, length-take, length-replicate,
}
use native.Mathlib.Nat.{le_trans}
use jkyi.Base.Blocks.{IsBlock, All-append, All-take, All-replicate}
use jkyi.ByteArray.{ByteArray, create, wrap, add_capacity, clear}

-- All nodes have `m_baseSize` bytes and make up the capacity; the position is within what is
-- stored, and `m_cur` is the node that holds it (null exactly at the end of the chain).
pub record IsValid (ba : ByteArray) : Type 0 where
  pub base_pos : 0 < ba.base_size
  pub rooted : 0 < length ba.nodes
  pub blocks : All (IsBlock ba.base_size) ba.nodes
  pub capacity_lem : ba.capacity ≡ length ba.nodes * ba.base_size
  pub position_le : ba.position ≤ ba.size
  pub size_le : ba.size ≤ ba.capacity
  pub lower : ba.cur * ba.base_size ≤ ba.position
  pub upper : ba.position < ba.cur * ba.base_size + ba.base_size

-- A new byte array is valid, with a node size other than 0; so is one over a block of bytes.
pub create-IsValid : (junk base : ℕ) → 0 < base → IsValid (create junk base)
unfolding create
create-IsValid junk base h = record {
  base_pos = h;
  rooted = omega arith;
  blocks = (length-replicate base junk, tt);
  capacity_lem = omega arith;
  position_le = omega arith;
  size_le = omega arith;
  lower = omega arith;
  upper = omega arith;
}

pub wrap-IsValid :
    (junk : ℕ) (block : List ℕ) (owner : Bool) → 0 < length block → IsValid (wrap junk block owner)
unfolding wrap
wrap-IsValid junk block owner h = record {
  base_pos = h;
  rooted = omega arith;
  blocks = (refl, tt);
  capacity_lem = omega arith;
  position_le = omega arith;
  size_le = omega arith;
  lower = omega arith;
  upper = omega arith;
}

pub clear-IsValid : {ba : ByteArray} → IsValid ba → IsValid (clear ba)
unfolding clear
clear-IsValid {ba} v = record {
  base_pos = v.base_pos;
  rooted = omega (arith, length-take 1 ba.nodes, v.rooted);
  blocks = All-take _ 1 ba.nodes v.blocks;
  capacity_lem =
      let one : length (take 1 ba.nodes) ≡ 1 = omega (arith, length-take 1 ba.nodes, v.rooted) in
      rw one (omega arith);
  position_le = omega arith;
  size_le = omega arith;
  lower = omega arith;
  upper = omega (arith, v.base_pos);
}

-- What `addCapacity` leaves: room for `n` more bytes behind the position, and all else as it was.
pub record Grown (n : ℕ) (ba grown : ByteArray) : Type 0 where
  pub valid : IsValid grown
  pub room : grown.position + n ≤ grown.capacity
  pub current : 0 < n → grown.cur < length grown.nodes
  pub kept : (fresh : List ℕ) × (flatten grown.nodes ≡ flatten ba.nodes ++ fresh)
  pub same_base : grown.base_size ≡ ba.base_size
  pub same_position : grown.position ≡ ba.position
  pub same_size : grown.size ≡ ba.size
  pub same_endian : grown.endian ≡ ba.endian

ceil_div : (b n : ℕ) → 0 < b → n ≤ (n + b - 1) / b * b
ceil_div b n h = grind arith

below_of_product : (b c l : ℕ) → c * b < l * b → c < l
below_of_product b c l h = grind arith

module _ (n : ℕ) {ba : ByteArray} (v : IsValid ba) where
  module _ (large : (n == 0 || leb n (ba.capacity - ba.position)) ≡ false) where
    count : ℕ
    count = (n - (ba.capacity - ba.position) + ba.base_size - 1) / ba.base_size

    new_nodes : List (List ℕ)
    new_nodes = replicate count (replicate ba.base_size ba.junk)

    nodes_count : length (ba.nodes ++ new_nodes) * ba.base_size ≡ ba.capacity + count * ba.base_size
    unfolding new_nodes
    nodes_count =
        rw
          (
            length-append ba.nodes new_nodes,
            length-replicate count (replicate ba.base_size ba.junk),
          )
          (omega (arith, v.capacity_lem))

    room_made : ba.position + n ≤ ba.capacity + count * ba.base_size
    unfolding count
    room_made = omega (arith, ceil_div ba.base_size (n - (ba.capacity - ba.position)) v.base_pos)

    cur' : ℕ
    cur' = if ba.capacity - ba.position == 0 then length ba.nodes else ba.cur

    cur'_bounds :
        (cur' * ba.base_size ≤ ba.position) × (ba.position < cur' * ba.base_size + ba.base_size)
    unfolding cur'
    cur'_bounds = ground arith

    grown-IsValid : IsValid (record ba {
      nodes = ba.nodes ++ new_nodes;
      capacity = ba.capacity + count * ba.base_size;
      cur = cur';
    })
    unfolding new_nodes
    grown-IsValid = record {
      base_pos = v.base_pos;
      rooted = omega (arith, length-append ba.nodes new_nodes, v.rooted);
      blocks =
          All-append _ ba.nodes new_nodes v.blocks
            (All-replicate _ count _ (length-replicate ba.base_size ba.junk));
      capacity_lem = sym nodes_count;
      position_le = v.position_le;
      size_le = omega (arith, v.size_le);
      lower = cur'_bounds.0;
      upper = cur'_bounds.1;
    }

    add_capacity-grows : Grown n ba (add_capacity n ba)
    unfolding add_capacity count cur' new_nodes
    add_capacity-grows =
        rw (size_sub_le ba.capacity ba.position (le_trans v.position_le v.size_le), large)
          record {
            valid = grown-IsValid;
            room = room_made;
            current = λ p.
                below_of_product ba.base_size cur' (length (ba.nodes ++ new_nodes))
                  (omega (arith, nodes_count, cur'_bounds.0, room_made));
            kept = (flatten new_nodes, flatten-append ba.nodes new_nodes);
            same_base = refl;
            same_position = refl;
            same_size = refl;
            same_endian = refl;
          }

  enough : (n == 0 || leb n (ba.capacity - ba.position)) ≡ true → Grown n ba (add_capacity n ba)
  unfolding add_capacity
  enough h =
      rw (size_sub_le ba.capacity ba.position (le_trans v.position_le v.size_le), h)
        record {
          valid = v;
          room = ground arith;
          current = λ p. below_of_product ba.base_size ba.cur (length ba.nodes) (ground arith);
          kept = ([], sym (append-nil _));
          same_base = refl;
          same_position = refl;
          same_size = refl;
          same_endian = refl;
        }

  -- `addCapacity` makes room for `n` bytes behind the position and keeps all bytes.
  pub add_capacity-Grown : Grown n ba (add_capacity n ba)
  add_capacity-Grown = elim (Bool-cases (n == 0 || leb n (ba.capacity - ba.position))) [
    | inl h ↦ enough h
    | inr h ↦ add_capacity-grows h
  ]
