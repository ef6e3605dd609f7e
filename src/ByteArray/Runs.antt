-- ===== src/ByteArray/Runs.antt =====
-- Runs of the byte array on small nodes.
use jkyi.Base.{◌≡◌, refl, arith, [], ◌∷◌}
use jkyi.ByteArray.{
  ByteArray, ok, create, add_capacity, write, write_chain, read, read_chain, read_at, set_position,
  seek_chain, ◌>>◌,
}
use jkyi.Base.Splice.{splice}
use jkyi.ByteArray.Inv.{IsValid, Grown, create-IsValid, add_capacity-Grown}
use jkyi.ByteArray.Write.{Writes, write_lem}
use jkyi.ByteArray.Read.{IsRead, Moved, read_lem, set_position_lem}
use mathlib.Core.Bool.{true}
use jkyi.Endian.{big}

abbrev fresh : ByteArray
fresh = create 0 4

-- Two nodes of 4 bytes, six bytes stored, the position on the third.
abbrev six_bytes : ByteArray
six_bytes = record {
  base_size = 4;
  position = 2;
  capacity = 8;
  size = 6;
  endian = big;
  nodes = (1 ∷ 2 ∷ 3 ∷ 4 ∷ []) ∷ (5 ∷ 6 ∷ 0 ∷ 0 ∷ []) ∷ [];
  cur = 0;
  owner = true;
  junk = 0;
}

-- One full node, all of it read.
abbrev used_up : ByteArray
used_up = record {
  base_size = 2;
  position = 2;
  capacity = 2;
  size = 2;
  endian = big;
  nodes = (7 ∷ 8 ∷ []) ∷ [];
  cur = 1;
  owner = true;
  junk = 0;
}

fresh-IsValid : IsValid fresh
fresh-IsValid = create-IsValid 0 4 (omega arith)

six_bytes-IsValid : IsValid six_bytes
six_bytes-IsValid = omega arith

used_up-IsValid : IsValid used_up
used_up-IsValid = omega arith

write-read :
    (do write (1 ∷ 2 ∷ 3 ∷ 4 ∷ 5 ∷ 6 ∷ []); set_position 2; read 3) fresh
    ≡ ok (3 ∷ 4 ∷ 5 ∷ []) (record six_bytes { position = 5; cur = 1 })
unfolding create write write_chain add_capacity splice set_position seek_chain read read_chain
write-read = refl

-- A read at a given position looks into the node of `m_position`, not into that of the position.
read_at_elsewhere : read_at 1 5 six_bytes ≡ ok (2 ∷ []) six_bytes
unfolding read_at read_chain
read_at_elsewhere = refl

write_lem_example : Writes (9 ∷ 9 ∷ 9 ∷ 9 ∷ 9 ∷ 9 ∷ 9 ∷ []) six_bytes
write_lem_example = write_lem (9 ∷ 9 ∷ 9 ∷ 9 ∷ 9 ∷ 9 ∷ 9 ∷ []) six_bytes-IsValid

read_lem_example :
    (after : ByteArray) × (read 3 six_bytes ≡ ok (3 ∷ 4 ∷ 5 ∷ []) after) × IsRead 3 six_bytes after
read_lem_example = read_lem 3 six_bytes-IsValid (omega arith) (omega arith)

set_position_lem_example :
    (after : ByteArray) × (set_position 8 six_bytes ≡ ok tt after) × Moved 8 six_bytes after
set_position_lem_example = set_position_lem 8 six_bytes-IsValid (omega arith)

add_capacity-Grown_example : Grown 7 six_bytes (add_capacity 7 six_bytes)
add_capacity-Grown_example = add_capacity-Grown 7 six_bytes-IsValid
