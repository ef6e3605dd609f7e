-- ===== src/Codec/Runs.antt =====
-- Runs of the writers and readers of values.
use jkyi.Base.{ℕ, ◌+◌, ◌-◌, ◌≡◌, ◌≤◌, ◌<◌, ◌^◌, refl, arith, some, List, [], ◌∷◌}
use jkyi.ByteArray.{ByteArray, ok, create, set_position, ◌>>◌}
use jkyi.ByteArray.Inv.{IsValid, create-IsValid}
use jkyi.ByteArray.Write.{Written}
use jkyi.Endian.{little, big, ordered, le_bytes}
use jkyi.Codec.{encode_zigzag32, varint_bytes, write_fuint, read_fuint, write_uint64, read_uint64}
use jkyi.Codec.Int.{negsuc}
use jkyi.Codec.Fixed.{write_fuint_wire, read-write_fuint}
use jkyi.Codec.Numbers.{read-write_uint64}
use mathlib.Core.Bool.{true}

abbrev fresh : ByteArray
fresh = create 0 4

fresh-IsValid : IsValid fresh
fresh-IsValid = create-IsValid 0 4 (omega arith)

abbrev hi : List ℕ
hi = 104 ∷ 105 ∷ []

-- A node of 2 bytes that holds the length 0 and nothing more.
abbrev length_only : ByteArray
length_only = record {
  base_size = 2;
  position = 0;
  capacity = 2;
  size = 2;
  endian = big;
  nodes = (0 ∷ 0 ∷ []) ∷ [];
  cur = 0;
  owner = true;
  junk = 0;
}

length_only-IsValid : IsValid length_only
length_only-IsValid = omega arith

minus_three : encode_zigzag32 (negsuc 2) ≡ 5
unfolding encode_zigzag32
minus_three = refl

three_hundred : varint_bytes 5 300 ≡ some (0xac ∷ 0x02 ∷ [])
unfolding varint_bytes
three_hundred = refl

write_fuint_wire_example :
    (after : ByteArray) × (write_fuint little 4 258 fresh ≡ ok tt after)
    × Written (ordered fresh.endian (le_bytes 4 258)) fresh after
write_fuint_wire_example = write_fuint_wire little 4 258 fresh-IsValid

read-write_fuint_example :
    (after : ByteArray) × ((write_fuint little 8 258
          >> (set_position fresh.position >> read_fuint little 8))
        fresh
      ≡ ok 258 after)
    × IsValid after
    × (after.position ≡ fresh.position + 8)
read-write_fuint_example = read-write_fuint little 8 258 fresh-IsValid (omega arith) (omega arith)

read-write_uint64_example :
    (after : ByteArray) × ((write_uint64 (2 ^ 64 - 1)
          >> (set_position fresh.position >> read_uint64 little))
        fresh
      ≡ ok (2 ^ 64 - 1) after)
    × IsValid after
    × (fresh.position < after.position)
    × (after.position ≤ fresh.position + 10)
read-write_uint64_example = read-write_uint64 little (2 ^ 64 - 1) fresh-IsValid (omega arith)
