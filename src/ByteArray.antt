-- ===== src/ByteArray.antt =====
-- JKYi/bytearray.h, bytearray.cc: the stream of bytes over a chain of nodes.
-- The chain from `m_root` is the list `nodes`; a node is the list of its bytes, so `size` of a node
-- is its length. `m_cur` is an index into the chain, and the length of the chain stands for
-- `nullptr`. A `size_t` sum counts bytes that are in memory, so it does not wrap; a difference may,
-- and is `size_sub`. `ceil(1.0 * size / m_baseSize)` is the exact quotient rounded up, which the
-- double gives for sizes below 2 ^ 52.
pub mod Chain
pub mod Inv
pub mod Content
pub mod Write
pub mod Read
mod Runs
use jkyi.Base.{
  ℕ, zero, suc, ◌+◌, ◌-◌, ◌*◌, ◌/◌, ◌%◌, Bool, true, false, ◌||◌, Option, none, some, List, [], ◌∷◌,
  ◌++◌, ltb, leb, ◌==◌, if◌then◌else◌, size_sub, length, take, drop, replicate,
}
use jkyi.Base.Splice.{splice}
use jkyi.Endian.{Endian, big}

pub record ByteArray : Type 0 where
  pub base_size : ℕ
  pub position : ℕ
  pub capacity : ℕ
  pub size : ℕ
  pub endian : Endian
  pub nodes : List (List ℕ)
  pub cur : ℕ
  pub owner : Bool
  -- What a byte of `new char[s]` holds before it is written; the language leaves it open.
  pub junk : ℕ

-- A call returns a value and the new state, throws `std::out_of_range` and leaves a state, or does
-- what the language leaves undefined (a null pointer read, a division by zero).
pub data Outcome (A : Type 0) : Type 0 where
  ok : A → ByteArray → Outcome A
  out_of_range : ByteArray → Outcome A
  fault : Outcome A

abbrev pub M : Type 0 → Type 0
M A = ByteArray → Outcome A

infixl 5 ◌>>=◌ ◌>>◌
abbrev pub ◌>>=◌ : {A B : Type 0} → M A → (A → M B) → M B
◌>>=◌ m f ba = elim (m ba) [
  | ok a next ↦ f a next
  | out_of_range next ↦ out_of_range next
  | fault ↦ fault
]

abbrev pub ◌>>◌ : {B : Type 0} → M (Unit {0}) → M B → M B
m >> k = m >>= λ _. k

abbrev pub pure : {A : Type 0} → A → M A
pure a ba = ok a ba

-- `ByteArray(size_t base_size)` and `ByteArray(void * data, size_t size, bool owner)`
unfoldable pub create : ℕ → ℕ → ByteArray
create junk base = record {
  base_size = base;
  position = 0;
  capacity = base;
  size = 0;
  endian = big;
  nodes = replicate base junk ∷ [];
  cur = 0;
  owner = true;
  junk = junk;
}

unfoldable pub wrap : ℕ → List ℕ → Bool → ByteArray
wrap junk block owner = record {
  base_size = length block;
  position = 0;
  capacity = length block;
  size = length block;
  endian = big;
  nodes = block ∷ [];
  cur = 0;
  owner = owner;
  junk = junk;
}

abbrev pub read_size : ByteArray → ℕ
read_size ba = size_sub ba.size ba.position

abbrev pub write_size : ByteArray → ℕ
write_size ba = size_sub ba.capacity ba.position

-- `addCapacity`, for a `m_baseSize` other than 0
unfoldable pub add_capacity : ℕ → ByteArray → ByteArray
add_capacity n ba =
    let old_cap = write_size ba in
    let count = (n - old_cap + ba.base_size - 1) / ba.base_size in
    if n == 0 || leb n old_cap then ba else record ba {
      nodes = ba.nodes ++ replicate count (replicate ba.base_size ba.junk);
      capacity = ba.capacity + count * ba.base_size;
      cur = if old_cap == 0 then length ba.nodes else ba.cur;
    }

-- The loop of `write` on the chain from `m_cur`: the chain with the bytes in it, and how many nodes
-- `m_cur` has moved on. `none`: `m_cur` is null.
unfoldable pub write_chain : List (List ℕ) → ℕ → List ℕ → Option (List (List ℕ) × ℕ)
write_chain [] npos buf = none
write_chain (node ∷ rest) npos buf =
    let ncap = size_sub (length node) npos in
    let more = write_chain rest 0 (drop ncap buf) in
    if leb (length buf) ncap
    then some (splice node npos buf ∷ rest, if length node == npos + length buf then 1 else 0)
    else elim more [
      | none ↦ none
      | some (rest', moved) ↦ some (splice node npos (take ncap buf) ∷ rest', suc moved)
    ]

stored : ByteArray → ℕ → Option (List (List ℕ) × ℕ) → Outcome (Unit {0})
stored ba len none = fault
stored ba len (some (chain, moved)) =
    let end = ba.position + len in
    ok tt (record ba {
      nodes = take ba.cur ba.nodes ++ chain;
      cur = ba.cur + moved;
      position = end;
      size = if ltb ba.size end then end else ba.size;
    })

-- `write(buf, len)`
unfoldable pub write : List ℕ → M (Unit {0})
unfolding stored
write buf ba =
    let grown = add_capacity (length buf) ba in
    let run = write_chain (drop grown.cur grown.nodes) (grown.position % grown.base_size) buf in
    if length buf == 0
    then ok tt ba
    else if ba.base_size == 0
    then fault
    else stored grown (length buf) run

-- The loop of `read`: the bytes, and how many nodes `m_cur` moves on. Before the loop `m_cur->size`
-- is read, also for no bytes at all.
unfoldable pub read_chain : List (List ℕ) → ℕ → ℕ → Option (List ℕ × ℕ)
read_chain [] npos len = none
read_chain (node ∷ rest) npos len =
    let ncap = size_sub (length node) npos in
    let more = read_chain rest 0 (len - ncap) in
    if len == 0
    then some ([], 0)
    else if leb len ncap
    then some (take len (drop npos node), if length node == len + npos then 1 else 0)
    else elim more [
      | none ↦ none
      | some (bytes, moved) ↦ some (take ncap (drop npos node) ++ bytes, suc moved)
    ]

fetched : ByteArray → ℕ → Option (List ℕ × ℕ) → Outcome (List ℕ)
fetched ba len none = fault
fetched ba len (some (bytes, moved)) =
    ok bytes (record ba { position = ba.position + len; cur = ba.cur + moved })

-- `read(buf, len)`
unfoldable pub read : ℕ → M (List ℕ)
unfolding fetched
read len ba =
    let run = read_chain (drop ba.cur ba.nodes) (ba.position % ba.base_size) len in
    if ltb (read_size ba) len
    then out_of_range ba
    else if ba.base_size == 0
    then fault
    else fetched ba len run

-- `read(buf, len, position)`: the walk starts at `m_cur`, whatever the position is.
looked : ByteArray → Option (List ℕ × ℕ) → Outcome (List ℕ)
looked ba none = fault
looked ba (some (bytes, moved)) = ok bytes ba

unfoldable pub read_at : ℕ → ℕ → M (List ℕ)
unfolding looked
read_at len position ba =
    if ltb (size_sub ba.size position) len
    then out_of_range ba
    else if ba.base_size == 0
    then fault
    else looked ba (read_chain (drop ba.cur ba.nodes) (position % ba.base_size) len)

-- `toString`
unfoldable pub to_string : M (List ℕ)
to_string ba = if read_size ba == 0 then ok [] ba else read_at (read_size ba) ba.position ba

-- The loop of `setPosition`: the index of the node that holds the byte `v`.
unfoldable pub seek_chain : List (List ℕ) → ℕ → Option ℕ
seek_chain [] v = none
seek_chain (node ∷ rest) v =
    let more = seek_chain rest (v - length node) in
    if ltb (length node) v
    then elim more [ none ↦ none | some k ↦ some (suc k) ]
    else some (if v == length node then 1 else 0)

unfoldable pub set_position : ℕ → M (Unit {0})
set_position v ba = if ltb ba.capacity v then out_of_range ba else elim (seek_chain ba.nodes v) [
  | none ↦ fault
  | some k ↦
      ok tt (record ba { position = v; size = if ltb ba.size v then v else ba.size; cur = k })
]

-- `clear`: every node but the root is freed.
unfoldable pub clear : ByteArray → ByteArray
clear ba = record ba {
  position = 0;
  size = 0;
  capacity = ba.base_size;
  nodes = take 1 ba.nodes;
  cur = 0;
}

unfoldable pub set_endian : Endian → ByteArray → ByteArray
set_endian e ba = record ba { endian = e }
