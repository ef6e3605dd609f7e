-- ===== src/Stream.antt =====
-- JKYi/stream.cc: reading and writing a fixed number of bytes over a stream that may do less at a
-- time. The pure virtual `read`, `write` and `close` of JKYi/stream.h are the fields of `Stream`; a
-- derived class keeps its state in `S`.
pub mod FixSize
pub mod Delivery
pub mod Finite
pub mod Runs
use jkyi.Base.{
  ℕ, zero, suc, ◌+◌, ◌-◌, ◌%◌, ◌^◌, Bool, Option, none, some, List, [], ◌++◌, ◌==◌, ltb, length,
  drop, if◌then◌else◌,
}
use jkyi.Codec.Int.{ℤ, pos, negsuc, to_signed}

-- `read` gives its result, the bytes it put into the buffer, and the state after; `read_array` and
-- `write_array` are the two with a byte array, which `S` then holds.
pub record Stream (S : Type 0) : Type 0 where
  pub read : ℕ → S → ℤ × List ℕ × S
  pub write : List ℕ → S → ℤ × S
  pub read_array : ℕ → S → ℤ × S
  pub write_array : ℕ → S → ℤ × S
  pub close : S → S

-- What a positive result stands for; 0 is for the others, `len <= 0`.
unfoldable pub positive : ℤ → ℕ
positive (pos n) = n
positive (negsuc n) = 0

-- `int64_t left = length`, of which only a positive value counts, and `return length` as an int
unfoldable pub to_left : ℕ → ℕ
to_left length = if ltb length (2 ^ 63) then length else 0

unfoldable pub to_int : ℕ → ℤ
to_int length = to_signed (2 ^ 32) (length % 2 ^ 32)

-- `none` when the loop ended with nothing left, else the result it returns.
unfoldable pub finish : ℕ → Option ℤ → ℤ
finish length none = to_int length
finish length (some len) = len

module _ {S : Type 0} (io : Stream S) where
  -- The loops. Each turn but the last lowers `left`, so they recur on a bound of it.
  unfoldable pub read_loop : ℕ → ℕ → S → Option ℤ × List ℕ × S
  read_loop bound zero s = (none, [], s)
  read_loop zero (suc left) s = (none, [], s)
  read_loop (suc bound) (suc left) s =
      let r = io.read (suc left) s in
      let rest = read_loop bound (suc left - positive r.0) r.2 in
      if positive r.0 == 0 then (some r.0, r.1, r.2) else (rest.0, r.1 ++ rest.1, rest.2)

  unfoldable pub write_loop : ℕ → ℕ → List ℕ → S → Option ℤ × S
  write_loop bound zero buffer s = (none, s)
  write_loop zero (suc left) buffer s = (none, s)
  write_loop (suc bound) (suc left) buffer s =
      let r = io.write buffer s in
      let rest = write_loop bound (suc left - positive r.0) (drop (positive r.0) buffer) r.1 in
      if positive r.0 == 0 then (some r.0, r.1) else rest

  unfoldable pub array_loop : (ℕ → S → ℤ × S) → ℕ → ℕ → S → Option ℤ × S
  array_loop op bound zero s = (none, s)
  array_loop op zero (suc left) s = (none, s)
  array_loop op (suc bound) (suc left) s =
      let r = op (suc left) s in
      let rest = array_loop op bound (suc left - positive r.0) r.1 in
      if positive r.0 == 0 then (some r.0, r.1) else rest

  -- `readFixSize(void *, size_t)`, which gives the bytes put into the buffer with the result, and
  -- `writeFixSize(const void *, size_t)` of a whole buffer
  unfoldable pub read_fix_size : ℕ → S → ℤ × List ℕ × S
  read_fix_size n s = let r = read_loop (to_left n) (to_left n) s in (finish n r.0, r.1, r.2)

  unfoldable pub write_fix_size : List ℕ → S → ℤ × S
  write_fix_size buffer s =
      let n = length buffer in
      let r = write_loop (to_left n) (to_left n) buffer s in (finish n r.0, r.1)

  -- The two with a byte array
  unfoldable pub read_array_fix_size : ℕ → S → ℤ × S
  read_array_fix_size n s =
      let r = array_loop io.read_array (to_left n) (to_left n) s in (finish n r.0, r.1)

  unfoldable pub write_array_fix_size : ℕ → S → ℤ × S
  write_array_fix_size n s =
      let r = array_loop io.write_array (to_left n) (to_left n) s in (finish n r.0, r.1)
