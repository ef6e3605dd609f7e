-- ===== src/Buffer/Ints.antt =====
-- Numbers in the buffer (JKYi/reactor/Buffer.h, appendInt64 to prependInt8).
use jkyi.Base.{
  if◌then◌else◌, ltb, ◌==◌, true, leb, ℕ, ◌≤◌, ◌≡◌, refl, sym, ◌∙◌, ap, arith, some, List, [], ◌++◌,
  append-nil, length, take, drop, length-append, take-append, take_all, drop-append, drop_all,
  take-take,
}
use jkyi.Endian.{
  little, big, le_bytes, ordered, byteswap, to_memory, from_memory, to_net_endian, to_little_endian,
  length-ordered, length-le_bytes, le_bytes-byteswap,
}
use jkyi.Buffer.{Buffer, readable, readable_bytes, append, append_int, peek_int, read_int, ◌>>=◌}
use jkyi.Buffer.Views.{IsValid, length-readable}
use jkyi.Buffer.Space.{Appended, append_lem}
use jkyi.Buffer.Bytes.{retrieve_lem}

-- On a little-endian machine `appendIntN` writes the bytes of the number highest first.
network_bytes : (w x : ℕ) → to_memory little w (to_net_endian w x) ≡ ordered big (le_bytes w x)
unfolding to_memory to_net_endian ordered
network_bytes w x = le_bytes-byteswap w x

pub append_int_wire :
    (w x : ℕ) {b : Buffer}
    → IsValid b
    → (after : Buffer) × (append_int little w x b ≡ some after)
      × Appended (ordered big (le_bytes w x)) b after
unfolding append_int
append_int_wire w x {b} v =
    let (after, e, a) = append_lem (ordered big (le_bytes w x)) v in
    (after, ap (λ (bytes : List ℕ). append bytes b) (network_bytes w x) ∙ e, a)

swapped :
    (w x : ℕ) → to_little_endian w (from_memory little (ordered big (le_bytes w x))) ≡ byteswap w x
unfolding to_little_endian from_memory ordered byteswap
swapped w x = refl

module _ (w x : ℕ) (rest : List ℕ) {b : Buffer} (v : IsValid b)
    (e : readable b ≡ ordered big (le_bytes w x) ++ rest) where
  enough : w ≤ readable_bytes b
  enough = omega (
    arith,
    length-readable v,
    ap length e,
    length-append (ordered big (le_bytes w x)) rest,
    length-ordered big (le_bytes w x),
    length-le_bytes w x,
  )

  front_bytes : take w (drop b.reader_index b.buffer) ≡ ordered big (le_bytes w x)
  front_bytes =
      sym (take-take w (readable_bytes b) (drop b.reader_index b.buffer) enough)
      ∙ ap (λ (bytes : List ℕ). take w bytes) e
      ∙ ground (
        arith,
        length-ordered big (le_bytes w x),
        length-le_bytes w x,
        take-append w (ordered big (le_bytes w x)) rest,
        take_all w (ordered big (le_bytes w x)),
        append-nil (ordered big (le_bytes w x)),
      )

  peek_test :
      (if w == 1 then ltb b.reader_index (length b.buffer) else leb w (readable_bytes b)) ≡ true
  peek_test = ground (arith, enough, v.order, v.bound)

  peek_swapped : peek_int little w b ≡ some (byteswap w x)
  unfolding peek_int
  peek_swapped = rw (peek_test, front_bytes) (ap (λ (n : ℕ). some n) (swapped w x))

  -- On a little-endian machine a number whose bytes stand highest first at the front of the
  -- readable bytes, as `appendIntN` writes it, is read with its bytes in the other order, and taken
  -- out.
  pub read_int_swapped :
      (after : Buffer) × (read_int little w b ≡ some (byteswap w x, after))
      × IsValid after
      × (readable after ≡ rest)
  unfolding read_int
  read_int_swapped =
      let (after, e', r) = retrieve_lem w v enough in
      (
        after,
        rw (peek_swapped, e'),
        r.valid,
        r.readable_lem
            ∙ ap (λ (bytes : List ℕ). drop w bytes) e
            ∙ ground (
              arith,
              length-ordered big (le_bytes w x),
              length-le_bytes w x,
              drop-append w (ordered big (le_bytes w x)) rest,
              drop_all w (ordered big (le_bytes w x)),
            ),
      )

-- On a little-endian machine `readIntN` does not undo `appendIntN`: of a number that is appended to
-- an empty buffer it gives the number with its bytes in the other order, and takes it out.
pub read-append_int :
    (w x : ℕ) {b : Buffer}
    → IsValid b
    → readable b ≡ []
    → (after : Buffer) × ((append_int little w x b >>= read_int little w)
        ≡ some (byteswap w x, after))
      × (readable after ≡ [])
read-append_int w x {b} v empty =
    let (mid, e, a) = append_int_wire w x v in
    let (after, e', v', left) = read_int_swapped w x [] a.valid (
      a.readable_lem
      ∙ ap (λ (bytes : List ℕ). bytes ++ ordered big (le_bytes w x)) empty
      ∙ sym (append-nil (ordered big (le_bytes w x)))) in
    (after, rw e e', left)
