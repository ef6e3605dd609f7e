-- ===== src/Buffer/Bytes.antt =====
-- Taking bytes out of the buffer and putting them in front (JKYi/reactor/Buffer.h, retrieve to
-- retrieveAsString, unwrite, prepend).
use jkyi.Base.{
  ℕ, ◌+◌, ◌-◌, ◌≤◌, ◌<◌, ◌≡◌, sym, ◌∙◌, ap, arith, some, none, List, [], ◌++◌, length, take, drop,
  take_all, drop_all, drop-drop, drop-take, take-take, le→leb,
}
use jkyi.Base.Splice.{splice, length-splice}
use jkyi.Buffer.{
  Buffer, readable, readable_bytes, retrieve, retrieve_all, retrieve_until, retrieve_as_string,
  retrieve_all_as_string, unwrite, prepend,
}
use jkyi.Buffer.Views.{IsValid, length-readable, window-splice_behind}
use native.Mathlib.Decide.{dec_lt}

-- What taking `len` bytes out leaves.
pub record Retrieved (len : ℕ) (b after : Buffer) : Type 0 where
  pub valid : IsValid after
  pub readable_lem : readable after ≡ drop len (readable b)

module _ (len : ℕ) {b : Buffer} (v : IsValid b) where
  skipped :
      len < readable_bytes b → Retrieved len b (record b { reader_index = b.reader_index + len })
  skipped h = record {
    valid = record { order = omega arith; bound = v.bound; prefix = v.prefix };
    readable_lem =
        rw
          (
            drop-take len (readable_bytes b) (drop b.reader_index b.buffer),
            drop-drop len b.reader_index b.buffer,
          )
          (ground arith);
  }

  emptied : readable_bytes b ≤ len → Retrieved len b (retrieve_all b)
  unfolding retrieve_all
  emptied h = record {
    valid = record { order = omega arith; bound = v.prefix; prefix = v.prefix };
    readable_lem = sym (drop_all len (readable b) (omega (arith, length-readable v)));
  }

  -- `retrieve` of at most the readable bytes drops them from the front, and keeps the invariant.
  pub retrieve_lem :
      len ≤ readable_bytes b
      → (after : Buffer) × (retrieve len b ≡ some after) × Retrieved len b after
  unfolding retrieve
  retrieve_lem h = elim (dec_lt len (readable_bytes b)) [
    | yes fewer ↦ (_, ground arith, skipped fewer)
    | no all_of_them ↦ (_, ground arith, emptied (omega arith))
  ]

  -- `retrieve` of more than the readable bytes fails its assertion.
  pub retrieve_too_many : readable_bytes b < len → retrieve len b ≡ none
  unfolding retrieve
  retrieve_too_many h = ground arith

  -- `retrieveAsString` gives the first `len` readable bytes and leaves the others.
  pub retrieve_as_string_lem :
      len ≤ readable_bytes b
      → (after : Buffer) × (retrieve_as_string len b ≡ some (take len (readable b), after))
        × Retrieved len b after
  unfolding retrieve_as_string
  retrieve_as_string_lem h =
      let (after, e, r) = retrieve_lem h in
      (
        after,
        rw (le→leb len (readable_bytes b) h, e)
            (ap (λ (bytes : List ℕ). some (bytes, after))
              (sym (take-take len (readable_bytes b) (drop b.reader_index b.buffer) h))),
        r,
      )

-- `retrieveAllAsString` gives all readable bytes and leaves none.
pub retrieve_all_as_string_lem :
    {b : Buffer}
    → IsValid b
    → (after : Buffer) × (retrieve_all_as_string b ≡ some (readable b, after))
      × IsValid after
      × (readable after ≡ [])
unfolding retrieve_all_as_string
retrieve_all_as_string_lem {b} v =
    let n = readable_bytes b in
    let (after, e, r) = retrieve_as_string_lem n v (omega arith) in
    (
      after,
      e
          ∙ ap (λ (bytes : List ℕ). some (bytes, after))
              (take_all n (readable b) (omega (arith, length-readable v))),
      r.valid,
      r.readable_lem ∙ drop_all n (readable b) (omega (arith, length-readable v)),
    )

-- `retrieveUntil(end)` for a pointer into the readable bytes drops those before it.
pub retrieve_until_lem :
    (end : ℕ) {b : Buffer}
    → IsValid b
    → b.reader_index ≤ end
    → end ≤ b.writer_index
    → (after : Buffer) × (retrieve_until end b ≡ some after)
      × Retrieved (end - b.reader_index) b after
unfolding retrieve_until
retrieve_until_lem end {b} v h l =
    let (after, e, r) = retrieve_lem (end - b.reader_index) v (omega arith) in
    (after, rw (le→leb b.reader_index end h, le→leb end b.writer_index l) e, r)

-- `prepend` puts the bytes before the readable ones if they fit there.
pub prepend_lem :
    (bytes : List ℕ) {b : Buffer}
    → IsValid b
    → length bytes ≤ b.reader_index
    → (after : Buffer) × (prepend bytes b ≡ some after)
      × IsValid after
      × (readable after ≡ bytes ++ readable b)
unfolding prepend
prepend_lem bytes {b} v h = (
  record b {
    buffer = splice b.buffer (b.reader_index - length bytes) bytes;
    reader_index = b.reader_index - length bytes;
  },
  rw (le→leb (length bytes) b.reader_index h),
  record {
    order = omega (arith, v.order);
    bound = omega (arith, length-splice b.buffer (b.reader_index - length bytes) bytes, v.bound);
    prefix = omega (arith, length-splice b.buffer (b.reader_index - length bytes) bytes, v.prefix);
  },
  window-splice_behind b.buffer bytes b.reader_index b.writer_index h v.order v.bound,
)

-- `unwrite(len)` takes the last `len` readable bytes back.
pub unwrite_lem :
    (len : ℕ) {b : Buffer}
    → IsValid b
    → len ≤ readable_bytes b
    → (after : Buffer) × (unwrite len b ≡ some after)
      × IsValid after
      × (readable after ≡ take (readable_bytes b - len) (readable b))
unfolding unwrite
unwrite_lem len {b} v h = (
  record b { writer_index = b.writer_index - len },
  rw (le→leb len (readable_bytes b) h),
  record { order = omega (arith, v.order); bound = omega (arith, v.bound); prefix = v.prefix },
  ap (λ (n : ℕ). take n (drop b.reader_index b.buffer)) (later b.writer_index b.reader_index len)
      ∙ sym (
          take-take (readable_bytes b - len) (readable_bytes b) (drop b.reader_index b.buffer)
            (omega arith)),
)
  where
    later : (w r l : ℕ) → w - l - r ≡ w - r - l
    later w r l = omega arith
