-- ===== src/Buffer/Space.antt =====
-- Making room in the buffer (JKYi/reactor/Buffer.h, makeSpace to append, shrink; Buffer.cc,
-- readFd).
use jkyi.Base.{
  ℕ, ◌+◌, ◌-◌, ◌≤◌, ◌<◌, ◌≡◌, refl, sym, ◌∙◌, ap, arith, some, List, [], ◌++◌, append_assoc, length,
  take, drop, replicate, length-append, length-take, length-replicate, take_all, take-append-drop,
  lt→leb-false,
}
use jkyi.Base.Splice.{resize, splice, length-splice}
use jkyi.Buffer.{
  Buffer, create, cheap_prepend, initial_size, readable, readable_bytes, writable_bytes, make_space,
  ensure_writable_bytes, has_written, append, shrink, read_fd, ◌>>=◌,
}
use jkyi.Buffer.Views.{IsValid, length-readable, window, window-splice_before, window-append}
use native.Mathlib.Decide.{dec_lt, dec_le}

pub create-IsValid : (size : ℕ) → IsValid (create size)
unfolding create
create-IsValid size = record {
  order = omega arith;
  bound = omega (arith, length-replicate {A = ℕ} (cheap_prepend + size) 0);
  prefix = omega (arith, length-replicate {A = ℕ} (cheap_prepend + size) 0);
}

pub readable-create : (size : ℕ) → readable (create size) ≡ []
unfolding create
readable-create size = refl

resize_grow :
    (n : ℕ) (xs : List ℕ) → length xs ≤ n → resize n xs ≡ xs ++ replicate (n - length xs) 0
unfolding resize
resize_grow n xs h = ap (λ (r : List ℕ). r ++ replicate (n - length xs) 0) (take_all n xs h)

-- What making room for `len` bytes leaves: the readable bytes, and room for `len` more.
pub record Roomy (len : ℕ) (b roomy : Buffer) : Type 0 where
  pub valid : IsValid roomy
  pub same_readable : readable roomy ≡ readable b
  pub room : roomy.writer_index + len ≤ length roomy.buffer

module _ (len : ℕ) {b : Buffer} (v : IsValid b) where
  grown :
      length b.buffer < b.writer_index + len
      → Roomy len b (record b { buffer = resize (b.writer_index + len) b.buffer })
  grown l =
      let e = resize_grow (b.writer_index + len) b.buffer (omega arith) in
      rw e record {
        valid = record {
          order = v.order;
          bound = omega (
            arith,
            v.bound,
            length-append b.buffer (replicate (b.writer_index + len - length b.buffer) 0),
          );
          prefix = omega (
            arith,
            v.prefix,
            length-append b.buffer (replicate (b.writer_index + len - length b.buffer) 0),
          );
        };
        same_readable = window-append b.buffer _ b.reader_index b.writer_index v.bound;
        room = omega (
          arith,
          length-append b.buffer (replicate (b.writer_index + len - length b.buffer) 0),
          length-replicate {A = ℕ} (b.writer_index + len - length b.buffer) 0,
        );
      }

  shifted :
      b.writer_index + len ≤ length b.buffer + (b.reader_index - cheap_prepend)
      → cheap_prepend < b.reader_index
      → Roomy len b (record {
        buffer = splice b.buffer cheap_prepend (readable b);
        reader_index = cheap_prepend;
        writer_index = cheap_prepend + readable_bytes b;
      })
  shifted h l = record {
    valid = record {
      order = omega arith;
      bound = omega (arith, length-splice b.buffer cheap_prepend (readable b), v.order, v.bound);
      prefix = omega (arith, length-splice b.buffer cheap_prepend (readable b), v.prefix);
    };
    same_readable =
        ap (λ (n : ℕ). window 8 (8 + n) (splice b.buffer 8 (readable b))) (sym (length-readable v))
        ∙ window-splice_before b.buffer (readable b) 8 8 (omega arith)
            (omega (arith, length-readable v, v.order, v.bound));
    room = omega (arith, length-splice b.buffer cheap_prepend (readable b), v.order, v.bound);
  }

  make_space-Roomy :
      length b.buffer < b.writer_index + len
      → (roomy : Buffer) × (make_space len b ≡ some roomy) × Roomy len b roomy
  unfolding make_space
  make_space-Roomy h = elim (dec_lt (writable_bytes b + b.reader_index) (len + cheap_prepend)) [
    | yes small ↦ (_, ground arith, grown h)
    | no large ↦
        (_, ground (arith, v.bound), shifted (omega (arith, v.bound)) (omega (arith, v.bound)))
  ]

  -- `ensureWritableBytes` never fails: it makes room for `len` bytes and keeps the readable ones.
  -- In particular no assertion of `makeSpace` fails.
  pub ensure_writable_bytes_lem :
      (roomy : Buffer) × (ensure_writable_bytes len b ≡ some roomy) × Roomy len b roomy
  unfolding ensure_writable_bytes
  ensure_writable_bytes_lem = elim (dec_le (b.writer_index + len) (length b.buffer)) [
    | yes fits ↦ (b, ground arith, record { valid = v; same_readable = refl; room = fits })
    | no short ↦
        let (roomy, e, r) = make_space-Roomy (omega arith) in
        (roomy, ground (arith, e, v.bound, r.room), r)
  ]

-- What `append` leaves.
pub record Appended (bytes : List ℕ) (b after : Buffer) : Type 0 where
  pub valid : IsValid after
  pub readable_lem : readable after ≡ readable b ++ bytes

-- Bytes put behind the readable ones, where they fit.
placed : List ℕ → Buffer → Buffer
placed bytes b = record b {
  buffer = splice b.buffer b.writer_index bytes;
  writer_index = b.writer_index + length bytes;
}

placed-Appended :
    (bytes : List ℕ) {b : Buffer}
    → IsValid b
    → b.writer_index + length bytes ≤ length b.buffer
    → Appended bytes b (placed bytes b)
unfolding placed
placed-Appended bytes {b} v h = record {
  valid = record {
    order = omega (arith, v.order);
    bound = omega (arith, length-splice b.buffer b.writer_index bytes, h);
    prefix = omega (arith, length-splice b.buffer b.writer_index bytes, v.prefix);
  };
  readable_lem = window-splice_before b.buffer bytes b.reader_index b.writer_index v.order h;
}

module _ (bytes : List ℕ) {b : Buffer} (v : IsValid b) where
  -- `append` never fails, keeps the invariant, and puts the bytes behind the readable ones.
  pub append_lem : (after : Buffer) × (append bytes b ≡ some after) × Appended bytes b after
  unfolding append has_written placed
  append_lem =
      let (roomy, e, r) = ensure_writable_bytes_lem (length bytes) v in
      let long = length-splice roomy.buffer roomy.writer_index bytes in
      let a = placed-Appended bytes r.valid r.room in
      (
        placed bytes roomy,
        rw (e, ◌>>=◌) (ground (arith, long, r.room)),
        record {
          valid = a.valid;
          readable_lem = a.readable_lem ∙ ap (λ (xs : List ℕ). xs ++ bytes) r.same_readable;
        },
      )

-- `shrink` keeps the readable bytes and leaves room for `reserve` more.
pub shrink_lem :
    (reserve : ℕ) {b : Buffer}
    → IsValid b
    → (after : Buffer) × (shrink reserve b ≡ some after)
      × IsValid after
      × (readable after ≡ readable b)
unfolding shrink
shrink_lem reserve {b} v =
    let (other, e, r) =
      ensure_writable_bytes_lem (readable_bytes b + reserve) (create-IsValid initial_size) in
    let (after, e', a) = append_lem (readable b) r.valid in
    (
      after,
      rw (e, ◌>>=◌) e',
      a.valid,
      a.readable_lem
          ∙ ap (λ (xs : List ℕ). xs ++ readable b) (r.same_readable ∙ readable-create initial_size),
    )

module _ (bytes : List ℕ) {b : Buffer} (v : IsValid b) where
  -- `readFd` puts all the bytes that `readv` gives behind the readable ones, those that came into
  -- the extra buffer too, and keeps the invariant.
  pub read_fd_lem :
      (after : Buffer) × (read_fd (some bytes) b ≡ some after) × Appended bytes b after
  unfolding read_fd placed
  read_fd_lem = elim (dec_le (length bytes) (writable_bytes b)) [
    | yes fits ↦ (
      placed bytes b,
      ground (arith, take_all (writable_bytes b) bytes fits),
      placed-Appended bytes v (omega (arith, v.bound)),
    )
    | no over ↦
        let front = take (writable_bytes b) bytes in
        let full : b.writer_index + length front ≡ length b.buffer =
          omega (arith, length-take (writable_bytes b) bytes, v.bound) in
        let a = placed-Appended front v (omega (arith, full)) in
        let (after, e, more) = append_lem (drop (writable_bytes b) bytes) a.valid in
        (
          after,
          rw (lt→leb-false (length bytes) (writable_bytes b) (omega arith)) (
              ap
                (λ (n : ℕ).
                  append (drop (writable_bytes b) bytes)
                    (record b { buffer = splice b.buffer b.writer_index front; writer_index = n }))
                (sym full)
              ∙ e),
          record {
            valid = more.valid;
            readable_lem =
                more.readable_lem
                ∙ ap (λ (xs : List ℕ). xs ++ drop (writable_bytes b) bytes) a.readable_lem
                ∙ append_assoc (readable b) front (drop (writable_bytes b) bytes)
                ∙ ap (λ (xs : List ℕ). readable b ++ xs)
                    (take-append-drop (writable_bytes b) bytes);
          },
        )
  ]
