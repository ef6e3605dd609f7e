-- ===== src/Stream/FixSize.antt =====
-- What the loops of JKYi/stream.cc do.
use jkyi.Base.{
  ℕ, zero, suc, ◌+◌, ◌-◌, ◌^◌, ◌≤◌, ◌<◌, ◌≡◌, ◌⊎◌, inl, inr, refl, ap, arith, true, false, Option,
  none, some, List, [], ◌++◌, append_assoc, sym, ◌∙◌, ◌==◌, length, length-append, lt→ltb,
}
use jkyi.Codec.Int.{ℤ, pos, to_signed}
use jkyi.Stream.{
  Stream, positive, to_left, to_int, finish, read_loop, array_loop, read_fix_size,
  read_array_fix_size, write_array_fix_size,
}

pub zero_or_more : (n : ℕ) → ((n == 0) ≡ true) × (n ≡ 0) ⊎ ((n == 0) ≡ false) × (0 < n)
zero_or_more zero = inl (refl, refl)
zero_or_more (suc n) = inr (ground arith, omega arith)

pub to_left_small : (n : ℕ) → n < 2 ^ 31 → to_left n ≡ n
unfolding to_left
to_left_small n h = rw (lt→ltb n (2 ^ 63) (omega arith)) refl

pub to_int_small : (n : ℕ) → n < 2 ^ 31 → to_int n ≡ pos n
unfolding to_int to_signed
to_int_small n h = ground arith

-- What the documentation of read(2) says of the bytes: as many as the result tells, and no more
-- than were asked for.
abbrev pub Honest : {S : Type 0} → Stream S → Type 0
Honest {S} io =
    (n : ℕ) (s : S)
    → (length (io.read n s).1 ≡ positive (io.read n s).0) × (positive (io.read n s).0 ≤ n)

-- An operation on the byte array that moves it by what its result tells.
abbrev pub Counted : {S : Type 0} → (S → ℕ) → (ℕ → S → ℤ × S) → Type 0
Counted {S} count op =
    (n : ℕ) (s : S) → (positive (op n s).0 ≤ n) × (count (op n s).1 ≡ count s + positive (op n s).0)

-- The last of the reads of a call for `n` bytes asked for all that was missing, and gave `len`,
-- which is not positive. `bytes` and `after` are what the call has read and left.
abbrev pub Failed : {S : Type 0} → Stream S → ℕ → ℤ → List ℕ → S → Type 0
Failed {S} io n len bytes after =
    (before : List ℕ) × (s : S) × (len ≡ (io.read (n - length before) s).0)
    × (positive len ≡ 0)
    × (bytes ≡ before ++ (io.read (n - length before) s).1)
    × (after ≡ (io.read (n - length before) s).2)
    × (length bytes < n)

-- A call for `n` bytes has returned `whole` and moved by `n`, or a result that is not positive and
-- moved by less.
abbrev pub Moved : {S : Type 0} → (S → ℕ) → ℤ → ℕ → S → ℤ × S → Type 0
Moved count whole n s r =
    (r.0 ≡ whole) × (count r.1 ≡ count s + n) ⊎ (positive r.0 ≡ 0) × (count r.1 < count s + n)

module _ {S : Type 0} (io : Stream S) where
  Failed-first :
      (n : ℕ) (s : S)
      → positive (io.read n s).0 ≡ 0
      → length (io.read n s).1 < n
      → Failed io n (io.read n s).0 (io.read n s).1 (io.read n s).2
  Failed-first n s z short =
      let all : n - 0 ≡ n = omega arith in ([], s, rw all refl, z, rw all refl, rw all refl, short)

  Failed-later :
      (n p : ℕ) (first : List ℕ) (len : ℤ) (bytes : List ℕ) (after : S)
      → length first ≡ p
      → p ≤ n
      → Failed io (n - p) len bytes after
      → Failed io n len (first ++ bytes) after
  Failed-later n p first len bytes after e h
        (before, s, result, small, bytes_lem, after_lem, short) =
      let asked : n - length (first ++ before) ≡ n - p - length before =
        omega (arith, e, h, length-append first before) in
      (
        first ++ before,
        s,
        rw asked result,
        small,
        rw (asked, bytes_lem) (sym (append_assoc first before _)),
        rw asked after_lem,
        omega (arith, e, h, short, length-append first bytes),
      )

  -- With any bound that covers what is left, the loop ends with all of it read, or with the result
  -- of a read that is not positive.
  read_loop-ends :
      Honest io
      → (bound left : ℕ) (s : S) → left ≤ bound
      → ((read_loop io bound left s).0 ≡ none) × (length (read_loop io bound left s).1 ≡ left)
        ⊎ ((len : ℤ) × ((read_loop io bound left s).0 ≡ some len)
            × Failed io left len (read_loop io bound left s).1 (read_loop io bound left s).2)
  unfolding read_loop
  read_loop-ends honest bound zero s h = inl (refl, refl)
  read_loop-ends honest zero (suc left) s h = absurd (omega arith)
  read_loop-ends honest (suc bound) (suc left) s h =
      let r = io.read (suc left) s in
      let got = honest (suc left) s in
      elim (zero_or_more (positive r.0)) [
        | inl z ↦ rw z.0 (inr (r.0, refl, Failed-first (suc left) s z.1 (omega (arith, got, z.1))))
        | inr z ↦
            let rest = read_loop io bound (suc left - positive r.0) r.2 in
            rw z.0
              (elim (read_loop-ends honest bound (suc left - positive r.0) r.2
                (omega (arith, z.1))) [
                  | inl d ↦ inl (d.0, omega (arith, length-append r.1 rest.1, got, d.1))
                  | inr d ↦ inr (
                    d.0,
                    d.1,
                    Failed-later (suc left) (positive r.0) r.1 d.0 rest.1 rest.2 got.0 got.1 d.2,
                  )
                ])
      ]

  array_loop-ends :
      (count : S → ℕ) (op : ℕ → S → ℤ × S)
      → Counted count op
      → (bound left : ℕ) (s : S) → left ≤ bound
      → ((array_loop io op bound left s).0 ≡ none)
          × (count (array_loop io op bound left s).1 ≡ count s + left)
        ⊎ ((len : ℤ) × ((array_loop io op bound left s).0 ≡ some len)
            × (positive len ≡ 0)
            × (count (array_loop io op bound left s).1 < count s + left))
  unfolding array_loop
  array_loop-ends count op counted bound zero s h = inl (refl, omega arith)
  array_loop-ends count op counted zero (suc left) s h = absurd (omega arith)
  array_loop-ends count op counted (suc bound) (suc left) s h =
      let r = op (suc left) s in
      let got = counted (suc left) s in
      elim (zero_or_more (positive r.0)) [
        | inl z ↦ rw z.0 (inr (r.0, refl, z.1, omega (arith, got, z.1)))
        | inr z ↦
            rw z.0
              (elim (array_loop-ends count op counted bound (suc left - positive r.0) r.1
                (omega (arith, z.1))) [
                  | inl d ↦ inl (d.0, omega (arith, got, d.1))
                  | inr d ↦ inr (d.0, d.1, d.2, omega (arith, got, d.3))
                ])
      ]

  -- readFixSize of less than 2 GB, from a stream whose reads give as many bytes as they say and no
  -- more than they are asked for, ends: it returns the length with exactly that many bytes read, or
  -- the result, which is not positive, of its last read, which asked for all that was missing, with
  -- fewer bytes read and the stream as that read left it.
  pub read_fix_size_lem :
      Honest io
      → (n : ℕ) (s : S) → n < 2 ^ 31
      → ((read_fix_size io n s).0 ≡ pos n) × (length (read_fix_size io n s).1 ≡ n)
        ⊎ Failed io n (read_fix_size io n s).0 (read_fix_size io n s).1 (read_fix_size io n s).2
  unfolding read_fix_size finish
  read_fix_size_lem honest n s h =
      rw (to_left_small n h) (elim (read_loop-ends honest n n s (omega arith)) [
        | inl d ↦ inl (ap (λ (o : Option ℤ). finish n o) d.0 ∙ to_int_small n h, d.1)
        | inr d ↦ inr (rw d.1 d.2)
      ])

  -- readFixSize and writeFixSize of less than 2 GB with a byte array end. `count` tells how far the
  -- array has come, and each single operation moves it by its result, which is at most what was
  -- asked for: then the call returns the size and has moved the array by exactly that, or returns a
  -- result that is not positive and has moved it by less.
  pub array_fix_size_lem :
      (count : S → ℕ)
      → Counted count io.read_array
      → Counted count io.write_array
      → (n : ℕ) (s : S) → n < 2 ^ 31
      → Moved count (pos n) n s (read_array_fix_size io n s)
        × Moved count (pos n) n s (write_array_fix_size io n s)
  unfolding read_array_fix_size write_array_fix_size finish
  array_fix_size_lem count reads writes n s h =
      (of_op io.read_array reads, of_op io.write_array writes)
    where
      of_op :
          (op : ℕ → S → ℤ × S)
          → Counted count op
          → Moved count (pos n) n s (
            finish n (array_loop io op (to_left n) (to_left n) s).0,
            (array_loop io op (to_left n) (to_left n) s).1,
          )
      of_op op counted =
          rw (to_left_small n h) (elim (array_loop-ends count op counted n n s (omega arith)) [
            | inl d ↦ inl (ap (λ (o : Option ℤ). finish n o) d.0 ∙ to_int_small n h, d.1)
            | inr d ↦ inr (ap (λ (o : Option ℤ). positive (finish n o)) d.1 ∙ d.2, d.3)
          ])
