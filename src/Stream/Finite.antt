-- ===== src/Stream/Finite.antt =====
-- The loops of JKYi/stream.cc over a stream from which only so many bytes will come.
use jkyi.Base.{
  ℕ, zero, suc, ◌+◌, ◌-◌, ◌≤◌, ◌<◌, ◌≡◌, ◌⊎◌, inl, inr, refl, ap, arith, Option, none, some, List,
  length, drop,
}
use jkyi.Codec.Int.{ℤ}
use jkyi.Stream.{
  Stream, positive, to_left, finish, read_loop, write_loop, read_fix_size, write_fix_size,
}
use jkyi.Stream.FixSize.{zero_or_more}

-- `left` bounds what will still be read; a read takes what it gets off it, and nothing adds to it.
pub record Finite {S : Type 0} (io : Stream S) (left : S → ℕ) : Type 0 where
  pub read : (n : ℕ) (s : S) → left (io.read n s).2 + positive (io.read n s).0 ≤ left s
  pub write : (buffer : List ℕ) (s : S) → left (io.write buffer s).1 ≤ left s
  pub close : (s : S) → left (io.close s) ≤ left s

module _ {S : Type 0} (io : Stream S) (left : S → ℕ) (finite : Finite io left) where
  read_loop-left :
      (bound n : ℕ) (s : S)
      → n ≤ bound
      → ((read_loop io bound n s).0 ≡ none) × (left (read_loop io bound n s).2 + n ≤ left s)
        ⊎ ((len : ℤ) × ((read_loop io bound n s).0 ≡ some len)
            × (positive len ≡ 0)
            × (left (read_loop io bound n s).2 ≤ left s))
  unfolding read_loop
  read_loop-left bound zero s h = inl (refl, omega arith)
  read_loop-left zero (suc n) s h = absurd (omega arith)
  read_loop-left (suc bound) (suc n) s h =
      let r = io.read (suc n) s in
      let got = finite.read (suc n) s in
      elim (zero_or_more (positive r.0)) [
        | inl z ↦ rw z.0 (inr (r.0, refl, z.1, omega (arith, got)))
        | inr z ↦
            rw z.0 (elim (read_loop-left bound (suc n - positive r.0) r.2 (omega (arith, z.1))) [
              | inl d ↦ inl (d.0, omega (arith, got, d.1))
              | inr d ↦ inr (d.0, d.1, d.2, omega (arith, got, d.3))
            ])
      ]

  write_loop-left :
      (bound n : ℕ) (buffer : List ℕ) (s : S) → left (write_loop io bound n buffer s).1 ≤ left s
  unfolding write_loop
  write_loop-left bound zero buffer s = omega arith
  write_loop-left zero (suc n) buffer s = omega arith
  write_loop-left (suc bound) (suc n) buffer s =
      let r = io.write buffer s in
      let put = finite.write buffer s in
      elim (zero_or_more (positive r.0)) [
        | inl z ↦ rw z.0 put
        | inr z ↦ rw z.0 (
            omega (
              arith,
              put,
              write_loop-left bound (suc n - positive r.0) (drop (positive r.0) buffer) r.1,
            ))
      ]

  -- A call that succeeds has taken all it was asked for, and no call adds.
  pub read_fix_size-left :
      (n : ℕ) (s : S)
      → (left (read_fix_size io n s).2 ≤ left s)
        × (0 < positive (read_fix_size io n s).0
            → left (read_fix_size io n s).2 + to_left n ≤ left s)
  unfolding read_fix_size finish
  read_fix_size-left n s = elim (read_loop-left (to_left n) (to_left n) s (omega arith)) [
    | inl d ↦ (omega (arith, d.1), λ p. d.1)
    | inr d ↦ (
      d.3,
      λ p. absurd (
          omega
            (arith, p, ap (λ (o : Option ℤ). positive (finish n o)) d.1, positive-finish d.0, d.2)),
    )
  ]
    where
      positive-finish : (len : ℤ) → positive (finish n (some len)) ≡ positive len
      positive-finish len = refl

  pub write_fix_size-left : (buffer : List ℕ) (s : S) → left (write_fix_size io buffer s).1 ≤ left s
  unfolding write_fix_size
  write_fix_size-left buffer s =
      write_loop-left (to_left (length buffer)) (to_left (length buffer)) buffer s
