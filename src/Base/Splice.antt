-- ===== src/Base/Splice.antt =====
-- Blocks of memory: `resize`, and `memcpy` into one, the bytes `ys` written over `xs` from the
-- index `i` on.
use jkyi.Base.Lists.{
  length, take, drop, replicate, suc_add, length-take, take-take, take-append, drop-take, take_all,
}
use Prim.Native.Nat.{ℕ, zero, suc, ◌+◌, ◌-◌, ◌≤◌, max}
use mathlib.Core.Path.{◌≡◌, refl, ap}
use mathlib.Core.List.{List, [], ◌∷◌, ◌++◌}
use native.Mathlib.Omega.{arith}

-- `resize` of a vector or a string: new elements are 0.
unfoldable pub resize : ℕ → List ℕ → List ℕ
resize n xs = take n xs ++ replicate (n - length xs) 0

module _ {ℓ} {A : Type ℓ} where
  unfoldable pub splice : List A → ℕ → List A → List A
  splice [] i ys = []
  splice (x ∷ xs) zero [] = x ∷ xs
  splice (x ∷ xs) zero (y ∷ ys) = y ∷ splice xs zero ys
  splice (x ∷ xs) (suc i) ys = x ∷ splice xs i ys

  pub length-splice : (xs : List A) (i : ℕ) (ys : List A) → length (splice xs i ys) ≡ length xs
  unfolding splice
  length-splice [] i ys = refl
  length-splice (x ∷ xs) zero [] = refl
  length-splice (x ∷ xs) zero (y ∷ ys) = ap suc (length-splice xs zero ys)
  length-splice (x ∷ xs) (suc i) ys = ap suc (length-splice xs i ys)

  -- A write that stays inside the first part.
  pub splice-append_left :
      (xs zs : List A) (i : ℕ) (ys : List A)
      → i + length ys ≤ length xs
      → splice (xs ++ zs) i ys ≡ splice xs i ys ++ zs
  unfolding splice
  splice-append_left [] zs zero [] h = splice_none zs
    where
      splice_none : (zs : List A) → splice zs 0 [] ≡ zs
      splice_none [] = refl
      splice_none (z ∷ zs) = refl
  splice-append_left [] zs zero (y ∷ ys) h = absurd (omega arith)
  splice-append_left [] zs (suc i) ys h = absurd (omega arith)
  splice-append_left (x ∷ xs) zs zero [] h = refl
  splice-append_left (x ∷ xs) zs zero (y ∷ ys) h =
      ap (λ (r : List A). y ∷ r) (splice-append_left xs zs zero ys (omega arith))
  splice-append_left (x ∷ xs) zs (suc i) ys h =
      ap (λ (r : List A). x ∷ r) (splice-append_left xs zs i ys (omega arith))

  -- A write that runs over into the second part.
  pub splice-append_split :
      (xs zs : List A) (i : ℕ) (ys : List A)
      → i ≤ length xs
      → length xs ≤ i + length ys
      → splice (xs ++ zs) i ys
        ≡ splice xs i (take (length xs - i) ys) ++ splice zs 0 (drop (length xs - i) ys)
  unfolding splice
  splice-append_split [] zs zero ys h k = ground arith
  splice-append_split [] zs (suc i) ys h k = absurd (omega arith)
  splice-append_split (x ∷ xs) zs zero [] h k = absurd (omega arith)
  splice-append_split (x ∷ xs) zs zero (y ∷ ys) h k =
      ground (arith, splice-append_split xs zs zero ys (omega arith) (omega arith))
  splice-append_split (x ∷ xs) zs (suc i) ys h k =
      ground (arith, splice-append_split xs zs i ys (omega arith) (omega arith))

  pub splice-append_right :
      (xs zs : List A) (i : ℕ) (ys : List A)
      → splice (xs ++ zs) (length xs + i) ys ≡ xs ++ splice zs i ys
  unfolding splice
  splice-append_right [] zs i ys = ground arith
  splice-append_right (x ∷ xs) zs i ys = ground (arith, splice-append_right xs zs i ys)

  -- Inside the block, the bytes before and behind the write stay.
  pub splice_lem :
      (xs : List A) (i : ℕ) (ys : List A)
      → i + length ys ≤ length xs
      → splice xs i ys ≡ take i xs ++ (ys ++ drop (i + length ys) xs)
  unfolding splice
  splice_lem [] zero [] h = refl
  splice_lem [] zero (y ∷ ys) h = absurd (omega arith)
  splice_lem [] (suc i) ys h = absurd (omega arith)
  splice_lem (x ∷ xs) zero [] h = ground arith
  splice_lem (x ∷ xs) zero (y ∷ ys) h = ground (arith, splice_lem xs zero ys (omega arith))
  splice_lem (x ∷ xs) (suc i) ys h =
      rw (suc_add i (length ys)) (ap (λ (r : List A). x ∷ r) (splice_lem xs i ys (omega arith)))

  -- What is stored up to `s`, after a write at `i` that may run past `s`.
  pub take-splice :
      (xs : List A) (i s s' : ℕ) (ys : List A)
      → i ≤ s
      → s ≤ length xs
      → i + length ys ≤ length xs
      → s' ≡ max s (i + length ys)
      → take s' (splice xs i ys) ≡ take i (take s xs) ++ (ys ++ drop (i + length ys) (take s xs))
  take-splice xs i s s' ys h k l e =
      rw
        (
          splice_lem xs i ys l,
          take-take i s xs h,
          drop-take (i + length ys) s xs,
          take-append s' (take i xs) (ys ++ drop (i + length ys) xs),
        )
        (ground (
          arith,
          length-take i xs,
          take_all s' (take i xs),
          take-append (s' - i) ys (drop (i + length ys) xs),
          take_all (s' - i) ys,
        ))
