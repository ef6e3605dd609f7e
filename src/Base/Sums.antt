-- ===== src/Base/Sums.antt =====
-- Sums of a function below a bound, and how they change with one value.
use Prim.Native.Nat.{ℕ, zero, suc, ◌+◌, ◌≤◌, ◌<◌}
use jkyi.Base.Tests.{◌==◌, ==_iff, Bool-cases}
use mathlib.Core.Path.{◌≡◌, refl, ap}
use mathlib.Core.Bool.{false}
use mathlib.Core.Logic.{inl, inr}
use native.Mathlib.Omega.{arith}

abbrev pub sum : (ℕ → ℕ) → ℕ → ℕ
sum f zero = 0
sum f (suc n) = f n + sum f n

pub sum-same : (f g : ℕ → ℕ) (n : ℕ) → ((i : ℕ) → i < n → f i ≡ g i) → sum f n ≡ sum g n
sum-same f g zero h = refl
sum-same f g (suc n) h = omega (arith, h n (omega arith), sum-same f g n (λ i k. h i (omega arith)))

-- Two functions that differ at `k` only
pub sum_change :
    (f g : ℕ → ℕ) (k n : ℕ)
    → k < n
    → ((i : ℕ) → (i == k) ≡ false → g i ≡ f i)
    → sum g n + f k ≡ sum f n + g k
sum_change f g k zero h same = absurd (omega arith)
sum_change f g k (suc n) h same = elim (Bool-cases (n == k)) [
  | inl e ↦
      let at_k : n ≡ k = (==_iff n k).0 e in
      let rest = sum-same g f n (λ i l. same i (ground (arith, l, at_k))) in
      omega (arith, rest, ap f at_k, ap g at_k)
  | inr e ↦ omega (arith, same n e, sum_change f g k n (ground (arith, e, h)) same)
]

pub sum-le : (f : ℕ → ℕ) (k n : ℕ) → k < n → f k ≤ sum f n
sum-le f k zero h = absurd (omega arith)
sum-le f k (suc n) h = elim (Bool-cases (n == k)) [
  | inl e ↦ omega (arith, ap f ((==_iff n k).0 e))
  | inr e ↦ omega (arith, sum-le f k n (ground (arith, e, h)))
]
