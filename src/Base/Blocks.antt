-- ===== src/Base/Blocks.antt =====
-- Memory in blocks of one size: chains of nodes, and where an address falls in them.
use jkyi.Base.Lists.{length, take, drop, flatten, All, replicate, length-append}
use jkyi.Base.Lists.{drop-append, drop_all}
use Prim.Native.Nat.{ℕ, zero, suc, ◌+◌, ◌-◌, ◌*◌, ◌%◌, ◌≤◌, ◌<◌}
use mathlib.Core.Path.{◌≡◌, sym}
use mathlib.Core.List.{List, [], ◌∷◌, ◌++◌}
use native.Mathlib.Omega.{arith}

module _ {ℓ κ} {A : Type ℓ} (P : A → Type κ) where
  pub All-append : (xs ys : List A) → All P xs → All P ys → All P (xs ++ ys)
  All-append [] ys h k = k
  All-append (x ∷ xs) ys h k = (h.0, All-append xs ys h.1 k)

  pub All-take : (n : ℕ) (xs : List A) → All P xs → All P (take n xs)
  All-take zero xs h = tt
  All-take (suc n) [] h = tt
  All-take (suc n) (x ∷ xs) h = (h.0, All-take n xs h.1)

  pub All-drop : (n : ℕ) (xs : List A) → All P xs → All P (drop n xs)
  All-drop zero xs h = h
  All-drop (suc n) [] h = tt
  All-drop (suc n) (x ∷ xs) h = All-drop n xs h.1

  pub All-replicate : (n : ℕ) (x : A) → P x → All P (replicate n x)
  All-replicate zero x h = tt
  All-replicate (suc n) x h = (h, All-replicate n x h)

abbrev pub IsBlock {ℓ} : {A : Type ℓ} → ℕ → List A → Type 0
IsBlock b xs = length xs ≡ b

module _ {ℓ} {A : Type ℓ} where
  pub length-flatten :
      (b : ℕ) (xss : List (List A)) → All (IsBlock b) xss → length (flatten xss) ≡ length xss * b
  length-flatten b [] h = omega arith
  length-flatten b (xs ∷ xss) h =
      omega (arith, length-append xs (flatten xss), length-flatten b xss h.1, h.0)

  -- The blocks from the `k`-th on hold what lies behind the first `k * b` cells.
  pub flatten-drop :
      (b k : ℕ) (xss : List (List A))
      → All (IsBlock b) xss
      → flatten (drop k xss) ≡ drop (k * b) (flatten xss)
  flatten-drop b zero xss h = ground arith
  flatten-drop b (suc k) [] h = sym (drop_all (suc k * b) [] (omega arith))
  flatten-drop b (suc k) (xs ∷ xss) h = ground (
    arith,
    flatten-drop b k xss h.1,
    drop-append (suc k * b) xs (flatten xss),
    drop_all (suc k * b) xs (omega arith),
  )

pub block_index_unique : (b p c : ℕ) → c * b ≤ p → p < c * b + b → p % b ≡ p - c * b
block_index_unique b p c h k = grind arith
