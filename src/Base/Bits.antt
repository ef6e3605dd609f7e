-- ===== src/Base/Bits.antt =====
-- `&`, `|` and `^` as arithmetic, at every width: masks of low bits, fields side by side, and the
-- complement.
use Prim.Native.Nat.{ℕ, zero, suc, ◌+◌, ◌-◌, ◌*◌, ◌/◌, ◌%◌, ◌^◌, ◌≤◌, ◌<◌, min, max}
use Prim.Native.Nat.{bit_and, bit_or, bit_xor, digits, bitwise, differ}
use Prim.Native.Nat.{bit_and-bitwise, bit_or-bitwise, bit_xor-bitwise}
use mathlib.Core.Path.{◌≡◌, refl, ap}
use native.Mathlib.Nat.{pow-suc, one-le-pow, div-add-mod}
use native.Mathlib.Omega.{arith}

-- The count of digits to go does not matter, as long as it covers the first number.
module _ (rest : ℕ → ℕ) (on_digits : ℕ → ℕ → ℕ) where
  count_irrelevant :
      (k l x y : ℕ) → x ≤ k → x ≤ l → digits rest on_digits k x y ≡ digits rest on_digits l x y
  count_irrelevant zero zero x y hk hl = refl
  count_irrelevant zero (suc l) zero y hk hl = refl
  count_irrelevant zero (suc l) (suc x) y hk hl = absurd (omega arith)
  count_irrelevant (suc k) zero zero y hk hl = refl
  count_irrelevant (suc k) zero (suc x) y hk hl = absurd (omega arith)
  count_irrelevant (suc k) (suc l) zero y hk hl = refl
  count_irrelevant (suc k) (suc l) (suc x) y hk hl =
      ap (λ (d : ℕ). d * 2 + on_digits (suc x % 2) (y % 2))
        (count_irrelevant k l (suc x / 2) (y / 2) (omega arith) (omega arith))

  lowest_digit :
      (x y : ℕ)
      → bitwise rest on_digits (suc x) y
        ≡ bitwise rest on_digits (suc x / 2) (y / 2) * 2 + on_digits (suc x % 2) (y % 2)
  lowest_digit x y =
      ap (λ (d : ℕ). d * 2 + on_digits (suc x % 2) (y % 2))
        (count_irrelevant x (suc x / 2) (suc x / 2) (y / 2) (omega arith) (omega arith))

and_digit : (x y : ℕ) → bit_and x y ≡ bit_and (x / 2) (y / 2) * 2 + min (x % 2) (y % 2)
and_digit zero y = simp bit_and-bitwise (omega arith)
and_digit (suc x) y = simp bit_and-bitwise (lowest_digit (λ b. zero) min x y)

or_digit : (x y : ℕ) → bit_or x y ≡ bit_or (x / 2) (y / 2) * 2 + max (x % 2) (y % 2)
or_digit zero y = simp bit_or-bitwise (omega arith)
or_digit (suc x) y = simp bit_or-bitwise (lowest_digit (λ b. b) max x y)

zero-differ : (b : ℕ) → differ 0 b ≡ b
zero-differ b = refl

pub xor_digit : (x y : ℕ) → bit_xor x y ≡ bit_xor (x / 2) (y / 2) * 2 + differ (x % 2) (y % 2)
xor_digit zero y = simp bit_xor-bitwise (omega arith)
xor_digit (suc x) y = simp bit_xor-bitwise (lowest_digit (λ b. b) differ x y)

double_pow : (q k : ℕ) → q * 2 ^ suc k ≡ 2 * (q * 2 ^ k)
double_pow q k = omega (arith, ap (λ (t : ℕ). q * t) (pow-suc 2 k))

-- With fuel `k`: halving `k` times takes a number below 2 ^ k to 0.
bit_and-zero : (k x : ℕ) → x ≤ k → bit_and x 0 ≡ 0
bit_and-zero k zero h = refl
bit_and-zero zero (suc x) h = absurd (omega arith)
bit_and-zero (suc k) (suc x) h =
    omega (arith, and_digit (suc x) 0, bit_and-zero k (suc x / 2) (omega arith))

bit_or-zero : (k x : ℕ) → x ≤ k → bit_or x 0 ≡ x
bit_or-zero k zero h = refl
bit_or-zero zero (suc x) h = absurd (omega arith)
bit_or-zero (suc k) (suc x) h =
    omega (arith, or_digit (suc x) 0, bit_or-zero k (suc x / 2) (omega arith))

bit_xor-zero_upto : (k x : ℕ) → x ≤ k → bit_xor x 0 ≡ x
bit_xor-zero_upto k zero h = refl
bit_xor-zero_upto zero (suc x) h = absurd (omega arith)
bit_xor-zero_upto (suc k) (suc x) h = ground (
  arith,
  xor_digit (suc x) 0,
  bit_xor-zero_upto k (suc x / 2) (omega arith),
  differ_bit (suc x % 2) (omega arith),
)
  where
    differ_bit : (b : ℕ) → b < 2 → differ b 0 ≡ b
    differ_bit zero h = refl
    differ_bit (suc b) h = refl

pub bit_xor-zero : (x : ℕ) → bit_xor x 0 ≡ x
bit_xor-zero x = bit_xor-zero_upto x x (omega arith)

pub mod_unique : (q n r x : ℕ) → x ≡ q * n + r → r < n → x % n ≡ r
mod_unique q n r x e h = grind arith

mod_double : (m x : ℕ) → 0 < m → x % (m * 2) ≡ x / 2 % m * 2 + x % 2
mod_double m x h =
    mod_unique (x / 2 / m) (m * 2) (x / 2 % m * 2 + x % 2) x (omega (arith, div-add-mod (x / 2) m))
      (grind arith)

-- `x & (2 ^ k - 1)` is the remainder by `2 ^ k`.
pub and_mask : (k x : ℕ) → bit_and x (2 ^ k - 1) ≡ x % 2 ^ k
and_mask zero x = ground (arith, bit_and-zero x x)
and_mask (suc k) x =
    ground
      (arith, and_digit x (2 ^ suc k - 1), and_mask k (x / 2), pow-suc 2 k, one-le-pow k 2, halves)
  where
    halves : x % 2 ^ suc k ≡ x / 2 % 2 ^ k * 2 + x % 2
    halves = rw (pow-suc 2 k) (mod_double (2 ^ k) x (one-le-pow k 2 (omega arith)))

-- `r | (q << k)` is a sum if `r` fits `k` bits.
pub or_fields : (k q r : ℕ) → r < 2 ^ k → bit_or r (q * 2 ^ k) ≡ r + q * 2 ^ k
or_fields zero q zero h = simp bit_or-bitwise (omega arith)
or_fields zero q (suc r) h = absurd (omega arith)
or_fields (suc k) q r h = ground (
  arith,
  or_digit r (q * 2 ^ suc k),
  double_pow q k,
  pow-suc 2 k,
  or_fields k q (r / 2) (omega (arith, pow-suc 2 k)),
)

-- Exclusive or with a mask of ones is the complement.
pub xor_ones : (k x : ℕ) → x < 2 ^ k → bit_xor x (2 ^ k - 1) ≡ 2 ^ k - 1 - x
xor_ones zero x h = ground (arith, bit_xor-zero x)
xor_ones (suc k) x h = ground (
  arith,
  xor_digit x (2 ^ suc k - 1),
  pow-suc 2 k,
  one-le-pow k 2,
  xor_ones k (x / 2) (omega (arith, pow-suc 2 k)),
  differ_one (x % 2) (omega arith),
)
  where
    differ_one : (b : ℕ) → b < 2 → differ b 1 ≡ 1 - b
    differ_one zero h = refl
    differ_one (suc zero) h = refl
    differ_one (suc (suc b)) h = absurd (omega arith)

-- Bit `k` of a number below `2 ^ k` is not set.
pub and_bit : (k x : ℕ) → x < 2 ^ k → bit_and x (2 ^ k) ≡ 0
and_bit zero zero h = simp bit_and-bitwise (omega arith)
and_bit zero (suc x) h = absurd (omega arith)
and_bit (suc k) x h =
    ground
      (arith, and_digit x (2 ^ suc k), pow-suc 2 k, and_bit k (x / 2) (omega (arith, pow-suc 2 k)))

-- Numbers of `k` bits stay numbers of `k` bits under `|`.
pub or_bound : (k x y : ℕ) → x < 2 ^ k → y < 2 ^ k → bit_or x y < 2 ^ k
or_bound zero zero y hx hy = simp bit_or-bitwise (omega arith)
or_bound zero (suc x) y hx hy = absurd (omega arith)
or_bound (suc k) x y hx hy =
    let half =
      or_bound k (x / 2) (y / 2) (omega (arith, pow-suc 2 k)) (omega (arith, pow-suc 2 k)) in
    omega (arith, or_digit x y, half, pow-suc 2 k)
