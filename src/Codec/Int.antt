-- ===== src/Codec/Int.antt =====
-- Signed integers and their bits: two's complement with the modulus `m`, a power of two.
use jkyi.Base.{ℕ, suc, ◌-◌, ◌*◌, ◌%◌, ◌<◌, ◌≡◌, arith, ltb, if◌then◌else◌}
use native.Mathlib.Nat.{mod-eq_of_lt}

-- `negsuc n` is -(n + 1).
pub data ℤ : Type 0 where
  pos : ℕ → ℤ
  negsuc : ℕ → ℤ

-- The bits of an integer, and the integer that bits stand for.
unfoldable pub to_unsigned : ℕ → ℤ → ℕ
to_unsigned m (pos n) = n % m
to_unsigned m (negsuc n) = (m - suc n % m) % m

unfoldable pub to_signed : ℕ → ℕ → ℤ
to_signed m u = if ltb (u * 2) m then pos u else negsuc (m - u - 1)

-- The integers that fit: from - m / 2 to m / 2 - 1.
abbrev pub Fits : ℕ → ℤ → Type 0
Fits m (pos n) = n * 2 < m
Fits m (negsuc n) = n * 2 < m

pub to_unsigned-lt : (m : ℕ) (v : ℤ) → 0 < m → to_unsigned m v < m
unfolding to_unsigned
to_unsigned-lt m (pos n) h = omega arith
to_unsigned-lt m (negsuc n) h = omega arith

pub to_signed-to_unsigned :
    (m half : ℕ) (v : ℤ) → m ≡ half * 2 → Fits m v → to_signed m (to_unsigned m v) ≡ v
unfolding to_signed to_unsigned
to_signed-to_unsigned m half (pos n) e h =
    ground (arith, mod-eq_of_lt {n = n} {m = m} (omega arith))
to_signed-to_unsigned m half (negsuc n) e h = ground (
  arith,
  mod-eq_of_lt {n = suc n} {m = m} (omega arith),
  mod-eq_of_lt {n = m - suc n} {m = m} (omega arith),
)
