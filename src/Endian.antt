-- ===== src/Endian.antt =====
-- JKYi/endian.h: byte order. The platform's BYTE_ORDER is the parameter `host`. A number of `w`
-- bytes is below 256 ^ w; `memcpy` of it gives its bytes in the order of the host.
use jkyi.Base.{
  ℕ, zero, suc, ◌+◌, ◌*◌, ◌/◌, ◌%◌, ◌^◌, ◌<◌, ◌≡◌, refl, sym, ◌∙◌, ap, arith, Bool, true, false,
  List, [], ◌∷◌, if◌then◌else◌, length, length-append, All,
}
use jkyi.Base.Blocks.{All-append}
use mathlib.Core.List.{reverse, reverse-cons, reverse-reverse}
use native.Mathlib.Nat.{pow-suc}

-- JKYI_LITTLE_ENDIAN and JKYI_BIG_ENDIAN
pub data Endian : Type 0 where
  little big : Endian

abbrev pub same_order : Endian → Endian → Bool
same_order little little = true
same_order big big = true
same_order little big = false
same_order big little = false

abbrev pub IsByte : ℕ → Type 0
IsByte b = b < 256

-- The `w` bytes of a number, lowest first, and back.
unfoldable pub le_bytes : ℕ → ℕ → List ℕ
le_bytes zero v = []
le_bytes (suc w) v = v % 256 ∷ le_bytes w (v / 256)

unfoldable pub from_le : List ℕ → ℕ
from_le [] = 0
from_le (b ∷ bs) = b + 256 * from_le bs

-- Numbers in memory: `memcpy` out of a variable, and into one.
unfoldable pub ordered : Endian → List ℕ → List ℕ
ordered little bs = bs
ordered big bs = reverse bs

unfoldable pub to_memory : Endian → ℕ → ℕ → List ℕ
to_memory host w v = ordered host (le_bytes w v)

unfoldable pub from_memory : Endian → List ℕ → ℕ
from_memory host bs = from_le (ordered host bs)

-- `byteswap` of a number of `w` bytes, by bswap_16, bswap_32 or bswap_64
unfoldable pub byteswap : ℕ → ℕ → ℕ
byteswap w v = from_le (reverse (le_bytes w v))

-- `toNetEndian` and `toLittleEndian`. The test `JKYI_BYTE_ENDIAN == JKYI_BIG_ENDIAN` names a macro
-- that nothing defines, so the second branch is compiled on every host.
unfoldable pub to_net_endian : ℕ → ℕ → ℕ
to_net_endian w v = byteswap w v

unfoldable pub to_little_endian : ℕ → ℕ → ℕ
to_little_endian w v = v

pub length-le_bytes : (w v : ℕ) → length (le_bytes w v) ≡ w
unfolding le_bytes
length-le_bytes zero v = refl
length-le_bytes (suc w) v = ap suc (length-le_bytes w (v / 256))

pub le_bytes-IsByte : (w v : ℕ) → All IsByte (le_bytes w v)
unfolding le_bytes
le_bytes-IsByte zero v = tt
le_bytes-IsByte (suc w) v = (omega arith, le_bytes-IsByte w (v / 256))

pub length-reverse : (bs : List ℕ) → length (reverse bs) ≡ length bs
length-reverse [] = refl
length-reverse (b ∷ bs) =
    omega
      (arith, ap length (reverse-cons b bs), length-append (reverse bs) (b ∷ []), length-reverse bs)

reverse-IsByte : (bs : List ℕ) → All IsByte bs → All IsByte (reverse bs)
reverse-IsByte [] h = tt
reverse-IsByte (b ∷ bs) h =
    rw reverse-cons (All-append IsByte (reverse bs) (b ∷ []) (reverse-IsByte bs h.1) (h.0, tt))

pub length-ordered : (e : Endian) (bs : List ℕ) → length (ordered e bs) ≡ length bs
unfolding ordered
length-ordered little bs = refl
length-ordered big bs = length-reverse bs

pub length-to_memory : (host : Endian) (w v : ℕ) → length (to_memory host w v) ≡ w
unfolding to_memory
length-to_memory host w v = length-ordered host (le_bytes w v) ∙ length-le_bytes w v

pub from_le-le_bytes : (w v : ℕ) → v < 256 ^ w → from_le (le_bytes w v) ≡ v
unfolding le_bytes from_le
from_le-le_bytes zero v h = omega arith
from_le-le_bytes (suc w) v h =
    omega (arith, from_le-le_bytes w (v / 256) (omega (arith, pow-suc 256 w)))

pub le_bytes-from_le : (bs : List ℕ) → All IsByte bs → le_bytes (length bs) (from_le bs) ≡ bs
unfolding le_bytes from_le
le_bytes-from_le [] h = refl
le_bytes-from_le (b ∷ bs) h = ground (arith, le_bytes-from_le bs h.1)

-- A swapped number has the bytes in the other order.
pub le_bytes-byteswap : (w v : ℕ) → le_bytes w (byteswap w v) ≡ reverse (le_bytes w v)
unfolding byteswap
le_bytes-byteswap w v =
    ap (λ (n : ℕ). le_bytes n (from_le (reverse (le_bytes w v))))
      (sym (length-reverse (le_bytes w v) ∙ length-le_bytes w v))
    ∙ le_bytes-from_le (reverse (le_bytes w v))
        (reverse-IsByte (le_bytes w v) (le_bytes-IsByte w v))

pub byteswap-byteswap : (w v : ℕ) → v < 256 ^ w → byteswap w (byteswap w v) ≡ v
byteswap-byteswap w v h =
    unfold byteswap in
    ap (λ (bs : List ℕ). from_le (reverse bs)) (le_bytes-byteswap w v)
    ∙ ap from_le (reverse-reverse (le_bytes w v))
    ∙ from_le-le_bytes w v h

-- A number written with a swap where the orders differ has its bytes in the wanted order, on either
-- host; and reading such bytes gives the number.
pub to_memory_order :
    (host e : Endian) (w v : ℕ)
    → to_memory host w (if same_order e host then v else byteswap w v) ≡ ordered e (le_bytes w v)
unfolding to_memory ordered
to_memory_order little little w v = refl
to_memory_order big big w v = refl
to_memory_order little big w v = le_bytes-byteswap w v
to_memory_order big little w v =
    ap (λ (bs : List ℕ). reverse bs) (le_bytes-byteswap w v) ∙ reverse-reverse (le_bytes w v)

pub from_memory_order :
    (host e : Endian) (w v : ℕ)
    → v < 256 ^ w
    → (let u = from_memory host (ordered e (le_bytes w v)) in
        if same_order e host then u else byteswap w u)
      ≡ v
unfolding from_memory ordered byteswap
from_memory_order little little w v h = from_le-le_bytes w v h
from_memory_order big big w v h =
    ap from_le (reverse-reverse (le_bytes w v)) ∙ from_le-le_bytes w v h
from_memory_order little big w v h = byteswap-byteswap w v h
from_memory_order big little w v h = byteswap-byteswap w v h
