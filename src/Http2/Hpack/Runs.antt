-- ===== src/Http2/Hpack/Runs.antt =====
-- Runs of the integers of HPACK, the numbers of RFC 7541, C.1, among them.
use jkyi.Base.{ℕ, ◌*◌, ◌^◌, ◌<◌, ◌≡◌, refl, arith, [], ◌∷◌}
use jkyi.Endian.{little}
use jkyi.ByteArray.{ByteArray, ok, create}
use jkyi.ByteArray.Inv.{create-IsValid}
use jkyi.Http2.Hpack.VarInt.{var_int_bytes, rest_bytes}
use jkyi.Http2.Hpack.ReadBack.{rewritten, read-write_var_int_large}

abbrev fresh : ByteArray
fresh = create 7 4

-- 10 with a prefix of 5 bits
ten : var_int_bytes 5 10 0 ≡ 10 ∷ []
unfolding var_int_bytes
ten = refl

-- 1337 with a prefix of 5 bits is 31, 154, 10; here bit 7 of the second byte is not set.
leet : var_int_bytes 5 1337 0 ≡ 31 ∷ 26 ∷ 10 ∷ []
unfolding var_int_bytes rest_bytes
leet = refl

read-write_var_int_large_example :
    (after : ByteArray) × (n : ℕ) × (rewritten little 5 1337 (0 * 2 ^ 5) fresh fresh ≡ ok n after)
    × (n < 1337)
read-write_var_int_large_example =
    read-write_var_int_large little 5 1337 0 (create-IsValid 7 4 (omega arith)) (omega arith)
      (omega arith) (omega arith) (omega arith)
