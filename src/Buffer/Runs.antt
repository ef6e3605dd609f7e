-- ===== src/Buffer/Runs.antt =====
-- Runs of the buffer.
use jkyi.Base.{◌≡◌, refl, arith, some, [], ◌∷◌}
use jkyi.Base.Splice.{splice}
use jkyi.Endian.{byteswap, le_bytes, from_le}
use jkyi.Buffer.{
  Buffer, append, find_crlf, ensure_writable_bytes, make_space, has_written, search_crlf,
}
use jkyi.Buffer.Views.{IsValid}

-- "a\r\n" behind 9 bytes that were taken, and room for one more.
abbrev used : Buffer
used = record {
  buffer = 0 ∷ 0 ∷ 0 ∷ 0 ∷ 0 ∷ 0 ∷ 0 ∷ 0 ∷ 0 ∷ 97 ∷ 13 ∷ 10 ∷ 0 ∷ [];
  reader_index = 9;
  writer_index = 12;
}

used-IsValid : IsValid used
used-IsValid = omega arith

-- The readable bytes move to the front.
append-used :
    append (1 ∷ 2 ∷ []) used
    ≡ some (record {
      buffer = 0 ∷ 0 ∷ 0 ∷ 0 ∷ 0 ∷ 0 ∷ 0 ∷ 0 ∷ 97 ∷ 13 ∷ 10 ∷ 1 ∷ 2 ∷ [];
      reader_index = 8;
      writer_index = 13;
    })
unfolding append ensure_writable_bytes make_space has_written splice
append-used = refl

find_crlf-used : find_crlf used ≡ some 10
unfolding find_crlf search_crlf
find_crlf-used = refl

byteswap-one : byteswap 4 1 ≡ 16777216
unfolding byteswap le_bytes from_le
byteswap-one = refl
