-- ===== src/Buffer.antt =====
-- JKYi/reactor/Buffer.h, Buffer.cc: the growing buffer of the reactor's connections. A pointer into
-- the buffer is an index. `none` stands for a failed JKYI_ASSERT, which aborts the process.
-- `host` is the byte order of the machine. Differences of indices are truncated: readerIndex_ ≤
-- writerIndex_ ≤ size holds after every operation (Buffer.Space), so none of them wraps.
pub mod Views
pub mod Space
pub mod Bytes
pub mod Ints
pub mod Find
mod Runs
use jkyi.Base.{
  ℕ, zero, suc, ◌+◌, ◌-◌, ◌*◌, ◌^◌, Bool, true, false, ◌&&◌, ◌||◌, Option, none, some, List, [],
  ◌∷◌, ◌++◌, ltb, leb, ◌==◌, if◌then◌else◌, length, take, drop, replicate,
}
use jkyi.Base.Splice.{resize, splice}
use jkyi.Endian.{Endian, to_memory, from_memory, to_net_endian, to_little_endian}

abbrev pub cheap_prepend : ℕ
cheap_prepend = 8

abbrev pub initial_size : ℕ
initial_size = 1024

pub record Buffer : Type 0 where
  pub buffer : List ℕ
  pub reader_index : ℕ
  pub writer_index : ℕ

infixl 5 ◌>>=◌ ◌>>◌
abbrev pub ◌>>=◌ {ℓ κ} : {A : Type ℓ} {B : Type κ} → Option A → (A → Option B) → Option B
none >>= f = none
some a >>= f = f a

abbrev pub ◌>>◌ {ℓ κ} : {A : Type ℓ} {B : Type κ} → Option A → Option B → Option B
m >> n = m >>= λ _. n

-- `JKYI_ASSERT`
abbrev pub require : Bool → Option (Unit {0})
require true = some tt
require false = none

abbrev pub readable_bytes : Buffer → ℕ
readable_bytes b = b.writer_index - b.reader_index

abbrev pub writable_bytes : Buffer → ℕ
writable_bytes b = length b.buffer - b.writer_index

abbrev pub prependable_bytes : Buffer → ℕ
prependable_bytes b = b.reader_index

unfoldable pub create : ℕ → Buffer
create size = record {
  buffer = replicate (cheap_prepend + size) 0;
  reader_index = cheap_prepend;
  writer_index = cheap_prepend;
}

-- The bytes in [readerIndex_, writerIndex_)
abbrev pub readable : Buffer → List ℕ
readable b = take (readable_bytes b) (drop b.reader_index b.buffer)

unfoldable pub make_space : ℕ → Buffer → Option Buffer
make_space len b =
    if ltb (writable_bytes b + prependable_bytes b) (len + cheap_prepend)
    then some (record b { buffer = resize (b.writer_index + len) b.buffer })
    else require (ltb cheap_prepend b.reader_index) >> moved
  where
    moved : Option Buffer
    moved = some (record {
      buffer = splice b.buffer cheap_prepend (readable b);
      reader_index = cheap_prepend;
      writer_index = cheap_prepend + readable_bytes b;
    })

unfoldable pub ensure_writable_bytes : ℕ → Buffer → Option Buffer
ensure_writable_bytes len b = do
  roomy ← (if ltb (writable_bytes b) len then make_space len b else some b)
  require (leb len (writable_bytes roomy))
  some roomy

unfoldable pub has_written : ℕ → Buffer → Option Buffer
has_written len b = do
  require (leb len (writable_bytes b))
  some (record b { writer_index = b.writer_index + len })

unfoldable pub unwrite : ℕ → Buffer → Option Buffer
unwrite len b = do
  require (leb len (readable_bytes b))
  some (record b { writer_index = b.writer_index - len })

-- `append(data, len)`
unfoldable pub append : List ℕ → Buffer → Option Buffer
append bytes b = do
  roomy ← ensure_writable_bytes (length bytes) b
  has_written (length bytes)
      (record roomy { buffer = splice roomy.buffer roomy.writer_index bytes })

unfoldable pub retrieve_all : Buffer → Buffer
retrieve_all b = record b { reader_index = cheap_prepend; writer_index = cheap_prepend }

unfoldable pub retrieve : ℕ → Buffer → Option Buffer
retrieve len b = do
  require (leb len (readable_bytes b))
  some (
      if ltb len (readable_bytes b)
      then record b { reader_index = b.reader_index + len }
      else retrieve_all b)

unfoldable pub retrieve_until : ℕ → Buffer → Option Buffer
retrieve_until end b = do
  require (leb b.reader_index end)
  require (leb end b.writer_index)
  retrieve (end - b.reader_index) b

unfoldable pub retrieve_as_string : ℕ → Buffer → Option (List ℕ × Buffer)
retrieve_as_string len b = do
  require (leb len (readable_bytes b))
  rest ← retrieve len b
  some (take len (drop b.reader_index b.buffer), rest)

unfoldable pub retrieve_all_as_string : Buffer → Option (List ℕ × Buffer)
retrieve_all_as_string b = retrieve_as_string (readable_bytes b) b

unfoldable pub prepend : List ℕ → Buffer → Option Buffer
prepend bytes b = do
  require (leb (length bytes) (prependable_bytes b))
  some (record b {
    buffer = splice b.buffer (b.reader_index - length bytes) bytes;
    reader_index = b.reader_index - length bytes;
  })

-- `shrink` builds another buffer and swaps it in.
unfoldable pub shrink : ℕ → Buffer → Option Buffer
shrink reserve b = do
  other ← ensure_writable_bytes (readable_bytes b + reserve) (create initial_size)
  append (readable b) other

-- `readFd`: the bytes that `readv` gives (`none`: an error), of which those that do not fit behind
-- writerIndex_ are in `extrabuf`.
unfoldable pub read_fd : Option (List ℕ) → Buffer → Option Buffer
read_fd none b = some b
read_fd (some bytes) b =
    let filled = splice b.buffer b.writer_index (take (writable_bytes b) bytes) in
    if leb (length bytes) (writable_bytes b)
    then some (record b { buffer = filled; writer_index = b.writer_index + length bytes })
    else append (drop (writable_bytes b) bytes)
        (record b { buffer = filled; writer_index = length b.buffer })

module _ (host : Endian) where
  -- `appendInt8` to `appendInt64`, `peekInt8` to `peekInt64`, `readInt8` to `readInt64` and
  -- `prependInt8` to `prependInt64`, for `w` bytes: those of one byte have nothing to swap.
  unfoldable pub append_int : ℕ → ℕ → Buffer → Option Buffer
  append_int w x b = append (to_memory host w (to_net_endian w x)) b

  unfoldable pub prepend_int : ℕ → ℕ → Buffer → Option Buffer
  prepend_int w x b = prepend (to_memory host w (to_net_endian w x)) b

  -- `peekInt8()` has no assertion, but reads a byte of the vector.
  unfoldable pub peek_int : ℕ → Buffer → Option ℕ
  peek_int w b = do
    require (if w == 1 then ltb b.reader_index (length b.buffer) else leb w (readable_bytes b))
    some (to_little_endian w (from_memory host (take w (drop b.reader_index b.buffer))))

  unfoldable pub read_int : ℕ → Buffer → Option (ℕ × Buffer)
  read_int w b = do result ← peek_int w b; rest ← retrieve w b; some (result, rest)

-- `std::search` for "\r\n" and `memchr` for '\n', from the index `start` on
unfoldable pub search_crlf : List ℕ → ℕ → Option ℕ
search_crlf [] start = none
search_crlf (x ∷ []) start = none
search_crlf (x ∷ (y ∷ rest)) start =
    if x == 13 && y == 10 then some start else search_crlf (y ∷ rest) (start + 1)

unfoldable pub search_eol : List ℕ → ℕ → Option ℕ
search_eol [] start = none
search_eol (x ∷ rest) start = if x == 10 then some start else search_eol rest (start + 1)

-- `findCRLF()` and `findEOL()`; the inner `none` is a null pointer.
unfoldable pub find_crlf : Buffer → Option ℕ
find_crlf b = search_crlf (readable b) b.reader_index

unfoldable pub find_eol : Buffer → Option ℕ
find_eol b = search_eol (readable b) b.reader_index

-- `findCRLF(start)` and `findEOL(start)`
unfoldable pub find_crlf_from : ℕ → Buffer → Option (Option ℕ)
find_crlf_from start b = do
  require (leb b.reader_index start)
  require (leb start b.writer_index)
  some (search_crlf (take (b.writer_index - start) (drop start b.buffer)) start)

unfoldable pub find_eol_from : ℕ → Buffer → Option (Option ℕ)
find_eol_from start b = do
  require (leb b.reader_index start)
  require (leb start b.writer_index)
  some (search_eol (take (b.writer_index - start) (drop start b.buffer)) start)
