-- ===== src/Http2/DynamicTable.antt =====
-- JKYi/http2/dynamic_table.h, dynamic_table.cc: the table of recent headers, oldest first. A
-- returned index -1 is `none`. A size that leaves the range of an int ends `update`, and a read
-- outside the vector `find_pair`, with `none`.
pub mod Eviction
pub mod Indices
pub mod Search
pub mod Lookup
mod Runs
use jkyi.Base.{
  ℕ, zero, suc, ◌+◌, ◌-◌, ◌^◌, Bool, true, false, Option, none, some, List, [], ◌∷◌, ◌++◌, ltb,
  ◌==◌, if◌then◌else◌, length, get_elem?, size_sub,
}
use jkyi.Base.Options.{◌>>=◌}
use mathlib.Core.List.{reverse}
use jkyi.Http2.StaticTable.{Bytes, Header, bytes_eq, static_headers}

pub record DynamicTable : Type 0 where
  pub max_data_size : ℕ
  pub data_size : ℕ
  pub datas : List Header

unfoldable pub create : DynamicTable
create = record { max_data_size = 4096; data_size = 0; datas = [] }

unfoldable pub set_max_data_size : ℕ → DynamicTable → DynamicTable
set_max_data_size v t = record t { max_data_size = v }

abbrev pub entry_size : Header → ℕ
entry_size (name, value) = length name + length value + 32

-- The loop of `update` on the entries, for a new entry of `len`: what is left, and its size.
unfoldable pub evict : ℕ → ℕ → ℕ → List Header → ℕ × List Header
evict len max size [] = (size, [])
evict len max size (h ∷ rest) =
    let more = evict len max (size - entry_size h) rest in
    if ltb max (len + size) then more else (size, h ∷ rest)

-- `none`: `len` or `len + m_dataSize`, which are `int`s, are beyond 2 ^ 31. The first sum is the
-- largest that the loop and the end of `update` take.
unfoldable pub update : Bytes → Bytes → DynamicTable → Option DynamicTable
update name value t =
    let len = entry_size (name, value) in
    let (size, left) = evict len t.max_data_size t.data_size t.datas in
    if ltb (len + t.data_size) (2 ^ 31)
    then some (record t { data_size = size + len; datas = left ++ ((name, value) ∷ []) })
    else none

-- A header that was looked up at an index within its table
unfoldable pub entry_or_none : Option Header → Header
entry_or_none none = ([], [])
entry_or_none (some h) = h

-- `getPair`: from 62 on the newest entries come first. Out of range both strings are empty.
unfoldable pub get_pair : ℕ → DynamicTable → Header
unfolding entry_or_none
get_pair idx t =
    if ltb idx 62
    then entry_or_none (get_elem? static_headers idx)
    else if ltb (idx - 62) (length t.datas)
    then entry_or_none (get_elem? t.datas (length t.datas - 1 - (idx - 62)))
    else ([], [])

unfoldable pub get_name : ℕ → DynamicTable → Bytes
get_name idx t = (get_pair idx t).0

-- The loop of `GetStaticHeadersIdx`, and that of `findIndex` on the entries from the newest on
unfoldable pub index_of : Bytes → List Header → ℕ → Option ℕ
index_of name [] i = none
index_of name (h ∷ rest) i = if bytes_eq h.0 name then some i else index_of name rest (i + 1)

unfoldable pub get_static_headers_idx : Bytes → Option ℕ
get_static_headers_idx name = elim static_headers [ [] ↦ none | h ∷ rest ↦ index_of name rest 1 ]

newest_if_none : Bytes → List Header → Option ℕ → Option ℕ
newest_if_none name newest (some i) = some i
newest_if_none name newest none = index_of name newest 62

unfoldable pub find_index : Bytes → DynamicTable → Option ℕ
unfolding newest_if_none
find_index name t = newest_if_none name (reverse t.datas) (get_static_headers_idx name)

-- The loop of `GetStaticHeadersPair`: `first` is the first index with the name.
unfoldable pub pair_of : Bytes → Bytes → List Header → ℕ → Option ℕ → Option ℕ × Bool
pair_of name value [] i first = (first, false)
pair_of name value (h ∷ rest) i first =
    let first' : Option ℕ = elim first [ none ↦ some i | some k ↦ some k ] in
    let other = pair_of name value rest (i + 1) first in
    let same = pair_of name value rest (i + 1) first' in
    if bytes_eq h.0 name then if bytes_eq h.1 value then (some i, true) else same else other

unfoldable pub get_static_headers_pair : Bytes → Bytes → Option ℕ × Bool
get_static_headers_pair name value = pair_of name value static_headers 0 none

-- The loop of `findPair`, for `turns` values of `i` and the last index `len`: `none` is a read
-- outside the vector. `first` is the first index with the name.
unfoldable pub pair_loop :
    Bytes → Bytes → List Header → ℕ → ℕ → ℕ → Option ℕ → Option (Option ℕ × Bool)
pair_loop name value datas len zero i first = some (first, false)
pair_loop name value datas len (suc turns) i first =
    let first' : Option ℕ = elim first [ none ↦ some (i + 62) | some k ↦ some k ] in
    let other = pair_loop name value datas len turns (i + 1) first in
    let same = pair_loop name value datas len turns (i + 1) first' in
    get_elem? datas (size_sub len i) >>= λ h.
    if bytes_eq h.0 name
    then if bytes_eq h.1 value then some (some (i + 62), true) else same
    else other

-- `findPair` after the static table: `i` goes from 0 to `len`, which is `m_datas.size() - 1` as a
-- size_t.
unfoldable pub searched : Bytes → Bytes → List Header → Option ℕ × Bool → Option (Option ℕ × Bool)
searched name value datas (first, true) = some (first, true)
searched name value datas (first, false) =
    let len = size_sub (length datas) 1 in pair_loop name value datas len (suc len) 0 first

unfoldable pub find_pair : Bytes → Bytes → DynamicTable → Option (Option ℕ × Bool)
find_pair name value t = searched name value t.datas (get_static_headers_pair name value)
