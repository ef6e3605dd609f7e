-- ===== src/Http2/DynamicTable/Runs.antt =====
-- Runs of the table of headers.
use jkyi.Base.{
  ℕ, List, Option, arith, ◌≡◌, ◌↔◌, ◌≢◌, if◌then◌else◌, refl, true, false, some, none, [], ◌∷◌,
}
use mathlib.Core.List.{reverse}
use jkyi.Http2.StaticTable.{Bytes, Header, static_headers, bytes_eq}
use jkyi.Http2.DynamicTable.{
  DynamicTable, create, set_max_data_size, evict, update, index_of, get_static_headers_idx,
  newest_if_none, find_index, pair_of, get_static_headers_pair, searched, find_pair, pair_loop,
}
use jkyi.Http2.DynamicTable.Eviction.{Updated, update-Updated}
use jkyi.Http2.DynamicTable.Lookup.{find_pair-defined}

-- Two entries of 35 bytes, the newer one last, and room for 80
abbrev two : DynamicTable
two = record {
  max_data_size = 80;
  data_size = 70;
  datas = (97 ∷ 98 ∷ [], 49 ∷ []) ∷ (97 ∷ 99 ∷ [], 50 ∷ []) ∷ [];
}

abbrev ab : Bytes
ab = 97 ∷ 98 ∷ []

abbrev ac : Bytes
ac = 97 ∷ 99 ∷ []

abbrev datas_of : Option DynamicTable → Option (List Header)
datas_of none = none
datas_of (some t) = some t.datas

abbrev size_of : Option DynamicTable → Option ℕ
size_of none = none
size_of (some t) = some t.data_size

two_after :
    datas_of (update (120 ∷ []) (51 ∷ []) two) ≡ some ((ac, 50 ∷ []) ∷ (120 ∷ [], 51 ∷ []) ∷ [])
unfolding update evict
two_after = refl

-- A new entry larger than the maximum empties the table and is kept.
too_large : size_of (update ab (49 ∷ []) (set_max_data_size 10 create)) ≡ some 35
unfolding update evict set_max_data_size create
too_large = refl

two_index : find_index ab two ≡ some 63
unfolding find_index newest_if_none get_static_headers_idx index_of static_headers bytes_eq
two_index = refl

update-Updated_example :
    (after : DynamicTable) × (update (120 ∷ []) (51 ∷ []) two ≡ some after)
    × Updated (120 ∷ []) (51 ∷ []) two after
update-Updated_example = update-Updated (120 ∷ []) (51 ∷ []) two refl (omega arith)

two_pair : find_pair ac (50 ∷ []) two ≡ some (some 62, true)
unfolding find_pair searched pair_loop pair_of get_static_headers_pair static_headers bytes_eq
two_pair = refl

find_pair-defined_example :
    let r = get_static_headers_pair ac (50 ∷ []) in
    ((find_pair ac (50 ∷ []) two ≡ none) ↔ ((two.datas ≡ []) × (r.1 ≡ false)))
    × (two.datas ≢ []
        → find_pair ac (50 ∷ []) two
          ≡ some (if r.1 then r else pair_of ac (50 ∷ []) (reverse two.datas) 62 r.0))
find_pair-defined_example = find_pair-defined ac (50 ∷ []) two
