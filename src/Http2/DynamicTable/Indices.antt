-- ===== src/Http2/DynamicTable/Indices.antt =====
-- `update` and `getPair` (JKYi/http2/dynamic_table.cc): how the indices move on.
use jkyi.Base.{
  ℕ, suc, ◌+◌, ◌-◌, ◌≤◌, ◌<◌, ◌≡◌, sym, ◌∙◌, ap, arith, some, [], ◌∷◌, length, get_elem?, drop,
  length-drop,
}
use jkyi.Http2.StaticTable.{Bytes}
use jkyi.Http2.DynamicTable.{DynamicTable, entry_or_none, get_pair}
use jkyi.Http2.DynamicTable.Eviction.{Updated}
use jkyi.Base.Elements.{
  get_elem?-append_left, get_elem?-append_at, length-append_one, get_elem?-drop,
}

get_pair_dynamic :
    (t : DynamicTable) (i p : ℕ)
    → 62 ≤ i
    → i + 1 + p ≡ 62 + length t.datas
    → get_pair i t ≡ entry_or_none (get_elem? t.datas p)
unfolding get_pair entry_or_none
get_pair_dynamic t i p l e =
    let same : length t.datas - 1 - (i - 62) ≡ p = omega arith in rw (sym same) (ground arith)

-- In the table that `update` leaves, index 62 is the new header, and every entry that stays has
-- moved on by one.
pub update-get_pair :
    (name value : Bytes) (t after : DynamicTable)
    → Updated name value t after
    → (get_pair 62 after ≡ (name, value))
      × ((i : ℕ) → 62 ≤ i → i + 1 < 62 + length after.datas → get_pair (i + 1) after ≡ get_pair i t)
unfolding entry_or_none
update-get_pair name value t after u =
    let left = drop u.evicted t.datas in
    let longer : length after.datas ≡ suc (length left) =
      rw u.datas_lem (length-append_one left (name, value)) in
    let newest : get_elem? after.datas (length left) ≡ some (name, value) =
      rw u.datas_lem (get_elem?-append_at left (name, value)) in
    (
      get_pair_dynamic after 62 (length left) (omega arith) (omega arith) ∙ ap entry_or_none newest,
      λ i l h.
          let p = 61 + length left - i in
          let kept : get_elem? after.datas p ≡ get_elem? t.datas (u.evicted + p) =
            rw u.datas_lem (get_elem?-append_left left ((name, value) ∷ []) p (omega arith))
            ∙ get_elem?-drop u.evicted t.datas p in
          let counted = length-drop u.evicted t.datas in
          get_pair_dynamic after (i + 1) p (omega arith) (omega arith)
          ∙ ap entry_or_none kept
          ∙ sym (get_pair_dynamic t i (u.evicted + p) l (omega arith)),
    )
