-- ===== src/Http2/DynamicTable/Eviction.antt =====
-- `update` (JKYi/http2/dynamic_table.cc): which entries it evicts, and the size it keeps.
use jkyi.Base.{
  ℕ, zero, suc, ◌+◌, ◌≤◌, ◌<◌, ◌≡◌, ◌⊎◌, inl, inr, refl, ap, arith, List, [], ◌∷◌, ◌++◌, drop, some,
  ◌^◌, lt→ltb,
}
use jkyi.Http2.StaticTable.{Bytes, Header}
use jkyi.Http2.DynamicTable.{DynamicTable, entry_size, evict, update}
use native.Mathlib.Decide.{dec_lt}

abbrev pub total : List Header → ℕ
total [] = 0
total (h ∷ rest) = entry_size h + total rest

-- `m_dataSize` is the sum of the entries' sizes.
abbrev pub IsCounted : DynamicTable → Type 0
IsCounted t = t.data_size ≡ total t.datas

total-append : (xs ys : List Header) → total (xs ++ ys) ≡ total xs + total ys
total-append [] ys = omega arith
total-append (x ∷ xs) ys = omega (arith, total-append xs ys)

-- The `k` oldest of `hs` are evicted: while one is left there was no room for `len`, and then there
-- is room or none is left.
pub record Evicted (len max : ℕ) (hs left : List Header) (k : ℕ) : Type 0 where
  pub dropped : left ≡ drop k hs
  pub needed : (j : ℕ) → j < k → max < len + total (drop j hs)
  pub enough : (left ≡ []) ⊎ (len + total left ≤ max)

evict-Evicted :
    (len max : ℕ) (hs : List Header)
    → (left : List Header) × (k : ℕ) × (evict len max (total hs) hs ≡ (total left, left))
      × Evicted len max hs left k
unfolding evict
evict-Evicted len max [] = (
  [],
  0,
  refl,
  record { dropped = refl; needed = λ j h. absurd (omega arith); enough = inl refl },
)
evict-Evicted len max (h ∷ hs) = elim (dec_lt max (len + total (h ∷ hs))) [
  | yes full ↦
      let (left, k, e, v) = evict-Evicted len max hs in
      (
        left,
        suc k,
        ground (arith, e),
        record { dropped = v.dropped; needed = needed_suc h hs k full v.needed; enough = v.enough },
      )
  | no room ↦ (
    h ∷ hs,
    0,
    ground arith,
    record { dropped = refl; needed = λ j l. absurd (omega arith); enough = inr (omega arith) },
  )
]
  where
    needed_suc :
        (h : Header) (hs : List Header) (k : ℕ)
        → max < len + total (h ∷ hs)
        → ((j : ℕ) → j < k → max < len + total (drop j hs))
        → (j : ℕ) → j < suc k
        → max < len + total (drop j (h ∷ hs))
    needed_suc h hs k full t zero l = full
    needed_suc h hs k full t (suc j) l = t j (omega arith)

-- What `update` leaves: the newest entries that still fit beside the new one, and the new one.
pub record Updated (name value : Bytes) (t after : DynamicTable) : Type 0 where
  pub counted : IsCounted after
  pub evicted : ℕ
  pub datas_lem : after.datas ≡ drop evicted t.datas ++ ((name, value) ∷ [])
  pub needed :
      (j : ℕ) → j < evicted → t.max_data_size < entry_size (name, value) + total (drop j t.datas)
  pub bounded : (after.data_size ≤ t.max_data_size) ⊎ (after.datas ≡ (name, value) ∷ [])

-- On a table whose size is the sum of its entries' sizes, which together with the new entry stays
-- below 2 ^ 31, `update` stays in the range of its integers and adds the header as the newest
-- entry. It evicts from the oldest on, only while the new entry does not fit, and keeps the size
-- the sum of the entries' sizes. It stays within the maximum unless the new entry alone is left.
pub update-Updated :
    (name value : Bytes) (t : DynamicTable)
    → IsCounted t
    → entry_size (name, value) + t.data_size < 2 ^ 31
    → (after : DynamicTable) × (update name value t ≡ some after) × Updated name value t after
unfolding update
update-Updated name value t c small =
    let (left, k, e, v) = evict-Evicted (entry_size (name, value)) t.max_data_size t.datas in
    let after : DynamicTable = record t {
      data_size = total left + entry_size (name, value);
      datas = left ++ ((name, value) ∷ []);
    } in
    (
      after,
      rw (lt→ltb (entry_size (name, value) + t.data_size) (2 ^ 31) small) (rw (c, e) refl),
      record {
        counted = omega (arith, total-append left ((name, value) ∷ []));
        evicted = k;
        datas_lem = ap (λ (r : List Header). r ++ ((name, value) ∷ [])) v.dropped;
        needed = v.needed;
        bounded = elim v.enough [
          | inl e ↦ inr (ap (λ (r : List Header). r ++ ((name, value) ∷ [])) e)
          | inr room ↦ inl (omega arith)
        ];
      },
    )
