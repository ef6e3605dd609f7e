-- ===== src/Http2/DynamicTable/Lookup.antt =====
-- `getPair`, `getName`, `findIndex` and `findPair` (JKYi/http2/dynamic_table.cc): an index that is
-- found leads back to the header.
use jkyi.Base.{
  ℕ, suc, ◌+◌, ◌-◌, ◌<◌, ◌≡◌, ◌↔◌, inl, inr, refl, sym, ◌∙◌, ap, arith, Bool, true, false, Option,
  some, none, List, [], ◌∷◌, length, get_elem?, size_sub, size_sub_le, Bool-cases, ◌≤◌, ◌≢◌,
  if◌then◌else◌,
}
use mathlib.Core.List.{reverse}
use jkyi.Http2.StaticTable.{Bytes, Header, static_headers, length-static_headers, bytes_eq}
use jkyi.Http2.DynamicTable.{
  DynamicTable, entry_or_none, get_pair, get_name, index_of, get_static_headers_idx, newest_if_none,
  find_index, pair_of, get_static_headers_pair, searched, find_pair, pair_loop,
}
use mathlib.Core.Option.{some-injective, some-ne-none}
use mathlib.Core.Bool.{false≢true}
use jkyi.Base.Elements.{length-reverse, get_elem?-lt, get_elem?-reverse}
use jkyi.Http2.DynamicTable.Search.{HasName, index_of-HasName, pair_of-exact, pair_of-HasName}

-- The index of the `j`th newest entry leads to it.
get_pair-newest :
    (t : DynamicTable) (j : ℕ) (h : Header)
    → get_elem? (reverse t.datas) j ≡ some h
    → get_pair (62 + j) t ≡ h
unfolding get_pair entry_or_none
get_pair-newest t j h e =
    let l : j < length t.datas =
      omega (arith, length-reverse t.datas, get_elem?-lt (reverse t.datas) j h e) in
    let there : get_elem? t.datas (length t.datas - 1 - (62 + j - 62)) ≡ some h =
      ap (get_elem? t.datas) {y = length t.datas - 1 - j} (omega arith)
      ∙ sym (get_elem?-reverse t.datas j l)
      ∙ e in
    ground (arith, there)

get_pair-static :
    (t : DynamicTable) (j : ℕ) (h : Header) → get_elem? static_headers j ≡ some h → get_pair j t ≡ h
unfolding get_pair entry_or_none
get_pair-static t j h e =
    let l : j < 62 = omega (arith, length-static_headers, get_elem?-lt static_headers j h e) in
    ground (arith, e)

get_pair-HasName :
    (name : Bytes) (t : DynamicTable) (j : ℕ)
    → HasName name (reverse t.datas) j
    → get_name (62 + j) t ≡ name
unfolding get_name
get_pair-HasName name t j (h, place, e) = ap (λ (p : Header). p.0) (get_pair-newest t j h place) ∙ e

get_static_headers_idx-HasName :
    (name : Bytes) (i : ℕ) → get_static_headers_idx name ≡ some i → HasName name static_headers i
unfolding get_static_headers_idx
get_static_headers_idx-HasName name i e = behind static_headers e
  where
    behind :
        (hs : List Header)
        → elim hs [ [] ↦ none | h ∷ rest ↦ index_of name rest 1 ] ≡ some i
        → HasName name hs i
    behind [] e = absurd (cc)
    behind (h ∷ rest) e =
        let (j, place, found) = index_of-HasName name rest 1 i e in
        let there : i ≡ suc j = omega (arith, place) in rw there found

-- The index that `findIndex` gives is one that `getName` maps to the name.
pub find_index-get_name :
    (name : Bytes) (t : DynamicTable) (i : ℕ) → find_index name t ≡ some i → get_name i t ≡ name
unfolding find_index newest_if_none get_name
find_index-get_name name t i e = either (get_static_headers_idx name) refl e
  where
    either :
        (o : Option ℕ)
        → get_static_headers_idx name ≡ o
        → newest_if_none name (reverse t.datas) o ≡ some i
        → get_name i t ≡ name
    either (some k) static e =
        let (h, place, same) = get_static_headers_idx-HasName name i (static ∙ e) in
        ap (λ (p : Header). p.0) (get_pair-static t i h place) ∙ same
    either none static e =
        let (j, place, found) = index_of-HasName name (reverse t.datas) 62 i e in
        ap (λ (x : ℕ). get_name x t) place ∙ get_pair-HasName name t j found

-- `i` leads back to the name, and to the value too where the hit is exact.
abbrev pub Leads : Bytes → Bytes → DynamicTable → ℕ → Bool → Type 0
Leads name value t i exact = (get_name i t ≡ name) × (exact ≡ true → get_pair i t ≡ (name, value))

Leads-exact :
    (name value : Bytes) (t : DynamicTable) (i : ℕ) (exact : Bool)
    → get_pair i t ≡ (name, value)
    → Leads name value t i exact
unfolding get_name
Leads-exact name value t i exact e = (ap (λ (p : Header). p.0) e, λ _. e)

Leads-static :
    (name value : Bytes) (t : DynamicTable) (i : ℕ) (exact : Bool)
    → get_static_headers_pair name value ≡ (some i, exact)
    → Leads name value t i exact
unfolding get_static_headers_pair get_name
Leads-static name value t i true e =
    let (j, place, found) = pair_of-exact name value static_headers 0 i none e in
    Leads-exact name value t i true (
      let zero_add : i ≡ j = omega (arith, place) in
      rw zero_add (get_pair-static t j (name, value) found))
Leads-static name value t i false e = elim (pair_of-HasName name value static_headers 0 i none e) [
  | inl e ↦ absurd (cc)
  | inr (j, place, (h, found, same)) ↦
      let there : get_pair i t ≡ h =
        let zero_add : i ≡ j = omega (arith, place) in rw zero_add (get_pair-static t j h found) in
      (ap (λ (p : Header). p.0) there ∙ same, λ e. absurd (cc))
]

Leads-newest :
    (name value : Bytes) (t : DynamicTable) (i : ℕ) (exact : Bool) (first : Option ℕ)
    → get_static_headers_pair name value ≡ (first, false)
    → pair_of name value (reverse t.datas) 62 first ≡ (some i, exact)
    → Leads name value t i exact
Leads-newest name value t i true first static e =
    let (j, place, found) = pair_of-exact name value (reverse t.datas) 62 i first e in
    Leads-exact name value t i true (rw place (get_pair-newest t j (name, value) found))
Leads-newest name value t i false first static e =
    elim (pair_of-HasName name value (reverse t.datas) 62 i first e) [
      | inl e ↦ Leads-static name value t i false (static ∙ ap (λ (o : Option ℕ). (o, false)) e)
      | inr (j, place, found) ↦
          let there : get_name i t ≡ name = rw place (get_pair-HasName name t j found) in
          (there, λ e. absurd (cc))
    ]

-- The loop of `findPair` on indices that run over the entries of `newest`
pair_loop_lem :
    (name value : Bytes) (datas : List Header) (len : ℕ) (newest : List Header) (i : ℕ)
    (first : Option ℕ)
    → ((j : ℕ) → j < length newest → get_elem? datas (size_sub len (i + j)) ≡ get_elem? newest j)
    → pair_loop name value datas len (length newest) i first
      ≡ some (pair_of name value newest (i + 62) first)
unfolding pair_loop pair_of
pair_loop_lem name value datas len [] i first at_j = refl
pair_loop_lem name value datas len (h ∷ rest) i first at_j =
    let first' : Option ℕ = elim first [ none ↦ some (i + 62) | some k ↦ some k ] in
    let zero_more : i + 0 ≡ i = omega arith in
    let here : get_elem? datas (size_sub len i) ≡ some h =
      ap (λ (n : ℕ). get_elem? datas (size_sub len n)) (sym zero_more) ∙ at_j 0 (omega arith) in
    let on : i + 1 + 62 ≡ i + 62 + 1 = omega arith in
    let next = λ (f : Option ℕ).
      pair_loop_lem name value datas len rest (i + 1) f (λ j l.
        let e : i + 1 + j ≡ i + suc j = omega arith in
        ap (λ (n : ℕ). get_elem? datas (size_sub len n)) e ∙ at_j (suc j) (omega (arith, l)))
      ∙ ap (λ (n : ℕ). some (pair_of name value rest n f)) on in
    elim (Bool-cases (bytes_eq h.0 name)) [
      | inr n ↦ rw (here, n) (next first)
      | inl n ↦ elim (Bool-cases (bytes_eq h.1 value)) [
        | inl v ↦ rw (here, n, v) refl
        | inr v ↦ rw (here, n, v) (next first')
      ]
    ]

searched-static :
    (name value : Bytes) (datas : List Header) (first : Option ℕ)
    → searched name value datas (first, true) ≡ some (first, true)
unfolding searched
searched-static name value datas first = refl

-- On an empty vector the last index is 2 ^ 64 - 1, and the first read is outside; else the loop
-- goes over the entries from the newest on.
searched-empty :
    (name value : Bytes) (first : Option ℕ) → searched name value [] (first, false) ≡ none
unfolding searched pair_loop
searched-empty name value first = refl

searched-newest :
    (name value : Bytes) (h : Header) (hs : List Header) (first : Option ℕ)
    → searched name value (h ∷ hs) (first, false)
      ≡ some (pair_of name value (reverse (h ∷ hs)) 62 first)
unfolding searched
searched-newest name value h hs first =
    let datas = h ∷ hs in
    let last : size_sub (length datas) 1 ≡ length hs =
      size_sub_le (length datas) 1 (omega arith) ∙ omega arith in
    let whole : length (reverse datas) ≡ suc (length hs) = length-reverse datas in
    let loop = pair_loop_lem name value datas (length hs) (reverse datas) 0 first (λ j l.
      let at_most : j ≤ length hs = omega (arith, l, whole) in
      let e : size_sub (length hs) (0 + j) ≡ length datas - 1 - j =
        ap (size_sub (length hs)) {y = j} (omega arith)
        ∙ size_sub_le (length hs) j at_most
        ∙ omega arith in
      ap (get_elem? datas) e ∙ sym (get_elem?-reverse datas j (omega (arith, at_most)))) in
    ap (λ (n : ℕ). pair_loop name value datas n (suc n) 0 first) last
    ∙ ap (λ (n : ℕ). pair_loop name value datas (length hs) n 0 first) (sym whole)
    ∙ loop

-- What `findPair` gives leads back to the name, and on an exact hit to the name and the value.
pub find_pair-Leads :
    (name value : Bytes) (t : DynamicTable) (i : ℕ) (exact : Bool)
    → find_pair name value t ≡ some (some i, exact)
    → Leads name value t i exact
unfolding find_pair searched
find_pair-Leads name value t i exact e =
    either t.datas refl (get_static_headers_pair name value) refl e
  where
    either :
        (datas : List Header)
        → t.datas ≡ datas
        → (r : Option ℕ × Bool) → get_static_headers_pair name value ≡ r
        → searched name value datas r ≡ some (some i, exact)
        → Leads name value t i exact
    either datas n (first, true) static e =
        let hit : (first, true) ≡ (some i, exact) =
          some-injective (first, true) (some i, exact) e in
        Leads-static name value t i exact (static ∙ hit)
    either [] n (first, false) static e =
        absurd (some-ne-none (some i, exact) (sym e ∙ searched-empty name value first))
    either (h ∷ hs) n (first, false) static e =
        let hit : pair_of name value (reverse t.datas) 62 first ≡ (some i, exact) = rw n (
          some-injective (pair_of name value (reverse (h ∷ hs)) 62 first) (some i, exact)
            (sym (searched-newest name value h hs first) ∙ e)) in
        Leads-newest name value t i exact first static hit

-- On a table without entries the loop of `findPair`, whose last index wraps, reads outside the
-- vector, unless the static table has the very header. On any other table it never does: it gives
-- the first exact hit from the newest entry on, or else the first index with the name.
pub find_pair-defined :
    (name value : Bytes) (t : DynamicTable)
    → let r = get_static_headers_pair name value in
      ((find_pair name value t ≡ none) ↔ ((t.datas ≡ []) × (r.1 ≡ false)))
      × (t.datas ≢ []
          → find_pair name value t
            ≡ some (if r.1 then r else pair_of name value (reverse t.datas) 62 r.0))
unfolding find_pair
find_pair-defined name value t = either t.datas (get_static_headers_pair name value)
  where
    either :
        (datas : List Header) (r : Option ℕ × Bool)
        → ((searched name value datas r ≡ none) ↔ ((datas ≡ []) × (r.1 ≡ false)))
          × (datas ≢ []
              → searched name value datas r
                ≡ some (if r.1 then r else pair_of name value (reverse datas) 62 r.0))
    either datas (first, true) =
        let e = searched-static name value datas first in
        ((λ k. absurd (some-ne-none _ (sym e ∙ k)), λ (a, b). absurd (false≢true (sym b))), λ n. e)
    either [] (first, false) =
        ((λ e. (refl, refl), λ p. searched-empty name value first), λ n. absurd (n refl))
    either (h ∷ hs) (first, false) =
        let e = searched-newest name value h hs first in
        ((λ k. absurd (some-ne-none _ (sym e ∙ k)), λ (a, b). absurd (cc)), λ n. e)
