-- ===== src/Http2/DynamicTable/Search.antt =====
-- The loops of `GetStaticHeadersIdx`, `GetStaticHeadersPair`, `findIndex` and `findPair`
-- (JKYi/http2/dynamic_table.cc) on any list of headers.
use jkyi.Base.{
  ℕ, suc, ◌+◌, ◌≡◌, ◌⊎◌, inl, inr, refl, ◌∙◌, ap, arith, Bool, true, false, Option, some, none,
  List, [], ◌∷◌, get_elem?, Bool-cases,
}
use jkyi.Http2.StaticTable.{Bytes, Header, bytes_eq, bytes_eq_iff}
use jkyi.Http2.DynamicTable.{index_of, pair_of}
use mathlib.Core.Option.{some-injective}

-- The `j`th of `hs` has the name.
abbrev pub HasName : Bytes → List Header → ℕ → Type 0
HasName name hs j = (h : Header) × (get_elem? hs j ≡ some h) × (h.0 ≡ name)

pub index_of-HasName :
    (name : Bytes) (hs : List Header) (i k : ℕ)
    → index_of name hs i ≡ some k
    → (j : ℕ) × (k ≡ i + j) × HasName name hs j
unfolding index_of
index_of-HasName name [] i k e = absurd (cc)
index_of-HasName name (h ∷ hs) i k e = elim (Bool-cases (bytes_eq h.0 name)) [
  | inl y ↦
      let place : some i ≡ some k = ground (arith, e) in
      (0, omega (arith, some-injective i k place), (h, refl, (bytes_eq_iff h.0 name).0 y))
  | inr n ↦
      let later : index_of name hs (i + 1) ≡ some k = ground (arith, e) in
      let (j, place, found) = index_of-HasName name hs (i + 1) k later in
      (suc j, omega arith, found)
]

pub pair_of-exact :
    (name value : Bytes) (hs : List Header) (i k : ℕ) (first : Option ℕ)
    → pair_of name value hs i first ≡ (some k, true)
    → (j : ℕ) × (k ≡ i + j) × (get_elem? hs j ≡ some (name, value))
unfolding pair_of
pair_of-exact name value [] i k first e =
    absurd (let f : false ≡ true = ap (λ (p : Option ℕ × Bool). p.1) e in cc)
pair_of-exact name value (h ∷ hs) i k first e = elim (Bool-cases (bytes_eq h.0 name)) [
  | inl y ↦ elim (Bool-cases (bytes_eq h.1 value)) [
    | inl w ↦
        let here : (some i, true) ≡ (some k, true) = ground (arith, e) in
        let place : i ≡ k = some-injective i k (ap (λ (p : Option ℕ × Bool). p.0) here) in
        (
          0,
          omega arith,
          ap some (both h name value ((bytes_eq_iff h.0 name).0 y) ((bytes_eq_iff h.1 value).0 w)),
        )
    | inr n ↦
        let later : pair_of name value hs (i + 1) (elim first [ none ↦ some i | some k ↦ some k ])
            ≡ (some k, true) =
          ground (arith, e) in
        let (j, place, found) =
          pair_of-exact name value hs (i + 1) k (elim first [ none ↦ some i | some k ↦ some k ])
            later in
        (suc j, omega arith, found)
  ]
  | inr n ↦
      let later : pair_of name value hs (i + 1) first ≡ (some k, true) = ground (arith, e) in
      let (j, place, found) = pair_of-exact name value hs (i + 1) k first later in
      (suc j, omega arith, found)
]
  where
    both : (h : Header) (name value : Bytes) → h.0 ≡ name → h.1 ≡ value → h ≡ (name, value)
    both (a, b) name value e d = ap (λ (x : Bytes). (x, b)) e ∙ ap (λ (x : Bytes). (name, x)) d

pub pair_of-HasName :
    (name value : Bytes) (hs : List Header) (i k : ℕ) (first : Option ℕ)
    → pair_of name value hs i first ≡ (some k, false)
    → (first ≡ some k) ⊎ ((j : ℕ) × (k ≡ i + j) × HasName name hs j)
unfolding pair_of
pair_of-HasName name value [] i k first e = inl (ap (λ (p : Option ℕ × Bool). p.0) e)
pair_of-HasName name value (h ∷ hs) i k first e = elim (Bool-cases (bytes_eq h.0 name)) [
  | inl y ↦ elim (Bool-cases (bytes_eq h.1 value)) [
    | inl w ↦
        let here : (some i, true) ≡ (some k, false) = ground (arith, e) in
        let f : true ≡ false = ap (λ (p : Option ℕ × Bool). p.1) here in absurd (cc)
    | inr n ↦
        let later : pair_of name value hs (i + 1) (elim first [ none ↦ some i | some k ↦ some k ])
            ≡ (some k, false) =
          ground (arith, e) in
        kept name h hs i k first ((bytes_eq_iff h.0 name).0 y) (
          pair_of-HasName name value hs (i + 1) k (elim first [ none ↦ some i | some k ↦ some k ])
            later)
  ]
  | inr n ↦
      let later : pair_of name value hs (i + 1) first ≡ (some k, false) = ground (arith, e) in
      elim (pair_of-HasName name value hs (i + 1) k first later) [
        | inl e ↦ inl e
        | inr (j, place, found) ↦ inr (suc j, omega arith, found)
      ]
]
  where
    kept :
        (name : Bytes) (h : Header) (hs : List Header) (i k : ℕ) (first : Option ℕ)
        → h.0 ≡ name
        → (elim first [ none ↦ some i | some k ↦ some k ] ≡ some k)
          ⊎ ((j : ℕ) × (k ≡ i + 1 + j) × HasName name hs j)
        → (first ≡ some k) ⊎ ((j : ℕ) × (k ≡ i + j) × HasName name (h ∷ hs) j)
    kept name h hs i k first y (inr (j, place, found)) = inr (suc j, omega arith, found)
    kept name h hs i k (some m) y (inl e) = inl e
    kept name h hs i k none y (inl e) = inr (0, omega (arith, some-injective i k e), (h, refl, y))
