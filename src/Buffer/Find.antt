-- ===== src/Buffer/Find.antt =====
-- The searches for line ends (JKYi/reactor/Buffer.h, findCRLF and findEOL).
use jkyi.Base.{
  ℕ, zero, suc, ◌+◌, ◌<◌, ◌≡◌, refl, arith, some, none, Option, List, [], ◌∷◌, ◌&&◌, ◌==◌,
  get_elem?, Bool-cases, inl, inr, ◌⊎◌,
}
use jkyi.Buffer.{Buffer, readable, find_crlf, find_eol, search_crlf, search_eol}

-- The bytes "\r\n" at the index `k`, and '\n'.
abbrev pub CrlfAt : List ℕ → ℕ → Type 0
CrlfAt xs k = (get_elem? xs k ≡ some 13) × (get_elem? xs (suc k) ≡ some 10)

abbrev pub EolAt : List ℕ → ℕ → Type 0
EolAt xs k = get_elem? xs k ≡ some 10

-- `r` is the first index with `P`, counted from `start`, or null if there is none.
abbrev pub IsFirst : (ℕ → Type 0) → ℕ → Option ℕ → Type 0
IsFirst P start r =
    ((r ≡ none) × ((k : ℕ) → ¬ P k))
    ⊎ ((k : ℕ) × (r ≡ some (start + k)) × P k × ((j : ℕ) → j < k → ¬ P j))

-- The first index in a list, from that in its tail, where the head is none.
later_None : (P : ℕ → Type 0) → ¬ P 0 → ((k : ℕ) → ¬ P (suc k)) → (k : ℕ) → ¬ P k
later_None P h t zero = h
later_None P h t (suc k) = t k

before_suc :
    (P : ℕ → Type 0) (k : ℕ) → ¬ P 0 → ((j : ℕ) → j < k → ¬ P (suc j)) → (j : ℕ) → j < suc k → ¬ P j
before_suc P k h t zero l = h
before_suc P k h t (suc j) l = t j (omega arith)

IsFirst-cons :
    (P : ℕ → Type 0) (start : ℕ) (r : Option ℕ)
    → ¬ P 0
    → IsFirst (λ k. P (suc k)) (start + 1) r
    → IsFirst P start r
IsFirst-cons P start r h (inl (e, t)) = inl (e, later_None P h t)
IsFirst-cons P start r h (inr (k, e, at, t)) =
    inr (suc k, ground (arith, e), at, before_suc P k h t)

IsFirst-here : (P : ℕ → Type 0) (start : ℕ) → P 0 → IsFirst P start (some start)
IsFirst-here P start h = inr (0, ground arith, h, λ j l. absurd (omega arith))

search_eol-IsFirst : (xs : List ℕ) (start : ℕ) → IsFirst (EolAt xs) start (search_eol xs start)
unfolding search_eol
search_eol-IsFirst [] start = inl (refl, λ k e. cc)
search_eol-IsFirst (x ∷ xs) start = elim (Bool-cases (x == 10)) [
  | inl hit ↦ rw hit (IsFirst-here (EolAt (x ∷ xs)) start (ground arith))
  | inr miss ↦ rw miss (
      IsFirst-cons (EolAt (x ∷ xs)) start _ (λ e. ground arith) (search_eol-IsFirst xs (start + 1)))
]

search_crlf-IsFirst : (xs : List ℕ) (start : ℕ) → IsFirst (CrlfAt xs) start (search_crlf xs start)
unfolding search_crlf
search_crlf-IsFirst [] start = inl (refl, λ k e. cc (e.0))
search_crlf-IsFirst (x ∷ []) start = inl (refl, λ k e. cc (e.1))
search_crlf-IsFirst (x ∷ (y ∷ rest)) start = elim (Bool-cases (x == 13 && y == 10)) [
  | inl hit ↦ rw hit (IsFirst-here (CrlfAt (x ∷ (y ∷ rest))) start (ground arith, ground arith))
  | inr miss ↦ rw miss (
      IsFirst-cons (CrlfAt (x ∷ (y ∷ rest))) start _ (λ e. ground arith)
        (search_crlf-IsFirst (y ∷ rest) (start + 1)))
]

-- `findCRLF` gives the first place of "\r\n" in the readable bytes, and null if there is none.
pub find_crlf-IsFirst : (b : Buffer) → IsFirst (CrlfAt (readable b)) b.reader_index (find_crlf b)
unfolding find_crlf
find_crlf-IsFirst b = search_crlf-IsFirst (readable b) b.reader_index

-- `findEOL` gives the first place of '\n' in the readable bytes, and null if there is none.
pub find_eol-IsFirst : (b : Buffer) → IsFirst (EolAt (readable b)) b.reader_index (find_eol b)
unfolding find_eol
find_eol-IsFirst b = search_eol-IsFirst (readable b) b.reader_index
