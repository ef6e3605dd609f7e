-- ===== src/Timer/Ordered.antt =====
-- The comparator of JKYi/timer.cc, and `std::set` as a list in its order.
use jkyi.Base.{
  ℕ, ◌≡◌, ◌≢◌, ◌↔◌, ◌⊎◌, inl, inr, refl, sym, ◌∙◌, ap, arith, true, false, List, [], ◌∷◌, All,
  Bool-cases,
}
use mathlib.Core.Path.{subst}
use jkyi.Timer.{Timer, Heap, put, less, equivalent, set_insert, set_has, set_erase}

-- `p` is in the set.
abbrev pub In : ℕ → List ℕ → Type 0
In p [] = ⊥
In p (q ∷ qs) = (p ≡ q) ⊎ In p qs

-- Every element is before all that follow it.
abbrev pub IsOrdered : Heap → List ℕ → Type 0
IsOrdered heap [] = Unit
IsOrdered heap (p ∷ ps) = All (λ q. less heap p q ≡ true) ps × IsOrdered heap ps

less_trans :
    (heap : Heap) (p q r : ℕ) → less heap p q ≡ true → less heap q r ≡ true → less heap p r ≡ true
unfolding less
less_trans heap p q r h k = ground arith

less-asym : (heap : Heap) (p q : ℕ) → less heap p q ≡ true → less heap q p ≡ false
unfolding less
less-asym heap p q h = ground arith

less-total : (heap : Heap) (p q : ℕ) → less heap p q ≡ false → less heap q p ≡ false → p ≡ q
unfolding less
less-total heap p q h k = ground arith

-- Two timers are the same to the set only if they are the same object.
equivalent-eq : (heap : Heap) (p q : ℕ) → equivalent heap p q ≡ true → p ≡ q
unfolding equivalent less
equivalent-eq heap p q h = ground arith

pub less_irrefl : (heap : Heap) (p q : ℕ) → q ≡ p → ¬ (less heap p q ≡ true)
unfolding less
less_irrefl heap p q e h = ground arith

equivalent_refl : (heap : Heap) (p : ℕ) → equivalent heap p p ≡ true
unfolding equivalent less
equivalent_refl heap p = ground arith

equivalent-ne : (heap : Heap) (p q : ℕ) → p ≢ q → equivalent heap p q ≡ false
unfolding equivalent less
equivalent-ne heap p q h = ground arith

pub set_has_iff : (heap : Heap) (p : ℕ) (xs : List ℕ) → (set_has heap p xs ≡ true) ↔ In p xs
unfolding set_has
set_has_iff heap p [] = (λ h. cc, λ m. absurd m)
set_has_iff heap p (q ∷ qs) = elim (Bool-cases (equivalent heap p q)) [
  | inl e ↦ rw e (λ h. inl (equivalent-eq heap p q e), λ m. refl)
  | inr n ↦ rw n (λ h. inr ((set_has_iff heap p qs).0 h), λ m. (set_has_iff heap p qs).1 (tail n m))
]
  where
    tail : equivalent heap p q ≡ false → (p ≡ q) ⊎ In p qs → In p qs
    tail n (inr m) = m
    tail n (inl e) =
        absurd
          (let f : true ≡ false = sym (equivalent_refl heap p) ∙ ap (equivalent heap p) e ∙ n in cc)

In-same : {p q : ℕ} (xs : List ℕ) → q ≡ p → In q xs → In p xs
In-same xs e m = subst (λ (k : ℕ). In k xs) e m

pub All-In : (P : ℕ → Type 0) (xs : List ℕ) → All P xs → (q : ℕ) → In q xs → P q
All-In P [] h q m = absurd m
All-In P (x ∷ xs) (hx, hs) q (inl e) = rw e hx
All-In P (x ∷ xs) (hx, hs) q (inr m) = All-In P xs hs q m

pub All-of : (P : ℕ → Type 0) (xs : List ℕ) → ((q : ℕ) → In q xs → P q) → All P xs
All-of P [] f = tt
All-of P (x ∷ xs) f = (f x (inl refl), All-of P xs (λ q m. f q (inr m)))

pub In-set_insert :
    (heap : Heap) (p q : ℕ) (xs : List ℕ) → In q (set_insert heap p xs) ↔ ((q ≡ p) ⊎ In q xs)
unfolding set_insert
In-set_insert heap p q [] = (λ m. m, λ m. m)
In-set_insert heap p q (x ∷ xs) = elim (Bool-cases (less heap p x)) [
  | inl l ↦ rw l ((λ m. m), (λ m. m))
  | inr l ↦ elim (Bool-cases (less heap x p)) [
    | inl g ↦ rw (l, g) ground (arith, In-set_insert heap p q xs)
    | inr g ↦ rw (l, g) ground (arith, less-total heap p x l g)
  ]
]

-- The invariant of the set.
pub set_insert-IsOrdered :
    (heap : Heap) (p : ℕ) (xs : List ℕ) → IsOrdered heap xs → IsOrdered heap (set_insert heap p xs)
unfolding set_insert
set_insert-IsOrdered heap p [] h = (tt, tt)
set_insert-IsOrdered heap p (x ∷ xs) (hx, hs) = elim (Bool-cases (less heap p x)) [
  | inl l ↦ rw l (
    (
      l,
      All-of (λ q. less heap p q ≡ true) xs
          (λ q m. less_trans heap p x q l (All-In (λ q. less heap x q ≡ true) xs hx q m)),
    ),
    (hx, hs),
  )
  | inr l ↦ elim (Bool-cases (less heap x p)) [
    | inl g ↦
        rw (l, g)
          (
            All-of (λ q. less heap x q ≡ true) (set_insert heap p xs)
                (λ q m. before q g ((In-set_insert heap p q xs).0 m)),
            set_insert-IsOrdered heap p xs hs,
          )
    | inr g ↦ rw (l, g) (hx, hs)
  ]
]
  where
    before : (q : ℕ) → less heap x p ≡ true → (q ≡ p) ⊎ In q xs → less heap x q ≡ true
    before q g (inl e) = rw e g
    before q g (inr m) = All-In (λ q. less heap x q ≡ true) xs hx q m

pub In-set_erase :
    (heap : Heap) (p q : ℕ) (xs : List ℕ)
    → IsOrdered heap xs
    → In q (set_erase heap p xs) ↔ ((q ≢ p) × In q xs)
unfolding set_erase
In-set_erase heap p q [] h = (λ m. absurd m, λ m. m.1)
In-set_erase heap p q (x ∷ xs) (hx, hs) = elim (Bool-cases (equivalent heap p x)) [
  | inl e ↦ rw e (
    λ m. (λ k. other m k (equivalent-eq heap p x e), inr m),
    λ (k, m). rest k m (equivalent-eq heap p x e),
  )
  | inr n ↦ rw n (
    λ m. elim m [
      | inl e ↦ (λ k. differ n (sym k ∙ e), inl e)
      | inr m ↦ let (k, i) = (In-set_erase heap p q xs hs).0 m in (k, inr i)
    ],
    λ (k, m). elim m [ inl e ↦ inl e | inr m ↦ inr ((In-set_erase heap p q xs hs).1 (k, m)) ],
  )
]
  where
    other : In q xs → q ≡ p → p ≡ x → ⊥
    other m k e =
        let l : less heap x q ≡ true = All-In (λ q. less heap x q ≡ true) xs hx q m in
        let same : q ≡ x = k ∙ e in less_irrefl heap x q same l

    rest : q ≢ p → (q ≡ x) ⊎ In q xs → p ≡ x → In q xs
    rest k (inl e) same = absurd (k (e ∙ sym same))
    rest k (inr m) same = m

    differ : equivalent heap p x ≡ false → p ≡ x → ⊥
    differ n e =
        let f : true ≡ false = sym (equivalent_refl heap p) ∙ ap (equivalent heap p) e ∙ n in cc

pub set_erase-IsOrdered :
    (heap : Heap) (p : ℕ) (xs : List ℕ) → IsOrdered heap xs → IsOrdered heap (set_erase heap p xs)
unfolding set_erase
set_erase-IsOrdered heap p [] h = tt
set_erase-IsOrdered heap p (x ∷ xs) (hx, hs) = elim (Bool-cases (equivalent heap p x)) [
  | inl e ↦ rw e hs
  | inr n ↦ rw n (
    All-of (λ q. less heap x q ≡ true) (set_erase heap p xs)
        (λ q m. All-In (λ q. less heap x q ≡ true) xs hx q ((In-set_erase heap p q xs hs).0 m).1),
    set_erase-IsOrdered heap p xs hs,
  )
]

pub put-other : (p : ℕ) (t : Timer) (heap : Heap) (q : ℕ) → q ≢ p → put p t heap q ≡ heap q
unfolding put
put-other p t heap q n = ground arith

pub put-same : (p : ℕ) (t : Timer) (heap : Heap) → put p t heap p ≡ t
unfolding put
put-same p t heap = ground arith

pub put-next :
    (p : ℕ) (t : Timer) (heap : Heap)
    → t.next ≡ (heap p).next
    → (q : ℕ) → (put p t heap q).next ≡ (heap q).next
unfolding put
put-next p t heap e q = ground (arith, e)

less-put :
    (heap : Heap) (p : ℕ) (t : Timer) (x q : ℕ)
    → x ≢ p
    → q ≢ p
    → less (put p t heap) x q ≡ less heap x q
unfolding less
less-put heap p t x q n k = rw (put-other p t heap x n, put-other p t heap q k)

-- A change of an object that is not in the set keeps its order.
pub put-IsOrdered :
    (heap : Heap) (p : ℕ) (t : Timer) (xs : List ℕ)
    → ¬ In p xs
    → IsOrdered heap xs
    → IsOrdered (put p t heap) xs
put-IsOrdered heap p t [] n h = tt
put-IsOrdered heap p t (x ∷ xs) n (hx, hs) = (
  All-of (λ q. less (put p t heap) x q ≡ true) xs
      (λ q m.
        less-put heap p t x q (λ e. n (inl (sym e))) (λ e. n (inr (In-same xs e m)))
        ∙ All-In (λ q. less heap x q ≡ true) xs hx q m),
  put-IsOrdered heap p t xs (λ m. n (inr m)) hs,
)

-- Only the times of its elements count for the order.
pub next-IsOrdered :
    (heap heap' : Heap) (xs : List ℕ)
    → ((q : ℕ) → In q xs → (heap' q).next ≡ (heap q).next)
    → IsOrdered heap xs
    → IsOrdered heap' xs
next-IsOrdered heap heap' [] f h = tt
next-IsOrdered heap heap' (x ∷ xs) f (hx, hs) = (
  All-of (λ q. less heap' x q ≡ true) xs
      (λ q m. same_less q m ∙ All-In (λ q. less heap x q ≡ true) xs hx q m),
  next-IsOrdered heap heap' xs (λ q m. f q (inr m)) hs,
)
  where
    same_less : (q : ℕ) → In q xs → less heap' x q ≡ less heap x q
    same_less q m = unfold less in rw (f x (inl refl), f q (inr m))

pub set_erase-absent : (heap : Heap) (p : ℕ) (xs : List ℕ) → ¬ In p xs → set_erase heap p xs ≡ xs
unfolding set_erase
set_erase-absent heap p [] n = refl
set_erase-absent heap p (x ∷ xs) n =
    let apart : equivalent heap p x ≡ false = equivalent-ne heap p x (λ e. n (inl e)) in
    rw (apart, set_erase-absent heap p xs (λ i. n (inr i))) refl
