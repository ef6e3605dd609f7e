-- ===== src/Reactor/LoopPool.antt =====
-- JKYi/reactor/EventLoopThreadPool.h and JKYi/reactor/EventLoopThreadPool.cc: which loop a new
-- connection goes to. Loops have numbers. A failed JKYI_ASSERT and a read outside the vector are
-- `none`.
use jkyi.Base.Options.{◌>>=◌}
use jkyi.Base.{
  ℕ, zero, suc, ◌+◌, ◌%◌, ◌<◌, ◌≡◌, refl, sym, ap, ◌∙◌, inl, inr, arith, Bool, true, false, Option,
  none, some, List, [], ◌∷◌, leb, if◌then◌else◌, length, drop, drop_all, get_elem?, Bool-cases,
}
use native.Mathlib.Nat.{mod-lt}
use mathlib.Core.Path.{subst}
use mathlib.Core.Bool.{false≢true}

pub record EventLoopThreadPool : Type 0 where
  pub base_loop : ℕ
  pub started : Bool
  pub loops : List ℕ
  pub next : ℕ

abbrev has_no_loops : List ℕ → Bool
has_no_loops [] = true
has_no_loops (x ∷ xs) = false

-- `next_` after one more loop was handed out
abbrev advance : ℕ → ℕ → ℕ
advance n next = if leb n (next + 1) then 0 else next + 1

unfoldable next_of : EventLoopThreadPool → Option (ℕ × EventLoopThreadPool)
next_of p = get_elem? p.loops p.next >>= λ loop.
    some (loop, record p { next = advance (length p.loops) p.next })

unfoldable get_next_loop : EventLoopThreadPool → Option (ℕ × EventLoopThreadPool)
get_next_loop p =
    if p.started then (if has_no_loops p.loops then some (p.base_loop, p) else next_of p) else none

unfoldable get_loop_for_hash : ℕ → EventLoopThreadPool → Option ℕ
get_loop_for_hash hash_code p =
    if has_no_loops p.loops
    then some p.base_loop
    else get_elem? p.loops (hash_code % length p.loops)

unfoldable get_all_loops : EventLoopThreadPool → Option (List ℕ)
get_all_loops p =
    if p.started then some (if has_no_loops p.loops then p.base_loop ∷ [] else p.loops) else none

-- `k` calls of getNextLoop
abbrev calls : ℕ → EventLoopThreadPool → Option (List ℕ × EventLoopThreadPool)
calls zero p = some ([], p)
calls (suc k) p =
    get_next_loop p >>= λ (loop, p'). calls k p' >>= λ (rest, q). some (loop ∷ rest, q)

get_elem?-drop :
    (xs : List ℕ) (r : ℕ)
    → r < length xs
    → (x : ℕ) × (get_elem? xs r ≡ some x) × (drop r xs ≡ x ∷ drop (suc r) xs)
get_elem?-drop [] r l = absurd (omega arith)
get_elem?-drop (x ∷ xs) zero l = (x, refl, refl)
get_elem?-drop (x ∷ xs) (suc r) l = get_elem?-drop xs r (omega arith)

not_empty : (xs : List ℕ) → 0 < length xs → has_no_loops xs ≡ false
not_empty [] l = absurd (omega arith)
not_empty (x ∷ xs) l = refl

-- The pool with its index at `r`
abbrev turned : ℕ → EventLoopThreadPool → EventLoopThreadPool
turned r p = record p { next = r }

get_next_loop_lem :
    (r : ℕ) (p : EventLoopThreadPool)
    → p.started ≡ true
    → r < length p.loops
    → (x : ℕ) × (get_next_loop (turned r p) ≡ some (x, turned (advance (length p.loops) r) p))
      × (drop r p.loops ≡ x ∷ drop (suc r) p.loops)
unfolding get_next_loop next_of
get_next_loop_lem r p st l =
    let (x, e, d) = get_elem?-drop p.loops r l in
    (x, rw (st, not_empty p.loops (omega (arith, l)), e) refl, d)

rest_of_round :
    (k r : ℕ) (p : EventLoopThreadPool)
    → p.started ≡ true
    → r + suc k ≡ length p.loops
    → calls (suc k) (turned r p) ≡ some (drop r p.loops, turned 0 p)
rest_of_round zero r p st l =
    let (x, e, d) = get_next_loop_lem r p st (omega (arith, l)) in
    let last : advance (length p.loops) r ≡ 0 = ground (arith, l) in
    rw (e, last, d, drop_all (suc r) p.loops (omega (arith, l))) refl
rest_of_round (suc k) r p st l =
    let (x, e, d) = get_next_loop_lem r p st (omega (arith, l)) in
    let on : advance (length p.loops) r ≡ suc r = ground (arith, l) in
    ap (λ o. o >>= λ (loop, p'). calls (suc k) p' >>= λ (rest, q). some (loop ∷ rest, q))
      (e ∙ ap (λ n. some (x, turned n p)) on)
    ∙ ap (λ o. o >>= λ (rest, q). some (x ∷ rest, q))
        (rest_of_round k (suc r) p st (omega (arith, l)))
    ∙ ap (λ xs. some (xs, turned 0 p)) (sym d)

no_loops : (xs : List ℕ) → 0 ≡ length xs → [] ≡ xs
no_loops [] e = refl
no_loops (x ∷ xs) e = absurd (omega (arith, e))

round :
    (p : EventLoopThreadPool)
    → p.started ≡ true
    → (n : ℕ) → n ≡ length p.loops
    → calls n (turned 0 p) ≡ some (p.loops, turned 0 p)
round p st zero e = ap (λ xs. some (xs, turned 0 p)) (no_loops p.loops e)
round p st (suc k) e = rest_of_round k 0 p st (omega (arith, e))

alone :
    (p : EventLoopThreadPool)
    → p.started ≡ true
    → p.loops ≡ []
    → get_next_loop p ≡ some (p.base_loop, p)
unfolding get_next_loop
alone p st e = rw (st, ap has_no_loops e) refl

-- On a pool that was started and is at the start of a round, getNextLoop never reads outside the
-- vector, and as many calls of it as there are loops hand out every loop once, in order, and come
-- back to the same state; a pool without loops hands out the base loop.
calls_lem :
    (p : EventLoopThreadPool)
    → p.started ≡ true
    → p.next ≡ 0
    → (calls (length p.loops) p ≡ some (p.loops, p))
      × (p.loops ≡ [] → get_next_loop p ≡ some (p.base_loop, p))
calls_lem p st z =
    let same : turned 0 p ≡ p = λ i. record p { next = sym z i } in
    (
      subst (λ (q : EventLoopThreadPool). calls (length p.loops) q ≡ some (p.loops, q)) same
          (round p st (length p.loops) refl),
      λ e. alone p st e,
    )

some_loops : (xs : List ℕ) → has_no_loops xs ≡ false → 0 < length xs
some_loops [] e = absurd (false≢true (sym e))
some_loops (x ∷ xs) e = omega arith

-- getLoopForHash always finds a loop: the one at the hash modulo their number, or the base loop if
-- there are none.
get_loop_for_hash_lem :
    (hash_code : ℕ) (p : EventLoopThreadPool) → (x : ℕ) × (get_loop_for_hash hash_code p ≡ some x)
unfolding get_loop_for_hash
get_loop_for_hash_lem hash_code p = elim (Bool-cases (has_no_loops p.loops)) [
  | inl e ↦ (p.base_loop, rw e refl)
  | inr e ↦
      let n = length p.loops in
      let (x, g, d) =
        get_elem?-drop p.loops (hash_code % n) (mod-lt hash_code (some_loops p.loops e)) in
      (x, rw (e, g) refl)
]
