-- ===== src/Timer/Listed.antt =====
-- What `listExpiredCb` (JKYi/timer.cc) does on either way of splitting the set.
use jkyi.Base.{
  ℕ, ◌<◌, ◌≤◌, ◌≡◌, ◌↔◌, inl, inr, refl, sym, ◌∙◌, ap, true, false, Option, List, [], ◌∷◌, ◌++◌,
  map, Bool-cases, All,
}
use mathlib.Core.Path.{subst}
use jkyi.Timer.{Timer, Heap, TimerManager, has_cb, less, set_has, delete_clock_rollover, fire}
use jkyi.Timer.Ordered.{In, IsOrdered, set_has_iff, All-In, less_irrefl}
use jkyi.Timer.Due.{In-append}
use jkyi.Timer.Live.{IsValid}
use jkyi.Timer.Expired.{Renewed, Fired, fire-Fired}

module _ (heap : Heap) where
  All-front : (P : ℕ → Type 0) (xs ys : List ℕ) → All P (xs ++ ys) → All P xs
  All-front P [] ys h = tt
  All-front P (x ∷ xs) ys (hx, hs) = (hx, All-front P xs ys hs)

  In-front : (q : ℕ) (xs ys : List ℕ) → In q ys → In q (xs ++ ys)
  In-front q [] ys m = m
  In-front q (x ∷ xs) ys m = inr (In-front q xs ys m)

  ordered_front : (xs ys : List ℕ) → IsOrdered heap (xs ++ ys) → IsOrdered heap xs
  ordered_front [] ys h = tt
  ordered_front (x ∷ xs) ys (hx, hs) =
      (All-front (λ q. less heap x q ≡ true) xs ys hx, ordered_front xs ys hs)

  -- No timer is in the set twice.
  disjoint : (xs ys : List ℕ) → IsOrdered heap (xs ++ ys) → (q : ℕ) → In q xs → ¬ In q ys
  disjoint [] ys h q m n = absurd m
  disjoint (x ∷ xs) ys (hx, hs) q (inr m) n = disjoint xs ys hs q m n
  disjoint (x ∷ xs) ys (hx, hs) q (inl e) n =
      less_irrefl heap x q e
        (All-In (λ q. less heap x q ≡ true) (xs ++ ys) hx q (In-front q xs ys n))

-- What `listExpiredCb` does at the time `now`: it takes a first part of the set out, gives its
-- callbacks in order, and renews it.
pub record Listed (now : ℕ) (m : TimerManager) (cbs : List (Option ℕ)) (m' : TimerManager)
    : Type 0 where
  pub expired : List ℕ
  pub left : List ℕ
  pub whole : m.timers ≡ expired ++ left
  pub cbs_lem : cbs ≡ map (λ q. (m.heap q).cb) expired
  pub valid : IsValid m'
  pub due :
      (delete_clock_rollover now m).0 ≡ false
      → ((q : ℕ) → In q expired → (m.heap q).next ≤ now)
        × ((q : ℕ) → In q left → now < (m.heap q).next)
  pub rolled : (delete_clock_rollover now m).0 ≡ true → left ≡ []
  pub others : (q : ℕ) → ¬ In q expired → (m'.heap q ≡ m.heap q) × (In q m'.timers ↔ In q m.timers)
  pub renewed : (q : ℕ) → In q expired → Renewed now q (m.heap q) m'

-- The manager that the loop starts from
abbrev pub without : ℕ → List ℕ → TimerManager → TimerManager
without now left m = record m { previous_time = now; timers = left }

module _ (now : ℕ) (m : TimerManager) (v : IsValid m) (expired left : List ℕ)
    (whole : m.timers ≡ expired ++ left) (ordered : IsOrdered m.heap left) where
  whole-IsOrdered : IsOrdered m.heap (expired ++ left)
  whole-IsOrdered = subst (λ (xs : List ℕ). IsOrdered m.heap xs) whole v.ordered

  fired :
      Fired now expired
        (without now left m)
        (fire now expired (without now left m)).0
        (fire now expired (without now left m)).1
  fired =
      fire-Fired now expired (without now left m) ordered
        (ordered_front m.heap expired left whole-IsOrdered)
        (disjoint m.heap expired left whole-IsOrdered)

  fired-others :
      (q : ℕ)
      → ¬ In q expired
      → ((fire now expired (without now left m)).1.heap q ≡ m.heap q)
        × (In q (fire now expired (without now left m)).1.timers ↔ In q m.timers)
  fired-others q n =
      let (e, i) = fired.others q n in
      (
        e,
        (
          λ j.
              subst (λ (xs : List ℕ). In q xs) (sym whole) (In-front m.heap q expired left (i.0 j)),
          λ j. i.1 (elim (In-append q expired left (subst (λ (xs : List ℕ). In q xs) whole j)) [
            | inl k ↦ absurd (n k)
            | inr k ↦ k
          ]),
        ),
      )

  fired-live :
      (q : ℕ)
      → has_cb ((fire now expired (without now left m)).1.heap q).cb ≡ true
      → In q (fire now expired (without now left m)).1.timers
  fired-live q c = elim (Bool-cases (set_has m.heap q expired)) [
    | inl y ↦
        let i : In q expired = (set_has_iff m.heap q expired).0 y in
        elim (Bool-cases (m.heap q).recurring) [
          | inl r ↦ ((fired.renewed q i).0 r).1
          | inr r ↦
              let f : false ≡ true = ap has_cb (sym ((fired.renewed q i).1 r).0) ∙ c in absurd (cc)
        ]
    | inr n ↦
        let (e, i) = fired-others q (λ j.
          let f : true ≡ false = sym ((set_has_iff m.heap q expired).1 j) ∙ n in absurd (cc)) in
        i.1 (v.live q (ap (λ (t : Timer). has_cb t.cb) (sym e) ∙ c))
  ]

  pub fired-Listed :
      ((delete_clock_rollover now m).0 ≡ false
        → ((q : ℕ) → In q expired → (m.heap q).next ≤ now)
          × ((q : ℕ) → In q left → now < (m.heap q).next))
      → ((delete_clock_rollover now m).0 ≡ true → left ≡ [])
      → Listed now m
          (fire now expired (without now left m)).0
          (fire now expired (without now left m)).1
  fired-Listed due rolled = record {
    expired = expired;
    left = left;
    whole = whole;
    cbs_lem = fired.cbs_lem;
    valid = record { ordered = fired.ordered; live = fired-live };
    due = due;
    rolled = rolled;
    others = fired-others;
    renewed = fired.renewed;
  }

-- Nothing is taken out.
pub none-Listed :
    (now : ℕ) (m m' : TimerManager)
    → IsValid m
    → m'.heap ≡ m.heap
    → m'.timers ≡ m.timers
    → ((delete_clock_rollover now m).0 ≡ false → (q : ℕ) → In q m.timers → now < (m.heap q).next)
    → ((delete_clock_rollover now m).0 ≡ true → m.timers ≡ [])
    → Listed now m [] m'
none-Listed now m m' v h t waiting rolled = record {
  expired = [];
  left = m.timers;
  whole = refl;
  cbs_lem = refl;
  valid = record {
    ordered = rw (h, t) v.ordered;
    live = λ q c. rw t (v.live q (ap (λ (f : Heap). has_cb (f q).cb) (sym h) ∙ c));
  };
  due = λ f. (λ q i. absurd i, waiting f);
  rolled = rolled;
  others = λ q n. (ap (λ (f : Heap). f q) h, rw t (λ i. i, λ i. i));
  renewed = λ q i. absurd i;
}
