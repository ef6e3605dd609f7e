-- ===== src/Timer/Live.antt =====
-- The manager's invariant, what a change of one timer keeps, and `cancel` (JKYi/timer.cc).
use jkyi.Base.{
  ℕ, ◌≡◌, ◌≢◌, ◌↔◌, ◌⊎◌, inl, inr, refl, sym, ◌∙◌, ap, Bool, true, false, Option, none, some, List,
  ==_iff, Bool-cases, ◌==◌,
}
use jkyi.Timer.{Timer, Heap, TimerManager, has_cb, put, set_insert, set_has, set_erase, cancel}
use jkyi.Timer.Ordered.{
  In, IsOrdered, set_has_iff, In-set_insert, set_insert-IsOrdered, In-set_erase,
  set_erase-IsOrdered, put-IsOrdered, put-other, put-same, put-next, next-IsOrdered,
}

pub differ : {p q : ℕ} → (q == p) ≡ false → q ≢ p
differ {p} {q} n e = let f : (q == p) ≡ true = (==_iff q p).1 e in absurd (cc)

-- The set is in order, and has every timer that has a callback.
pub record IsValid (m : TimerManager) : Type 0 where
  pub ordered : IsOrdered m.heap m.timers
  pub live : (p : ℕ) → has_cb (m.heap p).cb ≡ true → In p m.timers

-- What a change of the one timer `p` leaves: the others and their place in the set are as before.
pub record Changed (p : ℕ) (m m' : TimerManager) : Type 0 where
  pub valid : IsValid m'
  pub others : (q : ℕ) → q ≢ p → (m'.heap q ≡ m.heap q) × (In q m'.timers ↔ In q m.timers)

-- `p` is taken out of the set, changed, and put in again.
module _ (p : ℕ) (t : Timer) {m : TimerManager} (v : IsValid m) where
  abbrev pub moved : List ℕ
  moved = set_insert (put p t m.heap) p (set_erase m.heap p m.timers)

  erased-IsOrdered : IsOrdered (put p t m.heap) (set_erase m.heap p m.timers)
  erased-IsOrdered =
      put-IsOrdered m.heap p t (set_erase m.heap p m.timers)
        (λ i. ((In-set_erase m.heap p p m.timers v.ordered).0 i).0 refl)
        (set_erase-IsOrdered m.heap p m.timers v.ordered)

  In-moved : (q : ℕ) → In q moved ↔ ((q ≡ p) ⊎ In q m.timers)
  In-moved q = (
    λ i. elim ((In-set_insert (put p t m.heap) p q (set_erase m.heap p m.timers)).0 i) [
      | inl e ↦ inl e
      | inr j ↦ inr ((In-set_erase m.heap p q m.timers v.ordered).0 j).1
    ],
    λ i. (In-set_insert (put p t m.heap) p q (set_erase m.heap p m.timers)).1 (elim i [
      | inl e ↦ inl e
      | inr j ↦ elim (Bool-cases (q == p)) [
        | inl e ↦ inl ((==_iff q p).0 e)
        | inr n ↦ inr ((In-set_erase m.heap p q m.timers v.ordered).1 (differ n, j))
      ]
    ]),
  )

  -- A manager that has the changed heap and set
  pub moved-Changed :
      (m' : TimerManager) → m'.heap ≡ put p t m.heap → m'.timers ≡ moved → Changed p m m'
  moved-Changed m' h s = record {
    valid = record {
      ordered =
          rw (h, s)
            (set_insert-IsOrdered (put p t m.heap) p (set_erase m.heap p m.timers)
              erased-IsOrdered);
      live = λ q c. rw s (
          (In-moved q).1 (elim (Bool-cases (q == p)) [
            | inl e ↦ inl ((==_iff q p).0 e)
            | inr n ↦ inr (
                v.live q (
                  ap (λ (t : Timer). has_cb t.cb)
                    (sym (put-other p t m.heap q (differ n)) ∙ ap (λ (f : Heap). f q) (sym h))
                  ∙ c))
          ]));
    };
    others = λ q n. (
      rw h (put-other p t m.heap q n),
      rw s (
        λ i. elim ((In-moved q).0 i) [ inl e ↦ absurd (n e) | inr j ↦ j ],
        λ j. (In-moved q).1 (inr j),
      ),
    );
  }

-- The manager without the timer `p`, whose callback is gone
abbrev taken_out : ℕ → TimerManager → TimerManager
taken_out p m =
    let heap' = put p (record (m.heap p) { cb = none }) m.heap in
    record m { heap = heap'; timers = set_erase heap' p m.timers }

module _ (p : ℕ) {m : TimerManager} (v : IsValid m) where
  kept-IsOrdered : IsOrdered (put p (record (m.heap p) { cb = none }) m.heap) m.timers
  kept-IsOrdered =
      next-IsOrdered m.heap (put p (record (m.heap p) { cb = none }) m.heap) m.timers
        (λ q i. put-next p (record (m.heap p) { cb = none }) m.heap refl q) v.ordered

  In-taken_out : (q : ℕ) → In q (taken_out p m).timers ↔ ((q ≢ p) × In q m.timers)
  In-taken_out q =
      In-set_erase (put p (record (m.heap p) { cb = none }) m.heap) p q m.timers kept-IsOrdered

  taken_out-Changed : Changed p m (taken_out p m)
  taken_out-Changed = record {
    valid = record {
      ordered =
          set_erase-IsOrdered (put p (record (m.heap p) { cb = none }) m.heap) p m.timers
            kept-IsOrdered;
      live = λ q c. (In-taken_out q).1 (still q c (Bool-cases (q == p)));
    };
    others = λ q n. (
      put-other p (record (m.heap p) { cb = none }) m.heap q n,
      (λ i. ((In-taken_out q).0 i).1, λ i. (In-taken_out q).1 (n, i)),
    );
  }
    where
      still :
          (q : ℕ)
          → has_cb ((taken_out p m).heap q).cb ≡ true
          → ((q == p) ≡ true) ⊎ ((q == p) ≡ false)
          → (q ≢ p) × In q m.timers
      still q c (inl e) =
          let f : false ≡ true =
            ap (λ (t : Timer). has_cb t.cb)
              (sym (put-same p (record (m.heap p) { cb = none }) m.heap))
            ∙ ap (λ (k : ℕ). has_cb ((taken_out p m).heap k).cb) (sym ((==_iff q p).0 e))
            ∙ c in
          absurd (cc)
      still q c (inr n) = (
        differ n,
        v.live q (
            ap (λ (t : Timer). has_cb t.cb)
              (sym (put-other p (record (m.heap p) { cb = none }) m.heap q (differ n)))
            ∙ c),
      )

-- What `cancel` leaves.
pub record Cancelled (p : ℕ) (m : TimerManager) (done : Bool) (m' : TimerManager) : Type 0 where
  pub changed : Changed p m m'
  pub done_lem : done ≡ has_cb (m.heap p).cb
  pub no_callback : (m'.heap p).cb ≡ none
  pub out : done ≡ true → ¬ In p m'.timers

-- On a set in order that has every timer with a callback, `cancel` never erases the end. It returns
-- true when the timer has a callback, and then takes the timer out of the set; it changes no other
-- timer and keeps the invariant.
pub cancel_lem :
    (p : ℕ) {m : TimerManager}
    → IsValid m
    → (done : Bool) × (m' : TimerManager) × (cancel p m ≡ some (done, m')) × Cancelled p m done m'
unfolding cancel
cancel_lem p {m} v = elim (Bool-cases (has_cb (m.heap p).cb)) [
  | inl e ↦
      let heap' = put p (record (m.heap p) { cb = none }) m.heap in
      let has : set_has heap' p m.timers ≡ true = (set_has_iff heap' p m.timers).1 (v.live p e) in
      (
        true,
        taken_out p m,
        rw e (rw has refl),
        record {
          changed = taken_out-Changed p v;
          done_lem = sym e;
          no_callback =
              ap (λ (t : Timer). t.cb) (put-same p (record (m.heap p) { cb = none }) m.heap);
          out = λ _ j. ((In-taken_out p v p).0 j).0 refl;
        },
      )
  | inr e ↦ (
    false,
    m,
    rw e refl,
    record {
      changed = record { valid = v; others = λ q n. (refl, (λ i. i, λ i. i)) };
      done_lem = sym e;
      no_callback = ended (m.heap p).cb e;
      out = λ f. absurd (cc);
    },
  )
]
  where
    ended : (c : Option ℕ) → has_cb c ≡ false → c ≡ none
    ended none e = refl
    ended (some c) e = absurd (cc)
