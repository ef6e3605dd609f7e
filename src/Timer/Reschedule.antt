-- ===== src/Timer/Reschedule.antt =====
-- New times for a timer (JKYi/timer.cc, `refresh`, `reset` and `addTimer`).
use jkyi.Base.{
  ℕ, suc, ◌+◌, ◌%◌, ◌^◌, ◌≡◌, ◌⊎◌, inl, inr, refl, sym, ◌∙◌, ap, arith, Bool, true, false, not,
  ◌&&◌, Option, List, if◌then◌else◌, Bool-cases, ◌==◌, size_sub,
}
use jkyi.Timer.{
  Timer, Heap, TimerManager, has_cb, put, set_insert, set_has, set_erase, is_first, add_timer_ptr,
  add_timer, refresh, reset,
}
use jkyi.Timer.Ordered.{In, set_has_iff, In-set_insert, set_erase-absent, put-same}
use jkyi.Timer.Live.{IsValid, Changed, moved, moved-Changed}

-- What `refresh` and `reset` leave, for the time `next` that they set.
pub record Rescheduled (p next : ℕ) (m : TimerManager) (done : Bool) (m' : TimerManager)
    : Type 0 where
  pub changed : Changed p m m'
  pub done_lem : done ≡ has_cb (m.heap p).cb
  pub next_lem : done ≡ true → (m'.heap p).next ≡ next
  pub kept : done ≡ false → m' ≡ m

unchanged : (p : ℕ) {m : TimerManager} → IsValid m → Changed p m m
unchanged p v = record { valid = v; others = λ q n. (refl, (λ i. i, λ i. i)) }

not_done :
    (p next : ℕ) {m : TimerManager}
    → IsValid m
    → has_cb (m.heap p).cb ≡ false
    → Rescheduled p next m false m
not_done p next v e = record {
  changed = unchanged p v;
  done_lem = sym e;
  next_lem = λ f. absurd (cc);
  kept = λ _. refl;
}

done :
    (p next : ℕ) (t : Timer) {m : TimerManager} (v : IsValid m) (m' : TimerManager)
    → has_cb (m.heap p).cb ≡ true
    → m'.heap ≡ put p t m.heap
    → m'.timers ≡ moved p t v
    → t.next ≡ next
    → Rescheduled p next m true m'
done p next t {m} v m' e h s n = record {
  changed = moved-Changed p t v m' h s;
  done_lem = sym e;
  next_lem =
      λ _. ap (λ (f : Heap). (f p).next) h ∙ ap (λ (t : Timer). t.next) (put-same p t m.heap) ∙ n;
  kept = λ f. absurd (cc);
}

-- The manager after the timer was changed and put in again
abbrev again : (p : ℕ) (t : Timer) → TimerManager → TimerManager
again p t m = record m {
  heap = put p t m.heap;
  timers = set_insert (put p t m.heap) p (set_erase m.heap p m.timers);
}

-- `refresh` returns true when the timer has a callback, and then sets its time to the interval from
-- now on, a number of 64 bits; else it changes nothing. It changes no other timer and keeps the
-- invariant.
pub refresh_lem :
    (p now : ℕ) {m : TimerManager}
    → IsValid m
    → Rescheduled p ((now + (m.heap p).ms) % 2 ^ 64) m (refresh p now m).0 (refresh p now m).1
unfolding refresh
refresh_lem p now {m} v = elim (Bool-cases (has_cb (m.heap p).cb)) [
  | inl e ↦
      let t = record (m.heap p) { next = (now + (m.heap p).ms) % 2 ^ 64 } in
      let has : set_has m.heap p m.timers ≡ true = (set_has_iff m.heap p m.timers).1 (v.live p e) in
      rw (e, has) (done p ((now + (m.heap p).ms) % 2 ^ 64) t v (again p t m) e refl refl refl)
  | inr e ↦ rw e (not_done p ((now + (m.heap p).ms) % 2 ^ 64) v e)
]

-- The time that `reset` sets
abbrev pub reset_next : ℕ → ℕ → Bool → ℕ → TimerManager → ℕ
reset_next p ms from_now now m =
    ((if from_now then now else size_sub (m.heap p).next (m.heap p).ms) + ms) % 2 ^ 64

-- `reset` to the same interval, not from now on, changes nothing and returns true. Any other
-- returns true when the timer has a callback, and then sets its time to the new interval from the
-- given start, a number of 64 bits; else it changes nothing. It changes no other timer and keeps
-- the invariant.
pub reset_lem :
    (p ms : ℕ) (from_now : Bool) (now : ℕ) {m : TimerManager}
    → IsValid m
    → ((ms == (m.heap p).ms && not from_now ≡ true) × (reset p ms from_now now m ≡ (true, m)))
      ⊎ Rescheduled p
          (reset_next p ms from_now now m)
          m
          (reset p ms from_now now m).0
          (reset p ms from_now now m).1
unfolding reset add_timer_ptr
reset_lem p ms from_now now {m} v = elim (Bool-cases (ms == (m.heap p).ms && not from_now)) [
  | inl same ↦ inl (same, rw same refl)
  | inr n ↦ inr (elim (Bool-cases (has_cb (m.heap p).cb)) [
    | inl e ↦
        let t = record (m.heap p) { ms = ms; next = reset_next p ms from_now now m } in
        let has : set_has m.heap p m.timers ≡ true =
          (set_has_iff m.heap p m.timers).1 (v.live p e) in
        rw (n, e, has)
          (done p (reset_next p ms from_now now m) t v
            (add_timer_ptr p
              (record m { heap = put p t m.heap; timers = set_erase m.heap p m.timers }))
            e refl refl refl)
    | inr e ↦ rw (n, e) (not_done p (reset_next p ms from_now now m) v e)
  ])
]

-- `addTimer` for an address that is not in the set puts the new timer in, due after `ms`
-- milliseconds; it changes no other timer, keeps the invariant, and calls onTimerInsertedAtFront at
-- most once until getNextTimer is called again.
pub add_timer_lem :
    (p ms : ℕ) (cb : Option ℕ) (recurring : Bool) (now : ℕ) {m : TimerManager}
    → IsValid m
    → ¬ In p m.timers
    → let m' = add_timer p ms cb recurring now m in
      Changed p m m'
      × In p m'.timers
      × ((m'.heap p).next ≡ (now + ms) % 2 ^ 64)
      × ((m'.wakeups ≡ m.wakeups)
          ⊎ ((m'.wakeups ≡ m.wakeups + 1) × (m.tickled ≡ false) × (m'.tickled ≡ true)))
unfolding add_timer add_timer_ptr
add_timer_lem p ms cb recurring now {m} v n =
    let t : Timer = record {
      recurring = recurring;
      ms = ms;
      next = (now + ms) % 2 ^ 64;
      cb = cb;
    } in
    (
      moved-Changed p t v (add_timer p ms cb recurring now m) refl (
          ap (λ (xs : List ℕ). set_insert (put p t m.heap) p xs)
            (sym (set_erase-absent m.heap p m.timers n))),
      (In-set_insert (put p t m.heap) p p m.timers).1 (inl refl),
      ap (λ (t : Timer). t.next) (put-same p t m.heap),
      woken (is_first (put p t m.heap) p (set_insert (put p t m.heap) p m.timers)) m.tickled
          m.wakeups,
    )
  where
    woken :
        (first tickled : Bool) (n : ℕ)
        → ((if first && not tickled then suc n else n) ≡ n)
          ⊎ (((if first && not tickled then suc n else n) ≡ n + 1)
              × (tickled ≡ false)
              × ((if first && not tickled then true else tickled) ≡ true))
    woken true true n = inl refl
    woken true false n = inr (omega arith, refl, refl)
    woken false tickled n = inl refl
