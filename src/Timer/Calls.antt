-- ===== src/Timer/Calls.antt =====
-- `listExpiredCb` and `getNextTimer` as a whole (JKYi/timer.cc).
use jkyi.Base.{
  ℕ, ◌-◌, ◌^◌, ◌≤◌, ◌≡◌, ◌⊎◌, inl, inr, refl, sym, ◌∙◌, arith, Bool, true, false, not, ◌&&◌, List,
  [], ◌∷◌, append-nil, if◌then◌else◌, Bool-cases, ltb, ltb→lt, leb,
}
use mathlib.Core.Path.{subst}
use jkyi.Timer.{
  TimerManager, delete_clock_rollover, split_expired, fire, list_expired_cb, get_next_timer,
}
use jkyi.Timer.Ordered.{In, IsOrdered}
use jkyi.Timer.Due.{split_expired-Split, no_earlier}
use jkyi.Timer.Live.{IsValid}
use jkyi.Timer.Listed.{Listed, without, fired-Listed, none-Listed}

first_le :
    {m : TimerManager}
    → IsValid m
    → (p : ℕ) (ps : List ℕ) → m.timers ≡ p ∷ ps
    → (q : ℕ) → In q m.timers
    → (m.heap p).next ≤ (m.heap q).next
first_le {m} v p ps t q i =
    let (hp, o) = subst (λ (xs : List ℕ). IsOrdered m.heap xs) t v.ordered in
    no_earlier m.heap 0 p ps hp q (subst (λ (xs : List ℕ). In q xs) t i)

module _ (now at : ℕ) (m : TimerManager) where
  list_expired_cb-empty : m.timers ≡ [] → list_expired_cb now at m ≡ ([], m)
  unfolding list_expired_cb
  list_expired_cb-empty t = rw t refl

  list_expired_cb-some :
      (p : ℕ) (ps : List ℕ)
      → m.timers ≡ p ∷ ps
      → (b : Bool) → (delete_clock_rollover now m).0 ≡ b
      → list_expired_cb now at m ≡ (
          if not b && ltb now (m.heap p).next
          then ([], record m { previous_time = now })
          else fire now
              (split_expired b m.heap now at m.timers).0
              (without now (split_expired b m.heap now at m.timers).1 m))
  unfolding list_expired_cb delete_clock_rollover
  list_expired_cb-some p ps t b r = rw t (rw r refl)

-- On a set in order that has every timer with a callback, `listExpiredCb` takes out exactly the
-- timers that are due, after a rollover of the clock all of them, and gives their callbacks in the
-- order of their times. Of these it puts the recurring ones in again, an interval from now on, and
-- clears the callback of the others. It changes no other timer and keeps the invariant.
pub list_expired_cb_lem :
    (now at : ℕ) {m : TimerManager}
    → IsValid m
    → Listed now m (list_expired_cb now at m).0 (list_expired_cb now at m).1
list_expired_cb_lem now at {m} v = by_set m.timers refl
  where
    by_rollover :
        (p : ℕ) (ps : List ℕ)
        → m.timers ≡ p ∷ ps
        → (b : Bool) → (delete_clock_rollover now m).0 ≡ b
        → Listed now m (list_expired_cb now at m).0 (list_expired_cb now at m).1
    by_rollover p ps t true r =
        let e = list_expired_cb-some now at m p ps t true r in
        rw e (
          unfold split_expired in
          fired-Listed now m v m.timers [] (sym (append-nil m.timers)) tt
            (λ f. absurd (let g : true ≡ false = sym r ∙ f in cc)) (λ _. refl))
    by_rollover p ps t false r = elim (Bool-cases (ltb now (m.heap p).next)) [
      | inl l ↦
          let e : list_expired_cb now at m ≡ ([], record m { previous_time = now }) =
            list_expired_cb-some now at m p ps t false r ∙ rw l refl in
          rw e (
            none-Listed now m (record m { previous_time = now }) v refl refl
              (λ _ q i. omega (arith, ltb→lt now (m.heap p).next l, first_le v p ps t q i))
              (λ f. absurd (let g : true ≡ false = sym f ∙ r in cc)))
      | inr l ↦
          let s = split_expired-Split m.heap now at m.timers v.ordered in
          let (expired, left) = split_expired false m.heap now at m.timers in
          let e : list_expired_cb now at m ≡ fire now expired (without now left m) =
            list_expired_cb-some now at m p ps t false r ∙ rw l refl in
          rw e (
            fired-Listed now m v expired left s.whole s.ordered (λ _. (s.lower, s.upper))
              (λ f. absurd (let g : true ≡ false = sym f ∙ r in cc)))
    ]

    by_set :
        (xs : List ℕ)
        → m.timers ≡ xs
        → Listed now m (list_expired_cb now at m).0 (list_expired_cb now at m).1
    by_set [] t = rw (list_expired_cb-empty now at m t) (
        none-Listed now m m v refl refl (λ _ q i. absurd (subst (λ (xs : List ℕ). In q xs) t i))
          (λ _. t))
    by_set (p ∷ ps) t = by_rollover p ps t (delete_clock_rollover now m).0 refl

truncated : (n now : ℕ) → (if leb n now then 0 else n - now) ≡ n - now
truncated n now = ground arith

-- getNextTimer gives 0 if a timer is due, else the time to the first, and all ones without a timer.
pub get_next_timer_lem :
    (now : ℕ) {m : TimerManager}
    → IsValid m
    → ((m.timers ≡ []) × ((get_next_timer now m).0 ≡ 2 ^ 64 - 1))
      ⊎ ((p : ℕ) × In p m.timers
          × ((get_next_timer now m).0 ≡ (m.heap p).next - now)
          × ((q : ℕ) → In q m.timers → (m.heap p).next ≤ (m.heap q).next))
unfolding get_next_timer
get_next_timer_lem now {m} v = by_set m.timers refl
  where
    by_set :
        (xs : List ℕ)
        → m.timers ≡ xs
        → ((m.timers ≡ []) × ((get_next_timer now m).0 ≡ 2 ^ 64 - 1))
          ⊎ ((p : ℕ) × In p m.timers
              × ((get_next_timer now m).0 ≡ (m.heap p).next - now)
              × ((q : ℕ) → In q m.timers → (m.heap p).next ≤ (m.heap q).next))
    by_set [] t = inl (t, rw t refl)
    by_set (p ∷ ps) t = inr (
      p,
      subst (λ (xs : List ℕ). In p xs) (sym t) (inl refl),
      rw t (truncated (m.heap p).next now),
      first_le v p ps t,
    )
