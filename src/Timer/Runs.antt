-- ===== src/Timer/Runs.antt =====
-- Runs of the timers.
use jkyi.Base.{
  ℕ, ◌≡◌, inl, inr, refl, arith, Bool, true, false, none, some, [], ◌∷◌, ◌==◌, if◌then◌else◌,
}
use jkyi.Timer.{
  has_cb, Timer, TimerManager, put, less, cancel, delete_clock_rollover, lower_bound, skip_now,
  split_expired, fire, list_expired_cb,
}
use jkyi.Timer.Ordered.{In}
use jkyi.Timer.Live.{IsValid, Cancelled, cancel_lem}
use jkyi.Timer.Listed.{Listed}
use jkyi.Timer.Calls.{list_expired_cb_lem}

abbrev ended : Timer
ended = record { recurring = false; ms = 0; next = 0; cb = none }

-- A recurring timer at address 16 and one at address 8, both due at 110; the one at 8 comes first.
abbrev two : TimerManager
two = record {
  heap = λ p.
      if p == 16
      then record { recurring = true; ms = 10; next = 110; cb = some 1 }
      else if p == 8
      then record { recurring = false; ms = 10; next = 110; cb = some 2 }
      else ended;
  timers = 8 ∷ 16 ∷ [];
  tickled = false;
  previous_time = 100;
  wakeups = 0;
}

two-IsValid : IsValid two
unfolding less
two-IsValid = record { ordered = ((refl, tt), (tt, tt)); live = λ p h. in_two p h }
  where
    in_two : (p : ℕ) → has_cb (two.heap p).cb ≡ true → In p two.timers
    in_two p h = ground (arith, h)

absent : ¬ In 24 two.timers
absent (inl e) = omega (arith, e)
absent (inr (inl e)) = omega (arith, e)
absent (inr (inr e)) = e

two_fired : (list_expired_cb 110 4 two).0 ≡ some 2 ∷ some 1 ∷ []
unfolding list_expired_cb delete_clock_rollover split_expired lower_bound skip_now fire put
two_fired = refl

-- An hour back the clock has rolled over, and all timers fire.
two_rolled : (list_expired_cb 5 4 (record two { previous_time = 4000000 })).0 ≡ some 2 ∷ some 1 ∷ []
unfolding list_expired_cb delete_clock_rollover split_expired fire put
two_rolled = refl

-- In the first hour of the clock any step back does.
first_hour : (delete_clock_rollover 99 two).0 ≡ true
unfolding delete_clock_rollover
first_hour = refl

cancel_lem_example :
    (done : Bool) × (m' : TimerManager) × (cancel 8 two ≡ some (done, m')) × Cancelled 8 two done m'
cancel_lem_example = cancel_lem 8 two-IsValid

list_expired_cb_lem_example :
    Listed 110 two (list_expired_cb 110 4 two).0 (list_expired_cb 110 4 two).1
list_expired_cb_lem_example = list_expired_cb_lem 110 4 two-IsValid
