-- ===== src/Timer.antt =====
-- JKYi/timer.h, timer.cc: the timers and their manager. A `Timer::ptr` is an address, and `heap`
-- has the objects; null pointers and the lock, which every operation takes, have no part.
-- `std::set` is the list of its elements in the order of the comparator. `now` is what
-- `GetCurrentMS` gives, and a callback is a number (`none`: an empty function). `wakeups` counts
-- the calls of onTimerInsertedAtFront. A number of milliseconds has 64 bits.
pub mod Ordered
pub mod Live
pub mod Reschedule
pub mod Due
pub mod Expired
pub mod Listed
pub mod Calls
mod Runs
use jkyi.Base.{
  ℕ, zero, suc, ◌+◌, ◌-◌, ◌%◌, ◌^◌, Bool, true, false, not, ◌&&◌, ◌||◌, Option, none, some, List,
  [], ◌∷◌, ◌++◌, ltb, leb, ◌==◌, if◌then◌else◌, size_sub,
}

pub record Timer : Type 0 where
  pub recurring : Bool
  pub ms : ℕ
  pub next : ℕ
  pub cb : Option ℕ

-- The test of a `std::function`
abbrev pub has_cb : Option ℕ → Bool
has_cb none = false
has_cb (some cb) = true

abbrev pub Heap : Type 0
Heap = ℕ → Timer

pub record TimerManager : Type 0 where
  pub heap : Heap
  pub timers : List ℕ
  pub tickled : Bool
  pub previous_time : ℕ
  pub wakeups : ℕ

unfoldable pub put : ℕ → Timer → Heap → Heap
put p t heap q = if q == p then t else heap q

-- The comparator
unfoldable pub less : Heap → ℕ → ℕ → Bool
less heap lhv rhv =
    if ltb (heap lhv).next (heap rhv).next
    then true
    else if ltb (heap rhv).next (heap lhv).next
    then false
    else ltb lhv rhv

-- Two keys that `std::set` takes for the same
unfoldable pub equivalent : Heap → ℕ → ℕ → Bool
equivalent heap p q = not (less heap p q) && not (less heap q p)

-- `insert`, `find(p) != end()`, and `erase` of what `find(p)` gives
unfoldable pub set_insert : Heap → ℕ → List ℕ → List ℕ
set_insert heap p [] = p ∷ []
set_insert heap p (q ∷ qs) =
    let rest = set_insert heap p qs in
    if less heap p q then p ∷ (q ∷ qs) else if less heap q p then q ∷ rest else q ∷ qs

unfoldable pub set_has : Heap → ℕ → List ℕ → Bool
set_has heap p [] = false
set_has heap p (q ∷ qs) = let rest = set_has heap p qs in if equivalent heap p q then true else rest

unfoldable pub set_erase : Heap → ℕ → List ℕ → List ℕ
set_erase heap p [] = []
set_erase heap p (q ∷ qs) =
    let rest = set_erase heap p qs in if equivalent heap p q then qs else q ∷ rest

is_first : Heap → ℕ → List ℕ → Bool
is_first heap p [] = false
is_first heap p (q ∷ qs) = equivalent heap p q

-- `addTimer(val, lock)`
unfoldable pub add_timer_ptr : ℕ → TimerManager → TimerManager
unfolding is_first
add_timer_ptr p m =
    let inserted = set_insert m.heap p m.timers in
    let at_front = is_first m.heap p inserted && not m.tickled in
    record m {
      timers = inserted;
      tickled = if at_front then true else m.tickled;
      wakeups = if at_front then suc m.wakeups else m.wakeups;
    }

-- `addTimer(ms, cb, recurring)`, for the address `p` of the new object
unfoldable pub add_timer : ℕ → ℕ → Option ℕ → Bool → ℕ → TimerManager → TimerManager
add_timer p ms cb recurring now m =
    let timer : Timer = record {
      recurring = recurring;
      ms = ms;
      next = (now + ms) % 2 ^ 64;
      cb = cb;
    } in
    add_timer_ptr p (record m { heap = put p timer m.heap })

-- `cancel`. `none`: `erase(end())`, which is undefined.
unfoldable pub cancel : ℕ → TimerManager → Option (Bool × TimerManager)
cancel p m =
    let heap' = put p (record (m.heap p) { cb = none }) m.heap in
    if has_cb (m.heap p).cb
    then if set_has heap' p m.timers
      then some (true, record m { heap = heap'; timers = set_erase heap' p m.timers })
      else none
    else some (false, m)

unfoldable pub refresh : ℕ → ℕ → TimerManager → Bool × TimerManager
refresh p now m =
    let left = set_erase m.heap p m.timers in
    let timer = m.heap p in
    let heap' = put p (record timer { next = (now + timer.ms) % 2 ^ 64 }) m.heap in
    if not (has_cb timer.cb)
    then (false, m)
    else if set_has m.heap p m.timers
    then (true, record m { heap = heap'; timers = set_insert heap' p left })
    else (false, m)

unfoldable pub reset : ℕ → ℕ → Bool → ℕ → TimerManager → Bool × TimerManager
reset p ms from_now now m =
    let left = set_erase m.heap p m.timers in
    let timer = m.heap p in
    let start = if from_now then now else size_sub timer.next timer.ms in
    let heap' = put p (record timer { ms = ms; next = (start + ms) % 2 ^ 64 }) m.heap in
    if ms == timer.ms && not from_now
    then (true, m)
    else if not (has_cb timer.cb)
    then (false, m)
    else if set_has m.heap p m.timers
    then (true, add_timer_ptr p (record m { heap = heap'; timers = left }))
    else (false, m)

-- `getNextTimer`: the milliseconds to the next timer, `~0ull` without one
unfoldable pub get_next_timer : ℕ → TimerManager → ℕ × TimerManager
get_next_timer now m = (
  elim m.timers [
    | [] ↦ 2 ^ 64 - 1
    | p ∷ ps ↦ if leb (m.heap p).next now then 0 else (m.heap p).next - now
  ],
  record m { tickled = false },
)

unfoldable pub has_timer : TimerManager → Bool
has_timer m = elim m.timers [ [] ↦ false | p ∷ ps ↦ true ]

-- `deleteClockRollover`
unfoldable pub delete_clock_rollover : ℕ → TimerManager → Bool × TimerManager
delete_clock_rollover now m = (
  ltb now m.previous_time && ltb now (size_sub m.previous_time 3600000),
  record m { previous_time = now },
)

-- `lower_bound(now_timer)`, where `now_timer` has the address `at`: the elements before it, and the
-- others
unfoldable pub lower_bound : Heap → ℕ → ℕ → List ℕ → List ℕ × List ℕ
lower_bound heap now at [] = ([], [])
lower_bound heap now at (q ∷ qs) =
    let (before, others) = lower_bound heap now at qs in
    if ltb (heap q).next now || ((heap q).next == now && ltb q at)
    then (q ∷ before, others)
    else ([], q ∷ qs)

-- The `while` behind it
unfoldable pub skip_now : Heap → ℕ → List ℕ → List ℕ × List ℕ
skip_now heap now [] = ([], [])
skip_now heap now (q ∷ qs) =
    let (before, others) = skip_now heap now qs in
    if (heap q).next == now then (q ∷ before, others) else ([], q ∷ qs)

-- What `listExpiredCb` takes out of the set, and what it leaves
unfoldable pub split_expired : Bool → Heap → ℕ → ℕ → List ℕ → List ℕ × List ℕ
split_expired true heap now at timers = (timers, [])
split_expired false heap now at timers =
    let (before, others) = lower_bound heap now at timers in
    let (same, left) = skip_now heap now others in (before ++ same, left)

-- The loop on the expired timers
unfoldable pub fire : ℕ → List ℕ → TimerManager → List (Option ℕ) × TimerManager
fire now [] m = ([], m)
fire now (p ∷ ps) m =
    let timer = m.heap p in
    let again = put p (record timer { next = (now + timer.ms) % 2 ^ 64 }) m.heap in
    let ended = put p (record timer { cb = none }) m.heap in
    let (cbs, m') = fire now ps (
      if timer.recurring
      then record m { heap = again; timers = set_insert again p m.timers }
      else record m { heap = ended }) in
    (timer.cb ∷ cbs, m')

unfoldable pub list_expired_cb : ℕ → ℕ → TimerManager → List (Option ℕ) × TimerManager
list_expired_cb now at m = elim m.timers [
  | [] ↦ ([], m)
  | p ∷ ps ↦
      let (rollover, m') = delete_clock_rollover now m in
      let (expired, left) = split_expired rollover m.heap now at m.timers in
      if not rollover && ltb now (m.heap p).next
      then ([], m')
      else fire now expired (record m' { timers = left })
]
