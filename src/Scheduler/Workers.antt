-- ===== src/Scheduler/Workers.antt =====
-- The threads of JKYi/scheduler.cc: the loop of `run` cut at its lock, at the switches to a fiber
-- and back (JKYi/fiber.cc), and at its changes of the counters that other threads read. A thread's
-- place in the loop is its phase. Other threads' steps may come between any two steps.
use jkyi.Base.{
  ℕ, suc, ◌+◌, Bool, true, false, not, ◌&&◌, ◌||◌, Option, none, some, List, ◌==◌, if◌then◌else◌,
  size_sub,
}
use jkyi.Base.Options.{◌>>=◌}
use jkyi.Scheduler.{
  FiberState, init, hold, exec, term, ready, except, is_exec, is_ended, is_idle_state,
  FiberAndThread, is_empty, schedule_no_lock, pick,
}

-- Where a thread is in `run`: before the search; with what the search found; in a fiber, which is
-- its callback fiber or not; back from it; about to schedule it again; in the idle fiber; at the
-- end
pub data Phase : Type 0 where
  looking : Phase
  after_search : Option FiberAndThread → Phase
  inside : ℕ → Bool → Phase
  outside : ℕ → Bool → Phase
  rescheduling : ℕ → Bool → Phase
  idling : Phase
  ended : Phase

pub record Scheduler : Type 0 where
  pub fibers : List FiberAndThread
  pub active_thread_count : ℕ
  pub idle_thread_count : ℕ
  pub stopping : Bool
  pub auto_stop : Bool
  pub tickles : ℕ
  pub state : ℕ → FiberState
  pub phase : ℕ → Phase
  pub cb_fiber : ℕ → Option ℕ
  pub idle_done : ℕ → Bool

abbrev pub set {ℓ} : {A : Type ℓ} → ℕ → A → (ℕ → A) → ℕ → A
set k x f i = if i == k then x else f i

abbrev pub go : ℕ → Phase → Scheduler → Scheduler
go w p s = record s { phase = set w p s.phase }

abbrev pub set_state : ℕ → FiberState → Scheduler → Scheduler
set_state f st s = record s { state = set f st s.state }

abbrev pub tickle_if : Bool → Scheduler → Scheduler
tickle_if b s = record s { tickles = if b then suc s.tickles else s.tickles }

-- `schedule`
unfoldable pub schedule : FiberAndThread → Scheduler → Scheduler
schedule ft s =
    let (need_tickle, q) = schedule_no_lock ft s.fibers in
    tickle_if need_tickle record s { fibers = q }

-- `stopping()`
unfoldable pub may_stop : Scheduler → Bool
may_stop s = s.auto_stop && s.stopping && is_empty s.fibers && s.active_thread_count == 0

-- The search under the lock, and the tickle after it
abbrev pub count_found : Option FiberAndThread → ℕ → ℕ
count_found none n = n
count_found (some ft) n = n + 1

unfoldable pub take : ℕ → Scheduler → Option Scheduler
take w s = pick w s.state s.fibers >>= λ (found, q, tickle_me). some (
    go w (after_search found) (
      tickle_if tickle_me
        record s { fibers = q; active_thread_count = count_found found s.active_thread_count }))

-- `Fiber::swapIn`, up to the switch of the context
unfoldable pub swap_in : ℕ → Scheduler → Option Scheduler
swap_in f s = if is_exec (s.state f) then none else some (set_state f exec s)

-- `Fiber::reset`
unfoldable pub reset : ℕ → Scheduler → Option Scheduler
reset f s = if is_idle_state (s.state f) then some (set_state f init s) else none

-- The callback fiber of a thread, made ready for a callback. A new fiber has the number `next`.
unfoldable pub prepare : ℕ → ℕ → Option ℕ → Scheduler → Option (ℕ × Scheduler)
prepare w next none s =
    some (next, set_state next init record s { cb_fiber = set w (some next) s.cb_fiber })
prepare w next (some f) s = reset f s >>= λ s'. some (f, s')

-- `ft.fiber && (state != TERM && state != EXCEPT)`
abbrev pub to_swap : (ℕ → FiberState) → Option ℕ → Option ℕ
to_swap state none = none
to_swap state (some f) = if is_ended (state f) then none else some f

-- From the search to the switch to the fiber: of the task, of the callback fiber, or of the idle
-- fiber
unfoldable pub begin_cb : ℕ → ℕ → Option ℕ → Scheduler → Option Scheduler
begin_cb w next none s =
    some (go w looking record s { active_thread_count = size_sub s.active_thread_count 1 })
begin_cb w next (some cb) s = prepare w next (s.cb_fiber w) s >>= λ (f, s1).
    swap_in f s1 >>= λ s2. some (go w (inside f true) s2)

unfoldable pub begin_task : ℕ → ℕ → Option ℕ → Option ℕ → Scheduler → Option Scheduler
begin_task w next none cb s = begin_cb w next cb s
begin_task w next (some f) cb s = swap_in f s >>= λ s1. some (go w (inside f false) s1)

unfoldable pub begin : ℕ → ℕ → Option FiberAndThread → Scheduler → Option Scheduler
begin w next (some ft) s = begin_task w next (to_swap s.state ft.fiber) ft.cb s
begin w next none s =
    if s.idle_done w
    then some (go w ended s)
    else some (go w idling record s { idle_thread_count = s.idle_thread_count + 1 })

-- How a fiber leaves: `YieldToHold`, `YieldToReady`, or the end of `MainFunc`
pub data Leave : Type 0 where
  to_hold to_ready returned threw : Leave

abbrev pub left_state : Leave → FiberState
left_state to_hold = exec
left_state to_ready = ready
left_state returned = term
left_state threw = except

abbrev pub is_yield : Leave → Bool
is_yield to_hold = true
is_yield to_ready = true
is_yield _ = false

unfoldable pub leave : ℕ → ℕ → Bool → Leave → Scheduler → Option Scheduler
leave w f is_cb how s =
    if is_yield how && not (is_exec (s.state f))
    then none
    else some (go w (outside f is_cb) (set_state f (left_state how) s))

-- Back in `run`: the count, then what the state of the fiber asks for
abbrev pub drop_cb : ℕ → Bool → Scheduler → Scheduler
drop_cb w is_cb s = record s { cb_fiber = if is_cb then set w none s.cb_fiber else s.cb_fiber }

unfoldable pub settle : ℕ → ℕ → Bool → Scheduler → Option Scheduler
settle w f true s = reset f s >>= λ s'. some (go w looking s')
settle w f false s = some (go w looking s)

unfoldable pub after : ℕ → ℕ → Bool → FiberState → Scheduler → Option Scheduler
after w f is_cb ready s = some (go w (rescheduling f is_cb) s)
after w f is_cb term s = settle w f is_cb s
after w f is_cb except s = settle w f is_cb s
after w f is_cb _ s = some (go w looking (drop_cb w is_cb (set_state f hold s)))

unfoldable pub finish : ℕ → ℕ → Bool → Scheduler → Option Scheduler
finish w f is_cb s =
    after w f is_cb (s.state f) record s { active_thread_count = size_sub s.active_thread_count 1 }

unfoldable pub reschedule : ℕ → ℕ → Bool → Scheduler → Scheduler
reschedule w f is_cb s =
    go w looking (drop_cb w is_cb (schedule record { fiber = some f; cb = none; thread = none } s))

-- A turn of the idle fiber, and the way back from it
unfoldable pub idle_turn : ℕ → Scheduler → Scheduler
idle_turn w s =
    let done = may_stop s || s.idle_done w in
    go w looking record s {
      idle_done = set w done s.idle_done;
      idle_thread_count = size_sub s.idle_thread_count 1;
    }
