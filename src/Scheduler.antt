-- ===== src/Scheduler.antt =====
-- JKYi/scheduler.h, JKYi/scheduler.cc and the states of JKYi/fiber.h and JKYi/fiber.cc: tasks, the
-- threads that run them, and the fibers they run on. Threads and fibers have numbers. A failed
-- JKYI_ASSERT is `none`. The part of `run` under the lock is one step, and so is each part between
-- two switches of the context; what a fiber does between them is up to its code.
pub mod Pick
pub mod Workers
pub mod Counts
pub mod Turns
pub mod Leaves
pub mod Stopping
mod Runs
use jkyi.Base.Options.{◌>>=◌}
use jkyi.Base.{
  ℕ, zero, suc, ◌+◌, ◌-◌, Bool, true, false, not, ◌&&◌, ◌||◌, Option, none, some, List, [], ◌∷◌,
  ◌++◌, ◌==◌, if◌then◌else◌, size_sub,
}

-- Fiber::State
pub data FiberState : Type 0 where
  init hold exec term ready except : FiberState

abbrev pub is_exec : FiberState → Bool
is_exec exec = true
is_exec _ = false

abbrev pub is_ended : FiberState → Bool
is_ended term = true
is_ended except = true
is_ended _ = false

-- The states in which `reset` and the destructor may be called
abbrev pub is_idle_state : FiberState → Bool
is_idle_state init = true
is_idle_state term = true
is_idle_state except = true
is_idle_state _ = false

-- A task: a fiber or a callback, for one thread or, with thread -1, for any
pub record FiberAndThread : Type 0 where
  pub fiber : Option ℕ
  pub cb : Option ℕ
  pub thread : Option ℕ

abbrev pub is_some : Option ℕ → Bool
is_some none = false
is_some (some n) = true

-- `it->fiber || it->cb`
abbrev pub has_task : FiberAndThread → Bool
has_task ft = is_some ft.fiber || is_some ft.cb

-- `it->thread != -1 && it->thread != GetThreadId()`
abbrev pub is_foreign : ℕ → Option ℕ → Bool
is_foreign this_thread none = false
is_foreign this_thread (some thread) = not (thread == this_thread)

-- `it->fiber && it->fiber->getState() == Fiber::EXEC`
abbrev pub is_running : (ℕ → FiberState) → Option ℕ → Bool
is_running state none = false
is_running state (some f) = is_exec (state f)

abbrev pub is_empty : List FiberAndThread → Bool
is_empty [] = true
is_empty (ft ∷ q) = false

-- `scheduleNoLock`: whether to tickle, and the queue
unfoldable pub schedule_no_lock : FiberAndThread → List FiberAndThread → Bool × List FiberAndThread
schedule_no_lock ft q = (is_empty q, if has_task ft then q ++ (ft ∷ []) else q)

-- The search of `run` under the lock: the task that is taken, the queue without it, and `tickle_me`
abbrev pub Picked : Type 0
Picked = Option FiberAndThread × List FiberAndThread × Bool

unfoldable pub skip : Bool → FiberAndThread → Option Picked → Option Picked
skip foreign ft none = none
skip foreign ft (some (found, q, tickle_me)) = some (found, ft ∷ q, foreign || tickle_me)

unfoldable pub pick : ℕ → (ℕ → FiberState) → List FiberAndThread → Option Picked
pick this_thread state [] = some (none, [], false)
pick this_thread state (ft ∷ q) =
    let rest = pick this_thread state q in
    if is_foreign this_thread ft.thread
    then skip true ft rest
    else if not (has_task ft)
    then none
    else if is_running state ft.fiber
    then skip false ft rest
    else some (some ft, q, not (is_empty q))
