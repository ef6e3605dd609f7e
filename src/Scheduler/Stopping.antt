-- ===== src/Scheduler/Stopping.antt =====
-- Any interleaving of the threads of JKYi/scheduler.cc, and when `stopping()` may hold.
use jkyi.Base.{
  ℕ, zero, suc, ◌<◌, ◌≤◌, ◌≡◌, refl, sym, ap, arith, Bool, true, false, not, ◌+◌, ◌&&◌, Option,
  none, some, List, [], ◌∷◌, ◌==◌, ==_iff, size_sub,
}
use jkyi.Base.Sums.{sum}
use jkyi.Scheduler.{FiberState, hold, ready, exec, FiberAndThread, is_empty, pick, skip}
use jkyi.Scheduler.Pick.{both_parts}
use jkyi.Scheduler.Workers.{
  looking, after_search, inside, outside, rescheduling, idling, Scheduler, go, set_state, tickle_if,
  schedule, may_stop, take, swap_in, begin_task, begin, Leave, leave, after, finish, reschedule,
  idle_turn,
}
use jkyi.Scheduler.Counts.{
  busy, in_idle, IsCounted, Moved-IsCounted, scheduled_tasks, busy-active, in_idle-idle,
}
use jkyi.Scheduler.Turns.{Kept, take_lem, begin_found-Kept, begin_idle-Kept}
use jkyi.Scheduler.Leaves.{finish-Kept, leave-Kept, reschedule-Moved, idle_turn-Moved}
use mathlib.Core.Path.{subst}
use mathlib.Core.Bool.{false≢true}

-- A scheduler whose threads are about to enter the loop
abbrev pub create : (ℕ → FiberState) → Scheduler
create state = record {
  fibers = [];
  active_thread_count = 0;
  idle_thread_count = 0;
  stopping = true;
  auto_stop = false;
  tickles = 0;
  state = state;
  phase = λ w. looking;
  cb_fiber = λ w. none;
  idle_done = λ w. false;
}

-- The states that `n` threads, calls of `schedule`, `start` and `stop`, and new fibers lead to
pub data Reach (n : ℕ) : Scheduler → Type 0 where
  created : (state : ℕ → FiberState) → Reach n (create state)
  scheduled : {s : Scheduler} (ft : FiberAndThread) → Reach n s → Reach n (schedule ft s)
  flagged :
      {s : Scheduler} (stopping auto_stop : Bool)
      → Reach n s
      → Reach n record s { stopping = stopping; auto_stop = auto_stop }
  fiber_changed : {s : Scheduler} (f : ℕ) (st : FiberState) → Reach n s → Reach n (set_state f st s)
  taken :
      {s : Scheduler} (w : ℕ) (s' : Scheduler)
      → w < n
      → s.phase w ≡ looking
      → Reach n s
      → take w s ≡ some s'
      → Reach n s'
  begun :
      {s : Scheduler} (w next : ℕ) (found : Option FiberAndThread) (s' : Scheduler)
      → w < n
      → s.phase w ≡ after_search found
      → Reach n s
      → begin w next found s ≡ some s'
      → Reach n s'
  left :
      {s : Scheduler} (w f : ℕ) (is_cb : Bool) (how : Leave) (s' : Scheduler)
      → w < n
      → s.phase w ≡ inside f is_cb
      → Reach n s
      → leave w f is_cb how s ≡ some s'
      → Reach n s'
  finished :
      {s : Scheduler} (w f : ℕ) (is_cb : Bool) (s' : Scheduler)
      → w < n
      → s.phase w ≡ outside f is_cb
      → Reach n s
      → finish w f is_cb s ≡ some s'
      → Reach n s'
  rescheduled :
      {s : Scheduler} (w f : ℕ) (is_cb : Bool)
      → w < n
      → s.phase w ≡ rescheduling f is_cb
      → Reach n s
      → Reach n (reschedule w f is_cb s)
  idled : {s : Scheduler} (w : ℕ) → w < n → s.phase w ≡ idling → Reach n s → Reach n (idle_turn w s)

no_busy : (n : ℕ) → 0 ≡ sum (λ w. 0) n
no_busy zero = refl
no_busy (suc n) = omega (arith, no_busy n)

kept :
    {s : Scheduler} (n w : ℕ) (o : Option Scheduler) (s' : Scheduler)
    → w < n
    → IsCounted n s
    → Kept w s o
    → o ≡ some s'
    → IsCounted n s'
kept {s} n w o s' l v k e =
    let (p, m) : Kept w s (some s') = subst (Kept w s) e k in Moved-IsCounted n l v m

one_active :
    (n w : ℕ) (s : Scheduler)
    → w < n
    → IsCounted n s
    → busy (s.phase w) ≡ 1
    → 1 ≤ s.active_thread_count
one_active n w s l v b = omega (arith, busy-active n w s l v, b)

begin-Kept :
    (n w next : ℕ) (found : Option FiberAndThread) (s : Scheduler)
    → w < n
    → s.phase w ≡ after_search found
    → IsCounted n s
    → Kept w s (begin w next found s)
begin-Kept n w next none s l p v = begin_idle-Kept w next s p v.tasks
begin-Kept n w next (some ft) s l p v =
    begin_found-Kept w next ft s p v.tasks (one_active n w s l v (ap busy p))

schedule-IsCounted :
    (n : ℕ) (ft : FiberAndThread) (s : Scheduler) → IsCounted n s → IsCounted n (schedule ft s)
unfolding schedule
schedule-IsCounted n ft s v = record {
  active = v.active;
  idle = v.idle;
  tasks = scheduled_tasks ft s.fibers v.tasks;
}

-- In every interleaving of `n` threads, of calls of `schedule`, `start` and `stop` and of changes
-- of fibers by other code, m_activeThreadCount is the number of threads that are between taking a
-- task and counting it as done, m_idleThreadCount is the number of threads in their idle fibers, so
-- neither goes below zero, and every task of the queue has a fiber or a callback.
pub Reach-IsCounted : {n : ℕ} {s : Scheduler} → Reach n s → IsCounted n s
Reach-IsCounted {n} (created state) = record { active = no_busy n; idle = no_busy n; tasks = refl }
Reach-IsCounted {n} (scheduled {s} ft r) = schedule-IsCounted n ft s (Reach-IsCounted r)
Reach-IsCounted (flagged stopping auto_stop r) =
    let v = Reach-IsCounted r in record { active = v.active; idle = v.idle; tasks = v.tasks }
Reach-IsCounted (fiber_changed f st r) =
    let v = Reach-IsCounted r in record { active = v.active; idle = v.idle; tasks = v.tasks }
Reach-IsCounted {n} (taken {s} w s' l p r e) =
    let v = Reach-IsCounted r in
    let (s1, e1, p1, m1) = take_lem w s p v.tasks in
    kept n w (take w s) s' l v (subst (Kept w s) (sym e1) (p1, m1)) e
Reach-IsCounted {n} (begun {s} w next found s' l p r e) =
    let v = Reach-IsCounted r in
    kept n w (begin w next found s) s' l v (begin-Kept n w next found s l p v) e
Reach-IsCounted {n} (left {s} w f is_cb how s' l p r e) =
    let v = Reach-IsCounted r in
    kept n w (leave w f is_cb how s) s' l v (leave-Kept w f is_cb how s p v.tasks) e
Reach-IsCounted {n} (finished {s} w f is_cb s' l p r e) =
    let v = Reach-IsCounted r in
    kept n w (finish w f is_cb s) s' l v
      (finish-Kept w f is_cb s p (one_active n w s l v (ap busy p)) v.tasks) e
Reach-IsCounted {n} (rescheduled {s} w f is_cb l p r) =
    let v = Reach-IsCounted r in Moved-IsCounted n l v (reschedule-Moved w f is_cb s p v.tasks)
Reach-IsCounted {n} (idled {s} w l p r) =
    let v = Reach-IsCounted r in
    let one : 1 ≤ s.idle_thread_count = omega (arith, in_idle-idle n w s l v, ap in_idle p) in
    Moved-IsCounted n l v (idle_turn-Moved w s p one v.tasks)

empty_lem : (q : List FiberAndThread) → is_empty q ≡ true → q ≡ []
empty_lem [] h = refl
empty_lem (ft ∷ q) h = absurd (false≢true h)

-- In every interleaving, `stopping()` returns true only when the queue is empty and no thread is
-- between taking a task and counting it as done.
pub Reach-may_stop :
    {n : ℕ} {s : Scheduler}
    → Reach n s
    → may_stop s ≡ true
    → (s.fibers ≡ []) × ((w : ℕ) → w < n → busy (s.phase w) ≡ 0)
unfolding may_stop
Reach-may_stop {n} {s} r h =
    let (flags, zero_active) =
      both_parts (s.auto_stop && s.stopping && is_empty s.fibers) (s.active_thread_count == 0) h in
    let (flags', no_fibers) = both_parts (s.auto_stop && s.stopping) (is_empty s.fibers) flags in
    let none_active : s.active_thread_count ≡ 0 = (==_iff s.active_thread_count 0).0 zero_active in
    let v = Reach-IsCounted r in
    (empty_lem s.fibers no_fibers, λ w l. omega (arith, busy-active n w s l v, none_active))

-- When the last active thread comes back from a fiber that yielded to the ready state, the queue is
-- empty and `stop` has been called, `stopping()` is true between the thread's count and its call of
-- `schedule`, although the fiber has yet to be scheduled.
pub finish-stopping :
    (w f : ℕ) (is_cb : Bool) (s : Scheduler)
    → s.state f ≡ ready
    → s.fibers ≡ []
    → s.active_thread_count ≡ 1
    → s.auto_stop ≡ true
    → s.stopping ≡ true
    → (s' : Scheduler) × (finish w f is_cb s ≡ some s')
      × (may_stop s' ≡ true)
      × (s'.phase w ≡ rescheduling f is_cb)
unfolding finish after may_stop
finish-stopping w f is_cb s st q a auto stop = (
  go w (rescheduling f is_cb) record s { active_thread_count = size_sub s.active_thread_count 1 },
  rw st refl,
  rw (auto, stop, q, a) refl,
  rw ((==_iff w w).1 refl) refl,
)

-- A task for a fiber, on any thread
abbrev pub fiber_task : ℕ → FiberAndThread
fiber_task f = record { fiber = some f; cb = none; thread = none }

-- When a fiber that is held stands twice at the head of the queue, two threads may both take it,
-- one after the other. If the first then switches to it, the fiber runs on that thread, and the
-- assertion of the `swapIn` of the second, which goes on with the task that it took, fails.
pub swap_in-twice :
    (w1 w2 f n1 n2 : ℕ) (q : List FiberAndThread) (s : Scheduler)
    → (w1 == w2) ≡ false
    → s.fibers ≡ fiber_task f ∷ fiber_task f ∷ q
    → s.state f ≡ hold
    → (s1 : Scheduler) × (s2 : Scheduler) × (s3 : Scheduler) × (take w1 s ≡ some s1)
      × (s1.phase w1 ≡ after_search (some (fiber_task f)))
      × (take w2 s1 ≡ some s2)
      × (s2.phase w1 ≡ after_search (some (fiber_task f)))
      × (s2.phase w2 ≡ after_search (some (fiber_task f)))
      × (begin w1 n1 (some (fiber_task f)) s2 ≡ some s3)
      × (s3.phase w1 ≡ inside f false)
      × (s3.phase w2 ≡ after_search (some (fiber_task f)))
      × (s3.state f ≡ exec)
      × (begin w2 n2 (some (fiber_task f)) s3 ≡ none)
unfolding take pick skip begin begin_task swap_in
swap_in-twice w1 w2 f n1 n2 q s d h st =
    let task = fiber_task f in
    let s1 : Scheduler = go w1 (after_search (some task)) (
      tickle_if true
        record s { fibers = task ∷ q; active_thread_count = s.active_thread_count + 1 }) in
    let s2 : Scheduler = go w2 (after_search (some task)) (
      tickle_if (not (is_empty q))
        record s1 { fibers = q; active_thread_count = s1.active_thread_count + 1 }) in
    let s3 : Scheduler = go w1 (inside f false) (set_state f exec s2) in
    let d' : (w2 == w1) ≡ false = ground (arith, d) in
    let at_1 = (==_iff w1 w1).1 refl in
    let at_2 = (==_iff w2 w2).1 refl in
    let at_f = (==_iff f f).1 refl in
    (
      s1,
      s2,
      s3,
      rw (h, st) refl,
      rw at_1 refl,
      rw st refl,
      rw (d, at_1) refl,
      rw at_2 refl,
      rw (st, st) refl,
      rw at_1 refl,
      rw (d', at_2) refl,
      rw at_f refl,
      rw (at_f, at_f) refl,
    )
