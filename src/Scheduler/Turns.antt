-- ===== src/Scheduler/Turns.antt =====
-- What the steps of a thread of JKYi/scheduler.cc into a fiber keep: the counters and the tasks.
use jkyi.Base.{
  ℕ, ◌+◌, ◌≤◌, ◌≡◌, refl, ap, inl, inr, arith, Bool, true, false, Option, none, some, size_sub_le,
  Bool-cases,
}
use jkyi.Base.Options.{◌>>=◌}
use jkyi.Scheduler.{init, is_exec, is_idle_state, FiberAndThread}
use jkyi.Scheduler.Pick.{all_tasks, from, head, picked_by, pick_lem}
use jkyi.Scheduler.Workers.{
  Phase, looking, after_search, inside, idling, ended, Scheduler, set, go, set_state, tickle_if,
  count_found, take, swap_in, reset, prepare, to_swap, begin_cb, begin_task, begin,
}
use jkyi.Scheduler.Counts.{busy, in_idle, Moved, picked_tasks}

-- If it gives a result, it is a step of the thread to some phase
abbrev pub Kept : ℕ → Scheduler → Option Scheduler → Type 0
Kept w s none = Unit
Kept w s (some s') = (p : Phase) × Moved w p s s'

count_busy :
    (found : Option FiberAndThread) (n : ℕ) → count_found found n ≡ n + busy (after_search found)
count_busy none n = omega arith
count_busy (some ft) n = refl

-- The scheduler after a search of the thread `w`
abbrev taken_by : ℕ → Scheduler → Scheduler
taken_by w s =
    let (found, q, tickle_me) = picked_by w s.state s.fibers in
    go w (after_search found) (
      tickle_if tickle_me
        record s { fibers = q; active_thread_count = count_found found s.active_thread_count })

pub take_lem :
    (w : ℕ) (s : Scheduler)
    → s.phase w ≡ looking
    → all_tasks s.fibers ≡ true
    → (s' : Scheduler) × (take w s ≡ some s') × (p : Phase) × Moved w p s s'
unfolding take
take_lem w s at_w t =
    let found = head (from w s.state s.fibers) in
    (
      taken_by w s,
      rw (pick_lem w s.state s.fibers t) refl,
      after_search found,
      record {
        phase = refl;
        active =
            let b : busy (s.phase w) ≡ 0 = ap busy at_w in
            omega (arith, count_busy found s.active_thread_count, b);
        idle = let b : in_idle (s.phase w) ≡ 0 = ap in_idle at_w in omega (arith, b);
        tasks = picked_tasks w s.state s.fibers t;
      },
    )

swap_in-Kept :
    (w f : ℕ) (is_cb : Bool) (s0 s : Scheduler)
    → s.phase ≡ s0.phase
    → s.active_thread_count ≡ s0.active_thread_count
    → s.idle_thread_count ≡ s0.idle_thread_count
    → all_tasks s.fibers ≡ true
    → busy (s0.phase w) ≡ 1
    → in_idle (s0.phase w) ≡ 0
    → Kept w s0 (swap_in f s >>= λ s1. some (go w (inside f is_cb) s1))
unfolding swap_in
swap_in-Kept w f is_cb s0 s p a i t b0 i0 = elim (Bool-cases (is_exec (s.state f))) [
  | inl e ↦ rw e tt
  | inr e ↦ rw e (
    inside f is_cb,
    record {
      phase = ap (set w (inside f is_cb)) p;
      active = omega (arith, a, b0);
      idle = omega (arith, i, i0);
      tasks = t;
    },
  )
]

prepared-Kept :
    (w next : ℕ) (f : Option ℕ) (s : Scheduler)
    → all_tasks s.fibers ≡ true
    → busy (s.phase w) ≡ 1
    → in_idle (s.phase w) ≡ 0
    → Kept w s
        (prepare w next f s >>= λ (g, s1). swap_in g s1 >>= λ s2. some (go w (inside g true) s2))
unfolding prepare reset
prepared-Kept w next none s t b i =
    let s1 = set_state next init record s { cb_fiber = set w (some next) s.cb_fiber } in
    swap_in-Kept w next true s s1 refl refl refl t b i
prepared-Kept w next (some f) s t b i = elim (Bool-cases (is_idle_state (s.state f))) [
  | inl e ↦ rw e (swap_in-Kept w f true s (set_state f init s) refl refl refl t b i)
  | inr e ↦ rw e tt
]

begin_cb-Kept :
    (w next : ℕ) (cb : Option ℕ) (s : Scheduler)
    → all_tasks s.fibers ≡ true
    → busy (s.phase w) ≡ 1
    → in_idle (s.phase w) ≡ 0
    → 1 ≤ s.active_thread_count
    → Kept w s (begin_cb w next cb s)
unfolding begin_cb
begin_cb-Kept w next none s t b i a = (
  looking,
  record {
    phase = refl;
    active = omega (arith, size_sub_le s.active_thread_count 1 a, a, b);
    idle = omega (arith, i);
    tasks = t;
  },
)
begin_cb-Kept w next (some cb) s t b i a = prepared-Kept w next (s.cb_fiber w) s t b i

begin_task-Kept :
    (w next : ℕ) (f cb : Option ℕ) (s : Scheduler)
    → all_tasks s.fibers ≡ true
    → busy (s.phase w) ≡ 1
    → in_idle (s.phase w) ≡ 0
    → 1 ≤ s.active_thread_count
    → Kept w s (begin_task w next f cb s)
unfolding begin_task
begin_task-Kept w next none cb s t b i a = begin_cb-Kept w next cb s t b i a
begin_task-Kept w next (some f) cb s t b i a = swap_in-Kept w f false s s refl refl refl t b i

pub begin_found-Kept :
    (w next : ℕ) (ft : FiberAndThread) (s : Scheduler)
    → s.phase w ≡ after_search (some ft)
    → all_tasks s.fibers ≡ true
    → 1 ≤ s.active_thread_count
    → Kept w s (begin w next (some ft) s)
unfolding begin
begin_found-Kept w next ft s at_w t a =
    begin_task-Kept w next (to_swap s.state ft.fiber) ft.cb s t (ap busy at_w) (ap in_idle at_w) a

pub begin_idle-Kept :
    (w next : ℕ) (s : Scheduler)
    → s.phase w ≡ after_search none
    → all_tasks s.fibers ≡ true
    → Kept w s (begin w next none s)
unfolding begin
begin_idle-Kept w next s at_w t =
    let b : busy (s.phase w) ≡ 0 = ap busy at_w in
    let i : in_idle (s.phase w) ≡ 0 = ap in_idle at_w in
    elim (Bool-cases (s.idle_done w)) [
      | inl e ↦ rw e (
        ended,
        record { phase = refl; active = omega (arith, b); idle = omega (arith, i); tasks = t },
      )
      | inr e ↦ rw e (
        idling,
        record { phase = refl; active = omega (arith, b); idle = omega (arith, i); tasks = t },
      )
    ]
