-- ===== src/Scheduler/Leaves.antt =====
-- What the steps of a thread of JKYi/scheduler.cc out of a fiber keep.
use jkyi.Base.{
  ℕ, ◌≤◌, ◌≡◌, refl, ap, inl, inr, arith, Bool, true, false, not, ◌&&◌, none, some, size_sub,
  size_sub_le, Bool-cases,
}
use jkyi.Scheduler.{FiberState, init, hold, term, ready, except, is_exec, is_idle_state}
use jkyi.Scheduler.Pick.{all_tasks}
use jkyi.Scheduler.Workers.{
  Phase, looking, inside, outside, rescheduling, idling, Scheduler, set, go, set_state, schedule,
  reset, Leave, is_yield, leave, drop_cb, settle, after, finish, reschedule, idle_turn,
}
use jkyi.Scheduler.Counts.{busy, in_idle, Moved, scheduled_tasks}
use jkyi.Scheduler.Turns.{Kept}

uncounted-Moved :
    (w : ℕ) (p : Phase) (s s1 : Scheduler)
    → busy (s.phase w) ≡ 1
    → in_idle (s.phase w) ≡ 0
    → 1 ≤ s.active_thread_count
    → busy p ≡ 0
    → in_idle p ≡ 0
    → s1.phase ≡ s.phase
    → s1.active_thread_count ≡ size_sub s.active_thread_count 1
    → s1.idle_thread_count ≡ s.idle_thread_count
    → all_tasks s1.fibers ≡ true
    → Moved w p s (go w p s1)
uncounted-Moved w p s s1 b i a bp ip ph ac ic t = record {
  phase = ap (set w p) ph;
  active = omega (arith, size_sub_le s.active_thread_count 1 a, a, b, bp, ac);
  idle = omega (arith, i, ip, ic);
  tasks = t;
}

settle-Kept :
    (w f : ℕ) (is_cb : Bool) (s : Scheduler)
    → busy (s.phase w) ≡ 1
    → in_idle (s.phase w) ≡ 0
    → 1 ≤ s.active_thread_count
    → all_tasks s.fibers ≡ true
    → Kept w s
        (settle w f is_cb record s { active_thread_count = size_sub s.active_thread_count 1 })
unfolding settle reset
settle-Kept w f false s b i a t =
    let s1 : Scheduler = record s { active_thread_count = size_sub s.active_thread_count 1 } in
    (looking, uncounted-Moved w looking s s1 b i a refl refl refl refl refl t)
settle-Kept w f true s b i a t = elim (Bool-cases (is_idle_state (s.state f))) [
  | inl e ↦
      let s1 : Scheduler =
        set_state f init record s { active_thread_count = size_sub s.active_thread_count 1 } in
      rw e (looking, uncounted-Moved w looking s s1 b i a refl refl refl refl refl t)
  | inr e ↦ rw e tt
]

after-Kept :
    (w f : ℕ) (is_cb : Bool) (st : FiberState) (s : Scheduler)
    → busy (s.phase w) ≡ 1
    → in_idle (s.phase w) ≡ 0
    → 1 ≤ s.active_thread_count
    → all_tasks s.fibers ≡ true
    → Kept w s
        (after w f is_cb st record s { active_thread_count = size_sub s.active_thread_count 1 })
unfolding after
after-Kept w f is_cb ready s b i a t =
    let s1 : Scheduler = record s { active_thread_count = size_sub s.active_thread_count 1 } in
    (
      rescheduling f is_cb,
      uncounted-Moved w (rescheduling f is_cb) s s1 b i a refl refl refl refl refl t,
    )
after-Kept w f is_cb term s b i a t = settle-Kept w f is_cb s b i a t
after-Kept w f is_cb except s b i a t = settle-Kept w f is_cb s b i a t
after-Kept w f is_cb _ s b i a t =
    let s1 : Scheduler =
      drop_cb w is_cb
        (set_state f hold record s { active_thread_count = size_sub s.active_thread_count 1 }) in
    (looking, uncounted-Moved w looking s s1 b i a refl refl refl refl refl t)

pub finish-Kept :
    (w f : ℕ) (is_cb : Bool) (s : Scheduler)
    → s.phase w ≡ outside f is_cb
    → 1 ≤ s.active_thread_count
    → all_tasks s.fibers ≡ true
    → Kept w s (finish w f is_cb s)
unfolding finish
finish-Kept w f is_cb s at_w a t =
    after-Kept w f is_cb (s.state f) s (ap busy at_w) (ap in_idle at_w) a t

pub leave-Kept :
    (w f : ℕ) (is_cb : Bool) (how : Leave) (s : Scheduler)
    → s.phase w ≡ inside f is_cb
    → all_tasks s.fibers ≡ true
    → Kept w s (leave w f is_cb how s)
unfolding leave
leave-Kept w f is_cb how s at_w t = elim (Bool-cases (is_yield how && not (is_exec (s.state f)))) [
  | inl e ↦ rw e tt
  | inr e ↦
      let b : busy (s.phase w) ≡ 1 = ap busy at_w in
      let i : in_idle (s.phase w) ≡ 0 = ap in_idle at_w in
      rw e (
        outside f is_cb,
        record { phase = refl; active = omega (arith, b); idle = omega (arith, i); tasks = t },
      )
]

pub reschedule-Moved :
    (w f : ℕ) (is_cb : Bool) (s : Scheduler)
    → s.phase w ≡ rescheduling f is_cb
    → all_tasks s.fibers ≡ true
    → Moved w looking s (reschedule w f is_cb s)
unfolding reschedule schedule
reschedule-Moved w f is_cb s at_w t =
    let b : busy (s.phase w) ≡ 0 = ap busy at_w in
    let i : in_idle (s.phase w) ≡ 0 = ap in_idle at_w in
    record {
      phase = refl;
      active = omega (arith, b);
      idle = omega (arith, i);
      tasks = scheduled_tasks record { fiber = some f; cb = none; thread = none } s.fibers t;
    }

pub idle_turn-Moved :
    (w : ℕ) (s : Scheduler)
    → s.phase w ≡ idling
    → 1 ≤ s.idle_thread_count
    → all_tasks s.fibers ≡ true
    → Moved w looking s (idle_turn w s)
unfolding idle_turn
idle_turn-Moved w s at_w l t =
    let b : busy (s.phase w) ≡ 0 = ap busy at_w in
    let i : in_idle (s.phase w) ≡ 1 = ap in_idle at_w in
    record {
      phase = refl;
      active = omega (arith, b);
      idle = omega (arith, size_sub_le s.idle_thread_count 1 l, l, i);
      tasks = t;
    }
