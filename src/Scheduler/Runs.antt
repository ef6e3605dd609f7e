-- ===== src/Scheduler/Runs.antt =====
-- Runs of the scheduler on small queues.
use jkyi.Base.{
  ℕ, ◌<◌, ◌==◌, if◌then◌else◌, ◌≡◌, refl, arith, true, false, Option, none, some, List, [], ◌∷◌,
  ◌++◌,
}
use jkyi.Scheduler.{FiberState, hold, exec, FiberAndThread, schedule_no_lock, skip, pick}
use jkyi.Scheduler.Pick.{
  picked_by, pick_lem, Search, Splits, all_done, takes, passes, take_times, schedule_each,
  take_times_lem,
}
use jkyi.Scheduler.Workers.{
  rescheduling, after_search, inside, Scheduler, schedule, begin_task, swap_in, after, may_stop,
  take, begin, to_ready, leave, finish, reschedule, begin_task, swap_in, after,
}
use jkyi.Scheduler.Counts.{busy, IsCounted}
use jkyi.Scheduler.Stopping.{
  create, Reach, created, scheduled, flagged, taken, begun, left, finished, rescheduled,
  Reach-IsCounted, Reach-may_stop, finish-stopping, swap_in-twice, fiber_task,
}

-- Fiber 1 runs, the others are held
abbrev states : ℕ → FiberState
states f = if f == 1 then exec else hold

abbrev task : ℕ → Option ℕ → FiberAndThread
task f thread = record { fiber = some f; cb = none; thread = thread }

-- A task for thread 7, one that runs, and two that thread 5 may take
abbrev queue : List FiberAndThread
queue = task 4 (some 7) ∷ task 1 none ∷ task 2 (some 5) ∷ task 3 none ∷ []

pick_lem_example : pick 5 states queue ≡ some (picked_by 5 states queue)
pick_lem_example = pick_lem 5 states queue refl

pick_test :
    pick 5 states queue
    ≡ some (some (task 2 (some 5)), task 4 (some 7) ∷ task 1 none ∷ task 3 none ∷ [], true)
unfolding pick skip
pick_test = refl

-- Between its two searches task 8 is scheduled, and fiber 3 runs at the first of them.
abbrev searches : List Search
searches = (λ f. if f == 3 then exec else states f, []) ∷ (states, task 8 none ∷ []) ∷ []

queue-Splits :
    Splits 5 queue searches
      (task 2 (some 5) ∷ task 3 none ∷ [])
      (task 4 (some 7) ∷ task 1 none ∷ [])
queue-Splits =
    passes (task 4 (some 7)) (refl, (refl, tt))
      (passes (task 1 none) (refl, (refl, tt))
        (takes (task 2 (some 5)) (λ f. if f == 3 then exec else states f) [] refl
          (takes (task 3 none) states (task 8 none ∷ []) refl all_done)))

take_times_lem_example :
    take_times 5 searches (queue ++ [])
    ≡ some (
      some (task 2 (some 5)) ∷ some (task 3 none) ∷ [],
      (task 4 (some 7) ∷ task 1 none ∷ []) ++ schedule_each searches [],
    )
take_times_lem_example = take_times_lem 5 [] refl queue-Splits

-- Thread 0 of two takes a held fiber, switches to it and is left when the fiber yields to ready
abbrev s0 : Scheduler
s0 = create (λ f. hold)

abbrev s1 : Scheduler
s1 = schedule (task 2 none) record s0 { stopping = true; auto_stop = true }

abbrev or_start : Option Scheduler → Scheduler
or_start none = s0
or_start (some s) = s

abbrev s2 : Scheduler
s2 = or_start (take 0 s1)

abbrev s3 : Scheduler
s3 = or_start (begin 0 9 (some (task 2 none)) s2)

abbrev s4 : Scheduler
s4 = or_start (leave 0 2 false to_ready s3)

abbrev s5 : Scheduler
s5 = or_start (finish 0 2 false s4)

reach4 : Reach 2 s4
unfolding schedule schedule_no_lock take pick begin begin_task swap_in leave
reach4 =
    left 0 2 false to_ready s4 (omega arith) refl
      (begun 0 9 (some (task 2 none)) s3 (omega arith) refl
        (taken 0 s2 (omega arith) refl
          (scheduled (task 2 none) (flagged true true (created (λ f. hold)))) refl)
        refl)
      refl

reach5 : Reach 2 s5
unfolding schedule schedule_no_lock take pick begin begin_task swap_in leave finish after
reach5 = finished 0 2 false s5 (omega arith) refl reach4 refl

reach6 : Reach 2 (reschedule 0 2 false s5)
unfolding schedule schedule_no_lock take pick begin begin_task swap_in leave finish after
reach6 = rescheduled 0 2 false (omega arith) refl reach5

Reach-IsCounted_example : IsCounted 2 s4
Reach-IsCounted_example = Reach-IsCounted reach4

Reach-may_stop_example : (s5.fibers ≡ []) × ((w : ℕ) → w < 2 → busy (s5.phase w) ≡ 0)
unfolding schedule schedule_no_lock take pick begin begin_task swap_in leave finish after may_stop
Reach-may_stop_example = Reach-may_stop reach5 refl

finish-stopping_example :
    (s' : Scheduler) × (finish 0 2 false s4 ≡ some s')
    × (may_stop s' ≡ true)
    × (s'.phase 0 ≡ rescheduling 2 false)
unfolding schedule schedule_no_lock take pick begin begin_task swap_in leave
finish-stopping_example = finish-stopping 0 2 false s4 refl refl refl refl refl

abbrev doubled : Scheduler
doubled = record s0 { fibers = fiber_task 2 ∷ fiber_task 2 ∷ [] }

swap_in-twice_example :
    (s1 : Scheduler) × (s2 : Scheduler) × (s3 : Scheduler) × (take 0 doubled ≡ some s1)
    × (s1.phase 0 ≡ after_search (some (fiber_task 2)))
    × (take 1 s1 ≡ some s2)
    × (s2.phase 0 ≡ after_search (some (fiber_task 2)))
    × (s2.phase 1 ≡ after_search (some (fiber_task 2)))
    × (begin 0 8 (some (fiber_task 2)) s2 ≡ some s3)
    × (s3.phase 0 ≡ inside 2 false)
    × (s3.phase 1 ≡ after_search (some (fiber_task 2)))
    × (s3.state 2 ≡ exec)
    × (begin 1 9 (some (fiber_task 2)) s3 ≡ none)
swap_in-twice_example = swap_in-twice 0 1 2 8 9 [] doubled refl refl refl
