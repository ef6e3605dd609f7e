-- ===== src/Scheduler/Pick.antt =====
-- The search for a task in `run` of JKYi/scheduler.cc, against a definition by parts of the queue.
use jkyi.Base.{
  ℕ, ◌≡◌, refl, sym, ap, ◌∙◌, inl, inr, Bool, true, false, not, ◌&&◌, ◌||◌, Option, none, some,
  List, [], ◌∷◌, ◌++◌, if◌then◌else◌, Bool-cases,
}
use jkyi.Base.Options.{◌>>=◌}
use jkyi.Scheduler.{
  FiberState, FiberAndThread, has_task, is_foreign, is_running, is_empty, schedule_no_lock, Picked,
  skip, pick,
}
use mathlib.Core.Bool.{false≢true}

-- Every task of the queue has a fiber or a callback
abbrev pub all_tasks : List FiberAndThread → Bool
all_tasks [] = true
all_tasks (ft ∷ q) = has_task ft && all_tasks q

-- A thread may take a task that is not for another thread and whose fiber does not run
abbrev pub is_eligible : ℕ → (ℕ → FiberState) → FiberAndThread → Bool
is_eligible this_thread state ft =
    not (is_foreign this_thread ft.thread) && not (is_running state ft.fiber)

-- The tasks before the first one the thread may take, and the queue from there on
abbrev pub before : ℕ → (ℕ → FiberState) → List FiberAndThread → List FiberAndThread
before this_thread state [] = []
before this_thread state (ft ∷ q) =
    let rest = before this_thread state q in
    if is_eligible this_thread state ft then [] else ft ∷ rest

abbrev pub from : ℕ → (ℕ → FiberState) → List FiberAndThread → List FiberAndThread
from this_thread state [] = []
from this_thread state (ft ∷ q) =
    let rest = from this_thread state q in if is_eligible this_thread state ft then ft ∷ q else rest

abbrev pub head : List FiberAndThread → Option FiberAndThread
head [] = none
head (ft ∷ q) = some ft

abbrev pub tail : List FiberAndThread → List FiberAndThread
tail [] = []
tail (ft ∷ q) = q

abbrev pub any_foreign : ℕ → List FiberAndThread → Bool
any_foreign this_thread [] = false
any_foreign this_thread (ft ∷ q) = is_foreign this_thread ft.thread || any_foreign this_thread q

abbrev pub picked_by : ℕ → (ℕ → FiberState) → List FiberAndThread → Picked
picked_by this_thread state q =
    let passed = before this_thread state q in
    let rest = from this_thread state q in
    (head rest, passed ++ tail rest, any_foreign this_thread passed || not (is_empty (tail rest)))

pub both_parts : (a b : Bool) → (a && b) ≡ true → (a ≡ true) × (b ≡ true)
both_parts true b h = (refl, h)
both_parts false b h = absurd (false≢true h)

-- When every task of the queue has a fiber or a callback, the search under the lock takes the first
-- task that is not for another thread and whose fiber does not run, it leaves the others in their
-- order, it asks for a tickle exactly if it passed over a task for another thread or tasks are left
-- behind the taken one, and its assertion holds.
pub pick_lem :
    (this_thread : ℕ) (state : ℕ → FiberState) (q : List FiberAndThread)
    → all_tasks q ≡ true
    → pick this_thread state q ≡ some (picked_by this_thread state q)
unfolding pick skip
pick_lem this_thread state [] h = refl
pick_lem this_thread state (ft ∷ q) h =
    let (task, tasks) = both_parts (has_task ft) (all_tasks q) h in
    let rest = pick_lem this_thread state q tasks in
    elim (Bool-cases (is_foreign this_thread ft.thread)) [
      | inl e ↦ rw (rest, e, e) refl
      | inr e ↦ elim (Bool-cases (is_running state ft.fiber)) [
        | inl r ↦ rw (rest, e, task, r, e) refl
        | inr r ↦ rw (rest, e, task, r) refl
      ]
    ]

-- `scheduleNoLock` of several tasks
abbrev pub schedule_all : List FiberAndThread → List FiberAndThread → List FiberAndThread
schedule_all [] q = q
schedule_all (ft ∷ fts) q = schedule_all fts (schedule_no_lock ft q).1

-- A search of a thread: the states of the fibers then, and the tasks that were scheduled since the
-- one before
abbrev pub Search : Type 0
Search = (ℕ → FiberState) × List FiberAndThread

-- What the searches of a thread take, and the queue that is left
abbrev pub take_times :
    ℕ
    → List Search
    → List FiberAndThread
    → Option (List (Option FiberAndThread) × List FiberAndThread)
take_times this_thread [] q = some ([], q)
take_times this_thread ((state, new) ∷ searches) q =
    pick this_thread state (schedule_all new q) >>= λ (found, q', tickle_me).
    take_times this_thread searches q' >>= λ (rest, left). some (found ∷ rest, left)

-- All tasks that are scheduled meanwhile, behind a queue
abbrev pub schedule_each : List Search → List FiberAndThread → List FiberAndThread
schedule_each [] q = q
schedule_each ((state, new) ∷ searches) q = schedule_each searches (schedule_all new q)

-- The thread may not take the task at any of the searches
abbrev pub NeverEligible : ℕ → List Search → FiberAndThread → Type 0
NeverEligible this_thread [] ft = Unit
NeverEligible this_thread ((state, new) ∷ searches) ft =
    (is_eligible this_thread state ft ≡ false) × NeverEligible this_thread searches ft

-- A queue of which one task after the other is eligible, one at each search, and the others at none
pub data Splits (this_thread : ℕ)
    : List FiberAndThread → List Search → List FiberAndThread → List FiberAndThread → Type 0 where
  all_done : Splits this_thread [] [] [] []
  takes :
      {q taken left : List FiberAndThread} {searches : List Search} (ft : FiberAndThread)
      (state : ℕ → FiberState) (new : List FiberAndThread)
      → is_eligible this_thread state ft ≡ true
      → Splits this_thread q searches taken left
      → Splits this_thread (ft ∷ q) ((state, new) ∷ searches) (ft ∷ taken) left
  passes :
      {q taken left : List FiberAndThread} {searches : List Search} (ft : FiberAndThread)
      → NeverEligible this_thread searches ft
      → Splits this_thread q searches taken left
      → Splits this_thread (ft ∷ q) searches taken (ft ∷ left)

abbrev pub found_all : List FiberAndThread → List (Option FiberAndThread)
found_all [] = []
found_all (ft ∷ q) = some ft ∷ found_all q

abbrev Taken : Type 0
Taken = Option (List (Option FiberAndThread) × List FiberAndThread)

-- A task that a thread passes over stays in front of what it leaves
abbrev with_front : FiberAndThread → Taken → Taken
with_front ft none = none
with_front ft (some (found, left)) = some (found, ft ∷ left)

with_front-bind :
    (ft : FiberAndThread) (found : Option FiberAndThread) (t : Taken)
    → (with_front ft t >>= λ (rest, left). some (found ∷ rest, left))
      ≡ with_front ft (t >>= λ (rest, left). some (found ∷ rest, left))
with_front-bind ft found none = refl
with_front-bind ft found (some t) = refl

pick-passed :
    (this_thread : ℕ) (state : ℕ → FiberState) (ft : FiberAndThread) (q : List FiberAndThread)
    → has_task ft ≡ true
    → is_eligible this_thread state ft ≡ false
    → pick this_thread state (ft ∷ q)
      ≡ skip (is_foreign this_thread ft.thread) ft (pick this_thread state q)
unfolding pick
pick-passed this_thread state ft q task h = elim (Bool-cases (is_foreign this_thread ft.thread)) [
  | inl e ↦ rw (e) refl
  | inr e ↦ elim (Bool-cases (is_running state ft.fiber)) [
    | inl r ↦ rw (e, task, r) refl
    | inr r ↦
        absurd
          (false≢true (sym h ∙ ap (λ b. not b && not (is_running state ft.fiber)) e ∙ ap not r))
  ]
]

pick-eligible :
    (this_thread : ℕ) (state : ℕ → FiberState) (ft : FiberAndThread) (q : List FiberAndThread)
    → has_task ft ≡ true
    → is_eligible this_thread state ft ≡ true
    → pick this_thread state (ft ∷ q) ≡ some (some ft, q, not (is_empty q))
unfolding pick
pick-eligible this_thread state ft q task h =
    let (own, ready) =
      both_parts (not (is_foreign this_thread ft.thread)) (not (is_running state ft.fiber)) h in
    elim (Bool-cases (is_foreign this_thread ft.thread)) [
      | inl e ↦ absurd (false≢true (sym (ap not e) ∙ own))
      | inr e ↦ elim (Bool-cases (is_running state ft.fiber)) [
        | inl r ↦ absurd (false≢true (sym (ap not r) ∙ ready))
        | inr r ↦ rw (e, task, r) refl
      ]
    ]

schedule_all-front :
    (fts : List FiberAndThread) (ft : FiberAndThread) (q : List FiberAndThread)
    → schedule_all fts (ft ∷ q) ≡ ft ∷ schedule_all fts q
unfolding schedule_no_lock
schedule_all-front [] ft q = refl
schedule_all-front (x ∷ fts) ft q = elim (Bool-cases (has_task x)) [
  | inl e ↦ rw e (schedule_all-front fts ft (q ++ (x ∷ [])))
  | inr e ↦ rw e (schedule_all-front fts ft q)
]

schedule_all-behind :
    (fts q more : List FiberAndThread) → schedule_all fts (q ++ more) ≡ q ++ schedule_all fts more
schedule_all-behind fts [] more = refl
schedule_all-behind fts (ft ∷ q) more =
    schedule_all-front fts ft (q ++ more)
    ∙ ap (λ (r : List FiberAndThread). ft ∷ r) (schedule_all-behind fts q more)

skip-take_times :
    (this_thread : ℕ) (ft : FiberAndThread) (searches : List Search)
    → ((q : List FiberAndThread)
        → take_times this_thread searches (ft ∷ q)
          ≡ with_front ft (take_times this_thread searches q))
    → (foreign : Bool) (p : Option Picked)
    → (skip foreign ft p >>= λ (found, q, tickle_me).
        take_times this_thread searches q >>= λ (rest, left). some (found ∷ rest, left))
      ≡ with_front ft (
          p >>= λ (found, q, tickle_me).
          take_times this_thread searches q >>= λ (rest, left). some (found ∷ rest, left))
unfolding skip
skip-take_times this_thread ft searches h foreign none = refl
skip-take_times this_thread ft searches h foreign (some (found, q, tickle_me)) =
    rw (h q) (with_front-bind ft found (take_times this_thread searches q))

take_times-passed :
    (this_thread : ℕ) (ft : FiberAndThread)
    → has_task ft ≡ true
    → (searches : List Search) → NeverEligible this_thread searches ft
    → (q : List FiberAndThread)
    → take_times this_thread searches (ft ∷ q) ≡ with_front ft (take_times this_thread searches q)
take_times-passed this_thread ft task [] never q = refl
take_times-passed this_thread ft task ((state, new) ∷ searches) (now, later) q =
    rw (schedule_all-front new ft q, pick-passed this_thread state ft (schedule_all new q) task now)
      (skip-take_times this_thread ft searches
        (take_times-passed this_thread ft task searches later) (is_foreign this_thread ft.thread)
        (pick this_thread state (schedule_all new q)))

-- Take a queue whose tasks have a fiber or a callback, and a thread that searches it again and
-- again, while other tasks are scheduled and fibers change their states. If at each search the
-- first of the queue's tasks that was not passed over may be taken, and those that are passed over
-- may be taken at none, then the thread takes one of the former at each search, in the order of the
-- queue, and no other. Those that were passed over are left in their order, before all that was
-- scheduled meanwhile.
pub take_times_lem :
    (this_thread : ℕ) {q taken left : List FiberAndThread} {searches : List Search}
    (more : List FiberAndThread)
    → all_tasks q ≡ true
    → Splits this_thread q searches taken left
    → take_times this_thread searches (q ++ more)
      ≡ some (found_all taken, left ++ schedule_each searches more)
take_times_lem this_thread more h all_done = refl
take_times_lem this_thread more h (takes {q} {taken} {left} {searches} ft state new e splits) =
    let (task, tasks) = both_parts (has_task ft) (all_tasks q) h in
    let later = schedule_all new more in
    rw
      (
        schedule_all-front new ft (q ++ more),
        schedule_all-behind new q more,
        pick-eligible this_thread state ft (q ++ later) task e,
        take_times_lem this_thread later tasks splits,
      )
      refl
take_times_lem this_thread more h (passes {q} {taken} {left} {searches} ft never splits) =
    let (task, tasks) = both_parts (has_task ft) (all_tasks q) h in
    rw
      (
        take_times-passed this_thread ft task searches never (q ++ more),
        take_times_lem this_thread more tasks splits,
      )
      refl
