-- ===== src/Scheduler/Counts.antt =====
-- The counters of JKYi/scheduler.cc over any interleaving of its threads.
use jkyi.Base.{
  ℕ, ◌+◌, ◌<◌, ◌≤◌, ◌≡◌, refl, ap, ◌∙◌, inl, inr, arith, true, some, List, [], ◌∷◌, ◌++◌, ==_iff,
  Bool-cases,
}
use jkyi.Base.Sums.{sum, sum_change, sum-le}
use jkyi.Scheduler.{FiberState, FiberAndThread, has_task, schedule_no_lock}
use jkyi.Scheduler.Pick.{all_tasks, both_parts, before, from, tail, is_eligible}
use jkyi.Scheduler.Workers.{Phase, after_search, inside, outside, idling, Scheduler, set}

-- A thread that is between taking a task and counting it as done
abbrev pub busy : Phase → ℕ
busy (after_search (some ft)) = 1
busy (inside f is_cb) = 1
busy (outside f is_cb) = 1
busy _ = 0

abbrev pub in_idle : Phase → ℕ
in_idle idling = 1
in_idle _ = 0

pub record IsCounted (n : ℕ) (s : Scheduler) : Type 0 where
  pub active : s.active_thread_count ≡ sum (λ w. busy (s.phase w)) n
  pub idle : s.idle_thread_count ≡ sum (λ w. in_idle (s.phase w)) n
  pub tasks : all_tasks s.fibers ≡ true

-- A step of thread `w` to the phase `p`
pub record Moved (w : ℕ) (p : Phase) (s s' : Scheduler) : Type 0 where
  pub phase : s'.phase ≡ set w p s.phase
  pub active : s'.active_thread_count + busy (s.phase w) ≡ s.active_thread_count + busy p
  pub idle : s'.idle_thread_count + in_idle (s.phase w) ≡ s.idle_thread_count + in_idle p
  pub tasks : all_tasks s'.fibers ≡ true

set-there : {A : Type 0} (k : ℕ) (x : A) (f : ℕ → A) → set k x f k ≡ x
set-there k x f = rw ((==_iff k k).1 refl) refl

moved_sum :
    (h : Phase → ℕ) (n w : ℕ) (p : Phase) (ph : ℕ → Phase)
    → w < n
    → sum (λ i. h (set w p ph i)) n + h (ph w) ≡ sum (λ i. h (ph i)) n + h p
moved_sum h n w p ph l =
    sum_change (λ i. h (ph i)) (λ i. h (set w p ph i)) w n l (λ i e. rw e refl)
    ∙ ap (λ x. sum (λ i. h (ph i)) n + h x) (set-there w p ph)

pub Moved-IsCounted :
    {w : ℕ} {p : Phase} {s s' : Scheduler} (n : ℕ)
    → w < n
    → IsCounted n s
    → Moved w p s s'
    → IsCounted n s'
Moved-IsCounted {w} {p} {s} {s'} n l v m = record {
  active =
      let e : sum (λ i. busy (s'.phase i)) n ≡ sum (λ i. busy (set w p s.phase i)) n =
        ap (λ (ph : ℕ → Phase). sum (λ i. busy (ph i)) n) m.phase in
      omega (arith, e, moved_sum busy n w p s.phase l, v.active, m.active);
  idle =
      let e : sum (λ i. in_idle (s'.phase i)) n ≡ sum (λ i. in_idle (set w p s.phase i)) n =
        ap (λ (ph : ℕ → Phase). sum (λ i. in_idle (ph i)) n) m.phase in
      omega (arith, e, moved_sum in_idle n w p s.phase l, v.idle, m.idle);
  tasks = m.tasks;
}

-- schedule keeps what a thread relies on
all_tasks-append :
    (q : List FiberAndThread) (ft : FiberAndThread)
    → all_tasks q ≡ true
    → has_task ft ≡ true
    → all_tasks (q ++ (ft ∷ [])) ≡ true
all_tasks-append [] ft h t = rw t refl
all_tasks-append (x ∷ q) ft h t =
    let (task, tasks) = both_parts (has_task x) (all_tasks q) h in
    rw task (all_tasks-append q ft tasks t)

pub scheduled_tasks :
    (ft : FiberAndThread) (q : List FiberAndThread)
    → all_tasks q ≡ true
    → all_tasks (schedule_no_lock ft q).1 ≡ true
unfolding schedule_no_lock
scheduled_tasks ft q h = elim (Bool-cases (has_task ft)) [
  | inl e ↦ rw e (all_tasks-append q ft h e)
  | inr e ↦ rw e h
]

pub picked_tasks :
    (w : ℕ) (state : ℕ → FiberState) (q : List FiberAndThread)
    → all_tasks q ≡ true
    → all_tasks (before w state q ++ tail (from w state q)) ≡ true
picked_tasks w state [] h = refl
picked_tasks w state (ft ∷ q) h =
    let (task, tasks) = both_parts (has_task ft) (all_tasks q) h in
    elim (Bool-cases (is_eligible w state ft)) [
      | inl e ↦ rw e tasks
      | inr e ↦ rw (e, task) (picked_tasks w state q tasks)
    ]

pub busy-active :
    (n w : ℕ) (s : Scheduler) → w < n → IsCounted n s → busy (s.phase w) ≤ s.active_thread_count
busy-active n w s l v = omega (arith, v.active, sum-le (λ i. busy (s.phase i)) w n l)

pub in_idle-idle :
    (n w : ℕ) (s : Scheduler) → w < n → IsCounted n s → in_idle (s.phase w) ≤ s.idle_thread_count
in_idle-idle n w s l v = omega (arith, v.idle, sum-le (λ i. in_idle (s.phase i)) w n l)
