-- ===== src/IoManager/Inv.antt =====
-- What holds of the events of an IOManager (JKYi/iomanager.cc) between its operations.
use jkyi.Base.{
  ℕ, zero, suc, ◌+◌, ◌≤◌, ◌<◌, ◌≡◌, inl, inr, refl, sym, ap, ◌∙◌, arith, Bool, true, false, Option,
  none, some, [], ◌∷◌, ◌==◌, if◌then◌else◌, Bool-cases, ==_iff, ltb, ltb→lt,
}
use mathlib.Core.Bool.{false≢true}
use jkyi.IoManager.{
  Event, read, write, Events, no_events, has, is_none, EventContext, FdContext, reset_context,
  new_context, Task, to_schedule, fiber_left, EpollOp, ctl_add, ctl_mod, ctl_del, IoManager, put,
}

-- The documented behaviour of epoll_ctl, of which `interest` is what epoll_wait reports on: a call
-- that succeeds sets or clears the entry of its descriptor, and one that fails changes nothing.
abbrev pub listed : EpollOp → Events → Option Events
listed ctl_add e = some e
listed ctl_mod e = some e
listed ctl_del e = none

pub record Epoll {K : Type 0} (epoll_ctl : EpollOp → ℕ → Events → K → Bool × K) : Type 0 where
  pub interest : K → ℕ → Option Events
  pub done :
      (op : EpollOp) (fd : ℕ) (e : Events) (k : K)
      → (epoll_ctl op fd e k).0 ≡ true
      → (q : ℕ)
      → interest (epoll_ctl op fd e k).1 q ≡ (if q == fd then listed op e else interest k q)
  pub failed :
      (op : EpollOp) (fd : ℕ) (e : Events) (k : K)
      → (epoll_ctl op fd e k).0 ≡ false
      → (q : ℕ) → interest (epoll_ctl op fd e k).1 q ≡ interest k q

-- A context that waits: it has a scheduler, and one fiber or callback to give to it.
pub record Waiting (ec : EventContext) : Type 0 where
  pub scheduler : ℕ
  pub task : Task
  pub scheduler_lem : ec.scheduler ≡ some scheduler
  pub task_lem : to_schedule ec.cb ec.fiber ≡ task ∷ []
  pub left : fiber_left ec.cb ec.fiber ≡ none

abbrev pub Fits : Bool → EventContext → Type 0
Fits true ec = Waiting ec
Fits false ec = ec ≡ reset_context

-- A context waits for the events of its descriptor, and is empty for the others.
abbrev pub Good : FdContext → Type 0
Good c = Fits c.events.reading c.read_context × Fits c.events.writing c.write_context

abbrev pub bit : Bool → ℕ
bit true = 1
bit false = 0

abbrev pub bits : Events → ℕ
bits e = bit e.reading + bit e.writing

-- How many events there are on the descriptors below `n`
abbrev pub total : (ℕ → FdContext) → ℕ → ℕ
total contexts zero = 0
total contexts (suc n) = bits (contexts n).events + total contexts n

pub record Sound {K : Type 0} (s : IoManager K) : Type 0 where
  pub good : (fd : ℕ) → Good (s.contexts fd)
  pub beyond : (fd : ℕ) → s.size ≤ fd → s.contexts fd ≡ new_context
  pub count : s.pending_event_count ≡ total s.contexts s.size
  pub large : 32 ≤ s.size

-- What epoll should report on for these events
abbrev pub wanted : Events → Option Events
wanted e = if is_none e then none else some e

abbrev pub Agrees :
    {K : Type 0} {epoll_ctl : EpollOp → ℕ → Events → K → Bool × K}
    → Epoll epoll_ctl
    → IoManager K
    → Type 0
Agrees epoll s = (fd : ℕ) → epoll.interest s.epoll fd ≡ wanted (s.contexts fd).events

pub put-same : (fd : ℕ) (c : FdContext) (contexts : ℕ → FdContext) → put fd c contexts fd ≡ c
unfolding put
put-same fd c contexts = rw ((==_iff fd fd).1 refl) refl

pub put-hit :
    (fd : ℕ) (c : FdContext) (contexts : ℕ → FdContext) (q : ℕ)
    → (q == fd) ≡ true
    → put fd c contexts q ≡ c
unfolding put
put-hit fd c contexts q e = rw e refl

pub put-other :
    (fd : ℕ) (c : FdContext) (contexts : ℕ → FdContext) (q : ℕ)
    → (q == fd) ≡ false
    → put fd c contexts q ≡ contexts q
unfolding put
put-other fd c contexts q e = rw e refl

-- A change above `n` does not count, and one below counts by its bits.
total-put_above :
    (fd : ℕ) (c : FdContext) (contexts : ℕ → FdContext) (n : ℕ)
    → n ≤ fd
    → total (put fd c contexts) n ≡ total contexts n
total-put_above fd c contexts zero h = refl
total-put_above fd c contexts (suc n) h =
    rw (put-other fd c contexts n (ground arith), total-put_above fd c contexts n (omega arith))
      refl

pub total-put :
    (fd : ℕ) (c : FdContext) (contexts : ℕ → FdContext) (n : ℕ)
    → fd < n
    → total (put fd c contexts) n + bits (contexts fd).events ≡ total contexts n + bits c.events
total-put fd c contexts zero h = absurd (omega arith)
total-put fd c contexts (suc n) h = elim (Bool-cases (n == fd)) [
  | inl e ↦
      let same : n ≡ fd = (==_iff n fd).0 e in
      let at_n : bits (put fd c contexts n).events ≡ bits c.events =
        ap (λ (k : ℕ). bits (put fd c contexts k).events) same
        ∙ ap (λ (d : FdContext). bits d.events) (put-same fd c contexts) in
      let was : bits (contexts n).events ≡ bits (contexts fd).events =
        ap (λ (k : ℕ). bits (contexts k).events) same in
      omega (arith, at_n, was, total-put_above fd c contexts n (omega (arith, same)))
  | inr e ↦
      let at_n : bits (put fd c contexts n).events ≡ bits (contexts n).events =
        ap (λ (d : FdContext). bits d.events) (put-other fd c contexts n e) in
      omega (arith, at_n, total-put fd c contexts n (ground (arith, e)))
]

pub total-le :
    (contexts : ℕ → FdContext) (fd n : ℕ) → fd < n → bits (contexts fd).events ≤ total contexts n
total-le contexts fd zero h = absurd (omega arith)
total-le contexts fd (suc n) h = elim (Bool-cases (n == fd)) [
  | inl e ↦
      let was : bits (contexts n).events ≡ bits (contexts fd).events =
        ap (λ (k : ℕ). bits (contexts k).events) ((==_iff n fd).0 e) in
      omega (arith, was)
  | inr e ↦ omega (arith, total-le contexts fd n (ground (arith, e)))
]

has-none : (event : Event) → has event no_events ≡ false
has-none read = refl
has-none write = refl

-- A descriptor with an event is below the size.
pub registered-lt :
    {K : Type 0} {s : IoManager K}
    → Sound s
    → (event : Event) (fd : ℕ) → has event (s.contexts fd).events ≡ true
    → fd < s.size
registered-lt {K} {s} v event fd h = elim (Bool-cases (ltb fd s.size)) [
  | inl e ↦ ltb→lt fd s.size e
  | inr e ↦
      let empty = v.beyond fd (ground (arith, e)) in
      absurd
        (false≢true (sym (ap (λ (c : FdContext). has event c.events) empty ∙ has-none event) ∙ h))
]
