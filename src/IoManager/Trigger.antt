-- ===== src/IoManager/Trigger.antt =====
-- What `triggerEvent` of JKYi/iomanager.cc does with the events of a descriptor.
use jkyi.Base.{
  ℕ, ◌+◌, ◌-◌, ◌<◌, ◌≡◌, inl, inr, refl, sym, ap, ◌∙◌, arith, Bool, true, false, Option, none, some,
  List, [], ◌∷◌, ◌++◌, ◌==◌, if◌then◌else◌, Bool-cases, size_sub, size_sub_le, length,
  length-append, append-nil,
}
use mathlib.Core.Bool.{false≢true}
use jkyi.IoManager.{
  Event, read, write, Events, has, set_event, EventContext, FdContext, reset_context, get_context,
  set_context, Task, call, resume, to_schedule, schedule_to, trigger_event, IoManager, put, trigger,
  trigger_if,
}
use jkyi.IoManager.Inv.{
  Waiting, Fits, Good, bit, bits, Sound, put-same, put-hit, put-other, total-put, total-le,
  registered-lt,
}

pub Fits-set :
    (event : Event) (b : Bool) (ec : EventContext) (c : FdContext)
    → Good c
    → Fits b ec
    → Good (set_context event ec (record c { events = set_event event b c.events }))
Fits-set read b ec c g f = (f, g.1)
Fits-set write b ec c g f = (g.0, f)

pub bits-set :
    (event : Event) (b : Bool) (e : Events)
    → bits (set_event event b e) + bit (has event e) ≡ bits e + bit b
bits-set read b e = omega arith
bits-set write b e = omega arith

pub Fits-has :
    (event : Event) (c : FdContext) → Good c → Fits (has event c.events) (get_context event c)
Fits-has read c g = g.0
Fits-has write c g = g.1

pub set_context-events :
    (event : Event) (ec : EventContext) (c : FdContext) → (set_context event ec c).events ≡ c.events
set_context-events read ec c = refl
set_context-events write ec c = refl

-- A state in which the context of `fd` is another one that is good, and counts as it should, is
-- sound.
pub put-Sound :
    {K : Type 0} {s : IoManager K}
    → Sound s
    → (fd : ℕ) (c : FdContext) (epoll : K) (n : ℕ) (scheduled : List (ℕ × Task)) → fd < s.size
    → Good c
    → n + bits (s.contexts fd).events ≡ s.pending_event_count + bits c.events
    → Sound (record s {
      epoll = epoll;
      pending_event_count = n;
      contexts = put fd c s.contexts;
      scheduled = scheduled;
    })
put-Sound {K} {s} v fd c epoll n scheduled h g e = record {
  good = λ q. elim (Bool-cases (q == fd)) [
    | inl f ↦ rw (put-hit fd c s.contexts q f) g
    | inr f ↦ rw (put-other fd c s.contexts q f) (v.good q)
  ];
  beyond = λ q k. put-other fd c s.contexts q (ground (arith, h, k)) ∙ v.beyond q k;
  count = omega (arith, e, v.count, total-put fd c s.contexts s.size h);
  large = v.large;
}

abbrev all_of : Option (List (ℕ × Task)) → List (ℕ × Task)
all_of none = []
all_of (some tasks) = tasks

-- The wakeup that a context asks for: of its callback if there is one, else of its fiber, by its
-- scheduler
abbrev pub wakeup : Option ℕ → Option ℕ → Option ℕ → List (ℕ × Task)
wakeup none cb fiber = []
wakeup (some s) (some n) fiber = (s, call n) ∷ []
wakeup (some s) none (some f) = (s, resume f) ∷ []
wakeup (some s) none none = []

abbrev pub handed : EventContext → List (ℕ × Task)
handed ec = wakeup ec.scheduler ec.cb ec.fiber

schedule_to-wakeup :
    (scheduler cb fiber : Option ℕ)
    → all_of (schedule_to scheduler (to_schedule cb fiber)) ≡ wakeup scheduler cb fiber
unfolding schedule_to to_schedule
schedule_to-wakeup none cb fiber = refl
schedule_to-wakeup (some s) (some n) fiber = refl
schedule_to-wakeup (some s) none (some f) = refl
schedule_to-wakeup (some s) none none = refl

-- The wakeups that are still to come, and those that were handed over
abbrev pub owed : {K : Type 0} → IoManager K → ℕ
owed s = s.pending_event_count + length s.scheduled

-- The context of `fd` without one of its events
abbrev pub cleared : Event → FdContext → FdContext
cleared event c =
    set_context event reset_context (record c { events = set_event event false c.events })

-- After a trigger the event is gone and its context empty, the other event of the descriptor and
-- all other descriptors are as they were, and what waited is the last that was scheduled.
pub record Triggered {K : Type 0} (event : Event) (fd : ℕ) (s : IoManager K) (s' : IoManager K)
    : Type 0 where
  pub sound : Sound s'
  pub epoll : s'.epoll ≡ s.epoll
  pub size : s'.size ≡ s.size
  pub context : s'.contexts fd ≡ cleared event (s.contexts fd)
  pub others : (q : ℕ) → (q == fd) ≡ false → s'.contexts q ≡ s.contexts q
  pub owed_lem : owed s' ≡ owed s
  pub one : (x : ℕ × Task) × (handed (get_context event (s.contexts fd)) ≡ x ∷ [])
  pub scheduled : s'.scheduled ≡ s.scheduled ++ handed (get_context event (s.contexts fd))

has-bits : (event : Event) (e : Events) → has event e ≡ true → 0 < bits e
has-bits read e h = ground (arith, h)
has-bits write e h = ground (arith, h)

waits : (b : Bool) (ec : EventContext) → b ≡ true → Fits b ec → Waiting ec
waits true ec e f = f
waits false ec e f = absurd (false≢true e)

pub cleared-events :
    (event : Event) (c : FdContext) → (cleared event c).events ≡ set_event event false c.events
cleared-events read c = refl
cleared-events write c = refl

pub cleared-Sound :
    {K : Type 0} {s : IoManager K}
    → Sound s
    → (event : Event) (fd : ℕ) (epoll : K) (scheduled : List (ℕ × Task))
    → has event (s.contexts fd).events ≡ true
    → Sound (record s {
      epoll = epoll;
      pending_event_count = size_sub s.pending_event_count 1;
      contexts = put fd (cleared event (s.contexts fd)) s.contexts;
      scheduled = scheduled;
    })
      × (size_sub s.pending_event_count 1 + 1 ≡ s.pending_event_count)
cleared-Sound {K} {s} v event fd epoll scheduled h =
    let c = s.contexts fd in
    let below = registered-lt v event fd h in
    let some_event = has-bits event c.events h in
    let counted = total-le s.contexts fd s.size below in
    let one_less : size_sub s.pending_event_count 1 ≡ s.pending_event_count - 1 =
      size_sub_le s.pending_event_count 1 (omega (arith, some_event, counted, v.count)) in
    let fewer : bits (cleared event c).events + bit (has event c.events) ≡ bits c.events + 0 =
      ap (λ (e : Events). bits e + bit (has event c.events))
        (set_context-events event reset_context
          (record c { events = set_event event false c.events }))
      ∙ bits-set event false c.events in
    let was : bit (has event c.events) ≡ 1 = ap bit h in
    (
      put-Sound v fd (cleared event c) epoll (size_sub s.pending_event_count 1) scheduled below
          (Fits-set event false reset_context c (v.good fd) refl)
          (omega (arith, one_less, fewer, was, some_event, counted, v.count)),
      omega (arith, one_less, some_event, counted, v.count),
    )

pub trigger-Triggered :
    {K : Type 0} {s : IoManager K}
    → Sound s
    → (event : Event) (fd : ℕ) → has event (s.contexts fd).events ≡ true
    → (s' : IoManager K) × (trigger event fd s ≡ some s') × Triggered event fd s s'
unfolding trigger trigger_event schedule_to
trigger-Triggered {K} {s} v event fd h =
    let c = s.contexts fd in
    let w = waits (has event c.events) (get_context event c) h (Fits-has event c (v.good fd)) in
    let ec = get_context event c in
    let given : all_of (schedule_to ec.scheduler (to_schedule ec.cb ec.fiber))
        ≡ (w.scheduler, w.task) ∷ [] =
      rw (w.scheduler_lem, w.task_lem) refl in
    let one : handed ec ≡ (w.scheduler, w.task) ∷ [] =
      sym (schedule_to-wakeup ec.scheduler ec.cb ec.fiber) ∙ given in
    let tasks = s.scheduled ++ ((w.scheduler, w.task) ∷ []) in
    let next = cleared-Sound v event fd s.epoll tasks h in
    let s' : IoManager K = record s {
      pending_event_count = size_sub s.pending_event_count 1;
      contexts = put fd (cleared event c) s.contexts;
      scheduled = tasks;
    } in
    (
      s',
      rw (h, w.scheduler_lem, w.task_lem, w.left) refl,
      record {
        sound = next.0;
        epoll = refl;
        size = refl;
        context = put-same fd (cleared event c) s.contexts;
        others = λ q e. put-other fd (cleared event c) s.contexts q e;
        owed_lem = omega (arith, next.1, length-append s.scheduled ((w.scheduler, w.task) ∷ []));
        one = ((w.scheduler, w.task), one);
        scheduled = ap (λ (l : List (ℕ × Task)). s.scheduled ++ l) (sym one);
      },
    )

-- The same of a trigger under a test.
pub record Tried {K : Type 0} (b : Bool) (event : Event) (fd : ℕ) (s : IoManager K)
    (s' : IoManager K) : Type 0 where
  pub sound : Sound s'
  pub epoll : s'.epoll ≡ s.epoll
  pub context : s'.contexts fd ≡ (if b then cleared event (s.contexts fd) else s.contexts fd)
  pub events :
      (s'.contexts fd).events
      ≡ (if b then set_event event false (s.contexts fd).events else (s.contexts fd).events)
  pub others : (q : ℕ) → (q == fd) ≡ false → s'.contexts q ≡ s.contexts q
  pub owed_lem : owed s' ≡ owed s
  pub scheduled :
      s'.scheduled ≡ s.scheduled ++ (if b then handed (get_context event (s.contexts fd)) else [])

pub trigger_if-Tried :
    {K : Type 0} {s : IoManager K}
    → Sound s
    → (b : Bool) (event : Event) (fd : ℕ) → (b ≡ true → has event (s.contexts fd).events ≡ true)
    → (s' : IoManager K) × (trigger_if b event fd s ≡ some s') × Tried b event fd s s'
unfolding trigger_if
trigger_if-Tried {K} {s} v false event fd h = (
  s,
  refl,
  record {
    sound = v;
    epoll = refl;
    context = refl;
    events = refl;
    others = λ q e. refl;
    owed_lem = refl;
    scheduled = sym (append-nil s.scheduled);
  },
)
trigger_if-Tried {K} {s} v true event fd h =
    let t = trigger-Triggered v event fd (h refl) in
    (
      t.0,
      t.1,
      record {
        sound = t.2.sound;
        epoll = t.2.epoll;
        context = t.2.context;
        events =
            ap (λ (c : FdContext). c.events) t.2.context ∙ cleared-events event (s.contexts fd);
        others = t.2.others;
        owed_lem = t.2.owed_lem;
        scheduled = t.2.scheduled;
      },
    )
