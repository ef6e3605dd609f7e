-- ===== src/IoManager/Add.antt =====
-- addEvent of JKYi/iomanager.cc.
use jkyi.Base.{
  ℕ, zero, suc, ◌+◌, ◌-◌, ◌*◌, ◌/◌, ◌≤◌, ◌<◌, ◌≡◌, ◌⊎◌, inl, inr, refl, sym, ap, ◌∙◌, arith, Bool,
  true, false, ◌&&◌, Option, none, some, if◌then◌else◌, Bool-cases, ltb, lt→ltb, ltb→lt,
}
use mathlib.Core.Bool.{false≢true}
use mathlib.Core.Path.{subst}
use jkyi.IoManager.{
  Event, read, write, Events, has, set_event, is_none, EventContext, FdContext, new_context,
  is_reset, waiting_fiber, get_context, set_context, call, resume, to_schedule, fiber_left, EpollOp,
  ctl_add, ctl_mod, IoManager, put, context_resize, add_to_context, add_event, add_grown,
}
use jkyi.IoManager.Inv.{
  Epoll, listed, Waiting, Fits, Good, bit, bits, total, Sound, wanted, put-same, put-other,
}
use jkyi.IoManager.Trigger.{put-Sound, Fits-set, bits-set, Fits-has, set_context-events}
use jkyi.IoManager.Operations.{IsValid, Agrees-done, failed-IsValid}

-- The context of an event that was added
abbrev pub waiting : ℕ → ℕ → Option ℕ → EventContext
waiting scheduler this_fiber cb = record {
  scheduler = some scheduler;
  fiber = waiting_fiber this_fiber cb;
  cb = cb;
}

waiting-Waiting :
    (scheduler this_fiber : ℕ) (cb : Option ℕ) → Waiting (waiting scheduler this_fiber cb)
unfolding waiting_fiber to_schedule fiber_left
waiting-Waiting scheduler this_fiber none = record {
  scheduler = scheduler;
  task = resume this_fiber;
  scheduler_lem = refl;
  task_lem = refl;
  left = refl;
}
waiting-Waiting scheduler this_fiber (some n) = record {
  scheduler = scheduler;
  task = call n;
  scheduler_lem = refl;
  task_lem = refl;
  left = refl;
}

-- The context of `fd` with one more event
abbrev pub added : Event → EventContext → FdContext → FdContext
added event ec c = set_context event ec (record c { events = set_event event true c.events })

is_none-set : (event : Event) (e : Events) → is_none (set_event event true e) ≡ false
is_none-set read e = refl
is_none-set write e = ground arith

unregistered : (b : Bool) (ec : EventContext) → b ≡ false → Fits b ec → is_reset ec ≡ true
unfolding is_reset
unregistered true ec e f = absurd (false≢true (sym e))
unregistered false ec e f = ap (λ (ec : EventContext). is_reset ec) f

-- New contexts above those there are, and nothing else: what contextResize does here.
resize-contexts :
    {K : Type 0} {s : IoManager K}
    → Sound s
    → (n : ℕ) → s.size ≤ n
    → (context_resize n s).contexts ≡ s.contexts
unfolding context_resize
resize-contexts {K} {s} v n h = λ i fd. pointwise fd i
  where
    pointwise :
        (fd : ℕ)
        → (if ltb fd n && ltb fd s.size then s.contexts fd else new_context) ≡ s.contexts fd
    pointwise fd = elim (Bool-cases (ltb fd s.size)) [
      | inl e ↦ rw (lt→ltb fd n (ground (arith, e, h)), e) refl
      | inr e ↦
          let test : (ltb fd n && ltb fd s.size) ≡ false = ground (arith, e) in
          rw test (sym (v.beyond fd (ground (arith, e))))
    ]

total-more :
    (contexts : ℕ → FdContext) (size k : ℕ)
    → ((fd : ℕ) → size ≤ fd → contexts fd ≡ new_context)
    → total contexts (k + size) ≡ total contexts size
total-more contexts size zero beyond =
    let e : 0 + size ≡ size = omega arith in ap (λ (n : ℕ). total contexts n) e
total-more contexts size (suc k) beyond =
    let e : suc k + size ≡ suc (k + size) = omega arith in
    let empty : bits (contexts (k + size)).events ≡ 0 =
      ap (λ (c : FdContext). bits c.events) (beyond (k + size) (omega arith)) in
    ap (λ (n : ℕ). total contexts n) e ∙ omega (arith, empty, total-more contexts size k beyond)

resize-Sound :
    {K : Type 0} {s : IoManager K} → Sound s → (n : ℕ) → s.size ≤ n → Sound (context_resize n s)
unfolding context_resize
resize-Sound {K} {s} v n h =
    let same = resize-contexts v n h in
    let room : (n - s.size) + s.size ≡ n = omega (arith, h) in
    record {
      good = λ fd.
          subst (λ (c : FdContext). Good c) (ap (λ (f : ℕ → FdContext). f fd) (sym same))
            (v.good fd);
      beyond = λ fd k. ap (λ (f : ℕ → FdContext). f fd) same ∙ v.beyond fd (omega (arith, h, k));
      count =
          v.count
          ∙ sym (total-more s.contexts s.size (n - s.size) v.beyond)
          ∙ ap (λ (k : ℕ). total s.contexts k) room
          ∙ ap (λ (f : ℕ → FdContext). total f n) (sym same);
      large = omega (arith, h, v.large);
    }

op-listed : (b : Bool) (e : Events) → listed (if b then ctl_add else ctl_mod) e ≡ some e
op-listed true e = refl
op-listed false e = refl

module _ {K : Type 0} (epoll_ctl : EpollOp → ℕ → Events → K → Bool × K)
    (epoll : Epoll epoll_ctl) where
  -- What epoll answers when it is asked for one more event
  abbrev pub accepts : ℕ → Event → Events → K → Bool
  accepts fd event e k =
      (epoll_ctl (if is_none e then ctl_add else ctl_mod) fd (set_event event true e) k).0

  -- Either epoll refuses and nothing changes, or it accepts and the event is there with its waiter,
  -- where `n` events were pending and the descriptors had `contexts`.
  abbrev pub Added :
      ℕ → Event → EventContext → ℕ → (ℕ → FdContext) → K → Bool → IoManager K → Type 0
  Added fd event ec n contexts k b s' =
      (accepts fd event (contexts fd).events k ≡ false)
        × (b ≡ false)
        × (s'.pending_event_count ≡ n)
        × (s'.contexts ≡ contexts)
      ⊎ (accepts fd event (contexts fd).events k ≡ true)
        × (b ≡ true)
        × (s'.pending_event_count ≡ n + 1)
        × (s'.contexts fd ≡ added event ec (contexts fd))

  -- What a result of addEvent is on such descriptors: a failed assertion if the event is there
  -- already
  abbrev pub Outcome :
      ℕ
      → ℕ
      → ℕ
      → Event
      → Option ℕ
      → IoManager K
      → (ℕ → FdContext)
      → Option (Bool × IoManager K)
      → Type 0
  Outcome scheduler this_fiber fd event cb s contexts r =
      (has event (contexts fd).events ≡ true) × (r ≡ none)
      ⊎ (has event (contexts fd).events ≡ false)
        × (b : Bool) × (s' : IoManager K) × (r ≡ some (b, s'))
        × IsValid epoll_ctl epoll s'
        × (s'.scheduled ≡ s.scheduled)
        × Added fd event (waiting scheduler this_fiber cb) s.pending_event_count contexts s.epoll b
            s'

  add_to_context-Added :
      (scheduler this_fiber fd : ℕ) (event : Event) (cb : Option ℕ) {s : IoManager K}
      → IsValid epoll_ctl epoll s
      → fd < s.size
      → has event (s.contexts fd).events ≡ false
      → (b : Bool) × (s' : IoManager K) × (add_to_context epoll_ctl
            (some scheduler)
            this_fiber
            fd
            event
            cb
            s
          ≡ some (b, s'))
        × IsValid epoll_ctl epoll s'
        × (s'.scheduled ≡ s.scheduled)
        × Added fd event
            (waiting scheduler this_fiber cb)
            s.pending_event_count
            s.contexts
            s.epoll
            b
            s'
  unfolding add_to_context
  add_to_context-Added scheduler this_fiber fd event cb {s} v below h =
      let c = s.contexts fd in
      let new = set_event event true c.events in
      let op = if is_none c.events then ctl_add else ctl_mod in
      let rt = epoll_ctl op fd new s.epoll in
      let ec = waiting scheduler this_fiber cb in
      elim (Bool-cases rt.0) [
        | inr f ↦ (
          false,
          record s { epoll = rt.1 },
          rw (h, f) refl,
          failed-IsValid epoll_ctl epoll v op fd new f,
          refl,
          inl (f, refl, refl, refl),
        )
        | inl k ↦
            let free =
              unregistered (has event c.events) (get_context event c) h
                (Fits-has event c (v.0.good fd)) in
            let hit = put-same fd (added event ec c) s.contexts in
            let s' : IoManager K = record s {
              epoll = rt.1;
              pending_event_count = s.pending_event_count + 1;
              contexts = put fd (added event ec c) s.contexts;
            } in
            let events : (added event ec c).events ≡ new =
              set_context-events event ec (record c { events = new }) in
            let more : bits (added event ec c).events + bit (has event c.events)
                ≡ bits c.events + 1 =
              ap (λ (e : Events). bits e + bit (has event c.events)) events
              ∙ bits-set event true c.events in
            let was : bit (has event c.events) ≡ 0 = ap bit h in
            let sound =
              put-Sound v.0 fd (added event ec c) rt.1 (s.pending_event_count + 1) s.scheduled below
                (Fits-set event true ec c (v.0.good fd) (waiting-Waiting scheduler this_fiber cb))
                (omega (arith, more, was)) in
            (
              true,
              s',
              rw (h, k, free) refl,
              (
                sound,
                Agrees-done epoll_ctl epoll s v.1 op fd new s' k
                    (op-listed (is_none c.events) new ∙ sym (rw (is_none-set event c.events) refl))
                    refl (ap (λ (d : FdContext). d.events) hit ∙ events)
                    (λ q e. put-other fd (added event ec c) s.contexts q e),
              ),
              refl,
              inr (k, refl, refl, hit),
            )
      ]

  add_to_context-Outcome :
      (scheduler this_fiber fd : ℕ) (event : Event) (cb : Option ℕ) {s : IoManager K}
      → IsValid epoll_ctl epoll s
      → fd < s.size
      → Outcome scheduler this_fiber fd event cb s s.contexts
          (add_to_context epoll_ctl (some scheduler) this_fiber fd event cb s)
  unfolding add_to_context
  add_to_context-Outcome scheduler this_fiber fd event cb {s} v below =
      elim (Bool-cases (has event (s.contexts fd).events)) [
        | inl h ↦ inl (h, rw h refl)
        | inr h ↦
            let t = add_to_context-Added scheduler this_fiber fd event cb v below h in
            inr (h, t.0, t.1, t.2, t.3, t.4, t.5)
      ]

  resize-IsValid :
      {s : IoManager K}
      → IsValid epoll_ctl epoll s
      → (n : ℕ) → s.size ≤ n
      → IsValid epoll_ctl epoll (context_resize n s)
  unfolding context_resize
  resize-IsValid {s} v n h = (
    resize-Sound v.0 n h,
    λ fd. v.1 fd ∙ ap (λ (f : ℕ → FdContext). wanted (f fd).events) (sym (resize-contexts v.0 n h)),
  )

  -- In a state that keeps the invariant, on a thread of a scheduler, with an epoll_ctl that behaves
  -- as documented, and with no other call between its two locks, addEvent on a descriptor that
  -- waits for the event already fails by its assertion; otherwise it returns, keeps the invariant
  -- and schedules nothing. If epoll accepts, it returns 0 and the event is registered with the
  -- callback, or with the running fiber if there is none, and is counted once; if epoll refuses, it
  -- returns -1 and no event changes. A descriptor beyond the contexts gets them grown first.
  pub add_event_lem :
      (scheduler this_fiber fd : ℕ) (event : Event) (cb : Option ℕ) {s : IoManager K}
      → IsValid epoll_ctl epoll s
      → Outcome scheduler this_fiber fd event cb s s.contexts
          (add_event epoll_ctl (some scheduler) this_fiber fd event cb s)
  unfolding add_event add_grown context_resize
  add_event_lem scheduler this_fiber fd event cb {s} v = elim (Bool-cases (ltb fd s.size)) [
    | inl l ↦ rw l (add_to_context-Outcome scheduler this_fiber fd event cb v (ltb→lt fd s.size l))
    | inr l ↦
        let large = v.0.large in
        let n = fd * 3 / 2 in
        let grows : s.size ≤ n = omega (arith, large, le-of l) in
        let room : fd < n = omega (arith, large, le-of l) in
        let t =
          add_to_context-Outcome scheduler this_fiber fd event cb (resize-IsValid v n grows) room in
        rw (l, lt→ltb fd n room)
          (subst
            (λ (f : ℕ → FdContext). Outcome scheduler this_fiber fd event cb s f (
              add_to_context epoll_ctl (some scheduler) this_fiber fd event cb
                (context_resize n s)))
            (resize-contexts v.0 n grows) t)
  ]
    where
      le-of : ltb fd s.size ≡ false → s.size ≤ fd
      le-of l = ground (arith, l)
