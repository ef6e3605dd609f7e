-- ===== src/IoManager/Reached.antt =====
-- Any run of the operations of an IOManager (JKYi/iomanager.cc) on its events.
use jkyi.Base.{
  ℕ, ◌+◌, ◌≡◌, inl, inr, refl, sym, ap, ◌∙◌, arith, Bool, true, false, not, ◌&&◌, ◌||◌, Option,
  none, some, List, [], if◌then◌else◌, Bool-cases, length,
}
use jkyi.Base.Options.{◌>>=◌}
use mathlib.Core.Path.{subst}
use jkyi.IoManager.{
  Event, read, write, Events, has, is_none, new_context, Task, EpollOp, ctl_mod, ctl_del, IoManager,
  trigger_if, add_event, del_event, cancel_event, cancel_all, handle_event, epoll_rest,
}
use jkyi.IoManager.Inv.{Epoll, bit, Sound}
use jkyi.IoManager.Trigger.{owed, trigger_if-Tried}
use jkyi.IoManager.Operations.{
  IsValid, failed-IsValid, with_epoll-Sound, del_event_lem, cancel_event_lem,
}
use jkyi.IoManager.Both.{writing-same, cancel_all_lem, handle_event_lem, trigger-none}
use jkyi.IoManager.Add.{add_event_lem}

-- The events of a new IOManager
abbrev pub create : {K : Type 0} → K → IoManager K
create k = record {
  epoll = k;
  pending_event_count = 0;
  size = 32;
  contexts = λ fd. new_context;
  scheduled = [];
}

module _ {K : Type 0} (epoll_ctl : EpollOp → ℕ → Events → K → Bool × K)
    (epoll : Epoll epoll_ctl) where
  -- The states that any calls lead to, on threads of a scheduler, with the numbers of the events
  -- that were added and of those that were deleted
  pub data Reach : ℕ → ℕ → IoManager K → Type 0 where
    created : (k : K) → ((fd : ℕ) → epoll.interest k fd ≡ none) → Reach 0 0 (create k)
    added :
        {a d : ℕ} {s : IoManager K} (scheduler this_fiber fd : ℕ) (event : Event) (cb : Option ℕ)
        (b : Bool) (s' : IoManager K)
        → Reach a d s
        → add_event epoll_ctl (some scheduler) this_fiber fd event cb s ≡ some (b, s')
        → Reach (a + bit b) d s'
    deleted :
        {a d : ℕ} {s : IoManager K} (fd : ℕ) (event : Event)
        → Reach a d s
        → Reach a (d + bit (del_event epoll_ctl fd event s).0) (del_event epoll_ctl fd event s).1
    cancelled :
        {a d : ℕ} {s : IoManager K} (fd : ℕ) (event : Event) (b : Bool) (s' : IoManager K)
        → Reach a d s
        → cancel_event epoll_ctl fd event s ≡ some (b, s')
        → Reach a d s'
    all_cancelled :
        {a d : ℕ} {s : IoManager K} (fd : ℕ) (b : Bool) (s' : IoManager K)
        → Reach a d s
        → cancel_all epoll_ctl fd s ≡ some (b, s')
        → Reach a d s'
    reported :
        {a d : ℕ} {s : IoManager K} (epoll_in epoll_out err_or_hup : Bool) (fd : ℕ)
        (s' : IoManager K)
        → Reach a d s
        → handle_event epoll_ctl epoll_in epoll_out err_or_hup fd s ≡ some s'
        → Reach a d s'

  -- The same of a result: it is valid and owes as many wakeups.
  abbrev Kept : ℕ → Option (IoManager K) → Type 0
  Kept n none = Unit
  Kept n (some s') = IsValid epoll_ctl epoll s' × (owed s' ≡ n)

  Kept-back :
      (n : ℕ) (s' : IoManager K) (r : Option (IoManager K))
      → r ≡ some s'
      → IsValid epoll_ctl epoll s' × (owed s' ≡ n)
      → Kept n r
  Kept-back n s' r e k = subst (λ (o : Option (IoManager K)). Kept n o) (sym e) k

  Kept-some :
      (n : ℕ) (s' : IoManager K) (r : Option (IoManager K))
      → r ≡ some s'
      → Kept n r
      → Kept n (some s')
  Kept-some n s' r e k = subst (λ (o : Option (IoManager K)). Kept n o) e k

  and-left : (a b : Bool) → (a && not b) ≡ true → (a ≡ true) × (b ≡ false)
  and-left a b e = ground (arith, e)

  implied : (a b : Bool) → (a && not b) ≡ false → a ≡ true → b ≡ true
  implied a b e h = ground (arith, e, h)

  trigger_if-none :
      (b : Bool) (event : Event) (fd : ℕ) (s : IoManager K)
      → b ≡ true
      → has event (s.contexts fd).events ≡ false
      → trigger_if b event fd s ≡ none
  unfolding trigger_if
  trigger_if-none b event fd s e h = rw e (trigger-none event fd s h)

  -- An event that was reported and is no more there, next to one that is, ends the process.
  gone-none :
      (real_read real_write : Bool) (fd : ℕ) {s : IoManager K}
      → Sound s
      → (real_read && not (s.contexts fd).events.reading) ≡ false
      → (real_write && not (s.contexts fd).events.writing) ≡ true
      → (trigger_if real_read read fd s >>= λ s1. trigger_if real_write write fd s1) ≡ none
  gone-none real_read real_write fd {s} v r w =
      let one =
        trigger_if-Tried v real_read read fd (implied real_read (s.contexts fd).events.reading r) in
      let facts = and-left real_write (s.contexts fd).events.writing w in
      let same : (one.0.contexts fd).events.writing ≡ (s.contexts fd).events.writing =
        ap (λ (e : Events). e.writing) one.2.events
        ∙ writing-same real_read (s.contexts fd).events in
      rw one.1 (trigger_if-none real_write write fd one.0 facts.0 (same ∙ facts.1))

  handle_event-Kept :
      (epoll_in epoll_out err_or_hup : Bool) (fd : ℕ) {s : IoManager K}
      → IsValid epoll_ctl epoll s
      → Kept (owed s) (handle_event epoll_ctl epoll_in epoll_out err_or_hup fd s)
  unfolding handle_event epoll_rest
  handle_event-Kept epoll_in epoll_out err_or_hup fd {s} v =
      let e = (s.contexts fd).events in
      let real_read = epoll_in || (err_or_hup && e.reading) in
      let real_write = epoll_out || (err_or_hup && e.writing) in
      let left : Events = record {
        reading = e.reading && not real_read;
        writing = e.writing && not real_write;
      } in
      let op = if is_none left then ctl_del else ctl_mod in
      let rt = epoll_ctl op fd left s.epoll in
      let told : IoManager K = record s { epoll = rt.1 } in
      let sound = with_epoll-Sound epoll_ctl epoll rt.1 v.0 in
      let unless_both : (trigger_if real_read read fd told >>= λ s1.
      trigger_if real_write write fd s1)
            ≡ none
          → Kept (owed s) (handle_event epoll_ctl epoll_in epoll_out err_or_hup fd s) =
        λ r. elim (Bool-cases (not (e.reading && real_read) && not (e.writing && real_write))) [
          | inl n ↦ rw n (v, refl)
          | inr n ↦ elim (Bool-cases rt.0) [
            | inr f ↦ rw (n, f) (failed-IsValid epoll_ctl epoll v op fd left f, refl)
            | inl f ↦ rw (n, f, r) tt
          ]
        ] in
      elim (Bool-cases (real_read && not e.reading)) [
        | inl r ↦
            let facts = and-left real_read e.reading r in
            unless_both (rw (trigger_if-none real_read read fd told facts.0 facts.1) refl)
        | inr r ↦ elim (Bool-cases (real_write && not e.writing)) [
          | inl w ↦ unless_both (gone-none real_read real_write fd sound r w)
          | inr w ↦
              let t =
                handle_event_lem epoll_ctl epoll epoll_in epoll_out err_or_hup fd v
                  (implied real_read e.reading r) (implied real_write e.writing w) in
              Kept-back (owed s) t.0 _ t.1 (t.2, t.3)
        ]
      ]

  -- The same of a result with a Boolean, on which the wakeups owed may depend.
  abbrev Gives : (Bool → ℕ) → Option (Bool × IoManager K) → Type 0
  Gives n none = Unit
  Gives n (some (b, s')) = IsValid epoll_ctl epoll s' × (owed s' ≡ n b)

  Gives-back :
      (n : Bool → ℕ) (b : Bool) (s' : IoManager K) (r : Option (Bool × IoManager K))
      → r ≡ some (b, s')
      → IsValid epoll_ctl epoll s' × (owed s' ≡ n b)
      → Gives n r
  Gives-back n b s' r e k = subst (λ (o : Option (Bool × IoManager K)). Gives n o) (sym e) k

  add_event-Gives :
      (scheduler this_fiber fd : ℕ) (event : Event) (cb : Option ℕ) {s : IoManager K}
      → IsValid epoll_ctl epoll s
      → Gives (λ b. owed s + bit b) (add_event epoll_ctl (some scheduler) this_fiber fd event cb s)
  add_event-Gives scheduler this_fiber fd event cb {s} v =
      let n = λ (b : Bool). owed s + bit b in
      let r = add_event epoll_ctl (some scheduler) this_fiber fd event cb s in
      elim (add_event_lem epoll_ctl epoll scheduler this_fiber fd event cb v) [
        | inl t ↦ subst (λ (o : Option (Bool × IoManager K)). Gives n o) (sym t.1) tt
        | inr t ↦
            let scheduled = ap (λ (l : List (ℕ × Task)). length l) t.5 in
            elim t.6 [
              | inl u ↦ Gives-back n t.1 t.2 r t.3 (t.4, omega (arith, scheduled, u.2, ap bit u.1))
              | inr u ↦ Gives-back n t.1 t.2 r t.3 (t.4, omega (arith, scheduled, u.2, ap bit u.1))
            ]
      ]

  del_event-counted :
      (fd : ℕ) (event : Event) {s : IoManager K}
      → IsValid epoll_ctl epoll s
      → owed (del_event epoll_ctl fd event s).1 + bit (del_event epoll_ctl fd event s).0 ≡ owed s
  del_event-counted fd event {s} v =
      let t = del_event_lem epoll_ctl epoll fd event v in
      let scheduled = ap (λ (l : List (ℕ × Task)). length l) t.1 in
      elim t.2 [
        | inl u ↦ omega (arith, scheduled, u.1, ap bit u.0)
        | inr u ↦ omega (arith, scheduled, u.1, ap bit u.0)
      ]

  -- In any run on threads of schedulers, with an epoll_ctl that behaves as documented, the
  -- invariant holds: a registered event has a context that waits, with a scheduler and one task,
  -- any other context is empty, the count of pending events is their number, and epoll watches
  -- exactly them. And as many events were added as are pending, were deleted, or gave a task to a
  -- scheduler. Each call is one step, also an addEvent that has to grow the contexts.
  pub Reach-IsValid :
      {a d : ℕ} {s : IoManager K} → Reach a d s → IsValid epoll_ctl epoll s × (a ≡ d + owed s)
  Reach-IsValid (created k h) = (
    (
      record {
        good = λ fd. (refl, refl);
        beyond = λ fd h. refl;
        count = refl;
        large = omega arith;
      },
      h,
    ),
    refl,
  )
  Reach-IsValid (added {a} {d} {s} scheduler this_fiber fd event cb b s' r e) =
      let v = Reach-IsValid r in
      let k =
        subst (λ (o : Option (Bool × IoManager K)). Gives (λ b. owed s + bit b) o) e
          (add_event-Gives scheduler this_fiber fd event cb v.0) in
      (k.0, omega (arith, v.1, k.1))
  Reach-IsValid (deleted {a} {d} {s} fd event r) =
      let v = Reach-IsValid r in
      (
        (del_event_lem epoll_ctl epoll fd event v.0).0,
        omega (arith, v.1, del_event-counted fd event v.0),
      )
  Reach-IsValid (cancelled {a} {d} {s} fd event b s' r e) =
      let v = Reach-IsValid r in
      let t = cancel_event_lem epoll_ctl epoll fd event v.0 in
      let k =
        subst (λ (o : Option (Bool × IoManager K)). Gives (λ b. owed s) o) e
          (Gives-back (λ b. owed s) t.0 t.1 (cancel_event epoll_ctl fd event s) t.2 (t.3, t.4)) in
      (k.0, omega (arith, v.1, k.1))
  Reach-IsValid (all_cancelled {a} {d} {s} fd b s' r e) =
      let v = Reach-IsValid r in
      let t = cancel_all_lem epoll_ctl epoll fd v.0 in
      let k =
        subst (λ (o : Option (Bool × IoManager K)). Gives (λ b. owed s) o) e
          (Gives-back (λ b. owed s) t.0 t.1 (cancel_all epoll_ctl fd s) t.2 (t.3, t.4)) in
      (k.0, omega (arith, v.1, k.1))
  Reach-IsValid (reported {a} {d} {s} epoll_in epoll_out err_or_hup fd s' r e) =
      let v = Reach-IsValid r in
      let k =
        Kept-some (owed s) s' (handle_event epoll_ctl epoll_in epoll_out err_or_hup fd s) e
          (handle_event-Kept epoll_in epoll_out err_or_hup fd v.0) in
      (k.0, omega (arith, v.1, k.1))
