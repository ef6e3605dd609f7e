-- ===== src/IoManager/Both.antt =====
-- cancelAll and idle of JKYi/iomanager.cc, which trigger both events of a descriptor.
use jkyi.Base.{
  ℕ, ◌≡◌, ◌⊎◌, inl, inr, refl, sym, ap, ◌∙◌, arith, Bool, true, false, not, ◌&&◌, ◌||◌, none, some,
  List, [], ◌++◌, if◌then◌else◌, Bool-cases, ltb, append_assoc,
}
use mathlib.Core.Bool.{false≢true}
use jkyi.IoManager.{
  Event, read, write, Events, no_events, has, set_event, is_none, EventContext, FdContext, Task,
  EpollOp, ctl_mod, ctl_del, IoManager, trigger_event, trigger, trigger_if, cancel_all,
  handle_event, epoll_rest,
}
use jkyi.IoManager.Inv.{Epoll, listed, wanted}
use jkyi.IoManager.Trigger.{cleared, owed, handed, trigger-Triggered, trigger_if-Tried}
use jkyi.IoManager.Operations.{IsValid, Agrees-done, failed-IsValid, rest-listed, with_epoll-Sound}

-- What a descriptor gives to the schedulers when both of its events are triggered, or one of them
abbrev pub woken : Bool → Bool → FdContext → List (ℕ × Task)
woken reading writing c =
    (if reading then handed c.read_context else [])
    ++ (if writing then handed c.write_context else [])

write_context-same :
    (b : Bool) (c : FdContext) → (if b then cleared read c else c).write_context ≡ c.write_context
write_context-same true c = refl
write_context-same false c = refl

-- What is left of the events after the two triggers
abbrev drop_events : Bool → Bool → Events → Events
drop_events reading writing e =
    let e' = if reading then set_event read false e else e in
    if writing then set_event write false e' else e'

and_true : (b : Bool) → b ≡ (b && true)
and_true true = refl
and_true false = refl

and_false : (b : Bool) → false ≡ (b && false)
and_false true = refl
and_false false = refl

drop_events-left :
    (reading writing : Bool) (e : Events)
    → drop_events reading writing e
      ≡ record { reading = e.reading && not reading; writing = e.writing && not writing }
drop_events-left true true e = λ i.
    let e' : Events = record { reading = and_false e.reading i; writing = and_false e.writing i } in
    e'
drop_events-left true false e = λ i.
    let e' : Events = record { reading = and_false e.reading i; writing = and_true e.writing i } in
    e'
drop_events-left false true e = λ i.
    let e' : Events = record { reading = and_true e.reading i; writing = and_false e.writing i } in
    e'
drop_events-left false false e = λ i.
    let e' : Events = record { reading = and_true e.reading i; writing = and_true e.writing i } in
    e'

pub writing-same :
    (b : Bool) (e : Events) → (if b then set_event read false e else e).writing ≡ e.writing
writing-same true e = refl
writing-same false e = refl

pub trigger-none :
    {K : Type 0} (event : Event) (fd : ℕ) (s : IoManager K)
    → has event (s.contexts fd).events ≡ false
    → trigger event fd s ≡ none
unfolding trigger trigger_event
trigger-none event fd s h = rw h refl

unreported :
    (r w rr rw' : Bool)
    → (rr ≡ true → r ≡ true)
    → (rw' ≡ true → w ≡ true)
    → (not (r && rr) && not (w && rw')) ≡ true
    → (rr ≡ false) × (rw' ≡ false)
unreported r w false false h k g = (refl, refl)
unreported r w true rw' h k g =
    absurd (false≢true (ap (λ x. not (x && true) && not (w && rw')) (sym (h refl)) ∙ g))
unreported true w false true h k g =
    absurd (false≢true (ap (λ x. not (x && true)) (sym (k refl)) ∙ g))
unreported false w false true h k g =
    absurd (false≢true (ap (λ x. not (x && true)) (sym (k refl)) ∙ g))

module _ {K : Type 0} (epoll_ctl : EpollOp → ℕ → Events → K → Bool × K)
    (epoll : Epoll epoll_ctl) where
  -- The triggers of READ and of WRITE one after the other, as cancelAll and idle do them, after
  -- epoll was told what is left.
  both-triggered :
      {s : IoManager K}
      → IsValid epoll_ctl epoll s
      → (op : EpollOp) (fd : ℕ) (left : Events) → (epoll_ctl op fd left s.epoll).0 ≡ true
      → listed op left ≡ wanted left
      → (reading writing : Bool) → (reading ≡ true → (s.contexts fd).events.reading ≡ true)
      → (writing ≡ true → (s.contexts fd).events.writing ≡ true)
      → drop_events reading writing (s.contexts fd).events ≡ left
      → (s1 : IoManager K) × (s2 : IoManager K) × (trigger_if reading read fd
            (record s { epoll = (epoll_ctl op fd left s.epoll).1 })
          ≡ some s1)
        × (trigger_if writing write fd s1 ≡ some s2)
        × ((s1.contexts fd).events.writing ≡ (s.contexts fd).events.writing)
        × IsValid epoll_ctl epoll s2
        × (owed s2 ≡ owed s)
        × ((s2.contexts fd).events ≡ left)
        × (s2.scheduled ≡ s.scheduled ++ woken reading writing (s.contexts fd))
  both-triggered {s} v op fd left ok l reading writing h k e =
      let c = s.contexts fd in
      let rt = epoll_ctl op fd left s.epoll in
      let one = trigger_if-Tried (with_epoll-Sound epoll_ctl epoll rt.1 v.0) reading read fd h in
      let other : (one.0.contexts fd).events.writing ≡ c.events.writing =
        ap (λ (e : Events). e.writing) one.2.events ∙ writing-same reading c.events in
      let two = trigger_if-Tried one.2.sound writing write fd (λ w. other ∙ k w) in
      let after : (two.0.contexts fd).events ≡ left =
        two.2.events
        ∙ ap (λ (e : Events). if writing then set_event write false e else e) one.2.events
        ∙ e in
      let second : (one.0.contexts fd).write_context ≡ c.write_context =
        ap (λ (d : FdContext). d.write_context) one.2.context ∙ write_context-same reading c in
      (
        one.0,
        two.0,
        one.1,
        two.1,
        other,
        (
          two.2.sound,
          Agrees-done epoll_ctl epoll s v.1 op fd left two.0 ok l (two.2.epoll ∙ one.2.epoll) after
              (λ q f. two.2.others q f ∙ one.2.others q f),
        ),
        two.2.owed_lem ∙ one.2.owed_lem,
        after,
        two.2.scheduled
            ∙ ap
                (λ (l : List (ℕ × Task)).
                  l ++ (if writing then handed (one.0.contexts fd).write_context else []))
                one.2.scheduled
            ∙ append_assoc s.scheduled (if reading then handed c.read_context else [])
                (if writing then handed (one.0.contexts fd).write_context else [])
            ∙ ap
                (λ (ec : EventContext).
                  s.scheduled
                  ++ ((if reading then handed c.read_context else [])
                      ++ (if writing then handed ec else [])))
                second,
      )

  -- In a state that keeps the invariant, with an epoll_ctl that behaves as documented, cancelAll
  -- never fails by an assertion, keeps the invariant and the sum of what is pending and what was
  -- scheduled. If an event is registered and epoll accepts, it returns true, no event of the
  -- descriptor is left, and what waited for reading and then what waited for writing were
  -- scheduled; else it returns false, no event changed and nothing was scheduled.
  pub cancel_all_lem :
      (fd : ℕ) {s : IoManager K}
      → IsValid epoll_ctl epoll s
      → let e = (s.contexts fd).events in
        (b : Bool) × (s' : IoManager K) × (cancel_all epoll_ctl fd s ≡ some (b, s'))
        × IsValid epoll_ctl epoll s'
        × (owed s' ≡ owed s)
        × (((is_none e ≡ true) ⊎ ((epoll_ctl ctl_del fd no_events s.epoll).0 ≡ false))
              × (b ≡ false)
              × (s'.contexts ≡ s.contexts)
              × (s'.scheduled ≡ s.scheduled)
            ⊎ (is_none e ≡ false)
              × ((epoll_ctl ctl_del fd no_events s.epoll).0 ≡ true)
              × (b ≡ true)
              × ((s'.contexts fd).events ≡ no_events)
              × (s'.scheduled ≡ s.scheduled ++ woken e.reading e.writing (s.contexts fd)))
  unfolding cancel_all
  cancel_all_lem fd {s} v =
      let c = s.contexts fd in
      let rt = epoll_ctl ctl_del fd no_events s.epoll in
      let told : IoManager K = record s { epoll = rt.1 } in
      elim (Bool-cases (ltb fd s.size)) [
        | inr l ↦
            let none_there : is_none c.events ≡ true =
              ap (λ (d : FdContext). is_none d.events) (v.0.beyond fd (ground (arith, l))) in
            (false, s, rw l refl, v, refl, inl (inl none_there, refl, refl, refl))
        | inl l ↦ elim (Bool-cases (is_none c.events)) [
          | inl h ↦ (false, s, rw (l, h) refl, v, refl, inl (inl h, refl, refl, refl))
          | inr h ↦ elim (Bool-cases rt.0) [
            | inr k ↦ (
              false,
              told,
              rw (l, h, k) refl,
              failed-IsValid epoll_ctl epoll v ctl_del fd no_events k,
              refl,
              inl (inr k, refl, refl, refl),
            )
            | inl k ↦
                let t =
                  both-triggered v ctl_del fd no_events k refl c.events.reading c.events.writing
                    (λ r. r) (λ w. w)
                    (drop_events-left c.events.reading c.events.writing c.events
                      ∙ none-left c.events) in
                let empty : is_none (t.1.contexts fd).events ≡ true =
                  ap (λ (e : Events). is_none e) t.7 in
                (
                  true,
                  t.1,
                  rw (l, h, k, t.2, t.4, t.3, empty) refl,
                  t.5,
                  t.6,
                  inr (h, k, refl, t.7, t.8),
                )
          ]
        ]
      ]
    where
      and_not : (b : Bool) → (b && not b) ≡ false
      and_not true = refl
      and_not false = refl

      none-left :
          (e : Events)
          → (let e' : Events = record {
            reading = e.reading && not e.reading;
            writing = e.writing && not e.writing;
          } in
              e')
            ≡ no_events
      none-left e = λ i.
          let e' : Events = record {
            reading = and_not e.reading i;
            writing = and_not e.writing i;
          } in
          e'

  -- In a state that keeps the invariant, with an epoll_ctl that behaves as documented, when every
  -- event that idle makes of a report of epoll is registered, its turn on the descriptor never
  -- fails by an assertion, keeps the invariant and the sum of what is pending and what was
  -- scheduled. If an event is reported and epoll accepts, it takes exactly the reported events away
  -- and schedules what waited for them, for reading first; else it changes no event and schedules
  -- nothing.
  pub handle_event_lem :
      (epoll_in epoll_out err_or_hup : Bool) (fd : ℕ) {s : IoManager K}
      → IsValid epoll_ctl epoll s
      → let e = (s.contexts fd).events in
        let real_read = epoll_in || (err_or_hup && e.reading) in
        let real_write = epoll_out || (err_or_hup && e.writing) in
        (real_read ≡ true → e.reading ≡ true)
        → (real_write ≡ true → e.writing ≡ true)
        → (s' : IoManager K) × (handle_event epoll_ctl epoll_in epoll_out err_or_hup fd s ≡ some s')
          × IsValid epoll_ctl epoll s'
          × (owed s' ≡ owed s)
          × (((real_read ≡ false) × (real_write ≡ false)
                  ⊎ ((epoll_rest epoll_ctl fd
                        record {
                          reading = e.reading && not real_read;
                          writing = e.writing && not real_write;
                        }
                        s.epoll).0
                      ≡ false))
                × (s'.contexts ≡ s.contexts)
                × (s'.scheduled ≡ s.scheduled)
              ⊎ ((epoll_rest epoll_ctl fd
                    record {
                      reading = e.reading && not real_read;
                      writing = e.writing && not real_write;
                    }
                    s.epoll).0
                  ≡ true)
                × ((s'.contexts fd).events ≡ record {
                  reading = e.reading && not real_read;
                  writing = e.writing && not real_write;
                })
                × (s'.scheduled ≡ s.scheduled ++ woken real_read real_write (s.contexts fd)))
  unfolding handle_event epoll_rest
  handle_event_lem epoll_in epoll_out err_or_hup fd {s} v h k =
      let c = s.contexts fd in
      let e = c.events in
      let real_read = epoll_in || (err_or_hup && e.reading) in
      let real_write = epoll_out || (err_or_hup && e.writing) in
      let left : Events = record {
        reading = e.reading && not real_read;
        writing = e.writing && not real_write;
      } in
      let op = if is_none left then ctl_del else ctl_mod in
      let rt = epoll_ctl op fd left s.epoll in
      elim (Bool-cases (not (e.reading && real_read) && not (e.writing && real_write))) [
        | inl n ↦ (
          s,
          rw n refl,
          v,
          refl,
          inl (inl (unreported e.reading e.writing real_read real_write h k n), refl, refl),
        )
        | inr n ↦ elim (Bool-cases rt.0) [
          | inr f ↦ (
            record s { epoll = rt.1 },
            rw (n, f) refl,
            failed-IsValid epoll_ctl epoll v op fd left f,
            refl,
            inl (inr f, refl, refl),
          )
          | inl f ↦
              let t =
                both-triggered v op fd left f (rest-listed epoll_ctl epoll left) real_read
                  real_write h k (drop_events-left real_read real_write e) in
              (t.1, rw (n, f, t.2) t.3, t.5, t.6, inr (f, t.7, t.8))
        ]
      ]

  -- In a state that keeps the invariant, when epoll reports reading and writing on a descriptor
  -- that is registered for reading only, as it may after a delEvent that came between the report
  -- and the lock, and epoll accepts the change, idle ends in the failed assertion of triggerEvent.
  pub handle_event-stale :
      (err_or_hup : Bool) (fd : ℕ) {s : IoManager K}
      → (s.contexts fd).events.reading ≡ true
      → (s.contexts fd).events.writing ≡ false
      → IsValid epoll_ctl epoll s
      → (epoll_ctl ctl_del fd no_events s.epoll).0 ≡ true
      → handle_event epoll_ctl true true err_or_hup fd s ≡ none
  unfolding handle_event epoll_rest trigger_if
  handle_event-stale err_or_hup fd {s} r w v ok =
      let told = with_epoll-Sound epoll_ctl epoll (epoll_ctl ctl_del fd no_events s.epoll).1 v.0 in
      let t = trigger-Triggered told read fd r in
      let gone : (t.0.contexts fd).events.writing ≡ false =
        ap (λ (c : FdContext). c.events.writing) t.2.context ∙ w in
      rw (r, w, ok, t.1) (trigger-none write fd t.0 gone)
