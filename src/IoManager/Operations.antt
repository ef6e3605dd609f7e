-- ===== src/IoManager/Operations.antt =====
-- The operations of an IOManager (JKYi/iomanager.cc) on its events.
use jkyi.Base.{
  ℕ, ◌+◌, ◌≡◌, ◌⊎◌, inl, inr, refl, sym, ap, ◌∙◌, Bool, true, false, some, ◌==◌, if◌then◌else◌,
  Bool-cases, ==_iff, size_sub, ltb,
}
use jkyi.IoManager.{
  Event, Events, has, set_event, is_none, FdContext, EpollOp, ctl_mod, ctl_del, IoManager, put,
  del_event, cancel_event, epoll_rest,
}
use jkyi.IoManager.Inv.{Epoll, listed, Sound, wanted, Agrees, put-same, put-other}
use jkyi.IoManager.Trigger.{
  cleared, cleared-Sound, cleared-events, owed, Triggered, trigger-Triggered,
}

module _ {K : Type 0} (epoll_ctl : EpollOp → ℕ → Events → K → Bool × K)
    (epoll : Epoll epoll_ctl) where
  abbrev pub IsValid : IoManager K → Type 0
  IsValid s = Sound s × Agrees epoll s

  -- The events of a descriptor that were told to epoll are those of its context after the
  -- operation.
  pub Agrees-done :
      (s : IoManager K)
      → Agrees epoll s
      → (op : EpollOp) (fd : ℕ) (e : Events) (s' : IoManager K)
      → (epoll_ctl op fd e s.epoll).0 ≡ true
      → listed op e ≡ wanted e
      → s'.epoll ≡ (epoll_ctl op fd e s.epoll).1
      → (s'.contexts fd).events ≡ e
      → ((q : ℕ) → (q == fd) ≡ false → s'.contexts q ≡ s.contexts q)
      → Agrees epoll s'
  Agrees-done s agrees op fd e s' ok l k c others q = elim (Bool-cases (q == fd)) [
    | inl f ↦
        let same : q ≡ fd = (==_iff q fd).0 f in
        let told : epoll.interest (epoll_ctl op fd e s.epoll).1 q ≡ listed op e =
          epoll.done op fd e s.epoll ok q ∙ rw f refl in
        ap (λ (k : K). epoll.interest k q) k
        ∙ told
        ∙ l
        ∙ ap (λ (e : Events). wanted e) (sym c ∙ ap (λ (n : ℕ). (s'.contexts n).events) (sym same))
    | inr f ↦
        let told : epoll.interest (epoll_ctl op fd e s.epoll).1 q ≡ epoll.interest s.epoll q =
          epoll.done op fd e s.epoll ok q ∙ rw f refl in
        ap (λ (k : K). epoll.interest k q) k
        ∙ told
        ∙ agrees q
        ∙ ap (λ (c : FdContext). wanted c.events) (sym (others q f))
  ]

  -- A call of epoll_ctl that fails leaves everything valid.
  pub failed-IsValid :
      {s : IoManager K}
      → IsValid s
      → (op : EpollOp) (fd : ℕ) (e : Events) → (epoll_ctl op fd e s.epoll).0 ≡ false
      → IsValid (record s { epoll = (epoll_ctl op fd e s.epoll).1 })
  failed-IsValid {s} v op fd e k = (
    record { good = v.0.good; beyond = v.0.beyond; count = v.0.count; large = v.0.large },
    λ q. epoll.failed op fd e s.epoll k q ∙ v.1 q,
  )

  pub rest-listed :
      (left : Events) → listed (if is_none left then ctl_del else ctl_mod) left ≡ wanted left
  rest-listed left = elim (Bool-cases (is_none left)) [ inl e ↦ rw e refl | inr e ↦ rw e refl ]

  -- delEvent keeps the invariant; if it returns true the event was registered and is not any more,
  -- its waiter is not scheduled, and if it returns false no event changed.
  pub del_event_lem :
      (fd : ℕ) (event : Event) {s : IoManager K}
      → IsValid s
      → let r = del_event epoll_ctl fd event s in
        IsValid r.1
        × (r.1.scheduled ≡ s.scheduled)
        × ((r.0 ≡ false)
              × (r.1.pending_event_count ≡ s.pending_event_count)
              × (r.1.contexts ≡ s.contexts)
            ⊎ (r.0 ≡ true)
              × (r.1.pending_event_count + 1 ≡ s.pending_event_count)
              × (has event (s.contexts fd).events ≡ true)
              × (r.1.contexts fd ≡ cleared event (s.contexts fd)))
  unfolding del_event epoll_rest
  del_event_lem fd event {s} v =
      let c = s.contexts fd in
      let left = set_event event false c.events in
      let op = if is_none left then ctl_del else ctl_mod in
      let rt = epoll_ctl op fd left s.epoll in
      elim (Bool-cases (ltb fd s.size)) [
        | inr l ↦ rw l (v, refl, inl (refl, refl, refl))
        | inl l ↦ elim (Bool-cases (has event c.events)) [
          | inr h ↦ rw (l, h) (v, refl, inl (refl, refl, refl))
          | inl h ↦ elim (Bool-cases rt.0) [
            | inr k ↦ rw (l, h, k) (failed-IsValid v op fd left k, refl, inl (refl, refl, refl))
            | inl k ↦
                let next = cleared-Sound v.0 event fd rt.1 s.scheduled h in
                let hit = put-same fd (cleared event c) s.contexts in
                let s' : IoManager K = record s {
                  epoll = rt.1;
                  pending_event_count = size_sub s.pending_event_count 1;
                  contexts = put fd (cleared event c) s.contexts;
                } in
                rw (l, h, k)
                  (
                    (
                      next.0,
                      Agrees-done s v.1 op fd left s' k (rest-listed left) refl
                          (ap (λ (d : FdContext). d.events) hit ∙ cleared-events event c)
                          (λ q e. put-other fd (cleared event c) s.contexts q e),
                    ),
                    refl,
                    inr (refl, next.1, refl, hit),
                  )
          ]
        ]
      ]

  pub with_epoll-Sound : {s : IoManager K} (k : K) → Sound s → Sound (record s { epoll = k })
  with_epoll-Sound k v = record {
    good = v.good;
    beyond = v.beyond;
    count = v.count;
    large = v.large;
  }

  -- cancelEvent never fails by an assertion and keeps the invariant; if it returns true the event
  -- was registered and its waiter is scheduled, and if it returns false no event changed.
  pub cancel_event_lem :
      (fd : ℕ) (event : Event) {s : IoManager K}
      → IsValid s
      → (b : Bool) × (s' : IoManager K) × (cancel_event epoll_ctl fd event s ≡ some (b, s'))
        × IsValid s'
        × (owed s' ≡ owed s)
        × ((b ≡ false) × (s'.contexts ≡ s.contexts) × (s'.scheduled ≡ s.scheduled)
            ⊎ (b ≡ true) × (k : K) × Triggered event fd (record s { epoll = k }) s')
  unfolding cancel_event epoll_rest
  cancel_event_lem fd event {s} v =
      let c = s.contexts fd in
      let left = set_event event false c.events in
      let op = if is_none left then ctl_del else ctl_mod in
      let rt = epoll_ctl op fd left s.epoll in
      let told : IoManager K = record s { epoll = rt.1 } in
      elim (Bool-cases (ltb fd s.size)) [
        | inr l ↦ (false, s, rw l refl, v, refl, inl (refl, refl, refl))
        | inl l ↦ elim (Bool-cases (has event c.events)) [
          | inr h ↦ (false, s, rw (l, h) refl, v, refl, inl (refl, refl, refl))
          | inl h ↦ elim (Bool-cases rt.0) [
            | inr k ↦ (
              false,
              told,
              rw (l, h, k) refl,
              failed-IsValid v op fd left k,
              refl,
              inl (refl, refl, refl),
            )
            | inl k ↦
                let t = trigger-Triggered (with_epoll-Sound rt.1 v.0) event fd h in
                (
                  true,
                  t.0,
                  rw (l, h, k, t.1) refl,
                  (
                    t.2.sound,
                    Agrees-done s v.1 op fd left t.0 k (rest-listed left) t.2.epoll
                        (ap (λ (d : FdContext). d.events) t.2.context ∙ cleared-events event c)
                        t.2.others,
                  ),
                  t.2.owed_lem,
                  inr (refl, rt.1, t.2),
                )
          ]
        ]
      ]
