-- ===== src/IoManager/Runs.antt =====
-- Runs of an IOManager on an interest list that is a function.
use jkyi.Base.{
  ℕ, ◌+◌, ◌≡◌, ◌⊎◌, inl, inr, refl, sym, ◌∙◌, Bool, true, false, ◌&&◌, Option, none, some, [], ◌∷◌,
  ◌++◌, ◌==◌, if◌then◌else◌, Bool-cases,
}
use mathlib.Core.Bool.{false≢true}
use jkyi.IoManager.{
  read, write, Events, no_events, call, resume, EpollOp, ctl_add, ctl_mod, ctl_del, IoManager, put,
  is_reset, waiting_fiber, context_resize, add_to_context, add_event, cancel_all, handle_event,
  epoll_rest, is_none, add_grown, trigger, trigger_if, trigger_event, to_schedule, fiber_left,
  schedule_to,
}
use jkyi.IoManager.Inv.{Epoll, listed}
use jkyi.IoManager.Trigger.{owed}
use jkyi.IoManager.Operations.{IsValid}
use jkyi.IoManager.Both.{woken, cancel_all_lem, handle_event_lem, handle_event-stale}
use jkyi.IoManager.Add.{Outcome, add_event_lem}
use jkyi.IoManager.Reached.{create, Reach, created, added, Reach-IsValid}

abbrev Interest : Type 0
Interest = ℕ → Option Events

-- ADD is for a descriptor that is not in the list, MOD and DEL for one that is.
abbrev fits : EpollOp → Option Events → Bool
fits ctl_add none = true
fits ctl_add (some e) = false
fits ctl_mod none = false
fits ctl_mod (some e) = true
fits ctl_del none = false
fits ctl_del (some e) = true

abbrev ctl : EpollOp → ℕ → Events → Interest → Bool × Interest
ctl op fd e k =
    if fits op (k fd) then (true, λ q. if q == fd then listed op e else k q) else (false, k)

abbrev ctl-Epoll : Epoll ctl
ctl-Epoll = record {
  interest = λ k fd. k fd;
  done = λ op fd e k h q. elim (Bool-cases (fits op (k fd))) [
    | inl f ↦ rw f refl
    | inr f ↦ absurd (false≢true (sym (rw f refl) ∙ h))
  ];
  failed = λ op fd e k h q. elim (Bool-cases (fits op (k fd))) [
    | inl f ↦ absurd (false≢true (sym h ∙ rw f refl))
    | inr f ↦ rw f refl
  ];
}

abbrev initial : IoManager Interest
initial = create (λ fd. none)

abbrev state_of : Option (Bool × IoManager Interest) → IoManager Interest
state_of none = initial
state_of (some (b, s)) = s

-- Fiber 7 waits for READ on descriptor 5, and callback 8 for WRITE.
abbrev one : IoManager Interest
one = state_of (add_event ctl (some 1) 7 5 read none initial)

abbrev two : IoManager Interest
two = state_of (add_event ctl (some 1) 7 5 write (some 8) one)

one-Reach : Reach ctl ctl-Epoll 1 0 one
unfolding add_event add_to_context put is_reset waiting_fiber
one-Reach = added 1 7 5 read none true one (created (λ fd. none) (λ fd. refl)) refl

two-Reach : Reach ctl ctl-Epoll 2 0 two
unfolding add_event add_to_context put is_reset waiting_fiber
two-Reach = added 1 7 5 write (some 8) true two one-Reach refl

both_woken : (state_of (cancel_all ctl 5 two)).scheduled ≡ (1, resume 7) ∷ (1, call 8) ∷ []
unfolding add_event add_to_context put is_reset waiting_fiber cancel_all trigger_if trigger
    trigger_event to_schedule fiber_left schedule_to
both_woken = refl

Reach-IsValid_example : IsValid ctl ctl-Epoll two × (2 ≡ 0 + owed two)
Reach-IsValid_example = Reach-IsValid ctl ctl-Epoll two-Reach

one-IsValid : IsValid ctl ctl-Epoll one
one-IsValid = (Reach-IsValid ctl ctl-Epoll one-Reach).0

two-IsValid : IsValid ctl ctl-Epoll two
two-IsValid = (Reach-IsValid ctl ctl-Epoll two-Reach).0

-- Descriptor 40 is beyond the first 32, so there are 60 contexts after it.
grown : (state_of (add_event ctl (some 1) 7 40 read none two)).size ≡ 60
unfolding add_event add_grown add_to_context put is_reset waiting_fiber context_resize
grown = refl

add_event_lem_example :
    Outcome ctl ctl-Epoll 1 9 40 read none two two.contexts
      (add_event ctl (some 1) 9 40 read none two)
add_event_lem_example = add_event_lem ctl ctl-Epoll 1 9 40 read none two-IsValid

cancel_all_lem_example :
    let e = (two.contexts 5).events in
    (b : Bool) × (s' : IoManager Interest) × (cancel_all ctl 5 two ≡ some (b, s'))
    × IsValid ctl ctl-Epoll s'
    × (owed s' ≡ owed two)
    × (((is_none e ≡ true) ⊎ ((ctl ctl_del 5 no_events two.epoll).0 ≡ false))
          × (b ≡ false)
          × (s'.contexts ≡ two.contexts)
          × (s'.scheduled ≡ two.scheduled)
        ⊎ (is_none e ≡ false)
          × ((ctl ctl_del 5 no_events two.epoll).0 ≡ true)
          × (b ≡ true)
          × ((s'.contexts 5).events ≡ no_events)
          × (s'.scheduled ≡ two.scheduled ++ woken e.reading e.writing (two.contexts 5)))
cancel_all_lem_example = cancel_all_lem ctl ctl-Epoll 5 two-IsValid

both-there : ((two.contexts 5).events.reading ≡ true) × ((two.contexts 5).events.writing ≡ true)
unfolding add_event add_to_context put is_reset waiting_fiber
both-there = (refl, refl)

handle_event_lem_example :
    let e = (two.contexts 5).events in
    let left : Events = record { reading = e.reading && false; writing = e.writing && true } in
    (s' : IoManager Interest) × (handle_event ctl true false false 5 two ≡ some s')
    × IsValid ctl ctl-Epoll s'
    × (owed s' ≡ owed two)
    × (((true ≡ false) × (false ≡ false) ⊎ ((epoll_rest ctl 5 left two.epoll).0 ≡ false))
          × (s'.contexts ≡ two.contexts)
          × (s'.scheduled ≡ two.scheduled)
        ⊎ ((epoll_rest ctl 5 left two.epoll).0 ≡ true)
          × ((s'.contexts 5).events ≡ left)
          × (s'.scheduled ≡ two.scheduled ++ woken true false (two.contexts 5)))
handle_event_lem_example =
    handle_event_lem ctl ctl-Epoll true false false 5 two-IsValid (λ r. both-there.0)
      (λ w. both-there.1)

one-reading : ((one.contexts 5).events.reading ≡ true) × ((one.contexts 5).events.writing ≡ false)
unfolding add_event add_to_context put is_reset waiting_fiber
one-reading = (refl, refl)

one-deletes : (ctl ctl_del 5 no_events one.epoll).0 ≡ true
unfolding add_event add_to_context put is_reset waiting_fiber
one-deletes = refl

handle_event-stale_example : handle_event ctl true true false 5 one ≡ none
handle_event-stale_example =
    handle_event-stale ctl ctl-Epoll false 5 one-reading.0 one-reading.1 one-IsValid one-deletes
