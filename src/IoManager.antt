-- ===== src/IoManager.antt =====
-- The events of IOManager: JKYi/iomanager.h and JKYi/iomanager.cc. The locks have no part, and the
-- pipe that wakes epoll_wait stands apart from the descriptors here. A failed JKYI_ASSERT and a use
-- of a null pointer are `none`.
pub mod Inv
pub mod Trigger
pub mod Operations
pub mod Both
pub mod Add
pub mod Reached
mod Runs
use jkyi.Base.Options.{◌>>=◌}
use jkyi.Base.{
  ℕ, suc, ◌+◌, ◌*◌, ◌/◌, Bool, true, false, not, ◌&&◌, ◌||◌, Option, none, some, List, [], ◌∷◌,
  ◌++◌, ltb, ◌==◌, if◌then◌else◌, map, size_sub,
}

-- READ and WRITE, and a set of them
pub data Event : Type 0 where
  read write : Event

pub record Events : Type 0 where
  pub reading : Bool
  pub writing : Bool

abbrev pub no_events : Events
no_events = record { reading = false; writing = false }

-- `events & event`, `events | event`, `events & ~event` and the test of `events`
abbrev pub has : Event → Events → Bool
has read e = e.reading
has write e = e.writing

abbrev pub set_event : Event → Bool → Events → Events
set_event read b e = record e { reading = b }
set_event write b e = record e { writing = b }

abbrev pub is_none : Events → Bool
is_none e = not e.reading && not e.writing

-- A scheduler and a fiber are known by their addresses, a callback by a number.
pub record EventContext : Type 0 where
  pub scheduler : Option ℕ
  pub fiber : Option ℕ
  pub cb : Option ℕ

pub record FdContext : Type 0 where
  pub read_context : EventContext
  pub write_context : EventContext
  pub events : Events

abbrev pub reset_context : EventContext
reset_context = record { scheduler = none; fiber = none; cb = none }

abbrev pub new_context : FdContext
new_context = record {
  read_context = reset_context;
  write_context = reset_context;
  events = no_events;
}

abbrev pub get_context : Event → FdContext → EventContext
get_context read c = c.read_context
get_context write c = c.write_context

abbrev pub set_context : Event → EventContext → FdContext → FdContext
set_context read ec c = record c { read_context = ec }
set_context write ec c = record c { write_context = ec }

-- What goes to a scheduler: `schedule(&ctx.cb)` or `schedule(&ctx.fiber)`
pub data Task : Type 0 where
  call resume : ℕ → Task

-- `triggerEvent`, up to the null scheduler: the task, if there is one, and what the context keeps
unfoldable pub to_schedule : Option ℕ → Option ℕ → List Task
to_schedule (some n) fiber = call n ∷ []
to_schedule none (some n) = resume n ∷ []
to_schedule none none = []

unfoldable pub fiber_left : Option ℕ → Option ℕ → Option ℕ
fiber_left (some n) fiber = fiber
fiber_left none fiber = none

unfoldable pub schedule_to : Option ℕ → List Task → Option (List (ℕ × Task))
schedule_to none tasks = none
schedule_to (some scheduler) tasks = some (map (λ t. (scheduler, t)) tasks)

unfoldable pub trigger_event : Event → FdContext → Option (List (ℕ × Task) × FdContext)
trigger_event event c =
    if has event c.events
    then (do
      let ec = get_context event c
      tasks ← schedule_to ec.scheduler (to_schedule ec.cb ec.fiber)
      let left : EventContext = record {
        scheduler = none;
        fiber = fiber_left ec.cb ec.fiber;
        cb = none;
      }
      some (tasks, set_context event left (record c { events = set_event event false c.events })))
    else none

pub data EpollOp : Type 0 where
  ctl_add ctl_mod ctl_del : EpollOp

pub record IoManager (K : Type 0) : Type 0 where
  pub epoll : K
  pub pending_event_count : ℕ
  pub size : ℕ
  pub contexts : ℕ → FdContext
  pub scheduled : List (ℕ × Task)

-- A vector of pointers that are never null: a context for each descriptor below `size`.
unfoldable pub put : ℕ → FdContext → (ℕ → FdContext) → ℕ → FdContext
put fd c contexts n = if n == fd then c else contexts n

-- `contextResize`: contexts are kept below both sizes, and new ones are empty.
unfoldable pub context_resize : {K : Type 0} → ℕ → IoManager K → IoManager K
context_resize n s = record s {
  size = n;
  contexts = λ fd. if ltb fd n && ltb fd s.size then s.contexts fd else new_context;
}

abbrev pub is_absent : Option ℕ → Bool
is_absent none = true
is_absent (some n) = false

unfoldable pub is_reset : EventContext → Bool
is_reset ec = is_absent ec.scheduler && is_absent ec.fiber && is_absent ec.cb

-- The fiber that waits, unless a callback was given
unfoldable pub waiting_fiber : ℕ → Option ℕ → Option ℕ
waiting_fiber this_fiber none = some this_fiber
waiting_fiber this_fiber (some n) = none

-- `triggerEvent` with the count of pending events
unfoldable pub trigger : {K : Type 0} → Event → ℕ → IoManager K → Option (IoManager K)
trigger event fd s = do
  (tasks, c) ← trigger_event event (s.contexts fd)
  some (record s {
    pending_event_count = size_sub s.pending_event_count 1;
    contexts = put fd c s.contexts;
    scheduled = s.scheduled ++ tasks;
  })

unfoldable pub trigger_if : {K : Type 0} → Bool → Event → ℕ → IoManager K → Option (IoManager K)
trigger_if b event fd s = if b then trigger event fd s else some s

-- `epoll_ctl(m_epfd, op, fd, events)` gives whether it succeeds, and what it makes of the interest
-- list.
module _ {K : Type 0} (epoll_ctl : EpollOp → ℕ → Events → K → Bool × K) where
  -- The rest of `addEvent` once the context is there. `current` is the scheduler of this thread and
  -- `this_fiber` the fiber that runs, which is in the state EXEC as the last assertion asks; true
  -- stands for 0, false for -1.
  unfoldable pub add_to_context :
      Option ℕ → ℕ → ℕ → Event → Option ℕ → IoManager K → Option (Bool × IoManager K)
  add_to_context current this_fiber fd event cb s =
      let c = s.contexts fd in
      let wanted = set_event event true c.events in
      let rt = epoll_ctl (if is_none c.events then ctl_add else ctl_mod) fd wanted s.epoll in
      let waiting : EventContext = record {
        scheduler = current;
        fiber = waiting_fiber this_fiber cb;
        cb = cb;
      } in
      if has event c.events
      then none
      else if not rt.0
      then some (false, record s { epoll = rt.1 })
      else if is_reset (get_context event c)
      then some (
        true,
        record s {
          epoll = rt.1;
          pending_event_count = s.pending_event_count + 1;
          contexts = put fd (set_context event waiting (record c { events = wanted })) s.contexts;
        },
      )
      else none

  -- The rest of `addEvent` if the descriptor was beyond the contexts when it looked. The lock is
  -- released in between, so `s` may have grown since.
  unfoldable pub add_grown :
      Option ℕ → ℕ → ℕ → Event → Option ℕ → IoManager K → Option (Bool × IoManager K)
  add_grown current this_fiber fd event cb s =
      let s' = context_resize (fd * 3 / 2) s in
      if ltb fd s'.size then add_to_context current this_fiber fd event cb s' else none

  -- `addEvent`, when no other call comes between its two locks
  unfoldable pub add_event :
      Option ℕ → ℕ → ℕ → Event → Option ℕ → IoManager K → Option (Bool × IoManager K)
  add_event current this_fiber fd event cb s =
      if ltb fd s.size
      then add_to_context current this_fiber fd event cb s
      else add_grown current this_fiber fd event cb s

  -- What is left of the events of a descriptor goes to epoll.
  unfoldable pub epoll_rest : ℕ → Events → K → Bool × K
  epoll_rest fd left k = epoll_ctl (if is_none left then ctl_del else ctl_mod) fd left k

  unfoldable pub del_event : ℕ → Event → IoManager K → Bool × IoManager K
  del_event fd event s =
      let c = s.contexts fd in
      let left = set_event event false c.events in
      let rt = epoll_rest fd left s.epoll in
      if not (ltb fd s.size)
      then (false, s)
      else if not (has event c.events)
      then (false, s)
      else if not rt.0
      then (false, record s { epoll = rt.1 })
      else (
        true,
        record s {
          epoll = rt.1;
          pending_event_count = size_sub s.pending_event_count 1;
          contexts =
              put fd (set_context event reset_context (record c { events = left })) s.contexts;
        },
      )

  unfoldable pub cancel_event : ℕ → Event → IoManager K → Option (Bool × IoManager K)
  cancel_event fd event s =
      let c = s.contexts fd in
      let rt = epoll_rest fd (set_event event false c.events) s.epoll in
      if not (ltb fd s.size)
      then some (false, s)
      else if not (has event c.events)
      then some (false, s)
      else if not rt.0
      then some (false, record s { epoll = rt.1 })
      else (do s' ← trigger event fd (record s { epoll = rt.1 }); some (true, s'))

  unfoldable pub cancel_all : ℕ → IoManager K → Option (Bool × IoManager K)
  cancel_all fd s =
      let c = s.contexts fd in
      let rt = epoll_ctl ctl_del fd no_events s.epoll in
      if not (ltb fd s.size)
      then some (false, s)
      else if is_none c.events
      then some (false, s)
      else if not rt.0
      then some (false, record s { epoll = rt.1 })
      else (do
        s1 ← trigger_if c.events.reading read fd (record s { epoll = rt.1 })
        s2 ← trigger_if (s1.contexts fd).events.writing write fd s1
        if is_none (s2.contexts fd).events then some (true, s2) else none)

  -- A turn of the loop of `idle` on an event that epoll_wait has given for `fd`: EPOLLIN, EPOLLOUT,
  -- and whether it has EPOLLERR or EPOLLHUP
  unfoldable pub handle_event : Bool → Bool → Bool → ℕ → IoManager K → Option (IoManager K)
  handle_event epoll_in epoll_out err_or_hup fd s =
      let events = (s.contexts fd).events in
      let real_read = epoll_in || (err_or_hup && events.reading) in
      let real_write = epoll_out || (err_or_hup && events.writing) in
      let left : Events = record {
        reading = events.reading && not real_read;
        writing = events.writing && not real_write;
      } in
      let rt = epoll_rest fd left s.epoll in
      if not (events.reading && real_read) && not (events.writing && real_write)
      then some s
      else if not rt.0
      then some (record s { epoll = rt.1 })
      else (do
        s1 ← trigger_if real_read read fd (record s { epoll = rt.1 })
        trigger_if real_write write fd s1)
