-- ===== src/Reactor/Connector.antt =====
-- JKYi/reactor/Connector.h, Connector.cc: the active side of a connection. `none` stands for a
-- failed JKYI_ASSERT or a null pointer, which end the process. The loop's functors are `pending`,
-- in order, and `timers` counts the calls of startInLoop that runAfter has armed. `opened`,
-- `closed` and `handed` list the sockets created, closed, and given to newConnectionCallback_. What
-- the system calls give, and when a thread calls, is chosen by the environment.
pub mod Steps
pub mod Owner
pub mod Callbacks
pub mod Reached
mod Runs
use jkyi.Base.Options.{◌>>=◌}
use jkyi.Base.{
  ℕ, ◌+◌, ◌*◌, ◌-◌, min, Bool, true, false, Option, none, some, List, [], ◌∷◌, ◌++◌, ◌==◌,
  if◌then◌else◌,
}

pub data State : Type 0 where
  disconnected connecting connected : State

pub data Job : Type 0 where
  start_job stop_job reset_job : Job

pub record Connector : Type 0 where
  pub connect_flag : Bool
  pub state : State
  pub channel : Option ℕ
  pub watched : Bool
  pub retry_delay_ms : ℕ
  pub pending : List Job
  pub timers : ℕ
  pub opened : List ℕ
  pub closed : List ℕ
  pub handed : List ℕ

abbrev pub max_retry_delay_ms : ℕ
max_retry_delay_ms = 30 * 1000

abbrev pub init_retry_delay_ms : ℕ
init_retry_delay_ms = 500

unfoldable pub create : Connector
create = record {
  connect_flag = false;
  state = disconnected;
  channel = none;
  watched = false;
  retry_delay_ms = init_retry_delay_ms;
  pending = [];
  timers = 0;
  opened = [];
  closed = [];
  handed = [];
}

pub data Errno : Type 0 where
  success einprogress eintr eisconn : Errno
  eagain eaddrinuse eaddrnotavail econnrefused enetunreach : Errno
  eacces eperm eafnosupport ealready ebadf efault enotsock : Errno
  other : Errno

abbrev pub is_disconnected : State → Bool
is_disconnected disconnected = true
is_disconnected connecting = false
is_disconnected connected = false

abbrev pub is_connecting : State → Bool
is_connecting disconnected = false
is_connecting connecting = true
is_connecting connected = false

unfoldable pub retry : ℕ → Connector → Connector
retry sockfd c =
    let c' = record c { closed = sockfd ∷ c.closed; state = disconnected } in
    if c.connect_flag
    then record c' {
      timers = c.timers + 1;
      retry_delay_ms = min c.retry_delay_ms (2 * max_retry_delay_ms);
    }
    else c'

unfoldable pub set_connecting : ℕ → Connector → Option Connector
set_connecting sockfd c = elim c.channel [
  | none ↦ some (record c { state = connecting; channel = some sockfd; watched = true })
  | some old ↦ none
]

-- The three outcomes of the `switch` in `connect`
pub data Verdict : Type 0 where
  go_on try_again give_up : Verdict

unfoldable pub verdict : Errno → Verdict
verdict success = go_on
verdict einprogress = go_on
verdict eintr = go_on
verdict eisconn = go_on
verdict eagain = try_again
verdict eaddrinuse = try_again
verdict eaddrnotavail = try_again
verdict econnrefused = try_again
verdict enetunreach = try_again
verdict _ = give_up

-- `connect`, where the new socket is `sockfd` and the call of connect(2) gives `errno`
unfoldable pub connect : ℕ → Errno → Connector → Option Connector
connect sockfd errno c =
    let c' = record c { opened = sockfd ∷ c.opened } in
    elim (verdict errno) [
      | go_on ↦ set_connecting sockfd c'
      | try_again ↦ some (retry sockfd c')
      | give_up ↦ some (record c' { closed = sockfd ∷ c.closed })
    ]

unfoldable pub start_in_loop : ℕ → Errno → Connector → Option Connector
start_in_loop sockfd errno c =
    if is_disconnected c.state
    then if c.connect_flag then connect sockfd errno c else some c
    else none

-- `start`: in the loop's own thread the functor runs at once.
unfoldable pub start : Bool → ℕ → Errno → Connector → Option Connector
start in_loop sockfd errno c =
    let c' = record c { connect_flag = true } in
    if in_loop
    then start_in_loop sockfd errno c'
    else some (record c' { pending = c.pending ++ (start_job ∷ []) })

unfoldable pub stop : Connector → Connector
stop c = record c { connect_flag = false; pending = c.pending ++ (stop_job ∷ []) }

unfoldable pub restart : ℕ → Errno → Connector → Option Connector
restart sockfd errno c =
    start_in_loop sockfd errno
      (record c { state = disconnected; retry_delay_ms = init_retry_delay_ms; connect_flag = true })

unfoldable pub remove_and_reset_channel : Connector → Option (ℕ × Connector)
remove_and_reset_channel c = elim c.channel [
  | none ↦ none
  | some sockfd ↦
      some (sockfd, record c { watched = false; pending = c.pending ++ (reset_job ∷ []) })
]

unfoldable pub stop_in_loop : Connector → Option Connector
stop_in_loop c =
    if is_connecting c.state
    then (do
      (sockfd, c') ← remove_and_reset_channel (record c { state = disconnected })
      some (retry sockfd c'))
    else some c

unfoldable pub reset_channel : Connector → Connector
reset_channel c = record c { channel = none }

-- `handleWrite`, where getSocketError gives an error or not, and isSelfConnect
unfoldable pub handle_write : Bool → Bool → Connector → Option Connector
handle_write err self_connect c =
    if is_connecting c.state
    then (do
      (sockfd, c') ← remove_and_reset_channel c
      some (
          if err
          then retry sockfd c'
          else if self_connect
          then retry sockfd c'
          else if c.connect_flag
          then record c' { state = connected; handed = sockfd ∷ c'.handed }
          else record c' { state = connected; closed = sockfd ∷ c'.closed }))
    else if is_disconnected c.state
    then some c
    else none

unfoldable pub handle_error : Connector → Option Connector
handle_error c =
    if is_connecting c.state
    then (do (sockfd, c') ← remove_and_reset_channel c; some (retry sockfd c'))
    else some c

-- The loop runs its first functor.
unfoldable pub run_first : ℕ → Errno → Connector → Option Connector
run_first sockfd errno c = elim c.pending [
  | [] ↦ some c
  | job ∷ jobs ↦
      let c' = record c { pending = jobs } in
      elim job [
        | start_job ↦ start_in_loop sockfd errno c'
        | stop_job ↦ stop_in_loop c'
        | reset_job ↦ some (reset_channel c')
      ]
]

-- `Channel::handleEventWithGuard`, which calls the error callback first
unfoldable pub handle_event : Bool → Bool → Bool → Bool → Connector → Option Connector
handle_event error writable err self_connect c = do
  c' ← (if error then handle_error c else some c)
  (if writable then handle_write err self_connect c' else some c')
