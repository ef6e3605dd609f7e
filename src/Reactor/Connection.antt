-- ===== src/Reactor/Connection.antt =====
-- JKYi/reactor/TcpConnection.h and JKYi/reactor/TcpConnection.cc: a connection, its buffers and its
-- channel. A failed JKYI_ASSERT is `none`. What `write` and `readv` give is an argument; what the
-- callbacks of the user call comes as further steps.
pub mod Output
pub mod Writes
pub mod Steps
pub mod Reached
pub mod Flush
mod Runs
use jkyi.Base.Options.{◌>>=◌}
use jkyi.Base.{
  ℕ, zero, suc, ◌+◌, ◌-◌, ◌*◌, Bool, true, false, not, ◌&&◌, ◌||◌, Option, none, some, List, [],
  ◌∷◌, ◌++◌, ltb, leb, ◌==◌, if◌then◌else◌, length, take, drop, size_sub,
}
use jkyi.Buffer.{Buffer, readable, readable_bytes, append, retrieve, read_fd, create, initial_size}

pub data ConnState : Type 0 where
  disconnected connecting connected disconnecting : ConnState

abbrev pub is_disconnected : ConnState → Bool
is_disconnected disconnected = true
is_disconnected _ = false

abbrev pub is_connecting : ConnState → Bool
is_connecting connecting = true
is_connecting _ = false

abbrev pub is_connected : ConnState → Bool
is_connected connected = true
is_connected _ = false

abbrev pub is_disconnecting : ConnState → Bool
is_disconnecting disconnecting = true
is_disconnecting _ = false

-- What waits in the loop: parts of this class, and callbacks of the user
pub data Functor : Type 0 where
  send_functor : List ℕ → Functor
  shutdown_functor force_close_functor write_complete : Functor
  high_water : ℕ → Functor
  start_read_functor stop_read_functor : Functor

-- The calls of the user's callbacks: of the connection callback, up or down, of the message
-- callback, and of the close callback
pub data Told : Type 0 where
  up down message closed : Told

-- `written` is what the system took to send, `shut` whether the write side was shut down.
pub record TcpConnection : Type 0 where
  pub state : ConnState
  pub reading : Bool
  pub is_reading : Bool
  pub is_writing : Bool
  pub output_buffer : Buffer
  pub input_buffer : Buffer
  pub high_water_mark : ℕ
  pub has_write_complete : Bool
  pub has_high_water : Bool
  pub queued : List Functor
  pub told : List Told
  pub written : List ℕ
  pub shut : Bool

-- What `write` gives: how many bytes it took, or an error by its errno
pub data Wrote : Type 0 where
  took : ℕ → Wrote
  would_block broken other_error : Wrote

abbrev pub queue_if : Bool → Functor → TcpConnection → TcpConnection
queue_if b f c = record c { queued = if b then c.queued ++ (f ∷ []) else c.queued }

-- The first part of `sendInLoop`: nwrote, faultError, and the connection
unfoldable pub write_directly : List ℕ → Wrote → TcpConnection → ℕ × Bool × TcpConnection
write_directly bytes (took n) c = (
  n,
  false,
  queue_if (size_sub (length bytes) n == 0 && c.has_write_complete) write_complete
      (record c { written = c.written ++ take n bytes }),
)
write_directly bytes would_block c = (0, false, c)
write_directly bytes broken c = (0, true, c)
write_directly bytes other_error c = (0, false, c)

-- Its second part, with what is left
unfoldable pub keep_rest : List ℕ → ℕ → TcpConnection → Option TcpConnection
keep_rest bytes nwrote c =
    let old_len = readable_bytes c.output_buffer in
    let remaining = size_sub (length bytes) nwrote in
    append (drop nwrote bytes) c.output_buffer >>= λ output. some (
      queue_if
        (leb c.high_water_mark (old_len + remaining)
          && ltb old_len c.high_water_mark
          && c.has_high_water)
        (high_water (old_len + remaining)) (record c { output_buffer = output; is_writing = true }))

unfoldable pub after_write : List ℕ → ℕ × Bool × TcpConnection → Option TcpConnection
after_write bytes (nwrote, fault_error, c) =
    let remaining = size_sub (length bytes) nwrote in
    if not (leb remaining (length bytes))
    then none
    else if not fault_error && ltb 0 remaining
    then keep_rest bytes nwrote c
    else some c

abbrev pub may_write : TcpConnection → Bool
may_write c = not c.is_writing && readable_bytes c.output_buffer == 0

unfoldable pub send_in_loop : List ℕ → Wrote → TcpConnection → Option TcpConnection
send_in_loop bytes w c =
    if is_disconnected c.state
    then some c
    else after_write bytes (if may_write c then write_directly bytes w c else (0, false, c))

unfoldable pub send : Bool → List ℕ → Wrote → TcpConnection → Option TcpConnection
send in_loop bytes w c =
    if is_connected c.state
    then (if in_loop then send_in_loop bytes w c else some (queue_if true (send_functor bytes) c))
    else some c

unfoldable pub shutdown_in_loop : TcpConnection → TcpConnection
shutdown_in_loop c = if c.is_writing then c else record c { shut = true }

unfoldable pub shutdown : Bool → TcpConnection → TcpConnection
shutdown in_loop c =
    if is_connected c.state
    then (let c' = record c { state = disconnecting } in
        if in_loop then shutdown_in_loop c' else queue_if true shutdown_functor c')
    else c

abbrev pub is_open : ConnState → Bool
is_open s = is_connected s || is_disconnecting s

unfoldable pub force_close : TcpConnection → TcpConnection
force_close c =
    if is_open c.state
    then queue_if true force_close_functor (record c { state = disconnecting })
    else c

unfoldable pub handle_close : TcpConnection → Option TcpConnection
handle_close c =
    if is_open c.state
    then some (record c {
      state = disconnected;
      is_reading = false;
      is_writing = false;
      told = c.told ++ (down ∷ closed ∷ []);
    })
    else none

unfoldable pub force_close_in_loop : TcpConnection → Option TcpConnection
force_close_in_loop c = if is_open c.state then handle_close c else some c

unfoldable pub start_read_in_loop : TcpConnection → TcpConnection
start_read_in_loop c =
    if not c.reading || not c.is_reading then record c { reading = true; is_reading = true } else c

unfoldable pub stop_read_in_loop : TcpConnection → TcpConnection
stop_read_in_loop c =
    if c.reading || c.is_reading then record c { reading = false; is_reading = false } else c

unfoldable pub start_read : Bool → TcpConnection → TcpConnection
start_read in_loop c = if in_loop then start_read_in_loop c else queue_if true start_read_functor c

unfoldable pub stop_read : Bool → TcpConnection → TcpConnection
stop_read in_loop c = if in_loop then stop_read_in_loop c else queue_if true stop_read_functor c

unfoldable pub connect_established : TcpConnection → Option TcpConnection
connect_established c =
    if is_connecting c.state
    then some (record c { state = connected; is_reading = true; told = c.told ++ (up ∷ []) })
    else none

-- `Channel::remove`, its assertion: what the loop's poller holds is not part of this state
unfoldable pub remove : TcpConnection → Option TcpConnection
remove c = if c.is_reading || c.is_writing then none else some c

unfoldable pub connect_destroyed : TcpConnection → Option TcpConnection
connect_destroyed c = remove (
    if is_connected c.state
    then record c {
      state = disconnected;
      is_reading = false;
      is_writing = false;
      told = c.told ++ (down ∷ []);
    }
    else c)

-- `handleRead` with what `readv` gives (`none`: an error, which is only logged)
unfoldable pub handle_read : Option (List ℕ) → TcpConnection → Option TcpConnection
handle_read none c = some c
handle_read (some []) c = handle_close c
handle_read (some (byte ∷ bytes)) c = read_fd (some (byte ∷ bytes)) c.input_buffer >>= λ input.
    some (record c { input_buffer = input; told = c.told ++ (message ∷ []) })

-- `handleWrite`
unfoldable pub emptied : TcpConnection → TcpConnection
emptied c =
    let c' = queue_if c.has_write_complete write_complete (record c { is_writing = false }) in
    if is_disconnecting c.state then shutdown_in_loop c' else c'

unfoldable pub write_output : ℕ → TcpConnection → Option TcpConnection
write_output n c = retrieve n c.output_buffer >>= λ output.
    let c' = record c {
      output_buffer = output;
      written = c.written ++ take n (readable c.output_buffer);
    } in
    some (if readable_bytes output == 0 then emptied c' else c')

abbrev pub handle_wrote : Wrote → TcpConnection → Option TcpConnection
handle_wrote (took zero) c = some c
handle_wrote (took (suc n)) c = write_output (suc n) c
handle_wrote _ c = some c

unfoldable pub handle_write : Wrote → TcpConnection → Option TcpConnection
handle_write w c = if c.is_writing then handle_wrote w c else some c

-- A functor that the loop takes out of its queue. The callbacks of the user are only counted.
unfoldable pub run_functor : Functor → Wrote → TcpConnection → Option TcpConnection
run_functor (send_functor bytes) w c = send_in_loop bytes w c
run_functor shutdown_functor w c = some (shutdown_in_loop c)
run_functor force_close_functor w c = force_close_in_loop c
run_functor start_read_functor w c = some (start_read_in_loop c)
run_functor stop_read_functor w c = some (stop_read_in_loop c)
run_functor write_complete w c = some c
run_functor (high_water n) w c = some c

-- The constructor: no buffer holds anything and the channel is not in the loop
abbrev pub new_connection : Bool → Bool → ℕ → TcpConnection
new_connection has_write_complete has_high_water high_water_mark = record {
  state = connecting;
  reading = true;
  is_reading = false;
  is_writing = false;
  output_buffer = create initial_size;
  input_buffer = create initial_size;
  high_water_mark = high_water_mark;
  has_write_complete = has_write_complete;
  has_high_water = has_high_water;
  queued = [];
  told = [];
  written = [];
  shut = false;
}
