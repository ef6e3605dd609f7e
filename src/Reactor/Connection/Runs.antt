-- ===== src/Reactor/Connection/Runs.antt =====
-- Runs of a connection.
use jkyi.Base.{sym, ◌≡◌, ◌++◌, refl, arith, true, false, Option, none, some, [], ◌∷◌}
use jkyi.Base.Splice.{splice}
use mathlib.Core.Bool.{false≢true}
use jkyi.Buffer.{append, has_written, ensure_writable_bytes, make_space, create}
use jkyi.Reactor.Connection.{
  TcpConnection, took, would_block, new_connection, connect_established, connect_destroyed, send,
  send_in_loop, write_directly, after_write, keep_rest, shutdown_in_loop, shutdown,
  start_read_in_loop, handle_close,
}
use jkyi.Reactor.Connection.Output.{IsSound, taken_over, send_in_loop_lem}
use jkyi.Reactor.Connection.Reached.{Reach, made, established, sent, was_shutdown, Reach-IsSound}
use jkyi.Reactor.Connection.Flush.{flush, Done, flush_lem, start_read-connect_destroyed}

-- A connection with a write-complete callback is up, sends three bytes of which the system takes
-- one, and is then shut down.
abbrev c0 : TcpConnection
c0 = new_connection true false 100

abbrev or_new : Option TcpConnection → TcpConnection
or_new none = c0
or_new (some c) = c

abbrev c1 : TcpConnection
c1 = or_new (connect_established c0)

abbrev c2 : TcpConnection
c2 = or_new (send true (1 ∷ 2 ∷ 3 ∷ []) (took 1) c1)

abbrev c3 : TcpConnection
c3 = shutdown true c2

abbrev c4 : TcpConnection
c4 = or_new (handle_close c3)

reach1 : Reach [] c1
unfolding connect_established
reach1 = established c1 (made true false 100) refl

reach3 : Reach (1 ∷ 2 ∷ 3 ∷ []) c3
unfolding connect_established send send_in_loop write_directly splice after_write keep_rest append
    has_written ensure_writable_bytes make_space create
reach3 = was_shutdown true (sent (1 ∷ 2 ∷ 3 ∷ []) (took 1) c2 (omega arith) reach1 refl)

Reach-IsSound_example : IsSound (1 ∷ 2 ∷ 3 ∷ []) c3
Reach-IsSound_example = Reach-IsSound reach3

send_in_loop_lem_example :
    (c' : TcpConnection) × (send_in_loop (4 ∷ 5 ∷ []) would_block c3 ≡ some c')
    × IsSound ((1 ∷ 2 ∷ 3 ∷ []) ++ taken_over (4 ∷ 5 ∷ []) would_block c3) c'
send_in_loop_lem_example = send_in_loop_lem (4 ∷ 5 ∷ []) would_block c3 tt (Reach-IsSound reach3)

flush_lem_example :
    (c' : TcpConnection) × (flush (0 ∷ 7 ∷ []) c3 ≡ some c') × Done (1 ∷ 2 ∷ 3 ∷ []) c3.state c'
unfolding connect_established send send_in_loop write_directly splice after_write keep_rest append
    has_written ensure_writable_bytes make_space create shutdown shutdown_in_loop
flush_lem_example =
    flush_lem (0 ∷ 7 ∷ []) c3 (Reach-IsSound reach3) refl (omega arith)
      (λ h r. absurd (false≢true (sym r)))

start_read-connect_destroyed_example : connect_destroyed (start_read_in_loop c4) ≡ none
unfolding connect_established send send_in_loop write_directly splice after_write keep_rest append
    has_written ensure_writable_bytes make_space create shutdown shutdown_in_loop handle_close
start_read-connect_destroyed_example = start_read-connect_destroyed c4 refl refl
