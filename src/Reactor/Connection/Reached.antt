-- ===== src/Reactor/Connection/Reached.antt =====
-- Any run of a connection (JKYi/reactor/TcpConnection.cc): calls of its methods from the loop and
-- from other threads, functors of the loop, and events of its channel.
use jkyi.Base.{
  ℕ, ◌≡◌, refl, sym, ap, Bool, true, false, not, Option, some, List, [], ◌∷◌, ◌++◌, length,
}
use jkyi.Buffer.{readable_bytes, initial_size}
use jkyi.Buffer.Space.{create-IsValid, readable-create}
use jkyi.Reactor.Connection.{
  Functor, TcpConnection, Wrote, send, shutdown, force_close, handle_close, start_read, stop_read,
  connect_established, connect_destroyed, handle_read, handle_write, run_functor, new_connection,
}
use jkyi.Reactor.Connection.Output.{IsSound, Possible}
use jkyi.Reactor.Connection.Writes.{handle_write_lem}
use jkyi.Reactor.Connection.Steps.{
  sent_by, run_by, RunPossible, kept, gives, same, shutdown-IsSound, force_close-IsSound,
  start_read-IsSound, stop_read-IsSound, handle_close-Kept, connect_established-Kept,
  connect_destroyed-Kept, handle_read-Kept, send-Kept, posted-Kept, run-Kept, empty-create,
}

-- The states that any run leads to, with all bytes that were taken over to send
pub data Reach : List ℕ → TcpConnection → Type 0 where
  made : (a b : Bool) (mark : ℕ) → Reach [] (new_connection a b mark)
  established :
      {a : List ℕ} {c : TcpConnection} (c' : TcpConnection)
      → Reach a c
      → connect_established c ≡ some c'
      → Reach a c'
  sent :
      {a : List ℕ} {c : TcpConnection} (bytes : List ℕ) (w : Wrote) (c' : TcpConnection)
      → Possible (length bytes) w
      → Reach a c
      → send true bytes w c ≡ some c'
      → Reach (a ++ sent_by bytes w c) c'
  posted :
      {a : List ℕ} {c : TcpConnection} (bytes : List ℕ) (w : Wrote) (c' : TcpConnection)
      → Reach a c
      → send false bytes w c ≡ some c'
      → Reach a c'
  ran :
      {a : List ℕ} {c : TcpConnection} (f : Functor) (rest : List Functor) (w : Wrote)
      (c' : TcpConnection)
      → c.queued ≡ f ∷ rest
      → RunPossible f w
      → Reach a c
      → run_functor f w (record c { queued = rest }) ≡ some c'
      → Reach (a ++ run_by f w (record c { queued = rest })) c'
  was_shutdown :
      {a : List ℕ} {c : TcpConnection} (in_loop : Bool) → Reach a c → Reach a (shutdown in_loop c)
  forced : {a : List ℕ} {c : TcpConnection} → Reach a c → Reach a (force_close c)
  started :
      {a : List ℕ} {c : TcpConnection} (in_loop : Bool) → Reach a c → Reach a (start_read in_loop c)
  stopped :
      {a : List ℕ} {c : TcpConnection} (in_loop : Bool) → Reach a c → Reach a (stop_read in_loop c)
  was_read :
      {a : List ℕ} {c : TcpConnection} (got : Option (List ℕ)) (c' : TcpConnection)
      → Reach a c
      → handle_read got c ≡ some c'
      → Reach a c'
  wrote :
      {a : List ℕ} {c : TcpConnection} (w : Wrote) (c' : TcpConnection)
      → Possible (readable_bytes c.output_buffer) w
      → Reach a c
      → handle_write w c ≡ some c'
      → Reach a c'
  hung_up :
      {a : List ℕ} {c : TcpConnection} (c' : TcpConnection)
      → Reach a c
      → handle_close c ≡ some c'
      → Reach a c'
  destroyed :
      {a : List ℕ} {c : TcpConnection} (c' : TcpConnection)
      → Reach a c
      → connect_destroyed c ≡ some c'
      → Reach a c'

-- In every run of a connection whose `write` takes at most the bytes it is given, what the system
-- took followed by what waits in the output buffer is what was taken over to send, in order, with
-- nothing lost or sent twice; the channel is watched for writing, while the connection is not
-- closed, exactly if something waits, and not at all once it is closed; and both buffers keep their
-- invariant.
pub Reach-IsSound : {a : List ℕ} {c : TcpConnection} → Reach a c → IsSound a c
Reach-IsSound (made x y mark) = record {
  output = create-IsValid initial_size;
  input = create-IsValid initial_size;
  order = readable-create initial_size;
  writing = λ h. sym (ap not empty-create);
  quiet = λ h. refl;
}
Reach-IsSound (established {a} {c} c' r e) =
    kept (connect_established c) (connect_established-Kept c (Reach-IsSound r)) e
Reach-IsSound (sent {a} {c} bytes w c' p r e) =
    kept (send true bytes w c) (send-Kept bytes w c p (Reach-IsSound r)) e
Reach-IsSound (posted {a} {c} bytes w c' r e) =
    kept (send false bytes w c) (posted-Kept bytes w c (Reach-IsSound r)) e
Reach-IsSound (ran {a} {c} f rest w c' q p r e) =
    let c1 : TcpConnection = record c { queued = rest } in
    kept (run_functor f w c1)
      (run-Kept f w c1 p (same c1 (Reach-IsSound r) refl refl refl refl refl)) e
Reach-IsSound (was_shutdown {a} {c} in_loop r) = shutdown-IsSound in_loop c (Reach-IsSound r)
Reach-IsSound (forced {a} {c} r) = force_close-IsSound c (Reach-IsSound r)
Reach-IsSound (started {a} {c} in_loop r) = start_read-IsSound in_loop c (Reach-IsSound r)
Reach-IsSound (stopped {a} {c} in_loop r) = stop_read-IsSound in_loop c (Reach-IsSound r)
Reach-IsSound (was_read {a} {c} got c' r e) =
    kept (handle_read got c) (handle_read-Kept got c (Reach-IsSound r)) e
Reach-IsSound (wrote {a} {c} w c' p r e) =
    kept (handle_write w c) (gives (handle_write w c) (handle_write_lem w c p (Reach-IsSound r))) e
Reach-IsSound (hung_up {a} {c} c' r e) =
    kept (handle_close c) (handle_close-Kept c (Reach-IsSound r)) e
Reach-IsSound (destroyed {a} {c} c' r e) =
    kept (connect_destroyed c) (connect_destroyed-Kept c (Reach-IsSound r)) e
