-- ===== src/Reactor/Connection/Steps.antt =====
-- What each step of a connection (JKYi/reactor/TcpConnection.cc) keeps.
use jkyi.Base.{
  ℕ, ◌≡◌, inl, inr, refl, sym, ap, ◌∙◌, Bool, true, false, not, ◌||◌, Option, none, some, List, [],
  ◌∷◌, ◌++◌, ◌==◌, if◌then◌else◌, length, Bool-cases, append-nil,
}
use jkyi.Buffer.{Buffer, readable, readable_bytes, create, initial_size}
use jkyi.Buffer.Views
use jkyi.Buffer.Views.{length-readable}
use jkyi.Buffer.Space.{read_fd_lem}
use jkyi.Reactor.Connection.{
  ConnState, disconnected, connecting, connected, disconnecting, is_disconnected, is_connecting,
  is_connected, is_open, Functor, send_functor, shutdown_functor, force_close_functor,
  write_complete, high_water, start_read_functor, stop_read_functor, Told, up, down, closed,
  TcpConnection, Wrote, queue_if, send_in_loop, send, shutdown_in_loop, shutdown, force_close,
  handle_close, force_close_in_loop, start_read_in_loop, start_read, stop_read, stop_read_in_loop,
  connect_established, remove, connect_destroyed, handle_read, run_functor,
}
use jkyi.Reactor.Connection.Output.{IsSound, Possible, taken_over, send_in_loop_lem}
use mathlib.Core.Path.{subst}
use mathlib.Core.Bool.{false≢true}

-- What a call of `send` and a functor take over
abbrev pub sent_by : List ℕ → Wrote → TcpConnection → List ℕ
sent_by bytes w c = let t = taken_over bytes w c in if is_connected c.state then t else []

abbrev pub run_by : Functor → Wrote → TcpConnection → List ℕ
run_by (send_functor bytes) w c = taken_over bytes w c
run_by _ w c = []

abbrev pub RunPossible : Functor → Wrote → Type 0
RunPossible (send_functor bytes) w = Possible (length bytes) w
RunPossible _ w = Unit

abbrev pub Kept : List ℕ → Option TcpConnection → Type 0
Kept a none = Unit
Kept a (some c) = IsSound a c

pub kept :
    {a : List ℕ} {c' : TcpConnection} (o : Option TcpConnection)
    → Kept a o
    → o ≡ some c'
    → IsSound a c'
kept {a} o k e = subst (Kept a) e k

pub gives :
    {a : List ℕ} (o : Option TcpConnection)
    → (c' : TcpConnection) × (o ≡ some c') × IsSound a c'
    → Kept a o
gives {a} o (c', e, v) = subst (Kept a) (sym e) v

-- A change of neither buffer and not of what is watched for writing
pub same :
    {a : List ℕ} {c : TcpConnection} (c' : TcpConnection)
    → IsSound a c
    → c'.output_buffer ≡ c.output_buffer
    → c'.input_buffer ≡ c.input_buffer
    → c'.written ≡ c.written
    → c'.is_writing ≡ c.is_writing
    → is_disconnected c'.state ≡ is_disconnected c.state
    → IsSound a c'
same {a} {c} c' v o i w b st = record {
  output = subst Views.IsValid (sym o) v.output;
  input = subst Views.IsValid (sym i) v.input;
  order =
      ap (λ (xs : List ℕ). xs ++ readable c'.output_buffer) w
      ∙ ap (λ (x : Buffer). c.written ++ readable x) o
      ∙ v.order;
  writing =
      λ h. b ∙ v.writing (sym st ∙ h) ∙ ap (λ (x : Buffer). not (readable_bytes x == 0)) (sym o);
  quiet = λ h. b ∙ v.quiet (sym st ∙ h);
}

nothing_more : {a : List ℕ} {c : TcpConnection} → IsSound a c → IsSound (a ++ []) c
nothing_more {a} {c} v = subst (λ (x : List ℕ). IsSound x c) (sym (append-nil a)) v

either :
    {a : List ℕ} {c d : TcpConnection} (b : Bool)
    → (b ≡ true → IsSound a c)
    → (b ≡ false → IsSound a d)
    → IsSound a (if b then c else d)
either true f g = f refl
either false f g = g refl

either-Kept :
    (a : List ℕ) (o p : Option TcpConnection) (b : Bool)
    → (b ≡ true → Kept a o)
    → (b ≡ false → Kept a p)
    → Kept a (if b then o else p)
either-Kept a o p true f g = f refl
either-Kept a o p false f g = g refl

opened : (s : ConnState) → is_open s ≡ true → is_disconnected s ≡ false
opened disconnected h = absurd (false≢true h)
opened connecting h = refl
opened connected h = refl
opened disconnecting h = refl

connected-opened : (s : ConnState) → is_connected s ≡ true → is_disconnected s ≡ false
connected-opened disconnected h = absurd (false≢true h)
connected-opened connecting h = refl
connected-opened connected h = refl
connected-opened disconnecting h = refl

connecting-opened : (s : ConnState) → is_connecting s ≡ true → is_disconnected s ≡ false
connecting-opened disconnected h = absurd (false≢true h)
connecting-opened connecting h = refl
connecting-opened connected h = refl
connecting-opened disconnecting h = refl

shutdown_in_loop-IsSound :
    {a : List ℕ} (c : TcpConnection) → IsSound a c → IsSound a (shutdown_in_loop c)
unfolding shutdown_in_loop
shutdown_in_loop-IsSound c v =
    either c.is_writing (λ h. v) (λ h. same (record c { shut = true }) v refl refl refl refl refl)

pub shutdown-IsSound :
    {a : List ℕ} (in_loop : Bool) (c : TcpConnection) → IsSound a c → IsSound a (shutdown in_loop c)
unfolding shutdown
shutdown-IsSound {a} in_loop c v =
    let c' : TcpConnection = record c { state = disconnecting } in
    either (is_connected c.state)
      (λ h.
        let v' : IsSound a c' = same c' v refl refl refl refl (sym (connected-opened c.state h)) in
        either in_loop (λ k. shutdown_in_loop-IsSound c' v')
          (λ k. same (queue_if true shutdown_functor c') v' refl refl refl refl refl))
      (λ h. v)

pub force_close-IsSound : {a : List ℕ} (c : TcpConnection) → IsSound a c → IsSound a (force_close c)
unfolding force_close
force_close-IsSound c v =
    either (is_open c.state)
      (λ h.
        same (queue_if true force_close_functor (record c { state = disconnecting })) v refl refl
          refl refl (sym (opened c.state h)))
      (λ h. v)

start_read_in_loop-IsSound :
    {a : List ℕ} (c : TcpConnection) → IsSound a c → IsSound a (start_read_in_loop c)
unfolding start_read_in_loop
start_read_in_loop-IsSound c v =
    either (not c.reading || not c.is_reading)
      (λ h. same (record c { reading = true; is_reading = true }) v refl refl refl refl refl)
      (λ h. v)

stop_read_in_loop-IsSound :
    {a : List ℕ} (c : TcpConnection) → IsSound a c → IsSound a (stop_read_in_loop c)
unfolding stop_read_in_loop
stop_read_in_loop-IsSound c v =
    either (c.reading || c.is_reading)
      (λ h. same (record c { reading = false; is_reading = false }) v refl refl refl refl refl)
      (λ h. v)

pub start_read-IsSound :
    {a : List ℕ} (in_loop : Bool) (c : TcpConnection)
    → IsSound a c
    → IsSound a (start_read in_loop c)
unfolding start_read
start_read-IsSound in_loop c v =
    either in_loop (λ h. start_read_in_loop-IsSound c v)
      (λ h. same (queue_if true start_read_functor c) v refl refl refl refl refl)

pub stop_read-IsSound :
    {a : List ℕ} (in_loop : Bool) (c : TcpConnection)
    → IsSound a c
    → IsSound a (stop_read in_loop c)
unfolding stop_read
stop_read-IsSound in_loop c v =
    either in_loop (λ h. stop_read_in_loop-IsSound c v)
      (λ h. same (queue_if true stop_read_functor c) v refl refl refl refl refl)

closed-IsSound :
    {a : List ℕ} (c : TcpConnection) (told : List Told)
    → IsSound a c
    → IsSound a
        (record c { state = disconnected; is_reading = false; is_writing = false; told = told })
closed-IsSound c told v = record {
  output = v.output;
  input = v.input;
  order = v.order;
  writing = λ h. absurd (false≢true (sym h));
  quiet = λ h. refl;
}

pub handle_close-Kept : {a : List ℕ} (c : TcpConnection) → IsSound a c → Kept a (handle_close c)
unfolding handle_close
handle_close-Kept c v =
    either-Kept _ _ _ (is_open c.state) (λ h. closed-IsSound c (c.told ++ (down ∷ closed ∷ [])) v)
      (λ h. tt)

force_close_in_loop-Kept :
    {a : List ℕ} (c : TcpConnection) → IsSound a c → Kept a (force_close_in_loop c)
unfolding force_close_in_loop
force_close_in_loop-Kept c v =
    either-Kept _ _ _ (is_open c.state) (λ h. handle_close-Kept c v) (λ h. v)

pub connect_established-Kept :
    {a : List ℕ} (c : TcpConnection) → IsSound a c → Kept a (connect_established c)
unfolding connect_established
connect_established-Kept c v =
    either-Kept _ _ _ (is_connecting c.state)
      (λ h.
        same (record c { state = connected; is_reading = true; told = c.told ++ (up ∷ []) }) v refl
          refl refl refl (sym (connecting-opened c.state h)))
      (λ h. tt)

remove-Kept : {a : List ℕ} (c : TcpConnection) → IsSound a c → Kept a (remove c)
unfolding remove
remove-Kept c v = either-Kept _ _ _ (c.is_reading || c.is_writing) (λ h. tt) (λ h. v)

pub connect_destroyed-Kept :
    {a : List ℕ} (c : TcpConnection) → IsSound a c → Kept a (connect_destroyed c)
unfolding connect_destroyed
connect_destroyed-Kept c v =
    remove-Kept _
      (either (is_connected c.state) (λ h. closed-IsSound c (c.told ++ (down ∷ [])) v) (λ h. v))

pub handle_read-Kept :
    {a : List ℕ} (got : Option (List ℕ)) (c : TcpConnection)
    → IsSound a c
    → Kept a (handle_read got c)
unfolding handle_read
handle_read-Kept none c v = v
handle_read-Kept (some []) c v = handle_close-Kept c v
handle_read-Kept (some (byte ∷ bytes)) c v =
    let (after, e, r) = read_fd_lem (byte ∷ bytes) v.input in
    rw e record {
      output = v.output;
      input = r.valid;
      order = v.order;
      writing = v.writing;
      quiet = v.quiet;
    }

pub send-Kept :
    {a : List ℕ} (bytes : List ℕ) (w : Wrote) (c : TcpConnection)
    → Possible (length bytes) w
    → IsSound a c
    → Kept (a ++ sent_by bytes w c) (send true bytes w c)
unfolding send
send-Kept bytes w c p v = elim (Bool-cases (is_connected c.state)) [
  | inl h ↦ rw h (gives (send_in_loop bytes w c) (send_in_loop_lem bytes w c p v))
  | inr h ↦ rw h (nothing_more v)
]

pub posted-Kept :
    {a : List ℕ} (bytes : List ℕ) (w : Wrote) (c : TcpConnection)
    → IsSound a c
    → Kept a (send false bytes w c)
unfolding send
posted-Kept bytes w c v =
    either-Kept _ _ _ (is_connected c.state)
      (λ h. same (queue_if true (send_functor bytes) c) v refl refl refl refl refl) (λ h. v)

pub run-Kept :
    {a : List ℕ} (f : Functor) (w : Wrote) (c : TcpConnection)
    → RunPossible f w
    → IsSound a c
    → Kept (a ++ run_by f w c) (run_functor f w c)
unfolding run_functor
run-Kept (send_functor bytes) w c p v =
    gives (send_in_loop bytes w c) (send_in_loop_lem bytes w c p v)
run-Kept shutdown_functor w c p v = shutdown_in_loop-IsSound c (nothing_more v)
run-Kept force_close_functor w c p v = force_close_in_loop-Kept c (nothing_more v)
run-Kept start_read_functor w c p v = start_read_in_loop-IsSound c (nothing_more v)
run-Kept stop_read_functor w c p v = stop_read_in_loop-IsSound c (nothing_more v)
run-Kept write_complete w c p v = nothing_more v
run-Kept (high_water n) w c p v = nothing_more v

pub empty-create : (readable_bytes (create initial_size) == 0) ≡ true
unfolding create
empty-create = refl
