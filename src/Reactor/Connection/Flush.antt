-- ===== src/Reactor/Connection/Flush.antt =====
-- What handleWrite of JKYi/reactor/TcpConnection.cc comes to, and how a connection may end badly.
use jkyi.Base.Options.{◌>>=◌}
use jkyi.Base.{
  ℕ, zero, suc, ◌≤◌, ◌≡◌, ◌⊎◌, inl, inr, refl, sym, ap, ◌∙◌, arith, Bool, true, false, not, ◌||◌,
  Option, none, some, List, [], ◌∷◌, ◌++◌, ◌==◌, ==_iff, if◌then◌else◌, length, min, append-nil,
}
use jkyi.Buffer.{readable_bytes}
use jkyi.Reactor.Connection.{
  ConnState, disconnected, connecting, connected, disconnecting, is_disconnected, is_connected,
  is_disconnecting, TcpConnection, Wrote, took, start_read_in_loop, remove, connect_destroyed,
  handle_write,
}
use jkyi.Reactor.Connection.Output.{IsSound, none_readable}
use jkyi.Reactor.Connection.Writes.{handle_write_part}
use mathlib.Core.Bool.{false≢true}

-- A system that takes some of the `r` bytes it is given, at least one if there is one
abbrev pub some_of : ℕ → ℕ → ℕ
some_of k zero = zero
some_of k (suc r) = suc (min k r)

-- Calls of handleWrite by a loop that finds the socket writable again and again
abbrev pub flush : List ℕ → TcpConnection → Option TcpConnection
flush [] c = some c
flush (k ∷ ks) c =
    handle_write (took (some_of k (readable_bytes c.output_buffer))) c >>= λ c'. flush ks c'

ℕ-cases : (n : ℕ) → (n ≡ 0) ⊎ ((m : ℕ) × (n ≡ suc m))
ℕ-cases zero = inl refl
ℕ-cases (suc m) = inr (m, refl)

idle_write : (w : Wrote) (c : TcpConnection) → c.is_writing ≡ false → handle_write w c ≡ some c
unfolding handle_write
idle_write w c h = rw h refl

-- All is written, the channel rests, and a connection that shuts down has shut down its write side
pub record Done (accepted : List ℕ) (s : ConnState) (c : TcpConnection) : Type 0 where
  pub written_lem : c.written ≡ accepted
  pub rests : c.is_writing ≡ false
  pub state_lem : c.state ≡ s
  pub shuts : is_disconnecting s ≡ true → c.shut ≡ true

already :
    {accepted : List ℕ} (c : TcpConnection)
    → IsSound accepted c
    → is_disconnected c.state ≡ false
    → readable_bytes c.output_buffer ≡ 0
    → (is_disconnecting c.state ≡ true → c.is_writing ≡ false → c.shut ≡ true)
    → Done accepted c.state c
already c v open_lem e sh =
    let zero_left : (readable_bytes c.output_buffer == 0) ≡ true =
      (==_iff (readable_bytes c.output_buffer) 0).1 e in
    let rests : c.is_writing ≡ false = v.writing open_lem ∙ ap not zero_left in
    record {
      written_lem =
          sym (append-nil c.written)
          ∙ ap (λ (xs : List ℕ). c.written ++ xs) (sym (none_readable v.output zero_left))
          ∙ v.order;
      rests = rests;
      state_lem = refl;
      shuts = λ h. sh h rests;
    }

-- On a connection that keeps the invariant and is not closed, and that has shut down its write side
-- if it is shutting down with nothing left to write: when the loop finds the socket writable as
-- often as the output buffer has bytes, and the system takes at least one byte each time, every
-- byte that the connection took over is written, in order, the channel is not watched for writing
-- any more, and the write side is shut down if the connection is shutting down.
pub flush_lem :
    (ks : List ℕ) {accepted : List ℕ} (c : TcpConnection)
    → IsSound accepted c
    → is_disconnected c.state ≡ false
    → readable_bytes c.output_buffer ≤ length ks
    → (is_disconnecting c.state ≡ true → c.is_writing ≡ false → c.shut ≡ true)
    → (c' : TcpConnection) × (flush ks c ≡ some c') × Done accepted c.state c'
flush_lem [] c v o l sh = (c, refl, already c v o (omega (arith, l)) sh)
flush_lem (k ∷ ks) {accepted} c v o l sh = elim (ℕ-cases (readable_bytes c.output_buffer)) [
  | inl e ↦
      let rests = (already c v o e sh).rests in
      let (c', e', d) = flush_lem ks c v o (omega (arith, e)) sh in
      (
        c',
        ap (λ (x : Option TcpConnection). x >>= λ c'. flush ks c')
              (idle_write (took (some_of k (readable_bytes c.output_buffer))) c rests)
            ∙ e',
        d,
      )
  | inr (m, e) ↦
      let w : c.is_writing ≡ true = v.writing o ∙ ap (λ (n : ℕ). not (n == 0)) e ∙ not_zero m in
      let (c1, e1, f) = handle_write_part (min k m) c v w (omega (arith, e)) in
      let (c', e', d) =
        flush_lem ks c1 f.inv (ap is_disconnected f.state_lem ∙ o) (omega (arith, f.less, l))
          (λ h r. f.shuts (ap is_disconnecting (sym f.state_lem) ∙ h) r) in
      (
        c',
        ap (λ (r : ℕ). handle_write (took (some_of k r)) c >>= λ c'. flush ks c') e
            ∙ ap (λ (x : Option TcpConnection). x >>= λ c'. flush ks c') e1
            ∙ e',
        record {
          written_lem = d.written_lem;
          rests = d.rests;
          state_lem = d.state_lem ∙ f.state_lem;
          shuts = λ h. d.shuts (ap is_disconnecting f.state_lem ∙ h);
        },
      )
]
  where
    not_zero : (m : ℕ) → not (suc m == 0) ≡ true
    not_zero m = ground arith

gone : (s : ConnState) → is_disconnected s ≡ true → is_connected s ≡ false
gone disconnected h = refl
gone connecting h = refl
gone connected h = absurd (false≢true h)
gone disconnecting h = refl

or_true : (b : Bool) → (b || true) ≡ true
or_true true = refl
or_true false = refl

destroyed_reading :
    (c : TcpConnection)
    → is_disconnected c.state ≡ true
    → c.is_reading ≡ true
    → connect_destroyed c ≡ none
unfolding connect_destroyed remove
destroyed_reading c h r = rw (gone c.state h, r) refl

started_reading :
    (c : TcpConnection)
    → c.is_reading ≡ false
    → start_read_in_loop c ≡ record c { reading = true; is_reading = true }
unfolding start_read_in_loop
started_reading c r =
    let c' : TcpConnection = record c { reading = true; is_reading = true } in
    ap (λ b. if not c.reading || not b then c' else c) r
    ∙ ap (λ b. if b then c' else c) (or_true (not c.reading))

-- When startRead is called on a connection that is closed, as the connection callback may do, the
-- assertion of Channel::remove in connectDestroyed fails.
pub start_read-connect_destroyed :
    (c : TcpConnection)
    → is_disconnected c.state ≡ true
    → c.is_reading ≡ false
    → connect_destroyed (start_read_in_loop c) ≡ none
start_read-connect_destroyed c h r =
    ap connect_destroyed (started_reading c r)
    ∙ destroyed_reading (record c { reading = true; is_reading = true }) h refl
