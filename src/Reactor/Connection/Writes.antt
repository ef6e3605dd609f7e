-- ===== src/Reactor/Connection/Writes.antt =====
-- What handleWrite of JKYi/reactor/TcpConnection.cc does with the output buffer.
use jkyi.Base.{
  ℕ, zero, suc, ◌+◌, ◌≤◌, ◌≡◌, inl, inr, refl, sym, ap, ◌∙◌, arith, true, false, not, some, List,
  ◌++◌, ◌==◌, if◌then◌else◌, length, take, drop, Bool-cases, append_assoc, length-drop,
}
use jkyi.Buffer.{Buffer, readable, readable_bytes}
use jkyi.Buffer.Views.{length-readable}
use jkyi.Buffer.Views
use jkyi.Buffer.Bytes.{retrieve_lem}
use jkyi.Reactor.Connection.{
  is_disconnecting, TcpConnection, Wrote, took, would_block, broken, other_error, shutdown_in_loop,
  emptied, write_output, handle_wrote, handle_write,
}
use mathlib.Core.Bool.{false≢true}
use jkyi.Reactor.Connection.Output.{IsSound, Possible, take-drop_all}

-- What a write of `n` bytes of the output buffer leads to
pub record Flushed (n : ℕ) (accepted : List ℕ) (c c' : TcpConnection) : Type 0 where
  pub inv : IsSound accepted c'
  pub state_lem : c'.state ≡ c.state
  pub less : readable_bytes c'.output_buffer + n ≡ readable_bytes c.output_buffer
  pub shuts : is_disconnecting c.state ≡ true → c'.is_writing ≡ false → c'.shut ≡ true

emptied-Flushed :
    (n : ℕ) {accepted : List ℕ} (b : Buffer) (c : TcpConnection)
    → Views.IsValid c.output_buffer
    → Views.IsValid c.input_buffer
    → c.written ++ readable c.output_buffer ≡ accepted
    → (readable_bytes c.output_buffer == 0) ≡ true
    → readable_bytes c.output_buffer + n ≡ readable_bytes b
    → Flushed n accepted (record c { output_buffer = b }) (emptied c)
unfolding emptied shutdown_in_loop
emptied-Flushed n b c v i order e less = elim (Bool-cases (is_disconnecting c.state)) [
  | inl closing ↦ rw closing record {
    inv = record {
      output = v;
      input = i;
      order = order;
      writing = λ h. sym (ap not e);
      quiet = λ h. refl;
    };
    state_lem = refl;
    less = less;
    shuts = λ h k. refl;
  }
  | inr going_on ↦ rw going_on record {
    inv = record {
      output = v;
      input = i;
      order = order;
      writing = λ h. sym (ap not e);
      quiet = λ h. refl;
    };
    state_lem = refl;
    less = less;
    shuts = λ h k. absurd (false≢true (sym going_on ∙ h));
  }
]

write_output_lem :
    (n : ℕ) {accepted : List ℕ} (c : TcpConnection)
    → IsSound accepted c
    → c.is_writing ≡ true
    → n ≤ readable_bytes c.output_buffer
    → (c' : TcpConnection) × (write_output n c ≡ some c') × Flushed n accepted c c'
unfolding write_output
write_output_lem n {accepted} c v w l =
    let (after, e, r) = retrieve_lem n v.output l in
    let bytes = readable c.output_buffer in
    let c1 : TcpConnection = record c {
      output_buffer = after;
      written = c.written ++ take n bytes;
    } in
    let order : (c.written ++ take n bytes) ++ readable after ≡ accepted =
      ap (λ (xs : List ℕ). (c.written ++ take n bytes) ++ xs) r.readable_lem
      ∙ append_assoc c.written (take n bytes) (drop n bytes)
      ∙ ap (λ (xs : List ℕ). c.written ++ xs) (take-drop_all n bytes)
      ∙ v.order in
    let less : readable_bytes after + n ≡ readable_bytes c.output_buffer = omega (
      arith,
      l,
      length-readable r.valid,
      ap length r.readable_lem,
      length-drop n bytes,
      length-readable v.output,
    ) in
    elim (Bool-cases (readable_bytes after == 0)) [
      | inl none_left ↦
          let f = emptied-Flushed n c.output_buffer c1 r.valid v.input order none_left less in
          (
            emptied c1,
            rw (e, none_left) refl,
            record { inv = f.inv; state_lem = f.state_lem; less = f.less; shuts = f.shuts },
          )
      | inr some_left ↦ (
        c1,
        rw (e, some_left) refl,
        record {
          inv = record {
            output = r.valid;
            input = v.input;
            order = order;
            writing = λ h. w ∙ sym (ap not some_left);
            quiet = v.quiet;
          };
          state_lem = refl;
          less = less;
          shuts = λ h k. absurd (false≢true (sym k ∙ w));
        },
      )
    ]

pub handle_write_part :
    (n : ℕ) {accepted : List ℕ} (c : TcpConnection)
    → IsSound accepted c
    → c.is_writing ≡ true
    → suc n ≤ readable_bytes c.output_buffer
    → (c' : TcpConnection) × (handle_write (took (suc n)) c ≡ some c')
      × Flushed (suc n) accepted c c'
unfolding handle_write
handle_write_part n c v w l =
    let (c', e, f) = write_output_lem (suc n) c v w l in
    (c', ap (λ b. if b then write_output (suc n) c else some c) w ∙ e, f)

-- When `write` takes at most the bytes it is given, handleWrite never fails by an assertion and
-- keeps the invariant.
pub handle_write_lem :
    (w : Wrote) {accepted : List ℕ} (c : TcpConnection)
    → Possible (readable_bytes c.output_buffer) w
    → IsSound accepted c
    → (c' : TcpConnection) × (handle_write w c ≡ some c') × IsSound accepted c'
unfolding handle_write
handle_write_lem w {accepted} c l v = elim (Bool-cases c.is_writing) [
  | inr idle ↦ (c, ap (λ b. if b then handle_wrote w c else some c) idle, v)
  | inl watched ↦
      let (c', e, v') = wrote w l watched in
      (c', ap (λ b. if b then handle_wrote w c else some c) watched ∙ e, v')
]
  where
    wrote :
        (w : Wrote)
        → Possible (readable_bytes c.output_buffer) w
        → c.is_writing ≡ true
        → (c' : TcpConnection) × (handle_wrote w c ≡ some c') × IsSound accepted c'
    wrote (took zero) l h = (c, refl, v)
    wrote (took (suc n)) l h = let (c', e, f) = write_output_lem (suc n) c v h l in (c', e, f.inv)
    wrote would_block l h = (c, refl, v)
    wrote broken l h = (c, refl, v)
    wrote other_error l h = (c, refl, v)
