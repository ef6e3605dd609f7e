-- ===== src/Reactor/Connection/Output.antt =====
-- What a connection (JKYi/reactor/TcpConnection.cc) sends: the bytes that the system took and those
-- of the output buffer, through sendInLoop.
use jkyi.Base.{
  ℕ, zero, suc, ◌+◌, ◌≤◌, ◌<◌, ◌≡◌, inl, inr, refl, sym, ap, ◌∙◌, arith, Bool, true, false, not,
  ◌&&◌, ◌||◌, some, List, [], ◌∷◌, ◌++◌, ltb, leb, ◌==◌, ==_iff, if◌then◌else◌, length, take, drop,
  size_sub, size_sub_le, Bool-cases, append_assoc, append-nil, le→leb, length-drop, length-append,
  drop_all,
}
use jkyi.Buffer.{Buffer, readable, readable_bytes}
use jkyi.Buffer.Views.{length-readable}
use jkyi.Buffer.Views
use jkyi.Buffer.Space.{append_lem}
use jkyi.Reactor.Connection.{
  is_disconnected, write_complete, high_water, TcpConnection, Wrote, took, would_block, broken,
  other_error, queue_if, write_directly, keep_rest, after_write, may_write, send_in_loop,
}
use mathlib.Core.Path.{subst}
use mathlib.Core.Bool.{false≢true}

-- `accepted` is what the connection took over to send. While it is not closed, the channel is
-- watched for writing exactly if the output buffer holds something.
pub record IsSound (accepted : List ℕ) (c : TcpConnection) : Type 0 where
  pub output : Views.IsValid c.output_buffer
  pub input : Views.IsValid c.input_buffer
  pub order : c.written ++ readable c.output_buffer ≡ accepted
  pub writing :
      is_disconnected c.state ≡ false → c.is_writing ≡ not (readable_bytes c.output_buffer == 0)
  pub quiet : is_disconnected c.state ≡ true → c.is_writing ≡ false

-- What a result of `write` may be for `n` bytes
abbrev pub Possible : ℕ → Wrote → Type 0
Possible n (took k) = k ≤ n
Possible n would_block = Unit
Possible n broken = Unit
Possible n other_error = Unit

abbrev pub is_broken : Wrote → Bool
is_broken broken = true
is_broken _ = false

-- What sendInLoop takes over of a message: all of it, or nothing on a closed connection or if the
-- system says that the peer is gone
abbrev pub taken_over : List ℕ → Wrote → TcpConnection → List ℕ
taken_over bytes w c = if is_disconnected c.state || (may_write c && is_broken w) then [] else bytes

positive-length : (n : ℕ) → 0 < n → not (n == 0) ≡ true
positive-length n h = ground arith

pub take-drop_all : (n : ℕ) (xs : List ℕ) → take n xs ++ drop n xs ≡ xs
take-drop_all zero xs = refl
take-drop_all (suc n) [] = refl
take-drop_all (suc n) (x ∷ xs) = ap (λ (r : List ℕ). x ∷ r) (take-drop_all n xs)

-- The rest of a message goes behind the bytes that wait
keep_rest_lem :
    (bytes : List ℕ) (n : ℕ) {accepted : List ℕ} (c : TcpConnection)
    → Views.IsValid c.output_buffer
    → Views.IsValid c.input_buffer
    → is_disconnected c.state ≡ false
    → n < length bytes
    → c.written ++ (readable c.output_buffer ++ drop n bytes) ≡ accepted
    → (c' : TcpConnection) × (keep_rest bytes n c ≡ some c') × IsSound accepted c'
unfolding keep_rest
keep_rest_lem bytes n {accepted} c v i open_lem l order =
    let (after, e, a) = append_lem (drop n bytes) v in
    let old_len = readable_bytes c.output_buffer in
    let remaining = size_sub (length bytes) n in
    let c' : TcpConnection =
      queue_if
        (leb c.high_water_mark (old_len + remaining)
          && ltb old_len c.high_water_mark
          && c.has_high_water)
        (high_water (old_len + remaining))
        (record c { output_buffer = after; is_writing = true }) in
    (
      c',
      rw e refl,
      record {
        output = a.valid;
        input = i;
        order = ap (λ (r : List ℕ). c.written ++ r) a.readable_lem ∙ order;
        writing = λ h. sym (
            positive-length (readable_bytes after) (
              omega (
                arith,
                length-readable a.valid,
                ap length a.readable_lem,
                length-append (readable c.output_buffer) (drop n bytes),
                length-drop n bytes,
                l,
              )));
        quiet = λ h. absurd (false≢true (sym open_lem ∙ h));
      },
    )

-- After a write of `n` bytes of the message, or of none, without a fault
after_write_lem :
    (bytes : List ℕ) (n : ℕ) {accepted : List ℕ} (c : TcpConnection)
    → Views.IsValid c.output_buffer
    → Views.IsValid c.input_buffer
    → is_disconnected c.state ≡ false
    → c.is_writing ≡ not (readable_bytes c.output_buffer == 0)
    → n ≤ length bytes
    → c.written ++ (readable c.output_buffer ++ drop n bytes) ≡ accepted
    → (c' : TcpConnection) × (after_write bytes (n, false, c) ≡ some c') × IsSound accepted c'
unfolding after_write
after_write_lem bytes n {accepted} c v i open_lem w l order =
    let r = size_sub_le (length bytes) n l in
    let fits : leb (size_sub (length bytes) n) (length bytes) ≡ true =
      le→leb (size_sub (length bytes) n) (length bytes) (omega (arith, r)) in
    elim (Bool-cases (ltb 0 (size_sub (length bytes) n))) [
      | inl more ↦
          let k = keep_rest_lem bytes n c v i open_lem (ground (arith, more, r)) order in
          (k.0, rw (fits, more) k.1, k.2)
      | inr all_written ↦
          let none_left : drop n bytes ≡ [] = drop_all n bytes (ground (arith, all_written, r)) in
          (
            c,
            rw (fits, all_written) refl,
            record {
              output = v;
              input = i;
              order =
                  ap (λ (r : List ℕ). c.written ++ r)
                    (sym (append-nil (readable c.output_buffer))
                      ∙ ap (λ (r : List ℕ). readable c.output_buffer ++ r) (sym none_left))
                  ∙ order;
              writing = λ h. w;
              quiet = λ h. absurd (false≢true (sym open_lem ∙ h));
            },
          )
    ]

given_up : (bytes : List ℕ) (c : TcpConnection) → after_write bytes (0, true, c) ≡ some c
unfolding after_write
given_up bytes c =
    rw
      (le→leb (size_sub (length bytes) 0) (length bytes)
        (omega (arith, size_sub_le (length bytes) 0 (omega arith))))
      refl

right_part : (a b : Bool) → (a && b) ≡ true → b ≡ true
right_part true b h = h
right_part false b h = absurd (false≢true h)

pub none_readable :
    {b : Buffer} → Views.IsValid b → (readable_bytes b == 0) ≡ true → readable b ≡ []
none_readable {b} v h =
    length-zero (readable b) (length-readable v ∙ (==_iff (readable_bytes b) 0).0 h)
  where
    length-zero : (xs : List ℕ) → length xs ≡ 0 → xs ≡ []
    length-zero [] e = refl
    length-zero (x ∷ xs) e = absurd (omega (arith, e))

module _ (bytes : List ℕ) {accepted : List ℕ} (c : TcpConnection) (v : IsSound accepted c)
    (open_lem : is_disconnected c.state ≡ false) where
  behind : c.written ++ (readable c.output_buffer ++ bytes) ≡ accepted ++ bytes
  behind =
      sym (append_assoc c.written (readable c.output_buffer) bytes)
      ∙ ap (λ (r : List ℕ). r ++ bytes) v.order

  queued_lem :
      (c' : TcpConnection) × (after_write bytes (0, false, c) ≡ some c')
      × IsSound (accepted ++ bytes) c'
  queued_lem =
      after_write_lem bytes 0 c v.output v.input open_lem (v.writing open_lem) (omega arith) behind

  written_lem :
      (w : Wrote)
      → Possible (length bytes) w
      → (readable_bytes c.output_buffer == 0) ≡ true
      → (c' : TcpConnection) × (after_write bytes (write_directly bytes w c) ≡ some c')
        × IsSound (accepted ++ (if is_broken w then [] else bytes)) c'
  unfolding write_directly
  written_lem (took n) l e =
      let nothing = none_readable v.output e in
      let c1 : TcpConnection =
        queue_if (size_sub (length bytes) n == 0 && c.has_write_complete) write_complete
          (record c { written = c.written ++ take n bytes }) in
      let order : (c.written ++ take n bytes) ++ (readable c.output_buffer ++ drop n bytes)
          ≡ accepted ++ bytes =
        ap (λ (r : List ℕ). (c.written ++ take n bytes) ++ (r ++ drop n bytes)) nothing
        ∙ append_assoc c.written (take n bytes) (drop n bytes)
        ∙ ap (λ (r : List ℕ). c.written ++ r) (take-drop_all n bytes)
        ∙ ap (λ (r : List ℕ). c.written ++ (r ++ bytes)) (sym nothing)
        ∙ behind in
      after_write_lem bytes n c1 v.output v.input open_lem (v.writing open_lem) l order
  written_lem would_block l e = queued_lem
  written_lem other_error l e = queued_lem
  written_lem broken l e =
      (c, given_up bytes c, subst (λ (a : List ℕ). IsSound a c) (sym (append-nil accepted)) v)

-- On a connection that keeps the invariant, when `write` takes at most the bytes it is given,
-- sendInLoop never fails by an assertion, keeps the invariant, and takes over the whole message
-- behind what it took over before, unless the connection is closed or a direct write says that the
-- peer is gone: then it takes over nothing of the message.
pub send_in_loop_lem :
    (bytes : List ℕ) (w : Wrote) {accepted : List ℕ} (c : TcpConnection)
    → Possible (length bytes) w
    → IsSound accepted c
    → (c' : TcpConnection) × (send_in_loop bytes w c ≡ some c')
      × IsSound (accepted ++ taken_over bytes w c) c'
unfolding send_in_loop
send_in_loop_lem bytes w {accepted} c l v = elim (Bool-cases (is_disconnected c.state)) [
  | inl gone ↦ rw gone (c, refl, subst (λ (a : List ℕ). IsSound a c) (sym (append-nil accepted)) v)
  | inr open_lem ↦ elim (Bool-cases (may_write c)) [
    | inr waits ↦ rw (open_lem, waits) (queued_lem bytes c v open_lem)
    | inl direct ↦
        rw (open_lem, direct)
          (written_lem bytes c v open_lem w l
            (right_part (not c.is_writing) (readable_bytes c.output_buffer == 0) direct))
  ]
]
