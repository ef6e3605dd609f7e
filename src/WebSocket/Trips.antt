-- ===== src/WebSocket/Trips.antt =====
-- What WSSendMessage sends WSRecvMessage takes back (JKYi/http/ws_session.cc), in one frame or in
-- several.
use jkyi.Base.{
  ℕ, zero, suc, ◌+◌, ◌-◌, ◌^◌, ◌≤◌, ◌<◌, ◌≡◌, refl, sym, ap, ◌∙◌, arith, Bool, true, false, not,
  ◌&&◌, some, List, [], ◌∷◌, ◌++◌, length, drop, append_assoc, append-nil, length-append,
  drop-append, drop_all,
}
use jkyi.Stream.{Stream}
use jkyi.Stream.Delivery.{Accepts, Delivers}
use jkyi.WebSocket.{WsFrameMessage, recv_loop, recv_message, send_message}
use jkyi.WebSocket.Send.{frame, send_message_lem}
use jkyi.WebSocket.Turns.{opcode_after, recv_frame-turn}

-- The frames of a message that is sent in pieces: each with its own mask, and only the last with
-- `fin`.
abbrev pub frames : Bool → ℕ × WsFrameMessage → List (ℕ × WsFrameMessage) → List ℕ
frames client x [] = frame x.0 x.1 client true
frames client x (y ∷ ys) = frame x.0 x.1 client false ++ frames client y ys

abbrev pub whole_text : ℕ × WsFrameMessage → List (ℕ × WsFrameMessage) → List ℕ
whole_text x [] = x.1.msg
whole_text x (y ∷ ys) = x.1.msg ++ whole_text y ys

abbrev pub whole_opcode : ℕ → ℕ × WsFrameMessage → List (ℕ × WsFrameMessage) → ℕ
whole_opcode opcode x [] = opcode_after opcode x.1.opcode
whole_opcode opcode x (y ∷ ys) = whole_opcode (opcode_after opcode x.1.opcode) y ys

abbrev pub Sendable : ℕ × WsFrameMessage → Type 0
Sendable x = (x.1.opcode < 3) × (0 < length x.1.msg)

abbrev pub AllSendable : ℕ × WsFrameMessage → List (ℕ × WsFrameMessage) → Type 0
AllSendable x [] = Sendable x
AllSendable x (y ∷ ys) = Sendable x × AllSendable y ys

module _ {S : Type 0} (io : Stream S) (pending : S → List ℕ) (delivers : Delivers io pending) where
  recv_loop-frames :
      (turns max_size : ℕ) (as_client client : Bool) (opcode : ℕ) (text : List ℕ)
      (x : ℕ × WsFrameMessage) (ys : List (ℕ × WsFrameMessage)) (rest : List ℕ) (s : S)
      → length ys < turns
      → AllSendable x ys
      → length text + length (whole_text x ys) < max_size
      → max_size ≤ 2 ^ 31
      → (not as_client && not client) ≡ false
      → pending s ≡ frames client x ys ++ rest
      → (s' : S) × (pending s' ≡ rest)
        × (recv_loop io turns max_size as_client opcode text (length text) s
            ≡ some (
              some (record { opcode = whole_opcode opcode x ys; msg = text ++ whole_text x ys }),
              s',
            ))
  unfolding recv_loop
  recv_loop-frames zero max_size as_client client opcode text x ys rest s h ok k l masked e =
      absurd (omega arith)
  recv_loop-frames (suc turns) max_size as_client client opcode text x [] rest s h ok k l masked e =
      let t =
        recv_frame-turn io pending delivers max_size x.0 as_client x.1 client true opcode text rest
          s ok.0 ok.1 k l masked e in
      (t.0, t.1, rw t.2 refl)
  recv_loop-frames (suc turns) max_size as_client client opcode text x (y ∷ ys) rest s h ok k l
        masked e =
      let n = length-append x.1.msg (whole_text y ys) in
      let m = length-append text x.1.msg in
      let t =
        recv_frame-turn io pending delivers max_size x.0 as_client x.1 client false opcode text
          (frames client y ys ++ rest) s ok.0.0 ok.0.1 (omega (arith, k, n)) l masked
          (e ∙ append_assoc (frame x.0 x.1 client false) (frames client y ys) rest) in
      let r =
        recv_loop-frames turns max_size as_client client (opcode_after opcode x.1.opcode)
          (text ++ x.1.msg) y ys rest t.0 (omega arith) ok.1 (omega (arith, k, n, m)) l masked
          t.1 in
      (r.0, r.1, rw (t.2, sym (append_assoc text x.1.msg (whole_text y ys))) r.2)

  -- WSRecvMessage gives back a message whose frames are pending, in as many turns as there are
  -- frames: the first opcode that is not that of a continuation, and the data of all in order. The
  -- frames have opcodes of data and are not empty, the data together are below the configured size,
  -- which is at most 2 GB, and a server gets them masked.
  pub recv_message-frames :
      (turns max_size : ℕ) (as_client client : Bool) (x : ℕ × WsFrameMessage)
      (ys : List (ℕ × WsFrameMessage)) (rest : List ℕ) (s : S)
      → length ys < turns
      → AllSendable x ys
      → length (whole_text x ys) < max_size
      → max_size ≤ 2 ^ 31
      → (not as_client && not client) ≡ false
      → pending s ≡ frames client x ys ++ rest
      → (s' : S) × (pending s' ≡ rest)
        × (recv_message io turns max_size as_client s
            ≡ some (some (record { opcode = whole_opcode 0 x ys; msg = whole_text x ys }), s'))
  unfolding recv_message
  recv_message-frames turns max_size as_client client x ys rest s h ok k l masked e =
      recv_loop-frames turns max_size as_client client 0 [] x ys rest s h ok (omega (arith, k)) l
        masked e

opcode_after-none : (new : ℕ) → opcode_after 0 new ≡ new
opcode_after-none zero = refl
opcode_after-none (suc new) = ground arith

-- What WSSendMessage sends from one side, WSRecvMessage on the other side gives back: the same
-- opcode and data, with nothing left. It holds however the two streams cut the bytes up, for an
-- opcode of data, some data below the configured size, which is at most 2 GB, and a message that is
-- masked if it is a server that receives.
pub recv_message-send_message :
    {S T : Type 0} (io : Stream S) (sent : S → List ℕ) (peer : Stream T) (pending : T → List ℕ)
    → Accepts io sent
    → Delivers peer pending
    → (turns max_size rand_value : ℕ) (as_client client : Bool) (m : WsFrameMessage) (s : S) (t : T)
    → 0 < turns
    → m.opcode < 3
    → 0 < length m.msg
    → length m.msg < max_size
    → max_size ≤ 2 ^ 31
    → (not as_client && not client) ≡ false
    → pending t ≡ drop (length (sent s)) (sent (send_message io rand_value m client true s).2)
    → (t' : T) × (pending t' ≡ [])
      × (recv_message peer turns max_size as_client t ≡ some (some m, t'))
recv_message-send_message io sent peer pending accepts delivers turns max_size rand_value as_client
      client m s t h o some_data k l masked e =
    let bytes = frame rand_value m client true in
    let z : length (sent s) - length (sent s) ≡ 0 = omega arith in
    let gone : drop (length (sent s)) (sent s ++ bytes) ≡ bytes =
      drop-append (length (sent s)) (sent s) bytes
      ∙ rw (z, drop_all (length (sent s)) (sent s) (omega arith)) refl in
    let it =
      send_message_lem io sent accepts rand_value m client true s some_data (omega (arith, k, l)) in
    let r =
      recv_message-frames peer pending delivers turns max_size as_client client (rand_value, m) []
        [] t h (o, some_data) k l masked
        (e ∙ ap (λ (b : List ℕ). drop (length (sent s)) b) it.2 ∙ gone ∙ sym (append-nil bytes)) in
    let with_opcode =
      λ (o : ℕ). (let n : WsFrameMessage = record { opcode = o; msg = m.msg } in n) in
    (r.0, r.1, r.2 ∙ ap (λ (o : ℕ). some (some (with_opcode o), r.0)) (opcode_after-none m.opcode))
