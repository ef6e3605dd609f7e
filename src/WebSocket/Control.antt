-- ===== src/WebSocket/Control.antt =====
-- Control frames in WSRecvMessage (JKYi/http/ws_session.cc).
use jkyi.Base.{ℕ, ◌<◌, ◌≡◌, ap, ◌∙◌, arith, Bool, true, false, List, ◌++◌, length}
use jkyi.Codec.Int.{ℤ, pos}
use jkyi.Stream.{Stream, positive, write_fix_size}
use jkyi.Stream.Delivery.{
  Delivers, Accepts, write_fix_size-Accepts, write_fix_size-keeps, read_fix_size-keeps,
}
use jkyi.WebSocket.{
  WsFrameHead, continued, head_bytes, parse_head, control_head, close_negative, send_control, pong,
  after_pong, recv_head, recv_frame, pong_frame,
}
use jkyi.WebSocket.Masks.{parse_head-head_bytes}
use jkyi.WebSocket.Send.{length-head_bytes}
use jkyi.WebSocket.Receive.{got-next}

-- The head of a ping as a client sends it, with `size` bytes of payload
abbrev pub ping_head : ℕ → WsFrameHead
ping_head size = record {
  opcode = 9;
  rsv1 = false;
  rsv2 = false;
  rsv3 = false;
  fin = true;
  payload = size;
  mask = true;
}

module _ {S : Type 0} (io : Stream S) (pending sent : S → List ℕ) (delivers : Delivers io pending)
    (accepts : Accepts io sent)
    (keeps : (buffer : List ℕ) (s : S) → pending (io.write buffer s).1 ≡ pending s)
    (still : (n : ℕ) (s : S) → sent (io.read n s).2 ≡ sent s) where
  pong-sent :
      (s : S)
      → (s' : S) × (pong io s ≡ (pos 2, s'))
        × (pending s' ≡ pending s)
        × (sent s' ≡ sent s ++ head_bytes (control_head pong_frame))
  unfolding pong send_control close_negative head_bytes
  pong-sent s =
      let buffer = head_bytes (control_head pong_frame) in
      let two = length-head_bytes (control_head pong_frame) in
      let w = write_fix_size-Accepts io sent accepts buffer s (omega (arith, two)) in
      let e : write_fix_size io buffer s ≡ (pos 2, (write_fix_size io buffer s).1) =
        ap (λ (r : ℤ). (r, (write_fix_size io buffer s).1)) w.0 in
      (
        (write_fix_size io buffer s).1,
        ap (λ (r : ℤ × S). close_negative io r) e,
        write_fix_size-keeps io pending keeps buffer s,
        w.1,
      )

  -- WSRecvMessage answers a masked ping, as clients send it, by sending the two bytes of the head
  -- of a pong and nothing else, and goes on, but leaves the mask and the payload of the ping
  -- pending: its next turn takes them for the head of a frame. It holds for a payload below 126
  -- bytes and a stream of which writes do not change what is pending, nor reads what is sent.
  pub recv_frame-ping :
      (max_size : ℕ) (as_client : Bool) (opcode : ℕ) (text : List ℕ) (cur_len : ℕ)
      (key payload rest : List ℕ) (s : S)
      → length payload < 126
      → pending s ≡ head_bytes (ping_head (length payload)) ++ (key ++ (payload ++ rest))
      → (s' : S) × (recv_frame io max_size as_client opcode text cur_len s
          ≡ continued opcode text cur_len s')
        × (pending s' ≡ key ++ (payload ++ rest))
        × (sent s' ≡ sent s ++ head_bytes (control_head pong_frame))
  unfolding recv_frame recv_head after_pong positive
  recv_frame-ping max_size as_client opcode text cur_len key payload rest s h e =
      let head = ping_head (length payload) in
      let one =
        got-next io pending delivers 2 (head_bytes head) (key ++ (payload ++ rest)) s
          (λ bytes s. recv_head io max_size as_client (parse_head bytes) opcode text cur_len s) e
          (length-head_bytes head) (omega arith) (omega arith) in
      let answer = pong-sent one.0 in
      (
        answer.0,
        one.2
            ∙ ap
                (λ (head : WsFrameHead).
                  recv_head io max_size as_client head opcode text cur_len one.0)
                (parse_head-head_bytes head (omega arith) (omega (arith, h)))
            ∙ ap (λ (r : ℤ × S). after_pong io opcode text cur_len r) answer.1,
        answer.2 ∙ one.1,
        answer.3
            ∙ ap (λ (l : List ℕ). l ++ head_bytes (control_head pong_frame))
                (ap sent one.3 ∙ read_fix_size-keeps io sent still 2 s),
      )
