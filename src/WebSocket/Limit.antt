-- ===== src/WebSocket/Limit.antt =====
-- The limit of the size of a message in WSRecvMessage (JKYi/http/ws_session.cc), over any stream.
use jkyi.Base.{
  ℕ, zero, suc, ◌+◌, ◌-◌, ◌%◌, ◌^◌, ◌<◌, ◌≡◌, refl, arith, Bool, true, false, not, ◌&&◌, ◌||◌,
  Option, none, some, List, [], ◌==◌, leb, length, take, replicate, if◌then◌else◌, length-append,
  length-take, length-replicate,
}
use jkyi.Base.Splice.{resize, length-splice}
use jkyi.Stream.{Stream, positive, read_fix_size}
use jkyi.WebSocket.{
  WsFrameHead, WsFrameMessage, Turn, broken, received, continued, outside, parse_head, got,
  with_length, with_mask, store, recv_sized, recv_data, recv_head, after_pong, recv_frame,
  recv_loop, recv_message, xor_mask, ping_frame, pong_frame, continue_frame, text_frame, bin_frame,
  pong,
}

length-resize : (n : ℕ) (bs : List ℕ) → length (resize n bs) ≡ n
unfolding resize
length-resize n bs = omega (
  arith,
  length-append (take n bs) (replicate (n - length bs) 0),
  length-take n bs,
  length-replicate {A = ℕ} (n - length bs) 0,
)

module _ {S : Type 0} (io : Stream S) (max_size : ℕ) where
  abbrev Below : Turn S → Type 0
  Below (received m s) = length m.msg < max_size
  Below (broken s) = Unit
  Below (continued opcode text cur_len s) = Unit
  Below (outside s) = Unit

  Below-if :
      (b : Bool) (t u : Turn S)
      → (b ≡ true → Below t)
      → (b ≡ false → Below u)
      → Below (if b then t else u)
  Below-if true t u h k = h refl
  Below-if false t u h k = k refl

  Below-got :
      (n : ℕ) (s : S) (next : List ℕ → S → Turn S)
      → ((bytes : List ℕ) (s : S) → Below (next bytes s))
      → Below (got io n s next)
  unfolding got
  Below-got n s next h =
      Below-if (positive (read_fix_size io n s).0 == 0) (broken (read_fix_size io n s).2)
        (next (read_fix_size io n s).1 (read_fix_size io n s).2) (λ e. tt)
        (λ e. h (read_fix_size io n s).1 (read_fix_size io n s).2)

  Below-store :
      (head : WsFrameHead) (opcode : ℕ) (text : List ℕ) (cur_len length' : ℕ) (mask bytes : List ℕ)
      (s : S)
      → (cur_len + length') % 2 ^ 64 < max_size
      → Below (store io head opcode text cur_len length' mask bytes s)
  unfolding store
  Below-store head opcode text cur_len length' mask bytes s h =
      let piece = if head.mask then xor_mask mask 0 bytes else bytes in
      let whole = (cur_len + length') % 2 ^ 64 in
      Below-if head.fin _ _
        (λ e.
          omega
            (arith, h, length-splice (resize whole text) cur_len piece, length-resize whole text))
        (λ e. tt)

  Below-recv_sized :
      (head : WsFrameHead) (opcode : ℕ) (text : List ℕ) (cur_len length' : ℕ) (s : S)
      → Below (recv_sized io max_size head opcode text cur_len length' s)
  unfolding recv_sized with_mask
  Below-recv_sized head opcode text cur_len length' s =
      Below-if (leb max_size ((cur_len + length') % 2 ^ 64)) _ _ (λ e. tt)
        (λ e.
          Below-if head.mask _ _ (λ f. Below-got 4 s _ (λ mask s. payload mask s e))
            (λ f. payload _ s e))
    where
      payload :
          (mask : List ℕ) (s : S)
          → leb max_size ((cur_len + length') % 2 ^ 64) ≡ false
          → Below (
              if leb (2 ^ 31) cur_len
              then outside s
              else got io length' s
                  (λ bytes s. store io head opcode text cur_len length' mask bytes s))
      payload mask s e =
          Below-if (leb (2 ^ 31) cur_len) _ _ (λ f. tt)
            (λ f. Below-got length' s _ (λ bytes s.
              Below-store head opcode text cur_len length' mask bytes s (ground (arith, e))))

  Below-recv_data :
      (client : Bool) (head : WsFrameHead) (opcode : ℕ) (text : List ℕ) (cur_len : ℕ) (s : S)
      → Below (recv_data io max_size client head opcode text cur_len s)
  unfolding recv_data with_length
  Below-recv_data client head opcode text cur_len s =
      Below-if (not client && not head.mask) _ _ (λ e. tt)
        (λ e.
          Below-if (head.payload == 126) _ _
            (λ f. Below-got 2 s _ (λ bytes s. Below-recv_sized head opcode text cur_len _ s))
            (λ f.
              Below-if (head.payload == 127) _ _
                (λ g. Below-got 8 s _ (λ bytes s. Below-recv_sized head opcode text cur_len _ s))
                (λ g. Below-recv_sized head opcode text cur_len _ s)))

  Below-recv_frame :
      (client : Bool) (opcode : ℕ) (text : List ℕ) (cur_len : ℕ) (s : S)
      → Below (recv_frame io max_size client opcode text cur_len s)
  unfolding recv_frame recv_head after_pong
  Below-recv_frame client opcode text cur_len s = Below-got 2 s _ (λ bytes s.
      let head = parse_head bytes in
      Below-if (head.opcode == ping_frame) _ _
        (λ e. Below-if (positive (pong io s).0 == 0) _ _ (λ e. tt) (λ e. tt))
        (λ e.
          Below-if (head.opcode == pong_frame) _ _ (λ e. tt)
            (λ e.
              Below-if
                (head.opcode == continue_frame
                  || head.opcode == text_frame
                  || head.opcode == bin_frame)
                _ _ (λ e. Below-recv_data client head opcode text cur_len s) (λ e. tt))))

  abbrev MessageBelow : Option (Option WsFrameMessage × S) → Type 0
  MessageBelow none = Unit
  MessageBelow (some (none, s)) = Unit
  MessageBelow (some (some m, s)) = length m.msg < max_size

  recv_loop-MessageBelow :
      (turns : ℕ) (client : Bool) (opcode : ℕ) (text : List ℕ) (cur_len : ℕ) (s : S)
      → MessageBelow (recv_loop io turns max_size client opcode text cur_len s)
  unfolding recv_loop
  recv_loop-MessageBelow zero client opcode text cur_len s = tt
  recv_loop-MessageBelow (suc turns) client opcode text cur_len s =
      by_turn (recv_frame io max_size client opcode text cur_len s) refl
        (Below-recv_frame client opcode text cur_len s)
        (λ opcode text cur_len s. recv_loop-MessageBelow turns client opcode text cur_len s)
    where
      by_turn :
          (t : Turn S)
          → recv_frame io max_size client opcode text cur_len s ≡ t
          → Below t
          → ((opcode : ℕ) (text : List ℕ) (cur_len : ℕ) (s : S)
              → MessageBelow (recv_loop io turns max_size client opcode text cur_len s))
          → MessageBelow (recv_loop io (suc turns) max_size client opcode text cur_len s)
      by_turn (broken s') e h later = rw e tt
      by_turn (received m s') e h later = rw e h
      by_turn (outside s') e h later = rw e tt
      by_turn (continued opcode' text' cur_len' s') e h later =
          rw e (later opcode' text' cur_len' s')

  -- Whatever the stream gives, a message that WSRecvMessage returns, without having written outside
  -- of its data, is shorter than the configured size.
  pub recv_message-bound :
      (turns : ℕ) (client : Bool) (s s' : S) (m : WsFrameMessage)
      → recv_message io turns max_size client s ≡ some (some m, s')
      → length m.msg < max_size
  unfolding recv_message
  recv_message-bound turns client s s' m e = rw e at (recv_loop-MessageBelow turns client 0 [] 0 s)
