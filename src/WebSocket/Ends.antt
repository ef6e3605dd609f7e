-- ===== src/WebSocket/Ends.antt =====
-- WSRecvMessage (JKYi/http/ws_session.cc) ends on a stream that ends.
use jkyi.Base.{
  ℕ, zero, suc, ◌+◌, ◌*◌, ◌%◌, ◌^◌, ◌≤◌, ◌<◌, ◌≡◌, inl, inr, refl, arith, Bool, true, false, not,
  ◌&&◌, ◌||◌, lt→ltb, lt→leb-false, leb-false→lt, Option, none, some, List, [], ◌==◌, leb,
  if◌then◌else◌,
}
use jkyi.Codec.Int.{ℤ, pos, negsuc}
use jkyi.Stream.{Stream, positive, read_fix_size, write_fix_size}
use jkyi.Stream.FixSize.{zero_or_more, to_left_small}
use jkyi.Stream.Finite.{Finite, read_fix_size-left, write_fix_size-left}
use jkyi.WebSocket.{
  WsFrameHead, WsFrameMessage, Turn, broken, received, continued, outside, int_size, head_bytes,
  parse_head, got, with_length, with_mask, store, recv_sized, recv_data, recv_head, after_pong,
  recv_frame, recv_loop, recv_message, ping_frame, pong_frame, continue_frame, text_frame,
  bin_frame, control_head, close_negative, send_control, pong,
}

int_size-small : (x : ℕ) → x % 2 ^ 64 < 2 ^ 31 → int_size x < 2 ^ 31
unfolding int_size
int_size-small x h =
    let small : x % 2 ^ 32 < 2 ^ 31 = omega arith in rw (lt→ltb (x % 2 ^ 32) (2 ^ 31) small) small

module _ {S : Type 0} (io : Stream S) (left : S → ℕ) (finite : Finite io left) where
  -- A turn after which the loop goes on leaves at most `bound` less the two bytes of a head.
  abbrev Within : ℕ → Turn S → Type 0
  Within bound (broken s) = Unit
  Within bound (received m s) = Unit
  Within bound (continued opcode text cur_len s) = (left s + 2 ≤ bound) × (cur_len < 2 ^ 31)
  Within bound (outside s) = ⊥

  Within-if :
      (bound : ℕ) (b : Bool) (t u : Turn S)
      → Within bound t
      → Within bound u
      → Within bound (if b then t else u)
  Within-if bound true t u h k = h
  Within-if bound false t u h k = k

  Within-test :
      (bound : ℕ) (b : Bool) (t u : Turn S)
      → (b ≡ true → Within bound t)
      → (b ≡ false → Within bound u)
      → Within bound (if b then t else u)
  Within-test bound true t u h k = h refl
  Within-test bound false t u h k = k refl

  Within-got :
      (bound n : ℕ) (s : S) (next : List ℕ → S → Turn S)
      → left s + 2 ≤ bound
      → ((bytes : List ℕ) (s : S) → left s + 2 ≤ bound → Within bound (next bytes s))
      → Within bound (got io n s next)
  unfolding got
  Within-got bound n s next h k =
      let r = read_fix_size io n s in
      Within-if bound (positive r.0 == 0) _ _ tt
        (k r.1 r.2 (omega (arith, h, (read_fix_size-left io left finite n s).0)))

  Within-store :
      (bound : ℕ) (head : WsFrameHead) (opcode : ℕ) (text : List ℕ) (cur_len n : ℕ)
      (mask bytes : List ℕ) (s : S)
      → left s + 2 ≤ bound
      → (cur_len + n) % 2 ^ 64 < 2 ^ 31
      → Within bound (store io head opcode text cur_len n mask bytes s)
  unfolding store
  Within-store bound head opcode text cur_len n mask bytes s h k =
      Within-if bound head.fin _ _ tt (h, int_size-small (cur_len + n) k)

  Within-recv_sized :
      (bound max_size : ℕ) (head : WsFrameHead) (opcode : ℕ) (text : List ℕ) (cur_len n : ℕ) (s : S)
      → max_size ≤ 2 ^ 31
      → cur_len < 2 ^ 31
      → left s + 2 ≤ bound
      → Within bound (recv_sized io max_size head opcode text cur_len n s)
  unfolding recv_sized with_mask
  Within-recv_sized bound max_size head opcode text cur_len n s l k h =
      Within-test bound (leb max_size ((cur_len + n) % 2 ^ 64)) _ _ (λ e. tt)
        (λ e.
          let small : (cur_len + n) % 2 ^ 64 < 2 ^ 31 =
            omega (arith, leb-false→lt max_size ((cur_len + n) % 2 ^ 64) e, l) in
          rw (lt→leb-false (2 ^ 31) cur_len k) (
            Within-if bound head.mask _ _ (Within-got bound 4 s _ h (payload small))
              (payload small _ s h)))
    where
      payload :
          (cur_len + n) % 2 ^ 64 < 2 ^ 31
          → (mask : List ℕ) (s : S) → left s + 2 ≤ bound
          → Within bound (got io n s (λ bytes s. store io head opcode text cur_len n mask bytes s))
      payload small mask s h =
          Within-got bound n s _ h
            (λ bytes s h. Within-store bound head opcode text cur_len n mask bytes s h small)

  Within-recv_data :
      (bound max_size : ℕ) (client : Bool) (head : WsFrameHead) (opcode : ℕ) (text : List ℕ)
      (cur_len : ℕ) (s : S)
      → max_size ≤ 2 ^ 31
      → cur_len < 2 ^ 31
      → left s + 2 ≤ bound
      → Within bound (recv_data io max_size client head opcode text cur_len s)
  unfolding recv_data with_length
  Within-recv_data bound max_size client head opcode text cur_len s l k h =
      let sized = λ (n : ℕ) (s : S) (h : left s + 2 ≤ bound).
        Within-recv_sized bound max_size head opcode text cur_len n s l k h in
      Within-if bound (not client && not head.mask) _ _ tt (
        Within-if bound (head.payload == 126) _ _
          (Within-got bound 2 s _ h (λ bytes s h. sized _ s h))
          (Within-if bound (head.payload == 127) _ _
            (Within-got bound 8 s _ h (λ bytes s h. sized _ s h)) (sized _ s h)))

  close_negative-left : (r : ℤ × S) → left (close_negative io r).1 ≤ left r.1
  unfolding close_negative
  close_negative-left (pos v, s) = omega arith
  close_negative-left (negsuc v, s) = finite.close s

  pong-left : (s : S) → left (pong io s).1 ≤ left s
  unfolding pong send_control
  pong-left s =
      let head = head_bytes (control_head pong_frame) in
      omega (
        arith,
        close_negative-left (write_fix_size io head s),
        write_fix_size-left io left finite head s,
      )

  Within-recv_head :
      (bound max_size : ℕ) (client : Bool) (head : WsFrameHead) (opcode : ℕ) (text : List ℕ)
      (cur_len : ℕ) (s : S)
      → max_size ≤ 2 ^ 31
      → cur_len < 2 ^ 31
      → left s + 2 ≤ bound
      → Within bound (recv_head io max_size client head opcode text cur_len s)
  unfolding recv_head after_pong
  Within-recv_head bound max_size client head opcode text cur_len s l k h =
      Within-if bound (head.opcode == ping_frame) _ _
        (Within-if bound (positive (pong io s).0 == 0) _ _ tt (omega (arith, h, pong-left s), k))
        (Within-if bound (head.opcode == pong_frame) _ _ (h, k)
          (Within-if bound
            (head.opcode == continue_frame || head.opcode == text_frame || head.opcode == bin_frame)
            _ _ (Within-recv_data bound max_size client head opcode text cur_len s l k h) (h, k)))

  -- A turn that goes on has read a head, of two bytes.
  Within-recv_frame :
      (bound max_size : ℕ) (client : Bool) (opcode : ℕ) (text : List ℕ) (cur_len : ℕ) (s : S)
      → max_size ≤ 2 ^ 31
      → cur_len < 2 ^ 31
      → left s ≤ bound
      → Within bound (recv_frame io max_size client opcode text cur_len s)
  unfolding recv_frame got
  Within-recv_frame bound max_size client opcode text cur_len s l k h =
      let r = read_fix_size io 2 s in
      let taken = (read_fix_size-left io left finite 2 s).1 in
      elim (zero_or_more (positive r.0)) [
        | inl z ↦ rw z.0 tt
        | inr z ↦ rw z.0 (
            Within-recv_head bound max_size client (parse_head r.1) opcode text cur_len r.2 l k
              (omega (arith, h, taken z.1, to_left_small 2 (omega arith))))
      ]

  recv_loop-ends :
      (turns max_size : ℕ) (client : Bool) (opcode : ℕ) (text : List ℕ) (cur_len : ℕ) (s : S)
      → max_size ≤ 2 ^ 31
      → cur_len < 2 ^ 31
      → left s < 2 * turns
      → (r : Option WsFrameMessage × S) × (recv_loop io turns max_size client opcode text cur_len s
          ≡ some r)
  unfolding recv_loop
  recv_loop-ends zero max_size client opcode text cur_len s l k h = absurd (omega arith)
  recv_loop-ends (suc turns) max_size client opcode text cur_len s l k h =
      by_turn (recv_frame io max_size client opcode text cur_len s) refl
        (Within-recv_frame (left s) max_size client opcode text cur_len s l k (omega arith))
        (λ opcode text cur_len s k h.
          recv_loop-ends turns max_size client opcode text cur_len s l k h)
    where
      by_turn :
          (t : Turn S)
          → recv_frame io max_size client opcode text cur_len s ≡ t
          → Within (left s) t
          → ((opcode : ℕ) (text : List ℕ) (cur_len : ℕ) (s : S)
              → cur_len < 2 ^ 31
              → left s < 2 * turns
              → (r : Option WsFrameMessage × S) × (recv_loop io turns max_size client opcode text
                    cur_len s
                  ≡ some r))
          → (r : Option WsFrameMessage × S) × (recv_loop io
                (suc turns)
                max_size
                client
                opcode
                text
                cur_len
                s
              ≡ some r)
      by_turn (broken s') e k later = ((none, io.close s'), rw e refl)
      by_turn (received m s') e k later = ((some m, s'), rw e refl)
      by_turn (continued opcode' text' cur_len' s') e k later =
          let r = later opcode' text' cur_len' s' k.1 (omega (arith, h, k.0)) in (r.0, rw e r.1)
      by_turn (outside s') e k later = absurd k

  -- On a stream that gives at most `left` more bytes, and with a configured size of at most 2 GB,
  -- WSRecvMessage ends within any number of turns above half of `left`, with a message or with a
  -- null pointer, and has not written outside of `data`.
  pub recv_message-ends :
      (turns max_size : ℕ) (client : Bool) (s : S)
      → max_size ≤ 2 ^ 31
      → left s < 2 * turns
      → (r : Option WsFrameMessage × S) × (recv_message io turns max_size client s ≡ some r)
  unfolding recv_message
  recv_message-ends turns max_size client s l h =
      recv_loop-ends turns max_size client 0 [] 0 s l (omega arith) h
