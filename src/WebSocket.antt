-- ===== src/WebSocket.antt =====
-- WebSocket frames over a stream: JKYi/http/ws_session.h and JKYi/http/ws_session.cc. Bit-fields
-- and integers lie in memory as on x86, lowest first.
pub mod Masks
pub mod Send
pub mod Receive
pub mod Turns
pub mod Trips
pub mod Limit
pub mod Control
pub mod Ends
mod Runs
use jkyi.Base.{
  ℕ, zero, suc, ◌+◌, ◌-◌, ◌*◌, ◌/◌, ◌%◌, ◌^◌, Bool, true, false, not, ◌&&◌, ◌||◌, Option, none,
  some, List, [], ◌∷◌, ◌++◌, ◌==◌, ltb, leb, length, take, drop, replicate, get_elem?,
  if◌then◌else◌,
}
use jkyi.Base.Splice.{resize, splice}
use jkyi.Codec.Int.{ℤ, pos, negsuc, to_signed}
use jkyi.Endian.{Endian, little, to_memory, from_memory, to_little_endian}
use jkyi.Stream.{Stream, positive, to_int, read_fix_size, write_fix_size}
use Prim.Native.Nat.{bit_xor}

pub record WsFrameHead : Type 0 where
  opcode : ℕ
  rsv1 : Bool
  rsv2 : Bool
  rsv3 : Bool
  fin : Bool
  payload : ℕ
  mask : Bool

pub record WsFrameMessage : Type 0 where
  opcode : ℕ
  msg : List ℕ

-- The values of OPCODE that the functions name
abbrev pub continue_frame : ℕ
continue_frame = 0

abbrev pub text_frame : ℕ
text_frame = 1

abbrev pub bin_frame : ℕ
bin_frame = 2

abbrev pub ping_frame : ℕ
ping_frame = 9

abbrev pub pong_frame : ℕ
pong_frame = 10

abbrev pub bit : Bool → ℕ
bit true = 1
bit false = 0

abbrev pub is_set : ℕ → ℕ → Bool
is_set i b = (b / 2 ^ i) % 2 == 1

-- A head in memory: `opcode` is a field of 4 bits and `payload` one of 7.
unfoldable pub head_bytes : WsFrameHead → List ℕ
head_bytes head =
    (head.opcode % 16
      + 16 * bit head.rsv1
      + 32 * bit head.rsv2
      + 64 * bit head.rsv3
      + 128 * bit head.fin)
    ∷ (head.payload % 128 + 128 * bit head.mask)
    ∷ []

abbrev pub head_of : ℕ → ℕ → WsFrameHead
head_of a b = record {
  opcode = a % 16;
  rsv1 = is_set 4 a;
  rsv2 = is_set 5 a;
  rsv3 = is_set 6 a;
  fin = is_set 7 a;
  payload = b % 128;
  mask = is_set 7 b;
}

unfoldable pub parse_head : List ℕ → WsFrameHead
parse_head (a ∷ b ∷ rest) = head_of a b
parse_head (a ∷ []) = head_of a 0
parse_head [] = head_of 0 0

-- `data[i] ^= mask[i % 4]`, from `i` on
unfoldable pub mask_byte : List ℕ → ℕ → ℕ
mask_byte mask i = or_zero (get_elem? mask (i % 4))
  where
    or_zero : Option ℕ → ℕ
    or_zero none = 0
    or_zero (some b) = b

unfoldable pub xor_mask : List ℕ → ℕ → List ℕ → List ℕ
xor_mask mask i [] = []
xor_mask mask i (b ∷ bs) = bit_xor b (mask_byte mask i) ∷ xor_mask mask (suc i) bs

-- `int cur_len` where it is added to a `uint64_t`
unfoldable pub int_size : ℕ → ℕ
int_size x = let r = x % 2 ^ 32 in if ltb r (2 ^ 31) then r else r + (2 ^ 64 - 2 ^ 32)

-- The head that WSSendMessage builds
unfoldable pub head_for : WsFrameMessage → Bool → Bool → WsFrameHead
head_for m client fin = record {
  opcode = m.opcode % 16;
  rsv1 = false;
  rsv2 = false;
  rsv3 = false;
  fin = fin;
  payload =
      if ltb (length m.msg) 126
      then length m.msg
      else if ltb (length m.msg) 65536
      then 126
      else 127;
  mask = client;
}

unfoldable pub control_head : ℕ → WsFrameHead
control_head opcode = record {
  opcode = opcode;
  rsv1 = false;
  rsv2 = false;
  rsv3 = false;
  fin = true;
  payload = 0;
  mask = false;
}

-- How a turn of the loop of WSRecvMessage ends: a break, the return of a message, the next turn
-- with `opcode`, `data` and `cur_len`, or bytes that are written outside of `data`.
pub data Turn (S : Type 0) : Type 0 where
  broken : S → Turn S
  received : WsFrameMessage → S → Turn S
  continued : ℕ → List ℕ → ℕ → S → Turn S
  outside : S → Turn S

module _ {S : Type 0} (io : Stream S) where
  -- WSPing and WSPong
  unfoldable pub close_negative : ℤ × S → ℤ × S
  close_negative (pos v, s) = (pos v, s)
  close_negative (negsuc v, s) = (negsuc v, io.close s)

  unfoldable pub send_control : ℕ → S → ℤ × S
  send_control opcode s = close_negative (write_fix_size io (head_bytes (control_head opcode)) s)

  unfoldable pub ping : S → ℤ × S
  ping s = send_control ping_frame s

  unfoldable pub pong : S → ℤ × S
  pong s = send_control pong_frame s

  -- `if(stream->readFixSize(..) <= 0) break`, and what follows it
  unfoldable pub got : ℕ → S → (List ℕ → S → Turn S) → Turn S
  got n s next =
      let r = read_fix_size io n s in if positive r.0 == 0 then broken r.2 else next r.1 r.2

  -- The length of the payload, of a head that says so itself or is followed by it
  unfoldable pub with_length : ℕ → S → (ℕ → S → Turn S) → Turn S
  with_length payload s next =
      if payload == 126
      then got 2 s (λ len s. next (to_little_endian 2 (from_memory little len)) s)
      else if payload == 127
      then got 8 s (λ len s. next (to_little_endian 8 (from_memory little len)) s)
      else next payload s

  unfoldable pub with_mask : Bool → S → (List ℕ → S → Turn S) → Turn S
  with_mask mask s next = if mask then got 4 s next else next (replicate 4 0) s

  -- What becomes of the payload: the rest of the turn, after the last read, which put `length`
  -- bytes from `cur_len` on; `recv_sized` comes here with a `cur_len` below 2 ^ 31 only.
  unfoldable pub store : WsFrameHead → ℕ → List ℕ → ℕ → ℕ → List ℕ → List ℕ → S → Turn S
  store head opcode text cur_len length mask bytes s =
      let piece = if head.mask then xor_mask mask 0 bytes else bytes in
      let text' = splice (resize ((cur_len + length) % 2 ^ 64) text) cur_len piece in
      let opcode' =
        if opcode == 0 && not (head.opcode == continue_frame) then head.opcode else opcode in
      if head.fin
      then received (record { opcode = opcode'; msg = text' }) s
      else continued opcode' text' (int_size (cur_len + length)) s

  -- The size of the whole, the mask and the payload, once the length is known. `max_size` is the
  -- value of g_websocket_message_max_size. A negative `cur_len`, of 2 ^ 31 bytes or more, makes
  -- `&data[cur_len]` a place before the data: what the code does with it is not defined.
  unfoldable pub recv_sized : ℕ → WsFrameHead → ℕ → List ℕ → ℕ → ℕ → S → Turn S
  recv_sized max_size head opcode text cur_len length s =
      if leb max_size ((cur_len + length) % 2 ^ 64)
      then broken s
      else with_mask head.mask s (λ mask s.
        if leb (2 ^ 31) cur_len
        then outside s
        else got length s (λ bytes s. store head opcode text cur_len length mask bytes s))

  -- A frame of data after its head
  unfoldable pub recv_data : ℕ → Bool → WsFrameHead → ℕ → List ℕ → ℕ → S → Turn S
  recv_data max_size client head opcode text cur_len s =
      if not client && not head.mask
      then broken s
      else with_length head.payload s
          (λ length s. recv_sized max_size head opcode text cur_len length s)

  unfoldable pub after_pong : ℕ → List ℕ → ℕ → ℤ × S → Turn S
  after_pong opcode text cur_len r =
      if positive r.0 == 0 then broken r.1 else continued opcode text cur_len r.1

  unfoldable pub recv_head : ℕ → Bool → WsFrameHead → ℕ → List ℕ → ℕ → S → Turn S
  recv_head max_size client head opcode text cur_len s =
      if head.opcode == ping_frame
      then after_pong opcode text cur_len (pong s)
      else if head.opcode == pong_frame
      then continued opcode text cur_len s
      else if head.opcode == continue_frame || head.opcode == text_frame || head.opcode == bin_frame
      then recv_data max_size client head opcode text cur_len s
      else continued opcode text cur_len s

  -- One turn of the loop of WSRecvMessage
  unfoldable pub recv_frame : ℕ → Bool → ℕ → List ℕ → ℕ → S → Turn S
  recv_frame max_size client opcode text cur_len s =
      got 2 s (λ bytes s. recv_head max_size client (parse_head bytes) opcode text cur_len s)

  -- WSRecvMessage, for up to `turns` turns of its loop: `none` if it has not ended by then or has
  -- written outside of `data`, else the message or a null pointer.
  unfoldable pub recv_loop : ℕ → ℕ → Bool → ℕ → List ℕ → ℕ → S → Option (Option WsFrameMessage × S)
  recv_loop zero max_size client opcode text cur_len s = none
  recv_loop (suc turns) max_size client opcode text cur_len s =
      after (λ opcode text cur_len s. recv_loop turns max_size client opcode text cur_len s)
        (recv_frame max_size client opcode text cur_len s)
    where
      after :
          (ℕ → List ℕ → ℕ → S → Option (Option WsFrameMessage × S))
          → Turn S
          → Option (Option WsFrameMessage × S)
      after next (broken s) = some (none, io.close s)
      after next (received m s) = some (some m, s)
      after next (outside s) = none
      after next (continued opcode text cur_len s) = next opcode text cur_len s

  unfoldable pub recv_message : ℕ → ℕ → Bool → S → Option (Option WsFrameMessage × S)
  recv_message turns max_size client s = recv_loop turns max_size client 0 [] 0 s

  -- `if(stream->writeFixSize(..) <= 0) break`, and what follows it, in WSSendMessage
  unfoldable pub put : List ℕ → List ℕ → S → (S → ℤ × List ℕ × S) → ℤ × List ℕ × S
  put buffer text s next =
      let r = write_fix_size io buffer s in
      if positive r.0 == 0 then (negsuc 0, text, io.close r.1) else next r.1

  unfoldable pub put_length : ℕ → ℕ → List ℕ → S → (S → ℤ × List ℕ × S) → ℤ × List ℕ × S
  put_length payload size text s next =
      if payload == 126
      then put (to_memory little 2 (to_little_endian 2 (size % 2 ^ 16))) text s next
      else if payload == 127
      then put (to_memory little 8 (to_little_endian 8 size)) text s next
      else next s

  -- WSSendMessage, with the value of `rand()` as an argument. It gives its result, the data that it
  -- leaves in the message, and the stream.
  unfoldable pub send_message : ℕ → WsFrameMessage → Bool → Bool → S → ℤ × List ℕ × S
  send_message rand_value m client fin s =
      let head = head_for m client fin in
      let size = length m.msg in
      let mask = to_memory little 4 rand_value in
      let text = if client then xor_mask mask 0 m.msg else m.msg in
      put (head_bytes head) m.msg s (λ s. put_length head.payload size m.msg s (λ s.
        let last = λ (s : S). put text text s (λ s. (to_int (size + 2), text, s)) in
        if client then put mask text s last else last s))
