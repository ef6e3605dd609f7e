-- ===== src/WebSocket/Turns.antt =====
-- A turn of WSRecvMessage (JKYi/http/ws_session.cc) on which a frame is pending.
use jkyi.Base.{
  ℕ, ◌+◌, ◌%◌, ◌^◌, ◌≤◌, ◌<◌, ◌≡◌, refl, ap, ◌∙◌, arith, Bool, false, not, ◌&&◌, List, ◌++◌, ◌==◌,
  length, if◌then◌else◌, length-append, lt→leb-false,
}
use jkyi.Stream.{Stream}
use jkyi.Stream.Delivery.{Delivers}
use jkyi.WebSocket.{
  WsFrameHead, WsFrameMessage, Turn, received, continued, head_bytes, parse_head, head_for,
  int_size, got, store, recv_sized, recv_data, recv_head, recv_frame,
}
use jkyi.WebSocket.Masks.{parse_head-head_bytes}
use jkyi.WebSocket.Send.{
  length_bytes, key_bytes, body, frame, parts, frame-parts, length-head_bytes, payload-fits,
}
use jkyi.WebSocket.Receive.{
  append_piece, payload-lt, append_assoc4, payload-same, got-next, with_length-next, with_mask-next,
  length-body, key_of, unmasked,
}

-- The opcode that a message has after a frame: the first that is not that of a continuation.
abbrev pub opcode_after : ℕ → ℕ → ℕ
opcode_after opcode new = if opcode == 0 && not (new == 0) then new else opcode

-- What a frame of data does to a message of which `text` has come.
abbrev pub turn_of : {S : Type 0} → WsFrameMessage → Bool → ℕ → List ℕ → S → Turn S
turn_of m fin opcode text s =
    let opcode' = opcode_after opcode m.opcode in
    if fin
    then received (record { opcode = opcode'; msg = text ++ m.msg }) s
    else continued opcode' (text ++ m.msg) (length (text ++ m.msg)) s

module _ {S : Type 0} (io : Stream S) (pending : S → List ℕ) (delivers : Delivers io pending) where
  store-turn :
      (rand_value : ℕ) (m : WsFrameMessage) (client fin : Bool) (opcode : ℕ) (text : List ℕ) (s : S)
      → m.opcode < 3
      → length text + length m.msg < 2 ^ 31
      → store io
          (head_for m client fin)
          opcode
          text
          (length text)
          (length m.msg)
          (key_of client rand_value)
          (body client rand_value m.msg)
          s
        ≡ turn_of m fin opcode text s
  unfolding store int_size head_for
  store-turn rand_value m client fin opcode text s h k =
      let o : m.opcode % 16 ≡ m.opcode = omega arith in
      let whole : (length text + length m.msg) % 2 ^ 64 ≡ length text + length m.msg =
        omega arith in
      let size : int_size (length text + length m.msg) ≡ length (text ++ m.msg) =
        ground (arith, length-append text m.msg) in
      rw (o, whole, unmasked client rand_value m.msg, append_piece text m.msg, size) refl

  recv_sized-turn :
      (max_size rand_value : ℕ) (m : WsFrameMessage) (client fin : Bool) (opcode : ℕ)
      (text rest : List ℕ) (s : S)
      → m.opcode < 3
      → 0 < length m.msg
      → length text + length m.msg < max_size
      → max_size ≤ 2 ^ 31
      → pending s ≡ key_bytes client rand_value ++ (body client rand_value m.msg ++ rest)
      → (s' : S) × (pending s' ≡ rest)
        × (recv_sized io max_size (head_for m client fin) opcode text (length text) (length m.msg) s
            ≡ turn_of m fin opcode text s')
  unfolding recv_sized head_for
  recv_sized-turn max_size rand_value m client fin opcode text rest s h some_data k l e =
      let head = head_for m client fin in
      let n = length m.msg in
      let fits = lt→leb-false max_size ((length text + n) % 2 ^ 64) (omega (arith, k, l)) in
      let finish =
        λ (key bytes : List ℕ) (s : S). store io head opcode text (length text) n key bytes s in
      let masks =
        with_mask-next io pending delivers client rand_value (body client rand_value m.msg ++ rest)
          s (λ key s. got io n s (λ bytes s. finish key bytes s)) e in
      let before = lt→leb-false (2 ^ 31) (length text) (omega (arith, k, l)) in
      let bytes =
        got-next io pending delivers n (body client rand_value m.msg) rest masks.0
          (λ bytes s. finish (key_of client rand_value) bytes s) masks.1
          (length-body client rand_value m.msg) some_data (omega arith) in
      (
        bytes.0,
        bytes.1,
        rw (fits, before)
            (masks.2
              ∙ bytes.2
              ∙ store-turn rand_value m client fin opcode text bytes.0 h (omega arith)),
      )

  recv_head-data :
      (max_size : ℕ) (as_client : Bool) (head : WsFrameHead) (opcode : ℕ) (text : List ℕ)
      (cur_len : ℕ) (s : S)
      → head.opcode < 3
      → recv_head io max_size as_client head opcode text cur_len s
        ≡ recv_data io max_size as_client head opcode text cur_len s
  unfolding recv_head
  recv_head-data max_size as_client head opcode text cur_len s h = ground arith

  -- recv_frame
  pub recv_frame-turn :
      (max_size rand_value : ℕ) (as_client : Bool) (m : WsFrameMessage) (client fin : Bool)
      (opcode : ℕ) (text rest : List ℕ) (s : S)
      → m.opcode < 3
      → 0 < length m.msg
      → length text + length m.msg < max_size
      → max_size ≤ 2 ^ 31
      → (not as_client && not client) ≡ false
      → pending s ≡ frame rand_value m client fin ++ rest
      → (s' : S) × (pending s' ≡ rest)
        × (recv_frame io max_size as_client opcode text (length text) s
            ≡ turn_of m fin opcode text s')
  unfolding recv_frame recv_data parts head_for
  recv_frame-turn max_size rand_value as_client m client fin opcode text rest s h some_data k l
        masked e =
      let head = head_for m client fin in
      let n = length m.msg in
      let lens = length_bytes head.payload n in
      let keys = key_bytes client rand_value in
      let last = body client rand_value m.msg in
      let one =
        got-next io pending delivers 2 (head_bytes head) (lens ++ (keys ++ (last ++ rest))) s
          (λ bytes s.
            recv_head io max_size as_client (parse_head bytes) opcode text (length text) s)
          (e
            ∙ ap (λ (l : List ℕ). l ++ rest) (frame-parts rand_value m client fin)
            ∙ append_assoc4 (head_bytes head) lens keys last rest)
          (length-head_bytes head) (omega arith) (omega arith) in
      let two =
        with_length-next io pending delivers head.payload n (keys ++ (last ++ rest)) one.0
          (λ n s. recv_sized io max_size head opcode text (length text) n s) (omega arith)
          (payload-fits m client fin) (payload-same m client fin) one.1 in
      let three =
        recv_sized-turn max_size rand_value m client fin opcode text rest two.0 h some_data k l
          two.1 in
      let taken : recv_data io max_size as_client head opcode text (length text) one.0
          ≡ turn_of m fin opcode text three.0 =
        rw masked (two.2 ∙ three.2) in
      (
        three.0,
        three.1,
        one.2
            ∙ ap
                (λ (head : WsFrameHead).
                  recv_head io max_size as_client head opcode text (length text) one.0)
                (parse_head-head_bytes head (omega arith) (payload-lt m client fin))
            ∙ recv_head-data max_size as_client head opcode text (length text) one.0
                (omega (arith, h))
            ∙ taken,
      )
