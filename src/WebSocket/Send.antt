-- ===== src/WebSocket/Send.antt =====
-- WSSendMessage of JKYi/http/ws_session.cc over a stream that takes what is written.
use jkyi.Base.{
  ltb, ◌*◌, ◌∷◌, ℕ, ◌+◌, ◌%◌, ◌^◌, ◌<◌, ◌≡◌, inl, inr, refl, sym, ap, ◌∙◌, arith, Bool, true, false,
  List, [], ◌++◌, ◌==◌, length, if◌then◌else◌, append_assoc, append-nil, Bool-cases,
}
use jkyi.Codec.Int.{ℤ, negsuc, to_signed}
use jkyi.Endian.{little, to_memory, to_little_endian, length-to_memory}
use jkyi.Stream.{Stream, positive, to_int, to_left, finish, write_loop, write_fix_size}
use jkyi.Stream.FixSize.{zero_or_more}
use jkyi.Stream.Delivery.{Accepts, write_fix_size-Accepts}
use jkyi.WebSocket.{
  bit, WsFrameHead, WsFrameMessage, head_bytes, head_for, xor_mask, put, put_length, send_message,
}
use jkyi.WebSocket.Masks.{length-xor_mask}

-- The parts of a frame as the functions put them together: its head, its length if the head does
-- not hold it, its mask, and its masked data.
abbrev pub length_bytes : ℕ → ℕ → List ℕ
length_bytes payload size =
    if payload == 126
    then to_memory little 2 size
    else if payload == 127
    then to_memory little 8 size
    else []

abbrev pub body : Bool → ℕ → List ℕ → List ℕ
body client rand_value text =
    if client then xor_mask (to_memory little 4 rand_value) 0 text else text

abbrev pub key_bytes : Bool → ℕ → List ℕ
key_bytes client rand_value = if client then to_memory little 4 rand_value else []

unfoldable pub parts : ℕ → WsFrameMessage → Bool → Bool → List ℕ
parts rand_value m client fin =
    head_bytes (head_for m client fin)
    ++ (length_bytes (head_for m client fin).payload (length m.msg)
        ++ (key_bytes client rand_value ++ body client rand_value m.msg))

-- A frame on the wire: two bytes of head with the size if it is below 126, or the code of how many
-- bytes of size follow; the size; the mask; and the masked data.
abbrev pub size_code : ℕ → ℕ
size_code size = if ltb size 126 then size else if ltb size 65536 then 126 else 127

abbrev pub size_bytes : ℕ → List ℕ
size_bytes size =
    if ltb size 126
    then []
    else if ltb size 65536
    then to_memory little 2 size
    else to_memory little 8 size

unfoldable pub frame : ℕ → WsFrameMessage → Bool → Bool → List ℕ
frame rand_value m client fin =
    (m.opcode % 16 + 128 * bit fin)
    ∷ (size_code (length m.msg) + 128 * bit client)
    ∷ (size_bytes (length m.msg) ++ (key_bytes client rand_value ++ body client rand_value m.msg))

pub frame-parts :
    (rand_value : ℕ) (m : WsFrameMessage) (client fin : Bool)
    → frame rand_value m client fin ≡ parts rand_value m client fin
unfolding frame parts head_bytes head_for
frame-parts rand_value m client fin =
    let rest = key_bytes client rand_value ++ body client rand_value m.msg in
    let size = length m.msg in
    let code : size_code size % 128 ≡ size_code size = ground arith in
    let sizes : length_bytes (size_code size) size ≡ size_bytes size = ground arith in
    rw (code, sizes) (ground arith)

pub length-head_bytes : (head : WsFrameHead) → length (head_bytes head) ≡ 2
unfolding head_bytes
length-head_bytes head = refl

-- The payload is 126 only for a size of two bytes.
pub payload-fits :
    (m : WsFrameMessage) (client fin : Bool)
    → ((head_for m client fin).payload == 126) ≡ true
    → length m.msg < 2 ^ 16
unfolding head_for
payload-fits m client fin e = ground (arith, e)

module _ {S : Type 0} (io : Stream S) (sent : S → List ℕ) (accepts : Accepts io sent) where
  -- A `put` of some bytes goes on, with the bytes sent.
  put-next :
      (buffer text : List ℕ) (s : S) (next : S → ℤ × List ℕ × S)
      → 0 < length buffer
      → length buffer < 2 ^ 31
      → (s' : S) × (sent s' ≡ sent s ++ buffer) × (put io buffer text s next ≡ next s')
  unfolding put positive
  put-next buffer text s next h k =
      let r = write_fix_size io buffer s in
      let w = write_fix_size-Accepts io sent accepts buffer s k in
      elim (zero_or_more (positive r.0)) [
        | inl z ↦ absurd (omega (arith, h, z.1, ap positive w.0))
        | inr z ↦ (r.1, w.1, rw z.0 refl)
      ]

  put_length-next :
      (payload size : ℕ) (text : List ℕ) (s : S) (next : S → ℤ × List ℕ × S)
      → ((payload == 126) ≡ true → size < 2 ^ 16)
      → (s' : S) × (sent s' ≡ sent s ++ length_bytes payload size)
        × (put_length io payload size text s next ≡ next s')
  unfolding put_length to_little_endian
  put_length-next payload size text s next fits = elim (Bool-cases (payload == 126)) [
    | inl e ↦
        let small : size % 2 ^ 16 ≡ size = omega (arith, fits e) in
        let n = length-to_memory little 2 size in
        rw (e, small)
          (put-next (to_memory little 2 size) text s next (omega (arith, n)) (omega (arith, n)))
    | inr e ↦ rw e (elim (Bool-cases (payload == 127)) [
      | inl f ↦
          let n = length-to_memory little 8 size in
          rw f
            (put-next (to_memory little 8 size) text s next (omega (arith, n)) (omega (arith, n)))
      | inr f ↦ rw f (s, sym (append-nil (sent s)), refl)
    ])
  ]

  -- The mask, if there is one, and the data.
  put_rest-next :
      (rand_value : ℕ) (client : Bool) (text : List ℕ) (s : S) (r : ℤ)
      → 0 < length text
      → length text < 2 ^ 31
      → let key = to_memory little 4 rand_value in
        let masked = body client rand_value text in
        let last = λ (s : S). put io masked masked s (λ s. (r, masked, s)) in
        (s' : S) × (sent s' ≡ sent s ++ (key_bytes client rand_value ++ masked))
        × ((if client then put io key masked s last else last s) ≡ (r, masked, s'))
  put_rest-next rand_value false text s r h k = put-next text text s (λ s. (r, text, s)) h k
  put_rest-next rand_value true text s r h k =
      let key = to_memory little 4 rand_value in
      let masked = body true rand_value text in
      let n = length-to_memory little 4 rand_value in
      let m = length-xor_mask key 0 text in
      let last = λ (s : S). put io masked masked s (λ s. (r, masked, s)) in
      let first = put-next key masked s last (omega (arith, n)) (omega (arith, n)) in
      let second =
        put-next masked masked first.0 (λ s. (r, masked, s)) (omega (arith, m))
          (omega (arith, m)) in
      (
        second.0,
        second.1 ∙ ap (λ (l : List ℕ). l ++ masked) first.1 ∙ append_assoc (sent s) key masked,
        first.2 ∙ second.2,
      )

  -- WSSendMessage of some data, less than 2 GB, over a stream that takes some of what is written at
  -- each write, returns the size plus 2, leaves the data masked in the message if it masks, and has
  -- sent exactly the frame.
  pub send_message_lem :
      (rand_value : ℕ) (m : WsFrameMessage) (client fin : Bool) (s : S)
      → 0 < length m.msg
      → length m.msg < 2 ^ 31
      → let r = send_message io rand_value m client fin s in
        (r.0 ≡ to_int (length m.msg + 2))
        × (r.1 ≡ body client rand_value m.msg)
        × (sent r.2 ≡ sent s ++ frame rand_value m client fin)
  unfolding send_message parts
  send_message_lem rand_value m client fin s h k =
      let head = head_for m client fin in
      let size = length m.msg in
      let masked = body client rand_value m.msg in
      let key = to_memory little 4 rand_value in
      let two_bytes = length-head_bytes head in
      let last = λ (s : S). put io masked masked s (λ s. (to_int (size + 2), masked, s)) in
      let rest = λ (s : S). if client then put io key masked s last else last s in
      let lengths = λ (s : S). put_length io head.payload size m.msg s rest in
      let one =
        put-next (head_bytes head) m.msg s lengths (omega (arith, two_bytes))
          (omega (arith, two_bytes)) in
      let two = put_length-next head.payload size m.msg one.0 rest (payload-fits m client fin) in
      let three = put_rest-next rand_value client m.msg two.0 (to_int (size + 2)) h k in
      let e : send_message io rand_value m client fin s ≡ (to_int (size + 2), masked, three.0) =
        one.2 ∙ two.2 ∙ three.2 in
      (
        ap (λ (r : ℤ × List ℕ × S). r.0) e,
        ap (λ (r : ℤ × List ℕ × S). r.1) e,
        ap (λ (r : ℤ × List ℕ × S). sent r.2) e
            ∙ three.1
            ∙ ap (λ (l : List ℕ). l ++ (key_bytes client rand_value ++ masked))
                (two.1 ∙ ap (λ (l : List ℕ). l ++ length_bytes head.payload size) one.1)
            ∙ append_assoc (sent s ++ head_bytes head) (length_bytes head.payload size)
                (key_bytes client rand_value ++ masked)
            ∙ append_assoc (sent s) (head_bytes head)
                (length_bytes head.payload size ++ (key_bytes client rand_value ++ masked))
            ∙ ap (λ (l : List ℕ). sent s ++ l) (sym (frame-parts rand_value m client fin)),
      )

  put-empty :
      (text : List ℕ) (s : S) (next : S → ℤ × List ℕ × S)
      → put io [] text s next ≡ (negsuc 0, text, io.close s)
  unfolding put write_fix_size write_loop to_left finish to_int to_signed positive
  put-empty text s next = refl

  -- Over a stream that takes some of what is written at each write, WSSendMessage of no data sends
  -- the whole frame, and then closes the stream and returns -1: it takes the 0 of the last
  -- writeFixSize for a failure.
  pub send_message-empty :
      (rand_value opcode : ℕ) (client fin : Bool) (s : S)
      → let m : WsFrameMessage = record { opcode = opcode; msg = [] } in
        let r = send_message io rand_value m client fin s in
        (r.0 ≡ negsuc 0)
        × (s' : S) × (r.2 ≡ io.close s')
        × (sent s' ≡ sent s ++ frame rand_value m client fin)
  unfolding send_message parts put_length xor_mask head_for
  send_message-empty rand_value opcode false fin s =
      let m : WsFrameMessage = record { opcode = opcode; msg = [] } in
      let head = head_for m false fin in
      let two_bytes = length-head_bytes head in
      let last = λ (s : S). put io [] [] s (λ s. (to_int 2, [], s)) in
      let one =
        put-next (head_bytes head) [] s last (omega (arith, two_bytes))
          (omega (arith, two_bytes)) in
      let e : send_message io rand_value m false fin s ≡ (negsuc 0, [], io.close one.0) =
        one.2 ∙ put-empty [] one.0 (λ s. (to_int 2, [], s)) in
      (
        ap (λ (r : ℤ × List ℕ × S). r.0) e,
        one.0,
        ap (λ (r : ℤ × List ℕ × S). r.2) e,
        one.1
            ∙ ap (λ (l : List ℕ). sent s ++ l)
                (sym (append-nil (head_bytes head)) ∙ sym (frame-parts rand_value m false fin)),
      )
  send_message-empty rand_value opcode true fin s =
      let m : WsFrameMessage = record { opcode = opcode; msg = [] } in
      let head = head_for m true fin in
      let key = to_memory little 4 rand_value in
      let n = length-to_memory little 4 rand_value in
      let two_bytes = length-head_bytes head in
      let last = λ (s : S). put io [] [] s (λ s. (to_int 2, [], s)) in
      let rest = λ (s : S). put io key [] s last in
      let one =
        put-next (head_bytes head) [] s rest (omega (arith, two_bytes))
          (omega (arith, two_bytes)) in
      let two = put-next key [] one.0 last (omega (arith, n)) (omega (arith, n)) in
      let e : send_message io rand_value m true fin s ≡ (negsuc 0, [], io.close two.0) =
        one.2 ∙ two.2 ∙ put-empty [] two.0 (λ s. (to_int 2, [], s)) in
      (
        ap (λ (r : ℤ × List ℕ × S). r.0) e,
        two.0,
        ap (λ (r : ℤ × List ℕ × S). r.2) e,
        two.1
            ∙ ap (λ (l : List ℕ). l ++ key) one.1
            ∙ append_assoc (sent s) (head_bytes head) key
            ∙ ap (λ (l : List ℕ). sent s ++ (head_bytes head ++ l)) (sym (append-nil key))
            ∙ ap (λ (l : List ℕ). sent s ++ l) (sym (frame-parts rand_value m true fin)),
      )
