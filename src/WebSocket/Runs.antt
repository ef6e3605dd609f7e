-- ===== src/WebSocket/Runs.antt =====
-- Runs of the frames of JKYi/http/ws_session.cc.
use jkyi.Base.{
  ℕ, ◌+◌, ◌<◌, ◌≡◌, refl, sym, ◌∙◌, arith, true, false, Option, some, List, [], ◌∷◌, ◌++◌, length,
}
use jkyi.Codec.Int.{negsuc, to_signed}
use jkyi.Stream.{to_int, read_fix_size, read_loop, to_left, finish, positive}
use jkyi.Base.Splice.{resize, splice}
use jkyi.Stream.Runs.{trickle, pending, sent, trickle-Delivers, trickle-Accepts, trickle-Finite}
use jkyi.Endian.{to_memory, from_memory, ordered, le_bytes, from_le, to_little_endian}
use jkyi.WebSocket.{
  continued, WsFrameMessage, head_bytes, head_for, control_head, pong_frame, xor_mask, mask_byte,
  recv_message, send_message, recv_loop, recv_frame, got, parse_head, recv_head, recv_data,
  with_length, recv_sized, with_mask, store,
}
use jkyi.WebSocket.Send.{frame, body, send_message_lem, send_message-empty}
use jkyi.WebSocket.Trips.{
  frames, whole_text, whole_opcode, recv_message-frames, recv_message-send_message,
}
use jkyi.WebSocket.Control.{ping_head, recv_frame-ping}
use jkyi.WebSocket.Limit.{recv_message-bound}
use jkyi.WebSocket.Ends.{recv_message-ends}

abbrev hello : WsFrameMessage
hello = record { opcode = 1; msg = 104 ∷ 101 ∷ 108 ∷ 108 ∷ 111 ∷ [] }

abbrev tail : WsFrameMessage
tail = record { opcode = 0; msg = 33 ∷ [] }

abbrev idle : List ℕ × List ℕ
idle = ([], [])

-- The key 1, 2, 3, 4, and a text frame of five bytes
hello_bytes :
    frame 67305985 hello true true ≡ 129 ∷ 133 ∷ 1 ∷ 2 ∷ 3 ∷ 4 ∷ 105 ∷ 103 ∷ 111 ∷ 104 ∷ 110 ∷ []
unfolding frame head_bytes head_for to_memory ordered le_bytes xor_mask mask_byte
hello_bytes = refl

send_message_lem_example :
    let r = send_message trickle 67305985 hello true true idle in
    (r.0 ≡ to_int (length hello.msg + 2))
    × (r.1 ≡ body true 67305985 hello.msg)
    × (sent r.2 ≡ sent idle ++ frame 67305985 hello true true)
send_message_lem_example =
    send_message_lem trickle sent trickle-Accepts 67305985 hello true true idle (omega arith)
      (omega arith)

send_message-empty_example :
    let m : WsFrameMessage = record { opcode = 1; msg = [] } in
    let r = send_message trickle 67305985 m false true idle in
    (r.0 ≡ negsuc 0)
    × (s' : List ℕ × List ℕ) × (r.2 ≡ trickle.close s')
    × (sent s' ≡ sent idle ++ frame 67305985 m false true)
send_message-empty_example =
    send_message-empty trickle sent trickle-Accepts 67305985 1 false true idle

-- A server that receives a message in two frames, with other bytes behind them
abbrev two_frames : List ℕ × List ℕ
two_frames = (frames true (67305985, hello) ((5, tail) ∷ []) ++ (137 ∷ []), [])

recv_message-frames_example :
    (s' : List ℕ × List ℕ) × (pending s' ≡ 137 ∷ [])
    × (recv_message trickle 2 64 false two_frames
        ≡ some (
          some (record {
            opcode = whole_opcode 0 (67305985, hello) ((5, tail) ∷ []);
            msg = whole_text (67305985, hello) ((5, tail) ∷ []);
          }),
          s',
        ))
recv_message-frames_example =
    recv_message-frames trickle pending trickle-Delivers 2 64 false true (67305985, hello)
      ((5, tail) ∷ []) (137 ∷ []) two_frames (omega arith)
      ((omega arith, omega arith), (omega arith, omega arith)) (omega arith) (omega arith) refl refl

abbrev sent_hello : List ℕ × List ℕ
sent_hello = (129 ∷ 133 ∷ 1 ∷ 2 ∷ 3 ∷ 4 ∷ 105 ∷ 103 ∷ 111 ∷ 104 ∷ 110 ∷ [], [])

hello-sent : pending sent_hello ≡ sent (send_message trickle 67305985 hello true true idle).2
hello-sent = sym (
    (send_message_lem trickle sent trickle-Accepts 67305985 hello true true idle (omega arith)
      (omega arith)).2
    ∙ hello_bytes)

hello_received : recv_message trickle 1 64 false sent_hello ≡ some (some hello, ([], []))
unfolding recv_message recv_loop recv_frame got read_fix_size read_loop to_left finish to_int
    positive to_signed parse_head recv_head recv_data with_length recv_sized with_mask store resize
    splice xor_mask mask_byte from_memory ordered from_le to_little_endian
hello_received = refl

recv_message-send_message_example :
    (t' : List ℕ × List ℕ) × (pending t' ≡ [])
    × (recv_message trickle 1 64 false sent_hello ≡ some (some hello, t'))
recv_message-send_message_example =
    recv_message-send_message trickle sent trickle pending trickle-Accepts trickle-Delivers 1 64
      67305985 false true hello idle sent_hello (omega arith) (omega arith) (omega arith)
      (omega arith) (omega arith) refl hello-sent

recv_message-bound_example : length hello.msg < 64
recv_message-bound_example =
    recv_message-bound trickle 64 1 false sent_hello ([], []) hello hello_received

recv_message-ends_example :
    (r : Option WsFrameMessage × (List ℕ × List ℕ)) × (recv_message trickle 6 64 false sent_hello
      ≡ some r)
recv_message-ends_example =
    recv_message-ends trickle (λ s. length s.0) trickle-Finite 6 64 false sent_hello (omega arith)
      (omega arith)

-- A masked ping with one byte of payload
abbrev pinged : List ℕ × List ℕ
pinged = (head_bytes (ping_head 1) ++ ((1 ∷ 2 ∷ 3 ∷ 4 ∷ []) ++ ((105 ∷ []) ++ [])), [])

recv_frame-ping_example :
    (s' : List ℕ × List ℕ) × (recv_frame trickle 64 false 1 hello.msg 5 pinged
      ≡ continued 1 hello.msg 5 s')
    × (pending s' ≡ 1 ∷ 2 ∷ 3 ∷ 4 ∷ 105 ∷ [])
    × (sent s' ≡ head_bytes (control_head pong_frame))
recv_frame-ping_example =
    recv_frame-ping trickle pending sent trickle-Delivers trickle-Accepts (λ buffer s. refl)
      (λ n s. refl) 64 false 1 hello.msg 5 (1 ∷ 2 ∷ 3 ∷ 4 ∷ []) (105 ∷ []) [] pinged (omega arith)
      refl
