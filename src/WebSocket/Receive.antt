-- ===== src/WebSocket/Receive.antt =====
-- WSRecvMessage of JKYi/http/ws_session.cc over a stream on which frames are pending.
use jkyi.Base.{
  ℕ, ◌+◌, ◌-◌, ◌^◌, ◌<◌, ◌≡◌, inl, inr, refl, ap, ◌∙◌, arith, Bool, true, false, List, [], ◌∷◌,
  ◌++◌, ◌==◌, length, take, drop, replicate, if◌then◌else◌, append_assoc, append-nil, length-append,
  take_all, drop_all, take-append, drop-append, Bool-cases,
}
use jkyi.Base.Splice.{resize, splice, splice-append_right}
use jkyi.Endian.{
  little, ordered, to_memory, from_memory, to_little_endian, length-to_memory, from_memory_order,
}
use jkyi.Stream.{Stream, positive, read_fix_size}
use jkyi.Stream.FixSize.{zero_or_more}
use jkyi.Stream.Delivery.{Delivers, read_fix_size-Delivers}
use jkyi.WebSocket.{WsFrameMessage, Turn, head_for, xor_mask, got, with_length, with_mask}
use jkyi.WebSocket.Masks.{xor_mask-xor_mask, length-xor_mask}
use jkyi.WebSocket.Send.{length_bytes, key_bytes, body}

take-first : (n : ℕ) (xs ys : List ℕ) → length xs ≡ n → take n (xs ++ ys) ≡ xs
take-first n xs ys e =
    let z : n - length xs ≡ 0 = omega (arith, e) in
    take-append n xs ys ∙ rw z (append-nil (take n xs)) ∙ take_all n xs (omega (arith, e))

drop-first : (n : ℕ) (xs ys : List ℕ) → length xs ≡ n → drop n (xs ++ ys) ≡ ys
drop-first n xs ys e =
    let z : n - length xs ≡ 0 = omega (arith, e) in
    drop-append n xs ys ∙ rw (z, drop_all n xs (omega (arith, e))) refl

splice-over : (piece : List ℕ) → splice (replicate (length piece) 0) 0 piece ≡ piece
unfolding splice
splice-over [] = refl
splice-over (b ∷ bs) = ap (λ (l : List ℕ). b ∷ l) (splice-over bs)

-- A piece after what has come so far.
pub append_piece :
    (text piece : List ℕ)
    → splice (resize (length text + length piece) text) (length text) piece ≡ text ++ piece
unfolding resize
append_piece text piece =
    let n : length text + length piece - length text ≡ length piece = omega arith in
    let i : length text ≡ length text + 0 = omega arith in
    ap
      (λ (l : List ℕ).
        splice (l ++ replicate (length text + length piece - length text) 0) (length text) piece)
      (take_all (length text + length piece) text (omega arith))
    ∙ ap (λ (k : ℕ). splice (text ++ replicate k 0) (length text) piece) n
    ∙ ap (λ (k : ℕ). splice (text ++ replicate (length piece) 0) k piece) i
    ∙ splice-append_right text (replicate (length piece) 0) 0 piece
    ∙ ap (λ (l : List ℕ). text ++ l) (splice-over piece)

pub payload-lt : (m : WsFrameMessage) (client fin : Bool) → (head_for m client fin).payload < 128
unfolding head_for
payload-lt m client fin = ground arith

pub append_assoc4 :
    (a b c d rest : List ℕ) → (a ++ (b ++ (c ++ d))) ++ rest ≡ a ++ (b ++ (c ++ (d ++ rest)))
append_assoc4 a b c d rest =
    append_assoc a (b ++ (c ++ d)) rest
    ∙ ap (λ (l : List ℕ). a ++ l)
        (append_assoc b (c ++ d) rest ∙ ap (λ (l : List ℕ). b ++ l) (append_assoc c d rest))

pub payload-same :
    (m : WsFrameMessage) (client fin : Bool)
    → ((head_for m client fin).payload == 126) ≡ false
    → ((head_for m client fin).payload == 127) ≡ false
    → (head_for m client fin).payload ≡ length m.msg
unfolding head_for
payload-same m client fin e f = ground (arith, e, f)

unfoldable pub key_of : Bool → ℕ → List ℕ
key_of client rand_value = if client then to_memory little 4 rand_value else replicate 4 0

pub unmasked :
    (client : Bool) (rand_value : ℕ) (text : List ℕ)
    → (if client
        then xor_mask (key_of client rand_value) 0 (body client rand_value text)
        else body client rand_value text)
      ≡ text
unfolding key_of
unmasked false rand_value text = refl
unmasked true rand_value text = xor_mask-xor_mask (to_memory little 4 rand_value) 0 text

pub length-body :
    (client : Bool) (rand_value : ℕ) (text : List ℕ)
    → length (body client rand_value text) ≡ length text
length-body false rand_value text = refl
length-body true rand_value text = length-xor_mask (to_memory little 4 rand_value) 0 text

module _ {S : Type 0} (io : Stream S) (pending : S → List ℕ) (delivers : Delivers io pending) where
  pub got-next :
      (n : ℕ) (first rest : List ℕ) (s : S) (next : List ℕ → S → Turn S)
      → pending s ≡ first ++ rest
      → length first ≡ n
      → 0 < n
      → n < 2 ^ 31
      → (s' : S) × (pending s' ≡ rest)
        × (got io n s next ≡ next first s')
        × (s' ≡ (read_fix_size io n s).2)
  unfolding got positive
  got-next n first rest s next e l h k =
      let r = read_fix_size io n s in
      let d =
        read_fix_size-Delivers io pending delivers n s k
          (omega (arith, ap length e, length-append first rest, l)) in
      elim (zero_or_more (positive r.0)) [
        | inl z ↦ absurd (omega (arith, h, z.1, ap positive d.0))
        | inr z ↦ (
          r.2,
          d.2 ∙ ap (λ (l : List ℕ). drop n l) e ∙ drop-first n first rest l,
          rw z.0 (
              ap (λ (l : List ℕ). next l r.2)
                (d.1 ∙ ap (λ (l : List ℕ). take n l) e ∙ take-first n first rest l)),
          refl,
        )
      ]

  pub with_length-next :
      (payload size : ℕ) (rest : List ℕ) (s : S) (next : ℕ → S → Turn S)
      → size < 2 ^ 64
      → ((payload == 126) ≡ true → size < 2 ^ 16)
      → ((payload == 126) ≡ false → (payload == 127) ≡ false → payload ≡ size)
      → pending s ≡ length_bytes payload size ++ rest
      → (s' : S) × (pending s' ≡ rest) × (with_length io payload s next ≡ next size s')
  unfolding with_length to_little_endian to_memory ordered
  with_length-next payload size rest s next h fits same e = elim (Bool-cases (payload == 126)) [
    | inl f ↦
        let back = from_memory_order little little 2 size (omega (arith, fits f)) in
        let g =
          got-next 2 (to_memory little 2 size) rest s (λ len s. next (from_memory little len) s)
            (e ∙ rw f refl) (length-to_memory little 2 size) (omega arith) (omega arith) in
        (g.0, g.1, rw f (g.2 ∙ ap (λ (n : ℕ). next n g.0) back))
    | inr f ↦ elim (Bool-cases (payload == 127)) [
      | inl f7 ↦
          let back = from_memory_order little little 8 size (omega (arith, h)) in
          let g =
            got-next 8 (to_memory little 8 size) rest s (λ len s. next (from_memory little len) s)
              (e ∙ rw (f, f7) refl) (length-to_memory little 8 size) (omega arith) (omega arith) in
          (g.0, g.1, rw (f, f7) (g.2 ∙ ap (λ (n : ℕ). next n g.0) back))
      | inr f7 ↦ (s, e ∙ rw (f, f7) refl, rw (f, f7) (ap (λ (n : ℕ). next n s) (same f f7)))
    ]
  ]

  pub with_mask-next :
      (client : Bool) (rand_value : ℕ) (rest : List ℕ) (s : S) (next : List ℕ → S → Turn S)
      → pending s ≡ key_bytes client rand_value ++ rest
      → (s' : S) × (pending s' ≡ rest)
        × (with_mask io client s next ≡ next (key_of client rand_value) s')
  unfolding with_mask key_of
  with_mask-next false rand_value rest s next e = (s, e, refl)
  with_mask-next true rand_value rest s next e =
      let g =
        got-next 4 (to_memory little 4 rand_value) rest s next e
          (length-to_memory little 4 rand_value) (omega arith) (omega arith) in
      (g.0, g.1, g.2)
