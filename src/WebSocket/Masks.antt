-- ===== src/WebSocket/Masks.antt =====
-- Masking and frame heads of JKYi/http/ws_session.cc: both are undone by the receiver.
use jkyi.Base.{
  ℕ, zero, suc, ◌+◌, ◌*◌, ◌/◌, ◌%◌, ◌^◌, ◌≤◌, ◌<◌, ◌≡◌, refl, ap, ◌∙◌, arith, Bool, true, false,
  List, [], ◌∷◌, ◌==◌, length,
}
use jkyi.Base.Bits.{xor_digit}
use jkyi.WebSocket.{WsFrameHead, bit, head_bytes, parse_head, mask_byte, xor_mask}
use Prim.Native.Nat.{bit_xor, differ}
use native.Mathlib.Nat.{pow-suc}

differ-differ : (a b : ℕ) → a < 2 → b < 2 → differ (differ a b) b ≡ a
differ-differ zero zero h k = refl
differ-differ zero (suc zero) h k = refl
differ-differ (suc zero) zero h k = refl
differ-differ (suc zero) (suc zero) h k = refl
differ-differ (suc (suc a)) b h k = absurd (omega arith)
differ-differ a (suc (suc b)) h k = absurd (omega arith)

differ-lt : (a b : ℕ) → a < 2 → b < 2 → differ a b < 2
differ-lt zero b h k = omega arith
differ-lt (suc zero) zero h k = omega arith
differ-lt (suc zero) (suc zero) h k = omega arith
differ-lt (suc (suc a)) b h k = absurd (omega arith)
differ-lt a (suc (suc b)) h k = absurd (omega arith)

xor-xor_below : (k a b : ℕ) → a < 2 ^ k → b < 2 ^ k → bit_xor (bit_xor a b) b ≡ a
xor-xor_below zero zero zero h k = refl
xor-xor_below zero (suc a) b h k = absurd (omega arith)
xor-xor_below zero zero (suc b) h k = absurd (omega arith)
xor-xor_below (suc k) a b h i =
    let d = differ-lt (a % 2) (b % 2) (omega arith) (omega arith) in
    let c = xor_digit a b in
    let half : bit_xor a b / 2 ≡ bit_xor (a / 2) (b / 2) = omega (arith, c, d) in
    let low : bit_xor a b % 2 ≡ differ (a % 2) (b % 2) = omega (arith, c, d) in
    let inner : bit_xor (bit_xor a b / 2) (b / 2) ≡ a / 2 =
      ap (λ (x : ℕ). bit_xor x (b / 2)) half
      ∙ xor-xor_below k (a / 2) (b / 2) (omega (arith, pow-suc 2 k)) (omega (arith, pow-suc 2 k)) in
    let last : differ (bit_xor a b % 2) (b % 2) ≡ a % 2 =
      ap (λ (x : ℕ). differ x (b % 2)) low
      ∙ differ-differ (a % 2) (b % 2) (omega arith) (omega arith) in
    omega (arith, xor_digit (bit_xor a b) b, inner, last)

lt-pow : (n : ℕ) → n < 2 ^ n
lt-pow zero = omega arith
lt-pow (suc n) = omega (arith, lt-pow n, pow-suc 2 n)

pub xor-xor : (a b : ℕ) → bit_xor (bit_xor a b) b ≡ a
xor-xor a b =
    xor-xor_below (a + b) a b (omega (arith, lt-pow (a + b))) (omega (arith, lt-pow (a + b)))

-- Masking twice with one key gives the data back, whatever the key.
pub xor_mask-xor_mask :
    (key : List ℕ) (i : ℕ) (bytes : List ℕ) → xor_mask key i (xor_mask key i bytes) ≡ bytes
unfolding xor_mask
xor_mask-xor_mask key i [] = refl
xor_mask-xor_mask key i (b ∷ bs) =
    rw (xor-xor b (mask_byte key i)) (ap (λ (l : List ℕ). b ∷ l) (xor_mask-xor_mask key (suc i) bs))

pub length-xor_mask :
    (key : List ℕ) (i : ℕ) (bytes : List ℕ) → length (xor_mask key i bytes) ≡ length bytes
unfolding xor_mask
length-xor_mask key i [] = refl
length-xor_mask key i (b ∷ bs) = ap suc (length-xor_mask key (suc i) bs)

bit-le : (b : Bool) → bit b ≤ 1
bit-le true = omega arith
bit-le false = omega arith

is_one : (b : Bool) (n : ℕ) → n ≡ bit b → (n == 1) ≡ b
is_one true n e = ground (arith, e)
is_one false n e = ground (arith, e)

-- The receiver takes a head apart into the fields it was made of.
pub parse_head-head_bytes :
    (head : WsFrameHead)
    → head.opcode < 16
    → head.payload < 128
    → parse_head (head_bytes head) ≡ head
unfolding parse_head head_bytes
parse_head-head_bytes head h k =
    let a =
      head.opcode % 16
      + 16 * bit head.rsv1
      + 32 * bit head.rsv2
      + 64 * bit head.rsv3
      + 128 * bit head.fin in
    let b = head.payload % 128 + 128 * bit head.mask in
    let b0 = bit-le head.rsv1 in
    let b1 = bit-le head.rsv2 in
    let b2 = bit-le head.rsv3 in
    let b3 = bit-le head.fin in
    let b4 = bit-le head.mask in
    let e0 : a % 16 ≡ head.opcode = omega (arith, b0, b1, b2, b3, b4) in
    let e1 = is_one head.rsv1 (a / 2 ^ 4 % 2) (omega (arith, b0, b1, b2, b3, b4)) in
    let e2 = is_one head.rsv2 (a / 2 ^ 5 % 2) (omega (arith, b0, b1, b2, b3, b4)) in
    let e3 = is_one head.rsv3 (a / 2 ^ 6 % 2) (omega (arith, b0, b1, b2, b3, b4)) in
    let e4 = is_one head.fin (a / 2 ^ 7 % 2) (omega (arith, b0, b1, b2, b3, b4)) in
    let e5 : b % 128 ≡ head.payload = omega (arith, b0, b1, b2, b3, b4) in
    let e6 = is_one head.mask (b / 2 ^ 7 % 2) (omega (arith, b0, b1, b2, b3, b4)) in
    λ i.
      let same : WsFrameHead = record {
        opcode = e0 i;
        rsv1 = e1 i;
        rsv2 = e2 i;
        rsv3 = e3 i;
        fin = e4 i;
        payload = e5 i;
        mask = e6 i;
      } in
      same
