-- ===== src/Buffer/Views.antt =====
-- The invariant of the buffer (JKYi/reactor/Buffer.h) and what its readable bytes are.
use jkyi.Base.{
  ℕ, ◌+◌, ◌-◌, ◌≤◌, ◌≡◌, ◌∙◌, ap, arith, List, ◌++◌, append-nil, length, take, drop, length-take,
  length-drop, take-append, drop-append, take_all, drop_all, drop-take,
}
use jkyi.Base.Splice.{splice, splice_lem}
use jkyi.Buffer.{Buffer, readable, readable_bytes}

pub record IsValid (b : Buffer) : Type 0 where
  pub order : b.reader_index ≤ b.writer_index
  pub bound : b.writer_index ≤ length b.buffer
  pub prefix : 8 ≤ length b.buffer

pub length-readable : {b : Buffer} → IsValid b → length (readable b) ≡ readable_bytes b
length-readable {b} v = omega (
  arith,
  length-take (readable_bytes b) (drop b.reader_index b.buffer),
  length-drop b.reader_index b.buffer,
  v.bound,
)

-- The bytes from `i` to `j` of a list.
abbrev pub window : ℕ → ℕ → List ℕ → List ℕ
window i j xs = take (j - i) (drop i xs)

-- A window over bytes that were just put in, with those before and behind.
pub window-splice_before :
    (xs ys : List ℕ) (i j : ℕ)
    → i ≤ j
    → j + length ys ≤ length xs
    → window i (j + length ys) (splice xs j ys) ≡ window i j xs ++ ys
window-splice_before xs ys i j h l =
    rw
      (
        splice_lem xs j ys l,
        drop-append i (take j xs) (ys ++ drop (j + length ys) xs),
        drop-take i j xs,
      )
      (ground (
        arith,
        length-take j xs,
        length-drop i xs,
        length-take (j - i) (drop i xs),
        take-append (j + length ys - i) (take (j - i) (drop i xs)) (ys ++ drop (j + length ys) xs),
        take_all (j + length ys - i) (take (j - i) (drop i xs)),
        take-append (length ys) ys (drop (j + length ys) xs),
        take_all (length ys) ys,
        append-nil ys,
      ))

pub window-splice_behind :
    (xs ys : List ℕ) (i k : ℕ)
    → length ys ≤ i
    → i ≤ k
    → k ≤ length xs
    → window (i - length ys) k (splice xs (i - length ys) ys) ≡ ys ++ window i k xs
window-splice_behind xs ys i k h l m =
    ap (λ (r : List ℕ). window (i - length ys) k r) (splice_lem xs (i - length ys) ys (omega arith))
    ∙ ground (
      arith,
      length-take (i - length ys) xs,
      drop-append (i - length ys) (take (i - length ys) xs)
          (ys ++ drop (i - length ys + length ys) xs),
      drop_all (i - length ys) (take (i - length ys) xs),
      take-append (k - (i - length ys)) ys (drop i xs),
      take_all (k - (i - length ys)) ys,
    )

-- Growing a list at its end leaves its windows.
pub window-append :
    (xs zs : List ℕ) (i j : ℕ) → j ≤ length xs → window i j (xs ++ zs) ≡ window i j xs
window-append xs zs i j h = rw (drop-append i xs zs) (
    ground (
      arith,
      length-drop i xs,
      take-append (j - i) (drop i xs) (drop (i - length xs) zs),
      append-nil (take (j - i) (drop i xs)),
    ))
