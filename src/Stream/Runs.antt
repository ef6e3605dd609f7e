-- ===== src/Stream/Runs.antt =====
-- Runs of the loops of JKYi/stream.cc.
use jkyi.Base.{
  ℕ, ◌≡◌, ◌⊎◌, refl, arith, min, List, [], ◌∷◌, ◌++◌, length, take, drop, length-take, length-drop,
}
use jkyi.Codec.Int.{pos, negsuc, to_signed}
use jkyi.Stream.{Stream, positive, to_left, to_int, finish, read_loop, read_fix_size}
use jkyi.Stream.FixSize.{Honest, Failed, read_fix_size_lem}
use jkyi.Stream.Delivery.{Delivers, Accepts}
use jkyi.Stream.Finite.{Finite}

-- A stream that reads and writes at most three bytes at a time: what is pending, and what was sent.
abbrev pub trickle : Stream (List ℕ × List ℕ)
trickle = record {
  read = λ n s. let k = min n (min 3 (length s.0)) in (pos k, take k s.0, (drop k s.0, s.1));
  write = λ buffer s. let k = min 3 (length buffer) in (pos k, (s.0, s.1 ++ take k buffer));
  read_array = λ n s. (negsuc 0, s);
  write_array = λ n s. (negsuc 0, s);
  close = λ s. ([], s.1);
}

abbrev pub pending : List ℕ × List ℕ → List ℕ
pending s = s.0

abbrev pub sent : List ℕ × List ℕ → List ℕ
sent s = s.1

trickle-Honest : Honest trickle
unfolding positive
trickle-Honest n s = (omega (arith, length-take (min n (min 3 (length s.0))) s.0), omega arith)

pub trickle-Delivers : Delivers trickle pending
unfolding positive
trickle-Delivers n s h k = (omega (arith, h, k), omega arith, omega arith, refl, refl)

pub trickle-Accepts : Accepts trickle sent
unfolding positive
trickle-Accepts buffer s h = (omega (arith, h), omega arith, refl)

pub trickle-Finite : Finite trickle (λ s. length s.0)
unfolding positive
trickle-Finite = record {
  read = λ n s. omega (arith, length-drop (min n (min 3 (length s.0))) s.0);
  write = λ buffer s. omega arith;
  close = λ s. omega arith;
}

read_in_pieces :
    read_fix_size trickle 5 (1 ∷ 2 ∷ 3 ∷ 4 ∷ 5 ∷ 6 ∷ [], [])
    ≡ (pos 5, 1 ∷ 2 ∷ 3 ∷ 4 ∷ 5 ∷ [], (6 ∷ [], []))
unfolding read_fix_size finish read_loop to_left positive to_int to_signed
read_in_pieces = refl

read_to_the_end : read_fix_size trickle 5 (1 ∷ 2 ∷ [], []) ≡ (pos 0, 1 ∷ 2 ∷ [], ([], []))
unfolding read_fix_size finish read_loop to_left positive
read_to_the_end = refl

read_fix_size_lem_example :
    let r = read_fix_size trickle 5 (1 ∷ 2 ∷ [], []) in
    (r.0 ≡ pos 5) × (length r.1 ≡ 5) ⊎ Failed trickle 5 r.0 r.1 r.2
read_fix_size_lem_example =
    read_fix_size_lem trickle trickle-Honest 5 (1 ∷ 2 ∷ [], []) (omega arith)
