-- ===== src/Stream/Delivery.antt =====
-- The loops of JKYi/stream.cc over streams that work: what is read and what is written.
use jkyi.Base.{
  ℕ, zero, suc, ◌+◌, ◌-◌, ◌^◌, ◌≤◌, ◌<◌, ◌≡◌, inl, inr, refl, sym, ap, arith, Option, none, List,
  [], ◌∷◌, ◌++◌, ◌∙◌, length, take, drop, append_assoc, append-nil, take_all, drop-drop,
  length-drop, take-append-drop,
}
use jkyi.Codec.Int.{ℤ, pos}
use jkyi.Stream.{
  to_left, Stream, positive, finish, read_loop, write_loop, read_fix_size, write_fix_size,
}
use jkyi.Stream.FixSize.{zero_or_more, to_left_small, to_int_small}

take-drop : (n k : ℕ) (xs : List ℕ) → take n xs ++ take k (drop n xs) ≡ take (n + k) xs
take-drop zero k xs = let e : k ≡ 0 + k = omega arith in ap (λ (m : ℕ). take m xs) e
take-drop (suc n) k [] = take_all k [] (omega arith) ∙ sym (take_all (suc n + k) [] (omega arith))
take-drop (suc n) k (x ∷ xs) =
    let e : suc (n + k) ≡ suc n + k = omega arith in
    ap (λ (l : List ℕ). x ∷ l) (take-drop n k xs) ∙ ap (λ (m : ℕ). take m (x ∷ xs)) e

module _ {S : Type 0} (io : Stream S) where
  -- A stream whose reader gets what is pending, some of it at each read.
  abbrev pub Delivers : (S → List ℕ) → Type 0
  Delivers pending =
      (n : ℕ) (s : S)
      → 0 < n
      → 0 < length (pending s)
      → let got = positive (io.read n s).0 in
        (0 < got)
        × (got ≤ n)
        × (got ≤ length (pending s))
        × ((io.read n s).1 ≡ take got (pending s))
        × (pending (io.read n s).2 ≡ drop got (pending s))

  -- A stream that takes some of what is written at each write.
  abbrev pub Accepts : (S → List ℕ) → Type 0
  Accepts sent =
      (buffer : List ℕ) (s : S)
      → 0 < length buffer
      → let put = positive (io.write buffer s).0 in
        (0 < put) × (put ≤ length buffer) × (sent (io.write buffer s).1 ≡ sent s ++ take put buffer)

  read_loop-Delivers :
      (pending : S → List ℕ)
      → Delivers pending
      → (bound left : ℕ) (s : S) → left ≤ bound
      → left ≤ length (pending s)
      → ((read_loop io bound left s).0 ≡ none)
        × ((read_loop io bound left s).1 ≡ take left (pending s))
        × (pending (read_loop io bound left s).2 ≡ drop left (pending s))
  unfolding read_loop
  read_loop-Delivers pending delivers bound zero s h k = (refl, refl, refl)
  read_loop-Delivers pending delivers zero (suc left) s h k = absurd (omega arith)
  read_loop-Delivers pending delivers (suc bound) (suc left) s h k =
      let r = io.read (suc left) s in
      let n = positive r.0 in
      let d = delivers (suc left) s (omega arith) (omega arith) in
      let e : n + (suc left - n) ≡ suc left = omega (arith, d.1) in
      elim (zero_or_more n) [
        | inl z ↦ absurd (omega (arith, z.1, d.0))
        | inr z ↦
            let t =
              read_loop-Delivers pending delivers bound (suc left - n) r.2 (omega (arith, z.1))
                (omega (arith, d, ap length d.4, length-drop n (pending s))) in
            rw z.0 (
              t.0,
              pieces n (suc left) (pending s) d.1 (read_loop io bound (suc left - n) r.2).1 r.1 d.3
                  (t.1 ∙ ap (λ (l : List ℕ). take (suc left - n) l) d.4),
              t.2
                  ∙ ap (λ (l : List ℕ). drop (suc left - n) l) d.4
                  ∙ drop-drop (suc left - n) n (pending s)
                  ∙ ap (λ (m : ℕ). drop m (pending s)) e,
            )
      ]
    where
      pieces :
          (n m : ℕ) (l : List ℕ)
          → n ≤ m
          → (rest first : List ℕ) → first ≡ take n l
          → rest ≡ take (m - n) (drop n l)
          → first ++ rest ≡ take m l
      pieces n m l h rest first e f =
          let whole : n + (m - n) ≡ m = omega (arith, h) in
          ap (λ (f : List ℕ). f ++ rest) e
          ∙ ap (λ (r : List ℕ). take n l ++ r) f
          ∙ take-drop n (m - n) l
          ∙ ap (λ (k : ℕ). take k l) whole

  write_loop-Accepts :
      (sent : S → List ℕ)
      → Accepts sent
      → (bound left : ℕ) (buffer : List ℕ) (s : S) → length buffer ≡ left
      → left ≤ bound
      → ((write_loop io bound left buffer s).0 ≡ none)
        × (sent (write_loop io bound left buffer s).1 ≡ sent s ++ buffer)
  unfolding write_loop
  write_loop-Accepts sent accepts bound zero [] s e h = (refl, sym (append-nil (sent s)))
  write_loop-Accepts sent accepts bound zero (x ∷ xs) s e h = absurd (omega (arith, e))
  write_loop-Accepts sent accepts zero (suc left) buffer s e h = absurd (omega arith)
  write_loop-Accepts sent accepts (suc bound) (suc left) buffer s e h =
      let r = io.write buffer s in
      let n = positive r.0 in
      let a = accepts buffer s (omega (arith, e)) in
      elim (zero_or_more n) [
        | inl z ↦ absurd (omega (arith, z.1, a.0))
        | inr z ↦
            let t =
              write_loop-Accepts sent accepts bound (suc left - n) (drop n buffer) r.1
                (omega (arith, e, length-drop n buffer)) (omega (arith, z.1)) in
            rw z.0 (
              t.0,
              t.1
                  ∙ ap (λ (l : List ℕ). l ++ drop n buffer) a.2
                  ∙ append_assoc (sent s) (take n buffer) (drop n buffer)
                  ∙ ap (λ (l : List ℕ). sent s ++ l) (take-append-drop n buffer),
            )
      ]

  -- From a stream with at least `n` bytes pending it gives the first `n` of them, whatever the
  -- sizes of the single reads.
  pub read_fix_size-Delivers :
      (pending : S → List ℕ)
      → Delivers pending
      → (n : ℕ) (s : S) → n < 2 ^ 31
      → n ≤ length (pending s)
      → ((read_fix_size io n s).0 ≡ pos n)
        × ((read_fix_size io n s).1 ≡ take n (pending s))
        × (pending (read_fix_size io n s).2 ≡ drop n (pending s))
  unfolding read_fix_size finish
  read_fix_size-Delivers pending delivers n s h k = rw (to_left_small n h) (
      let d = read_loop-Delivers pending delivers n n s (omega arith) k in
      (ap (λ (o : Option ℤ). finish n o) d.0 ∙ to_int_small n h, d.1, d.2))

  -- A stream that accepts gets all of the buffer, in order.
  pub write_fix_size-Accepts :
      (sent : S → List ℕ)
      → Accepts sent
      → (buffer : List ℕ) (s : S) → length buffer < 2 ^ 31
      → ((write_fix_size io buffer s).0 ≡ pos (length buffer))
        × (sent (write_fix_size io buffer s).1 ≡ sent s ++ buffer)
  unfolding write_fix_size finish
  write_fix_size-Accepts sent accepts buffer s h = rw (to_left_small (length buffer) h) (
      let d =
        write_loop-Accepts sent accepts (length buffer) (length buffer) buffer s refl
          (omega arith) in
      (ap (λ (o : Option ℤ). finish (length buffer) o) d.0 ∙ to_int_small (length buffer) h, d.1))

  -- What no single write changes, writeFixSize does not change.
  write_loop-keeps :
      {B : Type 0} (view : S → B)
      → ((buffer : List ℕ) (s : S) → view (io.write buffer s).1 ≡ view s)
      → (bound left : ℕ) (buffer : List ℕ) (s : S)
      → view (write_loop io bound left buffer s).1 ≡ view s
  unfolding write_loop
  write_loop-keeps view keeps bound zero buffer s = refl
  write_loop-keeps view keeps zero (suc left) buffer s = refl
  write_loop-keeps view keeps (suc bound) (suc left) buffer s =
      let r = io.write buffer s in
      elim (zero_or_more (positive r.0)) [
        | inl z ↦ rw z.0 (keeps buffer s)
        | inr z ↦ rw z.0 (
            write_loop-keeps view keeps bound (suc left - positive r.0) (drop (positive r.0) buffer)
              r.1
            ∙ keeps buffer s)
      ]

  pub write_fix_size-keeps :
      {B : Type 0} (view : S → B)
      → ((buffer : List ℕ) (s : S) → view (io.write buffer s).1 ≡ view s)
      → (buffer : List ℕ) (s : S) → view (write_fix_size io buffer s).1 ≡ view s
  unfolding write_fix_size
  write_fix_size-keeps view keeps buffer s =
      write_loop-keeps view keeps (to_left (length buffer)) (to_left (length buffer)) buffer s

  -- What no single read changes, readFixSize does not change.
  read_loop-keeps :
      {B : Type 0} (view : S → B)
      → ((n : ℕ) (s : S) → view (io.read n s).2 ≡ view s)
      → (bound left : ℕ) (s : S) → view (read_loop io bound left s).2 ≡ view s
  unfolding read_loop
  read_loop-keeps view keeps bound zero s = refl
  read_loop-keeps view keeps zero (suc left) s = refl
  read_loop-keeps view keeps (suc bound) (suc left) s =
      let r = io.read (suc left) s in
      elim (zero_or_more (positive r.0)) [
        | inl z ↦ rw z.0 (keeps (suc left) s)
        | inr z ↦
            rw z.0
              (read_loop-keeps view keeps bound (suc left - positive r.0) r.2 ∙ keeps (suc left) s)
      ]

  pub read_fix_size-keeps :
      {B : Type 0} (view : S → B)
      → ((n : ℕ) (s : S) → view (io.read n s).2 ≡ view s)
      → (n : ℕ) (s : S) → view (read_fix_size io n s).2 ≡ view s
  unfolding read_fix_size
  read_fix_size-keeps view keeps n s = read_loop-keeps view keeps (to_left n) (to_left n) s
