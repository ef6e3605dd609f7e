-- ===== src/Timer/Due.antt =====
-- Which timers `listExpiredCb` (JKYi/timer.cc) takes out of the set.
use jkyi.Base.{
  ℕ, ◌<◌, ◌≤◌, ◌≡◌, ◌⊎◌, inl, inr, refl, sym, ◌∙◌, ap, arith, true, false, ◌&&◌, ◌||◌, List, [],
  ◌∷◌, ◌++◌, append_assoc, Bool-cases, ◌==◌, ltb, All,
}
use jkyi.Timer.{Heap, less, lower_bound, skip_now, split_expired}
use jkyi.Timer.Ordered.{In, IsOrdered, All-In}

-- `xs` falls into those before and those behind a point: what `P` and `Q` say of them.
pub record Split (P Q : ℕ → Type 0) (heap : Heap) (xs before others : List ℕ) : Type 0 where
  pub whole : xs ≡ before ++ others
  pub lower : (q : ℕ) → In q before → P q
  pub upper : (q : ℕ) → In q others → Q q
  pub ordered : IsOrdered heap others

less-le : (heap : Heap) (x q : ℕ) → less heap x q ≡ true → (heap x).next ≤ (heap q).next
unfolding less
less-le heap x q l = ground arith

module _ (heap : Heap) (now : ℕ) where
  -- Whoever is behind `x` is due no earlier.
  pub no_earlier :
      (x : ℕ) (xs : List ℕ)
      → All (λ q. less heap x q ≡ true) xs
      → (q : ℕ) → In q (x ∷ xs)
      → (heap x).next ≤ (heap q).next
  no_earlier x xs h q (inl e) = rw e (omega arith)
  no_earlier x xs h q (inr m) = less-le heap x q (All-In (λ q. less heap x q ≡ true) xs h q m)

  Split-more :
      {P Q : ℕ → Type 0} (x : ℕ) (xs before others : List ℕ)
      → P x
      → Split P Q heap xs before others
      → Split P Q heap (x ∷ xs) (x ∷ before) others
  Split-more {P} {Q} x xs before others px s = record {
    whole = ap (λ (r : List ℕ). x ∷ r) s.whole;
    lower = in_front;
    upper = s.upper;
    ordered = s.ordered;
  }
    where
      in_front : (q : ℕ) → In q (x ∷ before) → P q
      in_front q (inl e) = rw e px
      in_front q (inr m) = s.lower q m

  lower_bound-Split :
      (at : ℕ) (xs : List ℕ)
      → IsOrdered heap xs
      → Split
          (λ q. (heap q).next ≤ now)
          (λ q. now ≤ (heap q).next)
          heap
          xs
          (lower_bound heap now at xs).0
          (lower_bound heap now at xs).1
  unfolding lower_bound
  lower_bound-Split at [] h = record {
    whole = refl;
    lower = λ q m. absurd m;
    upper = λ q m. absurd m;
    ordered = tt;
  }
  lower_bound-Split at (x ∷ xs) (hx, hs) =
      elim (Bool-cases (ltb (heap x).next now || ((heap x).next == now && ltb x at))) [
        | inl y ↦ rw y (
            Split-more x xs (lower_bound heap now at xs).0 (lower_bound heap now at xs).1
              (ground (arith, y)) (lower_bound-Split at xs hs))
        | inr n ↦ rw n (stop (ground (arith, n)))
      ]
    where
      stop :
          now ≤ (heap x).next
          → Split (λ q. (heap q).next ≤ now) (λ q. now ≤ (heap q).next) heap (x ∷ xs) [] (x ∷ xs)
      stop l = record {
        whole = refl;
        lower = λ q m. absurd m;
        upper = λ q m. omega (arith, l, no_earlier x xs hx q m);
        ordered = (hx, hs);
      }

  skip_now-Split :
      (xs : List ℕ)
      → IsOrdered heap xs
      → ((q : ℕ) → In q xs → now ≤ (heap q).next)
      → Split
          (λ q. (heap q).next ≤ now)
          (λ q. now < (heap q).next)
          heap
          xs
          (skip_now heap now xs).0
          (skip_now heap now xs).1
  unfolding skip_now
  skip_now-Split [] h f = record {
    whole = refl;
    lower = λ q m. absurd m;
    upper = λ q m. absurd m;
    ordered = tt;
  }
  skip_now-Split (x ∷ xs) (hx, hs) f = elim (Bool-cases ((heap x).next == now)) [
    | inl y ↦ rw y (
        Split-more x xs (skip_now heap now xs).0 (skip_now heap now xs).1 (ground (arith, y))
          (skip_now-Split xs hs (λ q m. f q (inr m))))
    | inr n ↦ rw n (stop (ground (arith, n, f x (inl refl))))
  ]
    where
      stop :
          now < (heap x).next
          → Split (λ q. (heap q).next ≤ now) (λ q. now < (heap q).next) heap (x ∷ xs) [] (x ∷ xs)
      stop l = record {
        whole = refl;
        lower = λ q m. absurd m;
        upper = λ q m. omega (arith, l, no_earlier x xs hx q m);
        ordered = (hx, hs);
      }

pub In-append : (q : ℕ) (xs ys : List ℕ) → In q (xs ++ ys) → In q xs ⊎ In q ys
In-append q [] ys m = inr m
In-append q (x ∷ xs) ys (inl e) = inl (inl e)
In-append q (x ∷ xs) ys (inr m) = elim (In-append q xs ys m) [ inl i ↦ inl (inr i) | inr i ↦ inr i ]

-- Without a rollover of the clock exactly the timers that are due are taken out.
pub split_expired-Split :
    (heap : Heap) (now at : ℕ) (xs : List ℕ)
    → IsOrdered heap xs
    → Split
        (λ q. (heap q).next ≤ now)
        (λ q. now < (heap q).next)
        heap
        xs
        (split_expired false heap now at xs).0
        (split_expired false heap now at xs).1
unfolding split_expired
split_expired-Split heap now at xs h =
    let s = lower_bound-Split heap now at xs h in
    let others = (lower_bound heap now at xs).1 in
    let u = skip_now-Split heap now others s.ordered s.upper in
    record {
      whole =
          s.whole
          ∙ ap (λ (r : List ℕ). (lower_bound heap now at xs).0 ++ r) u.whole
          ∙ sym (
              append_assoc (lower_bound heap now at xs).0 (skip_now heap now others).0
                (skip_now heap now others).1);
      lower = λ q m.
          elim (In-append q (lower_bound heap now at xs).0 (skip_now heap now others).0 m) [
            | inl i ↦ s.lower q i
            | inr i ↦ u.lower q i
          ];
      upper = u.upper;
      ordered = u.ordered;
    }
