-- ===== src/Base/Elements.antt =====
-- Elements of a list by their index.
use jkyi.Base.Lists.{length, get_elem?, drop}
use Prim.Native.Nat.{ℕ, zero, suc, ◌+◌, ◌-◌, ◌<◌}
use mathlib.Core.Path.{◌≡◌, refl, ap, ◌∙◌}
use mathlib.Core.Option.{some}
use mathlib.Core.List.{List, [], ◌∷◌, ◌++◌, reverse, reverse-cons}
use native.Mathlib.Omega.{arith}
use native.Mathlib.Decide.{dec_lt}

module _ {ℓ} {A : Type ℓ} where
  pub get_elem?-append_left :
      (xs ys : List A) (i : ℕ) → i < length xs → get_elem? (xs ++ ys) i ≡ get_elem? xs i
  get_elem?-append_left [] ys i l = absurd (omega (arith, l))
  get_elem?-append_left (x ∷ xs) ys zero l = refl
  get_elem?-append_left (x ∷ xs) ys (suc i) l = get_elem?-append_left xs ys i (omega arith)

  pub get_elem?-append_at : (xs : List A) (y : A) → get_elem? (xs ++ (y ∷ [])) (length xs) ≡ some y
  get_elem?-append_at [] y = refl
  get_elem?-append_at (x ∷ xs) y = get_elem?-append_at xs y

  pub length-append_one : (xs : List A) (y : A) → length (xs ++ (y ∷ [])) ≡ suc (length xs)
  length-append_one [] y = refl
  length-append_one (x ∷ xs) y = ap suc (length-append_one xs y)

  pub length-reverse : (xs : List A) → length (reverse xs) ≡ length xs
  length-reverse [] = refl
  length-reverse (x ∷ xs) =
      rw (reverse-cons x xs) (length-append_one (reverse xs) x ∙ ap suc (length-reverse xs))

  pub get_elem?-lt : (xs : List A) (i : ℕ) (x : A) → get_elem? xs i ≡ some x → i < length xs
  get_elem?-lt [] i x e = absurd (cc)
  get_elem?-lt (y ∷ xs) zero x e = omega arith
  get_elem?-lt (y ∷ xs) (suc i) x e = let l = get_elem?-lt xs i x e in omega arith

  pub get_elem?-reverse :
      (xs : List A) (i : ℕ)
      → i < length xs
      → get_elem? (reverse xs) i ≡ get_elem? xs (length xs - 1 - i)
  get_elem?-reverse [] i l = absurd (omega (arith, l))
  get_elem?-reverse (x ∷ xs) i l = rw (reverse-cons x xs) elim (dec_lt i (length xs)) [
    | yes inside ↦
        let e : suc (length xs - 1 - i) ≡ suc (length xs) - 1 - i = omega arith in
        get_elem?-append_left (reverse xs) (x ∷ []) i (omega (arith, length-reverse xs))
        ∙ get_elem?-reverse xs i inside
        ∙ ap (get_elem? (x ∷ xs)) e
    | no beyond ↦
        let e : i ≡ length (reverse xs) = omega (arith, length-reverse xs) in
        ap (get_elem? (reverse xs ++ (x ∷ []))) e
        ∙ get_elem?-append_at (reverse xs) x
        ∙ ap (get_elem? (x ∷ xs)) {x = 0} (omega arith)
  ]

pub get_elem?-drop {ℓ} :
    {A : Type ℓ} (k : ℕ) (xs : List A) (i : ℕ) → get_elem? (drop k xs) i ≡ get_elem? xs (k + i)
get_elem?-drop zero xs i = ap (get_elem? xs) (omega arith)
get_elem?-drop (suc k) [] i = refl
get_elem?-drop (suc k) (x ∷ xs) i =
    get_elem?-drop k xs i ∙ ap (get_elem? (x ∷ xs)) {x = suc (k + i)} (omega arith)
