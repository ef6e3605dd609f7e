-- ===== src/Timer/Expired.antt =====
-- `listExpiredCb` and `getNextTimer` (JKYi/timer.cc).
use jkyi.Base.{
  ℕ, ◌+◌, ◌%◌, ◌^◌, ◌≡◌, ◌≢◌, ◌↔◌, inl, inr, refl, ◌∙◌, ap, Bool, true, false, Option, none, List,
  [], ◌∷◌, map, if◌then◌else◌,
}
use mathlib.Core.Path.{subst}
use jkyi.Timer.{Timer, TimerManager, put, less, set_insert, fire}
use jkyi.Timer.Ordered.{
  In, IsOrdered, All-In, In-set_insert, set_insert-IsOrdered, put-IsOrdered, put-other, put-same,
  less_irrefl, next-IsOrdered,
}

-- What becomes of a timer `q` that has expired and was `t`: a recurring one is due again after its
-- interval and in the set, any other has no callback any more.
abbrev pub Renewed : ℕ → ℕ → Timer → TimerManager → Type 0
Renewed now q t m' =
    (t.recurring ≡ true → ((m'.heap q).next ≡ (now + t.ms) % 2 ^ 64) × In q m'.timers)
    × (t.recurring ≡ false → ((m'.heap q).cb ≡ none) × ¬ In q m'.timers)

-- What the loop on the expired timers does.
pub record Fired (now : ℕ) (expired : List ℕ) (m : TimerManager) (cbs : List (Option ℕ))
    (m' : TimerManager) : Type 0 where
  pub cbs_lem : cbs ≡ map (λ q. (m.heap q).cb) expired
  pub ordered : IsOrdered m'.heap m'.timers
  pub others : (q : ℕ) → ¬ In q expired → (m'.heap q ≡ m.heap q) × (In q m'.timers ↔ In q m.timers)
  pub renewed : (q : ℕ) → In q expired → Renewed now q (m.heap q) m'

map_same :
    (f g : ℕ → Option ℕ) (xs : List ℕ) → ((q : ℕ) → In q xs → f q ≡ g q) → map f xs ≡ map g xs
map_same f g [] h = refl
map_same f g (x ∷ xs) h = rw (h x (inl refl), map_same f g xs (λ q m. h q (inr m))) refl

-- The manager after the first expired timer
abbrev after_first : ℕ → ℕ → TimerManager → TimerManager
after_first now p m =
    let timer = m.heap p in
    let again = put p (record timer { next = (now + timer.ms) % 2 ^ 64 }) m.heap in
    let ended = put p (record timer { cb = none }) m.heap in
    if timer.recurring
    then record m { heap = again; timers = set_insert again p m.timers }
    else record m { heap = ended }

record First (now p : ℕ) (m m1 : TimerManager) : Type 0 where
  ordered : IsOrdered m1.heap m1.timers
  others : (q : ℕ) → q ≢ p → (m1.heap q ≡ m.heap q) × (In q m1.timers ↔ In q m.timers)
  renewed : Renewed now p (m.heap p) m1

module _ (now p : ℕ) (m : TimerManager) (h : IsOrdered m.heap m.timers) (n : ¬ In p m.timers) where
  again_m : TimerManager
  again_m =
      let heap' = put p (record (m.heap p) { next = (now + (m.heap p).ms) % 2 ^ 64 }) m.heap in
      record m { heap = heap'; timers = set_insert heap' p m.timers }

  ended_m : TimerManager
  ended_m = record m { heap = put p (record (m.heap p) { cb = none }) m.heap }

  again-First : (m.heap p).recurring ≡ true → First now p m again_m
  unfolding again_m
  again-First y =
      let t : Timer = record (m.heap p) { next = (now + (m.heap p).ms) % 2 ^ 64 } in
      record {
        ordered =
            set_insert-IsOrdered (put p t m.heap) p m.timers
              (put-IsOrdered m.heap p t m.timers n h);
        others = λ q k. (
          put-other p t m.heap q k,
          (
            λ i. elim ((In-set_insert (put p t m.heap) p q m.timers).0 i) [
              | inl e ↦ absurd (k e)
              | inr j ↦ j
            ],
            λ i. (In-set_insert (put p t m.heap) p q m.timers).1 (inr i),
          ),
        );
        renewed = (
          λ _. (
            ap (λ (t : Timer). t.next) (put-same p t m.heap),
            (In-set_insert (put p t m.heap) p p m.timers).1 (inl refl),
          ),
          λ f. absurd (cc),
        );
      }

  ended-First : (m.heap p).recurring ≡ false → First now p m ended_m
  unfolding ended_m
  ended-First f =
      let t : Timer = record (m.heap p) { cb = none } in
      record {
        ordered = put-IsOrdered m.heap p t m.timers n h;
        others = λ q k. (put-other p t m.heap q k, (λ i. i, λ i. i));
        renewed = (λ c. absurd (cc), λ _. (ap (λ (t : Timer). t.cb) (put-same p t m.heap), n));
      }

  after_first-First : First now p m (after_first now p m)
  unfolding again_m ended_m
  after_first-First = either (m.heap p).recurring refl
    where
      either :
          (b : Bool) → (m.heap p).recurring ≡ b → First now p m (if b then again_m else ended_m)
      either true y = again-First y
      either false f = ended-First f

once_more :
    (now p : ℕ) (ps : List ℕ) (m : TimerManager) {m1 m' : TimerManager} {cbs : List (Option ℕ)}
    → First now p m m1
    → Fired now ps m1 cbs m'
    → ((q : ℕ) → In q ps → q ≢ p)
    → (q : ℕ) → In q (p ∷ ps)
    → Renewed now q (m.heap q) m'
once_more now p ps m {m1} {m'} f g fresh q (inr i) =
    subst (λ (t : Timer). Renewed now q t m') (f.others q (fresh q i)).0 (g.renewed q i)
once_more now p ps m {m1} {m'} f g fresh q (inl e) = rw e (first (g.others p (λ j. fresh p j refl)))
  where
    first :
        (m'.heap p ≡ m1.heap p) × (In p m'.timers ↔ In p m1.timers) → Renewed now p (m.heap p) m'
    first (e, i) = (
      λ y. let (a, b) = f.renewed.0 y in (ap (λ (t : Timer). t.next) e ∙ a, i.1 b),
      λ y. let (a, b) = f.renewed.1 y in (ap (λ (t : Timer). t.cb) e ∙ a, λ j. b (i.0 j)),
    )

pub fire-Fired :
    (now : ℕ) (ps : List ℕ) (m : TimerManager)
    → IsOrdered m.heap m.timers
    → IsOrdered m.heap ps
    → ((q : ℕ) → In q ps → ¬ In q m.timers)
    → Fired now ps m (fire now ps m).0 (fire now ps m).1
unfolding fire
fire-Fired now [] m h o apart = record {
  cbs_lem = refl;
  ordered = h;
  others = λ q n. (refl, (λ i. i, λ i. i));
  renewed = λ q i. absurd i;
}
fire-Fired now (p ∷ ps) m h (hp, o) apart =
    let f = after_first-First now p m h (apart p (inl refl)) in
    let g =
      fire-Fired now ps (after_first now p m) f.ordered
        (next-IsOrdered m.heap (after_first now p m).heap ps
          (λ q i. ap (λ (t : Timer). t.next) (f.others q (fresh q i)).0) o)
        (λ q i j. apart q (inr i) ((f.others q (fresh q i)).1.0 j)) in
    record {
      cbs_lem =
          ap (λ (r : List (Option ℕ)). (m.heap p).cb ∷ r)
            (g.cbs_lem
              ∙ map_same (λ q. ((after_first now p m).heap q).cb) (λ q. (m.heap q).cb) ps
                  (λ q i. ap (λ (t : Timer). t.cb) (f.others q (fresh q i)).0));
      ordered = g.ordered;
      others = λ q n.
          let (e, i) = g.others q (λ j. n (inr j)) in
          let (e', i') = f.others q (λ k. n (inl k)) in
          (e ∙ e', (λ j. i'.0 (i.0 j), λ j. i.1 (i'.1 j)));
      renewed = once_more now p ps m f g fresh;
    }
  where
    fresh : (q : ℕ) → In q ps → q ≢ p
    fresh q i e = less_irrefl m.heap p q e (All-In (λ q. less m.heap p q ≡ true) ps hp q i)
