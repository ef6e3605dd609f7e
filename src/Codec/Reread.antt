-- ===== src/Codec/Reread.antt =====
-- Writing and then reading back: what any writer and reader of a value share.
use jkyi.Base.{
  ℕ, ◌+◌, ◌≡◌, sym, ◌∙◌, ap, arith, List, ◌++◌, append_assoc, append-nil, take-append, length, take,
  drop, length-append, length-take, drop-append, drop_all, drop-drop, take_all,
}
use jkyi.ByteArray.{ByteArray, M, ok, ◌>>=◌, ◌>>◌, set_position}
use jkyi.ByteArray.Inv.{IsValid}
use jkyi.ByteArray.Content.{content, unread, length-content}
use jkyi.ByteArray.Write.{Written}
use jkyi.ByteArray.Read.{IsRead, set_position_lem}

-- After a write and a jump back to where it began, the bytes written are the next to be read.
pub record Rewound (buf : List ℕ) (ba back : ByteArray) : Type 0 where
  pub valid : IsValid back
  pub begins : (rest : List ℕ) × (unread back ≡ buf ++ rest)
  pub position_lem : back.position ≡ ba.position
  pub same_endian : back.endian ≡ ba.endian

module _ (buf : List ℕ) {ba after : ByteArray} (v : IsValid ba) (w : Written buf ba after) where
  unread_after :
      drop ba.position (content after) ≡ buf ++ drop (ba.position + length buf) (content ba)
  unread_after =
      ap (λ (r : List ℕ). drop ba.position r) w.content_lem
      ∙ ground (
        arith,
        drop-append ba.position (take ba.position (content ba))
            (buf ++ drop (ba.position + length buf) (content ba)),
        length-take ba.position (content ba),
        length-content v,
        v.position_le,
        drop_all ba.position (take ba.position (content ba)),
      )

  pub rewind :
      (back : ByteArray) × (set_position ba.position after ≡ ok tt back) × Rewound buf ba back
  rewind =
      let (back, e, m) =
        set_position_lem ba.position w.valid
          (omega (arith, w.position_lem, w.valid.position_le, w.valid.size_le)) in
      (
        back,
        e,
        record {
          valid = m.valid;
          begins = (
            drop (ba.position + length buf) (content ba),
            ground (
              arith, m.same_memory, m.position_lem, m.size_lem, w.position_lem, w.valid.position_le,
              unread_after,
            ),
          );
          position_lem = m.position_lem;
          same_endian = m.same_endian ∙ w.same_endian;
        },
      )

-- `reader` gives `a` and takes the bytes `buf`, wherever they are the next bytes.
abbrev pub ReadsBack : {A : Type 0} → M A → List ℕ → A → ByteArray → Type 0
ReadsBack reader buf a ba =
    (after : ByteArray) × (reader ba ≡ ok a after) × IsRead (length buf) ba after

-- `writer` writes the bytes `buf`.
abbrev pub WritesAs : M (Unit {0}) → List ℕ → ByteArray → Type 0
WritesAs writer buf ba = (after : ByteArray) × (writer ba ≡ ok tt after) × Written buf ba after

-- Then writing, going back and reading gives `a`.
pub reread :
    {A : Type 0} (writer : M (Unit {0})) (reader : M A) (buf : List ℕ) (a : A) {ba : ByteArray}
    → IsValid ba
    → WritesAs writer buf ba
    → ((back : ByteArray) → Rewound buf ba back → ReadsBack reader buf a back)
    → (after : ByteArray) × ((writer >> (set_position ba.position >> reader)) ba ≡ ok a after)
      × IsValid after
      × (after.position ≡ ba.position + length buf)
reread writer reader buf a {ba} v (written, e, w) reads =
    let (back, e', r) = rewind buf v w in
    let (after, e'', i) = reads back r in
    (
      after,
      rw (e, ◌>>=◌) (rw (e', ◌>>=◌) e''),
      i.valid,
      i.position_lem ∙ ap (λ (n : ℕ). n + length buf) r.position_lem,
    )

-- What is done with a value that is read.
pub then_also :
    {A B : Type 0} (m : M (Unit {0})) (n : M (Unit {0})) (reader : M A) (f : A → M B)
    (ba : ByteArray)
    → (m >> (n >> (reader >>= f))) ba ≡ ((m >> (n >> reader)) >>= f) ba
then_also m n reader f ba = ground arith

-- Two writes one after the other are a write of both.
module _ (xs ys : List ℕ) {ba mid after : ByteArray} (v : IsValid ba) (w : Written xs ba mid)
    (u : Written ys mid after) where
  before_second : take mid.position (content mid) ≡ take ba.position (content ba) ++ xs
  before_second =
      ap (λ (c : List ℕ). take mid.position c) w.content_lem
      ∙ ground (
        arith,
        w.position_lem,
        length-take ba.position (content ba),
        length-content v,
        v.position_le,
        take-append mid.position (take ba.position (content ba))
            (xs ++ drop (ba.position + length xs) (content ba)),
        take_all mid.position (take ba.position (content ba)),
        take-append (length xs) xs (drop (ba.position + length xs) (content ba)),
        take_all (length xs) xs,
        append-nil xs,
      )

  behind_first : drop mid.position (content mid) ≡ drop mid.position (content ba)
  behind_first =
      ap (λ (n : ℕ). drop n (content mid)) w.position_lem
      ∙ sym (drop-drop (length xs) ba.position (content mid))
      ∙ ap (λ (r : List ℕ). drop (length xs) r) (unread_after xs v w)
      ∙ ground (
        arith,
        w.position_lem,
        drop-append (length xs) xs (drop (ba.position + length xs) (content ba)),
        drop_all (length xs) xs,
      )

  behind_second :
      drop (mid.position + length ys) (content mid)
      ≡ drop (ba.position + length (xs ++ ys)) (content ba)
  behind_second =
      sym (drop-drop (length ys) mid.position (content mid))
      ∙ ap (λ (r : List ℕ). drop (length ys) r) behind_first
      ∙ drop-drop (length ys) mid.position (content ba)
      ∙ ground (arith, w.position_lem, length-append xs ys)

  pub Written-append : Written (xs ++ ys) ba after
  Written-append = record {
    valid = u.valid;
    content_lem =
        u.content_lem
        ∙ ground (
          arith,
          before_second,
          behind_second,
          append_assoc (take ba.position (content ba)) xs
              (ys ++ drop (ba.position + length (xs ++ ys)) (content ba)),
          append_assoc xs ys (drop (ba.position + length (xs ++ ys)) (content ba)),
        );
    position_lem = omega (arith, u.position_lem, w.position_lem, length-append xs ys);
    same_endian = u.same_endian ∙ w.same_endian;
    same_base = u.same_base ∙ w.same_base;
  }

pub write_then :
    (m n : M (Unit {0})) (xs ys : List ℕ) {ba : ByteArray}
    → IsValid ba
    → WritesAs m xs ba
    → ((mid : ByteArray) → Written xs ba mid → WritesAs n ys mid)
    → WritesAs (m >> n) (xs ++ ys) ba
write_then m n xs ys v (mid, e, w) second =
    let (after, e', u) = second mid w in (after, rw (e, ◌>>=◌) e', Written-append xs ys v w u)

pub IsRead-append :
    (xs ys : List ℕ) {ba mid after : ByteArray}
    → IsRead (length xs) ba mid
    → IsRead (length ys) mid after
    → IsRead (length (xs ++ ys)) ba after
IsRead-append xs ys r s = record {
  valid = s.valid;
  same_content = s.same_content ∙ r.same_content;
  position_lem = omega (arith, r.position_lem, s.position_lem, length-append xs ys);
  same_endian = s.same_endian ∙ r.same_endian;
  same_base = s.same_base ∙ r.same_base;
  same_capacity = s.same_capacity ∙ r.same_capacity;
}

pub read_then :
    {A B : Type 0} (m : M A) (f : A → M B) (xs ys : List ℕ) (a : A) (b : B) {ba : ByteArray}
    → ReadsBack m xs a ba
    → ((mid : ByteArray) → IsRead (length xs) ba mid → ReadsBack (f a) ys b mid)
    → ReadsBack (m >>= f) (xs ++ ys) b ba
read_then m f xs ys a b (mid, e, r) second =
    let (after, e', s) = second mid r in (after, rw (e, ◌>>=◌) e', IsRead-append xs ys r s)
