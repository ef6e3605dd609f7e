-- ===== src/Http2/Frame/Trips.antt =====
-- Writing a frame and reading it back: what the frames of JKYi/http2/frame.cc share.
use jkyi.Base.{ℕ, ◌+◌, ◌^◌, ◌<◌, ◌≡◌, sym, ◌∙◌, ap, refl, Bool, true, List, ◌++◌, length}
use jkyi.Endian.{Endian, ordered, le_bytes}
use jkyi.ByteArray.{ByteArray, M, ok, ◌>>=◌, ◌>>◌, set_position}
use jkyi.ByteArray.Inv.{IsValid}
use jkyi.ByteArray.Content.{unread}
use jkyi.ByteArray.Write.{Written}
use jkyi.ByteArray.Read.{IsRead}
use jkyi.Codec.{write_fuint, read_fuint}
use jkyi.Codec.Fixed.{write_fuint_wire, read_fuint_back}
use jkyi.Codec.Reread.{ReadsBack, WritesAs, Rewound, rewind, IsRead-append}
use jkyi.Http2.Frame.{tried, assign, finished}

-- `writer` writes the bytes `buf` and returns true.
abbrev pub WritesTrue : M Bool → List ℕ → ByteArray → Type 0
WritesTrue writer buf ba = (after : ByteArray) × (writer ba ≡ ok true after) × Written buf ba after

pub tried_lem :
    (caught : Bool) (m : M (Unit {0})) (buf : List ℕ) {ba : ByteArray}
    → WritesAs m buf ba
    → WritesTrue (tried caught m) buf ba
tried_lem caught m buf (after, e, w) = (after, rw (e, tried) refl, w)

-- A step of a reader, and then the others
pub assign_back :
    {A X : Type 0} (reader : M X) (set : X → A) (old : A) (next : A → M (A × Bool)) (xs ys : List ℕ)
    (x : X) (a : A) {ba : ByteArray}
    → ReadsBack reader xs x ba
    → ((mid : ByteArray) → IsRead (length xs) ba mid → ReadsBack (next (set x)) ys (a, true) mid)
    → ReadsBack (assign reader set old next) (xs ++ ys) (a, true) ba
assign_back reader set old next xs ys x a (mid, e, r) second =
    let (after, e', s) = second mid r in (after, rw (e, assign) e', IsRead-append xs ys r s)

-- The last step
pub assign_last :
    {A X : Type 0} (reader : M X) (set : X → A) (old : A) (xs : List ℕ) (x : X) {ba : ByteArray}
    → ReadsBack reader xs x ba
    → ReadsBack (assign reader set old finished) xs (set x, true) ba
assign_last reader set old xs x (after, e, r) = (after, rw (e, assign) refl, r)

-- Writing a frame, going back, and reading it into a frame
abbrev pub resent : {A : Type 0} → M Bool → M (A × Bool) → ByteArray → M (A × Bool)
resent writer reader ba = writer >>= λ done. set_position ba.position >> reader

-- It gives `a`, and both sides end at the same position.
abbrev pub Resent : {A : Type 0} → M Bool → M (A × Bool) → List ℕ → A → ByteArray → Type 0
Resent writer reader buf a ba =
    (after : ByteArray) × (resent writer reader ba ba ≡ ok (a, true) after)
    × IsValid after
    × (after.position ≡ ba.position + length buf)

pub resent_lem :
    {A : Type 0} (writer : M Bool) (reader : M (A × Bool)) (buf : List ℕ) (a : A) {ba : ByteArray}
    → IsValid ba
    → WritesTrue writer buf ba
    → ((back : ByteArray) → Rewound buf ba back → ReadsBack reader buf (a, true) back)
    → Resent writer reader buf a ba
resent_lem writer reader buf a v (written, e, w) reads =
    let (back, e', r) = rewind buf v w in
    let (after, e'', i) = reads back r in
    (
      after,
      rw (e, ◌>>=◌) (rw (e', ◌>>=◌) e''),
      i.valid,
      i.position_lem ∙ ap (λ (n : ℕ). n + length buf) r.position_lem,
    )

-- A number in the byte order `e` of the array
abbrev pub wire : Endian → ℕ → ℕ → List ℕ
wire e w val = ordered e (le_bytes w val)

module _ (host e : Endian) (w val : ℕ) where
  pub number_out :
      {ba : ByteArray}
      → IsValid ba
      → ba.endian ≡ e
      → WritesAs (write_fuint host w val) (wire e w val) ba
  number_out v same = rw (← same) (write_fuint_wire host w val v)

  pub number_in :
      (rest : List ℕ) {ba : ByteArray}
      → IsValid ba
      → ba.endian ≡ e
      → 0 < w
      → val < 256 ^ w
      → unread ba ≡ wire e w val ++ rest
      → ReadsBack (read_fuint host w) (wire e w val) val ba
  number_in rest v same pos fits front = rw (← same) (
      read_fuint_back host w val rest v pos fits
        (front ∙ ap (λ (o : Endian). wire o w val ++ rest) (sym same)))
