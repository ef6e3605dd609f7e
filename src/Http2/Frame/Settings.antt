-- ===== src/Http2/Frame/Settings.antt =====
-- The SETTINGS frame (JKYi/http2/frame.cc, SettingsItem and SettingsFrame).
use jkyi.Base.{
  ℕ, ◌*◌, ◌/◌, ◌-◌, ◌^◌, ◌<◌, ◌≡◌, ◌∙◌, ap, refl, arith, Bool, true, false, List, [], ◌∷◌, ◌++◌,
  length, append_assoc, take, replicate, length-take, length-append, length-replicate, All,
}
use jkyi.Endian.{Endian}
use jkyi.ByteArray.{ByteArray, Outcome, ok, out_of_range, fault, ◌>>=◌, ◌>>◌, write}
use jkyi.ByteArray.Inv.{IsValid}
use jkyi.ByteArray.Content.{unread}
use jkyi.ByteArray.Write.{write_lem}
use jkyi.ByteArray.Read.{unread-IsRead}
use jkyi.Codec.{write_fuint, read_fuint}
use jkyi.Codec.Reread.{ReadsBack, write_then, Written-append, IsRead-append}
use jkyi.Http2.Frame.{
  FrameHeader, frame_length, SettingsItem, assign, finished, write_item, read_item, write_settings,
  read_items, read_settings,
}
use jkyi.Http2.Frame.Trips.{
  WritesTrue, tried_lem, assign_back, assign_last, Resent, resent_lem, wire, number_out, number_in,
}

-- The fields of an item fit their widths.
abbrev pub ItemFits : SettingsItem → Type 0
ItemFits (identifiber, value) = (identifiber < 2 ^ 16) × (value < 2 ^ 32)

abbrev item_bytes : Endian → SettingsItem → List ℕ
item_bytes e (identifiber, value) = wire e 2 identifiber ++ wire e 4 value

-- The bytes of a SETTINGS frame behind its header
abbrev pub settings_bytes : Endian → List SettingsItem → List ℕ
settings_bytes e [] = []
settings_bytes e (item ∷ items) = item_bytes e item ++ settings_bytes e items

module _ (host : Endian) where
  write_item_lem :
      (item : SettingsItem) (e : Endian) {ba : ByteArray}
      → IsValid ba
      → ba.endian ≡ e
      → WritesTrue (write_item host item) (item_bytes e item) ba
  unfolding write_item
  write_item_lem (identifiber, value) e v same =
      tried_lem false (write_fuint host 2 identifiber >> write_fuint host 4 value)
        (wire e 2 identifiber ++ wire e 4 value)
        (write_then (write_fuint host 2 identifiber) (write_fuint host 4 value)
          (wire e 2 identifiber) (wire e 4 value) v (number_out host e 2 identifiber v same)
          (λ mid u. number_out host e 4 value u.valid (u.same_endian ∙ same)))

  read_item_back :
      (item old : SettingsItem) (e : Endian) (rest : List ℕ) {ba : ByteArray}
      → IsValid ba
      → ba.endian ≡ e
      → ItemFits item
      → unread ba ≡ item_bytes e item ++ rest
      → ReadsBack (read_item host old) (item_bytes e item) (item, true) ba
  unfolding read_item
  read_item_back (identifiber, value) (old_id, old_value) e rest v same (id_lt, value_lt) front =
      let first = front ∙ append_assoc (wire e 2 identifiber) (wire e 4 value) rest in
      assign_back (read_fuint host 2) (λ x. (x, old_value)) (old_id, old_value)
        (λ item. assign (read_fuint host 4) (λ x. (item.0, x)) item finished) (wire e 2 identifiber)
        (wire e 4 value) identifiber (identifiber, value)
        (number_in host e 2 identifiber (wire e 4 value ++ rest) v same (omega arith)
          (omega (arith, id_lt)) first)
        (λ mid r.
          assign_last (read_fuint host 4) (λ x. (identifiber, x)) (identifiber, old_value)
            (wire e 4 value) value
            (number_in host e 4 value rest r.valid (r.same_endian ∙ same) (omega arith)
              (omega (arith, value_lt))
              (unread-IsRead (wire e 2 identifiber) (wire e 4 value ++ rest) r first)))

  write_settings_lem :
      (items : List SettingsItem) (e : Endian) {ba : ByteArray}
      → IsValid ba
      → ba.endian ≡ e
      → WritesTrue (write_settings host items) (settings_bytes e items) ba
  unfolding write_settings write
  write_settings_lem [] e v same = let (after, e', w) = write_lem [] v in (after, ap returned e', w)
    where
      returned : Outcome (Unit {0}) → Outcome Bool
      returned (ok u after) = ok true after
      returned (out_of_range after) = out_of_range after
      returned fault = fault
  write_settings_lem (item ∷ items) e v same =
      let (mid, e', w) = write_item_lem item e v same in
      let (after, e'', u) = write_settings_lem items e w.valid (w.same_endian ∙ same) in
      (after, rw (e', ◌>>=◌) e'', Written-append (item_bytes e item) (settings_bytes e items) v w u)

  read_items_back :
      (items olds : List SettingsItem) (e : Endian) (rest : List ℕ) {ba : ByteArray}
      → IsValid ba
      → ba.endian ≡ e
      → All ItemFits items
      → length olds ≡ length items
      → unread ba ≡ settings_bytes e items ++ rest
      → ReadsBack (read_items host olds) (settings_bytes e items) (items, true) ba
  unfolding read_items
  read_items_back [] [] e rest {ba} v same fits l front = (
    ba,
    refl,
    record {
      valid = v;
      same_content = refl;
      position_lem = omega arith;
      same_endian = refl;
      same_base = refl;
      same_capacity = refl;
    },
  )
  read_items_back [] (old ∷ olds) e rest v same fits l front = absurd (omega (arith, l))
  read_items_back (item ∷ items) [] e rest v same fits l front = absurd (omega (arith, l))
  read_items_back (item ∷ items) (old ∷ olds) e rest v same (fit, fits) l front =
      let first = front ∙ append_assoc (item_bytes e item) (settings_bytes e items) rest in
      let (mid, e', r) =
        read_item_back item old e (settings_bytes e items ++ rest) v same fit first in
      let (after, e'', s) =
        read_items_back items olds e rest r.valid (r.same_endian ∙ same) fits (omega arith)
          (unread-IsRead (item_bytes e item) (settings_bytes e items ++ rest) r first) in
      (
        after,
        rw (e', ◌>>=◌) (rw (e'', ◌>>=◌) refl),
        IsRead-append (item_bytes e item) (settings_bytes e items) r s,
      )

  resized :
      (items old : List SettingsItem) (size : ℕ)
      → size ≡ length items
      → length (take size old ++ replicate (size - length old) (0, 0)) ≡ length items
  resized items old size e = omega (
    arith,
    e,
    length-append (take size old) (replicate (size - length old) (0, 0)),
    length-take size old,
    length-replicate {A = SettingsItem} (size - length old) (0, 0),
  )

  -- A SETTINGS frame that is written, and read from where it was written, comes back with all its
  -- items in order, whatever the object read into held, when the length in its header is that of
  -- the items, 6 bytes each.
  pub read-write_settings :
      (items old : List SettingsItem) (h : FrameHeader) {ba : ByteArray}
      → IsValid ba
      → All ItemFits items
      → frame_length h ≡ 6 * length items
      → Resent
          (write_settings host items)
          (read_settings host h old)
          (settings_bytes ba.endian items)
          items
          ba
  unfolding read_settings
  read-write_settings items old h {ba} v fits l =
      resent_lem (write_settings host items) (read_settings host h old)
        (settings_bytes ba.endian items) items v (write_settings_lem items ba.endian v refl)
        (λ back r.
          read_items_back items
            (take (frame_length h / 6) old ++ replicate (frame_length h / 6 - length old) (0, 0))
            ba.endian r.begins.0 r.valid r.same_endian fits
            (resized items old (frame_length h / 6) (omega (arith, l))) r.begins.1)
