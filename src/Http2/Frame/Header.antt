-- ===== src/Http2/Frame/Header.antt =====
-- The header of a frame, and the frames of one number (JKYi/http2/frame.cc, FrameHeader::writeTo
-- and readFrom, and those of RstStreamFrame and WindowUpdateFrame).
use jkyi.Base.{ℕ, ◌^◌, ◌<◌, ◌≡◌, ◌∙◌, refl, arith, true, false, List, [], ◌∷◌, ◌++◌, append_assoc}
use jkyi.Endian.{Endian}
use jkyi.ByteArray.{ByteArray, ◌>>◌}
use jkyi.ByteArray.Inv.{IsValid}
use jkyi.ByteArray.Content.{unread}
use jkyi.ByteArray.Read.{unread-IsRead}
use jkyi.Codec.{write_fuint, read_fuint, write_fuint8, read_fuint8}
use jkyi.Codec.Fixed.{write_fuint8_lem, read_fuint8_back}
use jkyi.Codec.Reread.{ReadsBack, write_then}
use jkyi.Http2.Frame.{
  FrameHeader, tried, assign, finished, write_header, read_header, write_word, read_word,
}
use jkyi.Http2.Frame.Trips.{
  WritesTrue, tried_lem, assign_back, assign_last, Resent, resent_lem, wire, number_out, number_in,
}

-- The fields of a header fit their widths.
pub record Fits (h : FrameHeader) : Type 0 where
  pub len_type_lt : h.len_type < 2 ^ 32
  pub flags_lt : h.flags < 2 ^ 8
  pub r_id_lt : h.r_id < 2 ^ 32

-- The 9 bytes of a header
abbrev pub header_bytes : Endian → FrameHeader → List ℕ
header_bytes e h = wire e 4 h.len_type ++ ((h.flags ∷ []) ++ wire e 4 h.r_id)

module _ (host : Endian) (h : FrameHeader) (fits : Fits h) where
  write_header_lem :
      {ba : ByteArray} → IsValid ba → WritesTrue (write_header host h) (header_bytes ba.endian h) ba
  unfolding write_header
  write_header_lem {ba} v =
      tried_lem true
        (write_fuint host 4 h.len_type >> (write_fuint8 host h.flags >> write_fuint host 4 h.r_id))
        (header_bytes ba.endian h)
        (write_then (write_fuint host 4 h.len_type)
          (write_fuint8 host h.flags >> write_fuint host 4 h.r_id) (wire ba.endian 4 h.len_type)
          ((h.flags ∷ []) ++ wire ba.endian 4 h.r_id) v
          (number_out host ba.endian 4 h.len_type v refl)
          (λ mid u.
            write_then (write_fuint8 host h.flags) (write_fuint host 4 h.r_id) (h.flags ∷ [])
              (wire ba.endian 4 h.r_id) u.valid
              (write_fuint8_lem host h.flags u.valid (omega (arith, fits.flags_lt)))
              (λ mid' u'.
                number_out host ba.endian 4 h.r_id u'.valid (u'.same_endian ∙ u.same_endian))))

  read_header_back :
      (old : FrameHeader) (e : Endian) (rest : List ℕ) {ba : ByteArray}
      → IsValid ba
      → ba.endian ≡ e
      → unread ba ≡ header_bytes e h ++ rest
      → ReadsBack (read_header host old) (header_bytes e h) (h, true) ba
  unfolding read_header
  read_header_back old e rest {ba} v same front =
      let one = wire e 4 h.len_type in
      let three = wire e 4 h.r_id in
      let first : unread ba ≡ one ++ (h.flags ∷ (three ++ rest)) =
        front ∙ append_assoc one ((h.flags ∷ []) ++ three) rest in
      let h1 = record old { len_type = h.len_type } in
      let h2 = record h1 { flags = h.flags } in
      assign_back (read_fuint host 4) (λ x. record old { len_type = x }) old
        (λ h.
          assign (read_fuint8 host) (λ x. record h { flags = x }) h
            (λ h. assign (read_fuint host 4) (λ x. record h { r_id = x }) h finished))
        one ((h.flags ∷ []) ++ three) h.len_type h
        (number_in host e 4 h.len_type (h.flags ∷ (three ++ rest)) v same (omega arith)
          (omega (arith, fits.len_type_lt)) first)
        (λ mid r.
          let second : unread mid ≡ h.flags ∷ (three ++ rest) =
            unread-IsRead one (h.flags ∷ (three ++ rest)) r first in
          assign_back (read_fuint8 host) (λ x. record h1 { flags = x }) h1
            (λ h. assign (read_fuint host 4) (λ x. record h { r_id = x }) h finished) (h.flags ∷ [])
            three h.flags h (read_fuint8_back host h.flags (three ++ rest) r.valid second)
            (λ mid' r'.
              assign_last (read_fuint host 4) (λ x. record h2 { r_id = x }) h2 three h.r_id
                (number_in host e 4 h.r_id rest r'.valid (r'.same_endian ∙ r.same_endian ∙ same)
                  (omega arith) (omega (arith, fits.r_id_lt))
                  (unread-IsRead (h.flags ∷ []) (three ++ rest) r' second))))

  -- A frame header whose fields fit their widths comes back when it is written, and read from where
  -- it was written, whatever the object read into held, in either byte order and on either host.
  pub read-write_header :
      (old : FrameHeader) {ba : ByteArray}
      → IsValid ba
      → Resent (write_header host h) (read_header host old) (header_bytes ba.endian h) h ba
  read-write_header old {ba} v =
      resent_lem (write_header host h) (read_header host old) (header_bytes ba.endian h) h v
        (write_header_lem v)
        (λ back r. read_header_back old ba.endian r.begins.0 r.valid r.same_endian r.begins.1)

-- The number of a RST_STREAM or WINDOW_UPDATE frame comes back.
pub read-write_word :
    (host : Endian) (word old : ℕ) {ba : ByteArray}
    → IsValid ba
    → word < 2 ^ 32
    → Resent (write_word host word) (read_word host old) (wire ba.endian 4 word) word ba
unfolding write_word read_word
read-write_word host word old {ba} v small =
    resent_lem (tried false (write_fuint host 4 word))
      (assign (read_fuint host 4) (λ x. x) old finished) (wire ba.endian 4 word) word v
      (tried_lem false (write_fuint host 4 word) (wire ba.endian 4 word)
        (number_out host ba.endian 4 word v refl))
      (λ back r.
        assign_last (read_fuint host 4) (λ x. x) old (wire ba.endian 4 word) word
          (number_in host ba.endian 4 word r.begins.0 r.valid r.same_endian (omega arith)
            (omega (arith, small)) r.begins.1))
