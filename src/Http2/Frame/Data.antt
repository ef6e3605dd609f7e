-- ===== src/Http2/Frame/Data.antt =====
-- The DATA frame (JKYi/http2/frame.cc, DataFrame::writeTo and readFrom).
use jkyi.Base.{
  ℕ, ◌+◌, ◌-◌, ◌<◌, ◌≡◌, ◌∙◌, ap, arith, true, false, List, [], ◌∷◌, ◌++◌, length, append_assoc,
  ltb, if◌then◌else◌,
}
use jkyi.Endian.{Endian}
use jkyi.ByteArray.{ByteArray, ◌>>◌, pure, write, read}
use jkyi.ByteArray.Inv.{IsValid}
use jkyi.ByteArray.Content.{unread}
use jkyi.ByteArray.Write.{write_lem}
use jkyi.ByteArray.Read.{read_prefix, unread-IsRead}
use jkyi.Codec.{write_fuint8, read_fuint8}
use jkyi.Codec.Fixed.{write_fuint8_lem, read_fuint8_back}
use jkyi.Codec.Reread.{ReadsBack, write_then}
use jkyi.Http2.Frame.{
  assign, FrameHeader, frame_length, DataFrame, is_padded, write_data, read_data, read_data_bytes,
  read_padding, resize_string,
}
use jkyi.Http2.Frame.Trips.{tried_lem, assign_back, assign_last, Resent, resent_lem}

-- The bytes of a padded frame behind its header
abbrev pub padded_bytes : DataFrame → List ℕ
padded_bytes f = (f.pad ∷ []) ++ (f.body ++ f.padding)

module _ (host : Endian) (f old : DataFrame) (h : FrameHeader) {ba : ByteArray} (v : IsValid ba)
    (rest : List ℕ) (front : unread ba ≡ padded_bytes f ++ rest) where
  -- What `readFrom` does behind the test of the flag PADDED
  read_padded :
      0 < length f.body
      → 0 < f.pad
      → f.pad < 256
      → f.pad ≡ length f.padding
      → frame_length h ≡ 1 + length f.body + f.pad
      → ReadsBack
          (assign
            (read_fuint8 host)
            (λ x. record old { pad = x })
            old
            (λ f'.
              if ltb (frame_length h) (f'.pad + 1)
              then pure (f', false)
              else read_data_bytes (frame_length h - f'.pad - 1) f' read_padding))
          (padded_bytes f)
          (f, true)
          ba
  unfolding read_data_bytes read_padding
  read_padded body_some some small p l =
      let room : ltb (frame_length h) (f.pad + 1) ≡ false = ground (arith, l) in
      let len : frame_length h - f.pad - 1 ≡ length f.body = omega (arith, l) in
      let f1 : DataFrame = record old { pad = f.pad } in
      let f2 : DataFrame = record f1 { body = f.body } in
      let first : unread ba ≡ f.pad ∷ (f.body ++ (f.padding ++ rest)) =
        front ∙ ap (λ (bs : List ℕ). f.pad ∷ bs) (append_assoc f.body f.padding rest) in
      assign_back (read_fuint8 host) (λ x. record old { pad = x }) old
        (λ f'.
          if ltb (frame_length h) (f'.pad + 1)
          then pure (f', false)
          else read_data_bytes (frame_length h - f'.pad - 1) f' read_padding)
        (f.pad ∷ []) (f.body ++ f.padding) f.pad f
        (read_fuint8_back host f.pad (f.body ++ (f.padding ++ rest)) v first)
        (λ mid r.
          let second : unread mid ≡ f.body ++ (f.padding ++ rest) =
            unread-IsRead (f.pad ∷ []) (f.body ++ (f.padding ++ rest)) r first in
          rw (room, len)
            (assign_back (read (length f.body)) (λ bytes. record f1 { body = bytes })
              (record f1 { body = resize_string (length f.body) f1.body }) read_padding f.body
              f.padding f.body f (read_prefix f.body (f.padding ++ rest) r.valid body_some second)
              (λ mid' r'.
                let third : ReadsBack (read f.pad) f.padding f.padding mid' = rw p (
                  read_prefix f.padding rest r'.valid (omega (arith, p, some))
                    (unread-IsRead f.body (f.padding ++ rest) r' second)) in
                assign_last (read f.pad) (λ bytes. record f2 { padding = bytes })
                  (record f2 { padding = resize_string f.pad f2.padding }) f.padding f.padding
                  third)))

module _ (host : Endian) (f old : DataFrame) (h : FrameHeader) {ba : ByteArray} (v : IsValid ba)
    (body_some : 0 < length f.body) where
  -- A DATA frame without the flag PADDED whose length is that of its data comes back, and leaves
  -- the padding of the object read into as it was. The data must not be empty.
  pub read-write_data :
      is_padded h ≡ false
      → frame_length h ≡ length f.body
      → Resent (write_data host f h) (read_data host h old) f.body (record old { body = f.body }) ba
  unfolding write_data read_data read_data_bytes
  read-write_data plain l =
      resent_lem (write_data host f h) (read_data host h old) f.body (record old { body = f.body })
        v (rw plain (tried_lem false (write f.body) f.body (write_lem f.body v)))
        (λ back r.
          rw (plain, l)
            (assign_last (read (length f.body)) (λ bytes. record old { body = bytes })
              (record old { body = resize_string (length f.body) old.body }) f.body f.body
              (read_prefix f.body r.begins.0 r.valid body_some r.begins.1)))

  -- A DATA frame with the flag PADDED comes back with its padding, when that is as long as `pad`
  -- says, and the length in the header counts it and the byte before the data. Neither may be
  -- empty, and `pad` fits a byte.
  pub read-write_data_padded :
      is_padded h ≡ true
      → 0 < f.pad
      → f.pad < 256
      → f.pad ≡ length f.padding
      → frame_length h ≡ 1 + length f.body + f.pad
      → Resent (write_data host f h) (read_data host h old) (padded_bytes f) f ba
  unfolding write_data read_data read_data_bytes read_padding
  read-write_data_padded padded some small p l =
      resent_lem (write_data host f h) (read_data host h old) (padded_bytes f) f v
        (rw padded (
          tried_lem false (write_fuint8 host f.pad >> (write f.body >> write f.padding))
            (padded_bytes f)
            (write_then (write_fuint8 host f.pad) (write f.body >> write f.padding) (f.pad ∷ [])
              (f.body ++ f.padding) v (write_fuint8_lem host f.pad v small)
              (λ mid u.
                write_then (write f.body) (write f.padding) f.body f.padding u.valid
                  (write_lem f.body u.valid) (λ mid' u'. write_lem f.padding u'.valid)))))
        (λ back r.
          rw padded
            (read_padded host f old h r.valid r.begins.0 r.begins.1 body_some some small p l))
