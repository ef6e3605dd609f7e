-- ===== src/Http2/Frame.antt =====
-- JKYi/http2/frame.h, frame.cc: the header of a frame, and the DATA, SETTINGS, RST_STREAM and
-- WINDOW_UPDATE frames. The members of a union are one number; its bit fields lie from the
-- lowest bit on, as they do for the compilers of little-endian machines. A reader changes the frame
-- it is called on, so it takes the frame and gives it back. `catch(...)` catches every exception.
pub mod Trips
pub mod Header
pub mod Settings
pub mod Data
mod Runs
use jkyi.Base.{
  ℕ, zero, suc, ◌+◌, ◌-◌, ◌*◌, ◌/◌, ◌%◌, ◌^◌, Bool, true, false, List, [], ◌∷◌, ◌++◌, ltb, leb,
  ◌==◌, if◌then◌else◌, length, take, replicate,
}
use Prim.Native.Nat.{bit_and}
use jkyi.Endian.{Endian}
use jkyi.ByteArray.{ByteArray, M, ok, out_of_range, fault, ◌>>=◌, ◌>>◌, pure, write, read}
use jkyi.Codec.{write_fuint, read_fuint, write_fuint8, read_fuint8}

pub record FrameHeader : Type 0 where
  pub len_type : ℕ
  pub flags : ℕ
  pub r_id : ℕ

-- The bit field `length`, above that of the type
abbrev pub frame_length : FrameHeader → ℕ
frame_length h = h.len_type / 256

-- A writer in a `try`: what it returns, and what it returns after an exception.
abbrev pub tried : Bool → M (Unit {0}) → M Bool
tried caught m ba = elim (m ba) [
  | ok u after ↦ ok true after
  | out_of_range after ↦ ok caught after
  | fault ↦ fault
]

-- A step of a reader in a `try`: the frame with what was read, or `false` and the frame `old`.
abbrev pub assign : {A X : Type 0} → M X → (X → A) → A → (A → M (A × Bool)) → M (A × Bool)
assign reader set old next ba = elim (reader ba) [
  | ok x after ↦ next (set x) after
  | out_of_range after ↦ ok (old, false) after
  | fault ↦ fault
]

abbrev pub finished : {A : Type 0} → A → M (A × Bool)
finished frame = pure (frame, true)

-- `std::string::resize`
abbrev pub resize_string : ℕ → List ℕ → List ℕ
resize_string n s = take n s ++ replicate (n - length s) 0

-- `body` is the member `data`.
pub record DataFrame : Type 0 where
  pub pad : ℕ
  pub body : List ℕ
  pub padding : List ℕ

abbrev pub SettingsItem : Type 0
SettingsItem = ℕ × ℕ

unfoldable pub is_padded : FrameHeader → Bool
is_padded h = if bit_and h.flags 0x8 == 0 then false else true

-- `data.resize(n)` and the read into it
read_data_bytes : ℕ → DataFrame → (DataFrame → M (DataFrame × Bool)) → M (DataFrame × Bool)
read_data_bytes n f next =
    assign (read n) (λ bytes. record f { body = bytes })
      (record f { body = resize_string n f.body }) next

read_padding : DataFrame → M (DataFrame × Bool)
read_padding f =
    assign (read f.pad) (λ bytes. record f { padding = bytes })
      (record f { padding = resize_string f.pad f.padding }) finished

module _ (host : Endian) where
  -- `FrameHeader::writeTo` also returns true after an exception.
  unfoldable pub write_header : FrameHeader → M Bool
  write_header h =
      tried true
        (write_fuint host 4 h.len_type >> (write_fuint8 host h.flags >> write_fuint host 4 h.r_id))

  unfoldable pub read_header : FrameHeader → M (FrameHeader × Bool)
  read_header h =
      assign (read_fuint host 4) (λ x. record h { len_type = x }) h
        (λ h.
          assign (read_fuint8 host) (λ x. record h { flags = x }) h
            (λ h. assign (read_fuint host 4) (λ x. record h { r_id = x }) h finished))

  unfoldable pub write_data : DataFrame → FrameHeader → M Bool
  write_data f h = tried false (
      if is_padded h
      then write_fuint8 host f.pad >> (write f.body >> write f.padding)
      else write f.body)

  -- A negative length makes `resize` throw.
  unfoldable pub read_data : FrameHeader → DataFrame → M (DataFrame × Bool)
  unfolding read_data_bytes read_padding
  read_data h f =
      if is_padded h
      then assign (read_fuint8 host) (λ x. record f { pad = x }) f
          (λ f.
            if ltb (frame_length h) (f.pad + 1)
            then pure (f, false)
            else read_data_bytes (frame_length h - f.pad - 1) f read_padding)
      else read_data_bytes (frame_length h) f finished

  -- `SettingsItem`, which takes 6 bytes, and `SettingsFrame`
  unfoldable pub write_item : SettingsItem → M Bool
  write_item (identifiber, value) =
      tried false (write_fuint host 2 identifiber >> write_fuint host 4 value)

  unfoldable pub read_item : SettingsItem → M (SettingsItem × Bool)
  read_item (identifiber, value) =
      assign (read_fuint host 2) (λ x. (x, value)) (identifiber, value)
        (λ item. assign (read_fuint host 4) (λ x. (item.0, x)) item finished)

  -- The results of the items are not looked at.
  unfoldable pub write_settings : List SettingsItem → M Bool
  write_settings [] = pure true
  write_settings (item ∷ items) = write_item item >>= λ done. write_settings items

  unfoldable pub read_items : List SettingsItem → M (List SettingsItem × Bool)
  read_items [] = pure ([], true)
  read_items (item ∷ items) = do
    (item', done) ← read_item item
    elim done [
      | false ↦ pure (item' ∷ items, false)
      | true ↦ (do (items', all) ← read_items items; pure (item' ∷ items', all))
    ]

  unfoldable pub read_settings : FrameHeader → List SettingsItem → M (List SettingsItem × Bool)
  read_settings h items =
      let size = frame_length h / 6 in
      read_items (take size items ++ replicate (size - length items) (0, 0))

  -- `RstStreamFrame` and `WindowUpdateFrame`: one number
  unfoldable pub write_word : ℕ → M Bool
  write_word word = tried false (write_fuint host 4 word)

  unfoldable pub read_word : ℕ → M (ℕ × Bool)
  read_word word = assign (read_fuint host 4) (λ x. x) word finished
