-- ===== src/Http2/Frame/Runs.antt =====
-- Runs of the frames.
use jkyi.Base.{◌+◌, ◌*◌, ◌≡◌, refl, arith, true, false, List, [], ◌∷◌}
use jkyi.Endian.{little, ordered, le_bytes}
use jkyi.ByteArray.{ByteArray, create}
use jkyi.ByteArray.Inv.{IsValid, create-IsValid}
use jkyi.Http2.Frame.{
  FrameHeader, DataFrame, SettingsItem, is_padded, write_settings, read_settings,
}
use jkyi.Http2.Frame.Trips.{Resent}
use jkyi.Http2.Frame.Header.{Fits, header_bytes}
use jkyi.Http2.Frame.Settings.{settings_bytes, read-write_settings}

abbrev fresh : ByteArray
fresh = create 7 4

abbrev fresh-IsValid : IsValid fresh
fresh-IsValid = create-IsValid 7 4 (omega arith)

-- A DATA frame of 6 bytes on stream 5, with the flag PADDED
abbrev padded_header : FrameHeader
padded_header = record { len_type = 0 + 256 * 6; flags = 8; r_id = 5 }

abbrev plain_header : FrameHeader
plain_header = record { len_type = 0 + 256 * 3; flags = 1; r_id = 5 }

abbrev settings_header : FrameHeader
settings_header = record { len_type = 4 + 256 * 12; flags = 0; r_id = 0 }

abbrev empty_header : FrameHeader
empty_header = record { len_type = 0; flags = 0; r_id = 0 }

abbrev frame : DataFrame
frame = record { pad = 2; body = 1 ∷ 2 ∷ 3 ∷ []; padding = 0 ∷ 0 ∷ [] }

abbrev empty_frame : DataFrame
empty_frame = record { pad = 0; body = []; padding = [] }

abbrev items : List SettingsItem
items = (1, 4096) ∷ (4, 65535) ∷ []

-- The length goes out first, highest byte first, and the type behind it.
header_layout : header_bytes fresh.endian padded_header ≡ 0 ∷ 0 ∷ 6 ∷ 0 ∷ 8 ∷ 0 ∷ 0 ∷ 0 ∷ 5 ∷ []
unfolding create ordered le_bytes
header_layout = refl

padded_header-Fits : Fits padded_header
padded_header-Fits = record {
  len_type_lt = omega arith;
  flags_lt = omega arith;
  r_id_lt = omega arith;
}

read-write_settings_example :
    Resent
      (write_settings little items)
      (read_settings little settings_header [])
      (settings_bytes fresh.endian items)
      items
      fresh
read-write_settings_example =
    read-write_settings little items [] settings_header fresh-IsValid
      ((omega arith, omega arith), ((omega arith, omega arith), tt)) (omega arith)

plain : is_padded plain_header ≡ false
unfolding is_padded
plain = refl

padded : is_padded padded_header ≡ true
unfolding is_padded
padded = refl
