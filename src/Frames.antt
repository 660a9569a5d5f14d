-- ===== src/Frames.antt =====
-- tornado_http2/frames.py: `Frame` and its padding.
pub mod Padding
mod Tests
use tornado_http.Common.{
  ℕ, zero, suc, ◌+◌, ◌-◌, ◌^◌, Bool, List, [], ◌∷◌, take, drop, length, ltb, if◌then◌else◌, bit_and,
}
use tornado_http.Common.Int.{ℤ, pos, negsuc, ltb_ℤ}
use tornado_http.Constants.{codes, FrameType, ErrorCode, FrameFlag, has_flag}
use tornado_http.Errors.{Exn, Result, ok, err, ◌>>=◌, ◌>>◌}
use tornado_http.Common.{Option, some, none}
use tornado_http.Struct.{unpack_field}

-- `payload` is the field `data`.
pub record Frame : Type 0 where
  pub type : FrameType
  pub flags : ℕ
  pub stream_id : ℕ
  pub payload : List ℕ

-- `struct.unpack('>b', data[:1])`: the signed value of the first byte.
abbrev signed_byte : ℕ → ℤ
signed_byte b = if ltb b (2 ^ 7) then pos b else negsuc (2 ^ 8 - b - 1)

unfoldable pub unpack_b : List ℕ → Result ℤ
unpack_b [] = err Exn.struct_error
unpack_b (b ∷ rest) = ok (signed_byte b)

-- `data[1:stop]`: a negative bound counts from the end, and stops at the front.
unfoldable pub slice_from_one : List ℕ → ℤ → List ℕ
slice_from_one bs (pos n) = drop 1 (take n bs)
slice_from_one bs (negsuc n) = drop 1 (take (length bs - suc n) bs)

abbrev negate : ℤ → ℤ
negate (pos zero) = pos 0
negate (pos (suc n)) = negsuc n
negate (negsuc n) = pos (suc n)

-- The exception for a padding that is too long.
abbrev pub padding_error : Frame → Exn
padding_error f = elim f.type [
  | FrameType.headers ↦
      Exn.connection_error ErrorCode.protocol_error (some (codes "invalid padding length"))
  | _ ↦ Exn.stream_error f.stream_id ErrorCode.protocol_error
]

-- The branch of a padded frame.
unfoldable pub strip_padding : Frame → Result Frame
unfolding unpack_b slice_from_one
strip_padding f = do
  pad_len ← unpack_b f.payload
  if ltb_ℤ (pos (length f.payload - 1)) pad_len
      then err (padding_error f)
      else ok (record f { payload = slice_from_one f.payload (negate pad_len) })

unfoldable pub without_padding : Frame → Result Frame
unfolding strip_padding
without_padding f = if has_flag f.flags FrameFlag.padded then strip_padding f else ok f

-- `parse_window_update_frame`, which the package imports and does not call.
unfoldable pub parse_window_update_frame : Frame → Result ℕ
unfolding unpack_field
parse_window_update_frame f = elim (unpack_field 4 f.payload) [
  | err e ↦ err (
      Exn.connection_error ErrorCode.frame_size_error (some (codes "WINDOW_UPDATE incorrect size")))
  | ok window_update ↦ ok (bit_and window_update 0x7fffffff)
]
