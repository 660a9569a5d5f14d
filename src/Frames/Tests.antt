-- ===== src/Frames/Tests.antt =====
-- frames.py: the theorems at concrete frames.
use tornado_http.Common.{◌≡◌, refl, [], ◌∷◌, arith}
use tornado_http.Constants.{FrameType, has_flag}
use tornado_http.Errors.{ok}
use tornado_http.Frames.{Frame, without_padding}
use tornado_http.Frames.Padding.{without_padding-outcome, without_padding-pad}

-- A DATA frame with three bytes and a padding of two.
abbrev padded_frame : Frame
padded_frame = record {
  type = FrameType.frame_data;
  flags = 0x8;
  stream_id = 1;
  payload = 2 ∷ 10 ∷ 11 ∷ 12 ∷ 0 ∷ 0 ∷ [];
}

without_padding-pad_example :
    without_padding padded_frame ≡ ok (record padded_frame { payload = 10 ∷ 11 ∷ 12 ∷ [] })
unfolding has_flag
without_padding-pad_example =
    without_padding-pad padded_frame (10 ∷ 11 ∷ 12 ∷ []) (0 ∷ 0 ∷ []) refl refl (omega arith)
      (omega arith)

-- The same with the pad length 0: the bytes are lost.
abbrev unpadded_frame : Frame
unpadded_frame = record padded_frame { payload = 0 ∷ 10 ∷ 11 ∷ 12 ∷ [] }

without_padding-outcome_example :
    without_padding unpadded_frame ≡ ok (record unpadded_frame { payload = [] })
unfolding has_flag
without_padding-outcome_example =
    without_padding-outcome unpadded_frame 0 (10 ∷ 11 ∷ 12 ∷ []) refl refl (omega arith)
