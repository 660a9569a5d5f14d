-- ===== src/Frames/Padding.antt =====
-- frames.py: what `Frame.without_padding` returns on every payload.
use tornado_http.Common.{
  ℕ, zero, suc, ◌-◌, ◌≤◌, ◌<◌, ◌≡◌, refl, ap, ◌∙◌, arith, true, List, [], ◌∷◌, ◌++◌, take, drop,
  length, length-append, take-length, le_or_lt, inl, inr, ltb, leb, ◌==◌, if◌then◌else◌,
}
use tornado_http.Constants.{FrameFlag, has_flag}
use tornado_http.Errors.{Result, ok, err}
use tornado_http.Common.Int.{pos}
use tornado_http.Frames.{negate, Frame, without_padding, padding_error, slice_from_one}

drop-take_head : (m x : ℕ) (rest : List ℕ) → drop 1 (take m (x ∷ rest)) ≡ take (m - 1) rest
drop-take_head zero x rest = refl
drop-take_head (suc m) x rest = let e : suc m - 1 ≡ m = omega arith in rw e

-- What is left of `rest` behind a first byte `p`.
slice_padding :
    (p : ℕ) (rest : List ℕ)
    → 0 < p
    → slice_from_one (p ∷ rest) (negate (pos p)) ≡ take (length rest - p) rest
unfolding slice_from_one
slice_padding zero rest h = absurd (omega arith)
slice_padding (suc p) rest h =
    drop-take_head (suc (length rest) - suc p) (suc p) rest ∙ ap (λ n. take n rest) (omega arith)

module _ (f : Frame) (p : ℕ) (rest : List ℕ) (padded : has_flag f.flags FrameFlag.padded ≡ true)
    (begins : f.payload ≡ p ∷ rest) where
  without_padding_strips :
      0 < p
      → p < 128
      → p ≤ length rest
      → without_padding f ≡ ok (record f { payload = take (length rest - p) rest })
  unfolding without_padding
  without_padding_strips lo hi fits = ground (arith, slice_padding p rest)

  without_padding_too_long : p < 128 → length rest < p → without_padding f ≡ err (padding_error f)
  unfolding without_padding
  without_padding_too_long hi over = ground arith

  without_padding_zero : p ≡ 0 → without_padding f ≡ ok (record f { payload = [] })
  unfolding without_padding
  without_padding_zero e = ground arith

  without_padding_negative :
      128 ≤ p → p < 256 → without_padding f ≡ ok (record f { payload = take (255 - p) rest })
  unfolding without_padding
  without_padding_negative lo hi = ground (arith, drop-take_head (256 - p) p rest)

-- What becomes of the bytes behind a pad length: the whole payload goes at 0 (`data[1:-0]` is empty),
-- the padding goes up to 127 if there is as much, and from 128 on, where the signed read makes the
-- length negative, the first bytes stay whatever there is.
abbrev pub outcome : Frame → ℕ → List ℕ → Result Frame
outcome f p rest =
    if p == 0
    then ok (record f { payload = [] })
    else if ltb 127 p
    then ok (record f { payload = take (255 - p) rest })
    else if leb p (length rest)
    then ok (record f { payload = take (length rest - p) rest })
    else err (padding_error f)

-- On a frame with the flag PADDED and at least one byte of payload, `without_padding` does what
-- `outcome` says of that byte and those behind it: it returns the frame with an empty payload for the
-- pad length 0, strips a padding of 1 to 127 bytes if there are as many, raises if there are not, and
-- keeps the first 255 - p bytes for a pad length p of 128 or more.
pub without_padding-outcome :
    (f : Frame) (p : ℕ) (rest : List ℕ)
    → has_flag f.flags FrameFlag.padded ≡ true
    → f.payload ≡ p ∷ rest
    → p < 256
    → without_padding f ≡ outcome f p rest
without_padding-outcome f p rest padded begins byte = elim (le_or_lt p 0) [
  | inl zero_length ↦ without_padding_zero f p rest padded begins (omega arith) ∙ ground arith
  | inr lo ↦ elim (le_or_lt 128 p) [
    | inl hi ↦ without_padding_negative f p rest padded begins hi byte ∙ ground arith
    | inr short ↦ elim (le_or_lt p (length rest)) [
      | inl fits ↦ without_padding_strips f p rest padded begins lo short fits ∙ ground arith
      | inr over ↦ without_padding_too_long f p rest padded begins short over ∙ ground arith
    ]
  ]
]

-- A payload that has been padded with 1 to 127 bytes, whatever they are, and has their number in
-- front, comes back as it was, with the frame's type, flags and stream.
pub without_padding-pad :
    (f : Frame) (content padding : List ℕ)
    → has_flag f.flags FrameFlag.padded ≡ true
    → f.payload ≡ length padding ∷ (content ++ padding)
    → 0 < length padding
    → length padding < 128
    → without_padding f ≡ ok (record f { payload = content })
without_padding-pad f content padding padded begins lo hi =
    let joined = length-append content padding in
    let behind : length (content ++ padding) - length padding ≡ length content =
      omega (arith, joined) in
    without_padding_strips f (length padding) (content ++ padding) padded begins lo hi
      (omega (arith, joined))
    ∙ ap (λ n. ok (record f { payload = take n (content ++ padding) })) behind
    ∙ ap (λ bs. ok (record f { payload = bs })) (take-length content padding)
