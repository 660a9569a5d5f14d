-- ===== src/Connection/WireRoundTrip.antt =====
-- connection.py: `_read_frame` reads what `_write_frame` writes, and refuses what is too long.
use tornado_http.Common.{
  ℕ, ◌+◌, ◌^◌, ◌≤◌, ◌<◌, ◌≡◌, ◌≢◌, refl, sym, ap, ◌∙◌, arith, none, List, ◌∷◌, ◌++◌, append_assoc,
  length, length-append, lt→ltb, ge→ltb,
}
use native.Mathlib.Nat.{mod-eq_of_lt}
use tornado_http.Common.Bits.{bit_and-mask}
use tornado_http.Connection.Wire.{
  written_type, encode_frame, frame_type, signed, strip_reserved, unpack_header, read_frame,
}
use tornado_http.Constants.{FrameType, type_value, ErrorCode}
use tornado_http.Errors.{Exn, Result, ok, err}
use tornado_http.Frames.{Frame}
use tornado_http.Struct.{pack_field_fits, to_bytes, from_bytes, from_bytes-to_bytes}

-- What `IOStream.read_bytes` is documented to do: where that many bytes have come, it gives them and
-- leaves the rest.
abbrev pub ReadsExactly : (ℕ → List ℕ → Result (List ℕ × List ℕ)) → Type 0
ReadsExactly read_bytes = (xs ys : List ℕ) → read_bytes (length xs) (xs ++ ys) ≡ ok (xs, ys)

-- A frame type that is a member of the enumeration.
abbrev pub IsKnown : FrameType → Type 0
IsKnown t = (n : ℕ) → t ≢ FrameType.unknown n

-- A frame that fits its header's fields.
pub record FitsHeader (f : Frame) : Type 0 where
  pub known : IsKnown f.type
  pub size : length f.payload < 2 ^ 24
  pub flags_byte : f.flags < 2 ^ 8
  pub id_bits : f.stream_id < 2 ^ 31

strip-signed : (v : ℕ) → v < 2 ^ 31 → strip_reserved (signed v) ≡ v
unfolding strip_reserved
strip-signed v h = rw (lt→ltb v (2 ^ 31) h) (bit_and-mask 31 v ∙ mod-eq_of_lt h)

frame_type-value : (t : FrameType) → IsKnown t → frame_type (type_value t) ≡ t
unfolding frame_type
frame_type-value FrameType.frame_data k = refl
frame_type-value FrameType.headers k = refl
frame_type-value FrameType.priority k = refl
frame_type-value FrameType.rst_stream k = refl
frame_type-value FrameType.settings k = refl
frame_type-value FrameType.push_promise k = refl
frame_type-value FrameType.ping k = refl
frame_type-value FrameType.goaway k = refl
frame_type-value FrameType.window_update k = refl
frame_type-value FrameType.continuation k = refl
frame_type-value (FrameType.unknown n) k = absurd (k n refl)

written_type-value :
    (t : FrameType) → IsKnown t → (written_type t ≡ ok (type_value t)) × (type_value t < 2 ^ 8)
unfolding written_type
written_type-value FrameType.frame_data k = (refl, omega arith)
written_type-value (FrameType.unknown n) k = absurd (k n refl)
written_type-value _ k = (refl, omega arith)

-- The nine bytes of a header.
abbrev pub header : Frame → List ℕ
header f =
    to_bytes 3 (length f.payload)
    ++ (to_bytes 1 (type_value f.type) ++ (to_bytes 1 f.flags ++ to_bytes 4 f.stream_id))

pub encode_frame-header : (f : Frame) → FitsHeader f → encode_frame f ≡ ok (header f ++ f.payload)
unfolding encode_frame to_bytes
encode_frame-header f h =
    let (value, byte) = written_type-value f.type h.known in
    let size : length f.payload < 2 ^ 31 = omega (arith, h.size) in
    rw (
      value,
      pack_field_fits 4 (2 ^ 31) (length f.payload) size,
      pack_field_fits 1 (2 ^ 8) (type_value f.type) byte,
      pack_field_fits 1 (2 ^ 8) f.flags h.flags_byte,
      pack_field_fits 4 (2 ^ 31) f.stream_id h.id_bits,
    )

three_bytes : (v : ℕ) → v < 2 ^ 24 → from_bytes (0 ∷ to_bytes 3 v) ≡ v
three_bytes v h = zero_byte (to_bytes 3 v) ∙ from_bytes-to_bytes 3 v h
  where
    zero_byte : (bs : List ℕ) → from_bytes (0 ∷ bs) ≡ from_bytes bs
    zero_byte bs = unfold from_bytes in omega arith

unpack_header-header :
    (f : Frame)
    → FitsHeader f
    → unpack_header (header f) ≡ (length f.payload, type_value f.type, f.flags, signed f.stream_id)
unfolding unpack_header to_bytes
unpack_header-header f h =
    let (value, byte) = written_type-value f.type h.known in
    λ i. (
      three_bytes (length f.payload) h.size i,
      from_bytes-to_bytes 1 (type_value f.type) byte i,
      from_bytes-to_bytes 1 f.flags h.flags_byte i,
      signed (from_bytes-to_bytes 4 f.stream_id (omega (arith, h.id_bits)) i),
    )

length-header : (f : Frame) → length (header f) ≡ 9
unfolding to_bytes
length-header f = refl

module _ (read_bytes : ℕ → List ℕ → Result (List ℕ × List ℕ)) (reads : ReadsExactly read_bytes)
    (f : Frame) (h : FitsHeader f) (max_frame_size : ℕ) (rest : List ℕ) where
  read_bytes-header : (behind : List ℕ) → read_bytes 9 (header f ++ behind) ≡ ok (header f, behind)
  read_bytes-header behind =
      ap (λ n. read_bytes n (header f ++ behind)) (sym (length-header f)) ∙ reads (header f) behind

  read_frame-header :
      length f.payload ≤ max_frame_size
      → read_frame read_bytes max_frame_size (header f ++ (f.payload ++ rest)) ≡ ok (f, rest)
  unfolding read_frame
  read_frame-header fits = rw (read_bytes-header (f.payload ++ rest)) (
      rw (unpack_header-header f h) (
        rw (
          ge→ltb max_frame_size (length f.payload) fits,
          reads f.payload rest,
          frame_type-value f.type h.known,
          strip-signed f.stream_id h.id_bits,
        )))

  read_frame-header_long :
      max_frame_size < length f.payload
      → read_frame read_bytes max_frame_size (header f ++ (f.payload ++ rest))
        ≡ err (Exn.connection_error ErrorCode.frame_size_error none)
  unfolding read_frame
  read_frame-header_long long =
      rw (read_bytes-header (f.payload ++ rest))
        (rw (unpack_header-header f h) (rw (lt→ltb max_frame_size (length f.payload) long)))

  -- The bytes that `_write_frame` makes of a frame whose fields fit the header (a type of the
  -- enumeration, a payload below 2^24 bytes, flags of one byte, a stream below 2^31) are nine more
  -- than the payload's, and with any bytes behind them `_read_frame` reads them as the same frame and
  -- leaves those bytes, if the payload is within the limit.
  pub read_frame-encode_frame :
      length f.payload ≤ max_frame_size
      → (bs : List ℕ) × (encode_frame f ≡ ok bs)
        × (length bs ≡ 9 + length f.payload)
        × (read_frame read_bytes max_frame_size (bs ++ rest) ≡ ok (f, rest))
  read_frame-encode_frame fits = (
    header f ++ f.payload,
    encode_frame-header f h,
    omega (arith, length-append (header f) f.payload, length-header f),
    ap (read_frame read_bytes max_frame_size) (append_assoc (header f) f.payload rest)
        ∙ read_frame-header fits,
  )

  -- The same bytes end `_read_frame` in the connection error FRAME_SIZE_ERROR, if the payload of the
  -- frame is longer than the limit.
  pub read_frame-encode_frame_long :
      max_frame_size < length f.payload
      → (bs : List ℕ) × (encode_frame f ≡ ok bs)
        × (read_frame read_bytes max_frame_size (bs ++ rest)
            ≡ err (Exn.connection_error ErrorCode.frame_size_error none))
  read_frame-encode_frame_long long = (
    header f ++ f.payload,
    encode_frame-header f h,
    ap (read_frame read_bytes max_frame_size) (append_assoc (header f) f.payload rest)
        ∙ read_frame-header_long long,
  )
