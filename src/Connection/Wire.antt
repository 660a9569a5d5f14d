-- ===== src/Connection/Wire.antt =====
-- connection.py: `_write_frame` and `_read_frame`, the frames as bytes. Tornado's `IOStream` is a
-- parameter: its input is the bytes that the peer sends, and a coroutine that waits for more of them is
-- a function of the whole.
use tornado_http.Common.{
  ℕ, ◌-◌, ◌^◌, List, ◌∷◌, ◌++◌, length, take, drop, ltb, ◌==◌, if◌then◌else◌, bit_and,
}
use tornado_http.Common.Int.{ℤ, pos, negsuc}
use tornado_http.Common.{none}
use tornado_http.Constants.{FrameType, type_value, ErrorCode}
use tornado_http.Errors.{Exn, Result, ok, err, ◌>>=◌, ◌>>◌, raise_if}
use tornado_http.Frames.{Frame}
use tornado_http.Struct.{pack_i, pack_B, from_bytes}

-- `frame.type.value`: a plain number has no `value`.
unfoldable pub written_type : FrameType → Result ℕ
written_type (FrameType.unknown n) = err Exn.attribute_error
written_type FrameType.frame_data = ok 0x0
written_type t = ok (type_value t)

-- `struct.pack('>iBBi', ...)`, its first byte cut off, and the payload.
unfoldable pub encode_frame : Frame → Result (List ℕ)
unfolding written_type
encode_frame f = do
  value ← written_type f.type
  size ← pack_i (length f.payload)
  type ← pack_B value
  flags ← pack_B f.flags
  id ← pack_i f.stream_id
  ok (drop 1 (size ++ (type ++ (flags ++ id))) ++ f.payload)

-- `constants.FrameType(typ)`, or the number itself
unfoldable pub frame_type : ℕ → FrameType
frame_type n =
    if n == 0x0
    then FrameType.frame_data
    else if n == 0x1
    then FrameType.headers
    else if n == 0x2
    then FrameType.priority
    else if n == 0x3
    then FrameType.rst_stream
    else if n == 0x4
    then FrameType.settings
    else if n == 0x5
    then FrameType.push_promise
    else if n == 0x6
    then FrameType.ping
    else if n == 0x7
    then FrameType.goaway
    else if n == 0x8
    then FrameType.window_update
    else if n == 0x9
    then FrameType.continuation
    else FrameType.unknown n

-- The field `i` is signed.
abbrev pub signed : ℕ → ℤ
signed v = if ltb v (2 ^ 31) then pos v else negsuc (2 ^ 32 - v - 1)

-- `x & 0x7fffffff` on a signed number: of -(n + 1) it keeps the bits that `n` has not.
unfoldable pub strip_reserved : ℤ → ℕ
strip_reserved (pos n) = bit_and n 0x7fffffff
strip_reserved (negsuc n) = 0x7fffffff - bit_and n 0x7fffffff

-- `struct.unpack('>iBBi', b'\0' + header_bytes)` on nine bytes: the length, which the zero byte keeps
-- from being negative, the type, the flags and the stream.
unfoldable pub unpack_header : List ℕ → ℕ × ℕ × ℕ × ℤ
unpack_header header = (
  from_bytes (0 ∷ take 3 header),
  from_bytes (take 1 (drop 3 header)),
  from_bytes (take 1 (drop 4 header)),
  signed (from_bytes (drop 5 header)),
)

-- `max_frame_size` is `self.setting(constants.Setting.MAX_FRAME_SIZE)`, and `read_bytes` is
-- `self.stream.read_bytes`, with the input behind the bytes it reads.
module _ (read_bytes : ℕ → List ℕ → Result (List ℕ × List ℕ)) where
  unfoldable pub read_frame : ℕ → List ℕ → Result (Frame × List ℕ)
  read_frame max_frame_size input = do
    (header, rest) ← read_bytes 9 input
    let (data_len, typ, flags, stream_id) = unpack_header header
    raise_if (ltb max_frame_size data_len) (Exn.connection_error ErrorCode.frame_size_error none)
    (payload, rest') ← read_bytes data_len rest
    ok (
      record {
        type = frame_type typ;
        flags = flags;
        stream_id = strip_reserved stream_id;
        payload = payload;
      },
      rest',
    )
