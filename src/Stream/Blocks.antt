-- ===== src/Stream/Blocks.antt =====
-- stream.py: a header block over its HEADERS and CONTINUATION frames, and `handle_frame`.
use tornado_http.Common.{
  ℕ, ◌+◌, Bool, not, ◌&&◌, none, some, List, [], ◌∷◌, ◌++◌, length, take, drop, ltb, ◌==◌,
  if◌then◌else◌,
}
use tornado_http.Common.Int.{pos}
use tornado_http.Connection.Handlers.{Params}
use tornado_http.Connection.Wire.{signed, strip_reserved}
use tornado_http.Constants.{codes, FrameType, ErrorCode, FrameFlag, has_flag, HttpPhase}
use tornado_http.Errors.{Exn, Result, ok, err, ◌>>=◌, ◌>>◌, raise_if}
use tornado_http.Frames.{Frame, without_padding}
use tornado_http.Hpack.Decoder.{Header, decode}
use tornado_http.Hpack.Table.{Bytes}
use tornado_http.Stream.{
  StartLine, DelegateCall, World, Method, and_then, raises, update, delegate_call,
  needs_continuation, is_trailers, maybe_end_stream, handle_priority_frame, handle_rst_stream_frame,
  handle_window_update_frame, handle_data_frame,
}
use tornado_http.Stream.Headers.{
  join_frames, is_headers_phase, is_body_phase, Scan, scan_headers, start_request,
}
use tornado_http.Stream.Outside.{Outside}
use tornado_http.Stream.Send.{write_headers, finish_stream}
use tornado_http.Struct.{from_bytes}

-- `sum(len(f.data) for f in self._header_frames)`
unfoldable pub frames_length : List Frame → ℕ
frames_length [] = 0
frames_length (f ∷ fs) = length f.payload + frames_length fs

-- `struct.unpack('>ib', data[:5])`, of which only the dependency counts.
unfoldable pub stream_dependency : Bytes → Result ℕ
stream_dependency content =
    if length (take 5 content) == 5
    then ok (strip_reserved (signed (from_bytes (take 4 content))))
    else err Exn.struct_error

-- The priority fields in front of a block.
unfoldable pub strip_priority : Frame → Bytes → Result Bytes
unfolding stream_dependency
strip_priority f content =
    if has_flag f.flags FrameFlag.priority
    then (do
      dependency ← stream_dependency content
      raise_if (dependency == f.stream_id) (
          Exn.connection_error ErrorCode.protocol_error
            (some (codes "stream cannot depend on itself")))
      ok (drop 5 content))
    else ok content

-- `except HpackError`
abbrev pub as_connection_error {ℓ} : {A : Type ℓ} → Result A → Result A
as_connection_error (ok a) = ok a
as_connection_error (err Exn.hpack_error) =
    err (Exn.connection_error ErrorCode.compression_error none)
as_connection_error (err e) = err e

-- `self.conn.hpack_decoder.decode`
unfoldable pub decode_block : Bytes → World → World × Result (List Header)
decode_block block w =
    let decoded = decode block w.conn.hpack_decoder in
    (record w { conn = record w.conn { hpack_decoder = decoded.0 } }, as_connection_error decoded.1)

module _ (x : Outside) (params : Params) where
  -- The request begins, where these are not trailers.
  unfoldable pub begin_message : Scan → Method
  unfolding start_request
  begin_message scan w =
      if is_headers_phase w.stream.phase
      then start_request x scan.pseudo_headers scan.headers w
      else (w, ok tt)

  -- Trailers must end the stream.
  unfoldable pub check_trailers : Bool → Method
  check_trailers ends w =
      if not ends && is_trailers w.stream.phase
      then raises (Exn.stream_error w.stream.stream_id ErrorCode.protocol_error) w
      else (w, ok tt)

  -- What follows the loop over the headers; `flags` are the first frame's.
  unfoldable pub end_headers : ℕ → Scan → Method
  unfolding begin_message maybe_end_stream check_trailers
  end_headers flags scan w =
      and_then (and_then (begin_message scan w) (maybe_end_stream flags))
        (check_trailers (has_flag flags FrameFlag.end_stream))

  -- The decoder, and the loop over what it gives.
  unfoldable pub read_fields : Bytes → World → World × Result Scan
  unfolding decode_block scan_headers
  read_fields block w =
      let (w', decoded) = decode_block block w in
      (
        w',
        decoded >>= λ hs. scan_headers x w.conn.is_client w.stream.stream_id hs (record {
          pseudo_headers = [];
          headers = [];
          has_regular_header = is_trailers w.stream.phase;
        }),
      )

  unfoldable pub parse_fields : ℕ → Bytes → Method
  unfolding read_fields end_headers
  parse_fields flags block w =
      let read = read_fields block w in
      elim read.1 [ err e ↦ (read.0, err e) | ok scan ↦ end_headers flags scan read.0 ]

  -- `_parse_headers` on the first frame and the bytes of all of them.
  unfoldable pub parse_block : Frame → Bytes → Method
  unfolding strip_priority parse_fields
  parse_block first content w = elim (strip_priority first content) [
    | err e ↦ (w, err e)
    | ok block ↦ parse_fields first.flags block w
  ]

  unfoldable pub parse_headers : Method
  unfolding parse_block join_frames
  parse_headers w = elim w.stream.header_frames [
    | [] ↦ (w, err Exn.index_error)
    | first ∷ more ↦
        parse_block first (join_frames (first ∷ more))
          (update (λ s. record s { header_frames = [] }) w)
  ]

  -- `_check_header_length`, which returns to its caller in every case.
  unfoldable pub check_header_length : Method
  unfolding frames_length write_headers finish_stream
  check_header_length w =
      if not (ltb params.max_header_size (frames_length w.stream.header_frames))
      then (w, ok tt)
      else if w.conn.is_client
      then (update (delegate_call DelegateCall.on_connection_close) w, ok tt)
      else and_then
          (write_headers x (StartLine.response (pos 431) (codes "Headers too large")) [] [] (
            update
              (λ s. record s {
                request_start_line = some (StartLine.request (codes "GET") (codes "/"));
              })
              w))
          (finish_stream x)

  -- `self._header_frames.append(frame)`, the check, and the end of the block.
  unfoldable pub add_header_frame : Frame → Method
  unfolding check_header_length parse_headers
  add_header_frame f w =
      and_then
        (check_header_length
          (update (λ s. record s { header_frames = s.header_frames ++ (f ∷ []) }) w))
        (λ w'. if has_flag f.flags FrameFlag.end_headers then parse_headers w' else (w', ok tt))

  unfoldable pub handle_headers_frame : Frame → Method
  unfolding add_header_frame
  handle_headers_frame f w =
      let w' =
        update
          (λ s. record s { phase = if is_body_phase s.phase then HttpPhase.trailers else s.phase })
          w in
      elim (without_padding f) [ err e ↦ (w', err e) | ok f' ↦ add_header_frame f' w' ]

  unfoldable pub handle_continuation_frame : Frame → Method
  unfolding add_header_frame
  handle_continuation_frame f w =
      if not (needs_continuation w.stream)
      then raises
          (Exn.connection_error ErrorCode.protocol_error
            (some (codes "CONTINUATION without HEADERS")))
          w
      else add_header_frame f w

  -- The second half of `handle_frame`, by the frame's type. Unknown types are discarded.
  unfoldable pub handle_message_frame : FrameType → Frame → Method
  unfolding handle_headers_frame handle_continuation_frame
  handle_message_frame FrameType.headers f w = handle_headers_frame f w
  handle_message_frame FrameType.continuation f w = handle_continuation_frame f w
  handle_message_frame FrameType.frame_data f w = handle_data_frame x.io_write x.returns_none f w
  handle_message_frame _ f w = (w, ok tt)

  -- Its first half: what a stream handles also when it is finished, and what it never handles.
  unfoldable pub handle_frame_of : FrameType → Frame → Method
  unfolding handle_message_frame
  handle_frame_of FrameType.priority f w = handle_priority_frame f w
  handle_frame_of FrameType.rst_stream f w = handle_rst_stream_frame f w
  handle_frame_of FrameType.window_update f w = handle_window_update_frame f w
  handle_frame_of FrameType.settings f w = raises Exn.plain_exception w
  handle_frame_of FrameType.goaway f w = raises Exn.plain_exception w
  handle_frame_of FrameType.push_promise f w = raises Exn.plain_exception w
  handle_frame_of type f w =
      if w.stream.finished
      then raises (Exn.stream_error w.stream.stream_id ErrorCode.stream_closed) w
      else handle_message_frame type f w

  -- `handle_frame`
  unfoldable pub handle_stream_frame : Frame → Method
  unfolding handle_frame_of
  handle_stream_frame f w = handle_frame_of f.type f w
