-- ===== src/Connection/LoopErrors.antt =====
-- connection.py: what an error of a stream does to the loop, and what it leaves alone.
use tornado_http.Common.{
  ℕ, suc, ◌<◌, ◌^◌, ◌≡◌, ◌≢◌, refl, ap, ◌∙◌, arith, inl, inr, Bool, true, false, not, ◌&&◌, ◌||◌,
  Option, none, some, [], ◌∷◌, ◌++◌, ltb, ◌==◌, if◌then◌else◌, dict_get,
}
use tornado_http.Common.Dicts.{dict_get-set_other}
use tornado_http.Connection.Handlers.{Call, Params, rst_stream_frame}
use tornado_http.Connection.Loop.{
  Serving, stream_of, on_conn, in_block, is_continuation, is_last, is_local, is_headers,
  check_continuation, to_stream, open_remote, dispatch_stream, route, dispatch, recover, serve_loop,
  frame_limit, ServerCall,
}
use tornado_http.Connection.LoopEnds.{serve_loop-stops, serve_loop-next}
use tornado_http.Connection.Wire.{encode_frame, read_frame}
use tornado_http.Connection.WireRoundTrip.{FitsHeader, header, encode_frame-header}
use tornado_http.Connection.Replies.{write_frame-encoded}
use tornado_http.Struct.{to_bytes, pack_field_fits, length-to_bytes}
use tornado_http.Constants.{codes, FrameType, ErrorCode, error_value}
use tornado_http.Errors.{Exn, Result, ok, err, raise_if, Result-cases}
use tornado_http.Frames.{Frame}
use tornado_http.Hpack.Table.{Bytes}
use tornado_http.Stream.{Stream, new_stream}
use tornado_http.Stream.Outside.{Outside}

if-stream_of :
    (id : ℕ) (found : Option Stream) (b : Bool) (p q : Serving × Result (Unit {0}))
    → stream_of id p.0 ≡ found
    → stream_of id q.0 ≡ found
    → stream_of id (if b then p else q).0 ≡ found
if-stream_of id found true p q one other = one
if-stream_of id found false p q one other = other

module _ (x : Outside) (params : Params) where
  to_stream-others :
      (id : ℕ) (stream : Stream) (f : Frame) (s : Serving)
      → id ≢ f.stream_id
      → stream_of id (to_stream x params stream f s).0 ≡ stream_of id s
  unfolding to_stream
  to_stream-others id stream f s apart = dict_get-set_other f.stream_id id _ s.streams apart

  dispatch_stream-others :
      (id : ℕ) (found : Option Stream) (f : Frame) (s : Serving)
      → id ≢ f.stream_id
      → stream_of id (dispatch_stream x params found f s).0 ≡ stream_of id s
  unfolding dispatch_stream open_remote
  dispatch_stream-others id (some stream) f s apart = to_stream-others id stream f s apart
  dispatch_stream-others id none f s apart =
      if-stream_of id (stream_of id s) (not s.conn.is_client && is_headers f.type) _ _
        (if-stream_of id (stream_of id s) (is_local f.stream_id s.conn) _ _ refl (
          if-stream_of id (stream_of id s) (not s.has_delegate) _ _ refl (
            to_stream-others id (new_stream s.conn f.stream_id) f
              (record s {
                max_remote_stream_id =
                    if ltb s.max_remote_stream_id f.stream_id
                    then f.stream_id
                    else s.max_remote_stream_id;
                server_calls = s.server_calls ++ (ServerCall.starts_request f.stream_id ∷ []);
              })
              apart)))
        refl

  recover-streams :
      (s : Serving) (r : Result (Unit {0})) → (recover x params (s, r)).0.streams ≡ s.streams
  unfolding recover
  recover-streams s (err (Exn.stream_error id code)) =
      elim (Result-cases (rst_stream_frame id code)) [
        | inl (f, e) ↦ rw (e, recover) refl
        | inr (raised, e) ↦ rw (e, recover) refl
      ]
  recover-streams s r = refl

  -- A frame changes no stream but the one that it names, whatever the frame and whatever comes of it:
  -- also where it raises, and where the stream is reset for it.
  pub dispatch-others :
      (id : ℕ) (f : Frame) (s : Serving)
      → id ≢ f.stream_id
      → stream_of id (recover x params (dispatch x params f s)).0 ≡ stream_of id s
  unfolding dispatch route
  dispatch-others id f s apart =
      ap (dict_get (◌==◌) id) (recover-streams (dispatch x params f s).0 (dispatch x params f s).1)
      ∙ elim (Result-cases (check_continuation f s)) [
        | inr (raised, e) ↦ rw (e, dispatch) refl
        | inl (_, e) ↦
            rw (e, dispatch)
              (if-stream_of id (stream_of id s) (f.stream_id == 0) _ _ refl
                (dispatch_stream-others id (stream_of f.stream_id s) f s apart))
      ]

-- RST_STREAM, as the peer reads it.
abbrev pub rst_of : ℕ → ErrorCode → Frame
rst_of id code = record {
  type = FrameType.rst_stream;
  flags = 0;
  stream_id = id;
  payload = to_bytes 4 (error_value code);
}

error_value_lt : (code : ErrorCode) → error_value code < 2 ^ 31
error_value_lt code = ground arith

rst_stream_frame-fits : (id : ℕ) (code : ErrorCode) → rst_stream_frame id code ≡ ok (rst_of id code)
unfolding rst_stream_frame
rst_stream_frame-fits id code =
    rw (pack_field_fits 4 (2 ^ 31) (error_value code) (error_value_lt code)) refl

rst_of-FitsHeader : (id : ℕ) (code : ErrorCode) → id < 2 ^ 31 → FitsHeader (rst_of id code)
rst_of-FitsHeader id code h = record {
  known = λ n e. cc;
  size = omega (arith, length-to_bytes 4 (error_value code));
  flags_byte = omega arith;
  id_bits = h;
}

module _ (x : Outside) (params : Params) (read_bytes : ℕ → Bytes → Result (Bytes × Bytes)) where
  recover-reset :
      (s : Serving) (id : ℕ) (code : ErrorCode) (bs : Bytes)
      → encode_frame (rst_of id code) ≡ ok bs
      → recover x params (s, err (Exn.stream_error id code)) ≡ (
        record s { conn = record s.conn { calls = s.conn.calls ++ (Call.write bs ∷ []) } },
        x.io_write s.conn.calls bs,
      )
  unfolding recover
  recover-reset s id code bs e =
      rw (rst_stream_frame-fits id code, recover)
        (ap (λ done. on_conn done s) (write_frame-encoded x.io_write (rst_of id code) s.conn e))

  -- Where a frame makes a stream raise a StreamError under an id below 2^31, and the write to the peer
  -- returns, the loop writes exactly one frame, RST_STREAM with that id and that code, and goes on with
  -- the input behind the frame, in the state that the handler has left.
  pub serve_loop-stream_error :
      (fuel : ℕ) (input rest : Bytes) (s s' : Serving) (f : Frame) (id : ℕ) (code : ErrorCode)
      → read_frame read_bytes (frame_limit s.conn) input ≡ ok (f, rest)
      → dispatch x params f s ≡ (s', err (Exn.stream_error id code))
      → id < 2 ^ 31
      → ((bs : Bytes) → x.io_write s'.conn.calls bs ≡ ok tt)
      → (bs : Bytes) × (encode_frame (rst_of id code) ≡ ok bs)
        × (serve_loop x params read_bytes (suc fuel) input s
            ≡ serve_loop x params read_bytes fuel rest (record s' {
              conn = record s'.conn { calls = s'.conn.calls ++ (Call.write bs ∷ []) };
            }))
  serve_loop-stream_error fuel input rest s s' f id code reads raised bound writes =
      let bs : Bytes = header (rst_of id code) ++ to_bytes 4 (error_value code) in
      let encoded : encode_frame (rst_of id code) ≡ ok bs =
        encode_frame-header (rst_of id code) (rst_of-FitsHeader id code bound) in
      let done = ap (recover x params) raised ∙ recover-reset s' id code bs encoded in
      (
        bs,
        encoded,
        serve_loop-next read_bytes x params fuel input s f rest reads
              (ap (λ (p : Serving × Result (Unit {0})). p.1) done ∙ writes bs)
            ∙ ap (λ (p : Serving × Result (Unit {0})). serve_loop x params read_bytes fuel rest p.0)
                done,
      )

  check_continuation-breaks :
      (f : Frame) (s : Serving)
      → in_block s ≡ true
      → (is_continuation f.type && is_last s.last_stream f.stream_id) ≡ false
      → check_continuation f s
        ≡ err (
            Exn.connection_error ErrorCode.protocol_error
              (some (codes "CONTINUATION frame required")))
  unfolding check_continuation
  check_continuation-breaks f s pending other =
      let guard : (in_block s
            && (not (is_continuation f.type) || not (is_last s.last_stream f.stream_id)))
          ≡ true =
        ground arith in
      ap
        (λ b. raise_if b (
          Exn.connection_error ErrorCode.protocol_error
            (some (codes "CONTINUATION frame required"))))
        guard

  -- While a header block is open, any frame but a CONTINUATION frame of the same stream, the frames of
  -- the connection and those of unknown types included, reaches no handler: nothing is changed, and the
  -- loop ends with a ConnectionError of the code PROTOCOL_ERROR.
  pub serve_loop-in_block :
      (fuel : ℕ) (input rest : Bytes) (s : Serving) (f : Frame)
      → read_frame read_bytes (frame_limit s.conn) input ≡ ok (f, rest)
      → in_block s ≡ true
      → (is_continuation f.type && is_last s.last_stream f.stream_id) ≡ false
      → serve_loop x params read_bytes (suc fuel) input s
        ≡ some (
          s,
          err (
              Exn.connection_error ErrorCode.protocol_error
                (some (codes "CONTINUATION frame required"))),
        )
  unfolding recover dispatch
  serve_loop-in_block fuel input rest s f reads pending other =
      let e =
        Exn.connection_error ErrorCode.protocol_error
          (some (codes "CONTINUATION frame required")) in
      let refused : dispatch x params f s ≡ (s, err e) =
        rw (check_continuation-breaks f s pending other, dispatch) refl in
      let stays : recover x params (dispatch x params f s) ≡ (s, err e) =
        ap (recover x params) refused in
      serve_loop-stops read_bytes x params fuel input s f rest e reads
        (ap (λ (p : Serving × Result (Unit {0})). p.1) stays)
      ∙ ap (λ (p : Serving × Result (Unit {0})). some (p.0, err e)) stays
