-- ===== src/Connection/LoopTests.antt =====
-- connection.py: a server that serves one request and meets errors, and the theorems at it.
use tornado_http.Common.{
  ◌+◌, ◌≡◌, refl, arith, true, false, none, some, [], ◌∷◌, ◌++◌, length, dict_get, dict_set,
}
use tornado_http.Connection.Handlers.{Call, Params, new_connection, new_params, setting}
use tornado_http.Connection.Input.{read_input, read_input-Consumes, read_input-ReadsExactly}
use tornado_http.Connection.Loop.{
  Serving, new_serving, stream_of, in_block, dispatch, route, dispatch_stream, open_remote,
  to_stream, check_continuation, recover, create_stream, serve_loop, conn_loop,
}
use tornado_http.Connection.LoopEnds.{conn_loop_ends}
use tornado_http.Connection.LoopErrors.{
  dispatch-others, rst_of, serve_loop-stream_error, serve_loop-in_block,
}
use tornado_http.Connection.LoopFrames.{encode_frames, Handled, serve_loop-encode_frames}
use tornado_http.Connection.WireRoundTrip.{FitsHeader}
use tornado_http.Connection.LoopNumbers.{
  IsNumbered, Reached, Reached-IsNumbered, create_stream_fresh,
}
use tornado_http.Connection.Wire.{
  encode_frame, read_frame, unpack_header, frame_type, strip_reserved,
}
use tornado_http.Constants.{codes, FrameType, ErrorCode, has_flag, client_preface}
use tornado_http.Errors.{Exn, Result, ok, err}
use tornado_http.Frames.{Frame, without_padding}
use tornado_http.Hpack.Table.{Bytes}
use tornado_http.Stream.{new_stream, needs_continuation, handle_priority_frame}
use tornado_http.Stream.Blocks.{
  handle_stream_frame, handle_frame_of, handle_message_frame, handle_headers_frame,
  add_header_frame, check_header_length, frames_length,
}
use tornado_http.Stream.Example.{example}
use tornado_http.Struct.{from_bytes}

abbrev defaults : Params
defaults = new_params none none false

-- The start of a request on stream 1, whose block is not ended.
abbrev request_start : Frame
request_start = record { type = FrameType.headers; flags = 0x1; stream_id = 1; payload = 0x82 ∷ [] }

abbrev server : Serving
server = new_serving false true

abbrev in_request : Serving
in_request = (recover example defaults (dispatch example defaults request_start server)).0

-- The server opens stream 2 for itself.
abbrev with_own : Serving
with_own = (create_stream in_request).0

conn_loop_ends_example :
    (done : Serving × Result (Unit {0})) × (conn_loop example defaults read_input
        (length (client_preface ++ (0 ∷ 0 ∷ [])) + 1)
        (client_preface ++ (0 ∷ 0 ∷ []))
        server
      ≡ some done)
conn_loop_ends_example =
    conn_loop_ends read_input example defaults (client_preface ++ (0 ∷ 0 ∷ [])) server
      read_input-Consumes

Reached-IsNumbered_example : IsNumbered with_own
Reached-IsNumbered_example =
    Reached-IsNumbered example defaults false true with_own
      (Reached.creates {s = in_request} (Reached.handles {s = server} request_start Reached.start))

create_stream_fresh_example : stream_of (create_stream in_request).1.stream_id in_request ≡ none
create_stream_fresh_example =
    create_stream_fresh example defaults false true in_request
      (Reached.handles {s = server} request_start Reached.start)

dispatch-others_example :
    stream_of 2 (recover example defaults (dispatch example defaults request_start with_own)).0
    ≡ stream_of 2 with_own
dispatch-others_example =
    dispatch-others example defaults 2 request_start with_own (λ e. absurd (omega arith))

-- A PRIORITY frame of the wrong size: nothing else of the stream is touched.
abbrev bad_priority : Frame
bad_priority = record { type = FrameType.priority; flags = 0; stream_id = 2; payload = 7 ∷ [] }

abbrev idle : Serving
idle = (create_stream server).0

abbrev behind_priority : Serving
behind_priority = (dispatch example defaults bad_priority idle).0

serve_loop-stream_error_example :
    (bs : Bytes) × (encode_frame (rst_of 2 ErrorCode.frame_size_error) ≡ ok bs)
    × (serve_loop example defaults read_input 9
          (0 ∷ 0 ∷ 1 ∷ 2 ∷ 0 ∷ 0 ∷ 0 ∷ 0 ∷ 2 ∷ 7 ∷ 9 ∷ [])
          idle
        ≡ serve_loop example defaults read_input 8 (9 ∷ []) (record behind_priority {
          conn = record behind_priority.conn {
            calls = behind_priority.conn.calls ++ (Call.write bs ∷ []);
          };
        }))
unfolding create_stream new_connection new_stream setting read_frame unpack_header frame_type
    strip_reserved from_bytes dispatch check_continuation in_block route dispatch_stream to_stream
    handle_stream_frame handle_frame_of handle_priority_frame dict_get dict_set
serve_loop-stream_error_example =
    serve_loop-stream_error example defaults read_input 8
      (0 ∷ 0 ∷ 1 ∷ 2 ∷ 0 ∷ 0 ∷ 0 ∷ 0 ∷ 2 ∷ 7 ∷ 9 ∷ []) (9 ∷ []) idle behind_priority bad_priority 2
      ErrorCode.frame_size_error refl refl (omega arith) (λ bs. refl)

-- A PING frame in the middle of the request's headers.
serve_loop-in_block_example :
    serve_loop example defaults read_input 9 (0 ∷ 0 ∷ 0 ∷ 6 ∷ 0 ∷ 0 ∷ 0 ∷ 0 ∷ 0 ∷ []) in_request
    ≡ some (
      in_request,
      err (
          Exn.connection_error ErrorCode.protocol_error
            (some (codes "CONTINUATION frame required"))),
    )
unfolding create_stream new_connection new_stream setting read_frame unpack_header frame_type
    strip_reserved from_bytes dispatch check_continuation in_block route dispatch_stream open_remote
    to_stream handle_stream_frame handle_frame_of handle_message_frame handle_headers_frame
    without_padding has_flag add_header_frame check_header_length frames_length needs_continuation
    dict_get dict_set recover
serve_loop-in_block_example =
    serve_loop-in_block example defaults read_input 8 (0 ∷ 0 ∷ 0 ∷ 6 ∷ 0 ∷ 0 ∷ 0 ∷ 0 ∷ 0 ∷ []) []
      in_request (record { type = FrameType.ping; flags = 0; stream_id = 0; payload = [] }) refl
      refl refl

request_start-FitsHeader : FitsHeader request_start
request_start-FitsHeader = record {
  known = λ n e. cc;
  size = omega arith;
  flags_byte = omega arith;
  id_bits = omega arith;
}

-- The start of a request and one byte more.
serve_loop-encode_frames_example :
    (bs : Bytes) × (encode_frames (request_start ∷ []) ≡ ok bs)
    × (serve_loop example defaults read_input 6 (bs ++ (0 ∷ [])) server
        ≡ serve_loop example defaults read_input 5 (0 ∷ []) in_request)
unfolding new_connection new_stream setting dispatch check_continuation in_block route
    dispatch_stream open_remote to_stream handle_stream_frame handle_frame_of handle_message_frame
    handle_headers_frame without_padding has_flag add_header_frame check_header_length frames_length
    dict_get dict_set recover
serve_loop-encode_frames_example =
    serve_loop-encode_frames example defaults read_input 5 (0 ∷ []) read_input-ReadsExactly
      (Handled.one_more request_start request_start-FitsHeader (omega arith) refl Handled.nothing)
