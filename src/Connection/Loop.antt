-- ===== src/Connection/Loop.antt =====
-- connection.py: `create_stream` and `_conn_loop`, which reads frames and gives them to the connection
-- or to its streams.
use tornado_http.Common.{
  ℕ, zero, suc, ◌+◌, Bool, true, false, not, ◌&&◌, ◌||◌, Option, none, some, List, [], ◌∷◌, ◌++◌,
  ltb, leb, ◌==◌, bytes_eq, if◌then◌else◌, bit_and, Dict, dict_get, dict_set,
}
use tornado_http.Connection.Handlers.{
  Call, Params, Connection, new_connection, setting, goaway_frame, rst_stream_frame, settings_frame,
  write_frame, handle_frame,
}
use tornado_http.Connection.Wire.{read_frame}
use tornado_http.Constants.{codes, FrameType, ErrorCode, Setting, client_preface}
use tornado_http.Errors.{Exn, Result, ok, err, ◌>>=◌, ◌>>◌, raise_if}
use tornado_http.Frames.{Frame}
use tornado_http.Hpack.Table.{Bytes}
use tornado_http.Stream.{Stream, new_stream, needs_continuation}
use tornado_http.Stream.Blocks.{handle_stream_frame}
use tornado_http.Stream.Outside.{Outside}

-- A call of the server's delegate.
pub data ServerCall : Type 0 where
  starts_request : ℕ → ServerCall
  closes : ServerCall

-- A `Connection` with its streams, and the variables of its loop. Nothing leaves `streams`, so
-- `last_stream` is there under its id. `has_delegate` says that `delegate` is not `None`.
pub record Serving : Type 0 where
  pub conn : Connection
  pub streams : Dict ℕ Stream
  pub max_remote_stream_id : ℕ
  pub last_stream : Option ℕ
  pub has_delegate : Bool
  pub server_calls : List ServerCall

-- `Connection(...)`, where the loop is about to start.
abbrev pub new_serving : Bool → Bool → Serving
new_serving is_client has_delegate = record {
  conn = new_connection is_client;
  streams = [];
  max_remote_stream_id = 0;
  last_stream = none;
  has_delegate = has_delegate;
  server_calls = [];
}

abbrev pub stream_of : ℕ → Serving → Option Stream
stream_of id s = dict_get (◌==◌) id s.streams

abbrev pub on_conn : Connection × Result (Unit {0}) → Serving → Serving × Result (Unit {0})
on_conn done s = (record s { conn = done.0 }, done.1)

-- `create_stream`
unfoldable pub create_stream : Serving → Serving × Stream
unfolding new_stream
create_stream s =
    let id = s.conn.next_stream_id in
    let stream = new_stream s.conn id in
    (
      record s {
        conn = record s.conn { next_stream_id = id + 2 };
        streams = dict_set (◌==◌) id stream s.streams;
      },
      stream,
    )

abbrev pub open_block : Option Stream → Bool
open_block none = false
open_block (some stream) = needs_continuation stream

-- `last_stream is not None and last_stream.needs_continuation()`
unfoldable pub in_block : Serving → Bool
unfolding needs_continuation
in_block s = elim s.last_stream [ none ↦ false | some id ↦ open_block (stream_of id s) ]

abbrev pub is_continuation : FrameType → Bool
is_continuation FrameType.continuation = true
is_continuation _ = false

abbrev pub is_headers : FrameType → Bool
is_headers FrameType.headers = true
is_headers _ = false

abbrev pub is_last : Option ℕ → ℕ → Bool
is_last none id = false
is_last (some last) id = id == last

-- The rule that nothing comes between the frames of a block.
unfoldable pub check_continuation : Frame → Serving → Result (Unit {0})
unfolding in_block
check_continuation f s =
    raise_if
      (in_block s && (not (is_continuation f.type) || not (is_last s.last_stream f.stream_id)))
      (Exn.connection_error ErrorCode.protocol_error (some (codes "CONTINUATION frame required")))

-- `(frame.stream_id & 1) == (self.next_stream_id & 1)`
abbrev pub is_local : ℕ → Connection → Bool
is_local id c = bit_and id 1 == bit_and c.next_stream_id 1

abbrev pub may_be_late : FrameType → Bool
may_be_late FrameType.window_update = true
may_be_late FrameType.rst_stream = true
may_be_late _ = false

-- `frame.stream_id <= max_stream_id`, which for the local ids is `next_stream_id - 2`.
abbrev pub is_past : ℕ → Serving → Bool
is_past id s =
    if is_local id s.conn then leb (id + 2) s.conn.next_stream_id else leb id s.max_remote_stream_id

-- A frame of a stream that is not there and cannot be created.
unfoldable pub unknown_stream : Frame → Serving → Result (Unit {0})
unknown_stream f s =
    if is_past f.stream_id s
    then raise_if (not (may_be_late f.type)) (Exn.stream_error f.stream_id ErrorCode.stream_closed)
    else err (Exn.connection_error ErrorCode.protocol_error (some (codes "non-existent stream")))

-- `self.setting(constants.Setting.MAX_FRAME_SIZE)`, which always has a value.
abbrev pub frame_limit : Connection → ℕ
frame_limit c = elim (setting c Setting.max_frame_size) [ none ↦ 0 | some n ↦ n ]

module _ (x : Outside) (params : Params) where
  -- A frame of a stream, with the state that the stream and its connection are left in.
  unfoldable pub to_stream : Stream → Frame → Serving → Serving × Result (Unit {0})
  to_stream stream f s =
      let done = handle_stream_frame x params f (record { conn = s.conn; stream = stream }) in
      (
        record s {
          conn = done.0.conn;
          streams = dict_set (◌==◌) f.stream_id done.0.stream s.streams;
          last_stream = some f.stream_id;
        },
        done.1,
      )

  -- The peer opens a stream. Without a delegate there is no `start_request` to call.
  unfoldable pub open_remote : Frame → Serving → Serving × Result (Unit {0})
  unfolding to_stream new_stream
  open_remote f s =
      let id = f.stream_id in
      if is_local id s.conn
      then (
        s,
        err (Exn.connection_error ErrorCode.protocol_error (some (codes "invalid stream id"))),
      )
      else (let s' = record s {
        max_remote_stream_id = if ltb s.max_remote_stream_id id then id else s.max_remote_stream_id;
      } in
          if not s.has_delegate
          then (s', err Exn.attribute_error)
          else to_stream (new_stream s.conn id) f
              (record s' { server_calls = s.server_calls ++ (ServerCall.starts_request id ∷ []) }))

  unfoldable pub dispatch_stream : Option Stream → Frame → Serving → Serving × Result (Unit {0})
  unfolding open_remote unknown_stream
  dispatch_stream (some stream) f s = to_stream stream f s
  dispatch_stream none f s =
      if not s.conn.is_client && is_headers f.type then open_remote f s else (s, unknown_stream f s)

  unfoldable pub route : Frame → Serving → Serving × Result (Unit {0})
  unfolding dispatch_stream
  route f s =
      if f.stream_id == 0
      then on_conn (handle_frame x.io_write f s.conn) s
      else dispatch_stream (stream_of f.stream_id s) f s

  unfoldable pub dispatch : Frame → Serving → Serving × Result (Unit {0})
  unfolding check_continuation route
  dispatch f s = elim (check_continuation f s) [ err e ↦ (s, err e) | ok _ ↦ route f s ]

  -- `except StreamError`
  unfoldable pub recover : Serving × Result (Unit {0}) → Serving × Result (Unit {0})
  unfolding rst_stream_frame
  recover (s, err (Exn.stream_error stream_id code)) = elim (rst_stream_frame stream_id code) [
    | err e ↦ (s, err e)
    | ok f ↦ on_conn (write_frame x.io_write f s.conn) s
  ]
  recover done = done

  -- `while True`, `fuel` rounds of it, until something is raised; `none` where there are more. What
  -- `read_bytes` raises is no `StreamError`.
  module _ (read_bytes : ℕ → Bytes → Result (Bytes × Bytes)) where
    unfoldable pub serve_loop : ℕ → Bytes → Serving → Option (Serving × Result (Unit {0}))
    unfolding dispatch recover
    serve_loop zero input s = none
    serve_loop (suc fuel) input s = elim (read_frame read_bytes (frame_limit s.conn) input) [
      | err e ↦ some (s, err e)
      | ok (f, rest) ↦
          let done = recover (dispatch f s) in
          elim done.1 [ err e ↦ some (done.0, err e) | ok _ ↦ serve_loop fuel rest done.0 ]
    ]

    -- The client's preface, for the client and for the server.
    unfoldable pub exchange_preface : Bool → Bytes → Serving → Serving × Result Bytes
    exchange_preface true input s = (
      record s {
        conn = record s.conn { calls = s.conn.calls ++ (Call.write client_preface ∷ []) };
      },
      x.io_write s.conn.calls client_preface >>= λ _. ok input,
    )
    exchange_preface false input s = (
      s,
      do
        (preface, rest) ← read_bytes 24 input
        raise_if (not (bytes_eq preface client_preface)) Exn.plain_exception
        ok rest,
    )

    unfoldable pub write_settings : Serving → Serving × Result (Unit {0})
    unfolding settings_frame write_frame
    write_settings s = elim (settings_frame s.conn) [
      | err e ↦ (s, err e)
      | ok f ↦ on_conn (write_frame x.io_write f s.conn) s
    ]

    unfoldable pub then_settings : Serving × Result Bytes → Serving × Result Bytes
    unfolding write_settings
    then_settings (s, err e) = (s, err e)
    then_settings (s, ok rest) = let done = write_settings s in (done.0, done.1 >>= λ _. ok rest)

    -- What goes before the loop.
    unfoldable pub open_connection : Bytes → Serving → Serving × Result Bytes
    unfolding exchange_preface then_settings
    open_connection input s = then_settings (exchange_preface s.conn.is_client input s)

    abbrev pub close_io : Serving → Serving
    close_io s = record s {
      conn = record s.conn { calls = s.conn.calls ++ (Call.close_stream ∷ []) };
    }

    -- The `except` clauses. `utf8` is Tornado's. What is raised in one of them is raised by the loop.
    unfoldable pub end_connection : Serving × Result (Unit {0}) → Serving × Result (Unit {0})
    unfolding goaway_frame write_frame
    end_connection (s, ok _) = (s, ok tt)
    end_connection (s, err (Exn.connection_error code message)) =
        elim (goaway_frame x.utf8 code 0 message) [
          | err e ↦ (s, err e)
          | ok f ↦
              let done = on_conn (write_frame x.io_write f s.conn) s in
              elim done.1 [ err e ↦ (done.0, err e) | ok _ ↦ (close_io done.0, ok tt) ]
        ]
    end_connection (s, err Exn.stream_closed_error) = (s, ok tt)
    end_connection (s, err Exn.http_output_error) = (close_io s, ok tt)
    end_connection (s, err e) = (close_io s, err e)

    -- `finally`
    unfoldable pub finally_close : Serving × Result (Unit {0}) → Serving × Result (Unit {0})
    finally_close (s, r) = (
      if s.has_delegate
          then record s { server_calls = s.server_calls ++ (ServerCall.closes ∷ []) }
          else s,
      r,
    )

    -- `_conn_loop`
    unfoldable pub conn_loop : ℕ → Bytes → Serving → Option (Serving × Result (Unit {0}))
    unfolding open_connection serve_loop end_connection finally_close
    conn_loop fuel input s =
        let opened = open_connection input s in
        elim opened.1 [
          | err e ↦ some (finally_close (end_connection (opened.0, err e)))
          | ok rest ↦ elim (serve_loop fuel rest opened.0) [
            | none ↦ none
            | some done ↦ some (finally_close (end_connection done))
          ]
        ]
