-- ===== src/Stream.antt =====
-- tornado_http2/stream.py: the state of a `Stream`, and its DATA, PRIORITY, RST_STREAM and
-- WINDOW_UPDATE frames. Its headers and its sending side are in the modules below.
pub mod Blocks
pub mod ContentLength
pub mod Credit
pub mod Example
pub mod Fragments
pub mod HeaderNames
pub mod HeaderRules
pub mod Headers
pub mod Identity
pub mod Items
pub mod Order
pub mod OutgoingLength
pub mod Outside
pub mod Send
mod SendTests
mod Tests
pub mod Turns
use tornado_http.Common.{
  ℕ, ◌+◌, ◌-◌, ◌≡◌, Bool, true, false, not, ◌&&◌, Option, none, some, List, [], ◌∷◌, ◌++◌, length,
  ltb, ◌==◌, if◌then◌else◌,
}
use tornado_http.Common.Int.{ℤ, pos, negsuc}
use tornado_http.Connection.Handlers.{Call, Connection, setting, write_frame}
use tornado_http.Constants.{codes, FrameType, ErrorCode, Setting, FrameFlag, has_flag, HttpPhase}
use tornado_http.Errors.{Exn, Result, ok, err}
use tornado_http.FlowControl.{Window, new_window, apply_window_update}
use tornado_http.Frames.{Frame, without_padding}
use tornado_http.Hpack.Table.{Bytes}
use tornado_http.Struct.{pack_I}

-- A Python `str`, as its characters' numbers.
abbrev pub Text : Type 0
Text = List ℕ

-- A Tornado `HTTPHeaders`, as the calls of its `add` that have filled it.
abbrev pub Fields : Type 0
Fields = List (Text × Option Text)

-- `RequestStartLine(method, path, 'HTTP/2.0')` and `ResponseStartLine('HTTP/2.0', code, reason)`
pub data StartLine : Type 0 where
  request : Text → Text → StartLine
  response : ℤ → Text → StartLine

-- A call of the stream's delegate.
pub data DelegateCall : Type 0 where
  headers_received : StartLine → Fields → DelegateCall
  data_received : Bytes → DelegateCall
  finish on_connection_close : DelegateCall

-- What a coroutine of the sending side has still to do, in the order in which they take `write_lock`.
pub data Task : Type 0 where
  chunk : Bytes → Task
  end_stream : Task

-- `has_delegate` says that `delegate` is not `None`, which it is on stream 1 of an upgraded connection.
-- `finished` is `self.finish_future.done()`; the calls of the delegate are kept in order. `tasks` are
-- the coroutines that hold or wait for `write_lock`, the holder first; `lock_lost` says that one has
-- died without releasing it.
pub record Stream : Type 0 where
  pub stream_id : ℕ
  pub request_start_line : Option StartLine
  pub incoming_content_remaining : Option ℤ
  pub outgoing_content_remaining : Option ℤ
  pub has_delegate : Bool
  pub delegate_started : Bool
  pub window : Window
  pub header_frames : List Frame
  pub phase : HttpPhase
  pub finished : Bool
  pub delegate_calls : List DelegateCall
  pub tasks : List Task
  pub lock_lost : Bool

-- `Stream(conn, stream_id, ...)` with a delegate, where the setting has a value, as INITIAL_WINDOW_SIZE
-- always has. The stream that `_conn_loop` makes has its delegate when the request has been started.
unfoldable pub new_stream : Connection → ℕ → Stream
new_stream conn stream_id = record {
  stream_id = stream_id;
  request_start_line = none;
  incoming_content_remaining = none;
  outgoing_content_remaining = none;
  has_delegate = true;
  delegate_started = false;
  window =
      new_window (some stream_id)
        (elim (setting conn Setting.initial_window_size) [ none ↦ 0 | some size ↦ size ]);
  header_frames = [];
  phase = HttpPhase.headers;
  finished = false;
  delegate_calls = [];
  tasks = [];
  lock_lost = false;
}

-- A stream and its connection, which it shares with the other streams.
pub record World : Type 0 where
  pub conn : Connection
  pub stream : Stream

abbrev pub Method : Type 0
Method = World → World × Result (Unit {0})

-- One call behind another.
abbrev pub and_then : World × Result (Unit {0}) → Method → World × Result (Unit {0})
and_then (w, err e) next = (w, err e)
and_then (w, ok _) next = next w

abbrev pub raises : Exn → Method
raises e w = (w, err e)

abbrev pub update : (Stream → Stream) → World → World
update f w = record w { stream = f w.stream }

abbrev pub delegate_call : DelegateCall → Stream → Stream
delegate_call call s = record s { delegate_calls = s.delegate_calls ++ (call ∷ []) }

-- `a - n`
abbrev pub sub : ℤ → ℕ → ℤ
sub (pos a) n = if ltb a n then negsuc (n - a - 1) else pos (a - n)
sub (negsuc a) n = negsuc (a + n)

abbrev pub is_negative : ℤ → Bool
is_negative (pos n) = false
is_negative (negsuc n) = true

abbrev pub is_zero : ℤ → Bool
is_zero (pos n) = n == 0
is_zero (negsuc n) = false

unfoldable pub needs_continuation : Stream → Bool
needs_continuation s = elim s.header_frames [ [] ↦ false | f ∷ fs ↦ true ]

abbrev pub is_trailers : HttpPhase → Bool
is_trailers HttpPhase.trailers = true
is_trailers _ = false

-- `_maybe_end_stream`, but for what it returns.
unfoldable pub maybe_end_stream : ℕ → Method
maybe_end_stream flags w =
    let s = w.stream in
    let finish_delegate : Stream =
      if s.delegate_started
      then delegate_call DelegateCall.finish (record s { delegate_started = false })
      else s in
    let ended : World × Result (Unit {0}) =
      (record w { stream = record finish_delegate { finished = true } }, ok tt) in
    if not (has_flag flags FrameFlag.end_stream)
    then (w, ok tt)
    else elim s.incoming_content_remaining [
      | none ↦ ended
      | some remaining ↦
          if is_zero remaining
          then ended
          else (w, err (Exn.stream_error s.stream_id ErrorCode.protocol_error))
    ]

-- The accounting of `_handle_data_frame`.
unfoldable pub count_content : ℕ → Method
count_content n w = elim w.stream.incoming_content_remaining [
  | none ↦ (w, ok tt)
  | some remaining ↦
      let remaining' = sub remaining n in
      let w' = update (λ s. record s { incoming_content_remaining = some remaining' }) w in
      if is_negative remaining'
      then (w', err (Exn.stream_error w.stream.stream_id ErrorCode.protocol_error))
      else (w', ok tt)
]

unfoldable pub handle_priority_frame : Frame → Method
handle_priority_frame f w =
    if length f.payload == 5
    then (w, ok tt)
    else raises (Exn.stream_error w.stream.stream_id ErrorCode.frame_size_error) w

unfoldable pub handle_rst_stream_frame : Frame → Method
handle_rst_stream_frame f w =
    if not (length f.payload == 4)
    then raises (Exn.connection_error ErrorCode.frame_size_error none) w
    else (if w.stream.delegate_started
        then (update (delegate_call DelegateCall.on_connection_close) w, ok tt)
        else (w, ok tt))

unfoldable pub handle_window_update_frame : Frame → Method
handle_window_update_frame f w =
    let result = apply_window_update f w.stream.window in
    (update (λ s. record s { window = result.0 }) w, result.1)

-- `returns_none` says of a call of the delegate's `data_received` whether it returns `None`: else the
-- window update follows when its future is done.
module _ (io_write : List Call → Bytes → Result (Unit {0}))
    (returns_none : List DelegateCall → Bytes → Bool) where
  unfoldable pub write_on : Frame → Method
  write_on f w =
      let result = write_frame io_write f w.conn in (record w { conn = result.0 }, result.1)

  unfoldable pub send_window_update : ℕ → Method
  unfolding write_on
  send_window_update amount w = elim (pack_I amount) [
    | err e ↦ (w, err e)
    | ok encoded ↦
        let update_frame : ℕ → Frame = λ stream_id. record {
          type = FrameType.window_update;
          flags = 0;
          stream_id = stream_id;
          payload = encoded;
        } in
        and_then (write_on (update_frame 0) w)
          (λ w'. write_on (update_frame w'.stream.stream_id) w')
  ]

  -- `if frame.data and self._delegate_started`
  unfoldable pub deliver : Bytes → Method
  unfolding send_window_update
  deliver content w =
      if not (length content == 0) && w.stream.delegate_started
      then (let w' = update (delegate_call (DelegateCall.data_received content)) w in
          if returns_none w.stream.delegate_calls content
          then send_window_update (length content) w'
          else (w', ok tt))
      else (w, ok tt)

  unfoldable pub handle_data_frame : Frame → Method
  unfolding needs_continuation count_content deliver maybe_end_stream
  handle_data_frame f w =
      if needs_continuation w.stream
      then raises
          (Exn.connection_error ErrorCode.protocol_error (some (codes "DATA without END_HEADERS")))
          w
      else if is_trailers w.stream.phase
      then raises
          (Exn.connection_error ErrorCode.protocol_error (some (codes "DATA after trailers"))) w
      else (let w1 = update (λ s. record s { phase = HttpPhase.body }) w in
          elim (without_padding f) [
            | err e ↦ (w1, err e)
            | ok f' ↦
                and_then (and_then (count_content (length f'.payload) w1) (deliver f'.payload))
                  (maybe_end_stream f'.flags)
          ])

  -- `reset`
  unfoldable pub reset : Method
  unfolding write_on
  reset w =
      write_on
        (record {
          type = FrameType.rst_stream;
          flags = 0;
          stream_id = w.stream.stream_id;
          payload = 0 ∷ 0 ∷ 0 ∷ 0 ∷ [];
        })
        w
