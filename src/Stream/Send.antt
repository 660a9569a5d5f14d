-- ===== src/Stream/Send.antt =====
-- stream.py: the sending side: `write_headers`, `write`, `finish`, and the coroutines that they start.
use tornado_http.Common.{
  ℕ, Bool, true, false, Option, none, some, List, [], ◌∷◌, ◌++◌, length, take, drop, bytes_eq, ◌==◌,
  if◌then◌else◌,
}
use tornado_http.Common.Int.{ℤ, pos, negsuc}
use tornado_http.Constants.{codes, FrameType, FrameFlag, flag_value, HeaderIndexMode}
use tornado_http.Errors.{Exn, Result, ok, err, ◌>>=◌}
use tornado_http.Frames.{Frame}
use tornado_http.Hpack.Encoder.{encode, lower}
use tornado_http.Hpack.Table.{Bytes}
use tornado_http.Stream.{
  Text, Fields, StartLine, Task, Stream, World, Method, and_then, raises, update, sub, is_negative,
  is_zero, write_on, reset,
}
use tornado_http.Stream.Outside.{Outside, parse_int, str_int}

-- A coroutine begins: it waits for `write_lock` behind the others.
abbrev pub start_task : Task → Stream → Stream
start_task task s = record s { tasks = s.tasks ++ (task ∷ []) }

-- `start_line.code`
unfoldable pub line_code : StartLine → Result ℤ
line_code (StartLine.response code reason) = ok code
line_code (StartLine.request method path) = err Exn.attribute_error

unfoldable pub line_method : Option StartLine → Result Text
line_method (some (StartLine.request method path)) = ok method
line_method _ = err Exn.attribute_error

abbrev pub is_code : ℕ → ℤ → Bool
is_code n (pos m) = m == n
is_code n (negsuc m) = false

module _ (x : Outside) where
  abbrev pub send_on : Frame → Method
  send_on = write_on x.io_write x.returns_none

  -- `_reset_on_error`
  unfoldable pub reset_on_error : Method → Method
  unfolding reset
  reset_on_error method w =
      let done = method w in
      elim done.1 [
        | ok _ ↦ done
        | err e ↦ and_then (reset x.io_write x.returns_none done.0) (raises e)
      ]

  -- The body of `write`: its accounting, and the coroutine `_write_chunk`, which without a chunk has
  -- nothing to do.
  unfoldable pub write_body : Bytes → Method
  write_body content w =
      if length content == 0 then (w, ok tt) else elim w.stream.outgoing_content_remaining [
        | none ↦ (update (start_task (Task.chunk content)) w, ok tt)
        | some remaining ↦
            let remaining' = sub remaining (length content) in
            let w' = update (λ s. record s { outgoing_content_remaining = some remaining' }) w in
            if is_negative remaining'
            then (w', err Exn.http_output_error)
            else (update (start_task (Task.chunk content)) w', ok tt)
      ]

  unfoldable pub write : Bytes → Method
  unfolding write_body reset_on_error
  write content = reset_on_error (write_body content)

  -- The content length of an outgoing message.
  unfoldable pub outgoing_length : Bool → StartLine → Fields → Stream → Result (Option ℤ)
  unfolding line_code line_method
  outgoing_length is_client line fields s = do
    empty ← if is_client then ok false else (do
      method ← line_method s.request_start_line
      if bytes_eq method (codes "HEAD")
          then ok true
          else (do code ← line_code line; ok (is_code 304 code)))
    if empty
        then ok (some (pos 0))
        else if x.has_field (codes "Content-Length") fields
        then (do
          text ← x.get_field (codes "Content-Length") fields
          n ← parse_int text
          ok (some n))
        else ok s.outgoing_content_remaining

  -- `for k, v in headers.get_all()`
  unfoldable pub field_list : List (Text × Text) → List (Bytes × Bytes × HeaderIndexMode)
  field_list [] = []
  field_list ((k, v) ∷ rest) =
      let name = x.utf8 (lower k) in
      if bytes_eq name (codes "connection")
      then field_list rest
      else (name, x.utf8 v, HeaderIndexMode.index) ∷ field_list rest

  -- The pseudo-headers.
  unfoldable pub pseudo_list : Bool → StartLine → Result (List (Bytes × Bytes × HeaderIndexMode))
  pseudo_list true (StartLine.request method path) = ok (
      (codes ":method", x.utf8 method, HeaderIndexMode.index)
      ∷ (codes ":scheme", codes "https", HeaderIndexMode.index)
      ∷ (codes ":path", x.utf8 path, HeaderIndexMode.no_index)
      ∷ [])
  pseudo_list false (StartLine.response code reason) =
      ok ((codes ":status", x.utf8 (str_int code), HeaderIndexMode.index) ∷ [])
  pseudo_list _ line = err Exn.attribute_error

  -- The HEADERS frame, with the encoder's table as the encoding leaves it.
  unfoldable pub send_headers : List (Bytes × Bytes × HeaderIndexMode) → Method
  send_headers header_list w =
      let encoded = encode false header_list w.conn.hpack_encoder in
      let w' = record w { conn = record w.conn { hpack_encoder = encoded.0 } } in
      elim encoded.1 [
        | err e ↦ (w', err e)
        | ok block ↦
            send_on
              (record {
                type = FrameType.headers;
                flags = flag_value FrameFlag.end_headers;
                stream_id = w.stream.stream_id;
                payload = block;
              })
              w'
      ]

  unfoldable pub write_headers_body : StartLine → Fields → Bytes → Method
  unfolding outgoing_length pseudo_list field_list send_headers write
  write_headers_body line fields content w =
      elim (outgoing_length w.conn.is_client line fields w.stream) [
        | err e ↦ (w, err e)
        | ok n ↦
            let w1 =
              update
                (λ s. record s {
                  outgoing_content_remaining = n;
                  request_start_line = if w.conn.is_client then some line else s.request_start_line;
                })
                w in
            elim (pseudo_list w.conn.is_client line) [
              | err e ↦ (w1, err e)
              | ok pseudo ↦
                  and_then (send_headers (pseudo ++ field_list (x.all_fields fields)) w1)
                    (write content)
            ]
      ]

  unfoldable pub write_headers : StartLine → Fields → Bytes → Method
  unfolding write_headers_body reset_on_error
  write_headers line fields content = reset_on_error (write_headers_body line fields content)

  unfoldable pub finish_body : Method
  finish_body w =
      let ends : World × Result (Unit {0}) = (update (start_task Task.end_stream) w, ok tt) in
      elim w.stream.outgoing_content_remaining [
        | none ↦ ends
        | some remaining ↦ if is_zero remaining then ends else (w, err Exn.http_output_error)
      ]

  -- `finish`
  unfoldable pub finish_stream : Method
  unfolding finish_body reset_on_error
  finish_stream = reset_on_error finish_body

  abbrev pub data_frame : ℕ → ℕ → Bytes → Frame
  data_frame stream_id flags payload = record {
    type = FrameType.frame_data;
    flags = flags;
    stream_id = stream_id;
    payload = payload;
  }

  -- One round of `while chunk` in `_write_chunk`, by the holder of the lock, where `window.consume` has
  -- returned `allowance`. An exception resets the stream and does not release the lock.
  unfoldable pub write_round : ℕ → Bytes → List Task → Method
  unfolding reset
  write_round allowance content behind w =
      let sent = send_on (data_frame w.stream.stream_id 0 (take allowance content)) w in
      elim sent.1 [
        | err e ↦
            and_then
              (reset x.io_write x.returns_none
                (update (λ s. record s { tasks = behind; lock_lost = true }) sent.0))
              (raises e)
        | ok _ ↦
            let rest = drop allowance content in
            let tasks' = if length rest == 0 then behind else Task.chunk rest ∷ behind in
            (update (λ s. record s { tasks = tasks' }) sent.0, ok tt)
      ]

  -- `_write_end_stream` with the lock, which it always releases.
  unfoldable pub write_end_stream : List Task → Method
  unfolding reset
  write_end_stream behind w =
      let w' = update (λ s. record s { tasks = behind }) w in
      let sent = send_on (data_frame w.stream.stream_id (flag_value FrameFlag.end_stream) []) w' in
      elim sent.1 [
        | err e ↦ and_then (reset x.io_write x.returns_none sent.0) (raises e)
        | ok _ ↦ (sent.0, ok tt)
      ]

  unfoldable pub run_task : Task → List Task → ℕ → Method
  unfolding write_round write_end_stream
  run_task (Task.chunk content) behind allowance = write_round allowance content behind
  run_task Task.end_stream behind allowance = write_end_stream behind

  unfoldable pub run_tasks : Bool → List Task → ℕ → Method
  unfolding run_task
  run_tasks true tasks allowance w = (w, ok tt)
  run_tasks false [] allowance w = (w, ok tt)
  run_tasks false (task ∷ behind) allowance w = run_task task behind allowance w

  -- The coroutine that holds the lock runs.
  unfoldable pub task_turn : ℕ → Method
  unfolding run_tasks
  task_turn allowance w = run_tasks w.stream.lock_lost w.stream.tasks allowance w
