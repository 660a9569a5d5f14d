-- ===== src/Stream/Identity.antt =====
-- stream.py: a stream keeps its id, and leaves its connection's role and next id alone.
use tornado_http.Common.{
  ℕ, ◌≡◌, refl, ap, ◌∙◌, arith, inl, inr, ◌⊎◌, length, ◌++◌, if◌then◌else◌, Bool, some, List, [],
  ◌∷◌,
}
use tornado_http.Connection.Handlers.{Params, write_frame}
use tornado_http.Constants.{codes, FrameType, FrameFlag, has_flag, ErrorCode, HttpPhase}
use tornado_http.Errors.{Exn, Result, ok, err, Result-cases}
use tornado_http.Frames.{Frame, without_padding}
use tornado_http.Common.Int.{pos}
use tornado_http.Constants.{HeaderIndexMode}
use tornado_http.Hpack.Table.{Bytes}
use tornado_http.Stream.{
  DelegateCall, delegate_call, StartLine, Fields, World, Method, and_then, raises, update, write_on,
  reset, send_window_update, deliver, count_content, maybe_end_stream, handle_data_frame,
  handle_priority_frame, handle_rst_stream_frame, handle_window_update_frame,
}
use tornado_http.Stream.Blocks.{
  begin_message, check_trailers, end_headers, read_fields, parse_fields, parse_block, parse_headers,
  check_header_length, add_header_frame, handle_headers_frame, handle_continuation_frame,
  strip_priority, decode_block, handle_message_frame, handle_frame_of, handle_stream_frame,
}
use tornado_http.Stream.Headers.{is_body_phase, join_frames, Scan, start_request}
use tornado_http.Stream.Outside.{Outside}
use tornado_http.Stream.Send.{
  outgoing_length, pseudo_list, field_list, send_on, reset_on_error, write_body, write,
  send_headers, write_headers_body, write_headers, finish_body, finish_stream,
}

abbrev pub who : World → Bool × ℕ × ℕ
who w = (w.conn.is_client, w.conn.next_stream_id, w.stream.stream_id)

abbrev pub Keeps : Method → Type 0
Keeps method = (w : World) → who (method w).0 ≡ who w

and_then-Keeps :
    (done : World × Result (Unit {0})) (next : Method)
    → Keeps next
    → who (and_then done next).0 ≡ who done.0
and_then-Keeps (w, ok _) next keeps = keeps w
and_then-Keeps (w, err e) next keeps = refl

frames_cases :
    (fs : List Frame) → (fs ≡ []) ⊎ ((first : Frame) × (more : List Frame) × (fs ≡ first ∷ more))
frames_cases [] = inl refl
frames_cases (f ∷ fs) = inr (f, fs, refl)

module _ (x : Outside) (params : Params) where
  send_on-Keeps : (f : Frame) → Keeps (send_on x f)
  unfolding write_on write_frame
  send_on-Keeps f w = ground arith

  reset-Keeps : Keeps (reset x.io_write x.returns_none)
  unfolding reset
  reset-Keeps w = send_on-Keeps _ w

  reset_on_error-Keeps : (method : Method) → Keeps method → Keeps (reset_on_error x method)
  unfolding reset_on_error
  reset_on_error-Keeps method keeps w = elim (Result-cases (method w).1) [
    | inl (_, e) ↦
        let opened : reset_on_error x method w ≡ method w = ground arith in
        ap (λ (p : World × Result (Unit {0})). who p.0) opened ∙ keeps w
    | inr (raised, e) ↦
        let failed : reset_on_error x method w
            ≡ and_then (reset x.io_write x.returns_none (method w).0) (raises raised) =
          rw (e, reset_on_error) refl in
        ap (λ (p : World × Result (Unit {0})). who p.0) failed
        ∙ and_then-Keeps (reset x.io_write x.returns_none (method w).0) (raises raised) (λ _. refl)
        ∙ reset-Keeps (method w).0
        ∙ keeps w
  ]

  write_body-Keeps : (content : Bytes) → Keeps (write_body x content)
  unfolding write_body
  write_body-Keeps content w = ground arith

  write-Keeps : (content : Bytes) → Keeps (write x content)
  unfolding write
  write-Keeps content = reset_on_error-Keeps (write_body x content) (write_body-Keeps content)

  finish_body-Keeps : Keeps (finish_body x)
  unfolding finish_body
  finish_body-Keeps w = ground arith

  send_headers-Keeps : (hs : List (Bytes × Bytes × HeaderIndexMode)) → Keeps (send_headers x hs)
  unfolding send_headers write_on write_frame
  send_headers-Keeps hs w = ground arith

  write_headers_body-Keeps :
      (line : StartLine) (fields : Fields) (content : Bytes)
      → Keeps (write_headers_body x line fields content)
  unfolding write_headers_body
  write_headers_body-Keeps line fields content w =
      elim (Result-cases (outgoing_length x w.conn.is_client line fields w.stream)) [
        | inr (raised, e) ↦ ground arith
        | inl (n, e) ↦
            let w1 : World =
              update
                (λ s. record s {
                  outgoing_content_remaining = n;
                  request_start_line = if w.conn.is_client then some line else s.request_start_line;
                })
                w in
            elim (Result-cases (pseudo_list x w.conn.is_client line)) [
              | inr (raised, e') ↦ ground arith
              | inl (pseudo, e') ↦
                  let all : who
                        (and_then (send_headers x (pseudo ++ field_list x (x.all_fields fields)) w1)
                          (write x content)).0
                      ≡ who w =
                    and_then-Keeps
                      (send_headers x (pseudo ++ field_list x (x.all_fields fields)) w1)
                      (write x content) (write-Keeps content)
                    ∙ send_headers-Keeps _ w1 in
                  rw (e, e', write_headers_body) all
            ]
      ]

  count_content-Keeps : (n : ℕ) → Keeps (count_content n)
  unfolding count_content
  count_content-Keeps n w = ground arith

  maybe_end_stream-Keeps : (n : ℕ) → Keeps (maybe_end_stream n)
  unfolding maybe_end_stream
  maybe_end_stream-Keeps n w = ground arith

  send_window_update-Keeps : (n : ℕ) → Keeps (send_window_update x.io_write x.returns_none n)
  unfolding send_window_update write_on write_frame
  send_window_update-Keeps n w = ground arith

  deliver-Keeps : (content : Bytes) → Keeps (deliver x.io_write x.returns_none content)
  unfolding deliver
  deliver-Keeps content w = ground (
    arith,
    send_window_update-Keeps (length content)
        (update (delegate_call (DelegateCall.data_received content)) w),
  )

  handle_data_frame-Keeps : (f : Frame) → Keeps (handle_data_frame x.io_write x.returns_none f)
  unfolding handle_data_frame
  handle_data_frame-Keeps f w =
      let w1 : World = update (λ s. record s { phase = HttpPhase.body }) w in
      elim (Result-cases (without_padding f)) [
        | inr (raised, e) ↦ ground arith
        | inl (f', e) ↦
            let counted : World × Result (Unit {0}) = count_content (length f'.payload) w1 in
            let all : who
                  (and_then (and_then counted (deliver x.io_write x.returns_none f'.payload))
                    (maybe_end_stream f'.flags)).0
                ≡ who w =
              and_then-Keeps (and_then counted (deliver x.io_write x.returns_none f'.payload))
                (maybe_end_stream f'.flags) (maybe_end_stream-Keeps f'.flags)
              ∙ and_then-Keeps counted (deliver x.io_write x.returns_none f'.payload)
                  (deliver-Keeps f'.payload)
              ∙ count_content-Keeps (length f'.payload) w1 in
            ground (arith, all)
      ]

  start_request-Keeps : (pseudo : _) (fields : Fields) → Keeps (start_request x pseudo fields)
  unfolding start_request
  start_request-Keeps pseudo fields w = ground arith

  begin_message-Keeps : (scan : Scan) → Keeps (begin_message x params scan)
  unfolding begin_message
  begin_message-Keeps scan w =
      ground (arith, start_request-Keeps scan.pseudo_headers scan.headers w)

  check_trailers-Keeps : (ends : Bool) → Keeps (check_trailers x params ends)
  unfolding check_trailers
  check_trailers-Keeps ends w = ground arith

  end_headers-Keeps : (flags : ℕ) (scan : Scan) → Keeps (end_headers x params flags scan)
  unfolding end_headers
  end_headers-Keeps flags scan w =
      and_then-Keeps (and_then (begin_message x params scan w) (maybe_end_stream flags))
        (check_trailers x params _) (check_trailers-Keeps _)
      ∙ and_then-Keeps (begin_message x params scan w) (maybe_end_stream flags)
          (maybe_end_stream-Keeps flags)
      ∙ begin_message-Keeps scan w

  read_fields-Keeps : (block : Bytes) (w : World) → who (read_fields x params block w).0 ≡ who w
  unfolding read_fields decode_block
  read_fields-Keeps block w = refl

  parse_fields-Keeps : (flags : ℕ) (block : Bytes) → Keeps (parse_fields x params flags block)
  unfolding parse_fields
  parse_fields-Keeps flags block w = elim (Result-cases (read_fields x params block w).1) [
    | inl (scan, e) ↦
        rw (e, parse_fields)
          (end_headers-Keeps flags scan (read_fields x params block w).0
            ∙ read_fields-Keeps block w)
    | inr (raised, e) ↦ rw (e, parse_fields) (read_fields-Keeps block w)
  ]

  parse_block-Keeps : (first : Frame) (content : Bytes) → Keeps (parse_block x params first content)
  unfolding parse_block
  parse_block-Keeps first content w = elim (Result-cases (strip_priority first content)) [
    | inl (block, e) ↦ rw (e, parse_block) (parse_fields-Keeps first.flags block w)
    | inr (raised, e) ↦ rw (e, parse_block) refl
  ]

  parse_headers-Keeps : Keeps (parse_headers x params)
  unfolding parse_headers
  parse_headers-Keeps w = elim (frames_cases w.stream.header_frames) [
    | inl e ↦ ground arith
    | inr (first, more, e) ↦ ground (
      arith,
      parse_block-Keeps first (join_frames (first ∷ more))
          (update (λ s. record s { header_frames = [] }) w),
    )
  ]

  write_headers-Keeps :
      (line : StartLine) (fields : Fields) (content : Bytes)
      → Keeps (write_headers x line fields content)
  unfolding write_headers
  write_headers-Keeps line fields content =
      reset_on_error-Keeps _ (write_headers_body-Keeps line fields content)

  finish_stream-Keeps : Keeps (finish_stream x)
  unfolding finish_stream
  finish_stream-Keeps = reset_on_error-Keeps _ finish_body-Keeps

  check_header_length-Keeps : Keeps (check_header_length x params)
  unfolding check_header_length
  check_header_length-Keeps w =
      let w1 : World =
        update
          (λ s. record s {
            request_start_line = some (StartLine.request (codes "GET") (codes "/"));
          })
          w in
      let answered : World × Result (Unit {0}) =
        write_headers x (StartLine.response (pos 431) (codes "Headers too large")) [] [] w1 in
      let all : who (and_then answered (finish_stream x)).0 ≡ who w =
        and_then-Keeps answered (finish_stream x) finish_stream-Keeps
        ∙ write_headers-Keeps (StartLine.response (pos 431) (codes "Headers too large")) [] [] w1 in
      ground (arith, all)

  add_header_frame-Keeps : (f : Frame) → Keeps (add_header_frame x params f)
  unfolding add_header_frame
  add_header_frame-Keeps f w =
      let w1 : World = update (λ s. record s { header_frames = s.header_frames ++ (f ∷ []) }) w in
      let after : Method = λ w'.
        if has_flag f.flags FrameFlag.end_headers then parse_headers x params w' else (w', ok tt) in
      and_then-Keeps (check_header_length x params w1) after
        (λ w'. ground (arith, parse_headers-Keeps w'))
      ∙ check_header_length-Keeps w1

  handle_headers_frame-Keeps : (f : Frame) → Keeps (handle_headers_frame x params f)
  unfolding handle_headers_frame
  handle_headers_frame-Keeps f w =
      let w1 : World =
        update
          (λ s. record s { phase = if is_body_phase s.phase then HttpPhase.trailers else s.phase })
          w in
      elim (Result-cases (without_padding f)) [
        | inr (raised, e) ↦ rw (e, handle_headers_frame) refl
        | inl (f', e) ↦ rw (e, handle_headers_frame) (add_header_frame-Keeps f' w1)
      ]

  handle_message_frame-Keeps :
      (type : FrameType) (f : Frame) → Keeps (handle_message_frame x params type f)
  unfolding handle_message_frame handle_continuation_frame
  handle_message_frame-Keeps FrameType.headers f w = handle_headers_frame-Keeps f w
  handle_message_frame-Keeps FrameType.continuation f w = ground (arith, add_header_frame-Keeps f w)
  handle_message_frame-Keeps FrameType.frame_data f w = handle_data_frame-Keeps f w
  handle_message_frame-Keeps _ f w = refl

  finished_or-Keeps :
      (type : FrameType) (f : Frame) (w : World)
      → who
          (if w.stream.finished
            then raises (Exn.stream_error w.stream.stream_id ErrorCode.stream_closed) w
            else handle_message_frame x params type f w).0
        ≡ who w
  finished_or-Keeps type f w = ground (arith, handle_message_frame-Keeps type f w)

  handle_frame_of-Keeps : (type : FrameType) (f : Frame) → Keeps (handle_frame_of x params type f)
  unfolding handle_frame_of handle_priority_frame handle_rst_stream_frame handle_window_update_frame
  handle_frame_of-Keeps FrameType.priority f w = ground arith
  handle_frame_of-Keeps FrameType.rst_stream f w = ground arith
  handle_frame_of-Keeps FrameType.window_update f w = refl
  handle_frame_of-Keeps FrameType.settings f w = refl
  handle_frame_of-Keeps FrameType.goaway f w = refl
  handle_frame_of-Keeps FrameType.push_promise f w = refl
  handle_frame_of-Keeps type f w = finished_or-Keeps type f w

  -- A frame that a stream handles, to whatever end, leaves its id as it is, and its connection's role
  -- and the id of the connection's next own stream.
  pub handle_stream_frame-Keeps : (f : Frame) → Keeps (handle_stream_frame x params f)
  unfolding handle_stream_frame
  handle_stream_frame-Keeps f w = handle_frame_of-Keeps f.type f w
