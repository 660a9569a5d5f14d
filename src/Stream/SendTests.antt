-- ===== src/Stream/SendTests.antt =====
-- stream.py: three bytes and the end of a stream, sent in three turns; a request's headers in three
-- frames.
use tornado_http.Common.{◌≡◌, refl, arith, true, false, none, List, [], ◌∷◌}
use tornado_http.Connection.Handlers.{new_connection, new_params, setting, write_frame}
use tornado_http.Connection.Wire.{encode_frame}
use tornado_http.Constants.{FrameType, has_flag}
use tornado_http.Frames.{Frame}
use tornado_http.Stream.{Task, World, new_stream, write_on}
use tornado_http.Stream.Blocks.{handle_stream_frame}
use tornado_http.Stream.Example.{example}
use tornado_http.Stream.Fragments.{handle_stream_frames, handle_stream_frames-fragments}
use tornado_http.Stream.Headers.{join_frames}
use tornado_http.Stream.OutgoingLength.{content_length, finish_stream-length}
use tornado_http.Stream.HeaderNames.{IsPseudo, IsRegular, Distinct}
use tornado_http.Stream.HeaderRules.{scan_headers-rules}
use tornado_http.Common.Int.{pos}
use tornado_http.Common.{some, All, ◌⊎◌, ◌++◌, bytes_eq, dict_get, dict_set}
use tornado_http.Hpack.Decoder.{Header}
use tornado_http.Hpack.Encoder.{lower}
use tornado_http.Stream.Headers.{
  Scan, scan_headers, scan_header, scan_pseudo, scan_regular, add_header, is_valid_pseudo,
}
use tornado_http.Constants.{codes, HeaderIndexMode}
use tornado_http.Stream.Order.{Sends, Ordered, Sends-Ordered}
use tornado_http.Stream.Send.{
  write, write_body, finish_stream, finish_body, reset_on_error, task_turn, run_task, run_tasks,
  write_round, write_end_stream,
}
use tornado_http.Struct.{pack_field}

abbrev idle_world : World
idle_world = record { conn = new_connection true; stream = new_stream (new_connection true) 1 }

abbrev after_write : World
after_write = (write example (1 ∷ 2 ∷ 3 ∷ []) idle_world).0

abbrev begun : World
begun = (task_turn example 2 after_write).0

abbrev ending : World
ending = (finish_stream example begun).0

abbrev flushed : World
flushed = (task_turn example 2 ending).0

abbrev ended : World
ended = (task_turn example 0 flushed).0

abbrev asked : List Task
asked = Task.chunk (1 ∷ 2 ∷ 3 ∷ []) ∷ Task.end_stream ∷ []

Sends-Ordered_example : Ordered example idle_world asked ended
unfolding new_stream new_connection setting write write_body finish_stream finish_body
    reset_on_error task_turn run_task run_tasks write_round write_end_stream write_on write_frame
    encode_frame pack_field has_flag
Sends-Ordered_example = Sends-Ordered example refl (
    Sends.turns {v = flushed} 0
      (Sends.turns {v = ending} 2
        (Sends.finishes {v = begun}
          (Sends.turns {v = after_write} 2
            (Sends.writes {v = idle_world} (1 ∷ 2 ∷ 3 ∷ []) Sends.none_yet refl) refl)
          refl)
        refl)
      refl)

-- `:method: GET`, `:scheme: https` and `:path: /`, one static entry each.
abbrev block_start : Frame
block_start = record { type = FrameType.headers; flags = 0x1; stream_id = 1; payload = 0x82 ∷ [] }

abbrev block_middle : Frame
block_middle = record {
  type = FrameType.continuation;
  flags = 0;
  stream_id = 1;
  payload = 0x87 ∷ [];
}

abbrev block_end : Frame
block_end = record {
  type = FrameType.continuation;
  flags = 0x4;
  stream_id = 1;
  payload = 0x84 ∷ [];
}

abbrev whole_block : Frame
whole_block = record {
  type = FrameType.headers;
  flags = 0x5;
  stream_id = 1;
  payload = 0x82 ∷ 0x87 ∷ 0x84 ∷ [];
}

abbrev server_world : World
server_world = record { conn = new_connection false; stream = new_stream (new_connection false) 1 }

handle_stream_frames-fragments_example :
    handle_stream_frames example
      (new_params none none false)
      (block_start ∷ block_middle ∷ block_end ∷ [])
      server_world
    ≡ handle_stream_frame example (new_params none none false) whole_block server_world
unfolding new_stream has_flag join_frames
handle_stream_frames-fragments_example =
    handle_stream_frames-fragments example (new_params none none false) block_start whole_block
      block_end (block_middle ∷ []) server_world refl refl (refl, refl) (refl, refl) (refl, refl)
      (record { end_stream = refl; priority = refl; stream_id = refl }) refl ((refl, refl), tt)
      (refl, refl) (omega arith)

-- The same bytes, where `Content-Length: 3` has been announced.
abbrev announced : World
announced = record idle_world {
  stream = record idle_world.stream { outgoing_content_remaining = some (pos 3) };
}

abbrev after_content : World
after_content = (write example (1 ∷ 2 ∷ 3 ∷ []) announced).0

abbrev after_turn : World
after_turn = (task_turn example 2 after_content).0

abbrev after_finish : World
after_finish = (finish_stream example after_turn).0

finish_stream-length_example : content_length (Task.chunk (1 ∷ 2 ∷ 3 ∷ []) ∷ []) ≡ 3
unfolding new_stream new_connection setting write write_body finish_stream finish_body
    reset_on_error task_turn run_task run_tasks write_round write_on write_frame encode_frame
    pack_field
finish_stream-length_example =
    finish_stream-length example announced after_turn after_finish 3 refl
      (Sends.turns {v = after_content} 2
        (Sends.writes {v = announced} (1 ∷ 2 ∷ 3 ∷ []) Sends.none_yet refl) refl)
      refl

-- A request's header block, as the decoder gives it.
abbrev request_headers : List Header
request_headers =
    ((codes ":method", some (codes "GET")), HeaderIndexMode.index)
    ∷ ((codes ":path", some (codes "/")), HeaderIndexMode.index)
    ∷ ((codes "accept", some (codes "a")), HeaderIndexMode.index)
    ∷ []

abbrev first_scan : Scan
first_scan = record { pseudo_headers = []; headers = []; has_regular_header = false }

abbrev last_scan : Scan
last_scan = record {
  pseudo_headers = (codes ":method", some (codes "GET")) ∷ (codes ":path", some (codes "/")) ∷ [];
  headers = (codes "accept", some (codes "a")) ∷ [];
  has_regular_header = true;
}

scan_headers-rules_example :
    (pseudo : List Header) × (regular : List Header) × (request_headers ≡ pseudo ++ regular)
    × All (IsPseudo false) pseudo
    × Distinct pseudo
    × All IsRegular regular
    × ((pseudo ≡ []) ⊎ (false ≡ false))
unfolding scan_headers scan_header scan_pseudo scan_regular add_header is_valid_pseudo bytes_eq
    lower dict_get dict_set
scan_headers-rules_example =
    scan_headers-rules example false 1 request_headers first_scan last_scan refl
