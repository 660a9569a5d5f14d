-- ===== src/Stream/Tests.antt =====
-- stream.py: a response of three bytes in two DATA frames, and the theorems at it; the credit for its bytes.
use tornado_http.Common.{
  ◌-◌, ◌+◌, ◌≤◌, ◌≡◌, refl, Bool, true, none, some, arith, ◌++◌, List, [], ◌∷◌, length,
}
use tornado_http.Common.Int.{pos}
use tornado_http.Connection.Handlers.{Call, new_connection, setting, write_frame}
use tornado_http.Connection.Input.{read_input, read_input-ReadsExactly}
use tornado_http.Connection.Wire.{encode_frame, read_frame}
use tornado_http.FlowControl.{new_window, apply_window_update}
use tornado_http.Stream.Credit.{wrote, credit_wire, send_window_update-credits}
use tornado_http.Constants.{FrameType, has_flag, HttpPhase}
use tornado_http.Errors.{Result, ok}
use tornado_http.Frames.{Frame, without_padding}
use tornado_http.Hpack.Table.{Bytes}
use tornado_http.Stream.{DelegateCall, World, new_stream, send_window_update, handle_data_frame}
use tornado_http.Stream.ContentLength.{Handled, total_content, content-le-length, content-eq-length}
use tornado_http.Struct.{pack_field}

abbrev accepts : List Call → Bytes → Result (Unit {0})
accepts calls bytes = ok tt

-- The delegate takes the bytes at once.
abbrev takes_at_once : List DelegateCall → Bytes → Bool
takes_at_once calls content = true

-- Stream 1 of a client, behind headers with `content-length: 3`.
abbrev body_world : World
body_world = record {
  conn = new_connection true;
  stream = record (new_stream (new_connection true) 1) {
    incoming_content_remaining = some (pos 3);
    delegate_started = true;
    phase = HttpPhase.body;
  };
}

abbrev first_frame : Frame
first_frame = record { type = FrameType.frame_data; flags = 0; stream_id = 1; payload = 10 ∷ [] }

abbrev last_frame : Frame
last_frame = record first_frame { flags = 0x1; payload = 11 ∷ 12 ∷ [] }

abbrev after_first : World
after_first = (handle_data_frame accepts takes_at_once first_frame body_world).0

abbrev after_last : World
after_last = (handle_data_frame accepts takes_at_once last_frame after_first).0

content-le-length_example :
    (total_content [] + length first_frame.payload ≤ 3)
    × (after_first.stream.incoming_content_remaining
        ≡ some (pos (3 - (total_content [] + length first_frame.payload))))
unfolding new_stream handle_data_frame without_padding has_flag write_frame encode_frame pack_field
    new_connection setting
content-le-length_example =
    content-le-length accepts takes_at_once 3 body_world refl [] first_frame first_frame body_world
      after_first (Handled.none_yet body_world) refl refl

content-eq-length_example :
    (total_content (first_frame ∷ []) + length last_frame.payload ≡ 3)
    × (after_last.stream.finished ≡ true)
unfolding new_stream handle_data_frame without_padding has_flag write_frame encode_frame pack_field
    new_connection setting
content-eq-length_example =
    content-eq-length accepts takes_at_once 3 body_world refl (first_frame ∷ []) last_frame
      last_frame after_first after_last
      (Handled.and_one first_frame first_frame refl refl (Handled.none_yet after_first)) refl refl
      refl

-- The credit for three bytes, and a peer's window of 65532.
send_window_update-credits_example :
    (bs cs : Bytes) × (f g : Frame) × (send_window_update accepts takes_at_once 3 body_world
      ≡ (wrote cs (wrote bs body_world), ok tt))
    × (read_frame read_input 16384 (bs ++ cs) ≡ ok (f, cs))
    × (read_frame read_input 16384 (cs ++ []) ≡ ok (g, []))
    × (bs ≡ credit_wire 3 0)
    × (cs ≡ credit_wire 3 1)
    × (f.type ≡ FrameType.window_update)
    × (g.type ≡ FrameType.window_update)
    × (f.stream_id ≡ 0)
    × (g.stream_id ≡ 1)
    × (apply_window_update f (new_window none 65532) ≡ (new_window none 65535, ok tt))
    × (apply_window_update g (new_window none 65532) ≡ (new_window none 65535, ok tt))
unfolding new_stream
send_window_update-credits_example =
    send_window_update-credits accepts (λ calls bs. refl) takes_at_once read_input
      read_input-ReadsExactly 3 body_world (new_window none 65532) (omega arith) (omega arith)
      (omega arith) (omega arith)
