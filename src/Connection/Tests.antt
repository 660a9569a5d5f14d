-- ===== src/Connection/Tests.antt =====
-- connection.py: frames on the wire and frames of stream 0, and the theorems at them.
use tornado_http.Common.{
  ℕ, ◌+◌, ◌-◌, ◌^◌, ◌≤◌, ◌≡◌, ◌⊎◌, refl, arith, none, true, false, dict_get, some, List, [], ◌∷◌,
  ◌++◌, length,
}
use tornado_http.Connection.Handlers.{
  Call, write, Connection, new_connection, setting, handle_frame,
}
use tornado_http.Connection.Input.{read_input, read_input-ReadsExactly}
use tornado_http.Connection.Raises.{is_connection_error, handle_frame-raises}
use tornado_http.Connection.Replies.{
  pong_wire, settings_ack_wire, settings_payload, take_settings, handle_frame-settings_payload,
  handle_frame-ping,
}
use tornado_http.Connection.SettingsBounds.{
  Bounded, Reachable, setting-IsLegal, handle_frame-Bounded,
}
use tornado_http.Connection.Wire.{encode_frame, read_frame}
use tornado_http.Connection.WireRoundTrip.{
  FitsHeader, read_frame-encode_frame, read_frame-encode_frame_long,
}
use tornado_http.Constants.{FrameType, ErrorCode, Setting, has_flag}
use tornado_http.Errors.{Exn, Result, ok, err}
use tornado_http.Frames.{Frame}
use tornado_http.Hpack.Table.{Bytes}

abbrev accepts : List Call → Bytes → Result (Unit {0})
accepts calls bytes = ok tt

abbrev ping_frame : Frame
ping_frame = record {
  type = FrameType.ping;
  flags = 0;
  stream_id = 0;
  payload = 1 ∷ 2 ∷ 3 ∷ 4 ∷ 5 ∷ 6 ∷ 7 ∷ 8 ∷ [];
}

abbrev client : Connection
client = new_connection true

abbrev server : Connection
server = new_connection false

ping_frame-FitsHeader : FitsHeader ping_frame
ping_frame-FitsHeader = record {
  known = λ n e. cc;
  size = omega arith;
  flags_byte = omega arith;
  id_bits = omega arith;
}

read_frame-encode_frame_example :
    (bs : List ℕ) × (encode_frame ping_frame ≡ ok bs)
    × (length bs ≡ 9 + 8)
    × (read_frame read_input 16384 (bs ++ (0 ∷ 0 ∷ [])) ≡ ok (ping_frame, 0 ∷ 0 ∷ []))
read_frame-encode_frame_example =
    read_frame-encode_frame read_input read_input-ReadsExactly ping_frame ping_frame-FitsHeader
      16384 (0 ∷ 0 ∷ []) (omega arith)

read_frame-encode_frame_long_example :
    (bs : List ℕ) × (encode_frame ping_frame ≡ ok bs)
    × (read_frame read_input 7 (bs ++ [])
        ≡ err (Exn.connection_error ErrorCode.frame_size_error none))
read_frame-encode_frame_long_example =
    read_frame-encode_frame_long read_input read_input-ReadsExactly ping_frame ping_frame-FitsHeader
      7 [] (omega arith)

handle_frame-ping_example :
    (answer : Frame) × (handle_frame accepts ping_frame client
      ≡ (record client { calls = write (pong_wire ping_frame.payload) ∷ [] }, ok tt))
    × (read_frame read_input 16384 (pong_wire ping_frame.payload ++ []) ≡ ok (answer, []))
    × (answer ≡ record {
      type = FrameType.ping;
      flags = 0x1;
      stream_id = 0;
      payload = ping_frame.payload;
    })
    × (handle_frame accepts answer server ≡ (server, ok tt))
unfolding has_flag new_connection
handle_frame-ping_example =
    handle_frame-ping accepts read_input read_input-ReadsExactly ping_frame client server 16384 []
      refl refl refl (omega arith)

-- ENABLE_PUSH off, and MAX_FRAME_SIZE twice.
abbrev some_settings : List (ℕ × ℕ)
some_settings = (2, 0) ∷ (5, 16384) ∷ (5, 20000) ∷ []

abbrev settings_update : Frame
settings_update = record {
  type = FrameType.settings;
  flags = 0;
  stream_id = 0;
  payload = settings_payload some_settings;
}

handle_frame-settings_payload_example : handle_frame accepts settings_update client ≡ (
  record client { settings = take_settings some_settings []; calls = write settings_ack_wire ∷ [] },
  ok tt,
)
unfolding has_flag new_connection
handle_frame-settings_payload_example =
    handle_frame-settings_payload accepts settings_update client some_settings refl refl refl (
      (
        omega arith,
        omega arith,
        (λ e. omega arith, λ e. absurd (omega arith), λ e. absurd (omega arith)),
      ),
      (
        (
          omega arith,
          omega arith,
          (λ e. absurd (omega arith), λ e. absurd (omega arith), λ e. (omega arith, omega arith)),
        ),
        (
          (
            omega arith,
            omega arith,
            (λ e. absurd (omega arith), λ e. absurd (omega arith), λ e. (omega arith, omega arith)),
          ),
          tt,
        ),
      ),
    )

-- A legal MAX_FRAME_SIZE and then one that is too small: the handler raises behind the first.
abbrev bad_settings : Frame
bad_settings = record settings_update { payload = settings_payload ((5, 20000) ∷ (5, 1) ∷ []) }

setting-IsLegal_example :
    let c = (handle_frame accepts bad_settings client).0 in
    ((v : ℕ) × (setting c Setting.max_frame_size ≡ some v) × (2 ^ 14 ≤ v) × (v ≤ 2 ^ 24 - 1))
    × ((v : ℕ) × (setting c Setting.enable_push ≡ some v) × (v ≤ 1))
    × ((v : ℕ) × (setting c Setting.initial_window_size ≡ some v) × (v ≤ 2 ^ 31 - 1))
setting-IsLegal_example =
    setting-IsLegal accepts (handle_frame accepts bad_settings client).0
      (Reachable.handles bad_settings (Reachable.starts true))

handle_frame-Bounded_example : Bounded (handle_frame accepts bad_settings client).0.settings
handle_frame-Bounded_example = handle_frame-Bounded accepts bad_settings client no_settings
  where
    no_settings : Bounded client.settings
    no_settings = λ code value h. absurd (unfold new_connection dict_get in cc)

-- A PING frame of two bytes.
abbrev short_ping : Frame
short_ping = record ping_frame { payload = 1 ∷ 2 ∷ [] }

handle_frame-raises_example :
    (is_connection_error (Exn.connection_error ErrorCode.frame_size_error none) ≡ true)
    ⊎ ((bs : Bytes) × (accepts client.calls bs
          ≡ err (Exn.connection_error ErrorCode.frame_size_error none)))
    ⊎ ((FrameType.ping ≡ FrameType.goaway)
        × (Exn.connection_error ErrorCode.frame_size_error none ≡ Exn.stream_closed_error))
unfolding new_connection
handle_frame-raises_example =
    handle_frame-raises accepts short_ping client refl
      (Exn.connection_error ErrorCode.frame_size_error none) raised
  where
    raised :
        (handle_frame accepts short_ping client).1
        ≡ err (Exn.connection_error ErrorCode.frame_size_error none)
    raised = unfold handle_frame has_flag in refl
