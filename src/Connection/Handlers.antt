-- ===== src/Connection/Handlers.antt =====
-- connection.py: `Connection`, its settings and the frames of stream 0. Tornado's `IOStream` is an
-- object outside: the calls the code makes of it are kept in order, and what its `write` does, which
-- may raise, is a parameter.
use tornado_http.Common.{
  ℕ, Bool, not, ◌||◌, Option, none, some, List, [], ◌∷◌, ◌++◌, length, ltb, ◌==◌, if◌then◌else◌,
  Dict, dict_get, dict_set,
}
use tornado_http.Connection.Wire.{encode_frame}
use tornado_http.Constants.{
  codes, FrameType, ErrorCode, error_value, Setting, setting_code, setting_default, max_window_size,
  max_max_frame_size, FrameFlag, flag_value, has_flag,
}
use tornado_http.Errors.{Exn, Result, ok, err, ◌>>=◌, raise_if}
use tornado_http.FlowControl.{Window, new_window, apply_window_update}
use tornado_http.Frames.{Frame}
use tornado_http.Hpack.Table.{Bytes, DynamicTable, new_table}
use tornado_http.Struct.{pack_i, pack_H, pack_I, from_bytes}

-- `Params`: `or` passes over `None` and 0.
pub record Params : Type 0 where
  pub chunk_size : ℕ
  pub max_header_size : ℕ
  pub decompress : Bool

abbrev pub or_default : Option ℕ → ℕ → ℕ
or_default none n = n
or_default (some m) n = if m == 0 then n else m

abbrev pub new_params : Option ℕ → Option ℕ → Bool → Params
new_params chunk_size max_header_size decompress = record {
  chunk_size = or_default chunk_size 65536;
  max_header_size = or_default max_header_size 65536;
  decompress = decompress;
}

-- A call of the `IOStream`.
pub data Call : Type 0 where
  write : Bytes → Call
  close_stream : Call

-- `hpack_decoder` and `hpack_encoder` are the dynamic tables that they keep.
pub record Connection : Type 0 where
  pub is_client : Bool
  pub settings : Dict ℕ ℕ
  pub next_stream_id : ℕ
  pub hpack_decoder : DynamicTable
  pub hpack_encoder : DynamicTable
  pub window : Window
  pub calls : List Call

-- `__init__`, with the defaults of the settings HEADER_TABLE_SIZE and INITIAL_WINDOW_SIZE.
unfoldable pub new_connection : Bool → Connection
new_connection is_client = record {
  is_client = is_client;
  settings = [];
  next_stream_id = if is_client then 1 else 2;
  hpack_decoder = new_table 4096;
  hpack_encoder = new_table 4096;
  window = new_window none 65535;
  calls = [];
}

-- What a method gives, and the connection it leaves, also where it raises.
abbrev pub Method : Type 0
Method = Connection → Connection × Result (Unit {0})

-- `self._settings.get(setting.code, setting.default)`
unfoldable pub setting : Connection → Setting → Option ℕ
setting c s = elim (dict_get (◌==◌) (setting_code s) c.settings) [
  | some value ↦ some value
  | none ↦ setting_default s
]

abbrev pub control_frame : FrameType → ℕ → Bytes → Frame
control_frame type flags payload = record {
  type = type;
  flags = flags;
  stream_id = 0;
  payload = payload;
}

-- `utf8` is Tornado's.
unfoldable pub goaway_frame : (Bytes → Bytes) → ErrorCode → ℕ → Option Bytes → Result Frame
goaway_frame utf8 error_code last_stream_id message = do
  last ← pack_i last_stream_id
  code ← pack_i (error_value error_code)
  let text : Bytes = elim message [ none ↦ [] | some [] ↦ [] | some (b ∷ bs) ↦ utf8 (b ∷ bs) ]
  ok (control_frame FrameType.goaway 0 ((last ++ code) ++ text))

unfoldable pub rst_stream_frame : ℕ → ErrorCode → Result Frame
rst_stream_frame stream_id error_code = do
  payload ← pack_i (error_value error_code)
  ok (record { type = FrameType.rst_stream; flags = 0; stream_id = stream_id; payload = payload })

unfoldable pub settings_frame : Connection → Result Frame
settings_frame c = do
  payload ←
      if c.is_client
      then (do
        code ← pack_H (setting_code Setting.enable_push)
        value ← pack_I 0
        ok (code ++ value))
      else ok []
  ok (control_frame FrameType.settings 0 payload)

abbrev pub settings_ack_frame : Frame
settings_ack_frame = control_frame FrameType.settings (flag_value FrameFlag.ack) []

-- The checks on one setting.
unfoldable pub check_setting : ℕ → ℕ → Result (Unit {0})
check_setting code value =
    if code == setting_code Setting.enable_push
    then raise_if (not (value == 0 || (value == 1)))
        (Exn.connection_error ErrorCode.protocol_error (some (codes "ENABLE_PUSH must be 0 or 1")))
    else if code == setting_code Setting.initial_window_size
    then raise_if (ltb max_window_size value) (
        Exn.connection_error ErrorCode.flow_control_error
          (some (codes "INITIAL_WINDOW_SIZE too large")))
    else if code == setting_code Setting.max_frame_size
    then raise_if (ltb value 16384 || ltb max_max_frame_size value) (
        Exn.connection_error ErrorCode.protocol_error (some (codes "MAX_FRAME_SIZE out of bounds")))
    else ok tt

-- `while data:`, six bytes a round, which `struct.unpack('>HI', data[:6])` takes apart.
unfoldable pub settings_loop : Bytes → Dict ℕ ℕ → Dict ℕ ℕ × Result (Unit {0})
unfolding check_setting
settings_loop [] d = (d, ok tt)
settings_loop (c1 ∷ c0 ∷ v3 ∷ v2 ∷ v1 ∷ v0 ∷ rest) d =
    let code = from_bytes (c1 ∷ c0 ∷ []) in
    let value = from_bytes (v3 ∷ v2 ∷ v1 ∷ v0 ∷ []) in
    elim (check_setting code value) [
      | err e ↦ (d, err e)
      | ok _ ↦ settings_loop rest (dict_set (◌==◌) code value d)
    ]
settings_loop _ d = (
  d,
  err (
      Exn.connection_error ErrorCode.frame_size_error
        (some (codes "SETTINGS frames must be multiples of 6 bytes"))),
)

abbrev pub type_name : FrameType → Bytes
type_name FrameType.frame_data = codes "FrameType.DATA"
type_name FrameType.headers = codes "FrameType.HEADERS"
type_name FrameType.priority = codes "FrameType.PRIORITY"
type_name FrameType.rst_stream = codes "FrameType.RST_STREAM"
type_name FrameType.push_promise = codes "FrameType.PUSH_PROMISE"
type_name FrameType.continuation = codes "FrameType.CONTINUATION"
type_name _ = []

module _ (io_write : List Call → Bytes → Result (Unit {0})) where
  -- `self.stream.write(encoded_frame)`, where the frame can be encoded.
  unfoldable pub write_frame : Frame → Method
  write_frame f c = elim (encode_frame f) [
    | err e ↦ (c, err e)
    | ok bytes ↦ (record c { calls = c.calls ++ (write bytes ∷ []) }, io_write c.calls bytes)
  ]

  unfoldable pub handle_settings_frame : Frame → Method
  unfolding settings_loop write_frame
  handle_settings_frame f c =
      if has_flag f.flags FrameFlag.ack
      then (
        c,
        raise_if (not (length f.payload == 0)) (
            Exn.connection_error ErrorCode.frame_size_error
              (some (codes "SETTINGS ACK must be empty"))),
      )
      else (let loop = settings_loop f.payload c.settings in
          let c' = record c { settings = loop.0 } in
          elim loop.1 [ err e ↦ (c', err e) | ok _ ↦ write_frame settings_ack_frame c' ])

  unfoldable pub handle_window_update_frame : Frame → Method
  handle_window_update_frame f c =
      let update = apply_window_update f c.window in (record c { window = update.0 }, update.1)

  unfoldable pub handle_ping_frame : Frame → Method
  unfolding write_frame
  handle_ping_frame f c =
      if has_flag f.flags FrameFlag.ack
      then (c, ok tt)
      else if not (length f.payload == 8)
      then (c, err (Exn.connection_error ErrorCode.frame_size_error none))
      else write_frame (control_frame FrameType.ping (flag_value FrameFlag.ack) f.payload) c

  -- `handle_frame`: an unknown type is discarded.
  unfoldable pub handle_frame : Frame → Method
  unfolding handle_settings_frame handle_window_update_frame handle_ping_frame
  handle_frame f c = elim f.type [
    | FrameType.settings ↦ handle_settings_frame f c
    | FrameType.window_update ↦ handle_window_update_frame f c
    | FrameType.ping ↦ handle_ping_frame f c
    | FrameType.goaway ↦
        (record c { calls = c.calls ++ (close_stream ∷ []) }, err Exn.stream_closed_error)
    | FrameType.unknown n ↦ (c, ok tt)
    | _ ↦ (
      c,
      err (
          Exn.connection_error ErrorCode.protocol_error
            (some (codes "invalid frame type " ++ (type_name f.type ++ codes " for stream 0")))),
    )
  ]
