-- ===== src/Constants.antt =====
-- tornado_http2/constants.py: frame types, settings, error codes, flags and phases.
use Prim.Native.Char.{code}
use Prim.Native.String.{String}
use tornado_http.Common.{ℕ, ◌-◌, ◌^◌, ◌==◌, Bool, not, Option, none, some, List, [], ◌∷◌, bit_and}

-- The bytes of an ASCII text.
abbrev pub codes : String → List ℕ
codes String.[] = []
codes (String.◌∷◌ c s) = code c ∷ codes s

-- `class FrameType`. A byte that is no member stays a plain number (`_read_frame` passes over the
-- `ValueError`): the last constructor. `frame_data` is `DATA`.
pub data FrameType : Type 0 where
  frame_data headers priority rst_stream settings push_promise ping : FrameType
  goaway window_update continuation : FrameType
  unknown : ℕ → FrameType

-- `frame.type.value`
abbrev pub type_value : FrameType → ℕ
type_value FrameType.frame_data = 0x0
type_value FrameType.headers = 0x1
type_value FrameType.priority = 0x2
type_value FrameType.rst_stream = 0x3
type_value FrameType.settings = 0x4
type_value FrameType.push_promise = 0x5
type_value FrameType.ping = 0x6
type_value FrameType.goaway = 0x7
type_value FrameType.window_update = 0x8
type_value FrameType.continuation = 0x9
type_value (FrameType.unknown n) = n

pub data ErrorCode : Type 0 where
  no_error protocol_error internal_error flow_control_error settings_timeout : ErrorCode
  stream_closed frame_size_error refused_stream cancel compression_error : ErrorCode
  connect_error enhance_your_calm inadequate_security http_1_1_required : ErrorCode

-- `ErrorCode.X.code`
abbrev pub error_value : ErrorCode → ℕ
error_value ErrorCode.no_error = 0x0
error_value ErrorCode.protocol_error = 0x1
error_value ErrorCode.internal_error = 0x2
error_value ErrorCode.flow_control_error = 0x3
error_value ErrorCode.settings_timeout = 0x4
error_value ErrorCode.stream_closed = 0x5
error_value ErrorCode.frame_size_error = 0x6
error_value ErrorCode.refused_stream = 0x7
error_value ErrorCode.cancel = 0x8
error_value ErrorCode.compression_error = 0x9
error_value ErrorCode.connect_error = 0xa
error_value ErrorCode.enhance_your_calm = 0xb
error_value ErrorCode.inadequate_security = 0xc
error_value ErrorCode.http_1_1_required = 0xd

pub data Setting : Type 0 where
  header_table_size enable_push max_concurrent_streams : Setting
  initial_window_size max_frame_size max_header_list_size : Setting

-- `Setting.X.code` and `Setting.X.default`
abbrev pub setting_code : Setting → ℕ
setting_code Setting.header_table_size = 0x1
setting_code Setting.enable_push = 0x2
setting_code Setting.max_concurrent_streams = 0x3
setting_code Setting.initial_window_size = 0x4
setting_code Setting.max_frame_size = 0x5
setting_code Setting.max_header_list_size = 0x6

abbrev pub setting_default : Setting → Option ℕ
setting_default Setting.header_table_size = some 4096
setting_default Setting.enable_push = some 1
setting_default Setting.max_concurrent_streams = none
setting_default Setting.initial_window_size = some 65535
setting_default Setting.max_frame_size = some 16384
setting_default Setting.max_header_list_size = none

abbrev pub max_window_size : ℕ
max_window_size = 2 ^ 31 - 1

abbrev pub max_max_frame_size : ℕ
max_max_frame_size = 2 ^ 24 - 1

-- `CLIENT_PREFACE`, the bytes of its hexadecimal text.
abbrev pub client_preface : List ℕ
client_preface =
    0x50 ∷ 0x52 ∷ 0x49 ∷ 0x20 ∷ 0x2a ∷ 0x20 ∷ 0x48 ∷ 0x54 ∷ 0x54 ∷ 0x50 ∷ 0x2f ∷ 0x32 ∷ 0x2e ∷ 0x30
    ∷ 0x0d ∷ 0x0a ∷ 0x0d ∷ 0x0a ∷ 0x53 ∷ 0x4d ∷ 0x0d ∷ 0x0a ∷ 0x0d ∷ 0x0a ∷ []

-- `HeaderIndexMode.YES`, `NO` and `NEVER`
pub data HeaderIndexMode : Type 0 where
  index no_index never_index : HeaderIndexMode

pub data FrameFlag : Type 0 where
  end_stream ack end_headers padded priority : FrameFlag

abbrev pub flag_value : FrameFlag → ℕ
flag_value FrameFlag.end_stream = 0x1
flag_value FrameFlag.ack = 0x1
flag_value FrameFlag.end_headers = 0x4
flag_value FrameFlag.padded = 0x8
flag_value FrameFlag.priority = 0x20

-- `flags & FrameFlag.X`, as a test
unfoldable pub has_flag : ℕ → FrameFlag → Bool
has_flag flags f = not (bit_and flags (flag_value f) == 0)

pub data HttpPhase : Type 0 where
  headers body trailers : HttpPhase
