-- ===== src/Connection/Replies.antt =====
-- connection.py: the frames that `handle_frame` answers, and the answers.
use tornado_http.Common.{
  ℕ, ◌^◌, ◌≤◌, ◌<◌, ◌≡◌, refl, sym, ap, ap₂, ◌∙◌, arith, false, List, [], ◌∷◌, ◌++◌, length, All,
  ◌==◌, Dict, dict_set,
}
use tornado_http.Connection.Handlers.{
  Call, write, Connection, control_frame, settings_ack_frame, check_setting, settings_loop,
  write_frame, handle_settings_frame, handle_ping_frame, handle_frame,
}
use tornado_http.Connection.SettingsBounds.{IsLegal, IsLegal-check_setting, settings_loop-ok}
use tornado_http.Connection.Wire.{encode_frame, read_frame}
use tornado_http.Connection.WireRoundTrip.{ReadsExactly, FitsHeader, read_frame-encode_frame}
use tornado_http.Constants.{FrameType, FrameFlag, flag_value, has_flag}
use tornado_http.Errors.{Result, ok, err}
use tornado_http.Frames.{Frame}
use tornado_http.Hpack.Table.{Bytes}
use tornado_http.Struct.{pack_field, to_bytes, from_bytes, from_bytes-to_bytes}

-- The payload of a SETTINGS frame with these codes and values.
abbrev pub settings_payload : List (ℕ × ℕ) → Bytes
settings_payload [] = []
settings_payload ((code, value) ∷ ps) = to_bytes 2 code ++ (to_bytes 4 value ++ settings_payload ps)

-- The settings of a frame, taken in order: a later value of a code takes the place of an earlier one.
abbrev pub take_settings : List (ℕ × ℕ) → Dict ℕ ℕ → Dict ℕ ℕ
take_settings [] d = d
take_settings ((code, value) ∷ ps) d = take_settings ps (dict_set (◌==◌) code value d)

-- A setting that fits its six bytes and is legal.
abbrev pub IsSetting : ℕ × ℕ → Type 0
IsSetting (code, value) = (code < 2 ^ 16) × (value < 2 ^ 32) × IsLegal code value

pub pong-FitsHeader :
    (payload : Bytes)
    → length payload ≡ 8
    → FitsHeader (control_frame FrameType.ping (flag_value FrameFlag.ack) payload)
pong-FitsHeader payload size = record {
  known = λ n e. cc;
  size = omega arith;
  flags_byte = omega arith;
  id_bits = omega arith;
}

abbrev pub bytes_of : Result Bytes → Bytes
bytes_of (ok bs) = bs
bytes_of (err e) = []

-- Two answers in bytes: a length, a type, a flag, and stream 0.
abbrev pub settings_ack_wire : Bytes
settings_ack_wire = 0 ∷ 0 ∷ 0 ∷ 0x4 ∷ 0x1 ∷ 0 ∷ 0 ∷ 0 ∷ 0 ∷ []

abbrev pub pong_wire : Bytes → Bytes
pong_wire payload = 0 ∷ 0 ∷ 8 ∷ 0x6 ∷ 0x1 ∷ 0 ∷ 0 ∷ 0 ∷ 0 ∷ payload

pub ack_bytes : encode_frame settings_ack_frame ≡ ok settings_ack_wire
unfolding encode_frame pack_field to_bytes
ack_bytes = refl

pong_bytes :
    (payload : Bytes)
    → length payload ≡ 8
    → encode_frame (control_frame FrameType.ping (flag_value FrameFlag.ack) payload)
      ≡ ok (pong_wire payload)
unfolding encode_frame pack_field to_bytes
pong_bytes payload size = rw (size, encode_frame) refl

settings_loop-round :
    (c1 c0 v3 v2 v1 v0 : ℕ) (rest : Bytes) (d : Dict ℕ ℕ) {code value : ℕ}
    → from_bytes (c1 ∷ c0 ∷ []) ≡ code
    → from_bytes (v3 ∷ v2 ∷ v1 ∷ v0 ∷ []) ≡ value
    → IsLegal code value
    → settings_loop (c1 ∷ c0 ∷ v3 ∷ v2 ∷ v1 ∷ v0 ∷ rest) d
      ≡ settings_loop rest (dict_set (◌==◌) code value d)
settings_loop-round c1 c0 v3 v2 v1 v0 rest d {code = code} {value = value} e e' legal =
    settings_loop-ok c1 c0 v3 v2 v1 v0 rest d
      (ap₂ check_setting e e' ∙ IsLegal-check_setting code value legal)
    ∙ ap₂ (λ c v. settings_loop rest (dict_set (◌==◌) c v d)) e e'

settings_loop-payload :
    (ps : List (ℕ × ℕ)) (d : Dict ℕ ℕ)
    → All IsSetting ps
    → settings_loop (settings_payload ps) d ≡ (take_settings ps d, ok tt)
unfolding to_bytes
settings_loop-payload [] d h = unfold settings_loop in refl
settings_loop-payload ((code, value) ∷ ps) d ((c, v, legal), h) =
    settings_loop-round _ _ _ _ _ _ (settings_payload ps) d (from_bytes-to_bytes 2 code c)
      (from_bytes-to_bytes 4 value v) legal
    ∙ settings_loop-payload ps (dict_set (◌==◌) code value d) h

module _ (io_write : List Call → Bytes → Result (Unit {0})) where
  pub write_frame-encoded :
      (f : Frame) (c : Connection) {bs : Bytes}
      → encode_frame f ≡ ok bs
      → write_frame io_write f c
        ≡ (record c { calls = c.calls ++ (write bs ∷ []) }, io_write c.calls bs)
  unfolding write_frame
  write_frame-encoded f c e = rw (e, write_frame) refl

  handle_settings_frame-takes :
      (f : Frame) (c : Connection) {d : Dict ℕ ℕ}
      → has_flag f.flags FrameFlag.ack ≡ false
      → settings_loop f.payload c.settings ≡ (d, ok tt)
      → handle_settings_frame io_write f c
        ≡ write_frame io_write settings_ack_frame (record c { settings = d })
  unfolding handle_settings_frame
  handle_settings_frame-takes f c no_ack loop =
      rw (no_ack, loop, handle_settings_frame)
        (ap
          (λ (r : Dict ℕ ℕ × Result (Unit {0})).
            write_frame io_write settings_ack_frame (record c { settings = r.0 }))
          loop)

  handle_ping_frame-answers :
      (f : Frame) (c : Connection)
      → has_flag f.flags FrameFlag.ack ≡ false
      → length f.payload ≡ 8
      → handle_ping_frame io_write f c
        ≡ write_frame io_write (control_frame FrameType.ping (flag_value FrameFlag.ack) f.payload) c
  unfolding handle_ping_frame
  handle_ping_frame-answers f c no_ack size = rw (no_ack, size, handle_ping_frame) refl

  -- A SETTINGS frame of stream 0 without the flag ACK, whose payload is a list of settings that fit
  -- their six bytes each and are legal, sets them in order, the last value of a code staying, and makes
  -- the handler write one frame: in bytes, a length of 0, the type 4 of SETTINGS, the flag 1 of ACK, and
  -- stream 0. What the write gives is what the handler gives.
  pub handle_frame-settings_payload :
      (f : Frame) (c : Connection) (ps : List (ℕ × ℕ))
      → f.type ≡ FrameType.settings
      → has_flag f.flags FrameFlag.ack ≡ false
      → f.payload ≡ settings_payload ps
      → All IsSetting ps
      → handle_frame io_write f c ≡ (
        record c {
          settings = take_settings ps c.settings;
          calls = c.calls ++ (write settings_ack_wire ∷ []);
        },
        io_write c.calls settings_ack_wire,
      )
  unfolding handle_frame
  handle_frame-settings_payload f c ps type no_ack payload legal =
      let loop =
        ap (λ p. settings_loop p c.settings) payload ∙ settings_loop-payload ps c.settings legal in
      rw (type, handle_frame)
        (handle_settings_frame-takes f c no_ack loop
          ∙ write_frame-encoded settings_ack_frame
              (record c { settings = take_settings ps c.settings }) ack_bytes)

  -- A PING frame of stream 0 without the flag ACK and with eight bytes makes the handler write one
  -- frame: in bytes, a length of 8, the type 6 of PING, the flag 1 of ACK, stream 0, and the same eight
  -- bytes. The peer's `_read_frame`, with any limit of 8 or more and where `read_bytes` gives exactly the bytes
  -- that have come, reads it as the PING frame of stream 0
  -- with the flag ACK and the same payload; a connection that handles this answer returns and is not
  -- changed.
  pub handle_frame-ping :
      (read_bytes : ℕ → List ℕ → Result (List ℕ × List ℕ))
      → ReadsExactly read_bytes
      → (f : Frame) (c peer : Connection) (limit : ℕ) (rest : Bytes) → f.type ≡ FrameType.ping
      → has_flag f.flags FrameFlag.ack ≡ false
      → length f.payload ≡ 8
      → 8 ≤ limit
      → (answer : Frame) × (handle_frame io_write f c ≡ (
        record c { calls = c.calls ++ (write (pong_wire f.payload) ∷ []) },
        io_write c.calls (pong_wire f.payload),
      ))
        × (read_frame read_bytes limit (pong_wire f.payload ++ rest) ≡ ok (answer, rest))
        × (answer
            ≡ record { type = FrameType.ping; flags = 0x1; stream_id = 0; payload = f.payload })
        × (handle_frame io_write answer peer ≡ (peer, ok tt))
  handle_frame-ping read_bytes reads f c peer limit rest type no_ack size fits =
      let pong = control_frame FrameType.ping (flag_value FrameFlag.ack) f.payload in
      let (bs, e, long, read) =
        read_frame-encode_frame read_bytes reads pong (pong-FitsHeader f.payload size) limit rest
          (omega arith) in
      let e' = pong_bytes f.payload size in
      (
        pong,
        unfold handle_frame in
            rw (type, handle_frame)
              (handle_ping_frame-answers f c no_ack size ∙ write_frame-encoded pong c e'),
        ap (λ b. read_frame read_bytes limit (b ++ rest)) (ap bytes_of (sym e' ∙ e)) ∙ read,
        refl,
        unfold handle_frame handle_ping_frame has_flag in refl,
      )
