-- ===== src/Connection/Raises.antt =====
-- connection.py: the exceptions that `handle_frame` can raise.
use tornado_http.Common.{
  ℕ, ◌≡◌, ◌≢◌, ◌⊎◌, inl, inr, refl, sym, ◌∙◌, subst, arith, Bool, true, false, Bool-cases, ==_iff,
  Option, none, List, [], ◌∷◌, length, ◌==◌, Dict, dict_set,
}
use tornado_http.Connection.Handlers.{
  Call, Connection, control_frame, settings_ack_frame, check_setting, settings_loop, write_frame,
  handle_settings_frame, handle_ping_frame, handle_frame,
}
use tornado_http.Connection.SettingsBounds.{settings_loop-ok, settings_loop-err}
use tornado_http.Connection.Wire.{encode_frame}
use tornado_http.Connection.WireRoundTrip.{encode_frame-header}
use tornado_http.Connection.Replies.{pong-FitsHeader, ack_bytes}
use tornado_http.Constants.{FrameType, ErrorCode, FrameFlag, flag_value, has_flag}
use tornado_http.Errors.{Exn, Result, ok, err, Result-cases}
use tornado_http.FlowControl.{Window, apply_window_update}
use tornado_http.Frames.{Frame}
use tornado_http.Hpack.Table.{Bytes}
use tornado_http.Struct.{from_bytes}

-- `except ConnectionError`
abbrev pub is_connection_error : Exn → Bool
is_connection_error (Exn.connection_error code message) = true
is_connection_error _ = false

-- The connection errors among the outcomes.
abbrev OnlyConnectionError : Result (Unit {0}) → Type 0
OnlyConnectionError r = (e : Exn) → r ≡ err e → is_connection_error e ≡ true

err_lem : {x y : Exn} {r : Result (Unit {0})} → r ≡ err x → r ≡ err y → y ≡ x
err_lem h h' = cc

check_setting-raises : (code value : ℕ) → OnlyConnectionError (check_setting code value)
unfolding check_setting
check_setting-raises code value e h = ground arith

connection_error-only :
    (code : ErrorCode) (message : Option Bytes)
    → OnlyConnectionError (err (Exn.connection_error code message))
connection_error-only code message e h = ground arith

check_setting-only :
    (code value : ℕ) {x : Exn} → check_setting code value ≡ err x → OnlyConnectionError (err x)
check_setting-only code value refused =
    subst OnlyConnectionError refused (check_setting-raises code value)

settings_loop-raises :
    (payload : Bytes) (d : Dict ℕ ℕ) → OnlyConnectionError (settings_loop payload d).1
settings_loop-raises [] d = unfold settings_loop in λ e h. cc
settings_loop-raises (c1 ∷ c0 ∷ v3 ∷ v2 ∷ v1 ∷ v0 ∷ rest) d =
    let code = from_bytes (c1 ∷ c0 ∷ []) in
    let value = from_bytes (v3 ∷ v2 ∷ v1 ∷ v0 ∷ []) in
    elim (Result-cases (check_setting code value)) [
      | inl (_, legal) ↦
          subst (λ r. OnlyConnectionError r.1)
            (sym (settings_loop-ok c1 c0 v3 v2 v1 v0 rest d legal))
            (settings_loop-raises rest (dict_set (◌==◌) code value d))
      | inr (e, refused) ↦
          subst (λ r. OnlyConnectionError r.1)
            (sym (settings_loop-err c1 c0 v3 v2 v1 v0 rest d refused))
            (check_setting-only code value refused)
    ]
settings_loop-raises _ d = unfold settings_loop in connection_error-only _ _

apply_window_update-raises :
    (f : Frame) (w : Window) → w.owner ≡ none → OnlyConnectionError (apply_window_update f w).1
unfolding apply_window_update
apply_window_update-raises f w top e h = ground arith

module _ (io_write : List Call → Bytes → Result (Unit {0})) where
  -- An exception is a `ConnectionError`, or it is what a write raised.
  abbrev pub Explained : Connection → Result (Unit {0}) → Type 0
  Explained c r =
      (e : Exn)
      → r ≡ err e
      → (is_connection_error e ≡ true) ⊎ ((bs : Bytes) × (io_write c.calls bs ≡ err e))

  write_frame-raises :
      (f : Frame) (c : Connection) {bs : Bytes}
      → encode_frame f ≡ ok bs
      → Explained c (write_frame io_write f c).1
  unfolding write_frame
  write_frame-raises f c {bs = bs} encoded = rw (encoded, write_frame) (λ e h. inr (bs, h))

  handle_settings_frame-raises :
      (f : Frame) (c : Connection) → Explained c (handle_settings_frame io_write f c).1
  unfolding handle_settings_frame
  handle_settings_frame-raises f c = elim (Bool-cases (has_flag f.flags FrameFlag.ack)) [
    | inl ack ↦ λ e h. inl (ack_case ack e h)
    | inr other ↦ elim (Result-cases (settings_loop f.payload c.settings).1) [
      | inl (_, returns) ↦
          rw (other, returns, handle_settings_frame)
            (write_frame-raises settings_ack_frame
              (record c { settings = (settings_loop f.payload c.settings).0 }) ack_bytes)
      | inr (x, raises) ↦
          rw (other, raises, handle_settings_frame)
            (λ e h. inl (settings_loop-raises f.payload c.settings e (raises ∙ h)))
    ]
  ]
    where
      ack_case :
          has_flag f.flags FrameFlag.ack ≡ true
          → OnlyConnectionError (handle_settings_frame io_write f c).1
      ack_case ack e h = ground arith

  handle_ping_frame-raises :
      (f : Frame) (c : Connection) → Explained c (handle_ping_frame io_write f c).1
  unfolding handle_ping_frame
  handle_ping_frame-raises f c = elim (Bool-cases (has_flag f.flags FrameFlag.ack)) [
    | inl ack ↦ λ e h. absurd (nothing ack h)
    | inr other ↦ elim (Bool-cases (length f.payload == 8)) [
      | inl eight ↦
          rw (other, eight, handle_ping_frame)
            (write_frame-raises (control_frame FrameType.ping (flag_value FrameFlag.ack) f.payload)
              c
              (encode_frame-header _
                (pong-FitsHeader f.payload ((==_iff (length f.payload) 8).0 eight))))
      | inr size ↦ rw (other, size, handle_ping_frame) (λ e h. inl (connection_error-only _ _ e h))
    ]
  ]
    where
      nothing :
          has_flag f.flags FrameFlag.ack ≡ true
          → {e : Exn} → (handle_ping_frame io_write f c).1 ≢ err e
      nothing ack h = ground arith

  -- Where an exception of `handle_frame` comes from.
  abbrev pub Outcome : Frame → Connection → Exn → Type 0
  Outcome f c e =
      (is_connection_error e ≡ true)
      ⊎ ((bs : Bytes) × (io_write c.calls bs ≡ err e))
      ⊎ ((f.type ≡ FrameType.goaway) × (e ≡ Exn.stream_closed_error))

  widen :
      (f : Frame) (c : Connection) (e : Exn)
      → (is_connection_error e ≡ true) ⊎ ((bs : Bytes) × (io_write c.calls bs ≡ err e))
      → Outcome f c e
  widen f c e (inl conn) = inl conn
  widen f c e (inr wrote) = inr (inl wrote)

  -- On a connection whose window has no parent, `handle_frame` raises nothing but a `ConnectionError`,
  -- an exception of the `IOStream`'s write, or, for a GOAWAY frame, `StreamClosedError`: no payload,
  -- of whatever length or content, makes it raise anything else.
  pub handle_frame-raises :
      (f : Frame) (c : Connection)
      → c.window.owner ≡ none
      → (e : Exn) → (handle_frame io_write f c).1 ≡ err e
      → Outcome f c e
  unfolding handle_frame apply_window_update
  handle_frame-raises f c top e = by_type f.type refl
    where
      by_type : (t : FrameType) → f.type ≡ t → (handle_frame io_write f c).1 ≡ err e → Outcome f c e
      by_type FrameType.settings t h =
          let same : (handle_settings_frame io_write f c).1 ≡ (handle_frame io_write f c).1 =
            rw (t, handle_frame) refl in
          widen f c e (handle_settings_frame-raises f c e (same ∙ h))
      by_type FrameType.ping t h =
          let same : (handle_ping_frame io_write f c).1 ≡ (handle_frame io_write f c).1 =
            rw (t, handle_frame) refl in
          widen f c e (handle_ping_frame-raises f c e (same ∙ h))
      by_type FrameType.window_update t h =
          let same : (apply_window_update f c.window).1 ≡ (handle_frame io_write f c).1 =
            rw (t, handle_frame) refl in
          inl (apply_window_update-raises f c.window top e (same ∙ h))
      by_type FrameType.goaway t h =
          let raised : err Exn.stream_closed_error ≡ (handle_frame io_write f c).1 =
            rw (t, handle_frame) refl in
          inr (inr (t, err_lem (sym raised) h))
      by_type (FrameType.unknown n) t h =
          let returned : ok tt ≡ (handle_frame io_write f c).1 = rw (t, handle_frame) refl in
          absurd (cc (returned ∙ h))
      by_type _ t h =
          let only : (handle_frame io_write f c).1 ≡ err e → is_connection_error e ≡ true =
            rw (t, handle_frame) (connection_error-only _ _ e) in
          inl (only h)
