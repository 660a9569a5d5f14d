-- ===== src/Connection/SettingsBounds.antt =====
-- connection.py: the values of the settings that the peer can set stay in their bounds.
use tornado_http.Common.{
  ℕ, ◌-◌, ◌^◌, ◌≤◌, ◌≡◌, refl, ◌⊎◌, sym, ◌∙◌, subst, inl, inr, arith, Bool, Bool-cases,
  Option-cases, ==_iff, tests, some, List, [], ◌∷◌, ◌==◌, if◌then◌else◌, Dict, dict_get, dict_set,
}
use mathlib.Core.Option.{some-injective}
use tornado_http.Connection.Handlers.{
  Call, Connection, new_connection, setting, control_frame, settings_ack_frame, check_setting,
  settings_loop, write_frame, handle_settings_frame, handle_ping_frame, handle_frame,
}
use tornado_http.Constants.{
  FrameType, FrameFlag, flag_value, has_flag, Setting, setting_code, setting_default,
}
use tornado_http.Errors.{Exn, Result, ok, err, Result-cases}
use tornado_http.Frames.{Frame}
use tornado_http.Hpack.Table.{Bytes}
use tornado_http.Struct.{from_bytes}

-- What RFC 7540 (6.5.2) asks of a value: of ENABLE_PUSH, INITIAL_WINDOW_SIZE and MAX_FRAME_SIZE.
abbrev pub IsLegal : ℕ → ℕ → Type 0
IsLegal code value =
    (code ≡ 2 → value ≤ 1)
    × (code ≡ 4 → value ≤ 2 ^ 31 - 1)
    × (code ≡ 5 → (2 ^ 14 ≤ value) × (value ≤ 2 ^ 24 - 1))

pub check_setting-IsLegal : (code value : ℕ) → check_setting code value ≡ ok tt → IsLegal code value
unfolding check_setting
check_setting-IsLegal code value h = (λ e. ground arith, λ e. ground arith, λ e. ground arith)

pub IsLegal-check_setting : (code value : ℕ) → IsLegal code value → check_setting code value ≡ ok tt
unfolding check_setting
IsLegal-check_setting code value (push, window, frame) = grind (arith, tests, push, window, frame)

abbrev pub Bounded : Dict ℕ ℕ → Type 0
Bounded d = (code value : ℕ) → dict_get (◌==◌) code d ≡ some value → IsLegal code value

dict_get-dict_set :
    (j value : ℕ) (d : Dict ℕ ℕ) (k : ℕ)
    → dict_get (◌==◌) k (dict_set (◌==◌) j value d)
      ≡ (if k == j then some value else dict_get (◌==◌) k d)
unfolding dict_set dict_get
dict_get-dict_set j value [] k = ground arith
dict_get-dict_set j value ((i, w) ∷ d) k = ground (arith, dict_get-dict_set j value d k)

dict_set-Bounded :
    (j value : ℕ) (d : Dict ℕ ℕ) → IsLegal j value → Bounded d → Bounded (dict_set (◌==◌) j value d)
dict_set-Bounded j value d legal b k v h = elim (Bool-cases (k == j)) [
  | inl same ↦
      let e : k ≡ j = (==_iff k j).0 same in
      let found : some value ≡ some v = sym (dict_get-dict_set j value d k ∙ rw same refl) ∙ h in
      subst (λ u. IsLegal k u) (some-injective value v found)
        (subst (λ u. IsLegal u value) (sym e) legal)
  | inr other ↦ b k v (sym (dict_get-dict_set j value d k ∙ rw other refl) ∙ h)
]

-- One round on a setting that passes its check, and on one that does not.
module _ (c1 c0 v3 v2 v1 v0 : ℕ) (rest : Bytes) (d : Dict ℕ ℕ) where
  pub settings_loop-ok :
      check_setting (from_bytes (c1 ∷ c0 ∷ [])) (from_bytes (v3 ∷ v2 ∷ v1 ∷ v0 ∷ [])) ≡ ok tt
      → settings_loop (c1 ∷ c0 ∷ v3 ∷ v2 ∷ v1 ∷ v0 ∷ rest) d
        ≡ settings_loop rest
            (dict_set (◌==◌) (from_bytes (c1 ∷ c0 ∷ [])) (from_bytes (v3 ∷ v2 ∷ v1 ∷ v0 ∷ [])) d)
  unfolding settings_loop
  settings_loop-ok h = rw (h, settings_loop) refl

  pub settings_loop-err :
      {e : Exn}
      → check_setting (from_bytes (c1 ∷ c0 ∷ [])) (from_bytes (v3 ∷ v2 ∷ v1 ∷ v0 ∷ [])) ≡ err e
      → settings_loop (c1 ∷ c0 ∷ v3 ∷ v2 ∷ v1 ∷ v0 ∷ rest) d ≡ (d, err e)
  unfolding settings_loop
  settings_loop-err h = rw (h, settings_loop) refl

settings_loop-Bounded :
    (payload : Bytes) (d : Dict ℕ ℕ) → Bounded d → Bounded (settings_loop payload d).0
settings_loop-Bounded [] d b = unfold settings_loop in b
settings_loop-Bounded (c1 ∷ c0 ∷ v3 ∷ v2 ∷ v1 ∷ v0 ∷ rest) d b =
    let code = from_bytes (c1 ∷ c0 ∷ []) in
    let value = from_bytes (v3 ∷ v2 ∷ v1 ∷ v0 ∷ []) in
    elim (Result-cases (check_setting code value)) [
      | inl (_, legal) ↦
          subst (λ r. Bounded r.0) (sym (settings_loop-ok c1 c0 v3 v2 v1 v0 rest d legal))
            (settings_loop-Bounded rest (dict_set (◌==◌) code value d)
              (dict_set-Bounded code value d (check_setting-IsLegal code value legal) b))
      | inr (e, refused) ↦
          subst (λ r. Bounded r.0) (sym (settings_loop-err c1 c0 v3 v2 v1 v0 rest d refused)) b
    ]
settings_loop-Bounded _ d b = unfold settings_loop in b

-- A setting whose default is legal has a legal value.
setting_default-IsLegal :
    (c : Connection) (s : Setting) {n : ℕ}
    → setting_default s ≡ some n
    → IsLegal (setting_code s) n
    → Bounded c.settings
    → (v : ℕ) × (setting c s ≡ some v) × IsLegal (setting_code s) v
unfolding setting
setting_default-IsLegal c s {n = n} default legal b =
    elim (Option-cases (dict_get (◌==◌) (setting_code s) c.settings)) [
      | inl missing ↦ (n, rw (missing, setting) default, legal)
      | inr (v, found) ↦ (v, rw (found, setting) refl, b (setting_code s) v found)
    ]

module _ (io_write : List Call → Bytes → Result (Unit {0})) where
  write_frame-settings :
      (f : Frame) (c : Connection) → (write_frame io_write f c).0.settings ≡ c.settings
  unfolding write_frame
  write_frame-settings f c = ground arith

  handle_settings_frame-settings :
      (f : Frame) (c : Connection)
      → ((handle_settings_frame io_write f c).0.settings ≡ c.settings)
        ⊎ ((handle_settings_frame io_write f c).0.settings ≡ (settings_loop f.payload c.settings).0)
  unfolding handle_settings_frame
  handle_settings_frame-settings f c = elim (Bool-cases (has_flag f.flags FrameFlag.ack)) [
    | inl ack ↦ inl rw (ack, handle_settings_frame) refl
    | inr other ↦ inr (elim (Result-cases (settings_loop f.payload c.settings).1) [
      | inl (_, returns) ↦
          rw (other, returns, handle_settings_frame)
            (write_frame-settings settings_ack_frame
              (record c { settings = (settings_loop f.payload c.settings).0 }))
      | inr (e, raises) ↦ rw (other, raises, handle_settings_frame) refl
    ])
  ]

  handle_ping_frame-settings :
      (f : Frame) (c : Connection) → (handle_ping_frame io_write f c).0.settings ≡ c.settings
  unfolding handle_ping_frame
  handle_ping_frame-settings f c = ground (
    arith,
    write_frame-settings (control_frame FrameType.ping (flag_value FrameFlag.ack) f.payload) c,
  )

  handle_frame-settings :
      (f : Frame) (c : Connection)
      → ((handle_frame io_write f c).0.settings ≡ c.settings)
        ⊎ ((handle_frame io_write f c).0.settings ≡ (settings_loop f.payload c.settings).0)
  unfolding handle_frame
  handle_frame-settings f c = by_type f.type refl
    where
      by_type :
          (t : FrameType)
          → f.type ≡ t
          → ((handle_frame io_write f c).0.settings ≡ c.settings)
            ⊎ ((handle_frame io_write f c).0.settings ≡ (settings_loop f.payload c.settings).0)
      by_type FrameType.settings e = rw (e, handle_frame) (handle_settings_frame-settings f c)
      by_type FrameType.ping e = inl (rw (e, handle_frame) (handle_ping_frame-settings f c))
      by_type FrameType.window_update e = inl (rw (e, handle_frame) refl)
      by_type _ e = inl (rw (e, handle_frame) refl)

  -- Whatever a frame of stream 0 holds, and whether its handler returns or raises, the values in
  -- `_settings` stay legal, if they were.
  pub handle_frame-Bounded :
      (f : Frame) (c : Connection)
      → Bounded c.settings
      → Bounded (handle_frame io_write f c).0.settings
  handle_frame-Bounded f c b = elim (handle_frame-settings f c) [
    | inl same ↦ subst Bounded (sym same) b
    | inr read ↦ subst Bounded (sym read) (settings_loop-Bounded f.payload c.settings b)
  ]

  -- A connection that has been started and has handled frames of stream 0, each of which may have made
  -- its handler raise.
  pub data Reachable : Connection → Type 0 where
    starts : (is_client : Bool) → Reachable (new_connection is_client)
    handles : {c : Connection} (f : Frame) → Reachable c → Reachable (handle_frame io_write f c).0

  Reachable-Bounded : {c : Connection} → Reachable c → Bounded c.settings
  Reachable-Bounded (starts is_client) =
      λ code value h. absurd (unfold new_connection dict_get in cc)
  Reachable-Bounded (handles {c = c} f r) = handle_frame-Bounded f c (Reachable-Bounded r)

  -- Whatever frames of stream 0 a connection has handled, the value that `_read_frame` takes for the
  -- largest payload exists and is between 2^14 and 2^24 - 1, and the values of ENABLE_PUSH and
  -- INITIAL_WINDOW_SIZE exist and are at most 1 and 2^31 - 1.
  pub setting-IsLegal :
      (c : Connection)
      → Reachable c
      → ((v : ℕ) × (setting c Setting.max_frame_size ≡ some v) × (2 ^ 14 ≤ v) × (v ≤ 2 ^ 24 - 1))
        × ((v : ℕ) × (setting c Setting.enable_push ≡ some v) × (v ≤ 1))
        × ((v : ℕ) × (setting c Setting.initial_window_size ≡ some v) × (v ≤ 2 ^ 31 - 1))
  setting-IsLegal c r =
      let b = Reachable-Bounded r in
      let (frame, e, legal) =
        setting_default-IsLegal c Setting.max_frame_size refl
          (λ e. absurd (omega arith), λ e. absurd (omega arith), λ e. (omega arith, omega arith))
          b in
      let (push, e', legal') =
        setting_default-IsLegal c Setting.enable_push refl
          (λ e. omega arith, λ e. absurd (omega arith), λ e. absurd (omega arith)) b in
      let (window, e'', legal'') =
        setting_default-IsLegal c Setting.initial_window_size refl
          (λ e. absurd (omega arith), λ e. omega arith, λ e. absurd (omega arith)) b in
      (
        (frame, e, (legal.2 refl).0, (legal.2 refl).1),
        (push, e', legal'.0 refl),
        (window, e'', legal''.1 refl),
      )
