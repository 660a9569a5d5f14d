-- ===== src/FlowControl/Updates.antt =====
-- flow_control.py: the outcome of a WINDOW_UPDATE frame on a window, case by case.
use tornado_http.Common.{
  ℕ, ◌+◌, ◌%◌, ◌^◌, ◌≤◌, ◌<◌, ◌≡◌, ◌≢◌, ◌↔◌, arith, ◌-◌, sym, ap, ◌∙◌, le_or_lt, ℕ_discrete, inl,
  inr, some, length, bit_and,
}
use tornado_http.Common.Bits.{bit_and-mask}
use tornado_http.Constants.{codes, ErrorCode, max_window_size}
use tornado_http.Errors.{Exn, Result, ok, err}
use tornado_http.FlowControl.{Window, window_error, apply_window_update}
use tornado_http.Frames.{Frame}
use tornado_http.Struct.{from_bytes}

-- The increment of a WINDOW_UPDATE payload: its low 31 bits.
abbrev pub increment : Frame → ℕ
increment f = from_bytes f.payload % 2 ^ 31

pub low_31_bits : (v : ℕ) → bit_and v 0x7fffffff ≡ v % 2 ^ 31
low_31_bits v = bit_and-mask 31 v

refused :
    {r : Window × Result (Unit {0})} {v u : Window} {e : Exn} → r ≡ (v, ok tt) → r ≢ (u, err e)
refused h h' = cc (ap (λ (p : Window × Result (Unit {0})). p.1) (sym h ∙ h'))

module _ (f : Frame) (w : Window) where
  pub apply_window_update_size :
      length f.payload ≢ 4
      → apply_window_update f w ≡ (
        w,
        err (
            Exn.connection_error ErrorCode.frame_size_error
              (some (codes "WINDOW_UPDATE incorrect size"))),
      )
  unfolding apply_window_update
  apply_window_update_size h = ground arith

  pub apply_window_update_zero :
      length f.payload ≡ 4
      → increment f ≡ 0
      → apply_window_update f w ≡ (
        w,
        err (window_error w ErrorCode.protocol_error (codes "window update must not be zero")),
      )
  unfolding apply_window_update
  apply_window_update_zero len z = ground (arith, low_31_bits (from_bytes f.payload))

  pub apply_window_update_overflow :
      length f.payload ≡ 4
      → increment f ≢ 0
      → max_window_size < w.size + increment f
      → apply_window_update f w ≡ (
        record w { size = w.size + increment f },
        err (window_error w ErrorCode.flow_control_error (codes "flow control window too large")),
      )
  unfolding apply_window_update
  apply_window_update_overflow len nz big = ground (arith, low_31_bits (from_bytes f.payload))

  pub apply_window_update_fits :
      length f.payload ≡ 4
      → increment f ≢ 0
      → w.size + increment f ≤ max_window_size
      → apply_window_update f w ≡ (record w { size = w.size + increment f }, ok tt)
  unfolding apply_window_update
  apply_window_update_fits len nz fits = ground (arith, low_31_bits (from_bytes f.payload))

  -- A WINDOW_UPDATE frame is taken, and adds its increment to the size, exactly where its payload has
  -- four bytes, the increment is not 0 and the new size is at most 2^31 - 1.
  pub apply_window_update_iff :
      (apply_window_update f w ≡ (record w { size = w.size + increment f }, ok tt))
      ↔ (length f.payload ≡ 4) × (increment f ≢ 0) × (w.size + increment f ≤ 2 ^ 31 - 1)
  apply_window_update_iff = (taken, λ (len, nz, fits). apply_window_update_fits len nz fits)
    where
      taken :
          apply_window_update f w ≡ (record w { size = w.size + increment f }, ok tt)
          → (length f.payload ≡ 4) × (increment f ≢ 0) × (w.size + increment f ≤ 2 ^ 31 - 1)
      taken h = elim (ℕ_discrete (length f.payload) 4) [
        | no size ↦ absurd (refused h (apply_window_update_size size))
        | yes len ↦ elim (ℕ_discrete (increment f) 0) [
          | yes z ↦ absurd (refused h (apply_window_update_zero len z))
          | no nz ↦ elim (le_or_lt (w.size + increment f) max_window_size) [
            | inl fits ↦ (len, nz, fits)
            | inr big ↦ absurd (refused h (apply_window_update_overflow len nz big))
          ]
        ]
      ]
