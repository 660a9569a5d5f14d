-- ===== src/FlowControl.antt =====
-- tornado_http2/flow_control.py: `Window`. A coroutine's run between two waits is one function.
pub mod Updates
pub mod Progress
pub mod Sharing
mod Tests
use tornado_http.Common.{
  ℕ, ◌+◌, ◌-◌, Bool, true, false, not, ◌&&◌, Option, none, some, List, ltb, ◌==◌, if◌then◌else◌,
  bit_and,
}
use tornado_http.Constants.{codes, ErrorCode, max_window_size}
use tornado_http.Errors.{Exn, Result, ok, err}
use tornado_http.Frames.{Frame}
use tornado_http.Struct.{unpack_field}

-- `owner` is `stream_id` where there is a parent, and `none` for the connection's window, whose
-- parent is `None`. The size never goes below 0 (FlowControl/Sharing).
pub record Window : Type 0 where
  pub owner : Option ℕ
  pub closed : Bool
  pub size : ℕ

-- `Window(parent, stream_id, initial_window_size)`
abbrev pub new_window : Option ℕ → ℕ → Window
new_window owner initial_window_size = record {
  owner = owner;
  closed = false;
  size = initial_window_size;
}

unfoldable pub close : Window → Window
close w = record w { closed = true }

-- `_raise_error`
abbrev pub window_error : Window → ErrorCode → List ℕ → Exn
window_error w code message = elim w.owner [
  | none ↦ Exn.connection_error code (some message)
  | some stream_id ↦ Exn.stream_error stream_id code
]

-- The new size stays when it is too large.
unfoldable pub adjust : ℕ → Window → Window × Result (Unit {0})
adjust amount w =
    let w' = record w { size = w.size + amount } in
    if ltb max_window_size w'.size
    then (
      w',
      err (window_error w ErrorCode.flow_control_error (codes "flow control window too large")),
    )
    else (w', ok tt)

unfoldable pub apply_window_update : Frame → Window → Window × Result (Unit {0})
unfolding adjust unpack_field
apply_window_update f w = elim (unpack_field 4 f.payload) [
  | err e ↦ (
    w,
    err (
        Exn.connection_error ErrorCode.frame_size_error
          (some (codes "WINDOW_UPDATE incorrect size"))),
  )
  | ok raw ↦
      let window_update = bit_and raw 0x7fffffff in
      if window_update == 0
      then (
        w,
        err (window_error w ErrorCode.protocol_error (codes "window update must not be zero")),
      )
      else adjust window_update w
]

-- What a coroutine in `consume` does when it runs: it waits on the condition, raises, or goes on with
-- an amount.
pub data Turn : Type 0 where
  waits : Turn
  raises : Exn → Turn
  takes : ℕ → Turn

-- `while not self.closed and self.size <= 0`, the test after it, and the cut to the size.
unfoldable pub offer : Window → ℕ → Turn
offer w amount =
    if not w.closed && (w.size == 0)
    then Turn.waits
    else if w.closed
    then Turn.raises Exn.stream_closed_error
    else Turn.takes (if ltb w.size amount then w.size else amount)

-- `self.size -= amount`
unfoldable pub deduct : ℕ → Window → Window
deduct amount w = record w { size = w.size - amount }
