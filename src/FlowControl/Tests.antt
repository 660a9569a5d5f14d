-- ===== src/FlowControl/Tests.antt =====
-- flow_control.py: a run of one stream over its connection, and the theorems at it.
use tornado_http.Common.{
  ℕ, ◌+◌, ◌≤◌, ◌<◌, ◌≡◌, ◌≢◌, ◌↔◌, refl, arith, get_elem?, none, some, [], ◌∷◌, length, All,
}
use tornado_http.Constants.{FrameType}
use tornado_http.Errors.{ok}
use tornado_http.FlowControl.{new_window, offer, deduct, apply_window_update}
use tornado_http.FlowControl.Sharing.{
  Phase, Flow, System, Step, Reach, fresh, total_sent, consume_within_credit, granted-le-size,
}
use tornado_http.FlowControl.Progress.{Alone, updated, consume_goes_on}
use tornado_http.Struct.{from_bytes}
use tornado_http.FlowControl.Updates.{increment, apply_window_update_iff}
use tornado_http.Frames.{Frame}

-- The one stream, with the window, the phase and the bytes sent.
abbrev flow : ℕ → Phase → ℕ → Flow
flow size phase sent = record {
  own = new_window (some 1) size;
  phase = phase;
  credit = 10;
  sent = sent;
}

abbrev system : ℕ → Flow → System
system size f = record { conn = new_window none size; conn_credit = 6; flows = f ∷ [] }

-- A connection's window of 6 and a stream's of 10: `consume(30)` asks for 10 and is granted 6.
granted_run : Reach (fresh 6) (system 0 (flow 10 (Phase.granted 6) 0))
unfolding offer deduct
granted_run =
    Reach.next
      (Reach.next (Reach.next Reach.here (Step.opens 1 10))
        (Step.asks 0 30 10 (flow 10 Phase.idle 0) refl refl refl))
      (Step.grants 0 10 6 (flow 10 (Phase.asking 10) 0) refl refl refl)

finished_run : Reach (fresh 6) (system 0 (flow 4 Phase.idle 6))
unfolding deduct
finished_run = Reach.next granted_run (Step.returns 0 6 (flow 10 (Phase.granted 6) 0) refl refl)

consume_within_credit_example :
    All (λ f. f.sent ≤ f.credit) (flow 4 Phase.idle 6 ∷ [])
    × (total_sent (flow 4 Phase.idle 6 ∷ []) ≤ 6)
consume_within_credit_example =
    consume_within_credit 6 (system 0 (flow 4 Phase.idle 6)) finished_run

granted-le-size_example : 6 ≤ (flow 10 (Phase.granted 6) 0).own.size
granted-le-size_example =
    granted-le-size 6 (system 0 (flow 10 (Phase.granted 6) 0)) 0 6 (flow 10 (Phase.granted 6) 0)
      granted_run refl refl

-- An increment of 5 on a window of 65535.
abbrev update_frame : Frame
update_frame = record {
  type = FrameType.window_update;
  flags = 0;
  stream_id = 0;
  payload = 0 ∷ 0 ∷ 0 ∷ 5 ∷ [];
}

apply_window_update_iff_example :
    (apply_window_update update_frame (new_window none 65535)
      ≡ (new_window none (65535 + increment update_frame), ok tt))
    ↔ (length update_frame.payload ≡ 4)
      × (increment update_frame ≢ 0)
      × (65535 + increment update_frame ≤ 2147483647)
apply_window_update_iff_example = apply_window_update_iff update_frame (new_window none 65535)

consume_goes_on_example :
    (t : System) × (g : Flow) × (amount : ℕ) × Alone 0 30
      (updated (system 0 (flow 0 Phase.idle 10)) 0 (flow 0 Phase.idle 10) update_frame update_frame)
      t
    × (get_elem? t.flows 0 ≡ some g)
    × (g.phase ≡ Phase.idle)
    × (g.sent ≡ 10 + amount)
    × (amount ≡ 5)
    × (0 < amount)
unfolding from_bytes
consume_goes_on_example =
    consume_goes_on (system 0 (flow 0 Phase.idle 10)) 0 30 (flow 0 Phase.idle 10) update_frame
      update_frame refl refl (refl, refl) (omega arith) (omega arith, omega arith)
