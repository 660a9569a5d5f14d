-- ===== src/FlowControl/Progress.antt =====
-- flow_control.py: a stream that waits for its window and its connection's goes on once both are opened.
use tornado_http.Common.{
  ℕ, zero, suc, ◌+◌, ◌≤◌, ◌<◌, ◌≡◌, refl, ◌∙◌, arith, false, some, List, [], ◌∷◌, get_elem?, set,
  ltb, if◌then◌else◌, min,
}
use tornado_http.FlowControl.{Window, Turn, offer, deduct, apply_window_update}
use tornado_http.FlowControl.Sharing.{
  Phase, Flow, System, Step, credited, put, apply_window_update_credits,
}
use tornado_http.Frames.{Frame}

get_elem?-set :
    (fs : List Flow) (i : ℕ) (f g : Flow)
    → get_elem? fs i ≡ some f
    → get_elem? (set fs i g) i ≡ some g
get_elem?-set [] i f g h = absurd (cc h)
get_elem?-set (x ∷ fs) zero f g h = refl
get_elem?-set (x ∷ fs) (suc i) f g h = get_elem?-set fs i f g h

apply_window_update-closed :
    (frame : Frame) (w : Window) → (apply_window_update frame w).0.closed ≡ w.closed
unfolding apply_window_update
apply_window_update-closed frame w = ground arith

abbrev share : Window → ℕ → ℕ
share w want = if ltb w.size want then w.size else want

offer_open :
    (w : Window) (want : ℕ)
    → w.closed ≡ false
    → 0 < w.size
    → offer w want ≡ Turn.takes (share w want)
unfolding offer
offer_open w want alive size = ground arith

share-min :
    (own conn : Window) (want size size' : ℕ)
    → own.size ≡ size
    → conn.size ≡ size'
    → share conn (share own want) ≡ min want (min size size')
share-min own conn want size size' e e' = ground arith

share_positive :
    (w : Window) (want : ℕ) → 0 < w.size → 0 < want → (0 < share w want) × (share w want ≤ want)
share_positive w want size h = ground arith

opened :
    (frame : Frame) (w : Window) (want : ℕ)
    → w.closed ≡ false
    → 0 < credited frame
    → 0 < want
    → (offer (apply_window_update frame w).0 want
        ≡ Turn.takes (share (apply_window_update frame w).0 want))
      × (0 < share (apply_window_update frame w).0 want)
      × (share (apply_window_update frame w).0 want ≤ want)
opened frame w want alive increment h =
    let w' : Window = (apply_window_update frame w).0 in
    let size : 0 < w'.size = omega (arith, apply_window_update_credits frame w) in
    (
      offer_open w' want (apply_window_update-closed frame w ∙ alive) size,
      (share_positive w' want size h).0,
      (share_positive w' want size h).1,
    )

-- The two WINDOW_UPDATE frames that a stream waits for, on its own window and on its connection's.
abbrev pub updated : System → ℕ → Flow → Frame → Frame → System
updated s i f for_stream for_conn = record {
  conn = (apply_window_update for_conn s.conn).0;
  conn_credit = s.conn_credit + credited for_conn;
  flows = set s.flows i (record f {
    own = (apply_window_update for_stream f.own).0;
    credit = f.credit + credited for_stream;
  });
}

-- A step of the coroutine of stream `i`, in `consume(want)`.
abbrev pub IsOwn : (i want : ℕ) {s t : System} → Step s t → Type 0
IsOwn i want (Step.asks j want' amount f at idle takes) = (j ≡ i) × (want' ≡ want)
IsOwn i want (Step.grants j want' amount f at asking takes) = j ≡ i
IsOwn i want (Step.returns j amount f at granted) = j ≡ i
IsOwn i want (Step.opens stream_id initial) = ⊥
IsOwn i want (Step.stream_update j frame f at) = ⊥
IsOwn i want (Step.conn_update frame) = ⊥

-- Steps of that coroutine alone.
pub data Alone (i want : ℕ) (s : System) : System → Type 0 where
  stays : Alone i want s s
  goes_on :
      {t u : System} → Alone i want s t → (step : Step t u) → IsOwn i want step → Alone i want s u

pub consume_goes_on :
    (s : System) (i want : ℕ) (f : Flow) (for_stream for_conn : Frame)
    → get_elem? s.flows i ≡ some f
    → f.phase ≡ Phase.idle
    → (f.own.closed ≡ false) × (s.conn.closed ≡ false)
    → 0 < want
    → (0 < credited for_stream) × (0 < credited for_conn)
    → (t : System) × (g : Flow) × (amount : ℕ) × Alone i want (updated s i f for_stream for_conn) t
      × (get_elem? t.flows i ≡ some g)
      × (g.phase ≡ Phase.idle)
      × (g.sent ≡ f.sent + amount)
      × (amount
          ≡ min want (min (f.own.size + credited for_stream) (s.conn.size + credited for_conn)))
      × (0 < amount)
consume_goes_on s i want f for_stream for_conn at is_idle (alive, alive') h
      (increment, increment') =
    let s2 : System = updated s i f for_stream for_conn in
    let f1 : Flow = record f {
      own = (apply_window_update for_stream f.own).0;
      credit = f.credit + credited for_stream;
    } in
    let (let_go, some_asked, _) = opened for_stream f.own want alive increment h in
    let asked : ℕ = share f1.own want in
    let f2 : Flow = record f1 { phase = Phase.asking asked } in
    let s3 : System = put s2 i f2 in
    let (granting, some_granted, _) = opened for_conn s.conn asked alive' increment' some_asked in
    let amount : ℕ = share s2.conn asked in
    let f3 : Flow = record f2 { phase = Phase.granted amount } in
    let s4 : System = record s3 { conn = deduct amount s3.conn; flows = set s3.flows i f3 } in
    let f4 : Flow = record f3 {
      own = deduct amount f3.own;
      phase = Phase.idle;
      sent = f3.sent + amount;
    } in
    let at1 = get_elem?-set s.flows i f f1 at in
    let at2 = get_elem?-set s2.flows i f1 f2 at1 in
    let at3 = get_elem?-set s3.flows i f2 f3 at2 in
    let run =
      Alone.goes_on
        (Alone.goes_on
          (Alone.goes_on Alone.stays (Step.asks i want asked f1 at1 is_idle let_go) (refl, refl))
          (Step.grants i asked amount f2 at2 refl granting) refl)
        (Step.returns i amount f3 at3 refl) refl in
    (
      put s4 i f4,
      f4,
      amount,
      run,
      get_elem?-set s4.flows i f3 f4 at3,
      refl,
      refl,
      share-min f1.own s2.conn want _ _ (apply_window_update_credits for_stream f.own)
          (apply_window_update_credits for_conn s.conn),
      some_granted,
    )
