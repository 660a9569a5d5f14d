-- ===== src/FlowControl/Sharing.antt =====
-- flow_control.py: many streams, each with its window, over the window of their connection. A step is
-- a run of one coroutine between two waits of `consume`, in any order, or an event from outside.
use tornado_http.Common.{
  ℕ, zero, suc, ◌+◌, ◌≤◌, ◌≡◌, refl, arith, none, some, List, [], ◌∷◌, ◌++◌, length, get_elem?, set,
  All, All-set, All-get_elem?, All-append, ◌==◌, if◌then◌else◌,
}
use tornado_http.FlowControl.{Window, new_window, Turn, offer, deduct, apply_window_update}
use tornado_http.FlowControl.Updates.{increment, low_31_bits}
use tornado_http.Frames.{Frame}
use tornado_http.Struct.{from_bytes}

-- Where a stream's `consume` is: not running, in `self.parent.consume(amount)`, or back from it with
-- the amount granted and not yet taken off its own window.
pub data Phase : Type 0 where
  idle : Phase
  asking granted : ℕ → Phase

-- A stream's window and phase; `credit` and `sent` are for the proof: the initial size with the
-- increments received, and the bytes that `consume` has returned.
pub record Flow : Type 0 where
  pub own : Window
  pub phase : Phase
  pub credit : ℕ
  pub sent : ℕ

pub record System : Type 0 where
  pub conn : Window
  pub conn_credit : ℕ
  pub flows : List Flow

-- The increment of a WINDOW_UPDATE of the right size.
abbrev pub credited : Frame → ℕ
credited f = if length f.payload == 4 then increment f else 0

abbrev pub put : System → ℕ → Flow → System
put s i f = record s { flows = set s.flows i f }

-- Nothing in the code calls `Window.close`, so that no `consume` raises.
pub data Step (s : System) : System → Type 0 where
  -- `Stream.__init__` makes a window.
  opens :
      (stream_id initial : ℕ)
      → Step s (record s {
        flows =
            s.flows
            ++ (record {
              own = new_window (some stream_id) initial;
              phase = idle;
              credit = initial;
              sent = 0;
            }
                ∷ []);
      })
  -- The stream's own window lets `amount` of the bytes that it wants through to the parent.
  asks :
      (i want amount : ℕ) (f : Flow)
      → get_elem? s.flows i ≡ some f
      → f.phase ≡ idle
      → offer f.own want ≡ Turn.takes amount
      → Step s (put s i (record f { phase = asking amount }))
  -- The connection's window grants part of it, and takes that off at once.
  grants :
      (i want amount : ℕ) (f : Flow)
      → get_elem? s.flows i ≡ some f
      → f.phase ≡ asking want
      → offer s.conn want ≡ Turn.takes amount
      → Step s (record s {
        conn = deduct amount s.conn;
        flows = set s.flows i (record f { phase = granted amount });
      })
  -- The stream's coroutine goes on, takes the amount off its own window and returns it.
  returns :
      (i amount : ℕ) (f : Flow)
      → get_elem? s.flows i ≡ some f
      → f.phase ≡ granted amount
      → Step s
          (put s i (record f { own = deduct amount f.own; phase = idle; sent = f.sent + amount }))
  -- WINDOW_UPDATE frames, refused ones too.
  stream_update :
      (i : ℕ) (frame : Frame) (f : Flow)
      → get_elem? s.flows i ≡ some f
      → Step s (
          put s i (record f {
            own = (apply_window_update frame f.own).0;
            credit = f.credit + credited frame;
          }))
  conn_update :
      (frame : Frame)
      → Step s (record s {
        conn = (apply_window_update frame s.conn).0;
        conn_credit = s.conn_credit + credited frame;
      })

pub data Reach (s : System) : System → Type 0 where
  here : Reach s s
  next : {t u : System} → Reach s t → Step t u → Reach s u

-- What a stream has been promised of its own window, and of the connection's.
abbrev reserved : Phase → ℕ
reserved idle = 0
reserved (asking amount) = amount
reserved (granted amount) = amount

abbrev pub used : Flow → ℕ
used f = f.sent + elim f.phase [ idle ↦ 0 | asking _ ↦ 0 | granted amount ↦ amount ]

abbrev pub total : List Flow → ℕ
total [] = 0
total (f ∷ fs) = used f + total fs

-- The books of one stream, and of all.
abbrev IsBalanced : Flow → Type 0
IsBalanced f = (f.own.size + f.sent ≡ f.credit) × (reserved f.phase ≤ f.own.size)

pub record IsSound (s : System) : Type 0 where
  pub each : All IsBalanced s.flows
  pub shared : s.conn.size + total s.flows ≡ s.conn_credit

total-set :
    (fs : List Flow) (i : ℕ) {f : Flow} (g : Flow)
    → get_elem? fs i ≡ some f
    → total (set fs i g) + used f ≡ total fs + used g
total-set [] i g e = cc
total-set (x ∷ fs) zero g e = ground arith
total-set (x ∷ fs) (suc i) g e = omega (arith, total-set fs i g e)

total-append : (fs gs : List Flow) → total (fs ++ gs) ≡ total fs + total gs
total-append [] gs = omega arith
total-append (f ∷ fs) gs = omega (arith, total-append fs gs)

-- `consume` goes on with at most what it was asked and what the window holds.
pub offer_takes :
    (w : Window) (want amount : ℕ)
    → offer w want ≡ Turn.takes amount
    → (amount ≤ want) × (amount ≤ w.size)
unfolding offer
offer_takes w want amount h = ground arith

pub apply_window_update_credits :
    (frame : Frame) (w : Window) → (apply_window_update frame w).0.size ≡ w.size + credited frame
unfolding apply_window_update
apply_window_update_credits frame w = ground (arith, low_31_bits (from_bytes frame.payload))

-- A stream's entry is rewritten to one that is balanced and has used the same of the connection.
put-IsSound :
    (s : System) (i : ℕ) (f g : Flow)
    → IsSound s
    → get_elem? s.flows i ≡ some f
    → (IsBalanced f → IsBalanced g)
    → used g ≡ used f
    → IsSound (put s i g)
put-IsSound s i f g h at keep same = record {
  each =
      All-set IsBalanced s.flows i g h.each (keep (All-get_elem? IsBalanced s.flows i h.each at));
  shared = omega (arith, h.shared, total-set s.flows i g at);
}

Step-IsSound : {s t : System} → Step s t → IsSound s → IsSound t
unfolding deduct
Step-IsSound {s} (opens stream_id initial) h = record {
  each = All-append IsBalanced s.flows _ h.each ((omega arith, omega arith), tt);
  shared = omega (
    arith,
    h.shared,
    total-append s.flows (
        record {
          own = new_window (some stream_id) initial;
          phase = idle;
          credit = initial;
          sent = 0;
        }
        ∷ []),
  );
}
Step-IsSound {s} (asks i want amount f at ph o) h =
    put-IsSound s i f _ h at (λ b. ground (arith, offer_takes f.own want amount o)) (ground arith)
Step-IsSound {s} (grants i want amount f at ph o) h =
    let g : Flow = record f { phase = granted amount } in
    let before : used f ≡ f.sent = ground arith in
    let (le_want, le_size) = offer_takes s.conn want amount o in
    let own : IsBalanced f = All-get_elem? IsBalanced s.flows i h.each at in
    record {
      each = All-set IsBalanced s.flows i g h.each (ground arith);
      shared = omega (arith, h.shared, total-set s.flows i g at, before);
    }
Step-IsSound {s} (returns i amount f at ph) h =
    put-IsSound s i f _ h at (λ b. ground arith) (ground arith)
Step-IsSound {s} (stream_update i frame f at) h =
    put-IsSound s i f _ h at (λ b. ground (arith, apply_window_update_credits frame f.own)) refl
Step-IsSound {s} (conn_update frame) h = record {
  each = h.each;
  shared = omega (arith, h.shared, apply_window_update_credits frame s.conn);
}

Reach-IsSound : {s t : System} → IsSound s → Reach s t → IsSound t
Reach-IsSound h here = h
Reach-IsSound h (next r st) = Step-IsSound st (Reach-IsSound h r)

-- A connection that has no stream yet.
abbrev pub fresh : ℕ → System
fresh initial = record { conn = new_window none initial; conn_credit = initial; flows = [] }

abbrev pub total_sent : List Flow → ℕ
total_sent [] = 0
total_sent (f ∷ fs) = f.sent + total_sent fs

total_sent-le : (fs : List Flow) → total_sent fs ≤ total fs
total_sent-le [] = omega arith
total_sent-le (f ∷ fs) = ground (arith, total_sent-le fs)

sent-le-credit : (fs : List Flow) → All IsBalanced fs → All (λ f. f.sent ≤ f.credit) fs
sent-le-credit [] h = tt
sent-le-credit (f ∷ fs) h = (omega (arith, h.0), sent-le-credit fs h.1)

-- However the coroutines of the streams and the WINDOW_UPDATE frames interleave, from a connection
-- without streams, `consume` never returns more bytes to a stream than its window was given, nor more
-- to all streams than the connection's window was given.
pub consume_within_credit :
    (initial : ℕ) (t : System)
    → Reach (fresh initial) t
    → All (λ f. f.sent ≤ f.credit) t.flows × (total_sent t.flows ≤ t.conn_credit)
consume_within_credit initial t r =
    let h : IsSound t = Reach-IsSound (record { each = tt; shared = omega arith }) r in
    (sent-le-credit t.flows h.each, omega (arith, h.shared, total_sent-le t.flows))

-- In every state that a connection without streams can reach, an amount that the connection's window has
-- granted to a stream is at most the size of the stream's window: the deduction that follows does not
-- take the size below 0.
pub granted-le-size :
    (initial : ℕ) (t : System) (i amount : ℕ) (f : Flow)
    → Reach (fresh initial) t
    → get_elem? t.flows i ≡ some f
    → f.phase ≡ granted amount
    → amount ≤ f.own.size
granted-le-size initial t i amount f r at ph =
    let h : IsSound t = Reach-IsSound (record { each = tt; shared = omega arith }) r in
    let b : IsBalanced f = All-get_elem? IsBalanced t.flows i h.each at in ground arith
