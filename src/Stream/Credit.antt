-- ===== src/Stream/Credit.antt =====
-- stream.py: the credit that `_send_window_update` gives, on the wire and in the peer's windows.
use tornado_http.Common.{
  ℕ, ◌+◌, ◌%◌, ◌^◌, ◌≤◌, ◌<◌, ◌≡◌, refl, sym, ap, ◌∙◌, arith, Bool, List, [], ◌∷◌, ◌++◌, length,
  lt→ltb,
}
use native.Mathlib.Nat.{mod-eq_of_lt}
use tornado_http.Connection.Handlers.{Call, write, Connection}
use tornado_http.Connection.Replies.{bytes_of, write_frame-encoded}
use tornado_http.Connection.Wire.{encode_frame, read_frame}
use tornado_http.Connection.WireRoundTrip.{ReadsExactly, FitsHeader, read_frame-encode_frame}
use tornado_http.Constants.{FrameType, max_window_size}
use tornado_http.Errors.{Result, ok}
use tornado_http.FlowControl.{Window, apply_window_update}
use tornado_http.FlowControl.Updates.{increment, apply_window_update_fits}
use tornado_http.Frames.{Frame}
use tornado_http.Hpack.Table.{Bytes}
use tornado_http.Stream.{DelegateCall, World, and_then, write_on, send_window_update}
use tornado_http.Struct.{
  pack_field, pack_field_fits, to_bytes, length-to_bytes, from_bytes-to_bytes,
}

-- The frame that gives `amount` on a stream.
abbrev credit_frame : ℕ → ℕ → Frame
credit_frame amount stream_id = record {
  type = FrameType.window_update;
  flags = 0;
  stream_id = stream_id;
  payload = to_bytes 4 amount;
}

-- The same in bytes.
abbrev pub credit_wire : ℕ → ℕ → Bytes
credit_wire amount stream_id = 0 ∷ 0 ∷ 4 ∷ 0x8 ∷ 0 ∷ (to_bytes 4 stream_id ++ to_bytes 4 amount)

credit_bytes :
    (amount stream_id : ℕ)
    → stream_id < 2 ^ 31
    → encode_frame (credit_frame amount stream_id) ≡ ok (credit_wire amount stream_id)
unfolding encode_frame pack_field to_bytes
credit_bytes amount stream_id h = rw (lt→ltb stream_id (2 ^ 31) h) refl

credit_frame-FitsHeader :
    (amount stream_id : ℕ) → stream_id < 2 ^ 31 → FitsHeader (credit_frame amount stream_id)
credit_frame-FitsHeader amount stream_id h = record {
  known = λ n e. cc;
  size = omega (arith, length-to_bytes 4 amount);
  flags_byte = omega arith;
  id_bits = h;
}

increment-credit_frame :
    (amount stream_id : ℕ) → amount < 2 ^ 31 → increment (credit_frame amount stream_id) ≡ amount
increment-credit_frame amount stream_id h =
    ap (λ (n : ℕ). n % 2 ^ 31) (from_bytes-to_bytes 4 amount (omega arith)) ∙ mod-eq_of_lt h

apply_window_update-credit_frame :
    (amount stream_id : ℕ) (peer : Window)
    → 0 < amount
    → amount < 2 ^ 31
    → peer.size + amount ≤ max_window_size
    → apply_window_update (credit_frame amount stream_id) peer
      ≡ (record peer { size = peer.size + amount }, ok tt)
apply_window_update-credit_frame amount stream_id peer lo hi fits =
    let same = increment-credit_frame amount stream_id hi in
    apply_window_update_fits (credit_frame amount stream_id) peer (length-to_bytes 4 amount)
      (λ z. absurd (omega (arith, same))) (omega (arith, same))
    ∙ ap (λ (n : ℕ). (record peer { size = peer.size + n }, ok tt)) same

-- The world with one more write.
abbrev pub wrote : Bytes → World → World
wrote bs w = record w { conn = record w.conn { calls = w.conn.calls ++ (write bs ∷ []) } }

module _ (io_write : List Call → Bytes → Result (Unit {0}))
    (accepts : (calls : List Call) (bs : Bytes) → io_write calls bs ≡ ok tt)
    (returns_none : List DelegateCall → Bytes → Bool) where
  write_on-accepts :
      (f : Frame) (w : World) {bs : Bytes}
      → encode_frame f ≡ ok bs
      → write_on io_write returns_none f w ≡ (wrote bs w, ok tt)
  unfolding write_on
  write_on-accepts f w {bs = bs} e =
      ap (λ (r : Connection × Result (Unit {0})). (record w { conn = r.0 }, r.1))
        (write_frame-encoded io_write f w.conn e)
      ∙ ap (λ r. (wrote bs w, r)) (accepts w.conn.calls bs)

  send_window_update-writes :
      (amount : ℕ) (w : World) {bs cs : Bytes}
      → amount < 2 ^ 31
      → encode_frame (credit_frame amount 0) ≡ ok bs
      → encode_frame (credit_frame amount w.stream.stream_id) ≡ ok cs
      → send_window_update io_write returns_none amount w ≡ (wrote cs (wrote bs w), ok tt)
  unfolding send_window_update
  send_window_update-writes amount w {bs = bs} {cs = cs} hi e e' =
      let own : World → World × Result (Unit {0}) =
        λ w'. write_on io_write returns_none (credit_frame amount w'.stream.stream_id) w' in
      let opened : send_window_update io_write returns_none amount w
          ≡ and_then (write_on io_write returns_none (credit_frame amount 0) w) own =
        rw (pack_field_fits 4 (2 ^ 32) amount (omega arith), send_window_update) refl in
      opened
      ∙ ap (λ r. and_then r own) (write_on-accepts (credit_frame amount 0) w e)
      ∙ write_on-accepts (credit_frame amount w.stream.stream_id) (wrote bs w) e'

  -- Where the `IOStream` takes every write, `_send_window_update` with an amount from 1 to 2^31 - 1 writes
  -- two frames, which `_read_frame`, where `read_bytes` gives exactly the bytes that have come, reads one
  -- behind the other, with a limit of 16384, as WINDOW_UPDATE frames, for stream 0 and
  -- for the stream's own id (below 2^31): in bytes a length of 4, the type 8, no flag, the id, and the
  -- amount; a window of the peer that has room for the amount takes each of them without an
  -- exception and grows by just the amount.
  pub send_window_update-credits :
      (read_bytes : ℕ → List ℕ → Result (List ℕ × List ℕ))
      → ReadsExactly read_bytes
      → (amount : ℕ) (w : World) (peer : Window) → 0 < amount
      → amount < 2 ^ 31
      → w.stream.stream_id < 2 ^ 31
      → peer.size + amount ≤ max_window_size
      → (bs cs : Bytes) × (f g : Frame) × (send_window_update io_write returns_none amount w
          ≡ (wrote cs (wrote bs w), ok tt))
        × (read_frame read_bytes 16384 (bs ++ cs) ≡ ok (f, cs))
        × (read_frame read_bytes 16384 (cs ++ []) ≡ ok (g, []))
        × (bs ≡ credit_wire amount 0)
        × (cs ≡ credit_wire amount w.stream.stream_id)
        × (f.type ≡ FrameType.window_update)
        × (g.type ≡ FrameType.window_update)
        × (f.stream_id ≡ 0)
        × (g.stream_id ≡ w.stream.stream_id)
        × (apply_window_update f peer ≡ (record peer { size = peer.size + amount }, ok tt))
        × (apply_window_update g peer ≡ (record peer { size = peer.size + amount }, ok tt))
  send_window_update-credits read_bytes reads amount w peer lo hi id fits =
      let f = credit_frame amount 0 in
      let g = credit_frame amount w.stream.stream_id in
      let short : length (to_bytes 4 amount) ≤ 16384 = omega (arith, length-to_bytes 4 amount) in
      let (cs, e', long', read') =
        read_frame-encode_frame read_bytes reads g (credit_frame-FitsHeader amount _ id) 16384 []
          short in
      let (bs, e, long, read) =
        read_frame-encode_frame read_bytes reads f (credit_frame-FitsHeader amount 0 (omega arith))
          16384 cs short in
      (
        bs,
        cs,
        f,
        g,
        send_window_update-writes amount w hi e e',
        read,
        read',
        ap bytes_of (sym e ∙ credit_bytes amount 0 (omega arith)),
        ap bytes_of (sym e' ∙ credit_bytes amount w.stream.stream_id id),
        refl,
        refl,
        refl,
        refl,
        apply_window_update-credit_frame amount 0 peer lo hi fits,
        apply_window_update-credit_frame amount w.stream.stream_id peer lo hi fits,
      )
