-- ===== src/Stream/ContentLength.antt =====
-- stream.py: the content length that the headers announce, against the DATA frames that are handled.
use tornado_http.Common.{
  ℕ, ◌+◌, ◌-◌, ◌≤◌, ◌≡◌, ◌≢◌, refl, sym, ap, ◌∙◌, arith, Bool, true, false, Bool-cases, inl, inr,
  some, List, [], ◌∷◌, length,
}
use tornado_http.Common.Int.{pos}
use tornado_http.Connection.Handlers.{Call}
use tornado_http.Constants.{FrameFlag, has_flag, HttpPhase}
use tornado_http.Errors.{Result, ok, err}
use tornado_http.Frames.{Frame, without_padding}
use tornado_http.Hpack.Table.{Bytes}
use tornado_http.Stream.{
  DelegateCall, World, and_then, update, needs_continuation, is_trailers, count_content,
  maybe_end_stream, deliver, write_on, send_window_update, handle_data_frame,
}

abbrev Returned : World → World × Result (Unit {0}) → Type 0
Returned w r = r ≡ (w, ok tt)

abbrev is_ok : World × Result (Unit {0}) → Bool
is_ok (w, ok x) = true
is_ok (w, err e) = false

Returned-is_ok : {r : World × Result (Unit {0})} {w : World} → Returned w r → is_ok r ≢ false
Returned-is_ok h h' = cc (ap is_ok (sym h) ∙ h')

and_then-ok :
    (r : World × Result (Unit {0})) (next : World → World × Result (Unit {0})) (w : World)
    → Returned w (and_then r next)
    → (v : World) × Returned v r × Returned w (next v)
and_then-ok (v, ok x) next w h = (v, refl, h)
and_then-ok (v, err e) next w h = absurd (cc (ap (λ (p : World × Result (Unit {0})). p.1) h))

count_content-ok :
    (m n : ℕ) (w v : World)
    → w.stream.incoming_content_remaining ≡ some (pos n)
    → Returned v (count_content m w)
    → (m ≤ n) × (v.stream.incoming_content_remaining ≡ some (pos (n - m)))
unfolding count_content
count_content-ok m n w v remaining h = ground arith

maybe_end_stream-ok :
    (flags n : ℕ) (w v : World)
    → w.stream.incoming_content_remaining ≡ some (pos n)
    → Returned v (maybe_end_stream flags w)
    → (v.stream.incoming_content_remaining ≡ some (pos n))
      × (has_flag flags FrameFlag.end_stream ≡ true → (n ≡ 0) × (v.stream.finished ≡ true))
unfolding maybe_end_stream
maybe_end_stream-ok flags n w v remaining h = ground arith

module _ (io_write : List Call → Bytes → Result (Unit {0}))
    (returns_none : List DelegateCall → Bytes → Bool) where
  write_on-stream :
      (f : Frame) (w : World) → (write_on io_write returns_none f w).0.stream ≡ w.stream
  unfolding write_on
  write_on-stream f w = refl

  deliver-remaining :
      (content : Bytes) (w : World)
      → (deliver io_write returns_none content w).0.stream.incoming_content_remaining
        ≡ w.stream.incoming_content_remaining
  unfolding deliver send_window_update
  deliver-remaining content w = ground arith

  -- A DATA frame whose handler returns passes both tests at its head.
  handle_data_frame-opens :
      (f f' : Frame) (w v : World)
      → without_padding f ≡ ok f'
      → Returned v (handle_data_frame io_write returns_none f w)
      → Returned v (
          and_then
            (and_then
              (count_content
                (length f'.payload)
                (update (λ s. record s { phase = HttpPhase.body }) w))
              (deliver io_write returns_none f'.payload))
            (maybe_end_stream f'.flags))
  unfolding handle_data_frame
  handle_data_frame-opens f f' w v unpadded h = elim (Bool-cases (needs_continuation w.stream)) [
    | inl waits ↦
        let refused : is_ok (handle_data_frame io_write returns_none f w) ≡ false =
          rw (waits, handle_data_frame) refl in
        absurd (Returned-is_ok h refused)
    | inr free ↦ elim (Bool-cases (is_trailers w.stream.phase)) [
      | inl trailers ↦
          let refused : is_ok (handle_data_frame io_write returns_none f w) ≡ false =
            rw (free, trailers, handle_data_frame) refl in
          absurd (Returned-is_ok h refused)
      | inr body ↦ sym (rw (free, body, unpadded, handle_data_frame) refl) ∙ h
    ]
  ]

  -- What a DATA frame that is handled leaves of the announced length.
  handle_data_frame-ok :
      (f f' : Frame) (n : ℕ) (w v : World)
      → w.stream.incoming_content_remaining ≡ some (pos n)
      → without_padding f ≡ ok f'
      → Returned v (handle_data_frame io_write returns_none f w)
      → (length f'.payload ≤ n)
        × (v.stream.incoming_content_remaining ≡ some (pos (n - length f'.payload)))
        × (has_flag f'.flags FrameFlag.end_stream ≡ true
            → (n ≡ length f'.payload) × (v.stream.finished ≡ true))
  handle_data_frame-ok f f' n w v remaining unpadded h =
      let w1 : World = update (λ s. record s { phase = HttpPhase.body }) w in
      let rest : Returned v (
          and_then
            (and_then (count_content (length f'.payload) w1)
              (deliver io_write returns_none f'.payload))
            (maybe_end_stream f'.flags)) =
        handle_data_frame-opens f f' w v unpadded h in
      let (w3, delivered, ended) = and_then-ok _ (maybe_end_stream f'.flags) v rest in
      let (w2, counted, given) =
        and_then-ok (count_content (length f'.payload) w1)
          (deliver io_write returns_none f'.payload) w3 delivered in
      let (fits, left) = count_content-ok (length f'.payload) n w1 w2 remaining counted in
      let kept : w3.stream.incoming_content_remaining ≡ some (pos (n - length f'.payload)) =
        sym (ap (λ (p : World × Result (Unit {0})). p.0.stream.incoming_content_remaining) given)
        ∙ deliver-remaining f'.payload w2
        ∙ left in
      let (same, at_end) = maybe_end_stream-ok f'.flags (n - length f'.payload) w3 v kept ended in
      (fits, same, λ flag. (omega (arith, (at_end flag).0), (at_end flag).1))

  -- DATA frames that are handled one after the other, each of which returns, and their contents.
  pub data Handled : World → List Frame → World → Type 0 where
    none_yet : (w : World) → Handled w [] w
    and_one :
        {w v u : World} {fs : List Frame} (f f' : Frame)
        → without_padding f ≡ ok f'
        → Returned v (handle_data_frame io_write returns_none f w)
        → Handled v fs u
        → Handled w (f' ∷ fs) u

abbrev pub total_content : List Frame → ℕ
total_content [] = 0
total_content (f ∷ fs) = length f.payload + total_content fs

module _ (io_write : List Call → Bytes → Result (Unit {0}))
    (returns_none : List DelegateCall → Bytes → Bool) where
  Handled-total :
      (n : ℕ) {w v : World} {fs : List Frame}
      → Handled io_write returns_none w fs v
      → w.stream.incoming_content_remaining ≡ some (pos n)
      → (total_content fs ≤ n)
        × (v.stream.incoming_content_remaining ≡ some (pos (n - total_content fs)))
  Handled-total n (none_yet w) announced =
      (omega arith, announced ∙ ap (λ (m : ℕ). some (pos m)) (omega arith))
  Handled-total n (and_one {w = w} {v = v} {fs = fs} f f' unpadded handled rest) announced =
      let (fits, left, _) =
        handle_data_frame-ok io_write returns_none f f' n w v announced unpadded handled in
      let (le, same) = Handled-total (n - length f'.payload) rest left in
      (omega (arith, fits, le), same ∙ ap (λ m. some (pos m)) (omega (arith, fits, le)))

module _ (io_write : List Call → Bytes → Result (Unit {0}))
    (returns_none : List DelegateCall → Bytes → Bool) (n : ℕ) (w : World)
    (announced : w.stream.incoming_content_remaining ≡ some (pos n)) where
  module _ (fs : List Frame) (f f' : Frame) (v u : World)
      (before : Handled io_write returns_none w fs v) (unpadded : without_padding f ≡ ok f')
      (handled : handle_data_frame io_write returns_none f v ≡ (u, ok tt)) where
    -- Where the headers announced a content of `n` bytes, DATA frames that are handled without an
    -- exception, one or more, bring at most `n` bytes, not counting their padding, and the stream still
    -- expects the rest.
    pub content-le-length :
        (total_content fs + length f'.payload ≤ n)
        × (u.stream.incoming_content_remaining
            ≡ some (pos (n - (total_content fs + length f'.payload))))
    content-le-length =
        let (le, left) = Handled-total io_write returns_none n before announced in
        let (fits, same, _) =
          handle_data_frame-ok io_write returns_none f f' (n - total_content fs) v u left unpadded
            handled in
        (omega (arith, le, fits), same ∙ ap (λ (m : ℕ). some (pos m)) (omega (arith, le, fits)))

    -- Where the headers announced a content of `n` bytes, DATA frames are handled without an exception,
    -- and the last of them has the flag END_STREAM, they bring exactly `n` bytes, not counting their
    -- padding, and the stream is finished.
    pub content-eq-length :
        has_flag f'.flags FrameFlag.end_stream ≡ true
        → (total_content fs + length f'.payload ≡ n) × (u.stream.finished ≡ true)
    content-eq-length flag =
        let (le, left) = Handled-total io_write returns_none n before announced in
        let (fits, _, at_end) =
          handle_data_frame-ok io_write returns_none f f' (n - total_content fs) v u left unpadded
            handled in
        (omega (arith, le, fits, (at_end flag).0), (at_end flag).1)
