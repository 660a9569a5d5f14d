-- ===== src/Connection/LoopFrames.antt =====
-- connection.py: the frames that one end writes, through the loop of the other.
use tornado_http.Common.{
  ℕ, ◌+◌, ◌≤◌, ◌≡◌, refl, ap, ap₂, ◌∙◌, arith, List, [], ◌∷◌, ◌++◌, append_assoc, length,
}
use tornado_http.Connection.Handlers.{Params}
use tornado_http.Connection.Loop.{Serving, frame_limit, dispatch, recover, serve_loop}
use tornado_http.Connection.LoopEnds.{serve_loop-next}
use tornado_http.Connection.Wire.{encode_frame}
use tornado_http.Connection.WireRoundTrip.{ReadsExactly, FitsHeader, read_frame-encode_frame}
use tornado_http.Errors.{Result, ok, ◌>>=◌}
use tornado_http.Frames.{Frame}
use tornado_http.Hpack.Table.{Bytes}
use tornado_http.Stream.Outside.{Outside}

-- Frames as bytes, one behind another.
unfoldable pub encode_frames : List Frame → Result Bytes
encode_frames [] = ok []
encode_frames (f ∷ fs) = do bs ← encode_frame f; more ← encode_frames fs; ok (bs ++ more)

module _ (x : Outside) (params : Params) where
  -- Frames that fit their headers and this end's limit, as it is when they come, and that end no loop.
  pub data Handled (t : Serving) : List Frame → Serving → Type 0 where
    nothing : Handled t [] t
    one_more :
        {fs : List Frame} {s : Serving} (f : Frame)
        → FitsHeader f
        → length f.payload ≤ frame_limit s.conn
        → (recover x params (dispatch x params f s)).1 ≡ ok tt
        → Handled t fs (recover x params (dispatch x params f s)).0
        → Handled t (f ∷ fs) s

  -- Frames that fit their headers, whose payloads are no longer than this end's limit is when they come,
  -- and none of which, handled and its stream error answered, leaves an exception: written as bytes one
  -- behind another, with any input behind them, they make the loop, where `read_bytes` gives exactly the
  -- bytes that have come, handle exactly these frames, one in each round and in their order, stream
  -- errors answered on the way, and go on with the input behind them in the state that this leaves.
  pub serve_loop-encode_frames :
      {t : Serving} {fs : List Frame} {s : Serving}
      (read_bytes : ℕ → Bytes → Result (Bytes × Bytes)) (fuel : ℕ) (rest : Bytes)
      → ReadsExactly read_bytes
      → Handled t fs s
      → (bs : Bytes) × (encode_frames fs ≡ ok bs)
        × (serve_loop x params read_bytes (length fs + fuel) (bs ++ rest) s
            ≡ serve_loop x params read_bytes fuel rest t)
  unfolding encode_frames
  serve_loop-encode_frames {t = t} read_bytes fuel rest reads nothing =
      ([], refl, ap (λ n. serve_loop x params read_bytes n rest t) (omega arith))
  serve_loop-encode_frames read_bytes fuel rest reads
        (one_more {fs = fs} {s = s} f fits limit goes more) =
      let (ds, e, behind) = serve_loop-encode_frames read_bytes fuel rest reads more in
      let (bs, e', _, got) =
        read_frame-encode_frame read_bytes reads f fits (frame_limit s.conn) (ds ++ rest) limit in
      (
        bs ++ ds,
        ap (λ (r : Result Bytes). r >>= λ cs. encode_frames fs >>= λ more'. ok (cs ++ more')) e'
            ∙ ap (λ (r : Result Bytes). r >>= λ more'. ok (bs ++ more')) e,
        ap₂ (λ n input. serve_loop x params read_bytes n input s) (omega arith)
              (append_assoc bs ds rest)
            ∙ serve_loop-next read_bytes x params (length fs + fuel) (bs ++ (ds ++ rest)) s f
                (ds ++ rest) got goes
            ∙ behind,
      )
