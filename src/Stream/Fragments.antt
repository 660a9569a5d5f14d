-- ===== src/Stream/Fragments.antt =====
-- stream.py: a header block in one frame and the same block over CONTINUATION frames.
use mathlib.Core.Path.{fun_ext}
use tornado_http.Common.{
  ℕ, ◌+◌, ◌≤◌, ◌≡◌, refl, sym, ap, ap₂, ◌∙◌, arith, true, false, inl, inr, List, [], ◌∷◌, ◌++◌,
  append_assoc, append-nil, length, length-append, ge→ltb, All, not, if-false, if◌then◌else◌,
}
use tornado_http.Connection.Handlers.{Params}
use tornado_http.Constants.{FrameType, FrameFlag, has_flag, HttpPhase}
use tornado_http.Errors.{Result, ok, err, Result-cases}
use tornado_http.Frames.{Frame, without_padding}
use tornado_http.Hpack.Table.{Bytes}
use tornado_http.Stream.{World, Method, and_then, update, maybe_end_stream, needs_continuation}
use tornado_http.Stream.Blocks.{
  frames_length, strip_priority, begin_message, check_trailers, read_fields, parse_fields,
  end_headers, parse_block, parse_headers, check_header_length, add_header_frame,
  handle_headers_frame, handle_continuation_frame, handle_frame_of, handle_stream_frame,
}
use tornado_http.Stream.Headers.{join_frames, is_body_phase, Scan}
use tornado_http.Stream.Outside.{Outside}

join_frames-append :
    (fs gs : List Frame) → join_frames (fs ++ gs) ≡ join_frames fs ++ join_frames gs
unfolding join_frames
join_frames-append [] gs = refl
join_frames-append (f ∷ fs) gs =
    ap (λ bs. f.payload ++ bs) (join_frames-append fs gs)
    ∙ sym (append_assoc f.payload (join_frames fs) (join_frames gs))

frames_length-join_frames : (fs : List Frame) → frames_length fs ≡ length (join_frames fs)
unfolding frames_length join_frames
frames_length-join_frames [] = refl
frames_length-join_frames (f ∷ fs) =
    omega (arith, frames_length-join_frames fs, length-append f.payload (join_frames fs))

and_then-ok : (r : World × Result (Unit {0})) → and_then r (λ w. (w, ok tt)) ≡ r
and_then-ok (w, ok _) = refl
and_then-ok (w, err e) = refl

frames_length-append :
    (fs gs : List Frame) → frames_length (fs ++ gs) ≡ frames_length fs + frames_length gs
unfolding frames_length
frames_length-append [] gs = omega arith
frames_length-append (f ∷ fs) gs = omega (arith, frames_length-append fs gs)

-- Two frames that the parser of a block does not tell apart.
pub record SameBlock (f g : Frame) : Type 0 where
  pub end_stream : has_flag f.flags FrameFlag.end_stream ≡ has_flag g.flags FrameFlag.end_stream
  pub priority : has_flag f.flags FrameFlag.priority ≡ has_flag g.flags FrameFlag.priority
  pub stream_id : f.stream_id ≡ g.stream_id

maybe_end_stream-flags :
    (a b : ℕ) (w : World)
    → has_flag a FrameFlag.end_stream ≡ has_flag b FrameFlag.end_stream
    → maybe_end_stream a w ≡ maybe_end_stream b w
unfolding maybe_end_stream
maybe_end_stream-flags a b w e = rw (e, maybe_end_stream) refl

strip_priority-SameBlock :
    (f g : Frame) (content : Bytes)
    → SameBlock f g
    → strip_priority f content ≡ strip_priority g content
unfolding strip_priority
strip_priority-SameBlock f g content h = rw (h.priority, h.stream_id, strip_priority) refl

module _ (x : Outside) (params : Params) where
  end_headers-flags :
      (a b : ℕ) (scan : Scan) (w : World)
      → has_flag a FrameFlag.end_stream ≡ has_flag b FrameFlag.end_stream
      → end_headers x params a scan w ≡ end_headers x params b scan w
  unfolding end_headers
  end_headers-flags a b scan w e =
      ap₂
        (λ (m : Method) ends.
          and_then (and_then (begin_message x params scan w) m) (check_trailers x params ends))
        (fun_ext (λ v. maybe_end_stream-flags a b v e)) e

  parse_fields-flags :
      (a b : ℕ) (block : Bytes) (w : World)
      → has_flag a FrameFlag.end_stream ≡ has_flag b FrameFlag.end_stream
      → parse_fields x params a block w ≡ parse_fields x params b block w
  unfolding parse_fields
  parse_fields-flags a b block w e = elim (Result-cases (read_fields x params block w).1) [
    | inl (scan, got) ↦
        rw (got, parse_fields) (end_headers-flags a b scan (read_fields x params block w).0 e)
    | inr (raised, got) ↦ rw (got, parse_fields) refl
  ]

  parse_block-SameBlock :
      (f g : Frame) (content : Bytes) (w : World)
      → SameBlock f g
      → parse_block x params f content w ≡ parse_block x params g content w
  unfolding parse_block
  parse_block-SameBlock f g content w h =
      let same = strip_priority-SameBlock f g content h in
      elim (Result-cases (strip_priority g content)) [
        | inl (block, got) ↦
            rw (same ∙ got, got, parse_block)
              (parse_fields-flags f.flags g.flags block w h.end_stream)
        | inr (raised, got) ↦ rw (same ∙ got, got, parse_block) refl
      ]

  -- The frames of a stream, handled one after the other until one raises.
  unfoldable pub handle_stream_frames : List Frame → Method
  handle_stream_frames [] w = (w, ok tt)
  handle_stream_frames (f ∷ fs) w =
      and_then (handle_stream_frame x params f w) (handle_stream_frames fs)

  -- Within the limit, a frame of a block is added to the others, and the last of them ends it.
  add_header_frame_more :
      (f : Frame) (w : World)
      → frames_length (w.stream.header_frames ++ (f ∷ [])) ≤ params.max_header_size
      → has_flag f.flags FrameFlag.end_headers ≡ false
      → add_header_frame x params f w
        ≡ (update (λ s. record s { header_frames = s.header_frames ++ (f ∷ []) }) w, ok tt)
  unfolding add_header_frame check_header_length
  add_header_frame_more f w fits open_block =
      rw
        (
          ge→ltb params.max_header_size (frames_length (w.stream.header_frames ++ (f ∷ []))) fits,
          open_block,
          add_header_frame,
          check_header_length,
        )
        refl

  add_header_frame_last :
      (f first : Frame) (more : List Frame) (w : World)
      → w.stream.header_frames ++ (f ∷ []) ≡ first ∷ more
      → frames_length (first ∷ more) ≤ params.max_header_size
      → has_flag f.flags FrameFlag.end_headers ≡ true
      → add_header_frame x params f w
        ≡ parse_block x params first
            (join_frames (first ∷ more))
            (update (λ s. record s { header_frames = [] }) w)
  unfolding add_header_frame check_header_length parse_headers
  add_header_frame_last f first more w frames fits last =
      rw
        (
          frames,
          ge→ltb params.max_header_size (frames_length (first ∷ more)) fits,
          last,
          add_header_frame,
          check_header_length,
          parse_headers,
        )
        refl

  handle_continuation :
      (f first : Frame) (acc : List Frame) (w : World)
      → f.type ≡ FrameType.continuation
      → w.stream.finished ≡ false
      → w.stream.header_frames ≡ first ∷ acc
      → handle_stream_frame x params f w ≡ add_header_frame x params f w
  unfolding handle_stream_frame
  handle_continuation f first acc w type open_stream frames =
      ap (λ t. handle_frame_of x params t f w) type
      ∙ if-false w.stream.finished _ _ open_stream
      ∙ unfold handle_continuation_frame in if-false (not (needs_continuation w.stream)) _ _ waits
    where
      waits : not (needs_continuation w.stream) ≡ false
      waits = unfold needs_continuation in rw (frames, needs_continuation) refl

  handle_headers :
      (f : Frame) (w : World)
      → f.type ≡ FrameType.headers
      → w.stream.finished ≡ false
      → has_flag f.flags FrameFlag.padded ≡ false
      → handle_stream_frame x params f w
        ≡ add_header_frame x params f (
            update
              (λ s. record s {
                phase = if is_body_phase s.phase then HttpPhase.trailers else s.phase;
              })
              w)
  unfolding handle_stream_frame
  handle_headers f w type open_stream unpadded =
      ap (λ t. handle_frame_of x params t f w) type
      ∙ if-false w.stream.finished _ _ open_stream
      ∙ unfold handle_headers_frame in rw (plain, handle_headers_frame) refl
    where
      plain : without_padding f ≡ ok f
      plain = unfold without_padding in if-false (has_flag f.flags FrameFlag.padded) _ _ unpadded

  -- A CONTINUATION frame that does not end its block.
  abbrev pub IsMiddle : Frame → Type 0
  IsMiddle f = (f.type ≡ FrameType.continuation) × (has_flag f.flags FrameFlag.end_headers ≡ false)

  handle_continuations :
      (first : Frame) (acc middle : List Frame) (last : Frame) (w : World)
      → w.stream.finished ≡ false
      → w.stream.header_frames ≡ first ∷ acc
      → All IsMiddle middle
      → last.type ≡ FrameType.continuation
      → has_flag last.flags FrameFlag.end_headers ≡ true
      → frames_length (first ∷ (acc ++ (middle ++ (last ∷ [])))) ≤ params.max_header_size
      → handle_stream_frames (middle ++ (last ∷ [])) w
        ≡ parse_block x params first
            (join_frames (first ∷ (acc ++ (middle ++ (last ∷ [])))))
            (update (λ s. record s { header_frames = [] }) w)
  unfolding handle_stream_frames
  handle_continuations first acc [] last w open_stream frames h type ends fits =
      and_then-ok (handle_stream_frame x params last w)
      ∙ handle_continuation last first acc w type open_stream frames
      ∙ add_header_frame_last last first (acc ++ (last ∷ [])) w
          (ap (λ fs. fs ++ (last ∷ [])) frames) fits ends
  handle_continuations first acc (f ∷ middle) last w open_stream frames ((cont, more), h) type ends
        fits =
      let behind : List Frame = middle ++ (last ∷ []) in
      let w' : World = update (λ s. record s { header_frames = s.header_frames ++ (f ∷ []) }) w in
      let regroup : first ∷ ((acc ++ (f ∷ [])) ++ behind) ≡ first ∷ (acc ++ (f ∷ behind)) =
        ap (λ fs. first ∷ fs) (append_assoc acc (f ∷ []) behind) in
      let short : frames_length (w.stream.header_frames ++ (f ∷ [])) ≤ params.max_header_size =
        omega (
          arith,
          fits,
          ap (λ fs. frames_length (fs ++ (f ∷ []))) frames,
          ap frames_length regroup,
          frames_length-append (first ∷ (acc ++ (f ∷ []))) behind,
        ) in
      ap (λ r. and_then r (handle_stream_frames behind))
        (handle_continuation f first acc w cont open_stream frames
          ∙ add_header_frame_more f w short more)
      ∙ handle_continuations first (acc ++ (f ∷ [])) middle last w' open_stream
          (ap (λ fs. fs ++ (f ∷ [])) frames) h type ends
          (omega (arith, fits, ap frames_length regroup))
      ∙ ap
          (λ fs.
            parse_block x params first (join_frames fs)
              (update (λ s. record s { header_frames = [] }) w))
          regroup

  -- A HEADERS frame without padding and without END_HEADERS, any number of CONTINUATION frames that do
  -- not end the block, and one that does, on a stream that is not finished and has no open block, do
  -- exactly what one HEADERS frame does that holds their fragments joined, ends the block and has the
  -- stream, the END_STREAM and the PRIORITY flag of the first, if the fragments are together within the
  -- limit on header sizes: the same world is left, and the same exception raised, if any.
  pub handle_stream_frames-fragments :
      (first whole last : Frame) (middle : List Frame) (w : World)
      → w.stream.finished ≡ false
      → w.stream.header_frames ≡ []
      → (first.type ≡ FrameType.headers) × (whole.type ≡ FrameType.headers)
      → (has_flag first.flags FrameFlag.padded ≡ false)
        × (has_flag whole.flags FrameFlag.padded ≡ false)
      → (has_flag first.flags FrameFlag.end_headers ≡ false)
        × (has_flag whole.flags FrameFlag.end_headers ≡ true)
      → SameBlock first whole
      → whole.payload ≡ join_frames (first ∷ (middle ++ (last ∷ [])))
      → All IsMiddle middle
      → (last.type ≡ FrameType.continuation) × (has_flag last.flags FrameFlag.end_headers ≡ true)
      → length whole.payload ≤ params.max_header_size
      → handle_stream_frames (first ∷ (middle ++ (last ∷ []))) w
        ≡ handle_stream_frame x params whole w
  unfolding handle_stream_frames
  handle_stream_frames-fragments first whole last middle w open_stream empty (headers, headers')
        (unpadded, unpadded') (more, ends') same content h (type, ends) fits =
      let behind : List Frame = middle ++ (last ∷ []) in
      let w1 : World =
        update
          (λ s. record s { phase = if is_body_phase s.phase then HttpPhase.trailers else s.phase })
          w in
      let w2 : World = update (λ s. record s { header_frames = [] }) w1 in
      let alone : join_frames (whole ∷ []) ≡ join_frames (first ∷ behind) =
        unfold join_frames in append-nil whole.payload ∙ content in
      let total : frames_length (first ∷ behind) ≤ params.max_header_size =
        omega (arith, fits, ap length content, frames_length-join_frames (first ∷ behind)) in
      let short : frames_length (w1.stream.header_frames ++ (first ∷ [])) ≤ params.max_header_size =
        omega (
          arith,
          total,
          ap (λ fs. frames_length (fs ++ (first ∷ []))) empty,
          frames_length-append (first ∷ []) behind,
        ) in
      let short' : frames_length (whole ∷ []) ≤ params.max_header_size =
        omega (
          arith,
          fits,
          ap length alone,
          ap length content,
          frames_length-join_frames (whole ∷ []),
        ) in
      ap (λ r. and_then r (handle_stream_frames behind))
        (handle_headers first w headers open_stream unpadded
          ∙ add_header_frame_more first w1 short more)
      ∙ handle_continuations first [] middle last
          (update (λ s. record s { header_frames = s.header_frames ++ (first ∷ []) }) w1)
          open_stream (ap (λ fs. fs ++ (first ∷ [])) empty) h type ends total
      ∙ parse_block-SameBlock first whole (join_frames (first ∷ behind)) w2 same
      ∙ ap (λ c. parse_block x params whole c w2) (sym alone)
      ∙ sym (
          handle_headers whole w headers' open_stream unpadded'
          ∙ add_header_frame_last whole whole [] w1 (ap (λ fs. fs ++ (whole ∷ [])) empty) short'
              ends')
