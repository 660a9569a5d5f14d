-- ===== src/Stream/Items.antt =====
-- stream.py: what frames and tasks of the sending side bring, in one form.
use tornado_http.Common.{
  ℕ, ◌≡◌, ◌⊎◌, refl, sym, ap, ap₂, ◌∙◌, arith, inl, inr, Option, none, some, List, [], ◌∷◌, ◌++◌,
  map, append_assoc, append-nil, length, take, drop, take-append-drop, ◌==◌, if◌then◌else◌,
  if-false,
}
use mathlib.Core.List.{map-append}
use tornado_http.Connection.Handlers.{Call}
use tornado_http.Connection.Wire.{encode_frame}
use tornado_http.Constants.{FrameType}
use tornado_http.Errors.{Result, ok}
use tornado_http.Frames.{Frame}
use tornado_http.Hpack.Table.{Bytes}
use tornado_http.Stream.{Task, World}

-- What a DATA frame brings, byte by byte, and the end of the stream, its flag 1, as `none`.
abbrev pub frame_items : Frame → List (Option ℕ)
frame_items f = map some f.payload ++ (if f.flags == 0x1 then none ∷ [] else [])

-- A DATA frame of this stream, with no flag or with END_STREAM alone.
abbrev pub IsDataOf : ℕ → Frame → Type 0
IsDataOf id f =
    (f.type ≡ FrameType.frame_data) × (f.stream_id ≡ id) × ((f.flags ≡ 0) ⊎ (f.flags ≡ 0x1))

abbrev pub frames_items : List Frame → List (Option ℕ)
frames_items [] = []
frames_items (f ∷ fs) = frame_items f ++ frames_items fs

-- What the application has asked for, in the same form.
abbrev pub task_items : Task → List (Option ℕ)
task_items (Task.chunk content) = map some content
task_items Task.end_stream = none ∷ []

abbrev pub tasks_items : List Task → List (Option ℕ)
tasks_items [] = []
tasks_items (t ∷ ts) = task_items t ++ tasks_items ts

-- The calls that write these frames.
pub data Writes : List Frame → List Call → Type 0 where
  nothing : Writes [] []
  one_more :
      {fs : List Frame} {calls : List Call} (f : Frame) (bs : Bytes)
      → encode_frame f ≡ ok bs
      → Writes fs calls
      → Writes (f ∷ fs) (Call.write bs ∷ calls)

pub Writes-append :
    {fs gs : List Frame} {cs ds : List Call}
    → Writes fs cs
    → Writes gs ds
    → Writes (fs ++ gs) (cs ++ ds)
Writes-append nothing more = more
Writes-append (one_more f bs e before) more = one_more f bs e (Writes-append before more)

pub frames_items-append :
    (fs gs : List Frame) → frames_items (fs ++ gs) ≡ frames_items fs ++ frames_items gs
frames_items-append [] gs = refl
frames_items-append (f ∷ fs) gs =
    ap (λ is. frame_items f ++ is) (frames_items-append fs gs)
    ∙ sym (append_assoc (frame_items f) (frames_items fs) (frames_items gs))

abbrev pub Returned : World → World × Result (Unit {0}) → Type 0
Returned u r = r ≡ (u, ok tt)

pub tasks_items-append :
    (ts us : List Task) → tasks_items (ts ++ us) ≡ tasks_items ts ++ tasks_items us
tasks_items-append [] us = refl
tasks_items-append (t ∷ ts) us =
    ap (λ is. task_items t ++ is) (tasks_items-append ts us)
    ∙ sym (append_assoc (task_items t) (tasks_items ts) (tasks_items us))

pub tasks-cases :
    (ts : List Task) → (ts ≡ []) ⊎ ((task : Task) × (behind : List Task) × (ts ≡ task ∷ behind))
tasks-cases [] = inl refl
tasks-cases (t ∷ ts) = inr (t, ts, refl)

-- What a round leaves to be done.
abbrev pub tasks_left : Bytes → List Task → List Task
tasks_left rest behind = if length rest == 0 then behind else Task.chunk rest ∷ behind

tasks_left-items :
    (rest : Bytes) (behind : List Task)
    → tasks_items (tasks_left rest behind) ≡ map some rest ++ tasks_items behind
tasks_left-items [] behind = refl
tasks_left-items (b ∷ rest) behind =
    ap tasks_items
      (if-false (length (b ∷ rest) == 0) behind (Task.chunk (b ∷ rest) ∷ behind) (ground arith))

pub round_items :
    (allowance : ℕ) (content : Bytes) (behind : List Task)
    → (map some (take allowance content) ++ [])
        ++ tasks_items (tasks_left (drop allowance content) behind)
      ≡ map some content ++ tasks_items behind
round_items allowance content behind =
    ap₂ (λ (is js : List (Option ℕ)). is ++ js) (append-nil (map some (take allowance content)))
      (tasks_left-items (drop allowance content) behind)
    ∙ sym (
        append_assoc (map some (take allowance content)) (map some (drop allowance content))
          (tasks_items behind))
    ∙ ap (λ is. is ++ tasks_items behind)
        (sym (map-append some (take allowance content) (drop allowance content))
          ∙ ap (map some) (take-append-drop allowance content))
