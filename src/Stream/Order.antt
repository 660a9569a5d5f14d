-- ===== src/Stream/Order.antt =====
-- stream.py: what the coroutines of the sending side put on the wire, against what was written.
use tornado_http.Common.{
  ℕ, ◌≡◌, refl, sym, ap, ap₂, ◌∙◌, inl, inr, Option, List, [], ◌∷◌, ◌++◌, append_assoc, append-nil,
  All, All-append, subst, Bool-cases,
}
use tornado_http.Connection.Handlers.{Call}
use tornado_http.Errors.{Result}
use tornado_http.Frames.{Frame}
use tornado_http.Hpack.Table.{Bytes}
use tornado_http.Stream.{Task, World}
use tornado_http.Stream.Outside.{Outside}
use tornado_http.Stream.Send.{write, finish_stream, task_turn}
use tornado_http.Stream.Items.{
  frame_items, IsDataOf, frames_items, task_items, tasks_items, Writes, Writes-append,
  frames_items-append, Returned, tasks_items-append, tasks-cases, nothing, one_more,
}
use tornado_http.Stream.Turns.{
  Queued, Turned, write-ok, finish_stream-ok, task_turn-ok, task_turn-none, task_turn-lost,
}

module _ (x : Outside) where
  -- What has happened on the sending side since `w`: the application's calls of `write` and `finish`
  -- that returned, `asked` in all, between turns of the coroutines that returned.
  pub data Sends (w : World) : List Task → World → Type 0 where
    none_yet : Sends w [] w
    writes :
        {asked : List Task} {v u : World} (content : Bytes)
        → Sends w asked v
        → Returned u (write x content v)
        → Sends w (asked ++ (Task.chunk content ∷ [])) u
    finishes :
        {asked : List Task} {v u : World}
        → Sends w asked v
        → Returned u (finish_stream x v)
        → Sends w (asked ++ (Task.end_stream ∷ [])) u
    turns :
        {asked : List Task} {v u : World} (allowance : ℕ)
        → Sends w asked v
        → Returned u (task_turn x allowance v)
        → Sends w asked u

  -- What is on the wire since `w`, what is still to go and what was asked, in one order.
  pub record Ordered (w : World) (asked : List Task) (u : World) : Type 0 where
    pub id : u.stream.stream_id ≡ w.stream.stream_id
    pub frames : List Frame
    pub frames-IsDataOf : All (IsDataOf w.stream.stream_id) frames
    pub sent : List Call
    pub sent-Writes : Writes frames sent
    pub calls : u.conn.calls ≡ w.conn.calls ++ sent
    pub items : frames_items frames ++ tasks_items u.stream.tasks ≡ tasks_items asked

  Queued-Ordered :
      {asked : List Task} (w v u : World) (task : Task)
      → Ordered w asked v
      → Queued x (task_items task) v u
      → Ordered w (asked ++ (task ∷ [])) u
  Queued-Ordered {asked = asked} w v u task before queued = record {
    id = queued.id ∙ before.id;
    frames-IsDataOf = before.frames-IsDataOf;
    frames = before.frames;
    sent = before.sent;
    sent-Writes = before.sent-Writes;
    calls = queued.calls ∙ before.calls;
    items =
        ap (λ is. frames_items before.frames ++ is) queued.items
        ∙ sym (
            append_assoc (frames_items before.frames) (tasks_items v.stream.tasks)
              (task_items task))
        ∙ ap₂ (λ (is js : List (Option ℕ)). is ++ js) before.items
            (sym (append-nil (task_items task)))
        ∙ sym (tasks_items-append asked (task ∷ []));
  }

  Turned-Ordered :
      {asked : List Task} (w v u : World) → Ordered w asked v → Turned x v u → Ordered w asked u
  Turned-Ordered w v u before turned = record {
    id = turned.id ∙ before.id;
    frames-IsDataOf =
        All-append (IsDataOf w.stream.stream_id) before.frames (turned.frame ∷ [])
          before.frames-IsDataOf
          (subst (λ id. IsDataOf id turned.frame) before.id turned.is_data, tt);
    frames = before.frames ++ (turned.frame ∷ []);
    sent = before.sent ++ (Call.write turned.bytes ∷ []);
    sent-Writes =
        Writes-append before.sent-Writes
          (one_more turned.frame turned.bytes turned.encoded nothing);
    calls =
        turned.calls
        ∙ ap (λ cs. cs ++ (Call.write turned.bytes ∷ [])) before.calls
        ∙ append_assoc w.conn.calls before.sent (Call.write turned.bytes ∷ []);
    items =
        ap (λ is. is ++ tasks_items u.stream.tasks)
          (frames_items-append before.frames (turned.frame ∷ [])
            ∙ ap (λ is. frames_items before.frames ++ is) (append-nil (frame_items turned.frame)))
        ∙ append_assoc (frames_items before.frames) (frame_items turned.frame)
            (tasks_items u.stream.tasks)
        ∙ ap (λ is. frames_items before.frames ++ is) turned.items
        ∙ before.items;
  }

  same-Ordered : {asked : List Task} (w v u : World) → Ordered w asked v → v ≡ u → Ordered w asked u
  same-Ordered {asked = asked} w v u before same = subst (λ u'. Ordered w asked u') same before

  task_turn-Ordered :
      {asked : List Task} (allowance : ℕ) (w v u : World)
      → Ordered w asked v
      → Returned u (task_turn x allowance v)
      → Ordered w asked u
  task_turn-Ordered allowance w v u before h = elim (tasks-cases v.stream.tasks) [
    | inl tasks ↦
        same-Ordered w v u before (
          ap (λ (p : World × Result (Unit {0})). p.0)
            (sym (task_turn-none x allowance v tasks) ∙ h))
    | inr (task, behind, tasks) ↦ elim (Bool-cases v.stream.lock_lost) [
      | inl lost ↦ same-Ordered w v u before (
          ap (λ (p : World × Result (Unit {0})). p.0) (sym (task_turn-lost x allowance v lost) ∙ h))
      | inr free ↦
          Turned-Ordered w v u before (task_turn-ok x allowance task behind v u free tasks h)
    ]
  ]

  -- Where no coroutine of the stream was at work: if since then any calls of `write` and `finish` have
  -- returned, and any turns of the stream's coroutines, with any allowances of flow control, in any
  -- interleaving (none of these calls and turns has raised), then what they have put on the wire are
  -- whole DATA frames of this stream, with no flag or with END_STREAM alone, whose contents with the ends
  -- of the stream are, in order, the first part of what was asked for; and what the coroutines have still
  -- to send is exactly the rest.
  pub Sends-Ordered :
      {w : World} {asked : List Task} {u : World}
      → w.stream.tasks ≡ []
      → Sends w asked u
      → Ordered w asked u
  Sends-Ordered {w = w} idle none_yet = record {
    id = refl;
    frames-IsDataOf = tt;
    frames = [];
    sent = [];
    sent-Writes = nothing;
    calls = sym (append-nil w.conn.calls);
    items = ap tasks_items idle;
  }
  Sends-Ordered {w = w} {u = u} idle (writes {v = v} content before h) =
      Queued-Ordered w v u (Task.chunk content) (Sends-Ordered idle before)
        (write-ok x content v u h)
  Sends-Ordered {w = w} {u = u} idle (finishes {v = v} before h) =
      Queued-Ordered w v u Task.end_stream (Sends-Ordered idle before) (finish_stream-ok x v u h)
  Sends-Ordered {w = w} {u = u} idle (turns {v = v} allowance before h) =
      task_turn-Ordered allowance w v u (Sends-Ordered idle before) h
