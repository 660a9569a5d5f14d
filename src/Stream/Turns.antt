-- ===== src/Stream/Turns.antt =====
-- stream.py: what one call of `write` or `finish`, and one turn of a coroutine, leave where they return.
use tornado_http.Common.{
  ℕ, ◌≡◌, ◌≢◌, ◌⊎◌, refl, sym, ap, ap₂, ◌∙◌, arith, true, false, inl, inr, Option, none, some, List,
  [], ◌∷◌, ◌++◌, map, append-nil, take, drop, Bool-cases,
}
use tornado_http.Connection.Handlers.{Call, write_frame}
use tornado_http.Connection.Wire.{encode_frame}
use tornado_http.Constants.{FrameFlag, flag_value}
use tornado_http.Errors.{Exn, Result, ok, err, Result-cases}
use tornado_http.Frames.{Frame}
use tornado_http.Hpack.Table.{Bytes}
use tornado_http.Stream.{Task, Stream, World, Method, and_then, raises, update, write_on, reset}
use tornado_http.Stream.Outside.{Outside}
use tornado_http.Stream.Send.{
  send_on, data_frame, reset_on_error, write_body, write, finish_body, finish_stream, write_round,
  write_end_stream, run_task, run_tasks, task_turn,
}
use tornado_http.Stream.Items.{
  frame_items, IsDataOf, task_items, tasks_items, Returned, tasks_items-append, tasks_left,
  round_items,
}

module _ (x : Outside) where
  -- A frame that is written, where the write returns.
  record Wrote (f : Frame) (w u : World) : Type 0 where
    bytes : Bytes
    encoded : encode_frame f ≡ ok bytes
    calls : u.conn.calls ≡ w.conn.calls ++ (Call.write bytes ∷ [])
    stream : u.stream ≡ w.stream

  send_on-ok : (f : Frame) (w u : World) → send_on x f w ≡ (u, ok tt) → Wrote f w u
  unfolding write_on write_frame
  send_on-ok f w u h = elim (Result-cases (encode_frame f)) [
    | inl (bs, e) ↦ record { bytes = bs; encoded = e; calls = ground arith; stream = ground arith }
    | inr (raised, e) ↦ absurd (ground arith)
  ]

  raises_last :
      (r : World × Result (Unit {0})) (e : Exn) (u : World) → and_then r (raises e) ≢ (u, ok tt)
  raises_last (w, ok _) e u h = cc (ap (λ (p : World × Result (Unit {0})). p.1) h)
  raises_last (w, err e') e u h = cc (ap (λ (p : World × Result (Unit {0})). p.1) h)

  pub reset_on_error-ok :
      (method : Method) (w u : World)
      → Returned u (reset_on_error x method w)
      → Returned u (method w)
  unfolding reset_on_error
  reset_on_error-ok method w u h = elim (Result-cases (method w).1) [
    | inl (done, e) ↦ ground arith
    | inr (raised, e) ↦
        let failed : reset_on_error x method w
            ≡ and_then (reset x.io_write x.returns_none (method w).0) (raises raised) =
          rw (e, reset_on_error) refl in
        absurd
          (raises_last (reset x.io_write x.returns_none (method w).0) raised u (sym failed ∙ h))
  ]

  -- What a step leaves: the same calls, and the content of these tasks behind those that were there.
  pub record Queued (more : List (Option ℕ)) (w u : World) : Type 0 where
    pub id : u.stream.stream_id ≡ w.stream.stream_id
    pub calls : u.conn.calls ≡ w.conn.calls
    pub items : tasks_items u.stream.tasks ≡ tasks_items w.stream.tasks ++ more

  write_body-ok :
      (content : Bytes) (w u : World)
      → Returned u (write_body x content w)
      → (u.stream.stream_id ≡ w.stream.stream_id)
        × (u.conn.calls ≡ w.conn.calls)
        × ((u.stream.tasks ≡ w.stream.tasks) × (content ≡ [])
            ⊎ (u.stream.tasks ≡ w.stream.tasks ++ (Task.chunk content ∷ [])))
  unfolding write_body
  write_body-ok [] w u h = ground arith
  write_body-ok (b ∷ bs) w u h = ground arith

  finish_body-ok :
      (w u : World)
      → Returned u (finish_body x w)
      → (u.stream.stream_id ≡ w.stream.stream_id)
        × (u.conn.calls ≡ w.conn.calls)
        × (u.stream.tasks ≡ w.stream.tasks ++ (Task.end_stream ∷ []))
  unfolding finish_body
  finish_body-ok w u h = ground arith

  pub write-ok :
      (content : Bytes) (w u : World)
      → Returned u (write x content w)
      → Queued (task_items (Task.chunk content)) w u
  unfolding write
  write-ok content w u h =
      let done = reset_on_error-ok (write_body x content) w u h in
      let (id, calls, queued) = write_body-ok content w u done in
      record {
        id = id;
        calls = calls;
        items = elim queued [
          | inl (same, empty) ↦
              ap tasks_items same
              ∙ sym (append-nil (tasks_items w.stream.tasks))
              ∙ ap (λ (bs : Bytes). tasks_items w.stream.tasks ++ map some bs) (sym empty)
          | inr behind ↦
              ap tasks_items behind
              ∙ tasks_items-append w.stream.tasks (Task.chunk content ∷ [])
              ∙ ap (λ is. tasks_items w.stream.tasks ++ is) (append-nil (map some content))
        ];
      }

  pub finish_stream-ok :
      (w u : World) → Returned u (finish_stream x w) → Queued (task_items Task.end_stream) w u
  unfolding finish_stream
  finish_stream-ok w u h =
      let done = reset_on_error-ok (finish_body x) w u h in
      let (id, calls, behind) = finish_body-ok w u done in
      record {
        id = id;
        calls = calls;
        items = ap tasks_items behind ∙ tasks_items-append w.stream.tasks (Task.end_stream ∷ []);
      }

  -- What a turn leaves: one frame is written, and it brings the first of what was to come.
  pub record Turned (w u : World) : Type 0 where
    pub frame : Frame
    pub is_data : IsDataOf w.stream.stream_id frame
    pub id : u.stream.stream_id ≡ w.stream.stream_id
    pub bytes : Bytes
    pub encoded : encode_frame frame ≡ ok bytes
    pub calls : u.conn.calls ≡ w.conn.calls ++ (Call.write bytes ∷ [])
    pub items : frame_items frame ++ tasks_items u.stream.tasks ≡ tasks_items w.stream.tasks

  write_round-ok :
      (allowance : ℕ) (content : Bytes) (behind : List Task) (w u : World)
      → w.stream.tasks ≡ Task.chunk content ∷ behind
      → Returned u (write_round x allowance content behind w)
      → Turned w u
  unfolding write_round
  write_round-ok allowance content behind w u tasks h =
      let f : Frame = data_frame x w.stream.stream_id 0 (take allowance content) in
      let sent : World × Result (Unit {0}) = send_on x f w in
      elim (Result-cases sent.1) [
        | inl (_, e) ↦
            let opened : write_round x allowance content behind w ≡ (
              update (λ s. record s { tasks = tasks_left (drop allowance content) behind }) sent.0,
              ok tt,
            ) =
              rw (e, write_round) refl in
            let same : update (λ s. record s { tasks = tasks_left (drop allowance content) behind })
                  sent.0
                ≡ u =
              ap (λ (p : World × Result (Unit {0})). p.0) (sym opened ∙ h) in
            let wrote : Wrote f w sent.0 = send_on-ok f w sent.0 (ap (λ r. (sent.0, r)) e) in
            record {
              frame = f;
              is_data = (refl, refl, inl refl);
              id =
                  ap (λ (v : World). v.stream.stream_id) (sym same)
                  ∙ ap (λ (s : Stream). s.stream_id) wrote.stream;
              bytes = wrote.bytes;
              encoded = wrote.encoded;
              calls = ap (λ (v : World). v.conn.calls) (sym same) ∙ wrote.calls;
              items =
                  ap (λ (v : World). frame_items f ++ tasks_items v.stream.tasks) (sym same)
                  ∙ round_items allowance content behind
                  ∙ ap tasks_items (sym tasks);
            }
        | inr (raised, e) ↦
            let w' : World = update (λ s. record s { tasks = behind; lock_lost = true }) sent.0 in
            let failed : write_round x allowance content behind w
                ≡ and_then (reset x.io_write x.returns_none w') (raises raised) =
              rw (e, write_round) refl in
            absurd (raises_last (reset x.io_write x.returns_none w') raised u (sym failed ∙ h))
      ]

  write_end_stream-ok :
      (behind : List Task) (w u : World)
      → w.stream.tasks ≡ Task.end_stream ∷ behind
      → Returned u (write_end_stream x behind w)
      → Turned w u
  unfolding write_end_stream
  write_end_stream-ok behind w u tasks h =
      let f : Frame = data_frame x w.stream.stream_id (flag_value FrameFlag.end_stream) [] in
      let w' : World = update (λ s. record s { tasks = behind }) w in
      let sent : World × Result (Unit {0}) = send_on x f w' in
      elim (Result-cases sent.1) [
        | inl (_, e) ↦
            let opened : write_end_stream x behind w ≡ (sent.0, ok tt) =
              rw (e, write_end_stream) refl in
            let same : sent.0 ≡ u = ap (λ (p : World × Result (Unit {0})). p.0) (sym opened ∙ h) in
            let wrote : Wrote f w' sent.0 = send_on-ok f w' sent.0 (ap (λ r. (sent.0, r)) e) in
            record {
              frame = f;
              is_data = (refl, refl, inr refl);
              id =
                  ap (λ (v : World). v.stream.stream_id) (sym same)
                  ∙ ap (λ (s : Stream). s.stream_id) wrote.stream;
              bytes = wrote.bytes;
              encoded = wrote.encoded;
              calls = ap (λ (v : World). v.conn.calls) (sym same) ∙ wrote.calls;
              items =
                  ap (λ (v : World). (none ∷ []) ++ tasks_items v.stream.tasks) (sym same)
                  ∙ ap (λ (s : Stream). (none ∷ []) ++ tasks_items s.tasks) wrote.stream
                  ∙ ap tasks_items (sym tasks);
            }
        | inr (raised, e) ↦
            let failed : write_end_stream x behind w
                ≡ and_then (reset x.io_write x.returns_none sent.0) (raises raised) =
              rw (e, write_end_stream) refl in
            absurd (raises_last (reset x.io_write x.returns_none sent.0) raised u (sym failed ∙ h))
      ]

  run_task-ok :
      (allowance : ℕ) (task : Task) (behind : List Task) (w u : World)
      → w.stream.tasks ≡ task ∷ behind
      → Returned u (run_task x task behind allowance w)
      → Turned w u
  unfolding run_task
  run_task-ok allowance (Task.chunk content) behind w u tasks h =
      write_round-ok allowance content behind w u tasks h
  run_task-ok allowance Task.end_stream behind w u tasks h = write_end_stream-ok behind w u tasks h

  pub task_turn-ok :
      (allowance : ℕ) (task : Task) (behind : List Task) (w u : World)
      → w.stream.lock_lost ≡ false
      → w.stream.tasks ≡ task ∷ behind
      → Returned u (task_turn x allowance w)
      → Turned w u
  unfolding task_turn run_tasks
  task_turn-ok allowance task behind w u free tasks h =
      let opened : task_turn x allowance w ≡ run_tasks x false (task ∷ behind) allowance w =
        ap₂ (λ lost ts. run_tasks x lost ts allowance w) free tasks in
      run_task-ok allowance task behind w u tasks (sym opened ∙ h)

  -- A turn in which no coroutine has anything to do, or none gets the lock any more, changes nothing.
  pub task_turn-none :
      (allowance : ℕ) (w : World) → w.stream.tasks ≡ [] → task_turn x allowance w ≡ (w, ok tt)
  unfolding task_turn run_tasks
  task_turn-none allowance w tasks = elim (Bool-cases w.stream.lock_lost) [
    | inl lost ↦ ap₂ (λ lost' ts. run_tasks x lost' ts allowance w) lost tasks
    | inr free ↦ ap₂ (λ lost' ts. run_tasks x lost' ts allowance w) free tasks
  ]

  pub task_turn-lost :
      (allowance : ℕ) (w : World) → w.stream.lock_lost ≡ true → task_turn x allowance w ≡ (w, ok tt)
  unfolding task_turn run_tasks
  task_turn-lost allowance w lost = ap (λ lost'. run_tasks x lost' w.stream.tasks allowance w) lost
