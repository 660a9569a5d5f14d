-- ===== src/Stream/OutgoingLength.antt =====
-- stream.py: the content length that an outgoing message announces, against what is written.
use tornado_http.Common.{
  ℕ, ◌+◌, ◌-◌, ◌≤◌, ◌≡◌, refl, sym, ap, ◌∙◌, arith, Bool, true, false, some, List, [], ◌∷◌, ◌++◌,
  length,
}
use tornado_http.Common.Int.{pos}
use tornado_http.Connection.Handlers.{write_frame}
use tornado_http.Errors.{Result, ok}
use tornado_http.Hpack.Table.{Bytes}
use tornado_http.Stream.{Task, World, write_on, reset}
use tornado_http.Stream.Items.{Returned}
use tornado_http.Stream.Order.{Sends}
use tornado_http.Stream.Turns.{reset_on_error-ok}
use tornado_http.Stream.Outside.{Outside}
use tornado_http.Stream.Send.{
  write_body, write, finish_body, finish_stream, write_round, write_end_stream, run_task, run_tasks,
  task_turn,
}

abbrev pub content_length : List Task → ℕ
content_length [] = 0
content_length (Task.chunk content ∷ ts) = length content + content_length ts
content_length (Task.end_stream ∷ ts) = content_length ts

content_length-append :
    (ts us : List Task) → content_length (ts ++ us) ≡ content_length ts + content_length us
content_length-append [] us = omega arith
content_length-append (Task.chunk content ∷ ts) us = omega (arith, content_length-append ts us)
content_length-append (Task.end_stream ∷ ts) us = content_length-append ts us

module _ (x : Outside) where
  write_body-remaining :
      (content : Bytes) (n : ℕ) (w u : World)
      → w.stream.outgoing_content_remaining ≡ some (pos n)
      → Returned u (write_body x content w)
      → (length content ≤ n)
        × (u.stream.outgoing_content_remaining ≡ some (pos (n - length content)))
  unfolding write_body
  write_body-remaining content n w u remaining h = ground arith

  finish_body-remaining :
      (n : ℕ) (w u : World)
      → w.stream.outgoing_content_remaining ≡ some (pos n)
      → Returned u (finish_body x w)
      → (n ≡ 0) × (u.stream.outgoing_content_remaining ≡ some (pos 0))
  unfolding finish_body
  finish_body-remaining n w u remaining h = ground arith

  run_task-remaining :
      (task : Task) (behind : List Task) (allowance : ℕ) (w : World)
      → (run_task x task behind allowance w).0.stream.outgoing_content_remaining
        ≡ w.stream.outgoing_content_remaining
  unfolding run_task write_round write_end_stream reset write_on write_frame
  run_task-remaining (Task.chunk content) behind allowance w = ground arith
  run_task-remaining Task.end_stream behind allowance w = ground arith

  run_tasks-remaining :
      (lost : Bool) (tasks : List Task) (allowance : ℕ) (w : World)
      → (run_tasks x lost tasks allowance w).0.stream.outgoing_content_remaining
        ≡ w.stream.outgoing_content_remaining
  unfolding run_tasks
  run_tasks-remaining true tasks allowance w = refl
  run_tasks-remaining false [] allowance w = refl
  run_tasks-remaining false (task ∷ behind) allowance w = run_task-remaining task behind allowance w

  -- What is asked for is within the length, and the rest of the length is kept.
  Sends-remaining :
      {w : World} {asked : List Task} {u : World} (n : ℕ)
      → w.stream.outgoing_content_remaining ≡ some (pos n)
      → Sends x w asked u
      → (content_length asked ≤ n)
        × (u.stream.outgoing_content_remaining ≡ some (pos (n - content_length asked)))
  unfolding write finish_stream task_turn
  Sends-remaining n start Sends.none_yet =
      (omega arith, start ∙ ap (λ m. some (pos m)) (omega arith))
  Sends-remaining {u = u} n start (Sends.writes {asked = asked} {v = v} content before h) =
      let (within, kept) = Sends-remaining n start before in
      let (within', kept') =
        write_body-remaining content (n - content_length asked) v u kept
          (reset_on_error-ok x (write_body x content) v u h) in
      let all = content_length-append asked (Task.chunk content ∷ []) in
      (omega (arith, all, within, within'), kept' ∙ ap (λ m. some (pos m)) (omega (arith, all)))
  Sends-remaining {u = u} n start (Sends.finishes {asked = asked} {v = v} before h) =
      let (within, kept) = Sends-remaining n start before in
      let (done, kept') =
        finish_body-remaining (n - content_length asked) v u kept
          (reset_on_error-ok x (finish_body x) v u h) in
      let all = content_length-append asked (Task.end_stream ∷ []) in
      (omega (arith, all, within), kept' ∙ ap (λ m. some (pos m)) (omega (arith, all, done)))
  Sends-remaining {u = u} n start (Sends.turns {asked = asked} {v = v} allowance before h) =
      let (within, kept) = Sends-remaining n start before in
      (
        within,
        ap (λ (r : World × Result (Unit {0})). r.0.stream.outgoing_content_remaining) (sym h)
            ∙ run_tasks-remaining v.stream.lock_lost v.stream.tasks allowance v
            ∙ kept,
      )

  -- Where the headers of an outgoing message have announced a content length, and `finish` returns behind
  -- any calls of `write` that have returned, with any turns of their coroutines that have returned, those
  -- calls have brought exactly as many bytes as announced.
  pub finish_stream-length :
      {asked : List Task} (w u v : World) (n : ℕ)
      → w.stream.outgoing_content_remaining ≡ some (pos n)
      → Sends x w asked u
      → finish_stream x u ≡ (v, ok tt)
      → content_length asked ≡ n
  unfolding finish_stream
  finish_stream-length {asked = asked} w u v n start sends h =
      let (within, kept) = Sends-remaining n start sends in
      let (done, _) =
        finish_body-remaining (n - content_length asked) u v kept
          (reset_on_error-ok x (finish_body x) u v h) in
      omega (arith, within, done)
