-- ===== src/Server/Replay.antt =====
-- server.py: what an application writes while its connection is upgraded, against what the stream gets.
use tornado_http.Common.{
  ℕ, ◌≡◌, refl, sym, ap, ap₂, ◌∙◌, arith, Bool, true, false, Option, none, some, List, [], ◌∷◌,
  ◌++◌, map, append-nil, append_assoc, inl, inr,
}
use tornado_http.Connection.Loop.{Serving}
use tornado_http.Errors.{Exn, Result, ok, err, Result-cases}
use tornado_http.Hpack.Table.{Bytes}
use tornado_http.Server.Upgrading.{
  Action, Target, Upgrading, new_upgrading, buffer, headers_action, optional_action, finish_action,
  written_actions, replay, perform, request_line, switching_response, perform_all, call_of, call,
  switched_serving, follow, hand_back, begin_switch, end_switch, resume_switch,
}
use tornado_http.Stream.{Fields, StartLine, World}
use tornado_http.Stream.Outside.{Outside}

-- A response as an application writes it: headers, if it has got that far, chunks, and the end.
abbrev pub response : Option (StartLine × Fields × Bytes) → List Bytes → Bool → List Action
response headers chunks finished =
    headers_action headers ++ (map Action.writes chunks ++ finish_action finished)

-- The request is an upgrade, and its application has not called yet.
abbrev pub waiting : Target → Option StartLine → Upgrading
waiting conn line = record new_upgrading {
  conn = conn;
  request_start_line = line;
  upgrading = true;
}

abbrev buffers : List Action → Upgrading → Upgrading
buffers [] u = u
buffers (action ∷ actions) u = buffers actions (buffer action u)

buffers-append :
    (before after : List Action) (u : Upgrading)
    → buffers (before ++ after) u ≡ buffers after (buffers before u)
buffers-append [] after u = refl
buffers-append (action ∷ before) after u = buffers-append before after (buffer action u)

buffer-conn :
    (action : Action) (conn : Target) (u : Upgrading)
    → buffer action (record u { conn = conn }) ≡ record (buffer action u) { conn = conn }
unfolding buffer
buffer-conn (Action.writes_headers line fields content) conn u = refl
buffer-conn (Action.writes content) conn u = refl
buffer-conn Action.finishes conn u = refl
buffer-conn (Action.sets_max_body_size n) conn u = refl
buffer-conn (Action.sets_body_timeout n) conn u = refl
buffer-conn (Action.sets_close_callback n) conn u = refl

buffers-conn :
    (actions : List Action) (conn : Target) (u : Upgrading)
    → buffers actions (record u { conn = conn }) ≡ record (buffers actions u) { conn = conn }
buffers-conn [] conn u = refl
buffers-conn (action ∷ actions) conn u =
    ap (buffers actions) (buffer-conn action conn u) ∙ buffers-conn actions conn (buffer action u)

buffers-chunks :
    (chunks : List Bytes) (rest : List Action) (u : Upgrading)
    → buffers (map Action.writes chunks ++ rest) u
      ≡ buffers rest (record u { written_chunks = u.written_chunks ++ chunks })
unfolding buffer
buffers-chunks [] rest u =
    ap (λ cs. buffers rest (record u { written_chunks = cs })) (sym (append-nil u.written_chunks))
buffers-chunks (c ∷ cs) rest u =
    buffers-chunks cs rest (record u { written_chunks = u.written_chunks ++ (c ∷ []) })
    ∙ ap (λ ds. buffers rest (record u { written_chunks = ds }))
        (append_assoc u.written_chunks (c ∷ []) cs)

replay-response :
    (headers : Option (StartLine × Fields × Bytes)) (chunks : List Bytes) (finished : Bool)
    (conn : Target) (line : Option StartLine)
    → replay (buffers (response headers chunks finished) (waiting conn line))
      ≡ response headers chunks finished
unfolding replay buffer written_actions
replay-response none chunks true conn line =
    ap replay (buffers-chunks chunks (Action.finishes ∷ []) (waiting conn line))
    ∙ append-nil (response none chunks true)
replay-response none chunks false conn line =
    ap replay (buffers-chunks chunks [] (waiting conn line))
    ∙ append-nil (response none chunks false)
replay-response (some (start, fields, content)) chunks true conn line =
    ap replay (
      buffers-chunks chunks (Action.finishes ∷ [])
        (buffer (Action.writes_headers start fields content) (waiting conn line)))
    ∙ append-nil (response (some (start, fields, content)) chunks true)
replay-response (some (start, fields, content)) chunks false conn line =
    ap replay (
      buffers-chunks chunks []
        (buffer (Action.writes_headers start fields content) (waiting conn line)))
    ∙ append-nil (response (some (start, fields, content)) chunks false)

buffer-upgrading : (action : Action) (u : Upgrading) → (buffer action u).upgrading ≡ u.upgrading
unfolding buffer
buffer-upgrading action u = ground arith

buffers-upgrading :
    (actions : List Action) (u : Upgrading) → (buffers actions u).upgrading ≡ u.upgrading
buffers-upgrading [] u = refl
buffers-upgrading (action ∷ actions) u =
    buffers-upgrading actions (buffer action u) ∙ buffer-upgrading action u

module _ (x : Outside) where
  -- The application's calls, one behind another, until one raises.
  unfoldable pub call_all : List Action → Upgrading → Upgrading × Result (Unit {0})
  call_all [] u = (u, ok tt)
  call_all (action ∷ actions) u =
      let done = call x action u in
      elim done.1 [ err e ↦ (done.0, err e) | ok _ ↦ call_all actions done.0 ]

  call_all-buffers :
      (actions : List Action) (u : Upgrading)
      → u.upgrading ≡ true
      → call_all actions u ≡ (buffers actions u, ok tt)
  unfolding call_all call call_of
  call_all-buffers [] u h = refl
  call_all-buffers (action ∷ actions) u h =
      let opened : call x action u ≡ (buffer action u, ok tt) = ap (λ b. call_of x b action u) h in
      let next : call_all (action ∷ actions) u ≡ call_all actions (buffer action u) =
        rw (ap (λ (p : Upgrading × Result (Unit {0})). p.1) opened, call_all)
          (ap (λ (p : Upgrading × Result (Unit {0})). call_all actions p.0) opened) in
      next ∙ call_all-buffers actions (buffer action u) (buffer-upgrading action u ∙ h)

  begin_switch-conn :
      (u : Upgrading) → (conn : Target) × ((begin_switch x u).1 ≡ record u { conn = conn })
  unfolding begin_switch follow
  begin_switch-conn u = elim (Result-cases (x.io_write [] (x.utf8 switching_response))) [
    | inr (raised, e) ↦ (u.conn, rw (e, begin_switch) refl)
    | inl (_, e) ↦ elim (Result-cases (request_line u.request_start_line)) [
      | inl (line, e') ↦
          ((follow (switched_serving x (some line)) u).conn, rw (e, e', begin_switch) refl)
      | inr (raised, e') ↦
          ((follow (switched_serving x none) u).conn, rw (e, e', begin_switch) refl)
    ]
  ]

  end_switch-conn :
      (u : Upgrading) (actions : List Action) (conn : Target)
      → replay u ≡ actions
      → u.conn ≡ conn
      → ((end_switch x u).0.conn, (end_switch x u).1) ≡ perform_all x actions conn
  unfolding end_switch
  end_switch-conn u actions conn all target =
      let run : perform_all x (replay u) u.conn ≡ perform_all x actions conn =
        ap₂ (perform_all x) all target in
      elim (Result-cases (perform_all x (replay u) u.conn).1) [
        | inl (_, e) ↦
            let opened : end_switch x u ≡ (
              record u {
                conn = (perform_all x (replay u) u.conn).0;
                close_callback = none;
                upgrading = false;
              },
              ok tt,
            ) =
              rw (e, end_switch) refl in
            ap (λ (p : Upgrading × Result (Unit {0})). (p.0.conn, p.1)) opened
            ∙ ap (λ (r : Result (Unit {0})). ((perform_all x (replay u) u.conn).0, r)) (sym e)
            ∙ run
        | inr (raised, e) ↦
            let opened : end_switch x u
                ≡ (record u { conn = (perform_all x (replay u) u.conn).0 }, err raised) =
              rw (e, end_switch) refl in
            ap (λ (p : Upgrading × Result (Unit {0})). (p.0.conn, p.1)) opened
            ∙ ap (λ (r : Result (Unit {0})). ((perform_all x (replay u) u.conn).0, r)) (sym e)
            ∙ run
      ]

  -- A request that is upgraded, whose application writes a response, its headers, if it has got that far,
  -- any chunks and the end, or any first part of that, in calls before and after the connection is switched
  -- but before the switch is over: each of the calls returns, and the end of the switch leaves the
  -- stream and raises what the same calls, made one behind another until one raises of the stream itself,
  -- as the connection has left it until then, leave and raise, and the connection is left with that stream.
  pub end_switch-response :
      (headers : Option (StartLine × Fields × Bytes)) (chunks : List Bytes) (finished : Bool)
      (before after : List Action) (conn : Target) (line : Option StartLine) (s s' : Serving)
      (u : Upgrading)
      → before ++ after ≡ response headers chunks finished
      → begin_switch x (call_all before (waiting conn line)).0 ≡ (some s, u, ok tt)
      → ((call_all before (waiting conn line)).1 ≡ ok tt)
        × ((call_all after u).1 ≡ ok tt)
        × ((
          (resume_switch x s' (call_all after u).0).1.conn,
          (resume_switch x s' (call_all after u).0).2,
        )
            ≡ perform_all x (response headers chunks finished) (follow s' u).conn)
        × ((resume_switch x s' (call_all after u).0).0
            ≡ hand_back (perform_all x (response headers chunks finished) (follow s' u).conn).0 s')
  unfolding replay follow resume_switch
  end_switch-response headers chunks finished before after conn line s s' u all h =
      let first = call_all-buffers before (waiting conn line) refl in
      let u1 : Upgrading = (call_all before (waiting conn line)).0 in
      let same1 : u1 ≡ buffers before (waiting conn line) =
        ap (λ (p : Upgrading × Result (Unit {0})). p.0) first in
      let (target, left) = begin_switch-conn u1 in
      let switched : record u1 { conn = target } ≡ u =
        sym left ∙ ap (λ (p : Option Serving × Upgrading × Result (Unit {0})). p.1) h in
      let waits : u.upgrading ≡ true =
        ap (λ (v : Upgrading). v.upgrading) (sym switched)
        ∙ ap (λ (v : Upgrading). v.upgrading) same1
        ∙ buffers-upgrading before (waiting conn line) in
      let second = call_all-buffers after u waits in
      let u3 : Upgrading = follow s' (call_all after u).0 in
      let kept : (call_all after u).0
          ≡ record (buffers (response headers chunks finished) (waiting conn line)) {
            conn = target;
          } =
        ap (λ (p : Upgrading × Result (Unit {0})). p.0) second
        ∙ ap (buffers after) (sym switched)
        ∙ buffers-conn after target u1
        ∙ ap (λ v. record (buffers after v) { conn = target }) same1
        ∙ ap (λ (v : Upgrading). record v { conn = target })
            (sym (buffers-append before after (waiting conn line)))
        ∙ ap (λ acts. record (buffers acts (waiting conn line)) { conn = target }) all in
      let same3 : u3 ≡ record (buffers (response headers chunks finished) (waiting conn line)) {
        conn = (follow s' (record u1 { conn = target })).conn;
      } =
        ap (follow s') kept in
      let done =
        end_switch-conn u3 (response headers chunks finished) (follow s' u).conn
          (ap replay same3 ∙ replay-response headers chunks finished conn line)
          (ap (λ (v : Upgrading). v.conn) same3
            ∙ ap (λ (v : Upgrading). (follow s' v).conn) switched) in
      (
        ap (λ (p : Upgrading × Result (Unit {0})). p.1) first,
        ap (λ (p : Upgrading × Result (Unit {0})). p.1) second,
        done,
        ap (λ (p : Target × Result (Unit {0})). hand_back p.0 s') done,
      )

  perform_all-append :
      (actions more : List Action) (conn conn' : Target)
      → perform_all x actions conn ≡ (conn', ok tt)
      → perform_all x (actions ++ more) conn ≡ perform_all x more conn'
  unfolding perform_all
  perform_all-append [] more conn conn' h =
      ap (λ (p : Target × Result (Unit {0})). perform_all x more p.0) h
  perform_all-append (action ∷ actions) more conn conn' h =
      let done : Target × Result (Unit {0}) = perform x action conn in
      elim (Result-cases done.1) [
        | inl (_, e) ↦
            let opened : perform_all x (action ∷ actions) conn ≡ perform_all x actions done.0 =
              rw (e, perform_all) refl in
            let opened' : perform_all x (action ∷ (actions ++ more)) conn
                ≡ perform_all x (actions ++ more) done.0 =
              rw (e, perform_all) refl in
            opened' ∙ perform_all-append actions more done.0 conn' (sym opened ∙ h)
        | inr (raised, e) ↦
            let opened : perform_all x (action ∷ actions) conn ≡ (done.0, err raised) =
              rw (e, perform_all) refl in
            absurd (cc (ap (λ (p : Target × Result (Unit {0})). p.1) (sym opened ∙ h)))
      ]

  -- Where the application has set a limit on the body during the switch, the end of the switch raises an
  -- AttributeError even if all that was written goes well: a stream has no `set_max_body_size`. The
  -- connection is left upgrading, so that every later call of the application is only kept.
  pub end_switch-max_body_size :
      (u : Upgrading) (n : ℕ) (w : World)
      → u.upgrading ≡ true
      → u.max_body_size ≡ some n
      → perform_all x (written_actions u) u.conn ≡ (Target.http2 w, ok tt)
      → ((end_switch x u).1 ≡ err Exn.attribute_error)
        × ((end_switch x u).0.upgrading ≡ true)
        × ((action : Action)
            → call x action (end_switch x u).0 ≡ (buffer action (end_switch x u).0, ok tt))
  unfolding replay perform perform_all end_switch call call_of
  end_switch-max_body_size u n w waits limit goes =
      let more : Option ℕ → List Action = λ limit'.
        optional_action Action.sets_max_body_size limit'
        ++ (optional_action Action.sets_body_timeout u.body_timeout
            ++ optional_action Action.sets_close_callback u.close_callback) in
      let run : perform_all x (replay u) u.conn ≡ (Target.http2 w, err Exn.attribute_error) =
        perform_all-append (written_actions u) (more u.max_body_size) u.conn (Target.http2 w) goes
        ∙ ap (λ limit'. perform_all x (more limit') (Target.http2 w)) limit in
      let opened : end_switch x u
          ≡ (record u { conn = (perform_all x (replay u) u.conn).0 }, err Exn.attribute_error) =
        rw (ap (λ (p : Target × Result (Unit {0})). p.1) run, end_switch) refl in
      let stays : (end_switch x u).0.upgrading ≡ true =
        ap (λ (p : Upgrading × Result (Unit {0})). p.0.upgrading) opened ∙ waits in
      (
        ap (λ (p : Upgrading × Result (Unit {0})). p.1) opened,
        stays,
        λ action. ap (λ b. call_of x b action (end_switch x u).0) stays,
      )
