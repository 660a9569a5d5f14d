-- ===== src/Server/Upgrading.antt =====
-- server.py: `_UpgradingConnection`, which keeps what a request's application does while the connection
-- changes from HTTP/1 to HTTP/2, and does it on the HTTP/2 stream then.
use tornado_http.Common.{
  ℕ, Bool, true, false, Option, none, some, List, [], ◌∷◌, ◌++◌, map, ◌==◌, dict_set,
}
use tornado_http.Connection.Handlers.{Call}
use tornado_http.Connection.Loop.{Serving, stream_of}
use tornado_http.Constants.{codes}
use tornado_http.Errors.{Exn, Result, ok, err}
use tornado_http.Hpack.Table.{Bytes}
use tornado_http.Server.{start_http2}
use tornado_http.Stream.{Text, Fields, StartLine, World, new_stream, reset}
use tornado_http.Stream.Outside.{Outside}
use tornado_http.Stream.Send.{write_headers, write, finish_stream}

-- A call of a request's connection. A callback is a number.
pub data Action : Type 0 where
  writes_headers : StartLine → Fields → Bytes → Action
  writes : Bytes → Action
  finishes : Action
  sets_max_body_size sets_body_timeout sets_close_callback : ℕ → Action

-- `self.conn`: an HTTP/1 connection, with the calls that are made of it, or a stream.
pub data Target : Type 0 where
  http1 : List Action → Target
  http2 : World → Target

pub record Upgrading : Type 0 where
  pub conn : Target
  pub request_start_line : Option StartLine
  pub upgrading : Bool
  pub written_headers : Option (StartLine × Fields × Bytes)
  pub written_chunks : List Bytes
  pub write_finished : Bool
  pub close_callback : Option ℕ
  pub max_body_size : Option ℕ
  pub body_timeout : Option ℕ

-- `__init__`. Only `headers_received` of the adapter sets a start line.
abbrev pub new_upgrading : Upgrading
new_upgrading = record {
  conn = Target.http1 [];
  request_start_line = none;
  upgrading = false;
  written_headers = none;
  written_chunks = [];
  write_finished = false;
  close_callback = none;
  max_body_size = none;
  body_timeout = none;
}

-- The branch `if self.upgrading` of the methods.
unfoldable pub buffer : Action → Upgrading → Upgrading
buffer (Action.writes_headers line fields content) u = record u {
  written_headers = some (line, fields, content);
}
buffer (Action.writes content) u = record u { written_chunks = u.written_chunks ++ (content ∷ []) }
buffer Action.finishes u = record u { write_finished = true }
buffer (Action.sets_max_body_size n) u = record u { max_body_size = some n }
buffer (Action.sets_body_timeout n) u = record u { body_timeout = some n }
buffer (Action.sets_close_callback n) u = record u { close_callback = some n }

-- What `switch_protocols` does of it, in its order.
abbrev pub headers_action : Option (StartLine × Fields × Bytes) → List Action
headers_action none = []
headers_action (some (line, fields, content)) = Action.writes_headers line fields content ∷ []

abbrev pub optional_action : (ℕ → Action) → Option ℕ → List Action
optional_action action none = []
optional_action action (some n) = action n ∷ []

abbrev pub finish_action : Bool → List Action
finish_action true = Action.finishes ∷ []
finish_action false = []

unfoldable pub written_actions : Upgrading → List Action
written_actions u =
    headers_action u.written_headers
    ++ (map Action.writes u.written_chunks ++ finish_action u.write_finished)

unfoldable pub replay : Upgrading → List Action
unfolding written_actions
replay u =
    written_actions u
    ++ (optional_action Action.sets_max_body_size u.max_body_size
        ++ (optional_action Action.sets_body_timeout u.body_timeout
            ++ optional_action Action.sets_close_callback u.close_callback))

-- `self.conn` is stream 1 of the connection, which does its own work while `switch_protocols` waits:
-- where that goes on, the stream and the connection are as they stand then.
unfoldable pub follow : Serving → Upgrading → Upgrading
follow s u = record u {
  conn = elim (stream_of 1 s) [
    | none ↦ u.conn
    | some stream ↦ Target.http2 (record { conn = s.conn; stream = stream })
  ];
}

-- The other way round: what is done of the stream is done of the connection.
abbrev pub hand_back : Target → Serving → Serving
hand_back (Target.http1 calls) s = s
hand_back (Target.http2 w) s = record s {
  conn = w.conn;
  streams = dict_set (◌==◌) 1 w.stream s.streams;
}

-- `"HTTP/1.1 101 Switching Protocols ..."`
abbrev pub switching_response : Text
switching_response =
    codes "HTTP/1.1 101 Switching Protocols\r\nConnection: Upgrade\r\nUpgrade: h2c\r\n\r\n"

-- The method and the path of a request's start line, which a response's has not.
abbrev pub request_line : Option StartLine → Result StartLine
request_line (some (StartLine.request method path)) = ok (StartLine.request method path)
request_line _ = err Exn.attribute_error

module _ (x : Outside) where
  -- A method of `self.conn`. A `Stream` has no `set_max_body_size` and no `set_body_timeout`, and its
  -- `set_close_callback` passes.
  unfoldable pub perform : Action → Target → Target × Result (Unit {0})
  unfolding write_headers write finish_stream
  perform action (Target.http1 calls) = (Target.http1 (calls ++ (action ∷ [])), ok tt)
  perform (Action.writes_headers line fields content) (Target.http2 w) =
      let done = write_headers x line fields content w in (Target.http2 done.0, done.1)
  perform (Action.writes content) (Target.http2 w) =
      let done = write x content w in (Target.http2 done.0, done.1)
  perform Action.finishes (Target.http2 w) =
      let done = finish_stream x w in (Target.http2 done.0, done.1)
  perform (Action.sets_close_callback n) (Target.http2 w) = (Target.http2 w, ok tt)
  perform _ (Target.http2 w) = (Target.http2 w, err Exn.attribute_error)

  -- Calls one behind another, until one raises.
  unfoldable pub perform_all : List Action → Target → Target × Result (Unit {0})
  unfolding perform
  perform_all [] target = (target, ok tt)
  perform_all (action ∷ actions) target =
      let done = perform action target in
      elim done.1 [ err e ↦ (done.0, err e) | ok _ ↦ perform_all actions done.0 ]

  unfoldable pub call_of : Bool → Action → Upgrading → Upgrading × Result (Unit {0})
  unfolding buffer perform
  call_of true action u = (buffer action u, ok tt)
  call_of false action u = let done = perform action u.conn in (record u { conn = done.0 }, done.1)

  -- A method of `_UpgradingConnection`.
  unfoldable pub call : Action → Upgrading → Upgrading × Result (Unit {0})
  unfolding call_of
  call action u = call_of u.upgrading action u

  -- The new connection, with stream 1 in it, which has no delegate.
  unfoldable pub switched_serving : Option StartLine → Serving
  unfolding new_stream
  switched_serving line =
      let conn = record start_http2.conn { calls = Call.write (x.utf8 switching_response) ∷ [] } in
      let stream = record (new_stream conn 1) { request_start_line = line; has_delegate = false } in
      record start_http2 { conn = conn; streams = dict_set (◌==◌) 1 stream start_http2.streams }

  -- `switch_protocols` until it waits for the connection's first settings: the answer, the new
  -- connection if it gets that far, and stream 1. What is raised stays in the coroutine.
  unfoldable pub begin_switch : Upgrading → Option Serving × Upgrading × Result (Unit {0})
  unfolding switched_serving follow
  begin_switch u = elim (x.io_write [] (x.utf8 switching_response)) [
    | err e ↦ (none, u, err e)
    | ok _ ↦ elim (request_line u.request_start_line) [
      | err e ↦ (some (switched_serving none), follow (switched_serving none) u, err e)
      | ok line ↦ let s = switched_serving (some line) in (some s, follow s u, ok tt)
    ]
  ]

  -- The rest of it, but for the callback, where `u.conn` follows the connection.
  unfoldable pub end_switch : Upgrading → Upgrading × Result (Unit {0})
  unfolding replay perform_all
  end_switch u =
      let done = perform_all (replay u) u.conn in
      elim done.1 [
        | err e ↦ (record u { conn = done.0 }, err e)
        | ok _ ↦ (record u { conn = done.0; close_callback = none; upgrading = false }, ok tt)
      ]

  -- The coroutine goes on, on the connection as it stands, and leaves it to the connection.
  unfoldable pub resume_switch : Serving → Upgrading → Serving × Upgrading × Result (Unit {0})
  unfolding follow end_switch
  resume_switch s u =
      let done = end_switch (follow s u) in (hand_back done.0.conn s, done.0, done.1)

  unfoldable pub reset_target : Target → Target × Result (Unit {0})
  unfolding reset
  reset_target (Target.http1 calls) = (Target.http1 calls, err Exn.attribute_error)
  reset_target (Target.http2 w) =
      let done = reset x.io_write x.returns_none w in (Target.http2 done.0, done.1)

  -- `callback()`, which is `finish` of the application's delegate.
  unfoldable pub run_callback :
      (Upgrading → Upgrading × Result (Unit {0})) → Upgrading → Upgrading × Result (Unit {0})
  unfolding reset_target
  run_callback callback u =
      let done = callback u in
      elim done.1 [
        | ok _ ↦ (done.0, ok tt)
        | err e ↦
            let reset_done = reset_target done.0.conn in
            (record done.0 { conn = reset_done.0 }, reset_done.1)
      ]
