-- ===== src/Server/Tests.antt =====
-- server.py: a client with the preface, a request with an Upgrade header, and a response that is written
-- around the switch, with the theorems at them.
use tornado_http.Common.{◌≡◌, ◌↔◌, refl, true, false, none, some, List, [], ◌∷◌, ◌++◌}
use tornado_http.Common.Int.{pos}
use tornado_http.Connection.Handlers.{new_connection, new_params}
use tornado_http.Connection.Input.{read_input, read_input-ReadsExactly}
use tornado_http.Connection.Loop.{Serving, open_connection, write_settings}
use tornado_http.Constants.{codes}
use tornado_http.Errors.{Exn, ok, err, ◌>>=◌}
use tornado_http.Hpack.Encoder.{lower}
use tornado_http.Hpack.Table.{Bytes}
use tornado_http.Server.{Started, FirstRead, FirstLine, read_first_line, start_http2}
use tornado_http.Server.Adapter.{adapter_headers_received, adapter_headers_received-items}
use tornado_http.Server.Detection.{read_first_line-preface}
use tornado_http.Server.Items.{AnyH2c}
use tornado_http.Server.Replay.{
  response, waiting, call_all, end_switch-response, end_switch-max_body_size,
}
use tornado_http.Server.Upgrading.{
  Action, Target, Upgrading, new_upgrading, buffer, written_actions, perform_all, call, call_of,
  switched_serving, follow, hand_back, begin_switch, end_switch, resume_switch,
}
use tornado_http.Stream.{Fields, StartLine, World, new_stream}
use tornado_http.Stream.Example.{example}
use tornado_http.Common.{bytes_eq, dict_get, dict_set}

read_first_line-preface_example :
    (buffer : Bytes) × (read_first_line
        (λ e. false)
        (FirstRead.header_data (codes "PRI * HTTP/2.0\r\n\r\n") (codes "SM\r\n\r\n" ++ (0 ∷ [])))
      ≡ ok (FirstLine.starts Started.http2 buffer))
    × (open_connection example (new_params none none false) read_input buffer start_http2 ≡ (
      (write_settings example (new_params none none false) read_input start_http2).0,
      (write_settings example (new_params none none false) read_input start_http2).1 >>= λ _.
          ok (0 ∷ []),
    ))
read_first_line-preface_example =
    read_first_line-preface example (new_params none none false) read_input (λ e. false)
      (codes "PRI * HTTP/2.0\r\n\r\n") (codes "SM\r\n\r\n" ++ (0 ∷ [])) (0 ∷ [])
      read_input-ReadsExactly refl refl

abbrev upgrade_fields : Fields
upgrade_fields = (codes "Upgrade", some (codes "foo, h2c")) ∷ []

abbrev get_line : StartLine
get_line = StartLine.request (codes "GET") (codes "/")

adapter_headers_received-items_example :
    ((adapter_headers_received example get_line upgrade_fields new_upgrading).1 ≡ ok get_line)
    × ((adapter_headers_received example get_line upgrade_fields new_upgrading).0.request_start_line
        ≡ some get_line)
    × (((adapter_headers_received example get_line upgrade_fields new_upgrading).0.upgrading ≡ true)
        ↔ AnyH2c (codes "foo" ∷ codes " h2c" ∷ []))
unfolding bytes_eq lower
adapter_headers_received-items_example =
    adapter_headers_received-items example (codes "GET") (codes "/") upgrade_fields new_upgrading
      (codes "foo") (codes " h2c" ∷ []) refl refl refl
      ((refl, (refl, (refl, tt))), ((refl, (refl, (refl, (refl, tt)))), tt))

abbrev ok_line : StartLine
ok_line = StartLine.response (pos 200) (codes "OK")

-- The headers and a chunk before the switch, the end behind it.
abbrev before_switch : List Action
before_switch = Action.writes_headers ok_line [] [] ∷ Action.writes (1 ∷ 2 ∷ []) ∷ []

abbrev upgrade : Upgrading
upgrade = waiting (Target.http1 []) (some get_line)

abbrev switched_from : Upgrading → Serving × Upgrading
switched_from u =
    let begun = begin_switch example u in
    (elim begun.0 [ none ↦ start_http2 | some s ↦ s ], begun.1)

abbrev switched : Serving × Upgrading
switched = switched_from (call_all example before_switch upgrade).0

-- The connection, once it has written its settings.
abbrev written : Serving
written = (write_settings example (new_params none none false) read_input switched.0).0

end_switch-response_example :
    ((call_all example before_switch upgrade).1 ≡ ok tt)
    × ((call_all example (Action.finishes ∷ []) switched.1).1 ≡ ok tt)
    × ((
      (resume_switch example written (call_all example (Action.finishes ∷ []) switched.1).0).1.conn,
      (resume_switch example written (call_all example (Action.finishes ∷ []) switched.1).0).2,
    )
        ≡ perform_all example
            (response (some (ok_line, [], [])) ((1 ∷ 2 ∷ []) ∷ []) true)
            (follow written switched.1).conn)
    × ((resume_switch example written (call_all example (Action.finishes ∷ []) switched.1).0).0
        ≡ hand_back
            (perform_all example
              (response (some (ok_line, [], [])) ((1 ∷ 2 ∷ []) ∷ []) true)
              (follow written switched.1).conn).0
            written)
unfolding switched_serving follow begin_switch call_all call call_of buffer
end_switch-response_example =
    end_switch-response example (some (ok_line, [], [])) ((1 ∷ 2 ∷ []) ∷ []) true before_switch
      (Action.finishes ∷ []) (Target.http1 []) (some get_line) switched.0 written switched.1 refl
      refl

-- A limit on the body, and nothing written yet.
abbrev limited : Upgrading
limited = record (switched_from upgrade).1 { max_body_size = some 9 }

abbrev upgraded_world : Target → World
upgraded_world (Target.http2 w) = w
upgraded_world (Target.http1 calls) = record {
  conn = new_connection false;
  stream = new_stream (new_connection false) 1;
}

end_switch-max_body_size_example :
    ((end_switch example limited).1 ≡ err Exn.attribute_error)
    × ((end_switch example limited).0.upgrading ≡ true)
    × ((action : Action)
        → call example action (end_switch example limited).0
          ≡ (buffer action (end_switch example limited).0, ok tt))
unfolding switched_serving follow begin_switch written_actions perform_all dict_get dict_set
end_switch-max_body_size_example =
    end_switch-max_body_size example limited 9 (upgraded_world limited.conn) refl refl refl
