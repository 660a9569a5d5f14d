-- ===== src/Stream/Headers.antt =====
-- stream.py: the headers of a block, one by one, and `_start_request`.
use tornado_http.Common.{
  ℕ, Bool, true, false, not, ◌&&◌, ◌||◌, Option, none, some, List, [], ◌∷◌, ◌++◌, ◌==◌,
  if◌then◌else◌, bytes_eq, Dict, dict_get, dict_set,
}
use tornado_http.Common.Int.{ℤ, pos, ltb_ℤ}
use tornado_http.Constants.{codes, ErrorCode, HttpPhase}
use tornado_http.Errors.{Exn, Result, ok, err, ◌>>=◌, ◌>>◌, raise_if}
use tornado_http.Frames.{Frame}
use tornado_http.Hpack.Decoder.{Header}
use tornado_http.Hpack.Encoder.{lower}
use tornado_http.Hpack.Table.{Bytes}
use tornado_http.Stream.{
  Text, Fields, StartLine, DelegateCall, Stream, Method, update, delegate_call,
}
use tornado_http.Stream.Outside.{Outside, parse_int}
use tornado_http.Stream.Send.{is_code, line_method}

-- `b''.join(f.data for f in self._header_frames)`
unfoldable pub join_frames : List Frame → Bytes
join_frames [] = []
join_frames (f ∷ fs) = f.payload ++ join_frames fs

abbrev pub is_headers_phase : HttpPhase → Bool
is_headers_phase HttpPhase.headers = true
is_headers_phase _ = false

abbrev pub is_body_phase : HttpPhase → Bool
is_body_phase HttpPhase.body = true
is_body_phase _ = false

-- The variables of the loop over a header block.
pub record Scan : Type 0 where
  pub pseudo_headers : Dict Text (Option Text)
  pub headers : Fields
  pub has_regular_header : Bool

abbrev pub starts_with_colon : Bytes → Bool
starts_with_colon [] = false
starts_with_colon (c ∷ cs) = c == b':'

-- `k in valid_pseudo_headers`
unfoldable pub is_valid_pseudo : Bool → Bytes → Bool
is_valid_pseudo is_client k =
    if is_client
    then bytes_eq k (codes ":status")
    else bytes_eq k (codes ":method")
      || bytes_eq k (codes ":scheme")
      || bytes_eq k (codes ":authority")
      || bytes_eq k (codes ":path")

-- `int(headers[k])` of a pseudo-header: `int(None)` raises.
abbrev pub int_of : Option (Option Text) → Result ℤ
int_of none = err Exn.key_error
int_of (some none) = err Exn.type_error
int_of (some (some text)) = parse_int text

-- The lines of the static table with these names all have values.
abbrev pub text_of : Option (Option Text) → Text
text_of (some (some text)) = text
text_of _ = []

abbrev pub is_some {ℓ} : {A : Type ℓ} → Option A → Bool
is_some none = false
is_some (some a) = true

module _ (x : Outside) where
  -- `native_str(None)` is `None`.
  abbrev pub native_value : Option Bytes → Result (Option Text)
  native_value none = ok none
  native_value (some v) = x.native_str v >>= λ text. ok (some text)

  -- `headers.add(name, value)`
  unfoldable pub add_header : Text → Option Text → Fields → Result Fields
  add_header name value fields =
      x.add_field fields name value >> ok (fields ++ ((name, value) ∷ []))

  -- The checks on a pseudo-header, in the order of the `or`.
  unfoldable pub scan_pseudo : Bool → ℕ → Bytes → Option Bytes → Scan → Result Scan
  unfolding is_valid_pseudo add_header
  scan_pseudo is_client stream_id k v s = do
    raise_if (s.has_regular_header || not (is_valid_pseudo is_client k))
        (Exn.stream_error stream_id ErrorCode.protocol_error)
    name ← x.native_str k
    raise_if (is_some (dict_get bytes_eq name s.pseudo_headers))
        (Exn.stream_error stream_id ErrorCode.protocol_error)
    value ← native_value v
    let pseudo = dict_set bytes_eq name value s.pseudo_headers
    fields ←
        if bytes_eq k (codes ":authority")
        then add_header (codes "Host") value s.headers
        else ok s.headers
    ok (record s { pseudo_headers = pseudo; headers = fields })

  unfoldable pub scan_regular : Bytes → Option Bytes → Scan → Result Scan
  unfolding add_header
  scan_regular k v s = do
    name ← x.native_str k
    value ← native_value v
    fields ← add_header name value s.headers
    ok (record s { headers = fields; has_regular_header = true })

  -- One round of `for k, v, idx in self.conn.hpack_decoder.decode(...)`.
  unfoldable pub scan_header : Bool → ℕ → Header → Scan → Result Scan
  unfolding scan_pseudo scan_regular
  scan_header is_client stream_id ((k, v), mode) s = do
    raise_if (not (bytes_eq k (lower k))) (Exn.stream_error stream_id ErrorCode.protocol_error)
    if starts_with_colon k then scan_pseudo is_client stream_id k v s else scan_regular k v s

  unfoldable pub scan_headers : Bool → ℕ → List Header → Scan → Result Scan
  unfolding scan_header
  scan_headers is_client stream_id [] s = ok s
  scan_headers is_client stream_id (h ∷ hs) s =
      scan_header is_client stream_id h s >>= scan_headers is_client stream_id hs

  -- The start line that the pseudo-headers give, and the status on a client.
  unfoldable pub make_start_line : Bool → ℕ → Dict Text (Option Text) → Result (StartLine × ℤ)
  make_start_line is_client stream_id pseudo =
      let value : Text → Option (Option Text) = λ name. dict_get bytes_eq name pseudo in
      if is_client
      then (do
        status ← int_of (value (codes ":status"))
        ok (StartLine.response status (x.responses status), status))
      else (do
        raise_if
            (not (
              is_some (value (codes ":method"))
              && is_some (value (codes ":scheme"))
              && is_some (value (codes ":path"))))
            (Exn.stream_error stream_id ErrorCode.protocol_error)
        ok (
          StartLine.request (text_of (value (codes ":method"))) (text_of (value (codes ":path"))),
          pos 0,
        ))

  -- The checks on the regular headers.
  unfoldable pub check_fields : ℕ → Fields → Result (Unit {0})
  check_fields stream_id fields = do
    raise_if (x.has_field (codes "connection") fields) (
        Exn.connection_error ErrorCode.protocol_error
          (some (codes "connection header should not be present")))
    if x.has_field (codes "te") fields
        then (do
          te ← x.get_field (codes "te") fields
          raise_if (not (bytes_eq te (codes "trailers")))
              (Exn.stream_error stream_id ErrorCode.protocol_error))
        else ok tt

  -- Whether the message has no content whatever its headers say.
  unfoldable pub no_content : Bool → ℤ → Stream → Result Bool
  unfolding line_method
  no_content is_client status s =
      if is_client
      then (do
        method ← line_method s.request_start_line
        ok (bytes_eq method (codes "HEAD") || is_code 304 status))
      else ok false

  unfoldable pub incoming_length : Bool → ℤ → Fields → Stream → Result (Option ℤ)
  unfolding no_content
  incoming_length is_client status fields s = do
    empty ← no_content is_client status s
    if empty
        then ok (some (pos 0))
        else if x.has_field (codes "content-length") fields
        then (do
          text ← x.get_field (codes "content-length") fields
          n ← parse_int text
          ok (some n))
        else ok s.incoming_content_remaining

  unfoldable pub start_request : Dict Text (Option Text) → Fields → Method
  unfolding check_fields make_start_line incoming_length
  start_request pseudo fields w =
      let client = w.conn.is_client in
      elim (check_fields w.stream.stream_id fields
        >> make_start_line client w.stream.stream_id pseudo) [
          | err e ↦ (w, err e)
          | ok (line, status) ↦
              let w1 =
                update
                  (λ s. record s {
                    request_start_line = if client then s.request_start_line else some line;
                  })
                  w in
              elim (incoming_length client status fields w1.stream) [
                | err e ↦ (w1, err e)
                | ok remaining ↦
                    let w2 =
                      update
                        (λ s. record s {
                          incoming_content_remaining = remaining;
                          phase =
                              if not client || not (ltb_ℤ status (pos 200))
                              then HttpPhase.body
                              else s.phase;
                          delegate_started = true;
                        })
                        w1 in
                    if w1.stream.has_delegate
                    then (
                      update (delegate_call (DelegateCall.headers_received line fields)) w2,
                      ok tt,
                    )
                    else (w2, err Exn.attribute_error)
              ]
        ]
