-- ===== src/Server.antt =====
-- tornado_http2/server.py: `Server` and `CleartextHTTP2Server`: which protocol a connection speaks. Tornado's
-- HTTP/1 server is outside. The upgrade of a request is in the modules below.
pub mod Adapter
pub mod Items
pub mod Detection
pub mod Replay
mod Tests
pub mod Upgrading
use tornado_http.Common.{
  ℕ, Bool, true, false, not, Option, none, some, List, [], ◌∷◌, ◌++◌, bytes_eq, if◌then◌else◌,
}
use tornado_http.Connection.Handlers.{Params, new_params}
use tornado_http.Connection.Loop.{Serving, new_serving}
use tornado_http.Constants.{codes}
use tornado_http.Errors.{Exn, Result, ok, err, ◌>>◌, raise_if}
use tornado_http.Hpack.Table.{Bytes}

-- The `ssl_options` of a server: a dict, with or without a certfile, or a context.
pub data SslOptions : Type 0 where
  no_ssl ssl_context : SslOptions
  ssl_dict : Bool → SslOptions

-- `initialize`: what it sets, and the protocols that it offers by ALPN.
unfoldable pub initialize : SslOptions → Option ℕ → Bool → Result (Params × List Bytes)
initialize ssl_options max_header_size decompress_request =
    let params = new_params none max_header_size decompress_request in
    elim ssl_options [
      | SslOptions.no_ssl ↦ ok (params, [])
      | SslOptions.ssl_context ↦ ok (params, codes "h2" ∷ [])
      | SslOptions.ssl_dict has_certfile ↦
          raise_if (not has_certfile) Exn.key_error >> ok (params, codes "h2" ∷ [])
    ]

-- An accepted connection, where its handshake is done: `cipher` says that it has a cipher, and `alpn` is
-- the selected protocol.
pub data Accepted : Type 0 where
  plain : Accepted
  ssl : Bool → Option Bytes → Accepted

abbrev pub is_h2 : Option Bytes → Bool
is_h2 none = false
is_h2 (some proto) = bytes_eq proto (codes "h2")

-- What is started on a connection. `first_line` is the `_start_http1` of a `CleartextHTTP2Server`.
pub data Started : Type 0 where
  http1 http2 first_line : Started

unfoldable pub start_http1 : Bool → Started
start_http1 cleartext = if cleartext then Started.first_line else Started.http1

-- `_handle_handshake`
unfoldable pub handle_handshake : Bool → Accepted → Result Started
unfolding start_http1
handle_handshake cleartext Accepted.plain = ok (start_http1 cleartext)
handle_handshake cleartext (Accepted.ssl cipher alpn) =
    raise_if (not cipher) Exn.assertion_error
    >> ok (if is_h2 alpn then Started.http2 else start_http1 cleartext)

-- What the read of the first line comes to: its bytes and the ones behind them, a timeout, or an
-- exception.
pub data FirstRead : Type 0 where
  header_data : Bytes → Bytes → FirstRead
  timeout : FirstRead
  raised : Exn → FirstRead

-- What `_read_first_line` does: it starts a protocol on the bytes that are then to be read, closes the
-- connection, or gives it up.
pub data FirstLine : Type 0 where
  starts : Started → Bytes → FirstLine
  closes gives_up : FirstLine

-- `_read_first_line`; `unsatisfiable` says which exceptions are an `UnsatisfiableReadError`.
unfoldable pub read_first_line : (Exn → Bool) → FirstRead → Result FirstLine
read_first_line unsatisfiable (FirstRead.header_data content rest) =
    let buffer = content ++ rest in
    ok (
      FirstLine.starts
        (if bytes_eq content (codes "PRI * HTTP/2.0\r\n\r\n") then Started.http2 else Started.http1)
        buffer)
read_first_line unsatisfiable FirstRead.timeout = ok FirstLine.closes
read_first_line unsatisfiable (FirstRead.raised Exn.stream_closed_error) = ok FirstLine.gives_up
read_first_line unsatisfiable (FirstRead.raised e) =
    if unsatisfiable e then ok FirstLine.gives_up else err e

-- `_start_http2`: the connection whose loop is started, with the server for a delegate.
abbrev pub start_http2 : Serving
start_http2 = new_serving false true
