-- ===== src/Client.antt =====
-- tornado_http2/client.py: `_HTTP2ClientConnection`: which protocol a request's connection speaks, and the
-- stream of the request. Tornado's HTTP/1 client is outside.
use tornado_http.Common.{Bool, true, false, not, none, List, [], ◌∷◌, if◌then◌else◌}
use tornado_http.Connection.Handlers.{Params, new_params}
use tornado_http.Connection.Loop.{Serving, new_serving, create_stream}
use tornado_http.Constants.{codes}
use tornado_http.Errors.{Exn, Result, ok, ◌>>=◌, ◌>>◌, raise_if}
use tornado_http.Hpack.Table.{Bytes}
use tornado_http.Server.{Accepted, SslOptions, is_h2}
use tornado_http.Stream.{Stream}

-- `_get_ssl_options`, of what Tornado's gives: the protocols that a context offers by ALPN.
unfoldable pub get_ssl_options : SslOptions → SslOptions × List Bytes
get_ssl_options SslOptions.no_ssl = (SslOptions.no_ssl, [])
get_ssl_options (SslOptions.ssl_dict has_certfile) = (SslOptions.ssl_context, codes "h2" ∷ [])
get_ssl_options SslOptions.ssl_context = (SslOptions.ssl_context, codes "h2" ∷ [])

-- `use_http2_cleartext` is false for a `Client` and true for a `ForceHTTP2Client`.
unfoldable pub can_http2 : Bool → Accepted → Result Bool
can_http2 use_http2_cleartext Accepted.plain = ok use_http2_cleartext
can_http2 use_http2_cleartext (Accepted.ssl cipher alpn) =
    raise_if (not cipher) Exn.assertion_error >> ok (is_h2 alpn)

-- What a request is sent on.
pub data RequestConnection : Type 0 where
  http1 : RequestConnection
  http2 : Params → Serving → Stream → RequestConnection

-- `_create_connection`
unfoldable pub create_connection : Bool → Bool → Accepted → Result RequestConnection
unfolding can_http2 create_stream
create_connection use_http2_cleartext decompress_response accepted = do
  h2 ← can_http2 use_http2_cleartext accepted
  ok (
      if h2
      then (let created = create_stream (new_serving true false) in
          RequestConnection.http2 (new_params none none decompress_response) created.0 created.1)
      else RequestConnection.http1)
