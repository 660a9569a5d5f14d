-- ===== src/Server/Detection.antt =====
-- server.py: a cleartext client that starts with the HTTP/2 preface is taken for one, and loses nothing.
use tornado_http.Common.{ℕ, ◌≡◌, refl, ap, ◌∙◌, Bool, false, ◌++◌, bytes_eq, if◌then◌else◌}
use tornado_http.Connection.Handlers.{Params, new_connection}
use tornado_http.Connection.Loop.{
  Serving, write_settings, then_settings, exchange_preface, open_connection,
}
use tornado_http.Connection.WireRoundTrip.{ReadsExactly}
use tornado_http.Constants.{codes, client_preface}
use tornado_http.Errors.{Exn, Result, ok, ◌>>=◌}
use tornado_http.Hpack.Table.{Bytes}
use tornado_http.Server.{Started, FirstRead, FirstLine, read_first_line, start_http2}
use tornado_http.Stream.Outside.{Outside}

-- What `read_until_regex(b'\r?\n\r?\n')` gives of an input: its bytes up to an empty line, and the rest.
abbrev pub IsSplit : Bytes → FirstRead → Type 0
IsSplit input (FirstRead.header_data content rest) = content ++ rest ≡ input
IsSplit input _ = Unit {0}

accepts-preface :
    (x : Outside) (params : Params) (read_bytes : ℕ → Bytes → Result (Bytes × Bytes))
    (behind : Bytes) (s : Serving)
    → ReadsExactly read_bytes
    → exchange_preface x params read_bytes false (client_preface ++ behind) s ≡ (s, ok behind)
unfolding exchange_preface bytes_eq
accepts-preface x params read_bytes behind s reads = rw (reads client_preface behind) refl

-- A cleartext server whose client sends the HTTP/2 preface, and any bytes behind it, and whose first read
-- ends with the first empty line of it, starts HTTP/2 on exactly the bytes that came; the new
-- connection accepts the preface, and goes on, behind its settings, with the bytes behind it.
pub read_first_line-preface :
    (x : Outside) (params : Params) (read_bytes : ℕ → Bytes → Result (Bytes × Bytes))
    (unsatisfiable : Exn → Bool) (content rest behind : Bytes)
    → ReadsExactly read_bytes
    → content ≡ codes "PRI * HTTP/2.0\r\n\r\n"
    → IsSplit (client_preface ++ behind) (FirstRead.header_data content rest)
    → (buffer : Bytes) × (read_first_line unsatisfiable (FirstRead.header_data content rest)
        ≡ ok (FirstLine.starts Started.http2 buffer))
      × (open_connection x params read_bytes buffer start_http2 ≡ (
        (write_settings x params read_bytes start_http2).0,
        (write_settings x params read_bytes start_http2).1 >>= λ _. ok behind,
      ))
unfolding read_first_line open_connection then_settings bytes_eq new_connection
read_first_line-preface x params read_bytes unsatisfiable content rest behind reads is_preface
      split =
    let preface = accepts-preface x params read_bytes behind start_http2 reads in
    (
      content ++ rest,
      ap
          (λ start. ok (
            FirstLine.starts
              (if bytes_eq start (codes "PRI * HTTP/2.0\r\n\r\n")
                then Started.http2
                else Started.http1)
              (content ++ rest)))
          is_preface,
      ap (λ buffer. open_connection x params read_bytes buffer start_http2) split
          ∙ ap (then_settings x params read_bytes) preface,
    )
