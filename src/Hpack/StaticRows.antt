-- ===== src/Hpack/StaticRows.antt =====
-- tornado_http2/hpack_static_table.txt: the rows of the file, as `_load_static_table` splits them.
use tornado_http.Common.{ℕ, List, [], ◌∷◌, Option, none, some}
use tornado_http.Constants.{codes}

-- A line's number, its name, and its value where the line has a third field.
abbrev pub Row : Type 0
Row = ℕ × List ℕ × Option (List ℕ)

abbrev named : ℕ → List ℕ → Row
named i name = (i, name, none)

unfoldable pub static_rows : List Row
static_rows =
    named 1 (codes ":authority")
    ∷ (2, codes ":method", some (codes "GET"))
    ∷ (3, codes ":method", some (codes "POST"))
    ∷ (4, codes ":path", some (codes "/"))
    ∷ (5, codes ":path", some (codes "/index.html"))
    ∷ (6, codes ":scheme", some (codes "http"))
    ∷ (7, codes ":scheme", some (codes "https"))
    ∷ (8, codes ":status", some (codes "200"))
    ∷ (9, codes ":status", some (codes "204"))
    ∷ (10, codes ":status", some (codes "206"))
    ∷ (11, codes ":status", some (codes "304"))
    ∷ (12, codes ":status", some (codes "400"))
    ∷ (13, codes ":status", some (codes "404"))
    ∷ (14, codes ":status", some (codes "500"))
    ∷ named 15 (codes "accept-charset")
    ∷ (16, codes "accept-encoding", some (codes "gzip, deflate"))
    ∷ named 17 (codes "accept-language")
    ∷ named 18 (codes "accept-ranges")
    ∷ named 19 (codes "accept")
    ∷ named 20 (codes "access-control-allow-origin")
    ∷ named 21 (codes "age")
    ∷ named 22 (codes "allow")
    ∷ named 23 (codes "authorization")
    ∷ named 24 (codes "cache-control")
    ∷ named 25 (codes "content-disposition")
    ∷ named 26 (codes "content-encoding")
    ∷ named 27 (codes "content-language")
    ∷ named 28 (codes "content-length")
    ∷ named 29 (codes "content-location")
    ∷ named 30 (codes "content-range")
    ∷ named 31 (codes "content-type")
    ∷ named 32 (codes "cookie")
    ∷ named 33 (codes "date")
    ∷ named 34 (codes "etag")
    ∷ named 35 (codes "expect")
    ∷ named 36 (codes "expires")
    ∷ named 37 (codes "from")
    ∷ named 38 (codes "host")
    ∷ named 39 (codes "if-match")
    ∷ named 40 (codes "if-modified-since")
    ∷ named 41 (codes "if-none-match")
    ∷ named 42 (codes "if-range")
    ∷ named 43 (codes "if-unmodified-since")
    ∷ named 44 (codes "last-modified")
    ∷ named 45 (codes "link")
    ∷ named 46 (codes "location")
    ∷ named 47 (codes "max-forwards")
    ∷ named 48 (codes "proxy-authenticate")
    ∷ named 49 (codes "proxy-authorization")
    ∷ named 50 (codes "range")
    ∷ named 51 (codes "referer")
    ∷ named 52 (codes "refresh")
    ∷ named 53 (codes "retry-after")
    ∷ named 54 (codes "server")
    ∷ named 55 (codes "set-cookie")
    ∷ named 56 (codes "strict-transport-security")
    ∷ named 57 (codes "transfer-encoding")
    ∷ named 58 (codes "user-agent")
    ∷ named 59 (codes "vary")
    ∷ named 60 (codes "via")
    ∷ named 61 (codes "www-authenticate")
    ∷ []
