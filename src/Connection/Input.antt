-- ===== src/Connection/Input.antt =====
-- An `IOStream` for runs of connection.py: its peer has sent the input and closed.
use tornado_http.Common.{
  ℕ, ◌+◌, ◌≤◌, ◌≡◌, ap, inl, inr, Bool-cases, length-drop, ltb→ge, List, ◌++◌, length, take, drop,
  ltb, if◌then◌else◌, arith, take-length, drop-length, length-append, ge→ltb,
}
use tornado_http.Connection.WireRoundTrip.{ReadsExactly}
use tornado_http.Errors.{Exn, Result, ok, err}

-- The next bytes, or an exception where there are not as many.
abbrev pub read_input : ℕ → List ℕ → Result (List ℕ × List ℕ)
read_input n input =
    if ltb (length input) n then err Exn.stream_closed_error else ok (take n input, drop n input)

pub read_input-ReadsExactly : ReadsExactly read_input
read_input-ReadsExactly xs ys = rw (
  ge→ltb (length (xs ++ ys)) (length xs) (omega (arith, length-append xs ys)),
  take-length xs ys,
  drop-length xs ys,
)

pub read_input-Consumes :
    (n : ℕ) (input content rest : List ℕ)
    → read_input n input ≡ ok (content, rest)
    → length rest + n ≤ length input
read_input-Consumes n input content rest h = elim (Bool-cases (ltb (length input) n)) [
  | inl e ↦ absurd (ground arith)
  | inr e ↦
      let same : drop n input ≡ rest = ground arith in
      omega (arith, length-drop n input, ap (length {A = ℕ}) same, ltb→ge (length input) n e)
]
