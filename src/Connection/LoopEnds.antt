-- ===== src/Connection/LoopEnds.antt =====
-- connection.py: the loop of a connection comes to an end with its input.
use tornado_http.Common.{
  ℕ, zero, suc, ◌+◌, ◌≤◌, ◌<◌, ◌≡◌, refl, ap, ◌∙◌, arith, Bool, true, false, not, bytes_eq, inl,
  inr, none, some, length, ltb,
}
use tornado_http.Connection.Handlers.{Params}
use tornado_http.Connection.Loop.{
  exchange_preface, write_settings, then_settings, Serving, frame_limit, dispatch, recover,
  serve_loop, open_connection, end_connection, finally_close, conn_loop,
}
use tornado_http.Connection.Wire.{read_frame, unpack_header}
use tornado_http.Constants.{ErrorCode, client_preface}
use tornado_http.Errors.{Exn, Result, ok, err, raise_if, >>=-eq-ok, Result-cases}
use tornado_http.Frames.{Frame}
use tornado_http.Hpack.Table.{Bytes}
use tornado_http.Stream.Outside.{Outside}

-- What `read_bytes(n)` gives has been taken off the input.
abbrev pub Consumes : (ℕ → Bytes → Result (Bytes × Bytes)) → Type 0
Consumes read_bytes =
    (n : ℕ) (input content rest : Bytes)
    → read_bytes n input ≡ ok (content, rest)
    → length rest + n ≤ length input

module _ (read_bytes : ℕ → Bytes → Result (Bytes × Bytes)) where
  read_frame_shortens :
      (limit : ℕ) (input : Bytes) (f : Frame) (rest : Bytes)
      → Consumes read_bytes
      → read_frame read_bytes limit input ≡ ok (f, rest)
      → length rest < length input
  unfolding read_frame
  read_frame_shortens limit input f rest consumes h =
      let ((header, behind), e1, h1) = >>=-eq-ok (read_bytes 9 input) _ h in
      let (_, e2, h2) =
        >>=-eq-ok
          (raise_if (ltb limit (unpack_header header).0)
            (Exn.connection_error ErrorCode.frame_size_error none))
          _ h1 in
      let ((payload, behind'), e3, h3) =
        >>=-eq-ok (read_bytes (unpack_header header).0 behind) _ h2 in
      let same : behind' ≡ rest = cc h3 in
      omega (
        arith,
        consumes 9 input header behind e1,
        consumes (unpack_header header).0 behind payload behind' e3,
        ap (length {A = ℕ}) same,
      )

  module _ (x : Outside) (params : Params) where
    -- One round: of a read that raises, of a frame that ends the loop, and of any other.
    pub serve_loop-read_raises :
        (fuel : ℕ) (input : Bytes) (s : Serving) (raised : Exn)
        → read_frame read_bytes (frame_limit s.conn) input ≡ err raised
        → serve_loop x params read_bytes (suc fuel) input s ≡ some (s, err raised)
    unfolding serve_loop
    serve_loop-read_raises fuel input s raised e = rw (e, serve_loop) refl

    pub serve_loop-stops :
        (fuel : ℕ) (input : Bytes) (s : Serving) (f : Frame) (rest : Bytes) (raised : Exn)
        → read_frame read_bytes (frame_limit s.conn) input ≡ ok (f, rest)
        → (recover x params (dispatch x params f s)).1 ≡ err raised
        → serve_loop x params read_bytes (suc fuel) input s
          ≡ some ((recover x params (dispatch x params f s)).0, err raised)
    unfolding serve_loop
    serve_loop-stops fuel input s f rest raised e e' = rw (e, e', serve_loop) refl

    pub serve_loop-next :
        (fuel : ℕ) (input : Bytes) (s : Serving) (f : Frame) (rest : Bytes)
        → read_frame read_bytes (frame_limit s.conn) input ≡ ok (f, rest)
        → (recover x params (dispatch x params f s)).1 ≡ ok tt
        → serve_loop x params read_bytes (suc fuel) input s
          ≡ serve_loop x params read_bytes fuel rest (recover x params (dispatch x params f s)).0
    unfolding serve_loop
    serve_loop-next fuel input s f rest e e' = rw (e, e', serve_loop) refl

    serve_loop_ends :
        (fuel : ℕ) (input : Bytes) (s : Serving)
        → Consumes read_bytes
        → length input < fuel
        → (done : Serving × Result (Unit {0})) × (serve_loop x params read_bytes fuel input s
            ≡ some done)
    serve_loop_ends zero input s consumes h = absurd (omega arith)
    serve_loop_ends (suc fuel) input s consumes h =
        elim (Result-cases (read_frame read_bytes (frame_limit s.conn) input)) [
          | inr (raised, e) ↦ ((s, err raised), serve_loop-read_raises fuel input s raised e)
          | inl ((f, rest), e) ↦
              let done : Serving × Result (Unit {0}) = recover x params (dispatch x params f s) in
              let shorter = read_frame_shortens (frame_limit s.conn) input f rest consumes e in
              elim (Result-cases done.1) [
                | inr (raised, e') ↦
                    ((done.0, err raised), serve_loop-stops fuel input s f rest raised e e')
                | inl (_, e') ↦
                    let (end, h') =
                      serve_loop_ends fuel rest done.0 consumes (omega (arith, shorter)) in
                    (end, serve_loop-next fuel input s f rest e e' ∙ h')
              ]
        ]

    exchange_preface_shortens :
        (is_client : Bool) (input : Bytes) (s : Serving) (rest : Bytes)
        → Consumes read_bytes
        → (exchange_preface x params read_bytes is_client input s).1 ≡ ok rest
        → length rest ≤ length input
    unfolding exchange_preface
    exchange_preface_shortens true input s rest consumes h =
        let (_, e, h1) = >>=-eq-ok (x.io_write s.conn.calls client_preface) _ h in
        let same : input ≡ rest = cc h1 in omega (arith, ap (length {A = ℕ}) same)
    exchange_preface_shortens false input s rest consumes h =
        let ((preface, behind), e1, h1) = >>=-eq-ok (read_bytes 24 input) _ h in
        let (_, e2, h2) =
          >>=-eq-ok (raise_if (not (bytes_eq preface client_preface)) Exn.plain_exception) _ h1 in
        let same : behind ≡ rest = cc h2 in
        omega (arith, consumes 24 input preface behind e1, ap (length {A = ℕ}) same)

    then_settings_shortens :
        (s : Serving) (r : Result Bytes) (rest : Bytes)
        → (then_settings x params read_bytes (s, r)).1 ≡ ok rest
        → r ≡ ok rest
    unfolding then_settings
    then_settings_shortens s (ok behind) rest h =
        let (_, e, h') =
          >>=-eq-ok (write_settings x params read_bytes s).1 (λ _. ok behind) {y = rest} h in
        h'
    then_settings_shortens s (err e) rest h = absurd (cc h)

    open_connection_shortens :
        (input : Bytes) (s : Serving) (rest : Bytes)
        → Consumes read_bytes
        → (open_connection x params read_bytes input s).1 ≡ ok rest
        → length rest ≤ length input
    unfolding open_connection
    open_connection_shortens input s rest consumes h =
        let prefaced = exchange_preface x params read_bytes s.conn.is_client input s in
        exchange_preface_shortens s.conn.is_client input s rest consumes
          (then_settings_shortens prefaced.0 prefaced.1 rest h)

    -- Whatever the peer sends and the streams and the outside make of it, a loop that has one round more
    -- than its input has bytes comes to its end: it never needs more rounds than that, so the coroutine
    -- ends, by returning or by raising, once the input has ended.
    pub conn_loop_ends :
        (input : Bytes) (s : Serving)
        → Consumes read_bytes
        → (done : Serving × Result (Unit {0})) × (conn_loop x params read_bytes
              (length input + 1)
              input
              s
            ≡ some done)
    unfolding conn_loop
    conn_loop_ends input s consumes =
        let opened : Serving × Result Bytes = open_connection x params read_bytes input s in
        elim (Result-cases opened.1) [
          | inr (raised, e) ↦ (
            finally_close x params read_bytes
                (end_connection x params read_bytes (opened.0, err raised)),
            rw (e, conn_loop) refl,
          )
          | inl (rest, e) ↦
              let shorter = open_connection_shortens input s rest consumes e in
              let (done, h) =
                serve_loop_ends (length input + 1) rest opened.0 consumes
                  (omega (arith, shorter)) in
              (
                finally_close x params read_bytes (end_connection x params read_bytes done),
                rw (e, h, conn_loop) refl,
              )
        ]
