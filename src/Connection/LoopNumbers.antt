-- ===== src/Connection/LoopNumbers.antt =====
-- connection.py: how the streams of a connection are numbered.
use tornado_http.Common.{
  ℕ, ◌+◌, ◌≤◌, ◌<◌, ◌≡◌, refl, sym, ap, ap₂, ◌∙◌, arith, inl, inr, Bool, true, false, not, ◌&&◌,
  Option, none, some, ℕ_discrete, [], ◌∷◌, ◌++◌, ltb, leb, ◌==◌, subst, Bool-cases, Option-cases,
  if◌then◌else◌, bit_and, dict_get, dict_set,
}
use mathlib.Core.Option.{some-injective}
use tornado_http.Common.Dicts.{dict_get-set, dict_get-set_other}
use tornado_http.Common.Bits.{bit_and-mask}
use tornado_http.Connection.Handlers.{
  Connection, new_connection, Params, write_frame, handle_frame, rst_stream_frame,
  handle_settings_frame, handle_ping_frame, handle_window_update_frame,
}
use tornado_http.Connection.Loop.{
  Serving, new_serving, is_past, stream_of, on_conn, create_stream, is_local, is_headers,
  check_continuation, to_stream, open_remote, dispatch_stream, route, dispatch, ServerCall, recover,
}
use tornado_http.Errors.{Exn, Result, err, Result-cases}
use tornado_http.Frames.{Frame}
use tornado_http.Stream.{Stream, World, new_stream}
use tornado_http.Stream.Blocks.{handle_stream_frame}
use tornado_http.Stream.Identity.{handle_stream_frame-Keeps}
use tornado_http.Stream.Outside.{Outside}

-- Every stream stands under its own id, which is not 0 and has been used: an own id is below the next
-- one, and the peer's are not above the highest that it has opened.
pub record IsNumbered (s : Serving) : Type 0 where
  next : 0 < s.conn.next_stream_id
  streams :
      (id : ℕ) (stream : Stream)
      → stream_of id s ≡ some stream
      → (stream.stream_id ≡ id) × (0 < id) × (is_past id s ≡ true)

-- What a connection comes to that starts without streams, by frames that are handled, whatever comes of
-- them, and by streams that the application opens. An upgraded connection, which starts with stream 1
-- while `max_remote_stream_id` is 0, is none of these.
pub data Reached (x : Outside) (params : Params) (is_client has_delegate : Bool)
    : Serving → Type 0 where
  start : Reached x params is_client has_delegate (new_serving is_client has_delegate)
  handles :
      {s : Serving} (f : Frame)
      → Reached x params is_client has_delegate s
      → Reached x params is_client has_delegate (recover x params (dispatch x params f s)).0
  creates :
      {s : Serving}
      → Reached x params is_client has_delegate s
      → Reached x params is_client has_delegate (create_stream s).0

-- `is_past`, by the two numbers that it goes by.
abbrev past : ℕ → ℕ → ℕ → Bool
past id next max = if bit_and id 1 == bit_and next 1 then leb (id + 2) next else leb id max

past_up : (id next max max' : ℕ) → max ≤ max' → past id next max ≡ true → past id next max' ≡ true
past_up id next max max' h e = ground arith

parity : (n : ℕ) → bit_and (n + 2) 1 ≡ bit_and n 1
parity n = bit_and-mask 1 (n + 2) ∙ omega arith ∙ sym (bit_and-mask 1 n)

past_next : (id next max : ℕ) → past id next max ≡ true → past id (next + 2) max ≡ true
past_next id next max e = ground (arith, parity next)

past_own : (id max : ℕ) → past id (id + 2) max ≡ true
past_own id max = ground (arith, parity id)

same-IsNumbered :
    (s s' : Serving)
    → s'.conn.next_stream_id ≡ s.conn.next_stream_id
    → s'.max_remote_stream_id ≡ s.max_remote_stream_id
    → s'.streams ≡ s.streams
    → IsNumbered s
    → IsNumbered s'
same-IsNumbered s s' next max streams before = record {
  next = subst (λ (n : ℕ). 0 < n) (sym next) before.next;
  streams = λ id stream h.
      let (named, positive, used) =
        before.streams id stream (ap (dict_get (◌==◌) id) (sym streams) ∙ h) in
      (named, positive, ap₂ (past id) next max ∙ used);
}

-- A stream put in its place.
set-IsNumbered :
    (s s' : Serving) (id : ℕ) (stream : Stream)
    → s'.conn.next_stream_id ≡ s.conn.next_stream_id
    → s.max_remote_stream_id ≤ s'.max_remote_stream_id
    → s'.streams ≡ dict_set (◌==◌) id stream s.streams
    → (stream.stream_id ≡ id) × (0 < id) × (is_past id s' ≡ true)
    → IsNumbered s
    → IsNumbered s'
set-IsNumbered s s' id stream next max streams (named, positive, used) before = record {
  next = subst (λ (n : ℕ). 0 < n) (sym next) before.next;
  streams = λ k found h. elim (ℕ_discrete k id) [
    | yes e ↦
        let same : stream ≡ found = some-injective stream found (
          sym (dict_get-set id stream s.streams)
          ∙ ap (dict_get (◌==◌) id) (sym streams)
          ∙ ap (λ j. dict_get (◌==◌) j s'.streams) (sym e)
          ∙ h) in
        (
          ap (λ (t : Stream). t.stream_id) (sym same) ∙ named ∙ sym e,
          subst (λ (n : ℕ). 0 < n) (sym e) positive,
          ap (λ j. is_past j s') e ∙ used,
        )
    | no apart ↦
        let (named', positive', used') = before.streams k found (
          sym (dict_get-set_other id k stream s.streams apart)
          ∙ ap (dict_get (◌==◌) k) (sym streams)
          ∙ h) in
        (
          named',
          positive',
          ap (λ n. past k n s'.max_remote_stream_id) next
              ∙ past_up k s.conn.next_stream_id s.max_remote_stream_id s'.max_remote_stream_id max
                  used',
        )
  ];
}

create_stream-IsNumbered : (s : Serving) → IsNumbered s → IsNumbered (create_stream s).0
unfolding create_stream new_stream
create_stream-IsNumbered s before =
    let s1 : Serving = record s {
      conn = record s.conn { next_stream_id = s.conn.next_stream_id + 2 };
    } in
    let widened : IsNumbered s1 = record {
      next = omega arith;
      streams = λ id stream h.
          let (named, positive, used) = before.streams id stream h in
          (named, positive, past_next id s.conn.next_stream_id s.max_remote_stream_id used);
    } in
    set-IsNumbered s1 (create_stream s).0 s.conn.next_stream_id (create_stream s).1 refl
      (omega arith) refl (refl, before.next, past_own s.conn.next_stream_id s.max_remote_stream_id)
      widened

handle_frame-next :
    (x : Outside) (f : Frame) (c : Connection)
    → (handle_frame x.io_write f c).0.next_stream_id ≡ c.next_stream_id
unfolding handle_frame handle_settings_frame handle_ping_frame handle_window_update_frame
    write_frame
handle_frame-next x f c = ground arith

if-IsNumbered :
    (b : Bool) (p q : Serving × Result (Unit {0}))
    → (b ≡ true → IsNumbered p.0)
    → (b ≡ false → IsNumbered q.0)
    → IsNumbered (if b then p else q).0
if-IsNumbered true p q one other = one refl
if-IsNumbered false p q one other = other refl

raised-IsNumbered :
    (s : Serving) (max : ℕ)
    → s.max_remote_stream_id ≤ max
    → IsNumbered s
    → IsNumbered (record s { max_remote_stream_id = max })
raised-IsNumbered s max h before = record {
  next = before.next;
  streams = λ id stream found.
      let (named, positive, used) = before.streams id stream found in
      (named, positive, past_up id s.conn.next_stream_id s.max_remote_stream_id max h used);
}

abbrev higher : ℕ → ℕ → ℕ
higher max id = if ltb max id then id else max

write_frame-next :
    (x : Outside) (f : Frame) (c : Connection)
    → (write_frame x.io_write f c).0.next_stream_id ≡ c.next_stream_id
unfolding write_frame
write_frame-next x f c = ground arith

module _ (x : Outside) (params : Params) where
  to_stream-IsNumbered :
      (stream : Stream) (f : Frame) (s : Serving)
      → (stream.stream_id ≡ f.stream_id) × (0 < f.stream_id) × (is_past f.stream_id s ≡ true)
      → IsNumbered s
      → IsNumbered (to_stream x params stream f s).0
  unfolding to_stream
  to_stream-IsNumbered stream f s (named, positive, used) before =
      let w : World = record { conn = s.conn; stream = stream } in
      let keeps = handle_stream_frame-Keeps x params f w in
      let next = ap (λ (p : Bool × ℕ × ℕ). p.1) keeps in
      set-IsNumbered s (to_stream x params stream f s).0 f.stream_id
        (handle_stream_frame x params f w).0.stream next (omega arith) refl
        (
          ap (λ (p : Bool × ℕ × ℕ). p.2) keeps ∙ named,
          positive,
          ap (λ n. past f.stream_id n s.max_remote_stream_id) next ∙ used,
        )
        before

  open_remote-IsNumbered :
      (f : Frame) (s : Serving)
      → 0 < f.stream_id
      → IsNumbered s
      → IsNumbered (open_remote x params f s).0
  unfolding open_remote new_stream
  open_remote-IsNumbered f s positive before =
      let s' : Serving = record s {
        max_remote_stream_id = higher s.max_remote_stream_id f.stream_id;
      } in
      let s'' : Serving = record s' {
        server_calls = s.server_calls ++ (ServerCall.starts_request f.stream_id ∷ []);
      } in
      let raised : IsNumbered s' =
        raised-IsNumbered s (higher s.max_remote_stream_id f.stream_id) (ground arith) before in
      if-IsNumbered (is_local f.stream_id s.conn) _ _ (λ _. before)
        (λ remote.
          if-IsNumbered (not s.has_delegate) _ _ (λ _. raised)
            (λ _.
              to_stream-IsNumbered (new_stream s.conn f.stream_id) f s''
                (refl, positive, ground arith) (same-IsNumbered s' s'' refl refl refl raised)))

  dispatch_stream-IsNumbered :
      (found : Option Stream) (f : Frame) (s : Serving)
      → stream_of f.stream_id s ≡ found
      → 0 < f.stream_id
      → IsNumbered s
      → IsNumbered (dispatch_stream x params found f s).0
  unfolding dispatch_stream
  dispatch_stream-IsNumbered (some stream) f s here positive before =
      to_stream-IsNumbered stream f s (before.streams f.stream_id stream here) before
  dispatch_stream-IsNumbered none f s here positive before =
      elim (Bool-cases (not s.conn.is_client && is_headers f.type)) [
        | inl e ↦ rw (e, dispatch_stream) (open_remote-IsNumbered f s positive before)
        | inr e ↦ rw (e, dispatch_stream) before
      ]

  recover-IsNumbered :
      (s : Serving) (r : Result (Unit {0})) → IsNumbered s → IsNumbered (recover x params (s, r)).0
  unfolding recover
  recover-IsNumbered s (err (Exn.stream_error id code)) before =
      elim (Result-cases (rst_stream_frame id code)) [
        | inl (f, e) ↦
            rw (e, recover)
              (same-IsNumbered s (on_conn (write_frame x.io_write f s.conn) s).0
                (write_frame-next x f s.conn) refl refl before)
        | inr (raised, e) ↦ rw (e, recover) before
      ]
  recover-IsNumbered s r before = before

  route-IsNumbered : (f : Frame) (s : Serving) → IsNumbered s → IsNumbered (route x params f s).0
  unfolding route
  route-IsNumbered f s before =
      if-IsNumbered (f.stream_id == 0) _ _
        (λ _.
          same-IsNumbered s (on_conn (handle_frame x.io_write f s.conn) s).0
            (handle_frame-next x f s.conn) refl refl before)
        (λ other.
          dispatch_stream-IsNumbered (stream_of f.stream_id s) f s refl (ground arith) before)

  dispatch-IsNumbered :
      (f : Frame) (s : Serving) → IsNumbered s → IsNumbered (dispatch x params f s).0
  unfolding dispatch
  dispatch-IsNumbered f s before = elim (Result-cases (check_continuation f s)) [
    | inl (_, e) ↦ rw (e, dispatch) (route-IsNumbered f s before)
    | inr (raised, e) ↦ rw (e, dispatch) before
  ]

  -- Of every stream of a connection that started without streams (not of one that an upgrade of a
  -- request began with stream 1), after whatever frames and whatever streams that the application
  -- has opened: it stands under its own id, which is not 0 and which counts as past, so that an own id is
  -- below the next one and the peer's is not above the highest it has opened.
  pub Reached-IsNumbered :
      (is_client has_delegate : Bool) (s : Serving)
      → Reached x params is_client has_delegate s
      → IsNumbered s
  unfolding new_connection dict_get
  Reached-IsNumbered is_client has_delegate s start = record {
    next = elim (Bool-cases is_client) [ inl e ↦ ground arith | inr e ↦ ground arith ];
    streams = λ id stream h. absurd (cc h);
  }
  Reached-IsNumbered is_client has_delegate s (handles {s = s0} f before) =
      recover-IsNumbered _ _
        (dispatch-IsNumbered f s0 (Reached-IsNumbered is_client has_delegate s0 before))
  Reached-IsNumbered is_client has_delegate s (creates {s = s0} before) =
      create_stream-IsNumbered s0 (Reached-IsNumbered is_client has_delegate s0 before)

  -- On a connection that started without streams, a stream that the application opens gets an id that no stream of the connection has had, the peer's
  -- and those that the peer may have opened under ids of its own choice included: it replaces none.
  pub create_stream_fresh :
      (is_client has_delegate : Bool) (s : Serving)
      → Reached x params is_client has_delegate s
      → stream_of (create_stream s).1.stream_id s ≡ none
  unfolding create_stream new_stream
  create_stream_fresh is_client has_delegate s reached =
      elim (Option-cases (stream_of s.conn.next_stream_id s)) [
        | inl e ↦ e
        | inr (stream, e) ↦
            let (named, positive, used) =
              (Reached-IsNumbered is_client has_delegate s reached).streams s.conn.next_stream_id
                stream e in
            absurd (ground arith)
      ]
