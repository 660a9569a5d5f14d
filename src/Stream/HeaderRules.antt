-- ===== src/Stream/HeaderRules.antt =====
-- stream.py: what a header block is that the loop of `_parse_headers` accepts.
use tornado_http.Common.{
  ℕ, ◌≡◌, ◌≢◌, ◌⊎◌, subst, refl, sym, ap, ◌∙◌, Bool, true, false, not, ◌||◌, Bool-cases, inl, inr,
  Option, none, List, [], ◌∷◌, ◌++◌, All, bytes_eq, dict_get, dict_set, if◌then◌else◌, if-true,
  if-false,
}
use tornado_http.Constants.{codes, ErrorCode}
use tornado_http.Errors.{Exn, ok, raise_if, >>=-eq-ok}
use tornado_http.Hpack.Decoder.{Header}
use tornado_http.Hpack.Encoder.{lower}
use tornado_http.Hpack.Lookup.{bytes_eq→eq}
use tornado_http.Hpack.Table.{Bytes}
use tornado_http.Stream.{Text}
use tornado_http.Stream.Headers.{
  Scan, starts_with_colon, is_valid_pseudo, is_some, native_value, add_header, scan_pseudo,
  scan_regular, scan_header, scan_headers,
}
use tornado_http.Stream.Outside.{Outside}
use tornado_http.Stream.HeaderNames.{
  name_of, IsPseudo, IsRegular, Distinct, result_or, text_or, is_valid_pseudo-IsPseudoName,
  starts_with_colon-IsPlain, lower-IsLower, raise_if-ok, not-false, no_regular, valid, is_some-none,
  All-map, dict_set_absent,
}

module _ (x : Outside) where
  -- The name of a pseudo-header is not among those that have been.
  abbrev IsNew : Scan → Header → Type 0
  IsNew s h =
      (name : Text) × (x.native_str (name_of h) ≡ ok name)
      × (dict_get bytes_eq name s.pseudo_headers ≡ none)

  scan_pseudo-ok :
      (is_client : Bool) (id : ℕ) (k : Bytes) (v : Option Bytes) (s s' : Scan)
      → scan_pseudo x is_client id k v s ≡ ok s'
      → (s.has_regular_header ≡ false)
        × (is_valid_pseudo is_client k ≡ true)
        × ((name : Text) × (value : Option Text) × (x.native_str k ≡ ok name)
            × (dict_get bytes_eq name s.pseudo_headers ≡ none)
            × (s'.pseudo_headers ≡ dict_set bytes_eq name value s.pseudo_headers))
        × (s'.has_regular_header ≡ false)
  unfolding scan_pseudo
  scan_pseudo-ok is_client id k v s s' h =
      let bad = Exn.stream_error id ErrorCode.protocol_error in
      let (_, e1, h1) =
        >>=-eq-ok (raise_if (s.has_regular_header || not (is_valid_pseudo is_client k)) bad) _ h in
      let guard = raise_if-ok (s.has_regular_header || not (is_valid_pseudo is_client k)) bad e1 in
      let (name, e2, h2) = >>=-eq-ok (x.native_str k) _ h1 in
      let (_, e3, h3) =
        >>=-eq-ok (raise_if (is_some (dict_get bytes_eq name s.pseudo_headers)) bad) _ h2 in
      let fresh = raise_if-ok (is_some (dict_get bytes_eq name s.pseudo_headers)) bad e3 in
      let (value, e4, h4) = >>=-eq-ok (native_value x v) _ h3 in
      let (fields, e5, h5) =
        >>=-eq-ok
          (if bytes_eq k (codes ":authority")
            then add_header x (codes "Host") value s.headers
            else ok s.headers)
          _ h4 in
      let same = ap (result_or s') h5 in
      (
        no_regular s.has_regular_header (is_valid_pseudo is_client k) guard,
        valid s.has_regular_header (is_valid_pseudo is_client k) guard,
        (
          name,
          value,
          e2,
          is_some-none (dict_get bytes_eq name s.pseudo_headers) fresh,
          ap (λ (t : Scan). t.pseudo_headers) (sym same),
        ),
        ap (λ (t : Scan). t.has_regular_header) (sym same)
            ∙ no_regular s.has_regular_header (is_valid_pseudo is_client k) guard,
      )

  scan_regular-ok :
      (k : Bytes) (v : Option Bytes) (s s' : Scan)
      → scan_regular x k v s ≡ ok s'
      → s'.has_regular_header ≡ true
  unfolding scan_regular
  scan_regular-ok k v s s' h =
      let (name, e1, h1) = >>=-eq-ok (x.native_str k) _ h in
      let (value, e2, h2) = >>=-eq-ok (native_value x v) _ h1 in
      let (fields, e3, h3) = >>=-eq-ok (add_header x name value s.headers) _ h2 in
      ap (λ (t : Scan). t.has_regular_header) (sym (ap (result_or s') h3))

  -- What the loop has taken, from a scan on: pseudo-headers with names that are new and distinct, and then,
  -- where it has met one or meets one, regular headers only.
  record IsTaken (is_client : Bool) (s : Scan) (hs : List Header) : Type 0 where
    pseudo : List Header
    regular : List Header
    split : hs ≡ pseudo ++ regular
    pseudo-IsPseudo : All (IsPseudo is_client) pseudo
    pseudo-IsNew : All (IsNew s) pseudo
    pseudo-Distinct : Distinct pseudo
    regular-IsRegular : All IsRegular regular
    order : s.has_regular_header ≡ true → pseudo ≡ []

  scan_header_pseudo :
      (is_client : Bool) (id : ℕ) (h : Header) (s s' : Scan) (hs : List Header)
      → scan_pseudo x is_client id (name_of h) h.0.1 s ≡ ok s'
      → IsTaken is_client s' hs
      → IsTaken is_client s (h ∷ hs)
  scan_header_pseudo is_client id h s s' hs e rest =
      let (early, is_valid, (name, value, native, absent, put), early') =
        scan_pseudo-ok is_client id (name_of h) h.0.1 s s' e in
      let behind : (g : Header) → IsNew s' g → IsNew s g × (name_of g ≢ name_of h) =
        λ g (n, native', gone).
          let (gone', apart) =
            dict_set_absent name n value s.pseudo_headers
              (ap (dict_get bytes_eq n) (sym put) ∙ gone) in
          (
            (n, native', gone'),
            λ twice. apart (ap (text_or n) (sym native' ∙ ap x.native_str twice ∙ native)),
          ) in
      record {
        pseudo = h ∷ rest.pseudo;
        regular = rest.regular;
        split = ap (λ ts. h ∷ ts) rest.split;
        pseudo-IsPseudo =
            (is_valid_pseudo-IsPseudoName is_client (name_of h) is_valid, rest.pseudo-IsPseudo);
        pseudo-IsNew = (
          (name, native, absent),
          All-map (IsNew s') (IsNew s) (λ g new. (behind g new).0) rest.pseudo rest.pseudo-IsNew,
        );
        pseudo-Distinct = (
          All-map (IsNew s') (λ g. name_of g ≢ name_of h) (λ g new. (behind g new).1) rest.pseudo
              rest.pseudo-IsNew,
          rest.pseudo-Distinct,
        );
        regular-IsRegular = rest.regular-IsRegular;
        order = λ late. absurd (cc (sym early ∙ late));
      }

  scan_header_regular :
      (is_client : Bool) (h : Header) (s s' : Scan) (hs : List Header)
      → starts_with_colon (name_of h) ≡ false
      → name_of h ≡ lower (name_of h)
      → scan_regular x (name_of h) h.0.1 s ≡ ok s'
      → IsTaken is_client s' hs
      → IsTaken is_client s (h ∷ hs)
  scan_header_regular is_client h s s' hs plain low e rest =
      let none_first : rest.pseudo ≡ [] = rest.order (scan_regular-ok (name_of h) h.0.1 s s' e) in
      record {
        pseudo = [];
        regular = h ∷ hs;
        split = refl;
        pseudo-IsPseudo = tt;
        pseudo-IsNew = tt;
        pseudo-Distinct = tt;
        regular-IsRegular = (
          (starts_with_colon-IsPlain (name_of h) plain, lower-IsLower (name_of h) low),
          subst (All IsRegular) (sym (rest.split ∙ ap (λ ps. ps ++ rest.regular) none_first))
              rest.regular-IsRegular,
        );
        order = λ _. refl;
      }

  scan_header-IsTaken :
      (is_client : Bool) (id : ℕ) (h : Header) (s s' : Scan) (hs : List Header)
      → scan_header x is_client id h s ≡ ok s'
      → IsTaken is_client s' hs
      → IsTaken is_client s (h ∷ hs)
  unfolding scan_header
  scan_header-IsTaken is_client id h s s' hs e rest =
      let k = name_of h in
      let (_, e1, h1) =
        >>=-eq-ok
          (raise_if (not (bytes_eq k (lower k))) (Exn.stream_error id ErrorCode.protocol_error)) _
          e in
      let low = bytes_eq→eq k (lower k) (
        not-false (bytes_eq k (lower k)) (
          raise_if-ok (not (bytes_eq k (lower k))) (Exn.stream_error id ErrorCode.protocol_error)
            e1)) in
      elim (Bool-cases (starts_with_colon k)) [
        | inl colon ↦
            scan_header_pseudo is_client id h s s' hs
              (sym (
                  if-true (starts_with_colon k) (scan_pseudo x is_client id k h.0.1 s)
                    (scan_regular x k h.0.1 s) colon)
                ∙ h1)
              rest
        | inr plain ↦
            scan_header_regular is_client h s s' hs plain low
              (sym (
                  if-false (starts_with_colon k) (scan_pseudo x is_client id k h.0.1 s)
                    (scan_regular x k h.0.1 s) plain)
                ∙ h1)
              rest
      ]

  scan_headers-IsTaken :
      (is_client : Bool) (id : ℕ) (hs : List Header) (s s' : Scan)
      → scan_headers x is_client id hs s ≡ ok s'
      → IsTaken is_client s hs
  unfolding scan_headers
  scan_headers-IsTaken is_client id [] s s' e = record {
    pseudo = [];
    regular = [];
    split = refl;
    pseudo-IsPseudo = tt;
    pseudo-IsNew = tt;
    pseudo-Distinct = tt;
    regular-IsRegular = tt;
    order = λ _. refl;
  }
  scan_headers-IsTaken is_client id (h ∷ hs) s s' e =
      let (t, e1, e2) =
        >>=-eq-ok (scan_header x is_client id h s) (scan_headers x is_client id hs) e in
      scan_header-IsTaken is_client id h s t hs e1 (scan_headers-IsTaken is_client id hs t s' e2)

  -- A header block whose headers the loop takes without raising is pseudo-headers and then regular
  -- headers: for a client each pseudo-header is `:status`, and for a server `:method`, `:scheme`,
  -- `:authority` or `:path`, none of them twice; no regular header's name starts with a colon or has a
  -- letter in upper case. In trailers, where the loop starts behind the pseudo-headers, there are none.
  pub scan_headers-rules :
      (is_client : Bool) (id : ℕ) (hs : List Header) (s s' : Scan)
      → scan_headers x is_client id hs s ≡ ok s'
      → (pseudo : List Header) × (regular : List Header) × (hs ≡ pseudo ++ regular)
        × All (IsPseudo is_client) pseudo
        × Distinct pseudo
        × All IsRegular regular
        × ((pseudo ≡ []) ⊎ (s.has_regular_header ≡ false))
  scan_headers-rules is_client id hs s s' e =
      let taken = scan_headers-IsTaken is_client id hs s s' e in
      (
        taken.pseudo,
        taken.regular,
        taken.split,
        taken.pseudo-IsPseudo,
        taken.pseudo-Distinct,
        taken.regular-IsRegular,
        elim (Bool-cases s.has_regular_header) [
          | inl late ↦ inl (taken.order late)
          | inr early ↦ inr early
        ],
      )
