-- ===== src/Server/Adapter.antt =====
-- server.py: `_UpgradingRequestAdapter`, which finds out whether a request asks for HTTP/2.
use tornado_http.Common.{
  ◌≡◌, ◌↔◌, refl, sym, ap, ◌∙◌, Bool, true, false, Option, none, some, List, [], ◌∷◌, ◌++◌, ◌==◌,
  if◌then◌else◌, if-true, if-false, Bool-cases, inl, inr, append-nil, All,
}
use tornado_http.Connection.Loop.{Serving}
use tornado_http.Constants.{codes}
use tornado_http.Errors.{Result, ok, err, ◌>>=◌}
use tornado_http.Server.Items.{split_commas, prepend, has_h2c, AnyH2c, has_h2c-AnyH2c}
use tornado_http.Server.Upgrading.{Upgrading, request_line, begin_switch}
use tornado_http.Stream.{Text, Fields, StartLine}
use tornado_http.Stream.Outside.{Outside}

module _ (x : Outside) where
  unfoldable pub asks_upgrade : Fields → Result Bool
  unfolding split_commas has_h2c
  asks_upgrade fields =
      if x.has_field (codes "Upgrade") fields
      then (do text ← x.get_field (codes "Upgrade") fields; ok (has_h2c (split_commas text)))
      else ok false

  -- `headers_received`, but for the delegate's, which it calls then.
  unfoldable pub adapter_headers_received :
      StartLine → Fields → Upgrading → Upgrading × Result StartLine
  unfolding asks_upgrade
  adapter_headers_received line fields u = elim (asks_upgrade fields) [
    | err e ↦ (u, err e)
    | ok false ↦ (record u { request_start_line = some line }, ok line)
    | ok true ↦
        let u' = record u { upgrading = true } in
        elim (request_line (some line)) [
          | err e ↦ (u', err e)
          | ok line' ↦ (record u' { request_start_line = some line' }, ok line')
        ]
  ]

-- The items of a header, with commas between them.
abbrev pub join_commas : Text → List Text → Text
join_commas item [] = item
join_commas item (next ∷ items) = item ++ (b',' ∷ join_commas next items)

abbrev pub IsItem : Text → Type 0
IsItem item = All (λ c. (c == b',') ≡ false) item

split_commas-item :
    (item behind : Text) (items : List Text)
    → IsItem item
    → split_commas behind ≡ [] ∷ items
    → split_commas (item ++ behind) ≡ item ∷ items
unfolding split_commas
split_commas-item [] behind items h e = e
split_commas-item (c ∷ cs) behind items (apart, h) e =
    if-false (c == b',') ([] ∷ split_commas (cs ++ behind))
      (prepend c (split_commas (cs ++ behind))) apart
    ∙ ap (prepend c) (split_commas-item cs behind items h e)

split_commas-join :
    (item : Text) (items : List Text)
    → IsItem item
    → All IsItem items
    → split_commas (join_commas item items) ≡ item ∷ items
unfolding split_commas
split_commas-join item [] h hs =
    ap split_commas (sym (append-nil item)) ∙ split_commas-item item [] [] h refl
split_commas-join item (next ∷ items) h (h', hs) =
    split_commas-item item (b',' ∷ join_commas next items) (next ∷ items) h
      (ap (λ ts. [] ∷ ts) (split_commas-join next items h' hs))

module _ (x : Outside) where
  asks_upgrade-items :
      (fields : Fields) (item : Text) (items : List Text)
      → x.has_field (codes "Upgrade") fields ≡ true
      → x.get_field (codes "Upgrade") fields ≡ ok (join_commas item items)
      → IsItem item × All IsItem items
      → asks_upgrade x fields ≡ ok (has_h2c (item ∷ items))
  unfolding asks_upgrade
  asks_upgrade-items fields item items has got (h, hs) =
      if-true (x.has_field (codes "Upgrade") fields) _ _ has
      ∙ ap (λ (r : Result Text). r >>= λ text. ok (has_h2c (split_commas text))) got
      ∙ ap (λ ts. ok (has_h2c ts)) (split_commas-join item items h hs)

  pub adapter_headers_received-items :
      (method path : Text) (fields : Fields) (u : Upgrading) (item : Text) (items : List Text)
      → u.upgrading ≡ false
      → x.has_field (codes "Upgrade") fields ≡ true
      → x.get_field (codes "Upgrade") fields ≡ ok (join_commas item items)
      → IsItem item × All IsItem items
      → ((adapter_headers_received x (StartLine.request method path) fields u).1
          ≡ ok (StartLine.request method path))
        × ((adapter_headers_received x
              (StartLine.request method path)
              fields
              u).0.request_start_line
            ≡ some (StartLine.request method path))
        × (((adapter_headers_received x (StartLine.request method path) fields u).0.upgrading
              ≡ true)
            ↔ AnyH2c (item ∷ items))
  unfolding adapter_headers_received
  adapter_headers_received-items method path fields u item items plain has got h =
      let asks = asks_upgrade-items fields item items has got h in
      let (any, back) = has_h2c-AnyH2c (item ∷ items) in
      elim (Bool-cases (has_h2c (item ∷ items))) [
        | inl yes_h2c ↦
            let opened : adapter_headers_received x (StartLine.request method path) fields u ≡ (
              record u {
                upgrading = true;
                request_start_line = some (StartLine.request method path);
              },
              ok (StartLine.request method path),
            ) =
              rw (asks, yes_h2c, adapter_headers_received) refl in
            (
              ap (λ (p : Upgrading × Result StartLine). p.1) opened,
              ap (λ (p : Upgrading × Result StartLine). p.0.request_start_line) opened,
              (
                λ _. any yes_h2c,
                λ _. ap (λ (p : Upgrading × Result StartLine). p.0.upgrading) opened,
              ),
            )
        | inr no_h2c ↦
            let opened : adapter_headers_received x (StartLine.request method path) fields u ≡ (
              record u { request_start_line = some (StartLine.request method path) },
              ok (StartLine.request method path),
            ) =
              rw (asks, no_h2c, adapter_headers_received) refl in
            let stays : (adapter_headers_received x (StartLine.request method path) fields
                  u).0.upgrading
                ≡ false =
              ap (λ (p : Upgrading × Result StartLine). p.0.upgrading) opened ∙ plain in
            (
              ap (λ (p : Upgrading × Result StartLine). p.1) opened,
              ap (λ (p : Upgrading × Result StartLine). p.0.request_start_line) opened,
              (λ on. absurd (cc (sym on ∙ stays)), λ one. absurd (cc (sym no_h2c ∙ back one))),
            )
      ]

-- What `finish` leaves, with the new connection where a switch has made one. What `switch_protocols`
-- raises stays in its coroutine's future, which nothing looks at.
unfoldable pub adapter_finish :
    Outside
    → (Upgrading → Upgrading × Result (Unit {0}))
    → Upgrading
    → Option Serving × Upgrading × Result (Unit {0})
unfolding begin_switch
adapter_finish x callback u =
    if u.upgrading
    then (let begun = begin_switch x u in (begun.0, begun.1, ok tt))
    else (let done = callback u in (none, done.0, done.1))
