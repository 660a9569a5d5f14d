-- ===== src/Hpack/Rounds.antt =====
-- hpack.py: a round of `HpackDecoder.decode` on a field of the format, and on a size update.
use tornado_http.Common.{
  ℕ, ◌/◌, ◌%◌, ◌^◌, ◌<◌, ◌≡◌, refl, ◌∙◌, arith, Bool, true, false, List, [], ◌∷◌, ◌++◌,
  append_assoc, some, if◌then◌else◌, ◌==◌,
}
use tornado_http.Constants.{HeaderIndexMode}
use tornado_http.Encoding.{BitDecoder, read_bit}
use tornado_http.Encoding.BitRead.{read_bit-HpackInt}
use tornado_http.Encoding.IntFormat.{HpackInt}
use tornado_http.Encoding.IntRoundTrip.{reading, read_hpack_int-HpackInt}
use tornado_http.Errors.{ok}
use tornado_http.Hpack.Decoder.{
  Header, decode_indexed, decode_incremental, decode_limit_update, decode_literal, decode_round,
  Round, on_bit, decode_unindexed, decode_unadded,
}
use tornado_http.Hpack.Eviction.{
  IsSized, sized, newest, add_to_dynamic_table-newest, gc_dynamic_table-newest,
}
use tornado_http.Hpack.Format.{Entry, StringBytes, NameBytes, Field}
use tornado_http.Hpack.Table.{Bytes, Pair, DynamicTable, Step}
use tornado_http.Hpack.Reading.{
  read_from_index-Entry, read_name_value_pair-NameBytes, read_bit-NameBytes,
}

module _ (on off : BitDecoder → Step Round) (d d' : BitDecoder) (t : DynamicTable) where
  on_bit_one : read_bit d ≡ ok (1, d') → on_bit d on off t ≡ on d' t
  on_bit_one e = rw (e, on_bit)

  on_bit_zero : read_bit d ≡ ok (0, d') → on_bit d on off t ≡ off d' t
  on_bit_zero e = rw (e, on_bit)

-- A round over a field.
module _ (t : DynamicTable) (allowed : Bool) (out : List Header) (front rest : Bytes) where
  decode_indexed-Entry :
      (i : ℕ) {p : Pair} {bs : Bytes}
      → Entry t i p
      → HpackInt 7 1 i bs
      → decode_indexed out (reading front (bs ++ rest) 1) t
        ≡ (t, ok (out ++ ((p, HeaderIndexMode.index) ∷ []), reading (front ++ bs) rest 0, false))
  unfolding decode_indexed
  decode_indexed-Entry i e n =
      rw (read_hpack_int-HpackInt 1 1 i front rest n) (rw (read_from_index-Entry t i e))

  decode_incremental-NameBytes :
      (name value : Bytes) {bs cs : Bytes}
      → IsSized t
      → NameBytes t 2 1 name bs
      → StringBytes value cs
      → decode_incremental out (reading front (bs ++ (cs ++ rest)) 2) t ≡ (
        sized t.limit (newest t.limit ((name, value) ∷ t.entries)),
        ok (
          out ++ (((name, some value), HeaderIndexMode.index) ∷ []),
          reading (front ++ (bs ++ cs)) rest 0,
          false,
        ),
      )
  unfolding decode_incremental
  decode_incremental-NameBytes name value sz n s =
      rw (read_name_value_pair-NameBytes t 2 1 name value front rest n s, decode_incremental)
        (rw (add_to_dynamic_table-newest (name, value) t sz))

  decode_literal-NameBytes :
      (name value : Bytes) (h : ℕ) {bs cs : Bytes}
      → NameBytes t 4 h name bs
      → StringBytes value cs
      → decode_literal out (reading front (bs ++ (cs ++ rest)) 3) t ≡ (
        t,
        ok (
          out
              ++ ((
                (name, some value),
                if h % 2 == 0 then HeaderIndexMode.no_index else HeaderIndexMode.never_index,
              )
                  ∷ []),
          reading (front ++ (bs ++ cs)) rest 0,
          false,
        ),
      )
  unfolding decode_literal
  decode_literal-NameBytes name value h {bs = bs} {cs = cs} n s =
      let bit : h / 2 ^ 0 % 2 ≡ h % 2 = omega arith in
      rw (read_bit-NameBytes 3 0 t 4 h name front (cs ++ rest) (omega arith) refl n)
        (rw (read_name_value_pair-NameBytes t 4 h name value front rest n s) (rw bit))

  -- The three zero bits before a literal that is not added.
  decode_round_literal :
      (name value : Bytes) (h : ℕ) {bs cs : Bytes}
      → h < 2
      → NameBytes t 4 h name bs
      → StringBytes value cs
      → decode_round (out, reading front ((bs ++ cs) ++ rest) 0, allowed) t
        ≡ decode_literal out (reading front (bs ++ (cs ++ rest)) 3) t
  unfolding decode_round
  decode_round_literal name value h {bs = bs} {cs = cs} lt n s =
      let b0 : h / 2 ^ 3 % 2 ≡ 0 = omega arith in
      let b1 : h / 2 ^ 2 % 2 ≡ 0 = omega arith in
      let b2 : h / 2 ^ 1 % 2 ≡ 0 = omega arith in
      let r0 = read_bit-NameBytes 0 3 t 4 h name front (cs ++ rest) (omega arith) refl n in
      let r1 = read_bit-NameBytes 1 2 t 4 h name front (cs ++ rest) (omega arith) refl n in
      let r2 = read_bit-NameBytes 2 1 t 4 h name front (cs ++ rest) (omega arith) refl n in
      let all = bs ++ (cs ++ rest) in
      rw (append_assoc bs cs rest) (
        on_bit_zero (decode_indexed out) (decode_unindexed out allowed) (reading front all 0)
          (reading front all 1) t (rw b0 at r0)
        ∙ on_bit_zero (decode_incremental out) (decode_unadded out allowed) (reading front all 1)
            (reading front all 2) t (rw b1 at r1)
        ∙ on_bit_zero (decode_limit_update out allowed) (decode_literal out) (reading front all 2)
            (reading front all 3) t (rw b2 at r2))

  pub decode_round-Field :
      (h : Header) {bs : Bytes} {t' : DynamicTable}
      → IsSized t
      → Field t h bs t'
      → decode_round (out, reading front (bs ++ rest) 0, allowed) t
        ≡ (t', ok (out ++ (h ∷ []), reading (front ++ bs) rest 0, false))
  unfolding decode_round
  decode_round-Field h sz (Field.indexed i {bs = bs} e n) =
      (on_bit_one (decode_indexed out) (decode_unindexed out allowed) (reading front (bs ++ rest) 0)
        (reading front (bs ++ rest) 1) t
        (read_bit-HpackInt 0 7 0 1 i front rest (omega arith) refl n))
      ∙ decode_indexed-Entry i e n
  decode_round-Field h sz (Field.incremental name value {bs = bs} {cs = cs} n s) =
      let all = bs ++ (cs ++ rest) in
      rw (append_assoc bs cs rest) (
        (on_bit_zero (decode_indexed out) (decode_unindexed out allowed) (reading front all 0)
            (reading front all 1) t
            (read_bit-NameBytes 0 1 t 2 1 name front (cs ++ rest) (omega arith) refl n)
          ∙ on_bit_one (decode_incremental out) (decode_unadded out allowed) (reading front all 1)
              (reading front all 2) t
              (read_bit-NameBytes 1 0 t 2 1 name front (cs ++ rest) (omega arith) refl n))
        ∙ decode_incremental-NameBytes name value sz n s)
  decode_round-Field h sz (Field.never name value n s) =
      decode_round_literal name value 1 (omega arith) n s
      ∙ decode_literal-NameBytes name value 1 n s
  decode_round-Field h sz (Field.without name value n s) =
      decode_round_literal name value 0 (omega arith) n s
      ∙ decode_literal-NameBytes name value 0 n s

-- A round over a size update.
pub decode_round_update :
    (t : DynamicTable) (out : List Header) (front rest : Bytes) (limit : ℕ) {bs : Bytes}
    → IsSized t
    → HpackInt 5 1 limit bs
    → decode_round (out, reading front (bs ++ rest) 0, true) t
      ≡ (sized limit (newest limit t.entries), ok (out, reading (front ++ bs) rest 0, true))
unfolding decode_round
decode_round_update t out front rest limit {bs = bs} sz n =
    let all = bs ++ rest in
    on_bit_zero (decode_indexed out) (decode_unindexed out true) (reading front all 0)
      (reading front all 1) t (read_bit-HpackInt 0 5 2 1 limit front rest (omega arith) refl n)
    ∙ on_bit_zero (decode_incremental out) (decode_unadded out true) (reading front all 1)
        (reading front all 2) t (read_bit-HpackInt 1 5 1 1 limit front rest (omega arith) refl n)
    ∙ on_bit_one (decode_limit_update out true) (decode_literal out) (reading front all 2)
        (reading front all 3) t (read_bit-HpackInt 2 5 0 1 limit front rest (omega arith) refl n)
    ∙ rw (read_hpack_int-HpackInt 3 1 limit front rest n, decode_limit_update)
        (rw (gc_dynamic_table-newest (record t { limit = limit }) sz))
