-- ===== src/Hpack/Reading.antt =====
-- hpack.py: the decoder's readers of strings, names and indices, on the format.
use tornado_http.Common.{
  ℕ, ◌+◌, ◌-◌, ◌/◌, ◌%◌, ◌^◌, ◌<◌, ◌≡◌, refl, ap, ◌∙◌, arith, false, [], ◌∷◌, ◌++◌, append_assoc,
  append-nil, length, get_elem?-lt, some, lt→ltb, ge→ltb, ◌==◌,
}
use tornado_http.Encoding.{BitDecoder, read_bit}
use tornado_http.Encoding.BitRead.{read_bit-HpackInt, read_char-reading}
use tornado_http.Encoding.IntRoundTrip.{reading, read_hpack_int-HpackInt}
use tornado_http.Errors.{ok, ◌>>=◌}
use tornado_http.Hpack.Decoder.{read_chars, read_string, read_from_index, read_name_value_pair}
use tornado_http.Hpack.Format.{Entry, StringBytes, NameBytes}
use tornado_http.Hpack.Table.{Bytes, Pair, DynamicTable, static}

read_chars-append :
    (s front rest : Bytes)
    → read_chars (length s) (reading front (s ++ rest) 0) ≡ ok (s, reading (front ++ s) rest 0)
unfolding read_chars
read_chars-append [] front rest = rw (append-nil front)
read_chars-append (c ∷ s) front rest =
    rw (read_char-reading c front (s ++ rest), read_chars-append s (front ++ (c ∷ [])) rest)
      (rw (append_assoc front (c ∷ []) s))

pub read_string-StringBytes :
    (s front : Bytes) {bs : Bytes} (rest : Bytes)
    → StringBytes s bs
    → read_string (reading front (bs ++ rest) 0) ≡ ok (s, reading (front ++ bs) rest 0)
unfolding read_string
read_string-StringBytes s front rest (StringBytes.plain {bs = bs} n) = rw (append_assoc bs s rest) (
    rw
      (
        read_bit-HpackInt 0 7 0 0 (length s) front (s ++ rest) (omega arith) refl n,
        read_hpack_int-HpackInt 1 0 (length s) front (s ++ rest) n,
      )
      (read_chars-append s (front ++ bs) rest
        ∙ ap (λ f. ok (s, reading f rest 0)) (append_assoc front bs s)))

pub read_from_index-Entry :
    (t : DynamicTable) (i : ℕ) {p : Pair} → Entry t i p → read_from_index i t ≡ ok (some p)
unfolding read_from_index
read_from_index-Entry t i (Entry.in_static _ e) = rw (lt→ltb i _ (get_elem?-lt static.table i e), e)
read_from_index-Entry t i (Entry.in_dynamic _ j name value e at) =
    let behind : i - length static.table ≡ j = omega arith in
    rw (ge→ltb i (length static.table) (omega arith), behind, at)

-- The value that follows a name, and the positions put together.
read_value :
    (name value front ns : Bytes) {cs : Bytes} (rest : Bytes)
    → StringBytes value cs
    → ◌>>=◌ {Y = Bytes × Bytes × BitDecoder}
        (read_string (reading (front ++ ns) (cs ++ rest) 0))
        (λ x. ok (name, x.0, x.1))
      ≡ ok (name, value, reading (front ++ (ns ++ cs)) rest 0)
read_value name value front ns {cs = cs} rest s =
    rw (read_string-StringBytes value (front ++ ns) rest s) (rw (append_assoc front ns cs))

pub read_name_value_pair-NameBytes :
    (t : DynamicTable) (k h : ℕ) (name value front : Bytes) {bs cs : Bytes} (rest : Bytes)
    → NameBytes t k h name bs
    → StringBytes value cs
    → read_name_value_pair t (reading front (bs ++ (cs ++ rest)) k)
      ≡ ok (name, value, reading (front ++ (bs ++ cs)) rest 0)
unfolding read_name_value_pair
read_name_value_pair-NameBytes t k h name value front {cs = cs} rest
      (NameBytes.by_index i p {bs = bs} ne e same n) s =
    let positive : (i == 0) ≡ false = ground arith in
    rw (read_hpack_int-HpackInt k h i front (cs ++ rest) n) (
      rw positive
        (rw (read_from_index-Entry t i e) (rw same (read_value name value front bs rest s))))
read_name_value_pair-NameBytes t k h name value front {cs = cs} rest
      (NameBytes.written {bs = ns} {cs = ms} n m) s =
    rw (append_assoc ns ms (cs ++ rest), read_hpack_int-HpackInt k h 0 front (ms ++ (cs ++ rest)) n)
      (rw (read_string-StringBytes name (front ++ ns) (cs ++ rest) m)
        (rw (append_assoc front ns ms) (read_value name value front (ns ++ ms) rest s)))

-- The bits above the number of a name.
pub read_bit-NameBytes :
    (q j : ℕ) (t : DynamicTable) (k h : ℕ) (name front : Bytes) {bs : Bytes} (rest : Bytes)
    → q < 7
    → 7 - q ≡ 8 - k + j
    → NameBytes t k h name bs
    → read_bit (reading front (bs ++ rest) q)
      ≡ ok (h / 2 ^ j % 2, reading front (bs ++ rest) (q + 1))
read_bit-NameBytes q j t k h name front rest lt e (NameBytes.by_index i p ne _ _ n) =
    read_bit-HpackInt q (8 - k) j h i front rest lt e n
read_bit-NameBytes q j t k h name front rest lt e (NameBytes.written {bs = ns} {cs = ms} n m) =
    rw (append_assoc ns ms rest) (read_bit-HpackInt q (8 - k) j h 0 front (ms ++ rest) lt e n)
