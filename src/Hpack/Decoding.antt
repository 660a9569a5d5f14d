-- ===== src/Hpack/Decoding.antt =====
-- hpack.py: `HpackDecoder.decode` on every block of the format.
use tornado_http.Common.{
  ap, ℕ, zero, suc, ◌+◌, ◌<◌, ◌≡◌, refl, ◌∙◌, arith, Bool, true, false, List, [], ◌∷◌, ◌++◌,
  append_assoc, append-nil, length, length-append,
}
use tornado_http.Encoding.BitRead.{eod-reading, eod-reading_end}
use tornado_http.Encoding.IntFormat.{HpackInt}
use tornado_http.Encoding.IntRoundTrip.{reading}
use tornado_http.Errors.{Result, ok}
use tornado_http.Hpack.Decoder.{Round, Header, decode_round, decode_loop, decode}
use tornado_http.Hpack.Eviction.{IsSized, sized, newest}
use tornado_http.Hpack.Format.{NameBytes, Field, Block}
use tornado_http.Hpack.Table.{Bytes, DynamicTable}
use tornado_http.Hpack.Rounds.{decode_round-Field, decode_round_update}

-- No field and no size update is empty.
HpackInt-ne-nil : {n h i : ℕ} {bs : Bytes} → HpackInt n h i bs → 0 < length bs
HpackInt-ne-nil (HpackInt.small _ _) = omega arith
HpackInt-ne-nil (HpackInt.large _ _ _) = omega arith

NameBytes-ne-nil :
    {t : DynamicTable} {k h : ℕ} {name bs : Bytes} → NameBytes t k h name bs → 0 < length bs
NameBytes-ne-nil (NameBytes.by_index i p ne e same n) = HpackInt-ne-nil n
NameBytes-ne-nil (NameBytes.written {bs = bs} {cs = cs} n s) =
    omega (arith, HpackInt-ne-nil n, length-append bs cs)

Field-ne-nil : {t t' : DynamicTable} {h : Header} {bs : Bytes} → Field t h bs t' → 0 < length bs
Field-ne-nil (Field.indexed i e n) = HpackInt-ne-nil n
Field-ne-nil (Field.incremental name value {bs = bs} {cs = cs} n s) =
    omega (arith, NameBytes-ne-nil n, length-append bs cs)
Field-ne-nil (Field.never name value {bs = bs} {cs = cs} n s) =
    omega (arith, NameBytes-ne-nil n, length-append bs cs)
Field-ne-nil (Field.without name value {bs = bs} {cs = cs} n s) =
    omega (arith, NameBytes-ne-nil n, length-append bs cs)

Field-IsSized :
    {t t' : DynamicTable} {h : Header} {bs : Bytes} → Field t h bs t' → IsSized t → IsSized t'
Field-IsSized (Field.indexed i e n) z = z
Field-IsSized (Field.incremental name value n s) z = refl
Field-IsSized (Field.never name value n s) z = z
Field-IsSized (Field.without name value n s) z = z

-- One round more of the loop, where something is left.
decode_loop_step :
    (fuel : ℕ) (out out' : List Header) (front bs rest : Bytes) (allowed allowed' : Bool)
    (t t' : DynamicTable)
    → 0 < length bs
    → decode_round (out, reading front (bs ++ rest) 0, allowed) t
      ≡ (t', ok (out', reading (front ++ bs) rest 0, allowed'))
    → decode_loop (suc fuel) (out, reading front (bs ++ rest) 0, allowed) t
      ≡ decode_loop fuel (out', reading (front ++ bs) rest 0, allowed') t'
unfolding decode_loop
decode_loop_step fuel out out' front [] rest allowed allowed' t t' h e = absurd (omega arith)
decode_loop_step fuel out out' front (b ∷ bs) rest allowed allowed' t t' h e =
    rw (eod-reading front b (bs ++ rest) 0, decode_loop)
      (rw (
        ap (λ (p : DynamicTable × Result Round). p.1) e,
        ap (λ (p : DynamicTable × Result Round). p.0) e,
      ))

decode_loop_done :
    (fuel : ℕ) (out : List Header) (front : Bytes) (allowed : Bool) (t : DynamicTable)
    → decode_loop (suc fuel) (out, reading front [] 0, allowed) t ≡ (t, ok out)
unfolding decode_loop
decode_loop_done fuel out front allowed t = rw (eod-reading_end front 0, decode_loop)

decode_loop-Block :
    (fuel : ℕ) (out : List Header) (front : Bytes) (allowed : Bool) (t : DynamicTable)
    {hs : List Header} {bs : Bytes} {u : DynamicTable}
    → length bs < fuel
    → IsSized t
    → Block t allowed hs bs u
    → decode_loop fuel (out, reading front bs 0, allowed) t ≡ (u, ok (out ++ hs))
decode_loop-Block zero out front allowed t lt sz b = absurd (omega arith)
decode_loop-Block (suc fuel) out front allowed t lt sz (Block.done _ _) =
    decode_loop_done fuel out front allowed t ∙ rw (append-nil out)
decode_loop-Block (suc fuel) out front allowed t lt sz
      (Block.update _ limit {hs = hs} {bs = bs} {cs = cs} n b) =
    let room : length cs < fuel = omega (arith, HpackInt-ne-nil n, length-append bs cs) in
    decode_loop_step fuel out out front bs cs true true t (sized limit (newest limit t.entries))
      (HpackInt-ne-nil n) (decode_round_update t out front cs limit sz n)
    ∙ decode_loop-Block fuel out (front ++ bs) true (sized limit (newest limit t.entries)) room refl
        b
decode_loop-Block (suc fuel) out front allowed t lt sz
      (Block.field _ _ {h = h} {hs = hs} {bs = bs} {cs = cs} {t' = t'} f b) =
    let room : length cs < fuel = omega (arith, Field-ne-nil f, length-append bs cs) in
    decode_loop_step fuel out (out ++ (h ∷ [])) front bs cs allowed false t t' (Field-ne-nil f)
      (decode_round-Field t allowed out front cs h sz f)
    ∙ decode_loop-Block fuel (out ++ (h ∷ [])) (front ++ bs) false t' room (Field-IsSized f sz) b
    ∙ rw (append_assoc out (h ∷ []) hs)

-- Every header block of the format (indexed fields, the three literals, size updates at its start;
-- strings without Huffman coding), from any table whose size field is right, is decoded to the headers
-- that it says, and leaves the table that it says.
pub decode-Block :
    (t u : DynamicTable) (hs : List Header) (bs : Bytes)
    → IsSized t
    → Block t true hs bs u
    → decode bs t ≡ (u, ok hs)
unfolding decode
decode-Block t u hs bs sz b = rw (decode_loop-Block (length bs + 1) [] [] true t (omega arith) sz b)
