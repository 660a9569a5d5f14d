-- ===== src/Hpack/RoundTrip.antt =====
-- hpack.py: what `HpackEncoder.encode` writes, `HpackDecoder.decode` reads back, and the two dynamic
-- tables stay the same (strings without Huffman coding, which is how a connection encodes).
use tornado_http.Common.{
  ◌≡◌, ◌⊎◌, ap, ◌∙◌, Bool, true, false, List, [], ◌∷◌, ◌++◌, append-nil, append_assoc, some,
}
use tornado_http.Constants.{HeaderIndexMode}
use tornado_http.Encoding.{BitEncoder}
use tornado_http.Errors.{Result, ok}
use tornado_http.Hpack.Decoder.{Header, decode}
use tornado_http.Hpack.Decoding.{decode-Block}
use tornado_http.Hpack.Encoder.{lower, write_header, encode_loop, encode}
use tornado_http.Hpack.Eviction.{IsSized}
use tornado_http.Hpack.Format.{Block}
use tornado_http.Hpack.Table.{Bytes, DynamicTable}
use tornado_http.Hpack.Writing.{aligned, write_header-Field}

-- The headers that are received for those that are sent: names in lower case, values as they are,
-- and each mode kept or turned into `index`.
pub data Sent : List (Bytes × Bytes × HeaderIndexMode) → List Header → Type 0 where
  nil : Sent [] []
  cons :
      (k v : Bytes) (mode mode' : HeaderIndexMode) {hs : List (Bytes × Bytes × HeaderIndexMode)}
      {ds : List Header}
      → (mode' ≡ mode) ⊎ (mode' ≡ HeaderIndexMode.index)
      → Sent hs ds
      → Sent ((k, v, mode) ∷ hs) (((lower k, some v), mode') ∷ ds)

record Sending (hs : List (Bytes × Bytes × HeaderIndexMode)) (front : Bytes) (t : DynamicTable)
    : Type 0 where
  bytes : Bytes
  received : List Header
  after : DynamicTable
  encoded : encode_loop false hs (aligned front) t ≡ (after, ok (aligned (front ++ bytes)))
  block : Block t false received bytes after
  sent : Sent hs received
  is_sized : IsSized after

encode_loop_step :
    (k v : Bytes) (mode : HeaderIndexMode) (hs : List (Bytes × Bytes × HeaderIndexMode))
    (front bs : Bytes) (t u : DynamicTable)
    → write_header false (lower k) v mode (aligned front) t ≡ (u, ok (aligned (front ++ bs)))
    → encode_loop false ((k, v, mode) ∷ hs) (aligned front) t
      ≡ encode_loop false hs (aligned (front ++ bs)) u
unfolding encode_loop
encode_loop_step k v mode hs front bs t u e = rw (
  encode_loop,
  ap (λ (p : DynamicTable × Result BitEncoder). p.1) e,
  ap (λ (p : DynamicTable × Result BitEncoder). p.0) e,
)

encode_loop-Block :
    (hs : List (Bytes × Bytes × HeaderIndexMode)) (front : Bytes) (t : DynamicTable)
    → IsSized t
    → Sending hs front t
unfolding encode_loop
encode_loop-Block [] front t sz = record {
  bytes = [];
  received = [];
  after = t;
  encoded = rw (append-nil front);
  block = Block.done t false;
  sent = nil;
  is_sized = sz;
}
encode_loop-Block ((k, v, mode) ∷ hs) front t sz =
    let w = write_header-Field (lower k) v front mode t sz in
    let s = encode_loop-Block hs (front ++ w.bytes) w.after w.is_sized in
    record {
      bytes = w.bytes ++ s.bytes;
      received = ((lower k, some v), w.sent_as) ∷ s.received;
      after = s.after;
      encoded =
          encode_loop_step k v mode hs front w.bytes t w.after w.written
          ∙ (s.encoded ∙ ap (λ o. (s.after, ok (aligned o))) (append_assoc front w.bytes s.bytes));
      block = Block.field t false w.in_format s.block;
      sent = cons k v mode w.sent_as w.mode_kept s.sent;
      is_sized = s.is_sized;
    }

-- A block with no size update may stand where one is allowed.
Block-allow :
    {t u : DynamicTable} {a : Bool} {hs : List Header} {bs : Bytes}
    → Block t a hs bs u
    → Block t true hs bs u
Block-allow (Block.done t a) = Block.done t true
Block-allow (Block.update t limit n b) = Block.update t limit n b
Block-allow (Block.field t a f b) = Block.field t true f b

-- From any table state with a right size field, `encode` without Huffman coding gives bytes on any
-- header list, and `decode`
-- from the same state reads them to the same list (names in lower case, modes as `Sent` says) and to
-- the same table state, whose size field is right again.
pub decode-encode :
    (hs : List (Bytes × Bytes × HeaderIndexMode)) (t : DynamicTable)
    → IsSized t
    → (bs : Bytes) × (ds : List Header) × (u : DynamicTable) × (encode false hs t ≡ (u, ok bs))
      × (decode bs t ≡ (u, ok ds))
      × Sent hs ds
      × IsSized u
unfolding encode
decode-encode hs t sz =
    let s = encode_loop-Block hs [] t sz in
    (
      s.bytes,
      s.received,
      s.after,
      rw s.encoded,
      decode-Block t s.after s.received s.bytes sz (Block-allow s.block),
      s.sent,
      s.is_sized,
    )
