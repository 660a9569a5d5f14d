-- ===== src/Hpack/Format.antt =====
-- The header blocks of HPACK as a format (RFC 7541, sections 2.3 and 6), for hpack.py to meet. A
-- family relates the state of the dynamic table before, what a block says, its bytes and the state
-- of the table after. Strings are the ones without Huffman coding.
use tornado_http.Common.{
  ℕ, ◌+◌, ◌-◌, ◌≡◌, ◌≢◌, Bool, true, false, List, [], ◌∷◌, ◌++◌, some, length, get_elem?,
}
use tornado_http.Constants.{HeaderIndexMode}
use tornado_http.Encoding.IntFormat.{HpackInt}
use tornado_http.Hpack.Decoder.{Header}
use tornado_http.Hpack.Eviction.{newest, sized}
use tornado_http.Hpack.Table.{Bytes, Pair, DynamicTable, static}

-- One address space: the static table, and behind it the dynamic one, newest entry first.
pub data Entry (t : DynamicTable) : ℕ → Pair → Type 0 where
  in_static : (i : ℕ) {p : Pair} → get_elem? static.table i ≡ some (some p) → Entry t i p
  in_dynamic :
      (i j : ℕ) (name value : Bytes)
      → i ≡ length static.table + j
      → get_elem? t.entries j ≡ some (name, value)
      → Entry t i (name, some value)

-- A length over seven bits, and the bytes.
pub data StringBytes (s : Bytes) : Bytes → Type 0 where
  plain : {bs : Bytes} → HpackInt 7 0 (length s) bs → StringBytes s (bs ++ s)

-- A name behind `k` bits of value `h`: its index, or 0 and the name.
pub data NameBytes (t : DynamicTable) (k h : ℕ) (name : Bytes) : Bytes → Type 0 where
  by_index :
      (i : ℕ) (p : Pair) {bs : Bytes}
      → i ≢ 0
      → Entry t i p
      → p.0 ≡ name
      → HpackInt (8 - k) h i bs
      → NameBytes t k h name bs
  written :
      {bs cs : Bytes}
      → HpackInt (8 - k) h 0 bs
      → StringBytes name cs
      → NameBytes t k h name (bs ++ cs)

-- A header field: an index, or a literal that is added to the table, is never to be indexed, or is
-- not indexed here.
pub data Field (t : DynamicTable) : Header → Bytes → DynamicTable → Type 0 where
  indexed :
      (i : ℕ) {p : Pair} {bs : Bytes}
      → Entry t i p
      → HpackInt 7 1 i bs
      → Field t (p, HeaderIndexMode.index) bs t
  incremental :
      (name value : Bytes) {bs cs : Bytes}
      → NameBytes t 2 1 name bs
      → StringBytes value cs
      → Field t
          ((name, some value), HeaderIndexMode.index)
          (bs ++ cs)
          (sized t.limit (newest t.limit ((name, value) ∷ t.entries)))
  never :
      (name value : Bytes) {bs cs : Bytes}
      → NameBytes t 4 1 name bs
      → StringBytes value cs
      → Field t ((name, some value), HeaderIndexMode.never_index) (bs ++ cs) t
  without :
      (name value : Bytes) {bs cs : Bytes}
      → NameBytes t 4 0 name bs
      → StringBytes value cs
      → Field t ((name, some value), HeaderIndexMode.no_index) (bs ++ cs) t

-- A block: size updates at its start only (while the flag is `true`), then fields.
pub data Block : DynamicTable → Bool → List Header → Bytes → DynamicTable → Type 0 where
  done : (t : DynamicTable) (allowed : Bool) → Block t allowed [] [] t
  update :
      (t : DynamicTable) (limit : ℕ) {hs : List Header} {bs cs : Bytes} {u : DynamicTable}
      → HpackInt 5 1 limit bs
      → Block (sized limit (newest limit t.entries)) true hs cs u
      → Block t true hs (bs ++ cs) u
  field :
      (t : DynamicTable) (allowed : Bool) {h : Header} {hs : List Header} {bs cs : Bytes}
      {t' u : DynamicTable}
      → Field t h bs t'
      → Block t' false hs cs u
      → Block t allowed (h ∷ hs) (bs ++ cs) u
