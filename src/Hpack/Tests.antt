-- ===== src/Hpack/Tests.antt =====
-- Runs of the HPACK codec on the vectors of test/hpack_test.py, and the theorems at concrete inputs.
use tornado_http.Common.{
  ℕ, ◌≡◌, refl, List, [], ◌∷◌, some, true, dict_get, arith, length, get_elem?, false,
}
use tornado_http.Constants.{codes, HeaderIndexMode}
use tornado_http.Encoding
use tornado_http.Common.{◌≢◌}
use tornado_http.Errors.{Exn, err, ok}
use tornado_http.Hpack.RoundsEnd.{decode-ne-out_of_fuel}
use tornado_http.Hpack.Table.{
  Bytes, Pair, DynamicTable, entry_size, add_to_dynamic_table, new_table, static,
}
use tornado_http.Hpack.Decoder.{Header, decode}
use tornado_http.Hpack.Decoding.{decode-Block}
use tornado_http.Hpack.Eviction.{IsSized, sized, newest, add_to_dynamic_table-newest}
use tornado_http.Hpack.Format.{Entry, Field, Block}
use tornado_http.Hpack.Lookup.{find_pair_index-Entry, find_key_index-Entry}
use tornado_http.Hpack.RoundTrip.{Sent, decode-encode}
use tornado_http.Encoding.IntFormat.{HpackInt}
use tornado_http.Hpack.Encoder.{
  encode, find_pair_index, find_key_index, write_name_value, write_header, lower,
}

-- C.4, first request: Huffman-coded.
abbrev c4_block : List ℕ
c4_block =
    0x82 ∷ 0x86 ∷ 0x84 ∷ 0x41 ∷ 0x8c ∷ 0xf1 ∷ 0xe3 ∷ 0xc2 ∷ 0xe5 ∷ 0xf2 ∷ 0x3a ∷ 0x6b ∷ 0xa0 ∷ 0xab
    ∷ 0x90 ∷ 0xf4 ∷ 0xff ∷ []

decode-c4 :
    (decode c4_block (new_table 256)).1
    ≡ ok (
        ((codes ":method", some (codes "GET")), HeaderIndexMode.index)
        ∷ ((codes ":scheme", some (codes "http")), HeaderIndexMode.index)
        ∷ ((codes ":path", some (codes "/")), HeaderIndexMode.index)
        ∷ ((codes ":authority", some (codes "www.example.com")), HeaderIndexMode.index)
        ∷ [])
unfolding decode Encoding.read_bit Encoding.read_hpack_int Encoding.Huffman.read_huffman_char
    Encoding.Huffman.huffman dict_get static Encoding.read_char Encoding.eod
decode-c4 = refl

encode-c4 :
    (encode true
      ((codes ":method", codes "GET", HeaderIndexMode.index)
        ∷ (codes ":scheme", codes "http", HeaderIndexMode.index)
        ∷ (codes ":path", codes "/", HeaderIndexMode.index)
        ∷ (codes ":authority", codes "www.example.com", HeaderIndexMode.index)
        ∷ [])
      (new_table 256)).1
    ≡ ok c4_block
unfolding encode add_to_dynamic_table find_pair_index write_name_value write_header lower
    Encoding.write_bits Encoding.write_string Encoding.write_hpack_int
    Encoding.Huffman.write_huffman_string Encoding.Huffman.huffman dict_get static
encode-c4 = refl

-- A header of the static table, one that is added to the dynamic table, and one that must not be
-- indexed, on a table of 256 octets.
abbrev request : List (Bytes × Bytes × HeaderIndexMode)
request =
    (codes ":method", codes "GET", HeaderIndexMode.index)
    ∷ (codes "X-Trace", codes "42", HeaderIndexMode.index)
    ∷ (codes "cookie", codes "secret", HeaderIndexMode.never_index)
    ∷ []

decode-encode_example :
    (bs : Bytes) × (ds : List Header) × (u : DynamicTable) × (encode false request (new_table 256)
      ≡ (u, ok bs))
    × (decode bs (new_table 256) ≡ (u, ok ds))
    × Sent request ds
    × IsSized u
decode-encode_example = decode-encode request (new_table 256) refl

-- The block of one octet that is the index of `:method: GET`.
decode-Block_example :
    decode (0x82 ∷ []) (new_table 256)
    ≡ (new_table 256, ok (((codes ":method", some (codes "GET")), HeaderIndexMode.index) ∷ []))
decode-Block_example = decode-Block (new_table 256) (new_table 256) _ (0x82 ∷ []) refl block
  where
    at_two : get_elem? static.table 2 ≡ some (some (codes ":method", some (codes "GET")))
    at_two = unfold static in refl

    block :
        Block
          (new_table 256)
          true
          (((codes ":method", some (codes "GET")), HeaderIndexMode.index) ∷ [])
          (0x82 ∷ [])
          (new_table 256)
    block =
        Block.field (new_table 256) true
          (Field.indexed 2 (Entry.in_static 2 at_two) (HpackInt.small 2 (omega arith)))
          (Block.done (new_table 256) false)

-- An entry of 42 octets on a table of 50 drives out the one that is there.
abbrev small_table : DynamicTable
small_table = record { entries = (codes "a", codes "b") ∷ []; size = 34; limit = 50 }

add_to_dynamic_table-newest_example :
    add_to_dynamic_table (codes "x-one", codes "12345") small_table
    ≡ (sized 50 (newest 50 ((codes "x-one", codes "12345") ∷ (codes "a", codes "b") ∷ [])), ok tt)
unfolding entry_size
add_to_dynamic_table-newest_example =
    add_to_dynamic_table-newest (codes "x-one", codes "12345") small_table refl

find_pair_index-Entry_example :
    Entry small_table (length static.table) (codes "a", some (codes "b"))
find_pair_index-Entry_example =
    find_pair_index-Entry (codes "a") (codes "b") small_table (length static.table) found
  where
    found : find_pair_index (codes "a", codes "b") small_table ≡ some (length static.table)
    found = unfold find_pair_index static dict_get in refl

find_key_index-Entry_example :
    (p : Pair) × ((u : DynamicTable) → Entry u 2 p) × (p.0 ≡ codes ":method")
find_key_index-Entry_example = find_key_index-Entry (codes ":method") small_table 2 found
  where
    found : find_key_index (codes ":method") small_table ≡ some 2
    found = unfold find_key_index static dict_get in refl

-- A block that breaks off behind its first byte.
decode-ne-out_of_fuel_example : (decode (0x40 ∷ []) small_table).1 ≢ err Exn.out_of_fuel
decode-ne-out_of_fuel_example = decode-ne-out_of_fuel (0x40 ∷ []) small_table
