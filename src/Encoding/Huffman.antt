-- ===== src/Encoding/Huffman.antt =====
-- encoding.py: `_load_huffman_data`, and the Huffman methods of the encoder and the decoder.
use Prim.Native.Char.{code}
use Prim.Native.String.{String}
use tornado_http.Common.{
  ℕ, zero, suc, ◌+◌, ◌-◌, ◌*◌, ◌≡◌, refl, true, false, not, List, [], ◌∷◌, Option, none, some,
  length, ltb, ◌==◌, if◌then◌else◌, Dict, dict_get, dict_set,
}
use tornado_http.Encoding.{BitEncoder, BitDecoder, read_bit, write_bit, write_bits}
use tornado_http.Encoding.HuffmanRows.{Row, huffman_rows}
use tornado_http.Errors.{Exn, Result, ok, err, ◌>>=◌, ◌>>◌, raise_if, or_raise}

-- `_tree()`: a dictionary from bits to subtrees or to character numbers, which makes an empty
-- dictionary (`absent`) for a bit that it does not hold.
pub data HuffmanTree : Type 0 where
  absent : HuffmanTree
  leaf : ℕ → HuffmanTree
  node : HuffmanTree → HuffmanTree → HuffmanTree

-- `tree_node[b]`; a number cannot be indexed.
unfoldable pub child : ℕ → HuffmanTree → Result HuffmanTree
child b absent = ok absent
child b (leaf c) = err Exn.type_error
child b (node l r) = ok (if b == 0 then l else r)

-- `tree_node[b] = t`
unfoldable pub set_child : ℕ → HuffmanTree → HuffmanTree → Result HuffmanTree
set_child b t absent = ok (if b == 0 then node t absent else node absent t)
set_child b t (leaf c) = err Exn.type_error
set_child b t (node l r) = ok (if b == 0 then node t r else node l t)

-- The walk down `bits[:-1]` and the write at `bits[-1]`.
unfoldable pub insert_code : List ℕ → ℕ → HuffmanTree → Result HuffmanTree
unfolding child set_child
insert_code [] c t = err Exn.index_error
insert_code (b ∷ []) c t = set_child b (leaf c) t
insert_code (b ∷ b' ∷ bs) c t = do
  below ← child b t
  below' ← insert_code (b' ∷ bs) c below
  set_child b below' t

-- `[int(c) for c in bits if c != '|']`, on a text of bits and bars
abbrev parse_bits : String → List ℕ
parse_bits String.[] = []
parse_bits (String.◌∷◌ c s) =
    let rest = parse_bits s in if code c == b'|' then rest else (code c - b'0') ∷ rest

-- `huffman_map` and `huffman_tree`
pub record Huffman : Type 0 where
  pub codes : Dict ℕ (List ℕ)
  pub tree : HuffmanTree

-- One line of the file. Its checks raise `ValueError`, and number 256 is skipped.
unfoldable pub load_row : Row → Huffman → Result Huffman
unfolding insert_code
load_row (ch, i, text, bit_len) h = do
  let bits = parse_bits text
  raise_if (elim ch [ none ↦ false | some c ↦ not (c == i) ]) Exn.value_error
  raise_if (not (length bits == bit_len)) Exn.value_error
  if i == 256 then ok h else do
    raise_if (elim (dict_get ◌==◌ i h.codes) [ none ↦ false | some _ ↦ true ]) Exn.value_error
    t ← insert_code bits i h.tree
    ok (record { codes = dict_set ◌==◌ i bits h.codes; tree = t })

unfoldable pub load_rows : List Row → Huffman → Result Huffman
unfolding load_row
load_rows [] h = ok h
load_rows (r ∷ rs) h = load_row r h >>= load_rows rs

abbrev pub no_codes : Huffman
no_codes = record { codes = []; tree = absent }

abbrev loaded : Result Huffman → Huffman
loaded (ok h) = h
loaded (err e) = no_codes

-- `_huffman_map, _huffman_tree`; `load_rows-huffman` says that loading them raises nothing.
unfoldable pub huffman : Huffman
unfolding load_rows huffman_rows
huffman = loaded (load_rows huffman_rows no_codes)

load_rows-huffman : load_rows huffman_rows no_codes ≡ ok huffman
unfolding huffman dict_get dict_set
load_rows-huffman = refl

-- `for b in _huffman_map[c]: self.write_bit(b)`
unfoldable pub write_huffman_char : ℕ → BitEncoder → Result BitEncoder
write_huffman_char c e = do
  bits ← or_raise Exn.key_error (dict_get ◌==◌ c huffman.codes)
  ok (write_bits bits e)

unfoldable pub write_huffman_chars : List ℕ → BitEncoder → Result BitEncoder
unfolding write_huffman_char
write_huffman_chars [] e = ok e
write_huffman_chars (c ∷ s) e = write_huffman_char c e >>= write_huffman_chars s

-- `while self._bit_offset != 8: self.write_bit(1)`, on the bits that are still free.
unfoldable pub pad_ones : ℕ → BitEncoder → BitEncoder
pad_ones zero e = e
pad_ones (suc n) e = elim (e.bit_offset == 8) [ true ↦ e | false ↦ pad_ones n (write_bit 1 e) ]

-- A byte has eight bits, so eight rounds are enough.
unfoldable pub write_huffman_string : List ℕ → BitEncoder → Result BitEncoder
unfolding write_huffman_chars pad_ones
write_huffman_string s e = do e' ← write_huffman_chars s e; ok (pad_ones 8 e')

-- `while self._byte_offset < limit` of `read_huffman_char`, at a node of the tree.
unfoldable pub read_huffman_bits : ℕ → HuffmanTree → ℕ → BitDecoder → Result (Option ℕ × BitDecoder)
unfolding child
read_huffman_bits zero t limit d = err Exn.out_of_fuel
read_huffman_bits (suc fuel) t limit d = elim (ltb d.byte_offset limit) [
  | false ↦ ok (none, d)
  | true ↦ do
    (b, d') ← read_bit d
    t' ← child b t
    elim t' [
      | leaf c ↦ ok (some c, d')
      | absent ↦ read_huffman_bits fuel absent limit d'
      | node l r ↦ read_huffman_bits fuel (node l r) limit d'
    ]
]

-- Each round reads a bit, so eight rounds for each byte and one more are enough.
unfoldable pub read_huffman_char : ℕ → BitDecoder → Result (Option ℕ × BitDecoder)
unfolding read_huffman_bits
read_huffman_char limit d = read_huffman_bits (8 * length d.src + 1) huffman.tree limit d
