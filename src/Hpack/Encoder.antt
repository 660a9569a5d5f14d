-- ===== src/Hpack/Encoder.antt =====
-- hpack.py: `HpackEncoder`. Its state is the dynamic table; `encode_huffman` never changes, and is a
-- parameter.
use tornado_http.Common.{
  ℕ, ◌+◌, Bool, true, false, List, [], ◌∷◌, Option, none, some, length, map, leb, ◌&&◌, ◌==◌,
  if◌then◌else◌, dict_get, bytes_eq,
}
use tornado_http.Constants.{HeaderIndexMode}
use tornado_http.Encoding
use tornado_http.Encoding.{BitEncoder, new_encoder, write_bit, write_bits, write_hpack_int}
use tornado_http.Encoding.Huffman.{write_huffman_string}
use tornado_http.Errors.{Result, ok, err, ◌>>=◌, ◌>>◌}
use tornado_http.Hpack.Table.{Bytes, DynamicTable, Step, static, pair_eq, add_to_dynamic_table}

-- `k.lower()` on bytes changes the ASCII letters.
unfoldable pub lower : Bytes → Bytes
lower = map (λ c. if leb b'A' c && leb c b'Z' then c + 32 else c)

-- `if idx`: neither `None` nor 0 counts.
abbrev pub if_index : Option ℕ → Option ℕ
if_index none = none
if_index (some idx) = if idx == 0 then none else some idx

-- `for i, p in enumerate(self._dynamic_table): if pair == p`
unfoldable pub find_pair : Bytes × Bytes → ℕ → List (Bytes × Bytes) → Option ℕ
find_pair pair i [] = none
find_pair (k, v) i ((k', v') ∷ rest) =
    if bytes_eq k k' && bytes_eq v v'
    then some (i + length static.table)
    else find_pair (k, v) (i + 1) rest

unfoldable pub find_pair_index : Bytes × Bytes → DynamicTable → Option ℕ
unfolding find_pair
find_pair_index (k, v) t = elim (if_index (dict_get pair_eq (k, some v) static.pairs)) [
  | some idx ↦ some idx
  | none ↦ find_pair (k, v) 0 t.entries
]

-- `k == key`, where `k` is an entry of the dynamic table: a tuple equals no byte string.
abbrev pub tuple_eq_bytes : Bytes × Bytes → Bytes → Bool
tuple_eq_bytes k key = false

-- `for i, k in enumerate(self._dynamic_table): if k == key`
unfoldable pub find_key : Bytes → ℕ → List (Bytes × Bytes) → Option ℕ
find_key key i [] = none
find_key key i (k ∷ rest) =
    if tuple_eq_bytes k key then some (i + length static.table) else find_key key (i + 1) rest

unfoldable pub find_key_index : Bytes → DynamicTable → Option ℕ
unfolding find_key
find_key_index key t = elim (if_index (dict_get bytes_eq key static.keys)) [
  | some idx ↦ some idx
  | none ↦ find_key key 0 t.entries
]

module _ (encode_huffman : Bool) where
  unfoldable pub write_string : Bytes → BitEncoder → Result BitEncoder
  write_string s e = elim encode_huffman [
    | false ↦ Encoding.write_string s (write_hpack_int (length s) (write_bit 0 e))
    | true ↦ do
      enc ← write_huffman_string s new_encoder
      Encoding.write_string enc.out (write_hpack_int (length enc.out) (write_bit 1 e))
  ]

  -- The name, by its index or written out, and the value.
  unfoldable pub write_name_value : Bytes → Bytes → DynamicTable → BitEncoder → Result BitEncoder
  unfolding write_string find_key_index
  write_name_value k v t e = do
    e' ← elim (if_index (find_key_index k t)) [
      | some idx ↦ ok (write_hpack_int idx e)
      | none ↦ write_string k (write_hpack_int 0 e)
    ]
    write_string v e'

  -- A literal goes into the table before its name is looked up.
  unfoldable pub write_header : Bytes → Bytes → HeaderIndexMode → BitEncoder → Step BitEncoder
  write_header k v mode e t = elim (if_index (find_pair_index (k, v) t)) [
    | some idx ↦ (t, ok (write_hpack_int idx (write_bit 1 e)))
    | none ↦ elim mode [
      | HeaderIndexMode.index ↦
          let (t', added) = add_to_dynamic_table (k, v) t in
          (t', added >> write_name_value k v t' (write_bits (0 ∷ 1 ∷ []) e))
      | HeaderIndexMode.never_index ↦
          (t, write_name_value k v t (write_bits (0 ∷ 0 ∷ 0 ∷ 1 ∷ []) e))
      | HeaderIndexMode.no_index ↦ (t, write_name_value k v t (write_bits (0 ∷ 0 ∷ 0 ∷ 0 ∷ []) e))
    ]
  ]

  -- `for k, v, mode in header_list`
  unfoldable pub encode_loop : List (Bytes × Bytes × HeaderIndexMode) → BitEncoder → Step BitEncoder
  encode_loop [] e t = (t, ok e)
  encode_loop ((k, v, mode) ∷ hs) e t =
      let (t', step) = write_header (lower k) v mode e t in
      elim step [ err x ↦ (t', err x) | ok e' ↦ encode_loop hs e' t' ]

  unfoldable pub encode : List (Bytes × Bytes × HeaderIndexMode) → Step Bytes
  unfolding encode_loop
  encode hs t = let (t', r) = encode_loop hs new_encoder t in (t', r >>= λ e. ok e.out)
