-- ===== src/Hpack/Decoder.antt =====
-- hpack.py: `HpackDecoder`. Its state is the dynamic table; the bit decoder is passed along.
use tornado_http.Common.{
  ℕ, zero, suc, ◌+◌, ◌-◌, ◌*◌, Bool, true, false, List, [], ◌∷◌, ◌++◌, Option, none, some, length,
  get_elem?, ltb, ◌==◌, if◌then◌else◌,
}
use tornado_http.Constants.{HeaderIndexMode}
use tornado_http.Encoding.{BitDecoder, new_decoder, eod, read_bit, read_hpack_int, read_char}
use tornado_http.Encoding.Huffman.{read_huffman_char}
use tornado_http.Errors.{Exn, Result, ok, err, ◌>>=◌, ◌>>◌, or_raise}
use tornado_http.Hpack.Table.{
  Bytes, Pair, DynamicTable, Step, static, gc_dynamic_table, add_to_dynamic_table,
}

-- `(name, value, mode)`
abbrev pub Header : Type 0
Header = Pair × HeaderIndexMode

-- `while bit_decoder._byte_offset < dest_byte` of `read_string`
unfoldable pub read_huffman_loop : ℕ → ℕ → BitDecoder → Result (Bytes × BitDecoder)
read_huffman_loop zero dest_byte d = err Exn.out_of_fuel
read_huffman_loop (suc fuel) dest_byte d = elim (ltb d.byte_offset dest_byte) [
  | false ↦ ok ([], d)
  | true ↦ do
    (char, d') ← read_huffman_char dest_byte d
    elim char [
      | none ↦ ok ([], d')
      | some c ↦ do (cs, d'') ← read_huffman_loop fuel dest_byte d'; ok (c ∷ cs, d'')
    ]
]

-- `[bit_decoder.read_char() for i in range(length)]`
unfoldable pub read_chars : ℕ → BitDecoder → Result (Bytes × BitDecoder)
read_chars zero d = ok ([], d)
read_chars (suc n) d = do (c, d') ← read_char d; (cs, d'') ← read_chars n d'; ok (c ∷ cs, d'')

-- Each round of the Huffman loop reads a bit at least.
unfoldable pub read_string : BitDecoder → Result (Bytes × BitDecoder)
unfolding read_huffman_loop read_chars
read_string d = do
  (is_huffman, d1) ← read_bit d
  (n, d2) ← read_hpack_int d1
  if is_huffman == 0
      then read_chars n d2
      else read_huffman_loop (8 * length d2.src + 1) (d2.byte_offset + n) d2

-- What stands at an index: `None` at 0.
unfoldable pub read_from_index : ℕ → DynamicTable → Result (Option Pair)
read_from_index idx t =
    if ltb idx (length static.table)
    then or_raise Exn.index_error (get_elem? static.table idx)
    else do
      (name, value) ← or_raise Exn.index_error (get_elem? t.entries (idx - length static.table))
      ok (some (name, some value))

unfoldable pub read_name_value_pair :
    DynamicTable → BitDecoder → Result (Bytes × Bytes × BitDecoder)
unfolding read_string read_from_index
read_name_value_pair t d = do
  (name_index, d1) ← read_hpack_int d
  (name, d2) ←
      (if name_index == 0 then read_string d1 else do
        pair ← read_from_index name_index t
        (name, _) ← or_raise Exn.type_error pair
        ok (name, d1))
  (value, d3) ← read_string d2
  ok (name, value, d3)

-- The header list, the bit decoder and `limit_update_allowed` after a round of the loop.
abbrev pub Round : Type 0
Round = List Header × BitDecoder × Bool

-- `if is_indexed`
unfoldable pub decode_indexed : List Header → BitDecoder → Step Round
unfolding read_from_index
decode_indexed out d t = (
  t,
  do
    (idx, d') ← read_hpack_int d
    pair ← read_from_index idx t
    entry ← or_raise Exn.type_error pair
    ok (out ++ ((entry, HeaderIndexMode.index) ∷ []), d', false),
)

-- `if add_to_index`
unfoldable pub decode_incremental : List Header → BitDecoder → Step Round
unfolding read_name_value_pair add_to_dynamic_table
decode_incremental out d t = elim (read_name_value_pair t d) [
  | err e ↦ (t, err e)
  | ok (name, value, d') ↦
      let (t', added) = add_to_dynamic_table (name, value) t in
      (t', added >> ok (out ++ (((name, some value), HeaderIndexMode.index) ∷ []), d', false))
]

-- `if is_limit_update`
unfoldable pub decode_limit_update : List Header → Bool → BitDecoder → Step Round
unfolding gc_dynamic_table
decode_limit_update out limit_update_allowed d t = elim limit_update_allowed [
  | false ↦ (t, err Exn.hpack_error)
  | true ↦ elim (read_hpack_int d) [
    | err e ↦ (t, err e)
    | ok (new_limit, d') ↦
        let (t', collected) = gc_dynamic_table (record t { limit = new_limit }) in
        (t', collected >> ok (out, d', true))
  ]
]

-- The last branch: a literal that is not added to the table.
unfoldable pub decode_literal : List Header → BitDecoder → Step Round
unfolding read_name_value_pair
decode_literal out d t = (
  t,
  do
    (never, d1) ← read_bit d
    let mode = if never == 0 then HeaderIndexMode.no_index else HeaderIndexMode.never_index
    (name, value, d2) ← read_name_value_pair t d1
    ok (out ++ (((name, some value), mode) ∷ []), d2, false),
)

-- A bit that chooses a branch.
abbrev pub on_bit : BitDecoder → (BitDecoder → Step Round) → (BitDecoder → Step Round) → Step Round
on_bit d on off t = elim (read_bit d) [
  | err e ↦ (t, err e)
  | ok (b, d') ↦ if b == 0 then off d' t else on d' t
]

-- The inner `else` branches, after two bits and after one.
abbrev pub decode_unadded : List Header → Bool → BitDecoder → Step Round
decode_unadded out limit_update_allowed d =
    on_bit d (decode_limit_update out limit_update_allowed) (decode_literal out)

abbrev pub decode_unindexed : List Header → Bool → BitDecoder → Step Round
decode_unindexed out limit_update_allowed d =
    on_bit d (decode_incremental out) (decode_unadded out limit_update_allowed)

-- One round of `while not bit_decoder.eod()`.
unfoldable pub decode_round : Round → Step Round
unfolding decode_indexed decode_incremental decode_limit_update decode_literal
decode_round (out, d, limit_update_allowed) =
    on_bit d (decode_indexed out) (decode_unindexed out limit_update_allowed)

unfoldable pub decode_loop : ℕ → Round → Step (List Header)
unfolding decode_round
decode_loop zero r t = (t, err Exn.out_of_fuel)
decode_loop (suc fuel) r t = elim (eod r.1) [
  | true ↦ (t, ok r.0)
  | false ↦
      let (t', step) = decode_round r t in
      elim step [ err e ↦ (t', err e) | ok r' ↦ decode_loop fuel r' t' ]
]

-- `except Exception as e: raise HpackError(str(e))`; what is no Python exception stays.
abbrev pub as_hpack_error {ℓ} : {A : Type ℓ} → Result A → Result A
as_hpack_error (ok a) = ok a
as_hpack_error (err Exn.out_of_fuel) = err Exn.out_of_fuel
as_hpack_error (err _) = err Exn.hpack_error

-- Each round reads a byte at least, so a round for each byte and one more are enough.
unfoldable pub decode : Bytes → Step (List Header)
unfolding decode_loop
decode src t =
    let (t', r) = decode_loop (length src + 1) ([], new_decoder src, true) t in
    (t', as_hpack_error r)
