-- ===== src/Hpack/Table.antt =====
-- hpack.py: the static table and its two dictionaries, and the dynamic table, which the encoder and
-- the decoder keep by the same methods.
use tornado_http.Common.{
  ℕ, zero, suc, ◌+◌, ◌-◌, ◌≡◌, refl, Bool, true, false, not, ◌&&◌, List, [], ◌∷◌, ◌++◌, Option,
  none, some, length, ltb, ◌==◌, if◌then◌else◌, bytes_eq, Dict, dict_get, dict_set,
}
use tornado_http.Errors.{Exn, Result, ok, err, ◌>>=◌, ◌>>◌, raise_if}
use tornado_http.Hpack.StaticRows.{Row, static_rows}

abbrev pub Bytes : Type 0
Bytes = List ℕ

-- A name and a value. A line of the static table with no value gives the value `None`.
abbrev pub Pair : Type 0
Pair = Bytes × Option Bytes

-- `==` of two tuples
unfoldable pub pair_eq : Pair → Pair → Bool
pair_eq (k, none) (k', none) = bytes_eq k k'
pair_eq (k, none) (k', some v) = false
pair_eq (k, some v) (k', none) = false
pair_eq (k, some v) (k', some v') = bytes_eq k k' && bytes_eq v v'

-- `_static_table` with its `None` at 0, `_static_keys` and `_static_pairs`
pub record StaticTable : Type 0 where
  pub table : List (Option Pair)
  pub keys : Dict Bytes ℕ
  pub pairs : Dict Pair ℕ

-- `for line in f` of `_load_static_table`
unfoldable pub load_lines : List Row → List (Option Pair) → Result (List (Option Pair))
load_lines [] table = ok table
load_lines ((number, name, value) ∷ rows) table = do
  raise_if (not (number == length table)) Exn.value_error
  load_lines rows (table ++ (some (name, value) ∷ []))

-- `for i, pair in enumerate(table)`
unfoldable pub index_table :
    ℕ → List (Option Pair) → Dict Bytes ℕ × Dict Pair ℕ → Dict Bytes ℕ × Dict Pair ℕ
index_table i [] dicts = dicts
index_table i (none ∷ rest) dicts = index_table (i + 1) rest dicts
index_table i (some pair ∷ rest) (keys, pairs) =
    let keys' : Dict Bytes ℕ = elim (dict_get bytes_eq pair.0 keys) [
      | none ↦ dict_set bytes_eq pair.0 i keys
      | some _ ↦ keys
    ] in
    index_table (i + 1) rest (keys', dict_set pair_eq pair i pairs)

unfoldable pub load_static_table : List Row → Result StaticTable
unfolding load_lines index_table
load_static_table rows = do
  table ← load_lines rows (none ∷ [])
  let dicts = index_table 0 table ([], [])
  ok (record { table = table; keys = dicts.0; pairs = dicts.1 })

abbrev loaded : Result StaticTable → StaticTable
loaded (ok s) = s
loaded (err e) = record { table = []; keys = []; pairs = [] }

-- `_static_table, _static_keys, _static_pairs`; `load_static_table-static` says that loading them
-- raises nothing.
unfoldable pub static : StaticTable
unfolding load_static_table static_rows dict_get dict_set pair_eq bytes_eq
static = loaded (load_static_table static_rows)

pub load_static_table-static : load_static_table static_rows ≡ ok static
unfolding static
load_static_table-static = refl

-- `_dynamic_table` from its left end, `_dynamic_table_size` and `_dynamic_table_limit`
pub record DynamicTable : Type 0 where
  pub entries : List (Bytes × Bytes)
  pub size : ℕ
  pub limit : ℕ

abbrev pub new_table : ℕ → DynamicTable
new_table limit = record { entries = []; size = 0; limit = limit }

unfoldable pub entry_size : Bytes × Bytes → ℕ
entry_size (name, value) = length name + length value + 32

-- `deque.pop()`: what is left, and the entry at the right end.
unfoldable pub pop {ℓ} : {A : Type ℓ} → List A → Result (List A × A)
pop [] = err Exn.index_error
pop (x ∷ []) = ok ([], x)
pop (x ∷ y ∷ ys) = do (rest, z) ← pop (y ∷ ys); ok (x ∷ rest, z)

-- A method of the table: what it raises leaves the table as it then is.
abbrev pub Step : Type 0 → Type 0
Step A = DynamicTable → DynamicTable × Result A

-- `while self._dynamic_table_size > self._dynamic_table_limit`. A round takes one entry off, and on
-- an empty table `pop` raises, so a round for each entry is enough.
unfoldable pub gc_loop : ℕ → Step (Unit {0})
unfolding pop entry_size
gc_loop zero t = if ltb t.limit t.size then (t, err Exn.index_error) else (t, ok tt)
gc_loop (suc rounds) t = elim (ltb t.limit t.size) [
  | false ↦ (t, ok tt)
  | true ↦ elim (pop t.entries) [
    | err e ↦ (t, err e)
    | ok (rest, last) ↦
        gc_loop rounds (record t { entries = rest; size = t.size - entry_size last })
  ]
]

-- `_gc_dynamic_table`
unfoldable pub gc_dynamic_table : Step (Unit {0})
unfolding gc_loop
gc_dynamic_table t = gc_loop (length t.entries) t

-- `appendleft`, then the garbage collection
unfoldable pub add_to_dynamic_table : Bytes × Bytes → Step (Unit {0})
unfolding gc_dynamic_table
add_to_dynamic_table e t =
    gc_dynamic_table (record t { entries = e ∷ t.entries; size = t.size + entry_size e })
