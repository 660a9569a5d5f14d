-- ===== src/Hpack/Lookup.antt =====
-- hpack.py: the encoder's two searches find what the decoder reads at the index.
use tornado_http.Common.{
  ℕ, suc, ◌+◌, ◌≡◌, ◌≢◌, refl, sym, ap, ◌∙◌, arith, Bool, true, false, ◌&&◌, Bool-cases, inl, inr,
  List, [], ◌∷◌, Option, none, some, Option-cases, length, get_elem?, bytes_eq, Dict, dict_get,
}
use tornado_http.Hpack.Encoder.{if_index, find_pair, find_pair_index, find_key, find_key_index}
use tornado_http.Hpack.Format.{Entry}
use tornado_http.Hpack.Table.{Bytes, Pair, DynamicTable, static, pair_eq}

pub bytes_eq→eq : (xs ys : Bytes) → bytes_eq xs ys ≡ true → xs ≡ ys
unfolding bytes_eq
bytes_eq→eq [] [] h = refl
bytes_eq→eq [] (y ∷ ys) h = cc
bytes_eq→eq (x ∷ xs) [] h = cc
bytes_eq→eq (x ∷ xs) (y ∷ ys) h = ground (arith, bytes_eq→eq xs ys)

pub bytes_eq_refl : (xs : Bytes) → bytes_eq xs xs ≡ true
unfolding bytes_eq
bytes_eq_refl [] = refl
bytes_eq_refl (x ∷ xs) = ground (arith, bytes_eq_refl xs)

pair_eq→eq : (p q : Pair) → pair_eq p q ≡ true → p ≡ q
unfolding pair_eq
pair_eq→eq (k, none) (k', none) h = ap (λ n. (n, none)) (bytes_eq→eq k k' h)
pair_eq→eq (k, none) (k', some v) h = cc
pair_eq→eq (k, some v) (k', none) h = cc
pair_eq→eq (k, some v) (k', some v') h = ground (arith, bytes_eq→eq k k', bytes_eq→eq v v')

-- Every entry of a dictionary of names stands for a line of that name; so for pairs.
name_at : Bytes → Option (Option Pair) → Bool
name_at k none = false
name_at k (some none) = false
name_at k (some (some p)) = bytes_eq k p.0

pair_at : Pair → Option (Option Pair) → Bool
pair_at q none = false
pair_at q (some none) = false
pair_at q (some (some p)) = pair_eq q p

module _ {K : Type 0} (at : K → Option (Option Pair) → Bool) (table : List (Option Pair)) where
  dict_fits : Dict K ℕ → Bool
  dict_fits [] = true
  dict_fits ((k, i) ∷ d) = at k (get_elem? table i) && dict_fits d

  module _ (beq : K → K → Bool) (beq→eq : (j k : K) → beq j k ≡ true → j ≡ k) where
    dict_get_fits :
        (k : K) (i : ℕ) (d : Dict K ℕ)
        → dict_fits d ≡ true
        → dict_get beq k d ≡ some i
        → at k (get_elem? table i) ≡ true
    unfolding dict_fits dict_get
    dict_get_fits k i [] h e = cc
    dict_get_fits k i ((j, n) ∷ d) h e = ground (arith, beq→eq k j, dict_get_fits k i d)

static_keys_fit : dict_fits name_at static.table static.keys ≡ true
unfolding dict_fits name_at static
static_keys_fit = refl

static_pairs_fit : dict_fits pair_at static.table static.pairs ≡ true
unfolding dict_fits pair_at static
static_pairs_fit = refl

name_at→line :
    (k : Bytes) (o : Option (Option Pair))
    → name_at k o ≡ true
    → (p : Pair) × (o ≡ some (some p)) × (p.0 ≡ k)
unfolding name_at
name_at→line k none h = cc
name_at→line k (some none) h = cc
name_at→line k (some (some p)) h = (p, refl, sym (bytes_eq→eq k p.0 h))

pair_at→line : (q : Pair) (o : Option (Option Pair)) → pair_at q o ≡ true → o ≡ some (some q)
unfolding pair_at
pair_at→line q none h = cc
pair_at→line q (some none) h = cc
pair_at→line q (some (some p)) h = ap (λ r. some (some r)) (sym (pair_eq→eq q p h))

static_key-line :
    (k : Bytes) (i : ℕ)
    → dict_get bytes_eq k static.keys ≡ some i
    → (p : Pair) × (get_elem? static.table i ≡ some (some p)) × (p.0 ≡ k)
static_key-line k i e =
    name_at→line k (get_elem? static.table i)
      (dict_get_fits name_at static.table bytes_eq bytes_eq→eq k i static.keys static_keys_fit e)

static_pair-line :
    (q : Pair) (i : ℕ)
    → dict_get pair_eq q static.pairs ≡ some i
    → get_elem? static.table i ≡ some (some q)
static_pair-line q i e =
    pair_at→line q (get_elem? static.table i)
      (dict_get_fits pair_at static.table pair_eq pair_eq→eq q i static.pairs static_pairs_fit e)

pub if_index-eq_some : (o : Option ℕ) {i : ℕ} → if_index o ≡ some i → (o ≡ some i) × (i ≢ 0)
if_index-eq_some none h = cc
if_index-eq_some (some n) h = ground arith

find_key-none : (key : Bytes) (i : ℕ) (es : List (Bytes × Bytes)) → find_key key i es ≡ none
unfolding find_key
find_key-none key i [] = refl
find_key-none key i (e ∷ es) = find_key-none key (i + 1) es

-- Where `find_key_index` answers with an index, a pair with that name stands there for every state of
-- the dynamic table: it is a line of the static table.
pub find_key_index-Entry :
    (k : Bytes) (t : DynamicTable) (i : ℕ)
    → find_key_index k t ≡ some i
    → (p : Pair) × ((u : DynamicTable) → Entry u i p) × (p.0 ≡ k)
unfolding find_key_index
find_key_index-Entry k t i h = elim (Option-cases (if_index (dict_get bytes_eq k static.keys))) [
  | inl e ↦ absurd (ground (arith, find_key-none k 0 t.entries))
  | inr (n, e) ↦
      let got : dict_get bytes_eq k static.keys ≡ some i =
        (if_index-eq_some (dict_get bytes_eq k static.keys) e).0 ∙ ground arith in
      let (p, at, same) = static_key-line k i got in (p, λ u. Entry.in_static i at, same)
]

find_pair-entry :
    (k v : Bytes) (i n : ℕ) (es : List (Bytes × Bytes))
    → find_pair (k, v) i es ≡ some n
    → (j : ℕ) × (n ≡ i + j + length static.table) × (get_elem? es j ≡ some (k, v))
unfolding find_pair
find_pair-entry k v i n [] h = cc
find_pair-entry k v i n ((k', v') ∷ es) h = elim (Bool-cases (bytes_eq k k' && bytes_eq v v')) [
  | inl e ↦ (0, ground arith, ground (arith, bytes_eq→eq k k', bytes_eq→eq v v'))
  | inr e ↦
      let (j, place, at) = find_pair-entry k v (i + 1) n es (ground arith) in
      (suc j, omega (arith, place), at)
]

-- Where `find_pair_index` answers with an index, the pair stands at that index of the address space of
-- the static and the dynamic table.
pub find_pair_index-Entry :
    (k v : Bytes) (t : DynamicTable) (i : ℕ)
    → find_pair_index (k, v) t ≡ some i
    → Entry t i (k, some v)
unfolding find_pair_index
find_pair_index-Entry k v t i h =
    elim (Option-cases (if_index (dict_get pair_eq (k, some v) static.pairs))) [
      | inl e ↦
          let (j, place, at) = find_pair-entry k v 0 i t.entries (ground arith) in
          Entry.in_dynamic i j k v (omega (arith, place)) at
      | inr (n, e) ↦
          let got : dict_get pair_eq (k, some v) static.pairs ≡ some i =
            (if_index-eq_some (dict_get pair_eq (k, some v) static.pairs) e).0 ∙ ground arith in
          Entry.in_static i (static_pair-line (k, some v) i got)
    ]
