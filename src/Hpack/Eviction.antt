-- ===== src/Hpack/Eviction.antt =====
-- hpack.py: what the two garbage collections and the two insertions leave in a dynamic table.
use tornado_http.Common.{
  ℕ, zero, suc, ◌+◌, ◌-◌, ◌≤◌, ◌<◌, ◌≡◌, ◌⊎◌, refl, ap, ◌∙◌, le_or_lt, inl, inr, List, [], ◌∷◌,
  ◌++◌, length, length-append, leb, lt→ltb, ge→ltb, if◌then◌else◌, arith,
}
use tornado_http.Errors.{ok}
use tornado_http.Hpack.Table.{
  Bytes, DynamicTable, entry_size, pop, gc_loop, gc_dynamic_table, add_to_dynamic_table,
}

-- The sizes of the entries, added up.
abbrev pub total_size : List (Bytes × Bytes) → ℕ
total_size [] = 0
total_size (e ∷ es) = entry_size e + total_size es

-- The longest run of newest entries that fits a budget.
abbrev pub newest : ℕ → List (Bytes × Bytes) → List (Bytes × Bytes)
newest budget [] = []
newest budget (e ∷ es) =
    let rest = newest (budget - entry_size e) es in
    if leb (entry_size e) budget then e ∷ rest else []

-- The size field is the sum of the entries' sizes.
abbrev pub IsSized : DynamicTable → Type 0
IsSized t = t.size ≡ total_size t.entries

pub total_size-append :
    (xs ys : List (Bytes × Bytes)) → total_size (xs ++ ys) ≡ total_size xs + total_size ys
total_size-append [] ys = omega arith
total_size-append (x ∷ xs) ys = omega (arith, total_size-append xs ys)

total_size-newest :
    (budget : ℕ) (es : List (Bytes × Bytes)) → total_size (newest budget es) ≤ budget
total_size-newest budget [] = omega arith
total_size-newest budget (e ∷ es) = ground (arith, total_size-newest (budget - entry_size e) es)

newest_fits :
    (budget : ℕ) (es : List (Bytes × Bytes)) → total_size es ≤ budget → newest budget es ≡ es
newest_fits budget [] h = refl
newest_fits budget (e ∷ es) h = ground (arith, newest_fits (budget - entry_size e) es)

-- An oldest entry that does not fit changes nothing.
newest-drop_last :
    (budget : ℕ) (es : List (Bytes × Bytes)) (x : Bytes × Bytes)
    → budget < total_size (es ++ (x ∷ []))
    → newest budget (es ++ (x ∷ [])) ≡ newest budget es
newest-drop_last budget [] x h = ground arith
newest-drop_last budget (e ∷ es) x h = ground (arith, newest-drop_last (budget - entry_size e) es x)

-- `pop` takes the right end off.
pop-append {ℓ} : {A : Type ℓ} (xs : List A) (z : A) → pop (xs ++ (z ∷ [])) ≡ ok (xs, z)
unfolding pop
pop-append [] z = refl
pop-append (x ∷ []) z = refl
pop-append (x ∷ y ∷ ys) z = rw (pop-append (y ∷ ys) z)

-- A list is empty, or has a right end.
last-cases {ℓ} :
    {A : Type ℓ} (xs : List A) → (xs ≡ []) ⊎ ((ys : List A) × (z : A) × (xs ≡ ys ++ (z ∷ [])))
last-cases [] = inl refl
last-cases (x ∷ xs) = elim (last-cases xs) [
  | inl e ↦ inr ([], x, ap (◌∷◌ x) e)
  | inr (ys, z, e) ↦ inr (x ∷ ys, z, ap (◌∷◌ x) e)
]

-- A table whose size field is right.
abbrev pub sized : ℕ → List (Bytes × Bytes) → DynamicTable
sized limit es = record { entries = es; size = total_size es; limit = limit }

-- One round on a table that is too large: the oldest entry goes.
gc_loop_pop :
    (rounds limit : ℕ) (es : List (Bytes × Bytes)) (x : Bytes × Bytes)
    → limit < total_size (es ++ (x ∷ []))
    → gc_loop (suc rounds) (sized limit (es ++ (x ∷ []))) ≡ gc_loop rounds (sized limit es)
unfolding gc_loop
gc_loop_pop rounds limit es x h =
    let left : total_size (es ++ (x ∷ [])) - entry_size x ≡ total_size es =
      omega (arith, total_size-append es (x ∷ [])) in
    rw (lt→ltb _ _ h, gc_loop) (rw (pop-append es x) (rw left))

gc_loop_done :
    (rounds limit : ℕ) (es : List (Bytes × Bytes))
    → total_size es ≤ limit
    → gc_loop rounds (sized limit es) ≡ (sized limit es, ok tt)
unfolding gc_loop
gc_loop_done zero limit es h = rw (ge→ltb _ _ h, gc_loop)
gc_loop_done (suc rounds) limit es h = rw (ge→ltb _ _ h, gc_loop)

gc_loop-newest :
    (rounds limit : ℕ) (es : List (Bytes × Bytes))
    → length es ≤ rounds
    → gc_loop rounds (sized limit es) ≡ (sized limit (newest limit es), ok tt)
gc_loop-newest zero limit [] h = gc_loop_done 0 limit [] (omega arith)
gc_loop-newest zero limit (e ∷ es) h = absurd (omega arith)
gc_loop-newest (suc rounds) limit es h = elim (le_or_lt (total_size es) limit) [
  | inl fits ↦ rw (newest_fits limit es fits) (gc_loop_done (suc rounds) limit es fits)
  | inr over ↦ elim (last-cases es) [
    | inl empty ↦ absurd (omega (arith, ap total_size empty))
    | inr (ys, x, e) ↦
        let over' : limit < total_size (ys ++ (x ∷ [])) = omega (arith, ap total_size e) in
        rw (e, newest-drop_last limit ys x over')
          (gc_loop_pop rounds limit ys x over'
            ∙ gc_loop-newest rounds limit ys
                (omega (arith, ap length e, length-append ys (x ∷ []))))
  ]
]

-- The garbage collection keeps exactly the newest entries that fit the limit, keeps the size field
-- right, and never raises.
pub gc_dynamic_table-newest :
    (t : DynamicTable)
    → IsSized t
    → gc_dynamic_table t ≡ (sized t.limit (newest t.limit t.entries), ok tt)
unfolding gc_dynamic_table
gc_dynamic_table-newest t h =
    ap (λ n. gc_loop (length t.entries) (record t { size = n })) h
    ∙ gc_loop-newest (length t.entries) t.limit t.entries (omega arith)

-- An insertion into a table whose size field is right never raises, keeps exactly the newest entries
-- that fit the limit, the new one first, and keeps the size field right: an entry larger than the limit
-- empties the table.
pub add_to_dynamic_table-newest :
    (e : Bytes × Bytes) (t : DynamicTable)
    → IsSized t
    → add_to_dynamic_table e t ≡ (sized t.limit (newest t.limit (e ∷ t.entries)), ok tt)
unfolding add_to_dynamic_table
add_to_dynamic_table-newest e t h =
    gc_dynamic_table-newest (record t { entries = e ∷ t.entries; size = t.size + entry_size e })
      (omega (arith, h))
