-- ===== src/Hpack/RoundsEnd.antt =====
-- hpack.py: `HpackDecoder.decode` ends within the rounds that the model gives its loops.
use tornado_http.Common.{
  ℕ, zero, suc, ◌+◌, ◌-◌, ◌*◌, ◌≤◌, ◌<◌, ◌≡◌, ◌≢◌, subst, refl, sym, ap, ◌∙◌, arith, Bool, true,
  false, inl, inr, Bool-cases, Option, none, some, List, [], ◌∷◌, length, get_elem?, ltb, ◌==◌,
  if◌then◌else◌,
}
use tornado_http.Encoding.{BitDecoder, new_decoder, eod, read_bit, read_hpack_int}
use tornado_http.Errors.{Exn, Result, ok, err, ◌>>=◌, or_raise, Result-cases}
use tornado_http.Hpack.Decoder.{
  Header, Round, read_string, read_from_index, read_name_value_pair, on_bit, decode_indexed,
  decode_incremental, decode_limit_update, decode_literal, decode_unadded, decode_unindexed,
  decode_round, decode_loop, as_hpack_error, decode,
}
use tornado_http.Hpack.Ends.{
  bytes_left, Further, Reads, Further-refl, Reads-after, Reads-bind, Reads-pure, Reads-weaken,
  read_bit-Reads, read_hpack_int-Reads, read_huffman_loop-Reads, read_chars-Reads,
}
use tornado_http.Hpack.Table.{
  Bytes, DynamicTable, static, Step, entry_size, pop, gc_loop, gc_dynamic_table,
  add_to_dynamic_table,
}

or_raise-ne :
    {A : Type 0} (e : Exn) (o : Option A) → e ≢ Exn.out_of_fuel → or_raise e o ≢ err Exn.out_of_fuel
or_raise-ne e none h same = h (cc same)
or_raise-ne e (some a) h same = cc same

if-ne :
    {A : Type 0} (c : Bool) (p q : Result A)
    → p ≢ err Exn.out_of_fuel
    → q ≢ err Exn.out_of_fuel
    → (if c then p else q) ≢ err Exn.out_of_fuel
if-ne true p q h h' = h
if-ne false p q h h' = h'

>>=-ne :
    {A B : Type 0} (m : Result A) (next : A → Result B)
    → m ≢ err Exn.out_of_fuel
    → ((a : A) → next a ≢ err Exn.out_of_fuel)
    → (m >>= next) ≢ err Exn.out_of_fuel
>>=-ne (ok a) next h h' = h' a
>>=-ne (err e) next h h' = λ same. h (ap err (cc same))

pop-ne : {A : Type 0} (xs : List A) → pop xs ≢ err Exn.out_of_fuel
unfolding pop
pop-ne [] e = cc
pop-ne (x ∷ []) e = cc
pop-ne (x ∷ y ∷ ys) e =
    >>=-ne (pop (y ∷ ys)) (λ (rest, z). ok (x ∷ rest, z)) (pop-ne (y ∷ ys)) (λ p e'. cc) e

gc_loop-ne : (rounds : ℕ) (t : DynamicTable) → (gc_loop rounds t).1 ≢ err Exn.out_of_fuel
unfolding gc_loop
gc_loop-ne zero t h = ground arith
gc_loop-ne (suc rounds) t h = elim (Bool-cases (ltb t.limit t.size)) [
  | inr small ↦
      let done : (gc_loop (suc rounds) t).1 ≡ ok tt = rw (small, gc_loop) refl in cc (sym done ∙ h)
  | inl large ↦ elim (Result-cases (pop t.entries)) [
    | inr (raised, e) ↦
        let done : (gc_loop (suc rounds) t).1 ≡ err raised = rw (large, e, gc_loop) refl in
        let same : raised ≡ Exn.out_of_fuel = cc (sym done ∙ h) in
        pop-ne t.entries (e ∙ ap err same)
    | inl ((rest, last), e) ↦
        let t' : DynamicTable = record t { entries = rest; size = t.size - entry_size last } in
        let again : (gc_loop (suc rounds) t).1 ≡ (gc_loop rounds t').1 =
          rw (large, e, gc_loop) refl in
        gc_loop-ne rounds t' (sym again ∙ h)
  ]
]

gc_dynamic_table-ne : (t : DynamicTable) → (gc_dynamic_table t).1 ≢ err Exn.out_of_fuel
unfolding gc_dynamic_table
gc_dynamic_table-ne t = gc_loop-ne (length t.entries) t

add_to_dynamic_table-ne :
    (e : Bytes × Bytes) (t : DynamicTable) → (add_to_dynamic_table e t).1 ≢ err Exn.out_of_fuel
unfolding add_to_dynamic_table
add_to_dynamic_table-ne e t =
    gc_dynamic_table-ne (record t { entries = e ∷ t.entries; size = t.size + entry_size e })

-- What is read is what counts, and not how far.
Reads-less :
    {C : Type 0} (dec : C → BitDecoder) (k b : ℕ) (d : BitDecoder) (r : Result C)
    → 1 ≤ b
    → Reads dec k b d r
    → Reads dec 0 1 d r
Reads-less dec k b d (ok c) le h = record {
  in_byte = h.in_byte;
  same = h.same;
  bits = omega (arith, h.bits);
  bytes = omega (arith, h.bytes);
}
Reads-less dec k b d (err e) le h = h

read_string-Reads : (d : BitDecoder) → d.bit_offset ≤ 7 → Reads (λ p. p.1) 0 0 d (read_string d)
unfolding read_string
read_string-Reads d h =
    Reads-weaken (λ p. p.1) 2 1 d _
      (Reads-bind (λ p. p.1) (λ p. p.1) 1 0 1 1 d (read_bit d) _ (read_bit-Reads d h)
        (λ (is_huffman, d1) on1.
          Reads-bind (λ p. p.1) (λ p. p.1) 1 1 0 0 d1 (read_hpack_int d1) _
            (read_hpack_int-Reads d1 on1.in_byte)
            (λ (n, d2) on2. elim (Bool-cases (is_huffman == 0)) [
              | inl plain ↦ rw (plain) (read_chars-Reads n d2 on2.in_byte)
              | inr huffman ↦ rw (huffman) (
                  read_huffman_loop-Reads (8 * length d2.src + 1) (d2.byte_offset + n) d2
                    on2.in_byte (omega arith))
            ])))

read_from_index-ne : (idx : ℕ) (t : DynamicTable) → read_from_index idx t ≢ err Exn.out_of_fuel
unfolding read_from_index
read_from_index-ne idx t =
    if-ne (ltb idx (length static.table)) _ _
      (or_raise-ne Exn.index_error (get_elem? static.table idx) (λ e. cc))
      (>>=-ne (or_raise Exn.index_error (get_elem? t.entries (idx - length static.table))) _
        (or_raise-ne Exn.index_error (get_elem? t.entries (idx - length static.table)) (λ e. cc))
        (λ p e. cc))

abbrev behind_pair : Bytes × Bytes × BitDecoder → BitDecoder
behind_pair p = p.2

read_name_value_pair-Reads :
    (t : DynamicTable) (d : BitDecoder)
    → d.bit_offset ≤ 7
    → Reads behind_pair 0 1 d (read_name_value_pair t d)
unfolding read_name_value_pair
read_name_value_pair-Reads t d h = Reads-less behind_pair 1 1 d _ (omega arith) (
    Reads-bind (λ (p : ℕ × BitDecoder). p.1) behind_pair 1 1 0 0 d (read_hpack_int d) _
      (read_hpack_int-Reads d h)
      (λ (name_index, d1) on1.
        Reads-bind (λ (p : Bytes × BitDecoder). p.1) behind_pair 0 0 0 0 d1
          (if name_index == 0 then read_string d1 else (do
            pair ← read_from_index name_index t
            (name, _) ← or_raise Exn.type_error pair
            ok (name, d1)))
          _
          (elim (Bool-cases (name_index == 0)) [
            | inl new ↦ rw (new) (read_string-Reads d1 on1.in_byte)
            | inr known ↦ rw (known) (
                Reads-pure (λ p. p.1) 0 0 d1 (read_from_index name_index t) _
                  (read_from_index-ne name_index t)
                  (λ pair _.
                    Reads-pure (λ p. p.1) 0 0 d1 (or_raise Exn.type_error pair) _
                      (or_raise-ne Exn.type_error pair (λ e. cc))
                      (λ p _. Further-refl d1 on1.in_byte)))
          ])
          (λ (name, d2) on2.
            Reads-bind (λ (p : Bytes × BitDecoder). p.1) behind_pair 0 0 0 0 d2 (read_string d2) _
              (read_string-Reads d2 on2.in_byte) (λ (value, d3) on3. Further-refl d3 on3.in_byte))))

-- The decoder of a round.
abbrev of_round : Round → BitDecoder
of_round r = r.1

decode_indexed-Reads :
    (out : List Header) (d : BitDecoder) (t : DynamicTable)
    → d.bit_offset ≤ 7
    → Reads of_round 0 1 d (decode_indexed out d t).1
unfolding decode_indexed
decode_indexed-Reads out d t h = Reads-less of_round 1 1 d _ (omega arith) (
    Reads-bind (λ (p : ℕ × BitDecoder). p.1) of_round 1 1 0 0 d (read_hpack_int d) _
      (read_hpack_int-Reads d h)
      (λ (idx, d') on.
        Reads-pure of_round 0 0 d' (read_from_index idx t) _ (read_from_index-ne idx t) (λ pair _.
          Reads-pure of_round 0 0 d' (or_raise Exn.type_error pair) _
            (or_raise-ne Exn.type_error pair (λ e. cc)) (λ entry _. Further-refl d' on.in_byte))))

decode_literal-Reads :
    (out : List Header) (d : BitDecoder) (t : DynamicTable)
    → d.bit_offset ≤ 7
    → Reads of_round 0 1 d (decode_literal out d t).1
unfolding decode_literal
decode_literal-Reads out d t h = Reads-less of_round 1 1 d _ (omega arith) (
    Reads-bind (λ (p : ℕ × BitDecoder). p.1) of_round 1 0 0 1 d (read_bit d) _ (read_bit-Reads d h)
      (λ (never, d1) on1.
        Reads-bind behind_pair of_round 0 1 0 0 d1 (read_name_value_pair t d1) _
          (read_name_value_pair-Reads t d1 on1.in_byte)
          (λ (name, value, d2) on2. Further-refl d2 on2.in_byte)))

decode_incremental-Reads :
    (out : List Header) (d : BitDecoder) (t : DynamicTable)
    → d.bit_offset ≤ 7
    → Reads of_round 0 1 d (decode_incremental out d t).1
unfolding decode_incremental
decode_incremental-Reads out d t h = elim (Result-cases (read_name_value_pair t d)) [
  | inr (raised, e) ↦
      rw (e, decode_incremental)
        (subst (Reads behind_pair 0 1 d) e (read_name_value_pair-Reads t d h))
  | inl ((name, value, d'), e) ↦
      rw (e, decode_incremental)
        (Reads-pure of_round 0 1 d (add_to_dynamic_table (name, value) t).1 _
          (add_to_dynamic_table-ne (name, value) t)
          (λ _ _. subst (Reads behind_pair 0 1 d) e (read_name_value_pair-Reads t d h)))
]

decode_limit_update-Reads :
    (out : List Header) (allowed : Bool) (d : BitDecoder) (t : DynamicTable)
    → d.bit_offset ≤ 7
    → Reads of_round 0 1 d (decode_limit_update out allowed d t).1
unfolding decode_limit_update
decode_limit_update-Reads out false d t h = λ e. cc
decode_limit_update-Reads out true d t h = elim (Result-cases (read_hpack_int d)) [
  | inr (raised, e) ↦
      rw (e, decode_limit_update)
        (subst (Reads (λ (p : ℕ × BitDecoder). p.1) 1 1 d) e (read_hpack_int-Reads d h))
  | inl ((new_limit, d'), e) ↦
      rw (e, decode_limit_update)
        (Reads-pure of_round 0 1 d (gc_dynamic_table (record t { limit = new_limit })).1 _
          (gc_dynamic_table-ne (record t { limit = new_limit }))
          (λ _ _.
            Reads-less of_round 1 1 d (ok (out, d', true)) (omega arith)
              (subst (Reads (λ (p : ℕ × BitDecoder). p.1) 1 1 d) e (read_hpack_int-Reads d h))))
]

-- A bit that chooses a branch, of a read that has been made.
branch-Reads :
    (d : BitDecoder) (off on : BitDecoder → Step Round) (t : DynamicTable)
    (r : Result (ℕ × BitDecoder))
    → Reads (λ (p : ℕ × BitDecoder). p.1) 1 0 d r
    → ((d' : BitDecoder) → d'.bit_offset ≤ 7 → Reads of_round 0 1 d' (off d' t).1)
    → ((d' : BitDecoder) → d'.bit_offset ≤ 7 → Reads of_round 0 1 d' (on d' t).1)
    → Reads of_round 0 1 d
        (elim r as (λ _. DynamicTable × Result Round) [
          | err e ↦ (t, err e)
          | ok (b, d') ↦ if b == 0 then off d' t else on d' t
        ]).1
branch-Reads d off on t (err e) h h0 h1 = h
branch-Reads d off on t (ok (b, d')) h h0 h1 = elim (Bool-cases (b == 0)) [
  | inl zero_bit ↦ rw (zero_bit) (
      Reads-less of_round 1 1 d _ (omega arith)
        (Reads-after of_round 1 0 0 1 d d' (off d' t).1 h (h0 d' h.in_byte)))
  | inr one_bit ↦ rw (one_bit) (
      Reads-less of_round 1 1 d _ (omega arith)
        (Reads-after of_round 1 0 0 1 d d' (on d' t).1 h (h1 d' h.in_byte)))
]

on_bit-Reads :
    (d : BitDecoder) (on off : BitDecoder → Step Round) (t : DynamicTable)
    → d.bit_offset ≤ 7
    → ((d' : BitDecoder) → d'.bit_offset ≤ 7 → Reads of_round 0 1 d' (on d' t).1)
    → ((d' : BitDecoder) → d'.bit_offset ≤ 7 → Reads of_round 0 1 d' (off d' t).1)
    → Reads of_round 0 1 d (on_bit d on off t).1
on_bit-Reads d on off t h h1 h0 = branch-Reads d off on t (read_bit d) (read_bit-Reads d h) h0 h1

decode_round-Reads :
    (r : Round) (t : DynamicTable)
    → r.1.bit_offset ≤ 7
    → Reads of_round 0 1 r.1 (decode_round r t).1
unfolding decode_round
decode_round-Reads (out, d, allowed) t h =
    on_bit-Reads d (decode_indexed out) (decode_unindexed out allowed) t h
      (λ d1. decode_indexed-Reads out d1 t)
      (λ d1 h1.
        on_bit-Reads d1 (decode_incremental out) (decode_unadded out allowed) t h1
          (λ d2. decode_incremental-Reads out d2 t)
          (λ d2 h2.
            on_bit-Reads d2 (decode_limit_update out allowed) (decode_literal out) t h2
              (λ d3. decode_limit_update-Reads out allowed d3 t)
              (λ d3. decode_literal-Reads out d3 t)))

decode_loop-ne :
    (fuel : ℕ) (r : Round) (t : DynamicTable)
    → r.1.bit_offset ≤ 7
    → bytes_left r.1 < fuel
    → (decode_loop fuel r t).1 ≢ err Exn.out_of_fuel
unfolding decode_loop
decode_loop-ne zero r t h enough = absurd (omega arith)
decode_loop-ne (suc fuel) r t h enough = elim (Bool-cases (eod r.1)) [
  | inl over ↦ λ same.
      let done : (decode_loop (suc fuel) r t).1 ≡ ok r.0 = rw (over, decode_loop) refl in
      cc (sym done ∙ same)
  | inr more ↦ elim (Result-cases (decode_round r t).1) [
    | inr (raised, e) ↦ λ same.
        let done : (decode_loop (suc fuel) r t).1 ≡ err raised = rw (more, e, decode_loop) refl in
        subst (Reads of_round 0 1 r.1) e (decode_round-Reads r t h) (cc (sym done ∙ same))
    | inl (r', e) ↦ λ same.
        let again : (decode_loop (suc fuel) r t).1 ≡ (decode_loop fuel r' (decode_round r t).0).1 =
          rw (more, e, decode_loop) refl in
        let on : Further 0 1 r.1 r'.1 =
          subst (Reads of_round 0 1 r.1) e (decode_round-Reads r t h) in
        decode_loop-ne fuel r' (decode_round r t).0 on.in_byte (omega (arith, on.bytes))
          (sym again ∙ same)
  ]
]

as_hpack_error-fuel :
    {A : Type 0} (r : Result A) → as_hpack_error r ≡ err Exn.out_of_fuel → r ≡ err Exn.out_of_fuel
as_hpack_error-fuel (ok a) h = absurd (cc h)
as_hpack_error-fuel (err Exn.out_of_fuel) h = refl
as_hpack_error-fuel (err e) h = absurd (cc h)

-- `decode` ends on any bytes and with any table, in the rounds that the model gives its loops: it returns
-- headers or raises what the code raises.
pub decode-ne-out_of_fuel :
    (src : Bytes) (t : DynamicTable) → (decode src t).1 ≢ err Exn.out_of_fuel
unfolding decode
decode-ne-out_of_fuel src t same =
    decode_loop-ne (length src + 1) ([], new_decoder src, true) t (omega arith) (omega arith)
      (as_hpack_error-fuel (decode_loop (length src + 1) ([], new_decoder src, true) t).1 same)
