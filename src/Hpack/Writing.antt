-- ===== src/Hpack/Writing.antt =====
-- hpack.py: what the encoder writes is in the format (strings without Huffman coding).
use tornado_http.Common.{
  ℕ, zero, suc, ◌+◌, ◌-◌, ◌*◌, ◌^◌, ◌<◌, ◌≡◌, ◌⊎◌, refl, ap, ◌∙◌, arith, false, inl, inr, [], ◌∷◌,
  ◌++◌, append_assoc, none, some, Option-cases, length, ge→ltb,
}
use native.Mathlib.Nat.{pow-suc}
use tornado_http.Common.Bits.{bit_or-disjoint, pow_pos, zero-bit_or}
use tornado_http.Constants.{HeaderIndexMode}
use tornado_http.Encoding
use tornado_http.Encoding.{BitEncoder, write_bit, write_bits, write_hpack_int}
use tornado_http.Encoding.IntFormat.{or_last-append, write_hpack_int-HpackInt}
use tornado_http.Errors.{Result, ok}
use tornado_http.Hpack.Encoder.{
  if_index, find_key_index, find_pair_index, write_string, write_name_value, write_header,
}
use tornado_http.Hpack.Eviction.{IsSized, sized, newest, add_to_dynamic_table-newest}
use tornado_http.Hpack.Format.{StringBytes, NameBytes, Field}
use tornado_http.Hpack.Lookup.{if_index-eq_some, find_key_index-Entry, find_pair_index-Entry}
use tornado_http.Hpack.Table.{Bytes, DynamicTable}

-- An encoder on a byte boundary, and one with `k` bits of value `h` in its last byte.
abbrev pub aligned : Bytes → BitEncoder
aligned out = record { out = out; bit_offset = 8 }

abbrev pub writing : Bytes → ℕ → ℕ → BitEncoder
writing front h k = record { out = front ++ (h * 2 ^ (8 - k) ∷ []); bit_offset = k }

write_bit_first : (b : ℕ) (front : Bytes) → write_bit b (aligned front) ≡ writing front b 1
unfolding write_bit
write_bit_first b front = rw (or_last-append (b * 2 ^ 7) 0 front, zero-bit_or (b * 2 ^ 7))

bit_below : (b p : ℕ) → b < 2 → 0 < p → b * p < p * 2
bit_below zero p lt pos = omega arith
bit_below (suc zero) p lt pos = omega arith
bit_below (suc (suc b)) p lt pos = absurd (omega arith)

write_bit_next :
    (b h k : ℕ) (front : Bytes)
    → b < 2
    → k < 8
    → write_bit b (writing front h k) ≡ writing front (h * 2 + b) (k + 1)
unfolding write_bit
write_bit_next b h k front lt k8 =
    let step : 8 - k ≡ suc (7 - k) = omega arith in
    let left : 8 - (k + 1) ≡ 7 - k = omega arith in
    let double : 2 ^ (8 - k) ≡ 2 ^ (7 - k) * 2 = rw step (pow-suc 2 (7 - k)) in
    let small : b * 2 ^ (7 - k) < 2 ^ (8 - k) =
      rw double (bit_below b (2 ^ (7 - k)) lt (pow_pos (7 - k))) in
    let joined : h * 2 ^ (8 - k) + b * 2 ^ (7 - k) ≡ (h * 2 + b) * 2 ^ (7 - k) =
      rw double (omega arith) in
    rw (ge→ltb 7 k (omega arith)) (
      rw (or_last-append (b * 2 ^ (7 - k)) (h * 2 ^ (8 - k)) front)
        (rw (bit_or-disjoint (8 - k) h (b * 2 ^ (7 - k)) small) (rw (joined, left))))

-- The bits before a literal that is added to the table, and before one that is not.
write_bits_incremental :
    (front : Bytes) → write_bits (0 ∷ 1 ∷ []) (aligned front) ≡ writing front 1 2
unfolding write_bits
write_bits_incremental front =
    ap (write_bit 1) (write_bit_first 0 front)
    ∙ write_bit_next 1 0 1 front (omega arith) (omega arith)

write_bits_literal :
    (b : ℕ) (front : Bytes)
    → b < 2
    → write_bits (0 ∷ 0 ∷ 0 ∷ b ∷ []) (aligned front) ≡ writing front b 4
unfolding write_bits
write_bits_literal b front lt =
    ap (λ e. write_bit b (write_bit 0 (write_bit 0 e))) (write_bit_first 0 front)
    ∙ ap (λ e. write_bit b (write_bit 0 e)) (write_bit_next 0 0 1 front (omega arith) (omega arith))
    ∙ ap (write_bit b) (write_bit_next 0 0 2 front (omega arith) (omega arith))
    ∙ write_bit_next b 0 3 front lt (omega arith)
    ∙ ap (λ n. writing front n 4) (omega arith)

write_string-StringBytes :
    (s front : Bytes)
    → (bs : Bytes) × (write_string false s (aligned front) ≡ ok (aligned (front ++ bs)))
      × StringBytes s bs
unfolding write_string Encoding.write_string
write_string-StringBytes s front =
    let (bs, e, n) = write_hpack_int-HpackInt 1 0 (length s) front (omega arith) in
    (
      bs ++ s,
      rw (write_bit_first 0 front) (rw e (rw (append_assoc front bs s))),
      StringBytes.plain n,
    )

write_name_value-NameBytes :
    (k v : Bytes) (t : DynamicTable) (q h : ℕ) (front : Bytes)
    → q < 8
    → (bs cs : Bytes) × (write_name_value false k v t (writing front h q)
        ≡ ok (aligned (front ++ (bs ++ cs))))
      × ((u : DynamicTable) → NameBytes u q h k bs)
      × StringBytes v cs
unfolding write_name_value
write_name_value-NameBytes k v t q h front lt =
    elim (Option-cases (if_index (find_key_index k t))) [
      | inl e ↦
          let (bs, eb, n) = write_hpack_int-HpackInt q h 0 front lt in
          let (cs, ec, s) = write_string-StringBytes k (front ++ bs) in
          let (ds, ed, v') = write_string-StringBytes v (front ++ bs ++ cs) in
          (
            bs ++ cs,
            ds,
            rw e (
                rw eb (
                  rw ec (
                    rw ed (
                      ap (λ o. ok (aligned o))
                        (ap (λ f. f ++ ds) (append_assoc front bs cs)
                          ∙ append_assoc front (bs ++ cs) ds))))),
            (λ u. NameBytes.written n s),
            v',
          )
      | inr (i, e) ↦
          let (got, ne) = if_index-eq_some (find_key_index k t) e in
          let (p, at, same) = find_key_index-Entry k t i got in
          let (bs, eb, n) = write_hpack_int-HpackInt q h i front lt in
          let (ds, ed, v') = write_string-StringBytes v (front ++ bs) in
          (
            bs,
            ds,
            rw e (rw eb (rw ed (rw (append_assoc front bs ds)))),
            (λ u. NameBytes.by_index i p ne (at u) same n),
            v',
          )
    ]

-- What the encoder writes for a header, and the table that it keeps. `sent_as` is the mode that the
-- header is read back with: a pair that is in a table is sent by its index, whatever its mode.
pub record Written (k v front : Bytes) (mode : HeaderIndexMode) (t : DynamicTable) : Type 0 where
  pub bytes : Bytes
  pub sent_as : HeaderIndexMode
  pub after : DynamicTable
  pub written :
      write_header false k v mode (aligned front) t ≡ (after, ok (aligned (front ++ bytes)))
  pub in_format : Field t ((k, some v), sent_as) bytes after
  pub mode_kept : (sent_as ≡ mode) ⊎ (sent_as ≡ HeaderIndexMode.index)
  pub is_sized : IsSized after

module _ (k v front : Bytes) (t : DynamicTable) (sz : IsSized t)
    (missing : if_index (find_pair_index (k, v) t) ≡ none) where
  write_literal : (mode : HeaderIndexMode) → Written k v front mode t
  write_literal HeaderIndexMode.index =
      let u : DynamicTable = sized t.limit (newest t.limit ((k, v) ∷ t.entries)) in
      let added = add_to_dynamic_table-newest (k, v) t sz in
      let (bs, cs, e, n, s) = write_name_value-NameBytes k v u 2 1 front (omega arith) in
      record {
        bytes = bs ++ cs;
        sent_as = HeaderIndexMode.index;
        after = u;
        written =
            unfold write_header in
            rw (missing, write_header)
              (rw
                (
                  write_bits_incremental front,
                  ap (λ (p : DynamicTable × Result (Unit {0})). p.1) added,
                  ap (λ (p : DynamicTable × Result (Unit {0})). p.0) added,
                )
                (rw e));
        in_format = Field.incremental k v (n t) s;
        mode_kept = inl refl;
        is_sized = refl;
      }
  write_literal HeaderIndexMode.never_index =
      let (bs, cs, e, n, s) = write_name_value-NameBytes k v t 4 1 front (omega arith) in
      record {
        bytes = bs ++ cs;
        sent_as = HeaderIndexMode.never_index;
        after = t;
        written =
            unfold write_header in
            rw (missing, write_header) (rw (write_bits_literal 1 front (omega arith)) (rw e));
        in_format = Field.never k v (n t) s;
        mode_kept = inl refl;
        is_sized = sz;
      }
  write_literal HeaderIndexMode.no_index =
      let (bs, cs, e, n, s) = write_name_value-NameBytes k v t 4 0 front (omega arith) in
      record {
        bytes = bs ++ cs;
        sent_as = HeaderIndexMode.no_index;
        after = t;
        written =
            unfold write_header in
            rw (missing, write_header) (rw (write_bits_literal 0 front (omega arith)) (rw e));
        in_format = Field.without k v (n t) s;
        mode_kept = inl refl;
        is_sized = sz;
      }

pub write_header-Field :
    (k v front : Bytes) (mode : HeaderIndexMode) (t : DynamicTable)
    → IsSized t
    → Written k v front mode t
write_header-Field k v front mode t sz = elim (Option-cases (if_index (find_pair_index (k, v) t))) [
  | inl e ↦ write_literal k v front t sz e mode
  | inr (i, e) ↦
      let (got, ne) = if_index-eq_some (find_pair_index (k, v) t) e in
      let (bs, eb, n) = write_hpack_int-HpackInt 1 1 i front (omega arith) in
      record {
        bytes = bs;
        sent_as = HeaderIndexMode.index;
        after = t;
        written =
            unfold write_header in rw (e, write_header) (rw (write_bit_first 1 front) (rw eb));
        in_format = Field.indexed i (find_pair_index-Entry k v t i got) n;
        mode_kept = inr refl;
        is_sized = sz;
      }
]
