-- ===== src/Encoding/IntFormat.antt =====
-- encoding.py: the integers of HPACK as a format (RFC 7541, section 5.1), and the writer against it.
use mathlib.Core.WellFounded.{Acc}
use tornado_http.Common.{
  ℕ, ◌+◌, ◌-◌, ◌*◌, ◌/◌, ◌%◌, ◌^◌, ◌≤◌, ◌<◌, ◌≡◌, refl, ap, ◌∙◌, sym, subst, bit_and, bit_or,
  Bool-cases, inl, inr, dec_lt, lt_wf, arith, List, [], ◌∷◌, ◌++◌, append_assoc, dif_pos, dif_neg,
  ltb, ◌==◌, false, tests,
}
use native.Mathlib.Bridge.{le_prop}
use tornado_http.Common.Bits.{bit_and-mask, bit_or-disjoint, pow_pos}
use tornado_http.Encoding.{or_last, shift_falls, write_groups, write_prefixed, write_hpack_int}

-- The groups of seven bits of a number, lowest first; all but the last have the top bit set.
pub data Groups : ℕ → List ℕ → Type 0 where
  last : (i : ℕ) → i < 128 → Groups i (i ∷ [])
  more : (i : ℕ) {bs : List ℕ} → 127 < i → Groups (i / 128) bs → Groups i ((i % 128 + 128) ∷ bs)

-- A number over the `n` low bits of a byte whose high bits are `h`.
pub data HpackInt (n h : ℕ) : ℕ → List ℕ → Type 0 where
  small : (i : ℕ) → i < 2 ^ n - 1 → HpackInt n h i ((h * 2 ^ n + i) ∷ [])
  large :
      (i : ℕ) {bs : List ℕ}
      → 2 ^ n - 1 ≤ i
      → Groups (i - (2 ^ n - 1)) bs
      → HpackInt n h i ((h * 2 ^ n + (2 ^ n - 1)) ∷ bs)

pub or_last-append :
    (v x : ℕ) (front : List ℕ) → or_last v (front ++ (x ∷ [])) ≡ front ++ (bit_or x v ∷ [])
unfolding or_last
or_last-append v x [] = refl
or_last-append v x (y ∷ []) = refl
or_last-append v x (y ∷ z ∷ front) = ap (◌∷◌ y) (or_last-append v x (z ∷ front))

write_groups-Groups :
    (out : List ℕ) (i : ℕ) (w : Acc ◌<◌ i)
    → (bs : List ℕ) × (write_groups out i w ≡ out ++ bs) × Groups i bs
unfolding write_groups
write_groups-Groups out i (Acc.intro _ smaller) = elim (dec_lt 127 i) [
  | yes h ↦
      let group : ℕ = bit_and i 127 + 128 in
      let (bs, e, g) =
        write_groups-Groups (out ++ (group ∷ [])) (i / 2 ^ 7) (smaller _ (shift_falls i h)) in
      (
        group ∷ bs,
        rw (dif_pos _ le_prop h) (e ∙ append_assoc out (group ∷ []) bs),
        subst (λ t. Groups i ((t + 128) ∷ bs)) (sym (bit_and-mask 7 i)) (more i h g),
      )
  | no h ↦ (i ∷ [], rw (dif_neg _ h), last i (omega arith))
]

write_prefixed-HpackInt :
    (n h i : ℕ) (front : List ℕ)
    → (bs : List ℕ) × (write_prefixed n i (front ++ (h * 2 ^ n ∷ []))
        ≡ record { out = front ++ bs; bit_offset = 8 })
      × HpackInt n h i bs
unfolding write_prefixed
write_prefixed-HpackInt n h i front = elim (Bool-cases (ltb i (2 ^ n - 1))) [
  | inl fits ↦ (
    (h * 2 ^ n + i) ∷ [],
    rw (fits, or_last-append i (h * 2 ^ n) front)
        (rw (bit_or-disjoint n h i (omega (tests, fits)))),
    small i (omega (tests, fits)),
  )
  | inr wide ↦
      let top : ℕ = h * 2 ^ n + (2 ^ n - 1) in
      let (bs, e, g) =
        write_groups-Groups (front ++ (top ∷ [])) (i - (2 ^ n - 1))
          (lt_wf.apply (i - (2 ^ n - 1))) in
      (
        top ∷ bs,
        rw (wide, or_last-append (2 ^ n - 1) (h * 2 ^ n) front)
            (rw (bit_or-disjoint n h (2 ^ n - 1) (omega (arith, pow_pos n)))
              (rw e (rw (append_assoc front (top ∷ []) bs)))),
        large i (omega (tests, wide)) g,
      )
]

-- At bit `k`, below 8, of a last byte whose low `8 - k` bits are 0, `write_hpack_int` writes exactly the
-- integer representation of RFC 7541 (5.1) of its argument, and leaves the encoder at a byte's end.
pub write_hpack_int-HpackInt :
    (k h i : ℕ) (front : List ℕ)
    → k < 8
    → (bs : List ℕ) × (write_hpack_int i
          (record { out = front ++ (h * 2 ^ (8 - k) ∷ []); bit_offset = k })
        ≡ record { out = front ++ bs; bit_offset = 8 })
      × HpackInt (8 - k) h i bs
unfolding write_hpack_int
write_hpack_int-HpackInt k h i front lt =
    let open_byte : ((8 - k) == 0) ≡ false = ground arith in
    rw open_byte (write_prefixed-HpackInt (8 - k) h i front)

-- On a byte boundary it starts a byte of its own.
pub write_hpack_int-HpackInt_aligned :
    (i : ℕ) (front : List ℕ)
    → (bs : List ℕ) × (write_hpack_int i (record { out = front; bit_offset = 8 })
        ≡ record { out = front ++ bs; bit_offset = 8 })
      × HpackInt 8 0 i bs
unfolding write_hpack_int
write_hpack_int-HpackInt_aligned i front = write_prefixed-HpackInt 8 0 i front
