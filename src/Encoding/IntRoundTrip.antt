-- ===== src/Encoding/IntRoundTrip.antt =====
-- encoding.py: `read_hpack_int` reads the format back, and never runs out of rounds.
use tornado_http.Common.{
  ℕ, zero, suc, ◌+◌, ◌-◌, ◌*◌, ◌/◌, ◌%◌, ◌^◌, ◌≤◌, ◌<◌, ◌≡◌, ◌≢◌, sym, ap, ap₂, ◌∙◌, bit_and, arith,
  List, [], ◌∷◌, ◌++◌, append_assoc, length, length-append, get_elem?, get_elem?-append, inl, inr,
  true, false, ◌==◌, lt→ltb, ge→ltb, some, Option-cases, get_elem?-lt, ==_iff,
}
use native.Mathlib.Nat.{div-add-mod, mul-add-mod_self_right, mod-eq_of_lt}
use native.Mathlib.Numerals.{towards_suc}
use tornado_http.Common.Bits.{bit_and-mask, bit_and-bit, pow_pos}
use tornado_http.Encoding.{BitDecoder, read_groups, read_hpack_int, write_hpack_int}
use tornado_http.Encoding.IntFormat.{Groups, HpackInt, write_hpack_int-HpackInt}
use tornado_http.Errors.{Exn, ok, err, or_raise, ◌>>=◌}

-- A decoder that has read `front` and has `rest` before it, at bit `k` of the next byte.
abbrev pub reading : List ℕ → List ℕ → ℕ → BitDecoder
reading front rest k = record { src = front ++ rest; byte_offset = length front; bit_offset = k }

-- Taking `bs` off the front of the rest.
pub reading-append :
    (front bs rest : List ℕ) (k : ℕ)
    → record { src = front ++ (bs ++ rest); byte_offset = length front + length bs; bit_offset = k }
      ≡ reading (front ++ bs) rest k
reading-append front bs rest k =
    ap₂ (λ s o. record { src = s; byte_offset = o; bit_offset = k })
      (sym (append_assoc front bs rest)) (sym (length-append front bs))

low_group : (b : ℕ) → bit_and b 0x7f ≡ b % 128
low_group b = bit_and-mask 7 b

last_group : (b : ℕ) → b < 128 → (bit_and b 0x80 == 0) ≡ true
last_group b h = (==_iff _ 0).1 (bit_and-bit 7 b ∙ omega arith)

inner_group : (b : ℕ) → b < 128 → (bit_and (b + 128) 0x80 == 0) ≡ false
inner_group b h =
    let e : bit_and (b + 128) 0x80 ≡ 128 = bit_and-bit 7 (b + 128) ∙ omega arith in rw e

shift_seven : (m : ℕ) → 2 ^ (m + 7) ≡ 128 * 2 ^ m
shift_seven m = simp towards_suc (omega arith)

-- The lowest group of `v` and the rest, both shifted by `m`.
split_group : (m v : ℕ) → v % 128 * 2 ^ m + v / 128 * 2 ^ (m + 7) ≡ v * 2 ^ m
split_group m v = omega (
  arith,
  ap (λ (t : ℕ). t * 2 ^ m) (div-add-mod v 128),
  ap (λ (t : ℕ). v / 128 * t) (shift_seven m),
)

-- One round, at a byte with the top bit clear and at one with it set.
module _ (fuel i m b : ℕ) (d : BitDecoder) (at : get_elem? d.src d.byte_offset ≡ some b) where
  abbrev next : BitDecoder
  next = record d { byte_offset = d.byte_offset + 1 }

  read_groups_stop :
      (bit_and b 0x80 == 0) ≡ true
      → read_groups (suc fuel) d i m ≡ ok (i + bit_and b 0x7f * 2 ^ m, next)
  unfolding read_groups
  read_groups_stop h = rw (at, or_raise, ◌>>=◌, h)

  read_groups-next :
      (bit_and b 0x80 == 0) ≡ false
      → read_groups (suc fuel) d i m ≡ read_groups fuel next (i + bit_and b 0x7f * 2 ^ m) (m + 7)
  unfolding read_groups
  read_groups-next h = rw (at, or_raise, ◌>>=◌, h)

read_groups-Groups :
    (fuel i m v : ℕ) (front : List ℕ) {bs : List ℕ} (rest : List ℕ)
    → Groups v bs
    → length bs ≤ fuel
    → read_groups fuel (reading front (bs ++ rest) 0) i m
      ≡ ok (i + v * 2 ^ m, reading (front ++ bs) rest 0)
read_groups-Groups zero i m v front rest (Groups.last _ lt) h = absurd (omega arith)
read_groups-Groups zero i m v front rest (Groups.more _ lt g) h = absurd (omega arith)
read_groups-Groups (suc fuel) i m v front rest (Groups.last _ lt) h =
    let low : bit_and v 0x7f ≡ v = low_group v ∙ omega arith in
    read_groups_stop fuel i m v _ (get_elem?-append front v rest) (last_group v lt)
    ∙ ap₂ (λ t d. ok (i + t * 2 ^ m, d)) low (reading-append front (v ∷ []) rest 0)
read_groups-Groups (suc fuel) i m v front rest (Groups.more _ {bs = cs} lt g) h =
    let b : ℕ = v % 128 + 128 in
    let low : bit_and b 0x7f ≡ v % 128 = low_group b ∙ omega arith in
    read_groups-next fuel i m b _ (get_elem?-append front b (cs ++ rest))
      (inner_group (v % 128) (omega arith))
    ∙ rw (low, reading-append front (b ∷ []) (cs ++ rest) 0)
        (read_groups-Groups fuel (i + v % 128 * 2 ^ m) (m + 7) (v / 128) (front ++ (b ∷ [])) rest g
            (omega arith)
          ∙ ap₂ (λ t d. ok (t, d)) (omega (arith, split_group m v))
              (ap (λ f. reading f rest 0) (append_assoc front (b ∷ []) cs)))

prefix_bits : (n h i : ℕ) → i < 2 ^ n → bit_and (h * 2 ^ n + i) (2 ^ n - 1) ≡ i
prefix_bits n h i lt =
    bit_and-mask n (h * 2 ^ n + i) ∙ mul-add-mod_self_right h (2 ^ n) i ∙ mod-eq_of_lt lt

module _ (b : ℕ) (d : BitDecoder) (at : get_elem? d.src d.byte_offset ≡ some b) where
  abbrev mask : ℕ
  mask = 2 ^ (8 - d.bit_offset) - 1

  abbrev after : BitDecoder
  after = record d { byte_offset = d.byte_offset + 1; bit_offset = 0 }

  read_hpack_int_small : {i : ℕ} → bit_and b mask ≡ i → i < mask → read_hpack_int d ≡ ok (i, after)
  unfolding read_hpack_int
  read_hpack_int_small e h = rw (at, or_raise, ◌>>=◌, e, lt→ltb _ _ h)

  read_hpack_int_large :
      bit_and b mask ≡ mask → read_hpack_int d ≡ read_groups (length d.src + 1) after mask 0
  unfolding read_hpack_int
  read_hpack_int_large e = rw (at, or_raise, ◌>>=◌, e, ge→ltb mask mask (omega arith))

-- `read_hpack_int` at bit `k` of a byte reads back the number of the format over its low bits.
pub read_hpack_int-HpackInt :
    (k h i : ℕ) (front : List ℕ) {bs : List ℕ} (rest : List ℕ)
    → HpackInt (8 - k) h i bs
    → read_hpack_int (reading front (bs ++ rest) k) ≡ ok (i, reading (front ++ bs) rest 0)
read_hpack_int-HpackInt k h i front rest (HpackInt.small _ lt) =
    let b : ℕ = h * 2 ^ (8 - k) + i in
    read_hpack_int_small b _ (get_elem?-append front b rest) (prefix_bits (8 - k) h i (omega arith))
      lt
    ∙ ap (λ d. ok (i, d)) (reading-append front (b ∷ []) rest 0)
read_hpack_int-HpackInt k h i front rest (HpackInt.large _ {bs = cs} ge g) =
    let top : ℕ = 2 ^ (8 - k) - 1 in
    let b : ℕ = h * 2 ^ (8 - k) + top in
    let rounds : ℕ = length (front ++ (b ∷ (cs ++ rest))) + 1 in
    let enough : length cs ≤ rounds =
      omega (arith, length-append front (b ∷ (cs ++ rest)), length-append cs rest) in
    read_hpack_int_large b _ (get_elem?-append front b (cs ++ rest))
      (prefix_bits (8 - k) h top (omega (arith, pow_pos (8 - k))))
    ∙ rw (reading-append front (b ∷ []) (cs ++ rest) 0) (
        read_groups-Groups rounds top 0 (i - top) (front ++ (b ∷ [])) rest g enough
        ∙ ap₂ (λ t d. ok (t, d)) (omega arith)
            (ap (λ f. reading f rest 0) (append_assoc front (b ∷ []) cs)))

-- What `write_hpack_int` writes behind the `k` bits, fewer than 8, that are already in the last byte,
-- `read_hpack_int` reads back from that place, whatever follows, and stops where the number ends.
pub read-write_hpack_int :
    (k h i : ℕ) (front rest : List ℕ)
    → k < 8
    → let e =
        write_hpack_int i (record { out = front ++ (h * 2 ^ (8 - k) ∷ []); bit_offset = k }) in
      read_hpack_int (record { src = e.out ++ rest; byte_offset = length front; bit_offset = k })
      ≡ ok (i, record { src = e.out ++ rest; byte_offset = length e.out; bit_offset = 0 })
read-write_hpack_int k h i front rest lt =
    let (bs, e, format) = write_hpack_int-HpackInt k h i front lt in
    rw (e, append_assoc front bs rest)
      (read_hpack_int-HpackInt k h i front rest format
        ∙ ap (λ s. ok (i, record { src = s; byte_offset = length (front ++ bs); bit_offset = 0 }))
            (append_assoc front bs rest))

-- `read_groups` given more rounds than bytes are left never runs out of them.
read_groups-ne-out_of_fuel :
    (fuel i m : ℕ) (d : BitDecoder)
    → length d.src - d.byte_offset < fuel
    → read_groups fuel d i m ≢ err Exn.out_of_fuel
unfolding read_groups
read_groups-ne-out_of_fuel zero i m d h e = absurd (omega arith)
read_groups-ne-out_of_fuel (suc fuel) i m d h e =
    elim (Option-cases (get_elem? d.src d.byte_offset)) [
      | inl past ↦ ground arith
      | inr (b, at) ↦ ground (
        arith,
        get_elem?-lt d.src d.byte_offset at,
        read_groups-ne-out_of_fuel fuel (i + bit_and b 0x7f * 2 ^ m) (m + 7) (next fuel i m b d at),
      )
    ]

-- `read_hpack_int` ends on every decoder: it returns or raises within the rounds that the model gives
-- its loop.
pub read_hpack_int-ne-out_of_fuel : (d : BitDecoder) → read_hpack_int d ≢ err Exn.out_of_fuel
unfolding read_hpack_int
read_hpack_int-ne-out_of_fuel d e = elim (Option-cases (get_elem? d.src d.byte_offset)) [
  | inl past ↦ ground arith
  | inr (b, at) ↦ ground (
    arith,
    read_groups-ne-out_of_fuel (length d.src + 1) (bit_and b (mask b d at)) 0 (after b d at)
        (omega arith),
  )
]
