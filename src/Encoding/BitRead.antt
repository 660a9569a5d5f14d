-- ===== src/Encoding/BitRead.antt =====
-- encoding.py: `read_bit` and `read_char` at a known byte.
use native.Mathlib.Nat.{
  pow-suc, div-div-eq-div-mul, add-zero, add-suc, add_comm, mul-div_cancel, add-mul-div_right,
}
use tornado_http.Common.{
  ℕ, zero, suc, ◌+◌, ◌-◌, ◌*◌, ◌/◌, ◌%◌, ◌^◌, ◌<◌, ◌≡◌, ap, ◌∙◌, bit_and, arith, List, [], ◌∷◌,
  ◌++◌, length-append, get_elem?-append, ge→ltb, false, true,
}
use tornado_http.Common.Bits.{bit_and-bit, pow_pos}
use tornado_http.Encoding.{eod, read_bit, read_char}
use tornado_http.Encoding.IntFormat.{HpackInt}
use tornado_http.Encoding.IntRoundTrip.{reading, reading-append}
use tornado_http.Errors.{ok, or_raise, ◌>>=◌}

pow-add : (n j : ℕ) → 2 ^ (n + j) ≡ 2 ^ n * 2 ^ j
pow-add n zero = rw (add-zero n) (omega arith)
pow-add n (suc j) = rw (add-suc n j, pow-suc 2 (n + j), pow-add n j, pow-suc 2 j) (omega arith)

-- The bits of a byte above its `n` low bits.
high_bits : (n j h x : ℕ) → x < 2 ^ n → (h * 2 ^ n + x) / 2 ^ (n + j) ≡ h / 2 ^ j
high_bits n j h x lt =
    let none_below : x / 2 ^ n ≡ 0 = grind arith in
    let top : (h * 2 ^ n + x) / 2 ^ n ≡ h =
      rw (add_comm (h * 2 ^ n) x, add-mul-div_right x h (pow_pos n)) (omega arith) in
    rw (pow-add n j, ← div-div-eq-div-mul (h * 2 ^ n + x) (2 ^ n) (2 ^ j), top)

-- Some byte is left.
pub eod-reading :
    (front : List ℕ) (b : ℕ) (rest : List ℕ) (k : ℕ) → eod (reading front (b ∷ rest) k) ≡ false
unfolding eod
eod-reading front b rest k = ground (arith, length-append front (b ∷ rest))

-- Nothing is left.
pub eod-reading_end : (front : List ℕ) (k : ℕ) → eod (reading front [] k) ≡ true
unfolding eod
eod-reading_end front k = ground (arith, length-append front [])

-- `read_bit` gives bit `k` of the byte, counted from the top, and goes on to the next.
pub read_bit-reading :
    (k b : ℕ) (front rest : List ℕ)
    → k < 7
    → read_bit (reading front (b ∷ rest) k)
      ≡ ok (b / 2 ^ (7 - k) % 2, reading front (b ∷ rest) (k + 1))
unfolding read_bit
read_bit-reading k b front rest h =
    let bit : bit_and b (2 ^ (7 - k)) / 2 ^ (7 - k) ≡ b / 2 ^ (7 - k) % 2 =
      rw (bit_and-bit (7 - k) b) (mul-div_cancel _ (pow_pos (7 - k))) in
    rw (eod-reading front b rest k, get_elem?-append front b rest)
      (rw (or_raise, ◌>>=◌, bit, ge→ltb 7 (k + 1) (omega arith)))

-- The bits of a format's first byte above its number.
pub read_bit-HpackInt :
    (k n j h i : ℕ) (front : List ℕ) {bs : List ℕ} (rest : List ℕ)
    → k < 7
    → 7 - k ≡ n + j
    → HpackInt n h i bs
    → read_bit (reading front (bs ++ rest) k)
      ≡ ok (h / 2 ^ j % 2, reading front (bs ++ rest) (k + 1))
read_bit-HpackInt k n j h i front rest lt e (HpackInt.small _ fits) =
    read_bit-reading k (h * 2 ^ n + i) front rest lt ∙ rw (e, high_bits n j h i (omega arith))
read_bit-HpackInt k n j h i front rest lt e (HpackInt.large _ {bs = cs} ge g) =
    read_bit-reading k (h * 2 ^ n + (2 ^ n - 1)) front (cs ++ rest) lt
    ∙ rw (e, high_bits n j h (2 ^ n - 1) (omega (arith, pow_pos n)))

pub read_char-reading :
    (b : ℕ) (front rest : List ℕ)
    → read_char (reading front (b ∷ rest) 0) ≡ ok (b, reading (front ++ (b ∷ [])) rest 0)
unfolding read_char
read_char-reading b front rest =
    rw (get_elem?-append front b rest, or_raise, ◌>>=◌)
      (ap (λ d. ok (b, d)) (reading-append front (b ∷ []) rest 0))
