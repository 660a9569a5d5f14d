-- ===== src/Struct.antt =====
-- The calls of Python's `struct` that the code makes: big-endian fields of one, two and four bytes.
-- Numbers that are negative never reach `pack` in this code, so its arguments are naturals.
use native.Mathlib.Nat.{pow-suc, div-div-eq-div-mul, div-add-mod}
use tornado_http.Common.{
  ℕ, zero, suc, ◌+◌, ◌*◌, ◌/◌, ◌%◌, ◌^◌, ◌<◌, ◌≡◌, refl, ap, ◌∙◌, arith, List, [], ◌∷◌, length, ltb,
  lt→ltb, ◌==◌, if◌then◌else◌, All,
}
use tornado_http.Errors.{Exn, Result, ok, err}

-- The `n` low bytes of a number, highest first.
unfoldable pub to_bytes : ℕ → ℕ → List ℕ
to_bytes zero v = []
to_bytes (suc n) v = (v / 256 ^ n % 256) ∷ to_bytes n v

-- The number that bytes stand for, highest first.
unfoldable pub from_bytes : List ℕ → ℕ
from_bytes [] = 0
from_bytes (b ∷ bs) = b * 256 ^ length bs + from_bytes bs

-- A field of `n` bytes for numbers below `bound`; `pack` raises on any other.
unfoldable pub pack_field : ℕ → ℕ → ℕ → Result (List ℕ)
unfolding to_bytes
pack_field n bound v = if ltb v bound then ok (to_bytes n v) else err Exn.struct_error

-- `B`, `H` and `I`; `i`, whose numbers are signed, takes the naturals below 2^31.
abbrev pub pack_B : ℕ → Result (List ℕ)
pack_B = pack_field 1 (2 ^ 8)

abbrev pub pack_H : ℕ → Result (List ℕ)
pack_H = pack_field 2 (2 ^ 16)

abbrev pub pack_I : ℕ → Result (List ℕ)
pack_I = pack_field 4 (2 ^ 32)

abbrev pub pack_i : ℕ → Result (List ℕ)
pack_i = pack_field 4 (2 ^ 31)

-- `unpack` of one unsigned field of `n` bytes: any other length raises.
unfoldable pub unpack_field : ℕ → List ℕ → Result ℕ
unfolding from_bytes
unpack_field n bs = if length bs == n then ok (from_bytes bs) else err Exn.struct_error

pub length-to_bytes : (n v : ℕ) → length (to_bytes n v) ≡ n
unfolding to_bytes
length-to_bytes zero v = refl
length-to_bytes (suc n) v = ap suc (length-to_bytes n v)

from_bytes-to_bytes_mod : (n v : ℕ) → from_bytes (to_bytes n v) ≡ v % 256 ^ n
unfolding to_bytes from_bytes
from_bytes-to_bytes_mod zero v = omega arith
from_bytes-to_bytes_mod (suc n) v =
    rw (length-to_bytes n v, from_bytes-to_bytes_mod n v, pow-suc 256 n)
      (omega (
        arith,
        ap (λ (t : ℕ). t * 256 ^ n) (div-add-mod (v / 256 ^ n) 256),
        div-add-mod v (256 ^ n),
        div-add-mod v (256 ^ n * 256),
        ap (λ (t : ℕ). t * (256 ^ n * 256)) (div-div-eq-div-mul v (256 ^ n) 256),
      ))

pub from_bytes-to_bytes : (n v : ℕ) → v < 256 ^ n → from_bytes (to_bytes n v) ≡ v
from_bytes-to_bytes n v h = from_bytes-to_bytes_mod n v ∙ grind arith

top_digit : (b p x : ℕ) → b < 256 → x < p → b * p + x < p * 256
top_digit b p x hb hx = grind arith

pub from_bytes_lt : (bs : List ℕ) → All (λ b. b < 256) bs → from_bytes bs < 256 ^ length bs
unfolding from_bytes
from_bytes_lt [] h = omega arith
from_bytes_lt (b ∷ bs) h =
    rw (pow-suc 256 (length bs))
      (top_digit b (256 ^ length bs) (from_bytes bs) h.0 (from_bytes_lt bs h.1))

pub pack_field_fits : (n bound v : ℕ) → v < bound → pack_field n bound v ≡ ok (to_bytes n v)
unfolding pack_field
pack_field_fits n bound v h = rw (lt→ltb v bound h)
