-- ===== src/Common/Bits.antt =====
-- `bit_and` with a mask and `bit_or` of disjoint bits, as arithmetic, at every width.
use Prim.Native.Nat.{
  ℕ, zero, suc, ◌+◌, ◌-◌, ◌*◌, ◌/◌, ◌%◌, ◌^◌, ◌≤◌, ◌<◌, min, max, bit_and, bit_or, digits,
  bit_and-bitwise, bit_or-bitwise,
}
use mathlib.Core.Path.{◌≡◌, refl, ap, ◌∙◌}
use native.Mathlib.Nat.{pow-suc, mul_comm, mod-eq-sub-div-mul, div-mul-le_self}
use native.Mathlib.Nat.{div-div-eq-div-mul}
use native.Mathlib.Omega.{arith}

-- The native operations, over any operation on two digits.
module _ (at_end : ℕ → ℕ) (op : ℕ → ℕ → ℕ) where
  -- A count of digits that is large enough may be any other.
  digits-enough : (a n m b : ℕ) → a ≤ n → a ≤ m → digits at_end op n a b ≡ digits at_end op m a b
  digits-enough zero zero zero b hn hm = refl
  digits-enough zero zero (suc m) b hn hm = refl
  digits-enough zero (suc n) zero b hn hm = refl
  digits-enough zero (suc n) (suc m) b hn hm = refl
  digits-enough (suc a) zero m b hn hm = absurd (omega arith)
  digits-enough (suc a) (suc n) zero b hn hm = absurd (omega arith)
  digits-enough (suc a) (suc n) (suc m) b hn hm =
      ap (λ rest. rest * 2 + op (suc a % 2) (b % 2))
        (digits-enough (suc a / 2) n m (b / 2) (omega arith) (omega arith))

pub zero-bit_or : (b : ℕ) → bit_or 0 b ≡ b
zero-bit_or b = bit_or-bitwise 0 b

-- One binary digit, and the rest.
bit_and_halves : (a b : ℕ) → bit_and a b ≡ bit_and (a / 2) (b / 2) * 2 + min (a % 2) (b % 2)
bit_and_halves zero b =
    let none_left : (c : ℕ) → bit_and 0 c ≡ 0 = bit_and-bitwise 0 in
    omega (arith, none_left b, none_left (b / 2))
bit_and_halves (suc a) b =
    let h : ℕ = suc a / 2 in
    omega (
      arith,
      digits-enough (λ c. 0) min h a h (b / 2) (omega arith) (omega arith),
      bit_and-bitwise h (b / 2),
      bit_and-bitwise (suc a) b,
    )

bit_or_halves : (a b : ℕ) → bit_or a b ≡ bit_or (a / 2) (b / 2) * 2 + max (a % 2) (b % 2)
bit_or_halves zero b = omega (arith, zero-bit_or (b / 2), zero-bit_or b)
bit_or_halves (suc a) b =
    let h : ℕ = suc a / 2 in
    omega (
      arith,
      digits-enough (λ c. c) max h a h (b / 2) (omega arith) (omega arith),
      bit_or-bitwise h (b / 2),
      bit_or-bitwise (suc a) b,
    )

bit_zero_below : (a k : ℕ) → a < k → (bit_and a 0 ≡ 0) × (bit_or a 0 ≡ a)
bit_zero_below a zero lt = absurd (omega arith)
bit_zero_below zero (suc k) lt = (bit_and-bitwise 0 0, zero-bit_or 0)
bit_zero_below (suc a) (suc k) lt =
    let (none_left, same) = bit_zero_below (suc a / 2) k (omega arith) in
    (
      omega (arith, none_left, bit_and_halves (suc a) 0),
      omega (arith, same, bit_or_halves (suc a) 0),
    )

pub bit_and-zero : (a : ℕ) → bit_and a 0 ≡ 0
bit_and-zero a = (bit_zero_below a (a + 1) (omega arith)).0

bit_or-zero : (a : ℕ) → bit_or a 0 ≡ a
bit_or-zero a = (bit_zero_below a (a + 1) (omega arith)).1

pub pow_pos : (n : ℕ) → 0 < 2 ^ n
pow_pos zero = omega arith
pow_pos (suc n) = omega (arith, pow-suc 2 n, pow_pos n)

-- Halving first, for a power of two or any other number.
half_div : (p a : ℕ) → a / 2 / p ≡ a / (p * 2)
half_div p a = rw (mul_comm p 2) (div-div-eq-div-mul a 2 p)

half_mod : (p a : ℕ) → a / 2 % p * 2 + a % 2 ≡ a % (p * 2)
half_mod p a = omega (
  arith,
  mod-eq-sub-div-mul (a / 2) p,
  mod-eq-sub-div-mul a (p * 2),
  div-mul-le_self (a / 2) p,
  ap (λ (t : ℕ). t * (p * 2)) (half_div p a),
)

-- `a & (2^n - 1)` keeps the low `n` bits.
pub bit_and-mask : (n a : ℕ) → bit_and a (2 ^ n - 1) ≡ a % 2 ^ n
bit_and-mask zero a = omega (arith, bit_and-zero a)
bit_and-mask (suc n) a =
    let half : (2 ^ suc n - 1) / 2 ≡ 2 ^ n - 1 = omega (arith, pow-suc 2 n) in
    bit_and_halves a (2 ^ suc n - 1)
    ∙ rw (half, bit_and-mask n (a / 2), pow-suc 2 n) (omega (arith, half_mod (2 ^ n) a, pow_pos n))

-- `a & (1 << n)` is bit `n`, in its place.
pub bit_and-bit : (n a : ℕ) → bit_and a (2 ^ n) ≡ a / 2 ^ n % 2 * 2 ^ n
bit_and-bit zero a = bit_and_halves a 1 ∙ omega (arith, bit_and-zero (a / 2))
bit_and-bit (suc n) a =
    let half : 2 ^ suc n / 2 ≡ 2 ^ n = omega (arith, pow-suc 2 n) in
    bit_and_halves a (2 ^ suc n)
    ∙ rw (half, bit_and-bit n (a / 2), half_div (2 ^ n) a, pow-suc 2 n) (omega arith)

-- Disjoint bits: `or` is addition.
pub bit_or-disjoint : (n h i : ℕ) → i < 2 ^ n → bit_or (h * 2 ^ n) i ≡ h * 2 ^ n + i
bit_or-disjoint zero h i lt =
    let e : i ≡ 0 = omega arith in rw e (bit_or-zero (h * 1) ∙ omega arith)
bit_or-disjoint (suc n) h i lt =
    let scaled : h * 2 ^ suc n ≡ h * 2 ^ n * 2 =
      omega (arith, ap (λ (t : ℕ). h * t) (pow-suc 2 n)) in
    let half : h * 2 ^ suc n / 2 ≡ h * 2 ^ n = omega (arith, scaled) in
    bit_or_halves (h * 2 ^ suc n) i
    ∙ rw (half, bit_or-disjoint n h (i / 2) (omega (arith, pow-suc 2 n))) (omega (arith, scaled))
