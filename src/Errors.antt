-- ===== src/Errors.antt =====
-- tornado_http2/errors.py, and the other exceptions that the code raises, as values.
use tornado_http.Common.{ℕ, ◌≡◌, refl, ◌⊎◌, inl, inr, Bool, true, false, Option, List}
use tornado_http.Constants.{ErrorCode}

-- `connection_error` and `stream_error` are the two classes of errors.py, with their fields. The
-- others are Python's and the libraries' own. `out_of_fuel` is no Python value: it marks a loop of
-- the model that was given too few rounds.
pub data Exn : Type 0 where
  connection_error : ErrorCode → Option (List ℕ) → Exn
  stream_error : ℕ → ErrorCode → Exn
  hpack_error eod_error index_error struct_error : Exn
  value_error key_error type_error assertion_error attribute_error : Exn
  http_output_error stream_closed_error plain_exception : Exn
  out_of_fuel : Exn

-- What a call gives: it returns, or it raises.
pub data Result {ℓ} (A : Type ℓ) : Type ℓ where
  ok : A → Result A
  err : Exn → Result A

infixl 5 ◌>>◌ ◌>>=◌
-- A call that raises ends the function.
abbrev pub ◌>>=◌ {ℓ κ} : {X : Type ℓ} {Y : Type κ} → Result X → (X → Result Y) → Result Y
ok x >>= next = next x
err raised >>= next = err raised

abbrev pub raise_if : Bool → Exn → Result (Unit {0})
raise_if true e = err e
raise_if false e = ok tt

abbrev pub ◌>>◌ {ℓ} : {Y : Type ℓ} → Result (Unit {0}) → Result Y → Result Y
first >> next = first >>= λ _. next

-- A missing element raises.
abbrev pub or_raise {ℓ} : {A : Type ℓ} → Exn → Option A → Result A
or_raise e (Option.some a) = ok a
or_raise e Option.none = err e

pub >>=-eq-ok {ℓ κ} :
    {X : Type ℓ} {Y : Type κ} (first : Result X) (next : X → Result Y) {y : Y}
    → (first >>= next) ≡ ok y
    → (x : X) × (first ≡ ok x) × (next x ≡ ok y)
>>=-eq-ok (ok x) next e = (x, refl, e)
>>=-eq-ok (err raised) next e = cc

pub Result-cases {ℓ} :
    {A : Type ℓ} (m : Result A) → ((a : A) × (m ≡ ok a)) ⊎ ((e : Exn) × (m ≡ err e))
Result-cases (ok a) = inl (a, refl)
Result-cases (err e) = inr (e, refl)
