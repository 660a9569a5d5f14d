-- ===== src/Stream/Outside.antt =====
-- stream.py: what it uses of Tornado and of the application, as functions, and Python's `int` and `str`
-- of numbers on ASCII texts.
use tornado_http.Common.{
  ℕ, zero, suc, ◌+◌, ◌-◌, ◌*◌, ◌/◌, ◌%◌, Bool, true, false, ◌&&◌, ◌||◌, Option, none, some, List,
  [], ◌∷◌, ◌++◌, leb, ◌==◌, if◌then◌else◌,
}
use mathlib.Core.List.{reverse}
use tornado_http.Common.Int.{ℤ, pos, negsuc}
use tornado_http.Connection.Handlers.{Call}
use tornado_http.Errors.{Exn, Result, ok, err}
use tornado_http.Hpack.Table.{Bytes}
use tornado_http.Stream.{DelegateCall, Fields, Text}

-- `io_write` and `returns_none` are as in `Stream`. `native_str` and `utf8` are Tornado's, on bytes and
-- on texts; `add_field` is what one more `HTTPHeaders.add` does, which may raise; `has_field` and
-- `get_field` are `name in headers` and `headers[name]`, `all_fields` is `get_all`, and
-- `responses` the table of reasons. The delegate's methods return: what an application raises in them is
-- not modelled.
pub record Outside : Type 0 where
  pub io_write : List Call → Bytes → Result (Unit {0})
  pub returns_none : List DelegateCall → Bytes → Bool
  pub native_str : Bytes → Result Text
  pub utf8 : Text → Bytes
  pub add_field : Fields → Text → Option Text → Result (Unit {0})
  pub has_field : Text → Fields → Bool
  pub get_field : Text → Fields → Result Text
  pub all_fields : Fields → List (Text × Text)
  pub responses : ℤ → Text

abbrev is_digit : ℕ → Bool
is_digit c = leb b'0' c && leb c b'9'

abbrev pub is_space : ℕ → Bool
is_space c = leb 9 c && leb c 13 || (leb 28 c && leb c 32)

unfoldable pub digits_value : ℕ → Text → Option ℕ
digits_value acc [] = some acc
digits_value acc (c ∷ cs) = elim (is_digit c) [
  | true ↦ digits_value (acc * 10 + (c - b'0')) cs
  | false ↦ none
]

unfoldable pub skip_spaces : Text → Text
skip_spaces [] = []
skip_spaces (c ∷ cs) = elim (is_space c) [ true ↦ skip_spaces cs | false ↦ c ∷ cs ]

abbrev pub unsigned : Text → Option ℕ
unsigned [] = none
unsigned (c ∷ cs) = digits_value 0 (c ∷ cs)

-- An optional sign before the digits.
unfoldable pub signed_value : Text → Option ℤ
unfolding digits_value
signed_value [] = none
signed_value (c ∷ cs) =
    if c == b'-'
    then elim (unsigned cs) [
      | none ↦ none
      | some zero ↦ some (pos 0)
      | some (suc n) ↦ some (negsuc n)
    ]
    else elim (unsigned (if c == b'+' then cs else c ∷ cs)) [ none ↦ none | some n ↦ some (pos n) ]

-- `int(text)`
unfoldable pub parse_int : Text → Result ℤ
unfolding skip_spaces signed_value
parse_int text = elim (signed_value (reverse (skip_spaces (reverse (skip_spaces text))))) [
  | none ↦ err Exn.value_error
  | some n ↦ ok n
]

-- The decimal digits; a number has no more of them than itself and one.
unfoldable pub decimal : ℕ → ℕ → Text
decimal zero n = []
decimal (suc fuel) n =
    let front = decimal fuel (n / 10) in
    if n / 10 == 0 then (b'0' + n) ∷ [] else front ++ ((b'0' + n % 10) ∷ [])

-- `str(n)`
unfoldable pub str_int : ℤ → Text
unfolding decimal
str_int (pos n) = decimal (n + 1) n
str_int (negsuc n) = b'-' ∷ decimal (n + 2) (n + 1)
