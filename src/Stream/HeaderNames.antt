-- ===== src/Stream/HeaderNames.antt =====
-- stream.py: the names that headers may have, and the lemmas on the tests of `_parse_headers`.
use tornado_http.Common.{
  ℕ, ◌+◌, ◌<◌, ◌≡◌, ◌≢◌, ◌⊎◌, refl, sym, ap, ◌∙◌, arith, Bool, true, false, not, ◌&&◌, ◌||◌, leb,
  drop, Bool-cases, inl, inr, Option, none, some, List, [], ◌∷◌, All, bytes_eq, Dict, dict_get,
  dict_set, if◌then◌else◌,
}
use tornado_http.Common.Dicts.{dict_get_head, dict_get_behind, dict_set_head, dict_set_behind}
use tornado_http.Constants.{codes}
use tornado_http.Errors.{Exn, Result, ok, err, raise_if}
use tornado_http.Hpack.Decoder.{Header}
use tornado_http.Hpack.Encoder.{lower}
use tornado_http.Hpack.Lookup.{bytes_eq→eq, bytes_eq_refl}
use tornado_http.Hpack.Table.{Bytes}
use tornado_http.Stream.{Text}
use tornado_http.Stream.Headers.{Scan, starts_with_colon, is_valid_pseudo, is_some}

abbrev pub name_of : Header → Bytes
name_of ((k, v), mode) = k

-- The pseudo-headers of a response, for a client, and of a request, for a server.
abbrev pub IsPseudoName : Bool → Bytes → Type 0
IsPseudoName true k = k ≡ codes ":status"
IsPseudoName false k =
    (k ≡ codes ":method")
    ⊎ ((k ≡ codes ":scheme") ⊎ ((k ≡ codes ":authority") ⊎ (k ≡ codes ":path")))

abbrev pub IsPseudo : Bool → Header → Type 0
IsPseudo is_client h = IsPseudoName is_client (name_of h)

-- The first byte is no colon.
abbrev pub IsPlain : Bytes → Type 0
IsPlain [] = Unit {0}
IsPlain (c ∷ cs) = c ≢ b':'

-- No byte is a letter in upper case.
abbrev pub IsLower : Bytes → Type 0
IsLower k = All (λ c. (c < b'A') ⊎ (b'Z' < c)) k

abbrev pub IsRegular : Header → Type 0
IsRegular h = IsPlain (name_of h) × IsLower (name_of h)

one_of_four :
    (a b c d : Bool)
    → (a || b || c || d) ≡ true
    → (a ≡ true) ⊎ ((b ≡ true) ⊎ ((c ≡ true) ⊎ (d ≡ true)))
one_of_four a b c d h = ground arith

pub is_valid_pseudo-IsPseudoName :
    (is_client : Bool) (k : Bytes) → is_valid_pseudo is_client k ≡ true → IsPseudoName is_client k
unfolding is_valid_pseudo
is_valid_pseudo-IsPseudoName true k h = bytes_eq→eq k (codes ":status") h
is_valid_pseudo-IsPseudoName false k h =
    elim (one_of_four (bytes_eq k (codes ":method")) (bytes_eq k (codes ":scheme"))
      (bytes_eq k (codes ":authority")) (bytes_eq k (codes ":path")) h) [
        | inl e ↦ inl (bytes_eq→eq k (codes ":method") e)
        | inr (inl e) ↦ inr (inl (bytes_eq→eq k (codes ":scheme") e))
        | inr (inr (inl e)) ↦ inr (inr (inl (bytes_eq→eq k (codes ":authority") e)))
        | inr (inr (inr e)) ↦ inr (inr (inr (bytes_eq→eq k (codes ":path") e)))
      ]

pub starts_with_colon-IsPlain : (k : Bytes) → starts_with_colon k ≡ false → IsPlain k
starts_with_colon-IsPlain [] h = tt
starts_with_colon-IsPlain (c ∷ cs) h = ground arith

abbrev first_or : ℕ → Bytes → ℕ
first_or n [] = n
first_or n (c ∷ cs) = c

pub lower-IsLower : (k : Bytes) → k ≡ lower k → IsLower k
unfolding lower
lower-IsLower [] h = tt
lower-IsLower (c ∷ cs) h =
    let first : c ≡ (if leb b'A' c && leb c b'Z' then c + 32 else c) = ap (first_or 0) h in
    (ground arith, lower-IsLower cs (ap (drop 1) h))

-- No name stands twice.
abbrev pub Distinct : List Header → Type 0
Distinct [] = Unit {0}
Distinct (h ∷ hs) = All (λ g. name_of g ≢ name_of h) hs × Distinct hs

pub raise_if-ok : (b : Bool) (e : Exn) → raise_if b e ≡ ok tt → b ≡ false
raise_if-ok b e h = ground arith

pub not-false : (b : Bool) → not b ≡ false → b ≡ true
not-false b h = ground arith

pub no_regular : (b c : Bool) → (b || not c) ≡ false → b ≡ false
no_regular b c h = ground arith

pub valid : (b c : Bool) → (b || not c) ≡ false → c ≡ true
valid b c h = ground arith

pub is_some-none : (o : Option (Option Text)) → is_some o ≡ false → o ≡ none
is_some-none none h = refl
is_some-none (some v) h = absurd (cc h)

abbrev pub result_or : Scan → Result Scan → Scan
result_or s (ok t) = t
result_or s (err e) = s

abbrev pub text_or : Text → Result Text → Text
text_or t (ok u) = u
text_or t (err e) = t

pub All-map :
    (P Q : Header → Type 0) → ((h : Header) → P h → Q h) → (hs : List Header) → All P hs → All Q hs
All-map P Q f [] all = tt
All-map P Q f (h ∷ hs) (one, all) = (f h one, All-map P Q f hs all)

-- A key that is not there behind `d[k] = v` was not there before, and is not `k`.
pub dict_set_absent :
    (k l : Text) (v : Option Text) (d : Dict Text (Option Text))
    → dict_get bytes_eq l (dict_set bytes_eq k v d) ≡ none
    → (dict_get bytes_eq l d ≡ none) × (l ≢ k)
unfolding dict_get dict_set
dict_set_absent k l v [] h = elim (Bool-cases (bytes_eq l k)) [
  | inl e ↦ absurd (cc (sym (dict_get_head bytes_eq l k v [] e) ∙ h))
  | inr e ↦
      (refl, λ same. absurd (cc (sym (bytes_eq_refl k) ∙ ap (λ t. bytes_eq t k) (sym same) ∙ e)))
]
dict_set_absent k l v ((j, w) ∷ d) h = elim (Bool-cases (bytes_eq k j)) [
  | inl e ↦
      let h' = ap (dict_get bytes_eq l) (sym (dict_set_head bytes_eq k j v w d e)) ∙ h in
      elim (Bool-cases (bytes_eq l j)) [
        | inl here ↦ absurd (cc (sym (dict_get_head bytes_eq l j v d here) ∙ h'))
        | inr there ↦ (
          dict_get_behind bytes_eq l j w d there
              ∙ sym (dict_get_behind bytes_eq l j v d there)
              ∙ h',
          λ same. absurd (cc (sym e ∙ ap (λ t. bytes_eq t j) (sym same) ∙ there)),
        )
      ]
  | inr e ↦
      let h' = ap (dict_get bytes_eq l) (sym (dict_set_behind bytes_eq k j v w d e)) ∙ h in
      elim (Bool-cases (bytes_eq l j)) [
        | inl here ↦
            absurd (cc (sym (dict_get_head bytes_eq l j w (dict_set bytes_eq k v d) here) ∙ h'))
        | inr there ↦
            let (absent, apart) =
              dict_set_absent k l v d
                (sym (dict_get_behind bytes_eq l j w (dict_set bytes_eq k v d) there) ∙ h') in
            (dict_get_behind bytes_eq l j w d there ∙ absent, apart)
      ]
]
