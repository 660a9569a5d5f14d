-- ===== src/Server/Items.antt =====
-- server.py: the items of the Upgrade header, `set(i.strip() for i in items)`, and the texts that are
-- `h2c` between spaces.
use tornado_http.Common.{
  ℕ, ◌≤◌, ◌≡◌, ◌⊎◌, ◌↔◌, refl, sym, ap, ◌∙◌, arith, Bool, true, false, ◌||◌, List, [], ◌∷◌, ◌++◌,
  Bool-cases, inl, inr, All, All-append, subst, bytes_eq, ◌==◌, if◌then◌else◌,
}
use mathlib.Core.List.{reverse, reverse-append, reverse-reverse}
use tornado_http.Constants.{codes}
use tornado_http.Hpack.Lookup.{bytes_eq→eq, bytes_eq_refl}
use tornado_http.Stream.{Text}
use tornado_http.Stream.Outside.{is_space, skip_spaces}

abbrev pub prepend : ℕ → List Text → List Text
prepend c [] = (c ∷ []) ∷ []
prepend c (item ∷ items) = (c ∷ item) ∷ items

-- `text.split(',')`
unfoldable pub split_commas : Text → List Text
split_commas [] = [] ∷ []
split_commas (c ∷ cs) =
    let items = split_commas cs in if c == b',' then [] ∷ items else prepend c items

-- `item.strip()`
unfoldable pub strip : Text → Text
unfolding skip_spaces
strip text = reverse (skip_spaces (reverse (skip_spaces text)))

-- `constants.HTTP2_CLEAR in set(i.strip() for i in items)`
unfoldable pub has_h2c : List Text → Bool
unfolding strip
has_h2c [] = false
has_h2c (item ∷ items) = bytes_eq (strip item) (codes "h2c") || has_h2c items

-- The ASCII characters that `strip` takes away.
abbrev pub IsSpace : ℕ → Type 0
IsSpace c = ((9 ≤ c) × (c ≤ 13)) ⊎ ((28 ≤ c) × (c ≤ 32))

-- `h2c` with nothing but spaces around it.
abbrev pub IsH2c : Text → Type 0
IsH2c item =
    (before : Text) × (after : Text) × All IsSpace before
    × All IsSpace after
    × (item ≡ before ++ (b'h' ∷ b'2' ∷ b'c' ∷ after))

abbrev pub AnyH2c : List Text → Type 0
AnyH2c [] = ⊥
AnyH2c (item ∷ items) = IsH2c item ⊎ AnyH2c items

is_space-IsSpace : (c : ℕ) → is_space c ≡ true → IsSpace c
is_space-IsSpace c h = ground arith

IsSpace-is_space : (c : ℕ) → IsSpace c → is_space c ≡ true
IsSpace-is_space c h = ground arith

skip_spaces_stops : (c : ℕ) (cs : Text) → is_space c ≡ false → skip_spaces (c ∷ cs) ≡ c ∷ cs
unfolding skip_spaces
skip_spaces_stops c cs h = rw (h, skip_spaces) refl

skip_spaces_skips :
    (before behind : Text)
    → All IsSpace before
    → skip_spaces (before ++ behind) ≡ skip_spaces behind
unfolding skip_spaces
skip_spaces_skips [] behind spaces = refl
skip_spaces_skips (c ∷ cs) behind (one, spaces) =
    rw (IsSpace-is_space c one, skip_spaces) (skip_spaces_skips cs behind spaces)

skipped : (text : Text) → (before : Text) × All IsSpace before × (text ≡ before ++ skip_spaces text)
unfolding skip_spaces
skipped [] = ([], tt, refl)
skipped (c ∷ cs) = elim (Bool-cases (is_space c)) [
  | inl e ↦
      let (before, spaces, split) = skipped cs in
      (
        c ∷ before,
        (is_space-IsSpace c e, spaces),
        rw (e, skip_spaces) (ap (λ (t : Text). c ∷ t) split),
      )
  | inr e ↦ ([], tt, sym (skip_spaces_stops c cs e))
]

All-reverse : (P : ℕ → Type 0) (xs : Text) → All P xs → All P (reverse xs)
All-reverse P [] all = tt
All-reverse P (x ∷ xs) (one, all) =
    subst (All P) (sym (reverse-append (x ∷ []) xs))
      (All-append P (reverse xs) (x ∷ []) (All-reverse P xs all) (one, tt))

abbrev h2c : Text
h2c = b'h' ∷ b'2' ∷ b'c' ∷ []

strip-IsH2c : (item : Text) → strip item ≡ h2c → IsH2c item
unfolding strip
strip-IsH2c item h =
    let (before, spaces, split) = skipped item in
    let (after, spaces', split') = skipped (reverse (skip_spaces item)) in
    let rest : skip_spaces item ≡ h2c ++ reverse after =
      sym (reverse-reverse (skip_spaces item))
      ∙ ap reverse split'
      ∙ reverse-append after (skip_spaces (reverse (skip_spaces item)))
      ∙ ap (λ (t : Text). t ++ reverse after) h in
    (
      before,
      reverse after,
      spaces,
      All-reverse IsSpace after spaces',
      split ∙ ap (λ (t : Text). before ++ t) rest,
    )

IsH2c-strip : (item : Text) → IsH2c item → strip item ≡ h2c
unfolding strip
IsH2c-strip item (before, after, spaces, spaces', split) =
    let left : skip_spaces item ≡ h2c ++ after =
      ap skip_spaces split
      ∙ skip_spaces_skips before (h2c ++ after) spaces
      ∙ skip_spaces_stops b'h' (b'2' ∷ b'c' ∷ after) refl in
    let right : skip_spaces (reverse after ++ reverse h2c) ≡ reverse h2c =
      skip_spaces_skips (reverse after) (reverse h2c) (All-reverse IsSpace after spaces')
      ∙ skip_spaces_stops b'c' (b'2' ∷ b'h' ∷ []) refl in
    ap (λ (t : Text). reverse (skip_spaces (reverse t))) left
    ∙ ap (λ (t : Text). reverse (skip_spaces t)) (reverse-append h2c after)
    ∙ ap reverse right

-- The test of the code, against the texts.
pub has_h2c-AnyH2c : (items : List Text) → (has_h2c items ≡ true) ↔ AnyH2c items
unfolding has_h2c
has_h2c-AnyH2c [] = (λ h. cc, λ h. absurd h)
has_h2c-AnyH2c (item ∷ items) =
    let (there, back) = has_h2c-AnyH2c items in
    (
      λ h. elim (Bool-cases (bytes_eq (strip item) (codes "h2c"))) [
        | inl e ↦ inl (strip-IsH2c item (bytes_eq→eq (strip item) (codes "h2c") e))
        | inr e ↦ inr (there (ground arith))
      ],
      λ any. elim any [
        | inl one ↦
            let e : bytes_eq (strip item) (codes "h2c") ≡ true =
              ap (λ (t : Text). bytes_eq t (codes "h2c")) (IsH2c-strip item one)
              ∙ bytes_eq_refl (codes "h2c") in
            ground arith
        | inr more ↦ let e = back more in ground arith
      ],
    )
