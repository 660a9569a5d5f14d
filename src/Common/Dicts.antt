-- ===== src/Common/Dicts.antt =====
-- Dicts with numbers for keys.
use Prim.Native.Nat.{ℕ}
use mathlib.Core.Path.{◌≡◌, refl, sym, ap, ◌∙◌}
use mathlib.Core.Logic.{◌≢◌, inl, inr}
use mathlib.Core.Bool.{Bool, true, false}
use mathlib.Core.List.{[], ◌∷◌}
use mathlib.Core.Option.{some}
use native.Mathlib.Omega.{arith}
use tornado_http.Common.Lists.{Dict, dict_get, dict_set}
use tornado_http.Common.Tests.{◌==◌, Bool-cases}

==-refl : (n : ℕ) → (n == n) ≡ true
==-refl n = ground arith

==-ne : (m n : ℕ) → m ≢ n → (m == n) ≡ false
==-ne m n h = ground arith

==-eq : (m n : ℕ) → (m == n) ≡ true → m ≡ n
==-eq m n h = ground arith

module _ {ℓ κ} {K : Type κ} {V : Type ℓ} (beq : K → K → Bool) where
  pub dict_get_head :
      (k j : K) (v : V) (d : Dict K V) → beq k j ≡ true → dict_get beq k ((j, v) ∷ d) ≡ some v
  unfolding dict_get
  dict_get_head k j v d e = rw (e, dict_get) refl

  pub dict_get_behind :
      (k j : K) (v : V) (d : Dict K V)
      → beq k j ≡ false
      → dict_get beq k ((j, v) ∷ d) ≡ dict_get beq k d
  unfolding dict_get
  dict_get_behind k j v d e = rw (e, dict_get) refl

  pub dict_set_head :
      (k j : K) (v w : V) (d : Dict K V)
      → beq k j ≡ true
      → dict_set beq k v ((j, w) ∷ d) ≡ (j, v) ∷ d
  unfolding dict_set
  dict_set_head k j v w d e = rw (e, dict_set) refl

  pub dict_set_behind :
      (k j : K) (v w : V) (d : Dict K V)
      → beq k j ≡ false
      → dict_set beq k v ((j, w) ∷ d) ≡ (j, w) ∷ dict_set beq k v d
  unfolding dict_set
  dict_set_behind k j v w d e = rw (e, dict_set) refl

module _ {ℓ} {V : Type ℓ} where
  pub dict_get-set :
      (k : ℕ) (v : V) (d : Dict ℕ V) → dict_get (◌==◌) k (dict_set (◌==◌) k v d) ≡ some v
  unfolding dict_set
  dict_get-set k v [] = dict_get_head (◌==◌) k k v [] (==-refl k)
  dict_get-set k v ((j, w) ∷ d) = elim (Bool-cases (k == j)) [
    | inl e ↦
        ap (dict_get (◌==◌) k) (dict_set_head (◌==◌) k j v w d e) ∙ dict_get_head (◌==◌) k j v d e
    | inr e ↦
        ap (dict_get (◌==◌) k) (dict_set_behind (◌==◌) k j v w d e)
        ∙ dict_get_behind (◌==◌) k j w (dict_set (◌==◌) k v d) e
        ∙ dict_get-set k v d
  ]

  pub dict_get-set_other :
      (k l : ℕ) (v : V) (d : Dict ℕ V)
      → l ≢ k
      → dict_get (◌==◌) l (dict_set (◌==◌) k v d) ≡ dict_get (◌==◌) l d
  unfolding dict_set
  dict_get-set_other k l v [] h = dict_get_behind (◌==◌) l k v [] (==-ne l k h)
  dict_get-set_other k l v ((j, w) ∷ d) h = elim (Bool-cases (k == j)) [
    | inl e ↦
        let apart = ==-ne l j (λ same. h (same ∙ sym (==-eq k j e))) in
        ap (dict_get (◌==◌) l) (dict_set_head (◌==◌) k j v w d e)
        ∙ dict_get_behind (◌==◌) l j v d apart
        ∙ sym (dict_get_behind (◌==◌) l j w d apart)
    | inr e ↦
        ap (dict_get (◌==◌) l) (dict_set_behind (◌==◌) k j v w d e) ∙ elim (Bool-cases (l == j)) [
          | inl here ↦
              dict_get_head (◌==◌) l j w (dict_set (◌==◌) k v d) here
              ∙ sym (dict_get_head (◌==◌) l j w d here)
          | inr there ↦
              dict_get_behind (◌==◌) l j w (dict_set (◌==◌) k v d) there
              ∙ dict_get-set_other k l v d h
              ∙ sym (dict_get_behind (◌==◌) l j w d there)
        ]
  ]
