-- ===== src/Base/Perms.antt =====
-- Permutations of lists.
use mathlib.Core.List.Perm
use mathlib.Core.List.{Perm, perm_middle, filter}
use mathlib.Core.Path.{◌≡◌, refl, subst, subst₂}
use mathlib.Core.Logic.{inl, inr}
use seidrum.Base.Tests.{Bool-cases}
use mathlib.Core.Bool.{Bool, not, true, false, false≢true}
use mathlib.Core.List.{List, [], ◌∷◌, ◌++◌}
use native.Mathlib.Omega.{arith}
use seidrum.Base.Lists.{retain}

abbrev is_true : (b : Bool) → Dec (b ≡ true)
is_true true = yes refl
is_true false = no false≢true

module _ {ℓ} {A : Type ℓ} where
  pub adds_left :
      {a : A} (xs xs' rest : List A) → Perm xs' (a ∷ xs) → Perm (xs' ++ rest) (a ∷ (xs ++ rest))
  adds_left xs xs' rest p = Perm.append_right rest p

  pub adds_right :
      {a : A} (xs rest rest' : List A)
      → Perm rest' (a ∷ rest)
      → Perm (xs ++ rest') (a ∷ (xs ++ rest))
  adds_right xs rest rest' p = Perm.trans (Perm.append_left xs p) (perm_middle xs rest)

  retain-filter : (p : A → Bool) (xs : List A) → filter (λ x. is_true (p x)) xs ≡ retain p xs
  retain-filter p [] = refl
  retain-filter p (x ∷ xs) = ground (arith, retain-filter p xs)

  pub retain-perm : (p : A → Bool) {xs ys : List A} → Perm xs ys → Perm (retain p xs) (retain p ys)
  retain-perm p {xs} {ys} h =
      subst₂ Perm (retain-filter p xs) (retain-filter p ys) (Perm.filter (λ x. is_true (p x)) h)

  pub perm_eq_nil : {xs ys : List A} → xs ≡ [] → Perm ys xs → ys ≡ []
  perm_eq_nil {ys} h p = Perm.eq-nil (subst (Perm ys) h p)

-- The elements that satisfy a test and those that do not.
pub split-perm {ℓ} :
    {A : Type ℓ} (p : A → Bool) (xs : List A) → Perm (retain p xs ++ retain (λ x. not (p x)) xs) xs
split-perm p [] = Perm.refl _
split-perm p (x ∷ xs) = elim (Bool-cases (p x)) [
  | inl yes_ ↦ rw yes_ (Perm.cons x (split-perm p xs))
  | inr no_ ↦ rw no_ (Perm.trans (perm_middle (retain p xs) _) (Perm.cons x (split-perm p xs)))
]
