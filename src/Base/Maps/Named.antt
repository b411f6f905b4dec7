-- ===== src/Base/Maps/Named.antt =====
-- Maps whose keys are names that the values carry.
use mathlib.Core.Path.{◌≡◌, refl, sym, subst, ap, ◌∙◌}
use mathlib.Core.Logic.{◌≢◌, inl, inr}
use mathlib.Core.Bool.{Bool, true, false}
use mathlib.Core.Option.{Option, none, some}
use mathlib.Core.List.{List, [], ◌∷◌, map}
use native.Mathlib.Omega.{arith}
use seidrum.Base.Tests.{Bool-cases}
use seidrum.Base.Lists.{All, All-map, any, find, retain}
use seidrum.Base.Texts.{Text, text_eq, text_eq→eq, text_eq_refl}
use seidrum.Base.Maps.{HashMap, IsKeyed, get, insert, remove, values}

-- `is_some_and`.
abbrev pub holds {ℓ} : {V : Type ℓ} → (V → Bool) → Option V → Bool
holds p none = false
holds p (some v) = p v

-- Maps whose keys are names that the values carry.
module _ {ℓ} {V : Type ℓ} (name : V → Text) where
  abbrev pub IsNamed : HashMap V → Type 0
  IsNamed [] = Unit
  IsNamed ((k, v) ∷ m) = (k ≡ name v) × IsNamed m

  pub insert-IsNamed : (m : HashMap V) (v : V) → IsNamed m → IsNamed (insert m (name v) v)
  unfolding insert
  insert-IsNamed [] v h = (refl, tt)
  insert-IsNamed ((j, w) ∷ m) v h = elim (Bool-cases (text_eq j (name v))) [
    | inl same ↦ rw same (text_eq→eq j (name v) same, h.1)
    | inr other ↦ rw other (h.0, insert-IsNamed m v h.1)
  ]

  pub remove-IsNamed : (m : HashMap V) (k : Text) → IsNamed m → IsNamed (remove m k)
  unfolding remove
  remove-IsNamed [] k h = tt
  remove-IsNamed ((j, w) ∷ m) k h = elim (Bool-cases (text_eq j k)) [
    | inl same ↦ rw same (remove-IsNamed m k h.1)
    | inr other ↦ rw other (h.0, remove-IsNamed m k h.1)
  ]

  pub find-values :
      (m : HashMap V) (k : Text) → IsNamed m → find (λ v. text_eq (name v) k) (values m) ≡ get m k
  unfolding get
  find-values [] k h = refl
  find-values ((j, w) ∷ m) k h = rw (h.0, find-values m k h.1) refl

  -- The names of the values that pass a test.
  abbrev pub names_of : (V → Bool) → HashMap V → List Text
  names_of p m = map name (retain p (values m))

  holds-get-none :
      (p : V → Bool) (m : HashMap V) (k : Text) → get m k ≡ none → holds p (get m k) ≡ false
  holds-get-none p m k h = rw h refl

  named_step :
      (p : V → Bool) (j : Text) (w : V) (m : HashMap V) (k : Text)
      → any (λ n. text_eq n k) (names_of p m) ≡ holds p (get m k)
      → get m j ≡ none
      → j ≡ name w
      → any (λ n. text_eq n k) (names_of p ((j, w) ∷ m)) ≡ holds p (get ((j, w) ∷ m) k)
  unfolding get
  named_step p j w m k ih fresh named = elim (Bool-cases (text_eq j k)) [
    | inl same ↦
        let gone : holds p (get m k) ≡ false =
          holds-get-none p m k (subst (λ t. get m t ≡ none) (text_eq→eq j k same) fresh) in
        let hit : text_eq (name w) k ≡ true = subst (λ t. text_eq t k ≡ true) named same in
        ground arith
    | inr other ↦
        let miss : text_eq (name w) k ≡ false = subst (λ t. text_eq t k ≡ false) named other in
        ground arith
  ]

  pub any-names_of :
      (p : V → Bool) (m : HashMap V) (k : Text)
      → IsKeyed m
      → IsNamed m
      → any (λ n. text_eq n k) (names_of p m) ≡ holds p (get m k)
  unfolding get
  any-names_of p [] k keyed named = refl
  any-names_of p ((j, w) ∷ m) k keyed named =
      named_step p j w m k (any-names_of p m k keyed.1 named.1) keyed.0 named.0

some≢none {ℓ} : {V : Type ℓ} {v : V} → some v ≢ none
some≢none h = cc

-- No text twice.
abbrev pub IsDistinct : List Text → Type 0
IsDistinct [] = Unit
IsDistinct (n ∷ ns) = (any (λ t. text_eq t n) ns ≡ false) × IsDistinct ns

module _ {ℓ} {V : Type ℓ} (name : V → Text) where
  IsDistinct-step :
      (p : V → Bool) (w : V) (m : HashMap V)
      → any (λ n. text_eq n (name w)) (names_of name p m) ≡ false
      → IsDistinct (names_of name p m)
      → IsDistinct (names_of name p ((name w, w) ∷ m))
  IsDistinct-step p w m fresh distinct = elim (Bool-cases (p w)) [
    | inl passes ↦ rw passes (fresh, distinct)
    | inr fails ↦ rw fails distinct
  ]

  pub names_of-IsDistinct :
      (p : V → Bool) (m : HashMap V) → IsKeyed m → IsNamed name m → IsDistinct (names_of name p m)
  names_of-IsDistinct p [] keyed named = tt
  names_of-IsDistinct p ((j, w) ∷ m) keyed named =
      IsDistinct-step p w m
        (any-names_of name p m (name w) keyed.1 named.1
          ∙ ap (holds p) (subst (λ t. get m t ≡ none) named.0 keyed.0))
        (names_of-IsDistinct p m keyed.1 named.1)

  -- Each value is the one under its name.
  pub values_known :
      (m : HashMap V) → IsKeyed m → IsNamed name m → All (λ v. get m (name v) ≡ some v) (values m)
  unfolding get
  values_known [] keyed named = tt
  values_known ((j, w) ∷ m) keyed named = (
    rw (named.0, text_eq_refl (name w)) refl,
    All-map (λ v. get m (name v) ≡ some v) (λ v. get ((j, w) ∷ m) (name v) ≡ some v) (values m)
        (λ v known. elim (Bool-cases (text_eq j (name v))) [
          | inl same ↦ absurd (
              some≢none
                (sym known ∙ subst (λ t. get m t ≡ none) (text_eq→eq j (name v) same) keyed.0))
          | inr other ↦ rw other known
        ])
        (values_known m keyed.1 named.1),
  )
