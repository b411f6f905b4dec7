-- ===== src/Base/Maps.antt =====
-- `HashMap` with keys of text, as the list of its entries in the order in which it is iterated over.
pub mod Named
pub mod Values
use Prim.Native.Nat.{◌+◌, ◌≤◌, ◌<◌}
use mathlib.Core.Path.{◌≡◌, refl, sym, subst, ap, ◌∙◌}
use mathlib.Core.Logic.{◌≢◌, inl, inr}
use mathlib.Core.Bool.{Bool, true, false, ◌||◌}
use mathlib.Core.Option.{Option, none, some}
use mathlib.Core.List.{List, [], ◌∷◌, map}
use native.Mathlib.Omega.{arith}
use seidrum.Base.Tests.{if◌then◌else◌, Bool-cases}
use seidrum.Base.Lists.{length, All, All-map, any, find, retain}
use seidrum.Base.Texts.{Text, text_eq, text_eq→eq, text_eq_refl, text_ne-sym}

abbrev pub HashMap {ℓ} : Type ℓ → Type ℓ
HashMap V = List (Text × V)

module _ {ℓ} {V : Type ℓ} where
  unfoldable pub get : HashMap V → Text → Option V
  get [] k = none
  get ((j, v) ∷ m) k = if text_eq j k then some v else get m k

  -- `insert`, and `entry` with what it makes of the value.
  unfoldable pub insert : HashMap V → Text → V → HashMap V
  insert [] k v = (k, v) ∷ []
  insert ((j, w) ∷ m) k v = if text_eq j k then (j, v) ∷ m else (j, w) ∷ insert m k v

  unfoldable pub remove : HashMap V → Text → HashMap V
  remove [] k = []
  remove ((j, w) ∷ m) k = let rest = remove m k in if text_eq j k then rest else (j, w) ∷ rest

  abbrev pub values : HashMap V → List V
  values = map (λ e. e.1)

  -- No key twice.
  abbrev pub IsKeyed : HashMap V → Type ℓ
  IsKeyed [] = Unit
  IsKeyed ((k, v) ∷ m) = (get m k ≡ none) × IsKeyed m

  pub get-insert :
      (m : HashMap V) (k : Text) (v : V) (j : Text)
      → get (insert m k v) j ≡ (if text_eq k j then some v else get m j)
  unfolding get insert
  get-insert [] k v j = refl
  get-insert ((i, w) ∷ m) k v j = ground (
    arith,
    get-insert m k v j,
    text_eq→eq i k,
    text_eq→eq k j,
    text_eq→eq i j,
    text_eq_refl k,
    text_eq_refl j,
  )

  pub get-remove :
      (m : HashMap V) (k j : Text) → get (remove m k) j ≡ (if text_eq k j then none else get m j)
  unfolding get remove
  get-remove [] k j = ground arith
  get-remove ((i, w) ∷ m) k j = ground (
    arith,
    get-remove m k j,
    text_eq→eq i k,
    text_eq→eq k j,
    text_eq→eq i j,
    text_eq_refl k,
    text_eq_refl j,
  )

  pub insert-IsKeyed : (m : HashMap V) (k : Text) (v : V) → IsKeyed m → IsKeyed (insert m k v)
  unfolding get insert
  insert-IsKeyed [] k v h = (refl, tt)
  insert-IsKeyed ((j, w) ∷ m) k v h = elim (Bool-cases (text_eq j k)) [
    | inl same ↦ rw same h
    | inr other ↦ rw other (
      get-insert m k v j ∙ ap (λ t. if t then some v else get m j) (text_ne-sym j k other) ∙ h.0,
      insert-IsKeyed m k v h.1,
    )
  ]

  pub remove-IsKeyed : (m : HashMap V) (k : Text) → IsKeyed m → IsKeyed (remove m k)
  unfolding get remove
  remove-IsKeyed [] k h = tt
  remove-IsKeyed ((j, w) ∷ m) k h = elim (Bool-cases (text_eq j k)) [
    | inl same ↦ rw same (remove-IsKeyed m k h.1)
    | inr other ↦ rw other (
      get-remove m k j ∙ ap (λ t. if t then none else get m j) (text_ne-sym j k other) ∙ h.0,
      remove-IsKeyed m k h.1,
    )
  ]
