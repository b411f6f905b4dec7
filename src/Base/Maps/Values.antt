-- ===== src/Base/Maps/Values.antt =====
-- How many entries a map has, and what holds of its values.
use Prim.Native.Nat.{◌+◌, ◌≤◌, ◌<◌}
use mathlib.Core.Path.{◌≡◌, subst}
use mathlib.Core.Logic.{inl, inr}
use mathlib.Core.Bool.{Bool, true}
use mathlib.Core.Option.{some}
use mathlib.Core.List.{[], ◌∷◌}
use native.Mathlib.Omega.{arith}
use seidrum.Base.Tests.{Bool-cases}
use seidrum.Base.Lists.{length, any, retain}
use seidrum.Base.Texts.{Text, text_eq}
use seidrum.Base.Maps.{HashMap, get, insert, remove}

pub some_injective {ℓ} : {V : Type ℓ} {v w : V} → some v ≡ some w → v ≡ w
some_injective h = cc

module _ {ℓ} {V : Type ℓ} where
  abbrev pub has_key : HashMap V → Text → Bool
  has_key m k = any (λ e. text_eq e.0 k) m

  pub length-insert-le : (m : HashMap V) (k : Text) (v : V) → length (insert m k v) ≤ length m + 1
  unfolding insert
  length-insert-le [] k v = omega arith
  length-insert-le ((j, w) ∷ m) k v = ground (arith, length-insert-le m k v)

  pub length-insert_known :
      (m : HashMap V) (k : Text) (v w : V) → get m k ≡ some w → length (insert m k v) ≡ length m
  unfolding insert get
  length-insert_known [] k v w h = cc
  length-insert_known ((j, u) ∷ m) k v w h = ground (arith, length-insert_known m k v w)

  pub length-remove-le : (m : HashMap V) (k : Text) → length (remove m k) ≤ length m
  unfolding remove
  length-remove-le [] k = omega arith
  length-remove-le ((j, w) ∷ m) k = ground (arith, length-remove-le m k)

  pub length-remove-lt :
      (m : HashMap V) (k : Text) → has_key m k ≡ true → length (remove m k) < length m
  unfolding remove
  length-remove-lt [] k h = cc
  length-remove-lt ((j, w) ∷ m) k h = ground (arith, length-remove-lt m k, length-remove-le m k)

-- What holds of every value.
module _ {ℓ} {V : Type ℓ} (P : V → Type 0) where
  abbrev pub AllValues : HashMap V → Type 0
  AllValues [] = Unit
  AllValues ((k, v) ∷ m) = P v × AllValues m

  pub insert-AllValues :
      (m : HashMap V) (k : Text) (v : V) → P v → AllValues m → AllValues (insert m k v)
  unfolding insert
  insert-AllValues [] k v p h = (p, tt)
  insert-AllValues ((j, w) ∷ m) k v p h = elim (Bool-cases (text_eq j k)) [
    | inl same ↦ rw same (p, h.1)
    | inr other ↦ rw other (h.0, insert-AllValues m k v p h.1)
  ]

  pub remove-AllValues : (m : HashMap V) (k : Text) → AllValues m → AllValues (remove m k)
  unfolding remove
  remove-AllValues [] k h = tt
  remove-AllValues ((j, w) ∷ m) k h = elim (Bool-cases (text_eq j k)) [
    | inl same ↦ rw same (remove-AllValues m k h.1)
    | inr other ↦ rw other (h.0, remove-AllValues m k h.1)
  ]

  pub retain-AllValues :
      (q : Text × V → Bool) (m : HashMap V) → AllValues m → AllValues (retain q m)
  retain-AllValues q [] h = tt
  retain-AllValues q (e ∷ m) h = elim (Bool-cases (q e)) [
    | inl kept ↦ rw kept (h.0, retain-AllValues q m h.1)
    | inr left ↦ rw left (retain-AllValues q m h.1)
  ]

  pub get-AllValues : (m : HashMap V) (k : Text) (v : V) → AllValues m → get m k ≡ some v → P v
  unfolding get
  get-AllValues [] k v h e = cc
  get-AllValues ((j, w) ∷ m) k v h e = elim (Bool-cases (text_eq j k)) [
    | inl same ↦ subst P (some_injective (rw same at e)) h.0
    | inr other ↦ get-AllValues m k v h.1 (rw other at e)
  ]
