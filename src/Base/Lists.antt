-- ===== src/Base/Lists.antt =====
-- Lists measured by native numbers, and the operations of `Vec` that the program uses.
use Prim.Native.Nat.{ℕ, zero, suc, ◌+◌, ◌≤◌, ◌<◌, min}
use mathlib.Core.Path.{◌≡◌, refl, sym, subst, ap, ◌∙◌}
use mathlib.Core.Logic.{inl, inr}
use mathlib.Core.Bool.{Bool, true, false, ◌||◌}
use mathlib.Core.List.{List, [], ◌∷◌, ◌++◌, map, Mem, mem-cons_self, mem-cons_of_mem}
use mathlib.Core.Option.{Option, none, some}
use native.Mathlib.Omega.{arith}
use seidrum.Base.Tests.{if◌then◌else◌, Bool-cases}

module _ {ℓ} {A : Type ℓ} where
  abbrev pub length : List A → ℕ
  length [] = 0
  length (x ∷ xs) = suc (length xs)

  pub length-append : (xs ys : List A) → length (xs ++ ys) ≡ length xs + length ys
  length-append [] ys = omega arith
  length-append (x ∷ xs) ys = omega (arith, length-append xs ys)

  abbrev pub take : ℕ → List A → List A
  take zero xs = []
  take (suc n) [] = []
  take (suc n) (x ∷ xs) = x ∷ take n xs

  -- `Vec::retain`, and `iter().filter(p).cloned().collect()`.
  abbrev pub retain : (A → Bool) → List A → List A
  retain p [] = []
  retain p (x ∷ xs) = if p x then x ∷ retain p xs else retain p xs

  -- `iter().any(p)`.
  abbrev pub any : (A → Bool) → List A → Bool
  any p [] = false
  any p (x ∷ xs) = p x || any p xs

  -- `iter().find(p)`.
  abbrev pub find : (A → Bool) → List A → Option A
  find p [] = none
  find p (x ∷ xs) = if p x then some x else find p xs

  pub retain-append :
      (p : A → Bool) (xs ys : List A) → retain p (xs ++ ys) ≡ retain p xs ++ retain p ys
  retain-append p [] ys = refl
  retain-append p (x ∷ xs) ys = ground (arith, retain-append p xs ys)

  pub length-retain-le : (p : A → Bool) (xs : List A) → length (retain p xs) ≤ length xs
  length-retain-le p [] = omega arith
  length-retain-le p (x ∷ xs) = ground (arith, length-retain-le p xs)

module _ {ℓ κ} {A : Type ℓ} {B : Type κ} where
  pub retain-map :
      (p : B → Bool) (f : A → B) (xs : List A)
      → retain p (map f xs) ≡ map f (retain (λ x. p (f x)) xs)
  retain-map p f [] = refl
  retain-map p f (x ∷ xs) = ground (arith, retain-map p f xs)

  pub map-append-eq_nil : (f : A → B) (xs : List A) (ys : List B) → map f xs ++ ys ≡ [] → xs ≡ []
  map-append-eq_nil f [] ys h = refl
  map-append-eq_nil f (x ∷ xs) ys h = cc

module _ {ℓ} {A : Type ℓ} where
  pub find-none-retain : (p : A → Bool) (xs : List A) → find p xs ≡ none → retain p xs ≡ []
  find-none-retain p [] h = refl
  find-none-retain p (x ∷ xs) h = ground (arith, find-none-retain p xs)

  pub retain-find-none : (p : A → Bool) (xs : List A) → retain p xs ≡ [] → find p xs ≡ none
  retain-find-none p [] h = refl
  retain-find-none p (x ∷ xs) h = ground (arith, retain-find-none p xs)

  pub find-holds : (p : A → Bool) (xs : List A) (y : A) → find p xs ≡ some y → p y ≡ true
  find-holds p [] y h = cc
  find-holds p (x ∷ xs) y h = ground (arith, find-holds p xs y)

  some_inj : {x y : A} → some x ≡ some y → x ≡ y
  some_inj h = cc

  pub find-mem : (p : A → Bool) (xs : List A) (y : A) → find p xs ≡ some y → Mem y xs
  find-mem p [] y h = cc
  find-mem p (x ∷ xs) y h = elim (Bool-cases (p x)) [
    | inl hit ↦ subst (λ z. Mem z (x ∷ xs)) (some_inj (rw hit at h)) mem-cons_self
    | inr miss ↦ mem-cons_of_mem x (find-mem p xs y (rw miss at h))
  ]

-- `Option::map`.
abbrev pub on_some {ℓ κ} : {A : Type ℓ} {B : Type κ} → (A → B) → Option A → Option B
on_some f none = none
on_some f (some a) = some (f a)

-- `Option::filter`.
abbrev pub filtered {ℓ} : {A : Type ℓ} → (A → Bool) → Option A → Option A
filtered p none = none
filtered p (some a) = if p a then some a else none

module _ {κ} {B : Type κ} where
  abbrev pub push_some : Option B → List B → List B
  push_some none ys = ys
  push_some (some y) ys = y ∷ ys

  push_some-append : (o : Option B) (xs ys : List B) → push_some o xs ++ ys ≡ push_some o (xs ++ ys)
  push_some-append none xs ys = refl
  push_some-append (some x) xs ys = refl

module _ {ℓ κ} {A : Type ℓ} {B : Type κ} where
  -- `iter().filter_map(f)`.
  abbrev pub filter_map : (A → Option B) → List A → List B
  filter_map f [] = []
  filter_map f (x ∷ xs) = push_some (f x) (filter_map f xs)

  pub filter_map-append :
      (f : A → Option B) (xs ys : List A)
      → filter_map f (xs ++ ys) ≡ filter_map f xs ++ filter_map f ys
  filter_map-append f [] ys = refl
  filter_map-append f (x ∷ xs) ys =
      ap (push_some (f x)) (filter_map-append f xs ys)
      ∙ sym (push_some-append (f x) (filter_map f xs) (filter_map f ys))

module _ {ℓ κ} {A : Type ℓ} where
  abbrev pub All : (A → Type κ) → List A → Type κ
  All P [] = Unit
  All P (x ∷ xs) = P x × All P xs

  pub All-map : (P Q : A → Type κ) (xs : List A) → ((x : A) → P x → Q x) → All P xs → All Q xs
  All-map P Q [] f h = tt
  All-map P Q (x ∷ xs) f h = (f x h.0, All-map P Q xs f h.1)

  pub All-take : (P : A → Type κ) (n : ℕ) (xs : List A) → All P xs → All P (take n xs)
  All-take P zero xs h = tt
  All-take P (suc n) [] h = tt
  All-take P (suc n) (x ∷ xs) h = (h.0, All-take P n xs h.1)

module _ {A : Type 0} where
  pub All-retain :
      (P : A → Type 0) (p : A → Bool) (xs : List A)
      → All P xs
      → All (λ x. P x × (p x ≡ true)) (retain p xs)
  All-retain P p [] h = tt
  All-retain P p (x ∷ xs) h = elim (Bool-cases (p x)) [
    | inl kept ↦ rw kept ((h.0, kept), All-retain P p xs h.1)
    | inr left ↦ rw left (All-retain P p xs h.1)
  ]

module _ {ℓ} {A : Type ℓ} where
  pub length-take : (n : ℕ) (xs : List A) → length (take n xs) ≡ min n (length xs)
  length-take zero xs = omega arith
  length-take (suc n) [] = omega arith
  length-take (suc n) (x ∷ xs) = omega (arith, length-take n xs)

  pub take_all : (n : ℕ) (xs : List A) → length (take n xs) < n → take n xs ≡ xs
  take_all zero xs h = absurd (omega arith)
  take_all (suc n) [] h = refl
  take_all (suc n) (x ∷ xs) h = ap (λ ys. x ∷ ys) (take_all n xs (omega arith))

pub length-map {ℓ κ} :
    {A : Type ℓ} {B : Type κ} (f : A → B) (xs : List A) → length (map f xs) ≡ length xs
length-map f [] = refl
length-map f (x ∷ xs) = ap suc (length-map f xs)

pub retain-All {ℓ κ} :
    {A : Type ℓ} (P : A → Type κ) (p : A → Bool) (xs : List A)
    → ((x : A) → p x ≡ true → P x)
    → All P (retain p xs)
retain-All P p [] sound = tt
retain-All P p (x ∷ xs) sound = elim (Bool-cases (p x)) [
  | inl yes_ ↦ rw yes_ (sound x yes_, retain-All P p xs sound)
  | inr no_ ↦ rw no_ (retain-All P p xs sound)
]

pub take_rest {ℓ} : {A : Type ℓ} (n : ℕ) (xs : List A) → (rest : List A) × (take n xs ++ rest ≡ xs)
take_rest zero xs = (xs, refl)
take_rest (suc n) [] = ([], refl)
take_rest (suc n) (x ∷ xs) = let (rest, whole) = take_rest n xs in (rest, ap (λ ys. x ∷ ys) whole)
