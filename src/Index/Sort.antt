-- ===== src/Index/Sort.antt =====
-- `slice::sort_by_key`, a stable sort.
use mathlib.Core.List.Perm
use mathlib.Core.List.{Perm}
use seidrum.Base.{
  All, ℕ, zero, suc, take, length, ap, ◌∙◌, ◌≤◌, leb, leb→le, if◌then◌else◌, Bool-cases, inl, inr,
  Bool, ◌≡◌, List, [], ◌∷◌, retain, refl, ◌==◌, arith,
}

module _ {ℓ} {A : Type ℓ} (key : A → ℕ) where
  unfoldable pub insert_sorted : A → List A → List A
  insert_sorted x [] = x ∷ []
  insert_sorted x (y ∷ ys) = if leb (key x) (key y) then x ∷ y ∷ ys else y ∷ insert_sorted x ys

  unfoldable pub sort_by_key : List A → List A
  unfolding insert_sorted
  sort_by_key [] = []
  sort_by_key (x ∷ xs) = insert_sorted x (sort_by_key xs)

  -- Every element comes before those with larger keys.
  abbrev pub AllFrom : ℕ → List A → Type 0
  AllFrom k [] = Unit
  AllFrom k (y ∷ ys) = (k ≤ key y) × AllFrom k ys

  abbrev pub IsSorted : List A → Type 0
  IsSorted [] = Unit
  IsSorted (x ∷ xs) = AllFrom (key x) xs × IsSorted xs

  AllFrom-mono : (m n : ℕ) (xs : List A) → m ≤ n → AllFrom n xs → AllFrom m xs
  AllFrom-mono m n [] h a = tt
  AllFrom-mono m n (x ∷ xs) h a = (omega arith, AllFrom-mono m n xs h a.1)

  AllFrom-insert_sorted :
      (k : ℕ) (x : A) (xs : List A) → k ≤ key x → AllFrom k xs → AllFrom k (insert_sorted x xs)
  unfolding insert_sorted
  AllFrom-insert_sorted k x [] h a = (h, tt)
  AllFrom-insert_sorted k x (y ∷ ys) h a = ground (arith, AllFrom-insert_sorted k x ys)

  insert_sorted-IsSorted : (x : A) (xs : List A) → IsSorted xs → IsSorted (insert_sorted x xs)
  unfolding insert_sorted
  insert_sorted-IsSorted x [] s = (tt, tt)
  insert_sorted-IsSorted x (y ∷ ys) s = elim (Bool-cases (leb (key x) (key y))) [
    | inl below ↦
        rw below (((leb→le _ _ below, AllFrom-mono (key x) (key y) ys (leb→le _ _ below) s.0), s))
    | inr above ↦
        rw above
          (AllFrom-insert_sorted (key y) x ys (ground arith) s.0, insert_sorted-IsSorted x ys s.1)
  ]

  pub sort_by_key-IsSorted : (xs : List A) → IsSorted (sort_by_key xs)
  unfolding sort_by_key
  sort_by_key-IsSorted [] = tt
  sort_by_key-IsSorted (x ∷ xs) = insert_sorted-IsSorted x _ (sort_by_key-IsSorted xs)

  All-insert_sorted :
      (P : A → Type 0) (x : A) (xs : List A) → P x → All P xs → All P (insert_sorted x xs)
  unfolding insert_sorted
  All-insert_sorted P x [] one h = (one, tt)
  All-insert_sorted P x (y ∷ ys) one h = elim (Bool-cases (leb (key x) (key y))) [
    | inl below ↦ rw below (one, h)
    | inr above ↦ rw above (h.0, All-insert_sorted P x ys one h.1)
  ]

  pub All-sort_by_key : (P : A → Type 0) (xs : List A) → All P xs → All P (sort_by_key xs)
  unfolding sort_by_key
  All-sort_by_key P [] h = tt
  All-sort_by_key P (x ∷ xs) h = All-insert_sorted P x _ h.0 (All-sort_by_key P xs h.1)

  insert_sorted-perm : (x : A) (xs : List A) → Perm (insert_sorted x xs) (x ∷ xs)
  unfolding insert_sorted
  insert_sorted-perm x [] = Perm.refl _
  insert_sorted-perm x (y ∷ ys) = elim (Bool-cases (leb (key x) (key y))) [
    | inl below ↦ rw below (Perm.refl _)
    | inr above ↦ rw above (Perm.trans (Perm.cons y (insert_sorted-perm x ys)) (Perm.swap x y ys))
  ]

  pub sort_by_key-perm : (xs : List A) → Perm (sort_by_key xs) xs
  unfolding sort_by_key
  sort_by_key-perm [] = Perm.refl _
  sort_by_key-perm (x ∷ xs) =
      Perm.trans (insert_sorted-perm x _) (Perm.cons x (sort_by_key-perm xs))

  abbrev has_key : ℕ → A → Bool
  has_key k x = key x == k

  retain-insert_sorted :
      (k : ℕ) (x : A) (xs : List A)
      → retain (has_key k) (insert_sorted x xs) ≡ retain (has_key k) (x ∷ xs)
  unfolding insert_sorted
  retain-insert_sorted k x [] = refl
  retain-insert_sorted k x (y ∷ ys) = ground (arith, retain-insert_sorted k x ys)

  -- Elements of one key keep their order.
  pub sort_by_key_stable :
      (k : ℕ) (xs : List A) → retain (has_key k) (sort_by_key xs) ≡ retain (has_key k) xs
  unfolding sort_by_key
  sort_by_key_stable k [] = refl
  sort_by_key_stable k (x ∷ xs) =
      ground (arith, retain-insert_sorted k x (sort_by_key xs), sort_by_key_stable k xs)

  length-insert_sorted : (x : A) (xs : List A) → length (insert_sorted x xs) ≡ suc (length xs)
  unfolding insert_sorted
  length-insert_sorted x [] = refl
  length-insert_sorted x (y ∷ ys) = ground (arith, length-insert_sorted x ys)

  pub length-sort_by_key : (xs : List A) → length (sort_by_key xs) ≡ length xs
  unfolding sort_by_key
  length-sort_by_key [] = refl
  length-sort_by_key (x ∷ xs) =
      length-insert_sorted x (sort_by_key xs) ∙ ap suc (length-sort_by_key xs)

  take-AllFrom : (k n : ℕ) (xs : List A) → AllFrom k xs → AllFrom k (take n xs)
  take-AllFrom k zero xs h = tt
  take-AllFrom k (suc n) [] h = tt
  take-AllFrom k (suc n) (x ∷ xs) h = (h.0, take-AllFrom k n xs h.1)

  pub take-IsSorted : (n : ℕ) (xs : List A) → IsSorted xs → IsSorted (take n xs)
  take-IsSorted zero xs h = tt
  take-IsSorted (suc n) [] h = tt
  take-IsSorted (suc n) (x ∷ xs) h = (take-AllFrom (key x) n xs h.0, take-IsSorted n xs h.1)
