-- ===== src/Agent/Action.antt =====
-- The runtime's async functions that return `Result<_, RuntimeError>`: what one returns in a world,
-- and the world that it leaves. The world holds the stores, the provider and the tools.
use seidrum.Base.{◌≡◌, refl, ap, subst, sym}
use seidrum.Error.{Result, ok, err, ok_injective}
use seidrum.Agent.{RuntimeError}

abbrev pub Action : Type 0 → Type 0 → Type 0
Action W A = W → Result RuntimeError A × W

abbrev then :
    {W A B : Type 0} → Result RuntimeError A × W → (A → Action W B) → Result RuntimeError B × W
then (ok a, w) f = f a w
then (err e, w) f = (err e, w)

-- The `?` operator.
infixl 5 ◌>>=◌ ◌>>◌
abbrev pub ◌>>=◌ : {W A B : Type 0} → Action W A → (A → Action W B) → Action W B
m >>= f = λ w. then (m w) f

abbrev pub ◌>>◌ : {W B : Type 0} → Action W (Unit {0}) → Action W B → Action W B
m >> k = m >>= λ _. k

abbrev pub return : {W A : Type 0} → A → Action W A
return a w = (ok a, w)

abbrev pub fail : {W A : Type 0} → RuntimeError → Action W A
fail e w = (err e, w)

-- A read that may fail and changes nothing.
abbrev pub reading : {W A : Type 0} → (W → Result RuntimeError A) → Action W A
reading f w = (f w, w)

-- A call that cannot fail.
abbrev pub calling : {W A : Type 0} → (W → A × W) → Action W A
calling f w = let (a, w') = f w in (ok a, w')

module _ {W A B : Type 0} (P : Result RuntimeError B × W → Type 0) where
  then-rule :
      (o : Result RuntimeError A × W) (f : A → Action W B)
      → ((a : A) (w : W) → o ≡ (ok a, w) → P (f a w))
      → ((e : RuntimeError) (w : W) → o ≡ (err e, w) → P (err e, w))
      → P (then o f)
  then-rule (ok a, w) f good bad = good a w refl
  then-rule (err e, w) f good bad = bad e w refl

  -- What holds after a step that fails and after the continuation of one that succeeds holds after
  -- both.
  pub bind-rule :
      (m : Action W A) (f : A → Action W B) (w : W)
      → ((a : A) (w' : W) → m w ≡ (ok a, w') → P (f a w'))
      → ((e : RuntimeError) (w' : W) → m w ≡ (err e, w') → P (err e, w'))
      → P ((m >>= f) w)
  bind-rule m f w = then-rule (m w) f

module _ {W A : Type 0} where
  then-return :
      (o : Result RuntimeError (Unit {0}) × W) (x y : A) (w' : W)
      → then o (λ u. return x) ≡ (ok y, w')
      → (x ≡ y) × (o ≡ (ok tt, w'))
  then-return (ok u, w) x y w' h =
      (ok_injective (ap (λ o. o.0) h), ap (λ v. (ok tt, v)) (ap (λ o. o.1) h))
  then-return (err e, w) x y w' h = cc

  -- An action that ends by returning `x` has done its work when it succeeds.
  pub return_after :
      (m : Action W (Unit {0})) (x y : A) (w w' : W)
      → (m >> return x) w ≡ (ok y, w')
      → (x ≡ y) × (m w ≡ (ok tt, w'))
  return_after m x y w w' h = then-return (m w) x y w' h

module _ {W A B : Type 0} (P : Result RuntimeError B × W → Type 0) where
  read_then :
      (r : Result RuntimeError A) (k : A → Action W B) (w : W)
      → ((a : A) → r ≡ ok a → P (k a w))
      → ((e : RuntimeError) → r ≡ err e → P (err e, w))
      → P (then (r, w) k)
  read_then (ok a) k w good bad = good a refl
  read_then (err e) k w good bad = bad e refl

  -- `bind-rule` for a read.
  pub reading-rule :
      (f : W → Result RuntimeError A) (k : A → Action W B) (w : W)
      → ((a : A) → f w ≡ ok a → P (k a w))
      → ((e : RuntimeError) → f w ≡ err e → P (err e, w))
      → P ((reading f >>= k) w)
  reading-rule f k w = read_then (f w) k w

module _ {W A B : Type 0} where
  ok_outcome :
      (o : Result RuntimeError A × W) (a : A) (f : A → Action W B)
      → o.0 ≡ ok a
      → ((w' : W) → (b : B) × ((f a w').0 ≡ ok b))
      → (b : B) × ((then o f).0 ≡ ok b)
  ok_outcome (ok a', w) a f h next =
      let (b, good) = next w in (b, subst (λ x. (f x w).0 ≡ ok b) (sym (ok_injective h)) good)
  ok_outcome (err e, w) a f h next = cc

  -- A step that succeeds, and whose continuation does.
  pub ok_rule :
      (m : Action W A) (a : A) (f : A → Action W B) (w : W)
      → (m w).0 ≡ ok a
      → ((w' : W) → (b : B) × ((f a w').0 ≡ ok b))
      → (b : B) × (((m >>= f) w).0 ≡ ok b)
  ok_rule m a f w = ok_outcome (m w) a f
