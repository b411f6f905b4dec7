-- ===== src/Base/Texts.antt =====
-- Text as the bytes of its UTF-8, as Rust's `str` compares, measures and splits it.
use Prim.Native.Nat.{ℕ}
use Prim.Native.Char.{code}
use Prim.Native.String.{String}
use mathlib.Core.Path.{◌≡◌, refl, subst, ◌∙◌, ap, ap₂}
use mathlib.Core.Logic.{◌↔◌, inl, inr}
use mathlib.Core.Bool.{Bool, true, false, ◌&&◌, ◌||◌}
use mathlib.Core.List.{List, [], ◌∷◌, ◌++◌}
use native.Mathlib.Omega.{arith}
use seidrum.Base.Tests.{◌==◌, Bool-cases}

abbrev pub Text : Type 0
Text = List ℕ

-- The code points of a literal: its bytes, where it is ASCII.
abbrev pub codes : String → Text
codes String.[] = []
codes (String.◌∷◌ c s) = code c ∷ codes s

unfoldable pub text_eq : Text → Text → Bool
text_eq [] [] = true
text_eq [] (d ∷ t) = false
text_eq (c ∷ s) [] = false
text_eq (c ∷ s) (d ∷ t) = c == d && text_eq s t

pub text_eq→eq : (s t : Text) → text_eq s t ≡ true → s ≡ t
unfolding text_eq
text_eq→eq [] [] h = refl
text_eq→eq [] (d ∷ t) h = cc
text_eq→eq (c ∷ s) [] h = cc
text_eq→eq (c ∷ s) (d ∷ t) h = ground (arith, text_eq→eq s t)

pub text_eq_refl : (s : Text) → text_eq s s ≡ true
unfolding text_eq
text_eq_refl [] = refl
text_eq_refl (c ∷ s) = ground (arith, text_eq_refl s)

pub text_eq_iff : (s t : Text) → (text_eq s t ≡ true) ↔ (s ≡ t)
text_eq_iff s t = (text_eq→eq s t, λ e. subst (λ u. text_eq s u ≡ true) e (text_eq_refl s))

-- `str::starts_with`.
unfoldable pub starts_with : Text → Text → Bool
starts_with [] s = true
starts_with (c ∷ p) [] = false
starts_with (c ∷ p) (d ∷ s) = c == d && starts_with p s

-- `str::contains`.
unfoldable pub contains : Text → Text → Bool
unfolding starts_with
contains p [] = starts_with p []
contains p (d ∷ s) = starts_with p (d ∷ s) || contains p s

pub text_eq-sym : (s t : Text) → text_eq s t ≡ text_eq t s
unfolding text_eq
text_eq-sym [] [] = refl
text_eq-sym [] (d ∷ t) = refl
text_eq-sym (c ∷ s) [] = refl
text_eq-sym (c ∷ s) (d ∷ t) = ground (arith, text_eq-sym s t)

pub text_ne-sym : (s t : Text) → text_eq s t ≡ false → text_eq t s ≡ false
text_ne-sym s t h = text_eq-sym t s ∙ h

-- The first text occurs somewhere in the second.
abbrev pub Occurs : Text → Text → Type 0
Occurs p s = (before : Text) × (after : Text) × (s ≡ before ++ (p ++ after))

starts_with-prefix : (p s : Text) → starts_with p s ≡ true → (after : Text) × (s ≡ p ++ after)
unfolding starts_with
starts_with-prefix [] s h = (s, refl)
starts_with-prefix (c ∷ p) [] h = cc
starts_with-prefix (c ∷ p) (d ∷ s) h =
    let (after, whole) = starts_with-prefix p s (ground arith) in
    let same : d ≡ c = ground arith in (after, ap₂ (λ x xs. x ∷ xs) same whole)

pub starts_with-append : (p after : Text) → starts_with p (p ++ after) ≡ true
unfolding starts_with
starts_with-append [] after = refl
starts_with-append (c ∷ p) after = ground (arith, starts_with-append p after)

pub contains-Occurs : (p s : Text) → contains p s ≡ true → Occurs p s
unfolding contains
contains-Occurs p [] h = let (after, whole) = starts_with-prefix p [] h in ([], after, whole)
contains-Occurs p (d ∷ s) h = elim (Bool-cases (starts_with p (d ∷ s))) [
  | inl here ↦ let (after, whole) = starts_with-prefix p (d ∷ s) here in ([], after, whole)
  | inr later ↦
      let (before, after, whole) = contains-Occurs p s (ground arith) in
      (d ∷ before, after, ap (λ xs. d ∷ xs) whole)
]

contains-around : (p before after : Text) → contains p (before ++ (p ++ after)) ≡ true
unfolding contains
contains-around [] [] [] = unfold starts_with in refl
contains-around [] [] (c ∷ after) = unfold starts_with in refl
contains-around (c ∷ p) [] after = rw (starts_with-append (c ∷ p) after) refl
contains-around p (d ∷ before) after = rw (contains-around p before after) (ground arith)

pub Occurs-contains : (p s : Text) → Occurs p s → contains p s ≡ true
Occurs-contains p s (before, after, whole) = rw whole (contains-around p before after)
