-- ===== src/Subject/Match.antt =====
-- Deciding `Matches`.
use seidrum.Base.{
  Text, text_eq, text_eq→eq, text_eq_refl, Bool, true, false, ◌&&◌, ◌||◌, Bool-cases, inl, inr,
  List, [], ◌∷◌, ◌≡◌, ◌↔◌, refl, sym, subst, arith,
}
use seidrum.Subject.{Matches, ends, takes_rest, takes_one, takes_same, star, rest}

abbrev pub is_end : List Text → Bool
is_end [] = true
is_end (t ∷ ts) = false

unfoldable pub matches : List Text → List Text → Bool
matches [] [] = true
matches [] (t ∷ ts) = false
matches (p ∷ ps) [] = false
matches (p ∷ ps) (t ∷ ts) =
    (text_eq p rest && is_end ps) || ((text_eq p star || text_eq p t) && matches ps ts)

by_rest : (p t : Text) (ps ts : List Text) → p ≡ rest → is_end ps ≡ true → Matches (p ∷ ps) (t ∷ ts)
by_rest p t [] ts e h = subst (λ q. Matches (q ∷ []) (t ∷ ts)) (sym e) takes_rest
by_rest p t (q ∷ ps) ts e h = cc

by_star : (p t : Text) (ps ts : List Text) → p ≡ star → Matches ps ts → Matches (p ∷ ps) (t ∷ ts)
by_star p t ps ts e m = subst (λ q. Matches (q ∷ ps) (t ∷ ts)) (sym e) (takes_one m)

by_same : (p t : Text) (ps ts : List Text) → p ≡ t → Matches ps ts → Matches (p ∷ ps) (t ∷ ts)
by_same p t ps ts e m = subst (λ q. Matches (p ∷ ps) (q ∷ ts)) e (takes_same m)

pub matches→Matches : (ps ts : List Text) → matches ps ts ≡ true → Matches ps ts
unfolding matches
matches→Matches [] [] h = ends
matches→Matches [] (t ∷ ts) h = cc
matches→Matches (p ∷ ps) [] h = cc
matches→Matches (p ∷ ps) (t ∷ ts) h = elim (Bool-cases (text_eq p rest && is_end ps)) [
  | inl e ↦ by_rest p t ps ts (text_eq→eq p rest (ground arith)) (ground arith)
  | inr not_rest ↦ elim (Bool-cases (text_eq p star)) [
    | inl e ↦ by_star p t ps ts (text_eq→eq p star e) (matches→Matches ps ts (ground arith))
    | inr not_star ↦
        by_same p t ps ts (text_eq→eq p t (ground arith)) (matches→Matches ps ts (ground arith))
  ]
]

pub Matches→matches : {ps ts : List Text} → Matches ps ts → matches ps ts ≡ true
unfolding matches
Matches→matches ends = refl
Matches→matches takes_rest = ground (arith, text_eq_refl rest)
Matches→matches (takes_one m) = ground (arith, text_eq_refl star, Matches→matches m)
Matches→matches (takes_same {t = t} m) = ground (arith, text_eq_refl t, Matches→matches m)

pub matches_iff : (ps ts : List Text) → (matches ps ts ≡ true) ↔ Matches ps ts
matches_iff ps ts = (matches→Matches ps ts, Matches→matches)
