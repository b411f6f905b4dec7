-- ===== src/Telegram/Points.antt =====
-- Where `find_split_point` of crates/plugins/seidrum-telegram/src/split.rs cuts.
use seidrum.Base.{
  ℕ, suc, ◌+◌, ◌≤◌, ◌<◌, Text, codes, starts_with, Bool, true, false, Option, none, some, [], ◌∷◌,
  length, ◌≡◌, refl, arith,
}
use seidrum.Telegram.{last_at, rfind, past, split_or, find_split_point}

length-starts_with : (p s : Text) → starts_with p s ≡ true → length p ≤ length s
unfolding starts_with
length-starts_with [] s h = omega arith
length-starts_with (c ∷ p) [] h = cc
length-starts_with (c ∷ p) (d ∷ s) h = ground (arith, length-starts_with p s)

-- A pattern that is found ends within the text.
abbrev Fits : ℕ → ℕ → Option ℕ → Type 0
Fits n m none = Unit
Fits n m (some i) = i + n ≤ m

Fits-last_at :
    (p : Text) (c : ℕ) (s : Text) (here : Bool) (o : Option ℕ)
    → starts_with p (c ∷ s) ≡ here
    → Fits (length p) (length s) o
    → Fits (length p) (suc (length s)) (last_at here o)
Fits-last_at p c s here (some i) e h = omega arith
Fits-last_at p c s true none e h = omega (arith, length-starts_with p (c ∷ s) e)
Fits-last_at p c s false none e h = tt

Fits-rfind : (p s : Text) → Fits (length p) (length s) (rfind p s)
unfolding rfind
Fits-rfind p [] = tt
Fits-rfind p (c ∷ s) = Fits-last_at p c s (starts_with p (c ∷ s)) (rfind p s) refl (Fits-rfind p s)

-- A cut after the pattern, or at a place that is in range, is in range.
split_or_range :
    (o : Option ℕ) (n m lo rest : ℕ)
    → Fits (suc n) m o
    → (0 < rest) × (rest ≤ m)
    → (0 < split_or (past lo o) (suc n) rest) × (split_or (past lo o) (suc n) rest ≤ m)
split_or_range none n m lo rest h r = r
split_or_range (some i) n m lo rest h r = ground arith

pub find_split_point_range :
    (slice : Text) (lo : ℕ)
    → 0 < length slice
    → (0 < find_split_point slice lo) × (find_split_point slice lo ≤ length slice)
unfolding find_split_point
find_split_point_range slice lo h =
    let m = length slice in
    split_or_range (rfind (10 ∷ 10 ∷ []) slice) 1 m lo _ (Fits-rfind (10 ∷ 10 ∷ []) slice) (
      split_or_range (rfind (10 ∷ []) slice) 0 m lo _ (Fits-rfind (10 ∷ []) slice) (
        split_or_range (rfind (codes ". ") slice) 1 m lo _ (Fits-rfind (codes ". ") slice) (
          split_or_range (rfind (codes " ") slice) 0 m lo _ (Fits-rfind (codes " ") slice)
            (h, omega arith))))
