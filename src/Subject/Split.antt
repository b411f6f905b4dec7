-- ===== src/Subject/Split.antt =====
-- `split` and its inverse `join`.
use seidrum.Subject.{split, push_head}
use seidrum.Base.{
  ℕ, Text, false, ◌==◌, any, Bool-cases, inl, inr, List, [], ◌∷◌, ◌++◌, ◌≡◌, refl, arith,
}

-- The tokens joined by dots.
pub join : List Text → Text
join [] = []
join (t ∷ []) = t
join (t ∷ u ∷ ts) = t ++ b'.' ∷ join (u ∷ ts)

join-push_head : (c : ℕ) (ts : List Text) → join (push_head c ts) ≡ c ∷ join ts
unfolding join
join-push_head c [] = refl
join-push_head c (t ∷ []) = refl
join-push_head c (t ∷ u ∷ ts) = refl

abbrev IsCons : List Text → Type 0
IsCons ts = (u : Text) × (us : List Text) × (ts ≡ u ∷ us)

push_head-IsCons : (c : ℕ) (ts : List Text) → IsCons (push_head c ts)
push_head-IsCons c [] = (_, _, refl)
push_head-IsCons c (t ∷ ts) = (_, _, refl)

split-IsCons : (s : Text) → IsCons (split s)
unfolding split
split-IsCons [] = ([], [], refl)
split-IsCons (c ∷ s) = elim (Bool-cases (c == b'.')) [
  | inl dot ↦ rw dot ([], split s, refl)
  | inr byte ↦ rw byte (push_head-IsCons c (split s))
]

join-nil_cons : (ts : List Text) → IsCons ts → join ([] ∷ ts) ≡ b'.' ∷ join ts
unfolding join
join-nil_cons ts (u, us, e) = rw e

pub join-split : (s : Text) → join (split s) ≡ s
unfolding split
join-split [] = unfold join in refl
join-split (c ∷ s) = elim (Bool-cases (c == b'.')) [
  | inl dot ↦ rw (dot, join-nil_cons (split s) (split-IsCons s), join-split s) (ground arith)
  | inr byte ↦ rw (byte, join-push_head c (split s), join-split s)
]

-- No token holds a dot.
abbrev NoDots : List Text → Type 0
NoDots [] = Unit
NoDots (t ∷ ts) = (any (λ c. c == b'.') t ≡ false) × NoDots ts

push_head-NoDots :
    (c : ℕ) (ts : List Text) → (c == b'.') ≡ false → NoDots ts → NoDots (push_head c ts)
push_head-NoDots c [] h d = ground arith
push_head-NoDots c (t ∷ ts) h d = ground arith

split-NoDots : (s : Text) → NoDots (split s)
unfolding split
split-NoDots [] = (refl, tt)
split-NoDots (c ∷ s) = elim (Bool-cases (c == b'.')) [
  | inl dot ↦ rw dot (refl, split-NoDots s)
  | inr byte ↦ rw byte (push_head-NoDots c (split s) byte (split-NoDots s))
]

-- On tokens without dots `split` undoes `join`.
split-append :
    (t : Text) (s : Text) → any (λ c. c == b'.') t ≡ false → split (t ++ b'.' ∷ s) ≡ t ∷ split s
unfolding split
split-append [] s h = refl
split-append (c ∷ t) s h = ground (arith, split-append t s)

split_token : (t : Text) → any (λ c. c == b'.') t ≡ false → split t ≡ t ∷ []
unfolding split
split_token [] h = refl
split_token (c ∷ t) h = ground (arith, split_token t)

pub split-join : (t : Text) (ts : List Text) → NoDots (t ∷ ts) → split (join (t ∷ ts)) ≡ t ∷ ts
unfolding join
split-join t [] d = split_token t d.0
split-join t (u ∷ ts) d = rw (split-append t (join (u ∷ ts)) d.0, split-join u ts d.1)
