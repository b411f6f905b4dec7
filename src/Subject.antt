-- ===== src/Subject.antt =====
-- Subjects and subject patterns: `str::split('.')` as dispatch/subject_index.rs uses it, and what it
-- means for a pattern of tokens to match the tokens of a subject.
pub mod Split
pub mod Match
use seidrum.Base.{ℕ, Text, codes, if◌then◌else◌, ◌==◌, List, [], ◌∷◌}

-- The wildcard tokens.
abbrev pub star : Text
star = codes "*"

abbrev pub rest : Text
rest = codes ">"

-- A first byte goes in front of the first token.
abbrev pub push_head : ℕ → List Text → List Text
push_head c [] = (c ∷ []) ∷ []
push_head c (t ∷ ts) = (c ∷ t) ∷ ts

-- `subject.split('.').collect()`.
unfoldable pub split : Text → List Text
split [] = [] ∷ []
split (c ∷ s) = let ts = split s in if c == b'.' then [] ∷ ts else push_head c ts

-- `>` takes one or more tokens and ends a pattern, `*` takes one, any other token takes itself.
pub data Matches : List Text → List Text → Type 0 where
  ends : Matches [] []
  takes_rest : {t : Text} {ts : List Text} → Matches (rest ∷ []) (t ∷ ts)
  takes_one : {t : Text} {ps ts : List Text} → Matches ps ts → Matches (star ∷ ps) (t ∷ ts)
  takes_same : {t : Text} {ps ts : List Text} → Matches ps ts → Matches (t ∷ ps) (t ∷ ts)
