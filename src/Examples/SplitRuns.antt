-- ===== src/Examples/SplitRuns.antt =====
-- The splitting of messages at concrete inputs.
use seidrum.Base.{codes, [], ◌∷◌, ◌++◌, ◌≡◌, refl, arith, starts_with}
use seidrum.Telegram.{
  Trim, chunks, panicked, split_message, split_loop, split_at, find_split_point, rfind, fences_from,
}
use seidrum.Telegram.Plain.{Pieces, split_message-Pieces}

abbrev no_trim : Trim
no_trim = record { trim_start = λ s. s; trim = λ s. s }

split_message-Pieces_example :
    Pieces 5 (codes "one two three") (split_message no_trim 13 (codes "one two three") 5)
split_message-Pieces_example =
    split_message-Pieces no_trim 13 5 (codes "one two three") (omega arith) (ground arith)
      (omega arith)

-- A character of two bytes at the limit.
accent_test : split_message no_trim 9 (codes "abc" ++ 195 ∷ 169 ∷ []) 4 ≡ panicked
unfolding split_message split_loop split_at
accent_test = refl

-- The last chunk of a fenced block does not open its fence again.
fence_test :
    split_message no_trim 15 (codes "```" ++ 10 ∷ codes "abc def" ++ 10 ∷ codes "```") 8
    ≡ chunks (
        (codes "```" ++ 10 ∷ codes "abc " ++ 10 ∷ codes "```")
        ∷ (codes "def" ++ 10 ∷ codes "```")
        ∷ [])
unfolding split_message split_loop split_at find_split_point rfind fences_from starts_with
fence_test = refl
