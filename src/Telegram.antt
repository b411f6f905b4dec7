-- ===== src/Telegram.antt =====
-- The splitting of messages, crates/plugins/seidrum-telegram/src/split.rs, on the bytes of UTF-8. The
-- trimming of Unicode white space is a parameter.
pub mod Points
pub mod Plain
use seidrum.Base.{
  ℕ, zero, suc, ◌+◌, ◌/◌, if◌then◌else◌, leb, ltb, ◌==◌, Text, codes, starts_with, Bool, true,
  false, not, ◌&&◌, ◌||◌, Option, none, some, List, [], ◌∷◌, ◌++◌, length, take,
}

-- `str::rfind` of a pattern that is not empty.
abbrev pub last_at : Bool → Option ℕ → Option ℕ
last_at here (some i) = some (suc i)
last_at here none = if here then some 0 else none

unfoldable pub rfind : Text → Text → Option ℕ
rfind p [] = none
rfind p (c ∷ s) = last_at (starts_with p (c ∷ s)) (rfind p s)

-- A place that `rfind` gives, if it lies at `min_split` or behind it.
abbrev pub past : ℕ → Option ℕ → Option ℕ
past min_split none = none
past min_split (some i) = if leb min_split i then some i else none

abbrev pub split_or : Option ℕ → ℕ → ℕ → ℕ
split_or none width rest = rest
split_or (some i) width rest = i + width

unfoldable pub find_split_point : Text → ℕ → ℕ
find_split_point slice min_split = split_or (past min_split (rfind (10 ∷ 10 ∷ []) slice)) 2 (
    split_or (past min_split (rfind (10 ∷ []) slice)) 1 (
      split_or (past min_split (rfind (codes ". ") slice)) 2
        (split_or (past min_split (rfind (codes " ") slice)) 1 (length slice))))

abbrev pub drop : ℕ → Text → Text
drop zero s = s
drop (suc n) [] = []
drop (suc n) (c ∷ s) = drop n s

-- Where a slice may end: at the end of the text, or before a byte that starts a character.
abbrev pub starts_char : Text → Bool
starts_char [] = true
starts_char (b ∷ s) = ltb b 128 || leb 192 b

-- `&text[..n]` and `split_at(n)`, for `n` up to the length; `none` is a panic.
unfoldable pub split_at : ℕ → Text → Option (Text × Text)
split_at n s = if starts_char (drop n s) then some (take n s, drop n s) else none

-- `count_fences`, from a place that is at the start of a line, or within the backticks at one, or
-- elsewhere.
pub data Place : Type 0 where
  line_start elsewhere : Place
  backticks : ℕ → Place

abbrev pub tick : ℕ
tick = 96

abbrev pub fence_of : Place → ℕ
fence_of (backticks n) = if leb 3 n then 1 else 0
fence_of _ = 0

abbrev pub next_place : Place → ℕ → Place
next_place (backticks n) b =
    if b == 10 then line_start else if b == tick then backticks (suc n) else elsewhere
next_place line_start b =
    if b == 10 then line_start else if b == tick then backticks 1 else elsewhere
next_place elsewhere b = if b == 10 then line_start else elsewhere

abbrev pub leaves : Place → ℕ → ℕ
leaves p b = if b == tick then 0 else fence_of p

unfoldable pub fences_from : Place → Text → ℕ
fences_from p [] = fence_of p
fences_from p (b ∷ s) = leaves p b + fences_from (next_place p b) s

abbrev pub count_fences : Text → ℕ
count_fences = fences_from line_start

-- `str::lines`, the last line first; `line` is the part of a line that was read, its last byte first.
abbrev pub reversed : Text → Text → Text
reversed [] acc = acc
reversed (c ∷ s) acc = reversed s (c ∷ acc)

abbrev pub ended : Text → Text
ended [] = []
ended (c ∷ line) = if c == 13 then reversed line [] else reversed (c ∷ line) []

abbrev pub lines_rev : Text → Text → List Text → List Text
lines_rev [] [] acc = acc
lines_rev [] (c ∷ line) acc = reversed (c ∷ line) [] ∷ acc
lines_rev (b ∷ s) line acc =
    if b == 10 then lines_rev s [] (ended line ∷ acc) else lines_rev s (b ∷ line) acc

-- Trimming white space at the start, and at both ends.
pub record Trim : Type 0 where
  pub trim_start : Text → Text
  pub trim : Text → Text

abbrev pub trim_ticks : Text → Text
trim_ticks [] = []
trim_ticks (c ∷ s) = if c == tick then trim_ticks s else c ∷ s

pub data Split : Type 0 where
  chunks : List Text → Split
  panicked out_of_fuel : Split

abbrev pub with_chunk : Text → Split → Split
with_chunk c (chunks cs) = chunks (c ∷ cs)
with_chunk c panicked = panicked
with_chunk c out_of_fuel = out_of_fuel

-- `in_code_fence` and `fence_lang`.
pub record Fence : Type 0 where
  pub inside : Bool
  pub lang : Text

module _ (t : Trim) where
  abbrev pub lang_in : List Text → Text
  lang_in [] = []
  lang_in (line ∷ lines) =
      if starts_with (codes "```") (t.trim_start line)
      then t.trim (trim_ticks (t.trim_start line))
      else lang_in lines

  abbrev pub extract_fence_lang : Text → Text
  extract_fence_lang text = lang_in (lines_rev text [] [])

  abbrev pub toggle : Text → Fence → Fence
  toggle chunk f =
      if f.inside
      then record { inside = false; lang = [] }
      else record { inside = true; lang = extract_fence_lang chunk }

  abbrev pub toggles : ℕ → Text → Fence → Fence
  toggles zero chunk f = f
  toggles (suc n) chunk f = toggles n chunk (toggle chunk f)

  abbrev pub reopened : Fence → Text → Text
  reopened f chunk = if f.inside then codes "```" ++ f.lang ++ (10 ∷ []) ++ chunk else chunk

  abbrev pub is_empty : Text → Bool
  is_empty [] = true
  is_empty (c ∷ s) = false

  abbrev pub closed : Fence → Text → Text → Text
  closed f rest chunk =
      if f.inside && not (is_empty rest) then chunk ++ (10 ∷ codes "```") else chunk

  -- What follows a cut at a split point.
  abbrev pub after_cut : (Text → Fence → Split) → Fence → Option (Text × Text) → Split
  after_cut continue f none = panicked
  after_cut continue f (some (chunk, rest)) =
      let f' = toggles (count_fences chunk) (reopened f chunk) f in
      with_chunk (closed f' rest (reopened f chunk)) (continue rest f')

  abbrev pub after_slice : (Text → Fence → Split) → ℕ → Fence → Text → Option (Text × Text) → Split
  after_slice continue max_len f remaining none = panicked
  after_slice continue max_len f remaining (some (slice, beyond)) =
      after_cut continue f (split_at (find_split_point slice (max_len / 2)) remaining)

  unfoldable pub split_loop : ℕ → ℕ → Text → Fence → Split
  split_loop fuel max_len [] f = chunks []
  split_loop zero max_len (c ∷ s) f = out_of_fuel
  split_loop (suc fuel) max_len (c ∷ s) f =
      if leb (length (c ∷ s)) max_len
      then chunks ((c ∷ s) ∷ [])
      else after_slice (split_loop fuel max_len) max_len f (c ∷ s) (split_at max_len (c ∷ s))

  unfoldable pub split_message : ℕ → Text → ℕ → Split
  split_message fuel [] max_len = chunks ([] ∷ [])
  split_message fuel (c ∷ s) max_len =
      if leb (length (c ∷ s)) max_len
      then chunks ((c ∷ s) ∷ [])
      else split_loop fuel max_len (c ∷ s) (record { inside = false; lang = [] })
