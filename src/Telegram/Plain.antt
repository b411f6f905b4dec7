-- ===== src/Telegram/Plain.antt =====
-- `split_message` of crates/plugins/seidrum-telegram/src/split.rs on ASCII text without backticks.
use seidrum.Base.{
  ℕ, zero, suc, ◌+◌, ◌≤◌, ◌<◌, ◌/◌, leb, leb→le, ◌==◌, Text, true, false, Bool-cases, some, List,
  [], ◌∷◌, ◌++◌, length, take, append-nil, ◌≡◌, refl, ap, ◌∙◌, inl, inr, arith,
}
use seidrum.Telegram.{
  drop, starts_char, split_at, Place, line_start, elsewhere, backticks, tick, fences_from, Split,
  chunks, with_chunk, Fence, Trim, split_loop, after_cut, find_split_point, split_message,
}
use seidrum.Telegram.Points.{find_split_point_range}

-- ASCII, and no backtick.
abbrev pub IsPlain : Text → Type 0
IsPlain [] = Unit
IsPlain (c ∷ s) = (c < 128) × ((c == tick) ≡ false) × IsPlain s

drop-IsPlain : (n : ℕ) (s : Text) → IsPlain s → IsPlain (drop n s)
drop-IsPlain zero s h = h
drop-IsPlain (suc n) [] h = tt
drop-IsPlain (suc n) (c ∷ s) h = drop-IsPlain n s h.2

take-IsPlain : (n : ℕ) (s : Text) → IsPlain s → IsPlain (take n s)
take-IsPlain zero s h = tt
take-IsPlain (suc n) [] h = tt
take-IsPlain (suc n) (c ∷ s) h = (h.0, h.1, take-IsPlain n s h.2)

starts_char-IsPlain : (s : Text) → IsPlain s → starts_char s ≡ true
starts_char-IsPlain [] h = refl
starts_char-IsPlain (c ∷ s) h = ground (arith, h.0)

split_at-IsPlain : (n : ℕ) (s : Text) → IsPlain s → split_at n s ≡ some (take n s, drop n s)
unfolding split_at
split_at-IsPlain n s h = rw (starts_char-IsPlain (drop n s) (drop-IsPlain n s h)) refl

take-drop : (n : ℕ) (s : Text) → take n s ++ drop n s ≡ s
take-drop zero s = refl
take-drop (suc n) [] = refl
take-drop (suc n) (c ∷ s) = ap (◌∷◌ c) (take-drop n s)

length-take : (n : ℕ) (s : Text) → n ≤ length s → length (take n s) ≡ n
length-take zero s h = refl
length-take (suc n) [] h = absurd (omega arith)
length-take (suc n) (c ∷ s) h = ap suc (length-take n s (omega arith))

length-drop : (n : ℕ) (s : Text) → n ≤ length s → length (drop n s) + n ≡ length s
length-drop zero s h = omega arith
length-drop (suc n) [] h = absurd (omega arith)
length-drop (suc n) (c ∷ s) h = omega (arith, length-drop n s)

abbrev IsOutside : Place → Type 0
IsOutside (backticks n) = ⊥
IsOutside _ = Unit

fences-IsPlain : (p : Place) (s : Text) → IsOutside p → IsPlain s → fences_from p s ≡ 0
unfolding fences_from
fences-IsPlain (backticks n) s o h = absurd o
fences-IsPlain line_start [] o h = refl
fences-IsPlain elsewhere [] o h = refl
fences-IsPlain line_start (c ∷ s) o (small, other, h) = elim (Bool-cases (c == 10)) [
  | inl newline ↦ rw (other, newline) (omega (arith, fences-IsPlain line_start s tt h))
  | inr no_newline ↦ rw (other, no_newline) (omega (arith, fences-IsPlain elsewhere s tt h))
]
fences-IsPlain elsewhere (c ∷ s) o (small, other, h) = elim (Bool-cases (c == 10)) [
  | inl newline ↦ rw (other, newline) (omega (arith, fences-IsPlain line_start s tt h))
  | inr no_newline ↦ rw (other, no_newline) (omega (arith, fences-IsPlain elsewhere s tt h))
]

abbrev pub join_all : List Text → Text
join_all [] = []
join_all (c ∷ cs) = c ++ join_all cs

-- Every chunk has at most so many bytes.
abbrev pub AllWithin : ℕ → List Text → Type 0
AllWithin n [] = Unit
AllWithin n (c ∷ cs) = (length c ≤ n) × AllWithin n cs

abbrev pub Pieces : ℕ → Text → Split → Type 0
Pieces n s o = (cs : List Text) × (o ≡ chunks cs) × (join_all cs ≡ s) × AllWithin n cs

abbrev outside : Fence
outside = record { inside = false; lang = [] }

longer : (n : ℕ) (s : Text) → leb (length s) n ≡ false → n ≤ length s
longer n s h = ground arith

module _ (t : Trim) where
  after_cut-Pieces :
      (continue : Text → Fence → Split) (n k : ℕ) (s : Text)
      → IsPlain s
      → k ≤ n
      → k ≤ length s
      → Pieces n (drop k s) (continue (drop k s) outside)
      → Pieces n s (after_cut t continue outside (split_at k s))
  after_cut-Pieces continue n k s plain short within (cs, is, joined, all) = (
    take k s ∷ cs,
    rw
        (
          split_at-IsPlain k s plain,
          fences-IsPlain line_start (take k s) tt (take-IsPlain k s plain),
        )
        (ap (with_chunk (take k s)) is),
    ap (λ x. take k s ++ x) joined ∙ take-drop k s,
    (omega (arith, length-take k s within), all),
  )

  split_loop-Pieces :
      (fuel n : ℕ) (s : Text)
      → 0 < n
      → IsPlain s
      → length s ≤ fuel
      → Pieces n s (split_loop t fuel n s outside)
  unfolding split_loop
  split_loop-Pieces fuel n [] some_room plain enough = ([], refl, refl, tt)
  split_loop-Pieces zero n (c ∷ s) some_room plain enough = absurd (omega arith)
  split_loop-Pieces (suc fuel) n (c ∷ s) some_room plain enough =
      elim (Bool-cases (leb (length (c ∷ s)) n)) [
        | inl short ↦
            rw short ((c ∷ s) ∷ [], refl, append-nil (c ∷ s), (leb→le (length (c ∷ s)) n short, tt))
        | inr long ↦ rw long (
            let r = c ∷ s in
            let fits = longer n r long in
            let slice = take n r in
            let size = length-take n r fits in
            let (k_pos, k_le) = find_split_point_range slice (n / 2) (omega (arith, size)) in
            let k = find_split_point slice (n / 2) in
            rw (split_at-IsPlain n r plain) (
              after_cut-Pieces (split_loop t fuel n) n k r plain (omega (arith, size))
                (omega (arith, size))
                (split_loop-Pieces fuel n (drop k r) some_room (drop-IsPlain k r plain)
                  (omega (arith, length-drop k r (omega (arith, size)))))))
      ]

  -- On ASCII text without backticks, with a limit of at least one byte and fuel for each byte,
  -- `split_message` returns chunks that join to the text, none longer than the limit.
  pub split_message-Pieces :
      (fuel n : ℕ) (s : Text)
      → 0 < n
      → IsPlain s
      → length s ≤ fuel
      → Pieces n s (split_message t fuel s n)
  unfolding split_message
  split_message-Pieces fuel n [] some_room plain enough = ([] ∷ [], refl, refl, (omega arith, tt))
  split_message-Pieces fuel n (c ∷ s) some_room plain enough =
      elim (Bool-cases (leb (length (c ∷ s)) n)) [
        | inl short ↦
            rw short ((c ∷ s) ∷ [], refl, append-nil (c ∷ s), (leb→le (length (c ∷ s)) n short, tt))
        | inr long ↦ rw long (split_loop-Pieces fuel n (c ∷ s) some_room plain enough)
      ]
