-- ===== src/Index/Insert.antt =====
-- `insert` of dispatch/subject_index.rs on the entries that a trie stores.
use mathlib.Core.List.Perm
use mathlib.Core.List.{Perm, perm_append_singleton}
use seidrum.Base.{
  ℕ, ap, ◌+◌, Text, text_eq, text_eq→eq, text_ne-sym, map, length, Bool-cases, inl, inr, true,
  false, List, [], ◌∷◌, ◌++◌, map-append, ◌≡◌, refl, arith, adds_left, adds_right,
}
use seidrum.Subject.{rest, star}
use seidrum.Index.{
  SubscriptionEntry, TrieNode, Children, Wildcard, node, nil, child, absent, present, get_or_new,
  update_child, insert, misplaced, empty_node,
}
use seidrum.Index.Stored.{
  file, under, stored, stored_children, stored_wildcard, WellFormed, WellFormedChildren,
  WellFormedWildcard, IsLiteral, Fresh,
}

-- `>` stands only at the end.
abbrev pub IsPattern : List Text → Type 0
IsPattern [] = Unit
IsPattern (t ∷ ts) = (text_eq t rest ≡ true → ts ≡ []) × IsPattern ts

-- The scan of `subscribe` accepts patterns only.
pub misplaced-IsPattern :
    (n i : ℕ) (ts : List Text) → i + length ts ≡ n → misplaced n i ts ≡ false → IsPattern ts
unfolding misplaced
misplaced-IsPattern n i [] e h = tt
misplaced-IsPattern n i (t ∷ []) e h = (λ _. refl, tt)
misplaced-IsPattern n i (t ∷ u ∷ ts) e h = (
  λ last. absurd (ground arith),
  misplaced-IsPattern n (i + 1) (u ∷ ts) (omega arith) (ground arith),
)

pub IsPattern-misplaced :
    (n i : ℕ) (ts : List Text) → i + length ts ≡ n → IsPattern ts → misplaced n i ts ≡ false
unfolding misplaced
IsPattern-misplaced n i [] e h = refl
IsPattern-misplaced n i (t ∷ ts) e h = elim (Bool-cases (text_eq t rest)) [
  | inl last ↦ rw (last, h.0 last) (ground (arith, ap length (h.0 last)))
  | inr _ ↦ ground (arith, IsPattern-misplaced n (i + 1) ts)
]

module _ {V : Type 0} where
  Fresh-update_child :
      (l k : Text) (f : TrieNode V → TrieNode V) (c : Children V)
      → text_eq k l ≡ false
      → Fresh l c
      → Fresh l (update_child k f c)
  unfolding update_child
  Fresh-update_child l k f nil ne h = (ne, tt)
  Fresh-update_child l k f (child m n cs) ne h = ground (arith, Fresh-update_child l k f cs)

  update_child-WellFormed :
      (k : Text) (f : TrieNode V → TrieNode V) (c : Children V)
      → IsLiteral k
      → ((n : TrieNode V) → WellFormed n → WellFormed (f n))
      → WellFormedChildren c
      → WellFormedChildren (update_child k f c)
  unfolding update_child
  update_child-WellFormed k f nil l keep w = (l, tt, keep empty_node (tt, tt), tt)
  update_child-WellFormed k f (child m n cs) l keep (lit, fr, wn, wc) =
      elim (Bool-cases (text_eq m k)) [
        | inl same ↦ rw same (lit, fr, keep n wn, wc)
        | inr other ↦ rw other (
          lit,
          Fresh-update_child m k f cs (text_ne-sym m k other) fr,
          wn,
          update_child-WellFormed k f cs l keep wc,
        )
      ]

  get_or_new-WellFormed : (w : Wildcard V) → WellFormedWildcard w → WellFormed (get_or_new w)
  get_or_new-WellFormed absent h = (tt, tt)
  get_or_new-WellFormed (present n) h = h

  pub insert-WellFormed :
      (ts : List Text) (e : SubscriptionEntry V) (n : TrieNode V)
      → WellFormed n
      → WellFormed (insert ts e n)
  unfolding insert
  insert-WellFormed [] e (node s c w t) h = h
  insert-WellFormed (k ∷ ts) e (node s c w t) h = elim (Bool-cases (text_eq k rest)) [
    | inl is_rest ↦ rw is_rest h
    | inr not_rest ↦ elim (Bool-cases (text_eq k star)) [
      | inl is_star ↦
          rw (not_rest, is_star)
            (h.0, insert-WellFormed ts e (get_or_new w) (get_or_new-WellFormed w h.1))
      | inr not_star ↦
          rw (not_rest, not_star)
            (
              update_child-WellFormed k (insert ts e) c (not_rest, not_star)
                  (insert-WellFormed ts e) h.0,
              h.1,
            )
    ]
  ]

  file-last :
      (path : List Text) (es : List (SubscriptionEntry V)) (e : SubscriptionEntry V)
      → Perm (map (file path) (es ++ e ∷ [])) ((path, e) ∷ map (file path) es)
  file-last path es e = rw map-append (perm_append_singleton (path, e) (map (file path) es))

  module _ (ts : List Text) (e : SubscriptionEntry V) (f : TrieNode V → TrieNode V)
      (adds : (n : TrieNode V) → Perm (stored (f n)) ((ts, e) ∷ stored n)) where
    under-adds :
        (k : Text) (n : TrieNode V)
        → Perm (map (under k) (stored (f n))) ((k ∷ ts, e) ∷ map (under k) (stored n))
    under-adds k n = Perm.map (under k) (adds n)

    update_child-adds :
        (k : Text) (c : Children V)
        → Perm (stored_children (update_child k f c)) ((k ∷ ts, e) ∷ stored_children c)
    unfolding update_child stored_children stored stored_wildcard
    update_child-adds k nil = adds_left [] _ [] (under-adds k empty_node)
    update_child-adds k (child m n cs) = elim (Bool-cases (text_eq m k)) [
      | inl same ↦
          let e' : m ≡ k = text_eq→eq m k same in
          rw (same, e') (adds_left _ _ (stored_children cs) (under-adds k n))
      | inr other ↦ rw other (adds_right (map (under m) (stored n)) _ _ (update_child-adds k cs))
    ]

    get_or_new-adds :
        (w : Wildcard V)
        → Perm (stored_wildcard (present (f (get_or_new w)))) ((star ∷ ts, e) ∷ stored_wildcard w)
    unfolding stored_wildcard stored stored_children
    get_or_new-adds absent = under-adds star empty_node
    get_or_new-adds (present n) = under-adds star n

  -- Under a pattern `insert` files one more entry, and nothing else changes.
  pub insert-adds :
      (ts : List Text) (e : SubscriptionEntry V) (n : TrieNode V)
      → IsPattern ts
      → Perm (stored (insert ts e n)) ((ts, e) ∷ stored n)
  unfolding insert stored
  insert-adds [] e (node s c w t) h = adds_left _ _ _ (file-last [] s e)
  insert-adds (k ∷ ts) e (node s c w t) h = elim (Bool-cases (text_eq k rest)) [
    | inl is_rest ↦
        let e' : k ≡ rest = text_eq→eq k rest is_rest in
        rw (is_rest, h.0 is_rest, e')
          (adds_right (map (file []) s) _ _ (adds_left _ _ _ (file-last (rest ∷ []) t e)))
    | inr not_rest ↦ elim (Bool-cases (text_eq k star)) [
      | inl is_star ↦
          let e' : k ≡ star = text_eq→eq k star is_star in
          rw (not_rest, is_star, e')
            (adds_right (map (file []) s) _ _ (
              adds_right (map (file (rest ∷ [])) t) _ _ (
                adds_right (stored_children c) _ _
                  (get_or_new-adds ts e (insert ts e) (λ n. insert-adds ts e n h.1) w))))
      | inr not_star ↦
          rw (not_rest, not_star)
            (adds_right (map (file []) s) _ _ (
              adds_right (map (file (rest ∷ [])) t) _ _ (
                adds_left _ _ (stored_wildcard w)
                  (update_child-adds ts e (insert ts e) (λ n. insert-adds ts e n h.1) k c))))
    ]
  ]
