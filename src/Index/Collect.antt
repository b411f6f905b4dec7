-- ===== src/Index/Collect.antt =====
-- `collect` of dispatch/subject_index.rs against a filter of the entries stored.
use seidrum.Base.{
  Text, text_eq, text_eq→eq, map, retain, retain-append, Bool-cases, inl, inr, Bool, true, false,
  List, [], ◌∷◌, ◌++◌, map-append, ◌≡◌, refl, ap, arith, ◌∙◌, sym, append-nil,
}
use seidrum.Subject.{rest, star}
use seidrum.Subject.Match.{matches}
use seidrum.Index.{
  SubscriptionEntry, TrieNode, Children, Wildcard, node, nil, child, absent, present, get_child,
  collect, visit,
}
use seidrum.Index.Stored.{
  Filed, file, under, stored, stored_children, stored_wildcard, entry, WellFormed,
  WellFormedChildren, WellFormedWildcard, IsLiteral, Fresh,
}

module _ {V : Type 0} where
  abbrev pub matching : List Text → Filed V → Bool
  matching tokens f = matches f.0 tokens

  -- The entries among `fs` whose tokens match.
  abbrev pub selected : List Text → List (Filed V) → List (SubscriptionEntry V)
  selected tokens fs = map entry (retain (matching tokens) fs)

  selected-append :
      (tokens : List Text) (fs gs : List (Filed V))
      → selected tokens (fs ++ gs) ≡ selected tokens fs ++ selected tokens gs
  selected-append tokens fs gs = simp (retain-append, map-append)

  selected-file_yes :
      (tokens path : List Text) (es : List (SubscriptionEntry V))
      → matches path tokens ≡ true
      → selected tokens (map (file path) es) ≡ es
  selected-file_yes tokens path [] h = refl
  selected-file_yes tokens path (e ∷ es) h = rw h (ap (◌∷◌ e) (selected-file_yes tokens path es h))

  selected-file_no :
      (tokens path : List Text) (es : List (SubscriptionEntry V))
      → matches path tokens ≡ false
      → selected tokens (map (file path) es) ≡ []
  selected-file_no tokens path [] h = refl
  selected-file_no tokens path (e ∷ es) h = rw h (selected-file_no tokens path es h)

  selected-under_nil : (k : Text) (fs : List (Filed V)) → selected [] (map (under k) fs) ≡ []
  unfolding matches
  selected-under_nil k [] = refl
  selected-under_nil k (f ∷ fs) = selected-under_nil k fs

  -- Below a star the rest of the subject decides.
  selected-under-star :
      (t : Text) (ts : List Text) (fs : List (Filed V))
      → selected (t ∷ ts) (map (under star) fs) ≡ selected ts fs
  unfolding matches text_eq
  selected-under-star t ts [] = refl
  selected-under-star t ts (f ∷ fs) = ground (arith, selected-under-star t ts fs)

  -- Below the literal that the subject has next, too.
  selected-under_same :
      (k t : Text) (ts : List Text) (fs : List (Filed V))
      → IsLiteral k
      → text_eq k t ≡ true
      → selected (t ∷ ts) (map (under k) fs) ≡ selected ts fs
  unfolding matches
  selected-under_same k t ts [] l h = refl
  selected-under_same k t ts (f ∷ fs) l h = ground (arith, selected-under_same k t ts fs l h)

  selected-under_other :
      (k t : Text) (ts : List Text) (fs : List (Filed V))
      → IsLiteral k
      → text_eq k t ≡ false
      → selected (t ∷ ts) (map (under k) fs) ≡ []
  unfolding matches
  selected-under_other k t ts [] l h = refl
  selected-under_other k t ts (f ∷ fs) l h = ground (arith, selected-under_other k t ts fs l h)

  selected-children_nil : (c : Children V) → selected [] (stored_children c) ≡ []
  unfolding stored_children
  selected-children_nil nil = refl
  selected-children_nil (child k n cs) = rw (
    selected-append [] (map (under k) (stored n)) (stored_children cs),
    selected-under_nil k (stored n),
    selected-children_nil cs,
  )

  selected-wildcard_nil : (w : Wildcard V) → selected [] (stored_wildcard w) ≡ []
  unfolding stored_wildcard
  selected-wildcard_nil absent = refl
  selected-wildcard_nil (present n) = selected-under_nil star (stored n)

  -- A token filed under no key selects nothing.
  selected-children-Fresh :
      (t : Text) (ts : List Text) (c : Children V)
      → WellFormedChildren c
      → Fresh t c
      → selected (t ∷ ts) (stored_children c) ≡ []
  unfolding stored_children
  selected-children-Fresh t ts nil w f = refl
  selected-children-Fresh t ts (child k n cs) (l, fr, wn, wc) f = rw (
    selected-append (t ∷ ts) (map (under k) (stored n)) (stored_children cs),
    selected-under_other k t ts (stored n) l f.0,
    selected-children-Fresh t ts cs wc f.1,
  )

  Fresh-subst : (k t : Text) (c : Children V) → text_eq k t ≡ true → Fresh k c → Fresh t c
  Fresh-subst k t c h f = let e : k ≡ t = text_eq→eq k t h in rw (← e) f

  module _ (ts : List Text)
      (ih : (n : TrieNode V) → WellFormed n → collect ts n ≡ selected ts (stored n)) where
    selected-children :
        (t : Text) (c : Children V)
        → WellFormedChildren c
        → visit (collect ts) (get_child t c) ≡ selected (t ∷ ts) (stored_children c)
    unfolding get_child stored_children
    selected-children t nil w = refl
    selected-children t (child k n cs) (l, fr, wn, wc) = elim (Bool-cases (text_eq k t)) [
      | inl same ↦
          rw
            (
              same,
              selected-append (t ∷ ts) (map (under k) (stored n)) (stored_children cs),
              selected-under_same k t ts (stored n) l same,
              selected-children-Fresh t ts cs wc (Fresh-subst k t cs same fr),
              append-nil,
            )
            (ih n wn)
      | inr other ↦
          rw
            (
              other,
              selected-append (t ∷ ts) (map (under k) (stored n)) (stored_children cs),
              selected-under_other k t ts (stored n) l other,
            )
            (selected-children t cs wc)
    ]

    selected-wildcard :
        (t : Text) (w : Wildcard V)
        → WellFormedWildcard w
        → visit (collect ts) w ≡ selected (t ∷ ts) (stored_wildcard w)
    unfolding stored_wildcard
    selected-wildcard t absent wf = refl
    selected-wildcard t (present n) wf = ih n wf ∙ sym (selected-under-star t ts (stored n))

  -- Of a well-formed trie `collect` gives exactly the stored entries whose tokens match.
  pub collect-selected :
      (tokens : List Text) (n : TrieNode V)
      → WellFormed n
      → collect tokens n ≡ selected tokens (stored n)
  unfolding collect stored
  collect-selected [] (node s c w t) wf =
      let subs = selected-file_yes [] [] s (unfold matches in refl) in
      let rests = selected-file_no [] (rest ∷ []) t (unfold matches in refl) in
      sym (
        selected-append [] (map (file []) s) _
        ∙ simp (retain-append, map-append)
            (rw (subs, rests, selected-children_nil c, selected-wildcard_nil w) (append-nil s)))
  collect-selected (token ∷ tokens) (node s c w t) wf =
      let subs = selected-file_no (token ∷ tokens) [] s (unfold matches in refl) in
      let rests =
        selected-file_yes (token ∷ tokens) (rest ∷ []) t (unfold matches text_eq in refl) in
      sym (
        selected-append (token ∷ tokens) (map (file []) s) _
        ∙ simp (retain-append, map-append)
            (rw (
              subs,
              rests,
              ← selected-children tokens (collect-selected tokens) token c wf.0,
              ← selected-wildcard tokens (collect-selected tokens) token w wf.1,
            )))
