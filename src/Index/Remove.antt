-- ===== src/Index/Remove.antt =====
-- `remove` of dispatch/subject_index.rs on the entries that a trie stores.
use seidrum.Base.{
  Text, map, retain, retain-append, retain-map, Bool-cases, inl, inr, Bool, true, not, List, [],
  ◌∷◌, ◌≡◌, refl,
}
use seidrum.Index.{
  SubscriptionEntry, TrieNode, Children, Wildcard, node, nil, child, absent, present, has_id,
  is_empty, prune, prune_wildcard, remove, remove_children, remove_wildcard, empty_node,
}
use seidrum.Index.Stored.{
  Filed, file, under, entry, stored, stored_children, stored_wildcard, WellFormed,
  WellFormedChildren, WellFormedWildcard, Fresh,
}

module _ {V : Type 0} where
  abbrev pub other_id : Text → SubscriptionEntry V → Bool
  other_id id e = not (has_id id e)

  -- What is left of filed entries when an id goes.
  abbrev pub without : Text → List (Filed V) → List (Filed V)
  without id = retain (λ f. other_id id (entry f))

  pub is_empty→eq : (n : TrieNode V) → is_empty n ≡ true → n ≡ empty_node
  unfolding is_empty
  is_empty→eq (node [] nil absent []) h = refl
  is_empty→eq (node [] nil absent (e ∷ es)) h = cc
  is_empty→eq (node [] nil (present n) es) h = cc
  is_empty→eq (node [] (child k n cs) w es) h = cc
  is_empty→eq (node (d ∷ ds) c w es) h = cc

  stored-empty : (n : TrieNode V) → is_empty n ≡ true → stored n ≡ []
  unfolding stored stored_children stored_wildcard
  stored-empty n h = rw (is_empty→eq n h)

  without-file :
      (id : Text) (path : List Text) (es : List (SubscriptionEntry V))
      → without id (map (file path) es) ≡ map (file path) (retain (other_id id) es)
  without-file id path es = retain-map (λ f. other_id id (entry f)) (file path) es

  without-under :
      (id k : Text) (fs : List (Filed V))
      → without id (map (under k) fs) ≡ map (under k) (without id fs)
  without-under id k fs = retain-map (λ f. other_id id (entry f)) (under k) fs

  stored-prune : (c : Children V) → stored_children (prune c) ≡ stored_children c
  unfolding prune stored_children
  stored-prune nil = refl
  stored-prune (child k n cs) = elim (Bool-cases (is_empty n)) [
    | inl gone ↦ rw (gone, stored-empty n gone, stored-prune cs)
    | inr kept ↦ rw (kept, stored-prune cs)
  ]

  stored-prune_wildcard : (w : Wildcard V) → stored_wildcard (prune_wildcard w) ≡ stored_wildcard w
  unfolding prune_wildcard stored_wildcard
  stored-prune_wildcard absent = refl
  stored-prune_wildcard (present n) = elim (Bool-cases (is_empty n)) [
    | inl gone ↦ rw (gone, stored-empty n gone)
    | inr kept ↦ rw kept
  ]

  mutual
    unfolding remove remove_children remove_wildcard stored stored_children stored_wildcard

    stored-remove : (id : Text) (n : TrieNode V) → stored (remove id n) ≡ without id (stored n)
    stored-remove id (node s c w t) =
        rw
          (
            stored-prune (remove_children id c),
            stored-prune_wildcard (remove_wildcard id w),
            stored-remove_children id c,
            stored-remove_wildcard id w,
          )
          (simp (retain-append, retain-map))

    stored-remove_children :
        (id : Text) (c : Children V)
        → stored_children (remove_children id c) ≡ without id (stored_children c)
    stored-remove_children id nil = refl
    stored-remove_children id (child k n cs) =
        rw (stored-remove id n, stored-remove_children id cs) (simp (retain-append, retain-map))

    stored-remove_wildcard :
        (id : Text) (w : Wildcard V)
        → stored_wildcard (remove_wildcard id w) ≡ without id (stored_wildcard w)
    stored-remove_wildcard id absent = refl
    stored-remove_wildcard id (present n) = rw (stored-remove id n) (simp retain-map)

  -- Exactly the entries with the id go; the others keep their place.
  pub remove-without : (id : Text) (n : TrieNode V) → stored (remove id n) ≡ without id (stored n)
  remove-without id n = stored-remove id n

  Fresh-prune : (k : Text) (c : Children V) → Fresh k c → Fresh k (prune c)
  unfolding prune
  Fresh-prune k nil h = tt
  Fresh-prune k (child l n cs) h = elim (Bool-cases (is_empty n)) [
    | inl gone ↦ rw gone (Fresh-prune k cs h.1)
    | inr kept ↦ rw kept (h.0, Fresh-prune k cs h.1)
  ]

  prune-WellFormed : (c : Children V) → WellFormedChildren c → WellFormedChildren (prune c)
  unfolding prune
  prune-WellFormed nil h = tt
  prune-WellFormed (child k n cs) (l, fr, wn, wc) = elim (Bool-cases (is_empty n)) [
    | inl gone ↦ rw gone (prune-WellFormed cs wc)
    | inr kept ↦ rw kept (l, Fresh-prune k cs fr, wn, prune-WellFormed cs wc)
  ]

  prune_wildcard-WellFormed :
      (w : Wildcard V) → WellFormedWildcard w → WellFormedWildcard (prune_wildcard w)
  unfolding prune_wildcard
  prune_wildcard-WellFormed absent h = tt
  prune_wildcard-WellFormed (present n) h = elim (Bool-cases (is_empty n)) [
    | inl gone ↦ rw gone tt
    | inr kept ↦ rw kept h
  ]

  Fresh-remove_children :
      (id k : Text) (c : Children V) → Fresh k c → Fresh k (remove_children id c)
  unfolding remove_children
  Fresh-remove_children id k nil h = tt
  Fresh-remove_children id k (child l n cs) h = (h.0, Fresh-remove_children id k cs h.1)

  mutual
    unfolding remove remove_children remove_wildcard

    removed-WellFormed : (id : Text) (n : TrieNode V) → WellFormed n → WellFormed (remove id n)
    removed-WellFormed id (node s c w t) h = (
      prune-WellFormed _ (removed_children-WellFormed id c h.0),
      prune_wildcard-WellFormed _ (removed_wildcard-WellFormed id w h.1),
    )

    removed_children-WellFormed :
        (id : Text) (c : Children V)
        → WellFormedChildren c
        → WellFormedChildren (remove_children id c)
    removed_children-WellFormed id nil h = tt
    removed_children-WellFormed id (child k n cs) (l, fr, wn, wc) = (
      l,
      Fresh-remove_children id k cs fr,
      removed-WellFormed id n wn,
      removed_children-WellFormed id cs wc,
    )

    removed_wildcard-WellFormed :
        (id : Text) (w : Wildcard V)
        → WellFormedWildcard w
        → WellFormedWildcard (remove_wildcard id w)
    removed_wildcard-WellFormed id absent h = tt
    removed_wildcard-WellFormed id (present n) h = removed-WellFormed id n h

  pub remove-WellFormed : (id : Text) (n : TrieNode V) → WellFormed n → WellFormed (remove id n)
  remove-WellFormed id n h = removed-WellFormed id n h
