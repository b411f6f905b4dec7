-- ===== src/Index/Pruned.antt =====
-- Empty nodes of the trie of dispatch/subject_index.rs.
use seidrum.Base.{
  Text, text_eq, map, map-append-eq_nil, Bool-cases, inl, inr, true, false, List, [], ◌∷◌, ◌++◌,
  ◌≡◌, refl, sym, ◌∙◌, append_assoc,
}
use seidrum.Subject.{rest, star}
use seidrum.Index.{
  SubscriptionEntry, TrieNode, Children, Wildcard, node, nil, child, absent, present, is_empty,
  prune, prune_wildcard, remove, remove_children, remove_wildcard, empty_node, insert, update_child,
  get_or_new,
}
use seidrum.Index.Stored.{under, stored, stored_children, stored_wildcard}
use seidrum.Index.Remove.{is_empty→eq}

module _ {V : Type 0} where
  abbrev mutual
    pub IsPruned : TrieNode V → Type 0
    IsPruned (node s c w t) = IsPrunedChildren c × IsPrunedWildcard w

    pub IsPrunedChildren : Children V → Type 0
    IsPrunedChildren nil = Unit
    IsPrunedChildren (child k n cs) = (is_empty n ≡ false) × IsPruned n × IsPrunedChildren cs

    pub IsPrunedWildcard : Wildcard V → Type 0
    IsPrunedWildcard absent = Unit
    IsPrunedWildcard (present n) = (is_empty n ≡ false) × IsPruned n

  is_empty_subscribed :
      (s t : List (SubscriptionEntry V)) (e : SubscriptionEntry V) (c : Children V) (w : Wildcard V)
      → is_empty (node (s ++ e ∷ []) c w t) ≡ false
  unfolding is_empty
  is_empty_subscribed [] t e nil absent = refl
  is_empty_subscribed [] t e nil (present n) = refl
  is_empty_subscribed [] t e (child k n cs) w = refl
  is_empty_subscribed (d ∷ s) t e c w = refl

  is_empty_rest :
      (s t : List (SubscriptionEntry V)) (e : SubscriptionEntry V) (c : Children V) (w : Wildcard V)
      → is_empty (node s c w (t ++ e ∷ [])) ≡ false
  unfolding is_empty
  is_empty_rest [] [] e nil absent = refl
  is_empty_rest [] (d ∷ t) e nil absent = refl
  is_empty_rest [] t e nil (present n) = refl
  is_empty_rest [] t e (child k n cs) w = refl
  is_empty_rest (d ∷ s) t e c w = refl

  is_empty_present :
      (s t : List (SubscriptionEntry V)) (c : Children V) (n : TrieNode V)
      → is_empty (node s c (present n) t) ≡ false
  unfolding is_empty
  is_empty_present [] t nil n = refl
  is_empty_present [] t (child k m cs) n = refl
  is_empty_present (d ∷ s) t c n = refl

  is_empty_child :
      (s t : List (SubscriptionEntry V)) (k : Text) (f : TrieNode V → TrieNode V) (c : Children V)
      (w : Wildcard V)
      → is_empty (node s (update_child k f c) w t) ≡ false
  unfolding is_empty update_child
  is_empty_child (d ∷ s) t k f c w = refl
  is_empty_child [] t k f nil w = refl
  is_empty_child [] t k f (child l n cs) w = elim (Bool-cases (text_eq l k)) [
    | inl same ↦ rw same
    | inr other ↦ rw other
  ]

  is_empty-insert :
      (ts : List Text) (e : SubscriptionEntry V) (n : TrieNode V) → is_empty (insert ts e n) ≡ false
  unfolding insert
  is_empty-insert [] e (node s c w t) = is_empty_subscribed s t e c w
  is_empty-insert (k ∷ ts) e (node s c w t) = elim (Bool-cases (text_eq k rest)) [
    | inl is_rest ↦ rw is_rest (is_empty_rest s t e c w)
    | inr not_rest ↦ elim (Bool-cases (text_eq k star)) [
      | inl is_star ↦ rw (not_rest, is_star) (is_empty_present s t c _)
      | inr not_star ↦ rw (not_rest, not_star) (is_empty_child s t k (insert ts e) c w)
    ]
  ]

  get_or_new-IsPruned : (w : Wildcard V) → IsPrunedWildcard w → IsPruned (get_or_new w)
  get_or_new-IsPruned absent h = (tt, tt)
  get_or_new-IsPruned (present n) h = h.1

  update_child-IsPruned :
      (k : Text) (f : TrieNode V → TrieNode V) (c : Children V)
      → ((n : TrieNode V) → IsPruned n → (is_empty (f n) ≡ false) × IsPruned (f n))
      → IsPrunedChildren c
      → IsPrunedChildren (update_child k f c)
  unfolding update_child
  update_child-IsPruned k f nil keep h = let (ne, p) = keep empty_node (tt, tt) in (ne, p, tt)
  update_child-IsPruned k f (child l n cs) keep (ne, p, pc) = elim (Bool-cases (text_eq l k)) [
    | inl same ↦ rw same (let (ne', p') = keep n p in (ne', p', pc))
    | inr other ↦ rw other (ne, p, update_child-IsPruned k f cs keep pc)
  ]

  pub insert-IsPruned :
      (ts : List Text) (e : SubscriptionEntry V) (n : TrieNode V)
      → IsPruned n
      → IsPruned (insert ts e n)
  unfolding insert
  insert-IsPruned [] e (node s c w t) h = h
  insert-IsPruned (k ∷ ts) e (node s c w t) h = elim (Bool-cases (text_eq k rest)) [
    | inl is_rest ↦ rw is_rest h
    | inr not_rest ↦ elim (Bool-cases (text_eq k star)) [
      | inl is_star ↦
          rw (not_rest, is_star)
            (
              h.0,
              (
                is_empty-insert ts e (get_or_new w),
                insert-IsPruned ts e (get_or_new w) (get_or_new-IsPruned w h.1),
              ),
            )
      | inr not_star ↦
          rw (not_rest, not_star)
            (
              update_child-IsPruned k (insert ts e) c
                  (λ n p. (is_empty-insert ts e n, insert-IsPruned ts e n p)) h.0,
              h.1,
            )
    ]
  ]

  -- Before pruning only the nodes below the children are known to be pruned.
  abbrev AllPruned : Children V → Type 0
  AllPruned nil = Unit
  AllPruned (child k n cs) = IsPruned n × AllPruned cs

  abbrev WildcardPruned : Wildcard V → Type 0
  WildcardPruned absent = Unit
  WildcardPruned (present n) = IsPruned n

  prune-IsPruned : (c : Children V) → AllPruned c → IsPrunedChildren (prune c)
  unfolding prune
  prune-IsPruned nil h = tt
  prune-IsPruned (child k n cs) h = elim (Bool-cases (is_empty n)) [
    | inl gone ↦ rw gone (prune-IsPruned cs h.1)
    | inr kept ↦ rw kept (kept, h.0, prune-IsPruned cs h.1)
  ]

  prune_wildcard-IsPruned :
      (w : Wildcard V) → WildcardPruned w → IsPrunedWildcard (prune_wildcard w)
  unfolding prune_wildcard
  prune_wildcard-IsPruned absent h = tt
  prune_wildcard-IsPruned (present n) h = elim (Bool-cases (is_empty n)) [
    | inl gone ↦ rw gone tt
    | inr kept ↦ rw kept (kept, h)
  ]

  mutual
    unfolding remove remove_children remove_wildcard

    removed-IsPruned : (id : Text) (n : TrieNode V) → IsPruned (remove id n)
    removed-IsPruned id (node s c w t) = (
      prune-IsPruned _ (removed-AllPruned id c),
      prune_wildcard-IsPruned _ (removed-Wildcard id w),
    )

    removed-AllPruned : (id : Text) (c : Children V) → AllPruned (remove_children id c)
    removed-AllPruned id nil = tt
    removed-AllPruned id (child k n cs) = (removed-IsPruned id n, removed-AllPruned id cs)

    removed-Wildcard : (id : Text) (w : Wildcard V) → WildcardPruned (remove_wildcard id w)
    removed-Wildcard id absent = tt
    removed-Wildcard id (present n) = removed-IsPruned id n

  -- `remove` leaves no empty node, whatever the trie was.
  pub remove-IsPruned : (id : Text) (n : TrieNode V) → IsPruned (remove id n)
  remove-IsPruned id n = removed-IsPruned id n

  empty-stored : (n : TrieNode V) → IsPruned n → stored n ≡ [] → is_empty n ≡ true
  unfolding stored stored_children stored_wildcard is_empty
  empty-stored (node [] nil absent []) p h = refl
  empty-stored (node [] nil absent (e ∷ t)) p h = cc
  empty-stored (node [] nil (present n) []) p h =
      cc (empty-stored n p.1.1 (map-append-eq_nil (under star) (stored n) [] (h' h)), p.1.0)
    where
      h' : map (under star) (stored n) ≡ [] → map (under star) (stored n) ++ [] ≡ []
      h' e = rw e refl
  empty-stored (node [] nil (present n) (e ∷ t)) p h = cc
  empty-stored (node [] (child k n cs) w []) p h =
      cc (empty-stored n p.0.1 (map-append-eq_nil (under k) (stored n) _ (append-left h)), p.0.0)
    where
      append-left :
          (map (under k) (stored n) ++ stored_children cs) ++ stored_wildcard w ≡ []
          → map (under k) (stored n) ++ (stored_children cs ++ stored_wildcard w) ≡ []
      append-left e = sym (append_assoc (map (under k) (stored n)) _ _) ∙ e
  empty-stored (node [] (child k n cs) w (e ∷ t)) p h = cc
  empty-stored (node (e ∷ s) c w t) p h = cc

  -- A pruned trie that holds nothing is the new trie.
  pub empty-stored_new : (n : TrieNode V) → IsPruned n → stored n ≡ [] → n ≡ empty_node
  empty-stored_new n p h = is_empty→eq n (empty-stored n p h)
