-- ===== src/Index/Stored.antt =====
-- The entries of a trie with the tokens under which each stands, and which tries are well formed:
-- no child is filed under a wildcard token, and no two under one token.
use seidrum.Base.{
  Text, text_eq, map, find, retain, false, Option, List, [], ◌∷◌, ◌++◌, map-append, ◌≡◌, refl, ap,
  arith, retain-append,
}
use seidrum.Subject.{rest, star}
use seidrum.Index.{
  SubscriptionEntry, TrieNode, Children, Wildcard, node, nil, child, absent, present, SubjectIndex,
  list, collect_all, collect_all_children, collect_all_wildcard, wanted, find_by_id, find_in_node,
  find_in_children, find_in_wildcard, has_id, or_else,
}

abbrev pub IsLiteral : Text → Type 0
IsLiteral k = (text_eq k rest ≡ false) × (text_eq k star ≡ false)

abbrev pub Filed : Type 0 → Type 0
Filed V = List Text × SubscriptionEntry V

module _ {V : Type 0} where
  abbrev pub file : List Text → SubscriptionEntry V → Filed V
  file path e = (path, e)

  abbrev pub under : Text → Filed V → Filed V
  under token (path, e) = (token ∷ path, e)

  unfoldable mutual
    pub stored : TrieNode V → List (Filed V)
    stored (node s c w t) =
        map (file []) s ++ (map (file (rest ∷ [])) t ++ (stored_children c ++ stored_wildcard w))

    pub stored_children : Children V → List (Filed V)
    stored_children nil = []
    stored_children (child k n cs) = map (under k) (stored n) ++ stored_children cs

    pub stored_wildcard : Wildcard V → List (Filed V)
    stored_wildcard absent = []
    stored_wildcard (present n) = map (under star) (stored n)

  abbrev pub entry : Filed V → SubscriptionEntry V
  entry (path, e) = e

  -- The entries alone.
  unfoldable pub entries : TrieNode V → List (SubscriptionEntry V)
  entries n = map entry (stored n)

  abbrev pub Fresh : Text → Children V → Type 0
  Fresh k nil = Unit
  Fresh k (child l n cs) = (text_eq l k ≡ false) × Fresh k cs

  abbrev mutual
    pub WellFormed : TrieNode V → Type 0
    WellFormed (node s c w t) = WellFormedChildren c × WellFormedWildcard w

    pub WellFormedChildren : Children V → Type 0
    WellFormedChildren nil = Unit
    WellFormedChildren (child k n cs) =
        IsLiteral k × Fresh k cs × WellFormed n × WellFormedChildren cs

    pub WellFormedWildcard : Wildcard V → Type 0
    WellFormedWildcard absent = Unit
    WellFormedWildcard (present n) = WellFormed n

  pub map-entry-file :
      (path : List Text) (es : List (SubscriptionEntry V)) → map entry (map (file path) es) ≡ es
  map-entry-file path [] = refl
  map-entry-file path (e ∷ es) = ap (◌∷◌ e) (map-entry-file path es)

  pub map-entry-under :
      (k : Text) (fs : List (Filed V)) → map entry (map (under k) fs) ≡ map entry fs
  map-entry-under k [] = refl
  map-entry-under k (f ∷ fs) = ap (◌∷◌ (entry f)) (map-entry-under k fs)

  pub entries_node :
      (s t : List (SubscriptionEntry V)) (c : Children V) (w : Wildcard V)
      → entries (node s c w t)
        ≡ s ++ (t ++ (map entry (stored_children c) ++ map entry (stored_wildcard w)))
  unfolding entries stored
  entries_node s t c w = simp (map-append, map-entry-file)

  pub entries_child :
      (k : Text) (n : TrieNode V) (cs : Children V)
      → map entry (stored_children (child k n cs)) ≡ entries n ++ map entry (stored_children cs)
  unfolding entries stored_children
  entries_child k n cs = simp (map-append, map-entry-under)

  pub entries_present : (n : TrieNode V) → map entry (stored_wildcard (present n)) ≡ entries n
  unfolding entries stored_wildcard
  entries_present n = map-entry-under star (stored n)

  pub entries_nil : map entry (stored_children nil) ≡ []
  unfolding stored_children
  entries_nil = refl

  entries_absent : map entry (stored_wildcard absent) ≡ []
  unfolding stored_wildcard
  entries_absent = refl

  mutual
    unfolding collect_all collect_all_children collect_all_wildcard

    collect_all-entries :
        (o : Option Text) (n : TrieNode V) → collect_all o n ≡ retain (wanted o) (entries n)
    collect_all-entries o (node s c w t) =
        rw entries_node
          (simp (retain-append, collect_all_children-entries o c, collect_all_wildcard-entries o w))

    collect_all_children-entries :
        (o : Option Text) (c : Children V)
        → collect_all_children o c ≡ retain (wanted o) (map entry (stored_children c))
    collect_all_children-entries o nil = rw entries_nil
    collect_all_children-entries o (child k n cs) =
        rw entries_child
          (simp (retain-append, collect_all-entries o n, collect_all_children-entries o cs))

    collect_all_wildcard-entries :
        (o : Option Text) (w : Wildcard V)
        → collect_all_wildcard o w ≡ retain (wanted o) (map entry (stored_wildcard w))
    collect_all_wildcard-entries o absent = rw entries_absent
    collect_all_wildcard-entries o (present n) = rw entries_present (collect_all-entries o n)

  -- `list` returns the stored entries that it is asked for.
  pub list-entries :
      (o : Option Text) (index : SubjectIndex V)
      → list o index ≡ retain (wanted o) (entries index.root)
  unfolding list
  list-entries o index = collect_all-entries o index.root

  find-append :
      (id : Text) (xs ys : List (SubscriptionEntry V))
      → find (has_id id) (xs ++ ys) ≡ or_else (find (has_id id) xs) (find (has_id id) ys)
  find-append id [] ys = refl
  find-append id (x ∷ xs) ys = ground (arith, find-append id xs ys)

  mutual
    unfolding find_in_node find_in_children find_in_wildcard

    find_in_node-entries :
        (id : Text) (n : TrieNode V) → find_in_node id n ≡ find (has_id id) (entries n)
    find_in_node-entries id (node s c w t) =
        rw entries_node
          (simp (find-append, find_in_children-entries id c, find_in_wildcard-entries id w))

    find_in_children-entries :
        (id : Text) (c : Children V)
        → find_in_children id c ≡ find (has_id id) (map entry (stored_children c))
    find_in_children-entries id nil = rw entries_nil
    find_in_children-entries id (child k n cs) =
        rw entries_child
          (simp (find-append, find_in_node-entries id n, find_in_children-entries id cs))

    find_in_wildcard-entries :
        (id : Text) (w : Wildcard V)
        → find_in_wildcard id w ≡ find (has_id id) (map entry (stored_wildcard w))
    find_in_wildcard-entries id absent = rw entries_absent
    find_in_wildcard-entries id (present n) = rw entries_present (find_in_node-entries id n)

  -- `find_by_id` finds the first stored entry with the id.
  pub find_by_id-entries :
      (id : Text) (index : SubjectIndex V)
      → find_by_id id index ≡ find (has_id id) (entries index.root)
  unfolding find_by_id
  find_by_id-entries id index = find_in_node-entries id index.root
