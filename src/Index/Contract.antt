-- ===== src/Index/Contract.antt =====
-- The index of dispatch/subject_index.rs as its callers see it: a collection of subscriptions.
use mathlib.Core.List.Perm
use mathlib.Core.List.{Perm, Mem}
use seidrum.Base.{
  ◌≤◌, Text, length, map, retain, retain-perm, retain-map, any, find, find-none-retain,
  retain-find-none, find-mem, find-holds, perm_eq_nil, text_eq→eq, ◌↔◌, Bool, false, Option, none,
  some, List, [], ◌∷◌, ◌≡◌, refl, ap, arith, sym, subst, ◌∙◌,
}
use seidrum.Error.{ok}
use seidrum.Subject.{split}
use seidrum.Subject.Match.{matches}
use seidrum.Index.{
  SubscriptionEntry, SubjectIndex, new, subscribe, unsubscribe, lookup, list, find_by_id, wanted,
  has_id, is_nil, max_subject_depth, empty_node, insert,
}
use seidrum.Index.Sort.{IsSorted, sort_by_key-IsSorted, sort_by_key-perm}
use seidrum.Index.Stored.{
  Filed, entry, entries, stored, stored_children, stored_wildcard, WellFormed, list-entries,
  find_by_id-entries,
}
use seidrum.Index.Collect.{matching, selected, collect-selected}
use seidrum.Index.Insert.{
  IsPattern, misplaced-IsPattern, IsPattern-misplaced, insert-WellFormed, insert-adds,
}
use seidrum.Index.Remove.{other_id, remove-without, remove-WellFormed}
use seidrum.Index.Pruned.{IsPruned, insert-IsPruned, remove-IsPruned, empty-stored_new}

-- The patterns that `subscribe` takes: at most 256 tokens, none empty, `>` only at the end.
pub record Accepted (pattern : Text) : Type 0 where
  pub depth : length (split pattern) ≤ max_subject_depth
  pub no_empty : any is_nil (split pattern) ≡ false
  pub rest_last : IsPattern (split pattern)

module _ {V : Type 0} where
  abbrev pub filed : SubscriptionEntry V → Filed V
  filed e = (split e.subject_pattern, e)

  -- The index holds these subscriptions, each under the tokens of its pattern.
  pub record Represents (index : SubjectIndex V) (subs : List (SubscriptionEntry V)) : Type 0 where
    pub well_formed : WellFormed index.root
    pub pruned : IsPruned index.root
    pub holds : Perm (stored index.root) (map filed subs)

  pub new-Represents : Represents new []
  unfolding stored stored_children stored_wildcard
  new-Represents = record { well_formed = (tt, tt); pruned = (tt, tt); holds = Perm.nil }

  abbrev pub inserted : SubscriptionEntry V → SubjectIndex V → SubjectIndex V
  inserted e index = record { root = insert (split e.subject_pattern) e index.root }

  subscribe-Accepted :
      (e : SubscriptionEntry V) (index : SubjectIndex V)
      → Accepted e.subject_pattern
      → subscribe e index ≡ ok (inserted e index)
  unfolding subscribe
  subscribe-Accepted e index a =
      ground
        (arith, IsPattern-misplaced (length (split e.subject_pattern)) 0 (split e.subject_pattern))

  pub subscribe_inv :
      (e : SubscriptionEntry V) (index index' : SubjectIndex V)
      → subscribe e index ≡ ok index'
      → Accepted e.subject_pattern × (index' ≡ inserted e index)
  unfolding subscribe
  subscribe_inv e index index' h = (
    record {
      depth = ground arith;
      no_empty = ground arith;
      rest_last =
          misplaced-IsPattern (length (split e.subject_pattern)) 0 (split e.subject_pattern)
            (omega arith) (ground arith);
    },
    ground arith,
  )

  inserted-Represents :
      (e : SubscriptionEntry V) (index : SubjectIndex V) (subs : List (SubscriptionEntry V))
      → IsPattern (split e.subject_pattern)
      → Represents index subs
      → Represents (inserted e index) (e ∷ subs)
  inserted-Represents e index subs p r = record {
    well_formed = insert-WellFormed (split e.subject_pattern) e index.root r.well_formed;
    pruned = insert-IsPruned (split e.subject_pattern) e index.root r.pruned;
    holds =
        Perm.trans (insert-adds (split e.subject_pattern) e index.root p)
          (Perm.cons (filed e) r.holds);
  }

  -- A pattern of at most 256 tokens, none empty, with `>` at most at the end, is always taken, and
  -- is added to what the index represents.
  pub subscribe-adds :
      (e : SubscriptionEntry V) (index : SubjectIndex V) (subs : List (SubscriptionEntry V))
      → Accepted e.subject_pattern
      → Represents index subs
      → (index' : SubjectIndex V) × (subscribe e index ≡ ok index') × Represents index' (e ∷ subs)
  subscribe-adds e index subs a r = (
    inserted e index,
    subscribe-Accepted e index a,
    inserted-Represents e index subs a.rest_last r,
  )

  -- If `subscribe` succeeds, the pattern is accepted and the new index represents the collection
  -- with exactly the new subscription added.
  pub subscribe-Represents :
      (e : SubscriptionEntry V) (index index' : SubjectIndex V) (subs : List (SubscriptionEntry V))
      → subscribe e index ≡ ok index'
      → Represents index subs
      → Accepted e.subject_pattern × Represents index' (e ∷ subs)
  subscribe-Represents e index index' subs h r =
      let (a, same) = subscribe_inv e index index' h in
      (
        a,
        subst (λ i. Represents i (e ∷ subs)) (sym same)
            (inserted-Represents e index subs a.rest_last r),
      )

  -- `unsubscribe` takes from the represented collection the subscriptions with the id and no
  -- others, and leaves no empty node.
  pub unsubscribe-Represents :
      (id : Text) (index : SubjectIndex V) (subs : List (SubscriptionEntry V))
      → Represents index subs
      → Represents (unsubscribe id index) (retain (other_id id) subs)
  unfolding unsubscribe
  unsubscribe-Represents id index subs r = record {
    well_formed = remove-WellFormed id index.root r.well_formed;
    pruned = remove-IsPruned id index.root;
    holds =
        rw
          (
            remove-without id index.root,
            ← retain-map (λ (f : Filed V). other_id id (entry f)) filed subs,
          )
          (retain-perm (λ (f : Filed V). other_id id (entry f)) r.holds);
  }

  -- An index that represents no subscription has the root of a new index: removal leaks no trie
  -- node.
  pub empty-Represents : (index : SubjectIndex V) → Represents index [] → index.root ≡ empty_node
  empty-Represents index r = empty-stored_new index.root r.pruned (Perm.eq-nil r.holds)

  -- The subscriptions that a subject reaches.
  abbrev pub reached : Text → SubscriptionEntry V → Bool
  reached subject e = matches (split e.subject_pattern) (split subject)

  map-entry-filed : (subs : List (SubscriptionEntry V)) → map entry (map filed subs) ≡ subs
  map-entry-filed [] = refl
  map-entry-filed (e ∷ subs) = ap (◌∷◌ e) (map-entry-filed subs)

  entries-perm :
      (index : SubjectIndex V) (subs : List (SubscriptionEntry V))
      → Represents index subs
      → Perm (entries index.root) subs
  unfolding entries
  entries-perm index subs r =
      subst (Perm (map entry (stored index.root))) (map-entry-filed subs) (Perm.map entry r.holds)

  selected-filed :
      (subject : Text) (subs : List (SubscriptionEntry V))
      → selected (split subject) (map filed subs) ≡ retain (reached subject) subs
  selected-filed subject subs =
      ap (map entry) (retain-map (matching (split subject)) filed subs)
      ∙ map-entry-filed (retain (reached subject) subs)

  -- On an index that represents a collection of subscriptions, `lookup` returns exactly those
  -- whose pattern matches the subject, each as often as it is held, sorted by priority.
  pub lookup-reached :
      (subject : Text) (index : SubjectIndex V) (subs : List (SubscriptionEntry V))
      → Represents index subs
      → Perm (lookup subject index) (retain (reached subject) subs)
        × IsSorted (λ e. e.priority) (lookup subject index)
  unfolding lookup
  lookup-reached subject index subs r = (
    Perm.trans (sort_by_key-perm (λ e. e.priority) _) (
        rw
          (collect-selected (split subject) index.root r.well_formed, ← selected-filed subject subs)
          (Perm.map entry (retain-perm (matching (split subject)) r.holds))),
    sort_by_key-IsSorted (λ e. e.priority) _,
  )

  -- On an index that represents a collection, `list` returns exactly its subscriptions with the
  -- pattern asked for, or all of them.
  pub list-wanted :
      (pattern : Option Text) (index : SubjectIndex V) (subs : List (SubscriptionEntry V))
      → Represents index subs
      → Perm (list pattern index) (retain (wanted pattern) subs)
  list-wanted pattern index subs r =
      rw (list-entries pattern index) (retain-perm (wanted pattern) (entries-perm index subs r))

  -- What `find_by_id` returns is held and has the id asked for.
  pub find_by_id-some :
      (id : Text) (index : SubjectIndex V) (subs : List (SubscriptionEntry V))
      (e : SubscriptionEntry V)
      → Represents index subs
      → find_by_id id index ≡ some e
      → Mem e subs × (e.id ≡ id)
  find_by_id-some id index subs e r h =
      let found : find (has_id id) (entries index.root) ≡ some e =
        sym (find_by_id-entries id index) ∙ h in
      (
        Perm.subset (entries-perm index subs r) e
            (find-mem (has_id id) (entries index.root) e found),
        text_eq→eq e.id id (find-holds (has_id id) (entries index.root) e found),
      )

  -- `find_by_id` returns nothing exactly when no held subscription has the id.
  pub find_by_id-none :
      (id : Text) (index : SubjectIndex V) (subs : List (SubscriptionEntry V))
      → Represents index subs
      → (find_by_id id index ≡ none) ↔ (retain (has_id id) subs ≡ [])
  find_by_id-none id index subs r =
      let same : Perm (retain (has_id id) (entries index.root)) (retain (has_id id) subs) =
        retain-perm (has_id id) (entries-perm index subs r) in
      (
        λ h.
            perm_eq_nil
              (find-none-retain (has_id id) (entries index.root)
                (sym (find_by_id-entries id index) ∙ h))
              (Perm.symm same),
        λ h.
            find_by_id-entries id index
            ∙ retain-find-none (has_id id) (entries index.root) (perm_eq_nil h same),
      )
