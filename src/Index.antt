-- ===== src/Index.antt =====
-- The subject index: crates/core/seidrum-eventbus/src/dispatch/subject_index.rs. A trie over the
-- tokens of subject patterns. The map of children is an association list; the code never depends on
-- the order in which a `HashMap` is walked, except in the order of `list` and of `find_by_id`.
pub mod Sort
pub mod Stored
pub mod Collect
pub mod Insert
pub mod Remove
pub mod Pruned
pub mod Contract
pub mod Ties
use seidrum.Base.{
  ℕ, ◌+◌, ◌-◌, ◌==◌, ltb, if◌then◌else◌, Text, text_eq, length, retain, any, find, Bool, true,
  false, not, ◌&&◌, ◌||◌, Option, none, some, List, [], ◌∷◌, ◌++◌, leb,
}
use seidrum.Error.{
  Result, ok, err, EventBusError, invalid_subject, too_deep, empty_token, misplaced_rest,
}
use seidrum.Subject.{split, star, rest}
use seidrum.Filter.{EventFilter}
use seidrum.Channel.{ChannelConfig}
use Sort.{sort_by_key}

pub data SubscriptionMode : Type 0 where
  sync async : SubscriptionMode

-- `timeout` is in milliseconds.
pub record SubscriptionEntry (V : Type 0) : Type 0 where
  pub id : Text
  pub subject_pattern : Text
  pub priority : ℕ
  pub mode : SubscriptionMode
  pub channel : ChannelConfig V
  pub timeout : ℕ
  pub filter : Option (EventFilter V)

-- `node subscriptions children wildcard terminal_wildcard`.
mutual
  pub data TrieNode (V : Type 0) : Type 0 where
    node :
        List (SubscriptionEntry V)
        → Children V
        → Wildcard V
        → List (SubscriptionEntry V)
        → TrieNode V

  pub data Children (V : Type 0) : Type 0 where
    nil : Children V
    child : Text → TrieNode V → Children V → Children V

  pub data Wildcard (V : Type 0) : Type 0 where
    absent : Wildcard V
    present : TrieNode V → Wildcard V

pub record SubjectIndex (V : Type 0) : Type 0 where
  pub root : TrieNode V

abbrev pub max_subject_depth : ℕ
max_subject_depth = 256

-- The scan for a `>` that is not the last of `n` tokens, from position `i`.
unfoldable pub misplaced : ℕ → ℕ → List Text → Bool
misplaced n i [] = false
misplaced n i (token ∷ tokens) =
    if text_eq token rest && not (i == n - 1) then true else misplaced n (i + 1) tokens

abbrev pub is_nil : Text → Bool
is_nil [] = true
is_nil (c ∷ s) = false

module _ {V : Type 0} where
  abbrev pub empty_node : TrieNode V
  empty_node = node [] nil absent []

  unfoldable pub is_empty : TrieNode V → Bool
  is_empty (node [] nil absent []) = true
  is_empty _ = false

  abbrev pub new : SubjectIndex V
  new = record { root = empty_node }

  abbrev pub has_id : Text → SubscriptionEntry V → Bool
  has_id id e = text_eq e.id id

  abbrev pub get_or_new : Wildcard V → TrieNode V
  get_or_new absent = empty_node
  get_or_new (present n) = n

  -- `children.entry(token).or_insert_with(TrieNode::new)`, updated in place.
  unfoldable pub update_child : Text → (TrieNode V → TrieNode V) → Children V → Children V
  update_child k f nil = child k (f empty_node) nil
  update_child k f (child l n cs) =
      if text_eq l k then child l (f n) cs else child l n (update_child k f cs)

  -- `children.get(token)`.
  unfoldable pub get_child : Text → Children V → Wildcard V
  get_child k nil = absent
  get_child k (child l n cs) = if text_eq l k then present n else get_child k cs

  -- `insert`, on the tokens that are left.
  unfoldable pub insert : List Text → SubscriptionEntry V → TrieNode V → TrieNode V
  unfolding update_child
  insert [] e (node s c w t) = node (s ++ e ∷ []) c w t
  insert (token ∷ tokens) e (node s c w t) =
      let below = present (insert tokens e (get_or_new w)) in
      let literal = update_child token (insert tokens e) c in
      if text_eq token rest
      then node s c w (t ++ e ∷ [])
      else if text_eq token star
      then node s c below t
      else node s literal w t

  unfoldable pub subscribe :
      SubscriptionEntry V → SubjectIndex V → Result EventBusError (SubjectIndex V)
  unfolding misplaced
  subscribe e index =
      let tokens = split e.subject_pattern in
      if ltb max_subject_depth (length tokens)
      then err (invalid_subject too_deep)
      else if any is_nil tokens
      then err (invalid_subject empty_token)
      else if misplaced (length tokens) 0 tokens
      then err (invalid_subject misplaced_rest)
      else ok (record { root = insert tokens e index.root })

  -- `children.retain(|_, child| !child.is_empty())`.
  unfoldable pub prune : Children V → Children V
  unfolding is_empty
  prune nil = nil
  prune (child k n cs) = if is_empty n then prune cs else child k n (prune cs)

  unfoldable pub prune_wildcard : Wildcard V → Wildcard V
  unfolding is_empty
  prune_wildcard absent = absent
  prune_wildcard (present n) = if is_empty n then absent else present n

  unfoldable mutual
    unfolding prune prune_wildcard

    pub remove : Text → TrieNode V → TrieNode V
    remove id (node s c w t) =
        node (retain (λ e. not (has_id id e)) s) (prune (remove_children id c))
          (prune_wildcard (remove_wildcard id w)) (retain (λ e. not (has_id id e)) t)

    pub remove_children : Text → Children V → Children V
    remove_children id nil = nil
    remove_children id (child k n cs) = child k (remove id n) (remove_children id cs)

    pub remove_wildcard : Text → Wildcard V → Wildcard V
    remove_wildcard id absent = absent
    remove_wildcard id (present n) = present (remove id n)

  unfoldable pub unsubscribe : Text → SubjectIndex V → SubjectIndex V
  unfolding remove remove_children remove_wildcard
  unsubscribe id index = record { root = remove id index.root }

  abbrev pub visit {ℓ} : {A : Type ℓ} → (TrieNode V → List A) → Wildcard V → List A
  visit f absent = []
  visit f (present n) = f n

  -- `collect`, on the tokens that are left: what it appends to the results.
  unfoldable pub collect : List Text → TrieNode V → List (SubscriptionEntry V)
  unfolding get_child
  collect [] (node s c w t) = s
  collect (token ∷ tokens) (node s c w t) =
      t ++ (visit (collect tokens) (get_child token c) ++ visit (collect tokens) w)

  unfoldable pub lookup : Text → SubjectIndex V → List (SubscriptionEntry V)
  unfolding collect
  lookup subject index = sort_by_key (λ e. e.priority) (collect (split subject) index.root)

  abbrev pub wanted : Option Text → SubscriptionEntry V → Bool
  wanted none e = true
  wanted (some pattern) e = text_eq e.subject_pattern pattern

  unfoldable mutual
    pub collect_all : Option Text → TrieNode V → List (SubscriptionEntry V)
    collect_all filter (node s c w t) =
        retain (wanted filter) s
        ++ (retain (wanted filter) t
            ++ (collect_all_children filter c ++ collect_all_wildcard filter w))

    pub collect_all_children : Option Text → Children V → List (SubscriptionEntry V)
    collect_all_children filter nil = []
    collect_all_children filter (child k n cs) =
        collect_all filter n ++ collect_all_children filter cs

    pub collect_all_wildcard : Option Text → Wildcard V → List (SubscriptionEntry V)
    collect_all_wildcard filter absent = []
    collect_all_wildcard filter (present n) = collect_all filter n

  unfoldable pub list : Option Text → SubjectIndex V → List (SubscriptionEntry V)
  unfolding collect_all collect_all_children collect_all_wildcard
  list filter index = collect_all filter index.root

  -- The first that is found.
  abbrev pub or_else :
      Option (SubscriptionEntry V) → Option (SubscriptionEntry V) → Option (SubscriptionEntry V)
  or_else none o = o
  or_else (some e) o = some e

  unfoldable mutual
    pub find_in_node : Text → TrieNode V → Option (SubscriptionEntry V)
    find_in_node id (node s c w t) =
        or_else (find (has_id id) s)
          (or_else (find (has_id id) t) (or_else (find_in_children id c) (find_in_wildcard id w)))

    pub find_in_children : Text → Children V → Option (SubscriptionEntry V)
    find_in_children id nil = none
    find_in_children id (child k n cs) = or_else (find_in_node id n) (find_in_children id cs)

    pub find_in_wildcard : Text → Wildcard V → Option (SubscriptionEntry V)
    find_in_wildcard id absent = none
    find_in_wildcard id (present n) = find_in_node id n

  unfoldable pub find_by_id : Text → SubjectIndex V → Option (SubscriptionEntry V)
  unfolding find_in_node find_in_children find_in_wildcard
  find_by_id id index = find_in_node id index.root
