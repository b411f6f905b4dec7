-- ===== src/Scope.antt =====
-- The resolution of scopes, crates/core/seidrum-kernel/src/scope/service.rs. The database and its JSON
-- documents are parameters; a set is the list of its elements, and `to_visit` has its last element
-- first.
pub mod Reach
pub mod Ends
use seidrum.Base.{
  ℕ, zero, suc, ◌+◌, if◌then◌else◌, Text, codes, text_eq, Bool, true, false, Option, none, some,
  List, [], ◌∷◌, ◌++◌, any, length, map, contains,
}
use seidrum.Error.{Result, ok, err}

-- What the code calls of ArangoDB and serde_json.
pub record ScopeStore (V E : Type 0) : Type 0 where
  pub get_document : Text → Result E (Option V)
  pub get : V → Text → Option V
  pub as_str : V → Option Text
  pub as_array : V → Option (List V)

-- `HashSet::contains` and `insert`.
abbrev pub member : List Text → Text → Bool
member xs v = any (λ x. text_eq x v) xs

abbrev pub insert : Text → List Text → List Text
insert v xs = if member xs v then xs else v ∷ xs

pub record ResolvedScopes : Type 0 where
  pub allowed : List Text
  pub primary : Text

pub record Walk : Type 0 where
  pub visited : List Text
  pub allowed : List Text
  pub to_visit : List Text

-- `push` of each in turn.
unfoldable pub push_each : List Text → List Text → List Text
push_each [] stack = stack
push_each (x ∷ xs) stack = push_each xs (x ∷ stack)

abbrev pub start : Text → List Text → Walk
start primary additional = record {
  visited = [];
  allowed = [];
  to_visit = push_each additional (primary ∷ []);
}

abbrev pub resolved : Text → Option Walk → Option ResolvedScopes
resolved primary none = none
resolved primary (some s) =
    some (record { allowed = insert (codes "scope_root") s.allowed; primary = primary })

module _ {V E : Type 0} (db : ScopeStore V E) where
  abbrev field : Option V → Text → Option V
  field none key = none
  field (some v) key = db.get v key

  abbrev text_of : Option V → Option Text
  text_of none = none
  text_of (some v) = db.as_str v

  abbrev items_of : Option V → List V
  items_of none = []
  items_of (some v) = elim (db.as_array v) [ none ↦ [] | some vs ↦ vs ]

  abbrev parent_of : Option Text → List Text
  parent_of none = []
  parent_of (some []) = []
  parent_of (some (c ∷ s)) = (c ∷ s) ∷ []

  abbrev texts : List V → List Text
  texts [] = []
  texts (v ∷ vs) = elim (db.as_str v) [ none ↦ texts vs | some s ↦ s ∷ texts vs ]

  -- What a document adds to `to_visit`: its parent, then the scopes that it may read.
  abbrev doc_links : V → List Text
  doc_links doc =
      parent_of (text_of (db.get doc (codes "parent_scope")))
      ++ texts (items_of (field (db.get doc (codes "access_rules")) (codes "cross_scope_read")))

  abbrev fetched : Result E (Option V) → List Text
  fetched (ok (some doc)) = doc_links doc
  fetched (ok none) = []
  fetched (err e) = []

  unfoldable pub links : Text → List Text
  links key = fetched (db.get_document key)

  -- The body of the `while` loop, after `key` was popped.
  unfoldable pub visit : Text → List Text → Walk → Walk
  visit key rest s = if member s.visited key then record s { to_visit = rest } else record {
    visited = insert key s.visited;
    allowed = insert key s.allowed;
    to_visit = push_each (links key) rest;
  }

  -- `none` is a walk that has run out of fuel.
  unfoldable pub walk : ℕ → List Text → Walk → Option Walk
  walk fuel [] s = some s
  walk zero (key ∷ rest) s = none
  walk (suc fuel) (key ∷ rest) s = walk fuel (visit key rest s).to_visit (visit key rest s)

  unfoldable pub resolve_scopes : ℕ → Text → List Text → Option ResolvedScopes
  resolve_scopes fuel primary additional =
      resolved primary (walk fuel (start primary additional).to_visit (start primary additional))

-- The id of a scope as the queries bind it.
abbrev pub scope_id : Text → Text
scope_id s = if contains (codes "/") s then s else codes "scopes/" ++ s

unfoldable pub scope_ids : List Text → List Text
scope_ids = map scope_id
