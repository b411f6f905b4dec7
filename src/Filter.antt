-- ===== src/Filter.antt =====
-- Event filters: `EventFilter` of crates/core/seidrum-eventbus/src/dispatch/filter.rs. The JSON
-- values of serde_json are a type `V` with the operations that the filter calls.
pub mod Meaning
use seidrum.Base.{
  ℕ, ◌+◌, ltb, if◌then◌else◌, Text, contains, Bool, true, false, ◌&&◌, ◌||◌, Option, none, some,
  List, [], ◌∷◌,
}
use seidrum.Subject.{split}

-- What the filter uses of `serde_json::Value`.
pub record Json (V : Type 0) : Type 0 where
  pub from_slice : Text → Option V
  pub get : V → Text → Option V
  pub beq : V → V → Bool
  pub as_string : V → Option Text
  pub to_string : V → Text

mutual
  pub data EventFilter (V : Type 0) : Type 0 where
    field_equals : Text → V → EventFilter V
    field_contains : Text → Text → EventFilter V
    all_of : Filters V → EventFilter V
    any_of : Filters V → EventFilter V

  pub data Filters (V : Type 0) : Type 0 where
    nil : Filters V
    cons : EventFilter V → Filters V → Filters V

abbrev pub max_filter_depth : ℕ
max_filter_depth = 16

module _ {V : Type 0} (j : Json V) where
  -- `current = current.get(segment)?` for each segment.
  pub resolve : V → List Text → Option V
  resolve v [] = some v
  resolve v (segment ∷ path) = elim (j.get v segment) [
    | none ↦ none
    | some next ↦ resolve next path
  ]

  unfoldable pub resolve_path : V → Text → Option V
  unfolding resolve
  resolve_path root path = resolve root (split path)

  unfoldable pub equals_field : V → Text → V → Bool
  unfolding resolve_path
  equals_field root path value = elim (resolve_path root path) [
    | none ↦ false
    | some v ↦ j.beq v value
  ]

  abbrev pub text_of : V → Text
  text_of v = elim (j.as_string v) [ none ↦ j.to_string v | some s ↦ s ]

  unfoldable pub contains_field : V → Text → Text → Bool
  unfolding resolve_path
  contains_field root path substring = elim (resolve_path root path) [
    | none ↦ false
    | some v ↦ contains substring (text_of v)
  ]

  unfoldable mutual
    pub matches_inner : V → ℕ → EventFilter V → Bool
    matches_inner root depth (field_equals path value) =
        if ltb max_filter_depth depth then false else equals_field root path value
    matches_inner root depth (field_contains path substring) =
        if ltb max_filter_depth depth then false else contains_field root path substring
    matches_inner root depth (all_of filters) =
        let all = all_match root (depth + 1) filters in
        if ltb max_filter_depth depth then false else all
    matches_inner root depth (any_of filters) =
        let any = any_match root (depth + 1) filters in
        if ltb max_filter_depth depth then false else any

    pub all_match : V → ℕ → Filters V → Bool
    all_match root depth nil = true
    all_match root depth (cons f fs) = matches_inner root depth f && all_match root depth fs

    pub any_match : V → ℕ → Filters V → Bool
    any_match root depth nil = false
    any_match root depth (cons f fs) = matches_inner root depth f || any_match root depth fs

  -- Payloads that are not JSON pass.
  unfoldable pub matches : EventFilter V → Text → Bool
  unfolding matches_inner all_match any_match
  matches f payload = elim (j.from_slice payload) [
    | none ↦ true
    | some value ↦ matches_inner value 0 f
  ]
