-- ===== src/Filter/Meaning.antt =====
-- What a filter of dispatch/filter.rs means, without the depth limit.
use seidrum.Base.{
  ℕ, ◌+◌, ◌≤◌, max, Text, Bool, true, false, ◌&&◌, ◌||◌, none, some, Option-cases, ◌≡◌, refl, inl,
  inr, arith,
}
use seidrum.Filter.{
  Json, EventFilter, Filters, field_equals, field_contains, all_of, any_of, nil, cons, matches,
  matches_inner, all_match, any_match, equals_field, contains_field, max_filter_depth,
}

module _ {V : Type 0} where
  -- The levels of combinators above the deepest filter.
  unfoldable mutual
    pub height : EventFilter V → ℕ
    height (field_equals path value) = 0
    height (field_contains path substring) = 0
    height (all_of fs) = 1 + heights fs
    height (any_of fs) = 1 + heights fs

    pub heights : Filters V → ℕ
    heights nil = 0
    heights (cons f fs) = max (height f) (heights fs)

module _ {V : Type 0} (j : Json V) where
  mutual
    pub holds : V → EventFilter V → Bool
    holds root (field_equals path value) = equals_field j root path value
    holds root (field_contains path substring) = contains_field j root path substring
    holds root (all_of fs) = all_hold root fs
    holds root (any_of fs) = any_holds root fs

    pub all_hold : V → Filters V → Bool
    all_hold root nil = true
    all_hold root (cons f fs) = holds root f && all_hold root fs

    pub any_holds : V → Filters V → Bool
    any_holds root nil = false
    any_holds root (cons f fs) = holds root f || any_holds root fs

  mutual
    unfolding matches_inner all_match any_match holds all_hold any_holds height heights

    inner-holds :
        (root : V) (depth : ℕ) (f : EventFilter V)
        → depth + height f ≤ max_filter_depth
        → matches_inner j root depth f ≡ holds root f
    inner-holds root depth (field_equals path value) h = ground arith
    inner-holds root depth (field_contains path substring) h = ground arith
    inner-holds root depth (all_of fs) h = ground (arith, all-holds root (depth + 1) fs)
    inner-holds root depth (any_of fs) h = ground (arith, any-holds root (depth + 1) fs)

    all-holds :
        (root : V) (depth : ℕ) (fs : Filters V)
        → depth + heights fs ≤ max_filter_depth
        → all_match j root depth fs ≡ all_hold root fs
    all-holds root depth nil h = refl
    all-holds root depth (cons f fs) h =
        rw (inner-holds root depth f (omega arith), all-holds root depth fs (omega arith))

    any-holds :
        (root : V) (depth : ℕ) (fs : Filters V)
        → depth + heights fs ≤ max_filter_depth
        → any_match j root depth fs ≡ any_holds root fs
    any-holds root depth nil h = refl
    any-holds root depth (cons f fs) h =
        rw (inner-holds root depth f (omega arith), any-holds root depth fs (omega arith))

  -- `holds`, where the payload parses; a payload that is no JSON passes.
  pub passes : Text → EventFilter V → Bool
  passes payload f = elim (j.from_slice payload) [ none ↦ true | some v ↦ holds v f ]

  -- A filter with at most 16 levels of combinators decides its meaning without the depth limit;
  -- payloads that are no JSON pass.
  pub matches-passes :
      (f : EventFilter V) (payload : Text)
      → height f ≤ max_filter_depth
      → matches j f payload ≡ passes payload f
  unfolding matches passes
  matches-passes f payload h = elim (Option-cases (j.from_slice payload)) [
    | inl no_json ↦ rw (no_json, matches, passes)
    | inr (v, parsed) ↦ rw (parsed, matches, passes) (inner-holds v 0 f (omega arith))
  ]
