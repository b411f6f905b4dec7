-- ===== src/Scope/Ends.antt =====
-- Fuel for `resolve_scopes` of crates/core/seidrum-kernel/src/scope/service.rs: over a database with
-- finitely many scopes the walk ends.
use seidrum.Scope.Reach.{Allows, resolve_scopes-Allows}
use seidrum.Base.{
  ℕ, zero, suc, ◌+◌, ◌≤◌, ◌<◌, if◌then◌else◌, Text, text_eq, text_eq→eq, text_eq_refl, Bool, true,
  false, Bool-cases, some, List, [], ◌∷◌, length, ◌≡◌, refl, sym, subst, ap, ◌⊎◌, inl, inr, arith,
  text_ne-sym,
}
use seidrum.Scope.{
  ScopeStore, member, Walk, push_each, links, visit, walk, start, resolved, resolve_scopes,
  ResolvedScopes,
}

length-push_each : (xs stack : List Text) → length (push_each xs stack) ≡ length xs + length stack
unfolding push_each
length-push_each [] stack = omega arith
length-push_each (x ∷ xs) stack = omega (arith, length-push_each xs (x ∷ stack))

module _ {V E : Type 0} (db : ScopeStore V E) where
  -- The links of the scopes of a list that are not visited.
  abbrev pub unvisited : List Text → List Text → ℕ
  unvisited [] seen = 0
  unvisited (k ∷ ks) seen = (if member seen k then 0 else length (links db k)) + unvisited ks seen

  -- Every scope that has links is one of `keys`.
  abbrev pub Covers : List Text → Type 0
  Covers keys = (k : Text) → (member keys k ≡ true) ⊎ (links db k ≡ [])

  unvisited_mono :
      (keys : List Text) (key : Text) (seen : List Text)
      → unvisited keys (key ∷ seen) ≤ unvisited keys seen
  unvisited_mono [] key seen = omega arith
  unvisited_mono (k ∷ ks) key seen = ground (arith, unvisited_mono ks key seen)

  unvisited-here :
      (ks : List Text) (key : Text) (seen : List Text)
      → member seen key ≡ false
      → unvisited (key ∷ ks) (key ∷ seen) + length (links db key) ≤ unvisited (key ∷ ks) seen
  unvisited-here ks key seen fresh =
      rw (text_eq_refl key, fresh) (omega (arith, unvisited_mono ks key seen))

  -- A visit takes the links of the scope away.
  unvisited-drop :
      (keys : List Text) (key : Text) (seen : List Text)
      → member keys key ≡ true
      → member seen key ≡ false
      → unvisited keys (key ∷ seen) + length (links db key) ≤ unvisited keys seen
  unvisited-drop [] key seen listed fresh = cc
  unvisited-drop (k ∷ ks) key seen listed fresh = elim (Bool-cases (text_eq k key)) [
    | inl same ↦
        subst
          (λ j. unvisited (j ∷ ks) (key ∷ seen) + length (links db key) ≤ unvisited (j ∷ ks) seen)
          (sym (text_eq→eq k key same)) (unvisited-here ks key seen fresh)
    | inr other ↦
        ground
          (arith, unvisited-drop ks key seen (rw other at listed) fresh, text_ne-sym k key other)
  ]

  unvisited-missing :
      (keys : List Text) (key : Text) (seen : List Text)
      → links db key ≡ []
      → unvisited keys (key ∷ seen) + length (links db key) ≤ unvisited keys seen
  unvisited-missing keys key seen h = rw h (omega (arith, unvisited_mono keys key seen))

  module _ (keys : List Text) (covers : Covers keys) where
    abbrev measure : List Text → Walk → ℕ
    measure stack s = length stack + unvisited keys s.visited

    visit-fresh :
        (key : Text) (rest : List Text) (s : Walk)
        → member s.visited key ≡ false
        → unvisited keys (key ∷ s.visited) + length (links db key) ≤ unvisited keys s.visited
    visit-fresh key rest s fresh = elim (covers key) [
      | inl listed ↦ unvisited-drop keys key s.visited listed fresh
      | inr missing ↦ unvisited-missing keys key s.visited missing
    ]

    measure-either :
        (key : Text) (rest : List Text) (s : Walk) (seen : Bool)
        → member s.visited key ≡ seen
        → measure (visit db key rest s).to_visit (visit db key rest s) < measure (key ∷ rest) s
    unfolding visit
    measure-either key rest s true seen = rw seen (omega arith)
    measure-either key rest s false fresh =
        rw fresh (omega (arith, visit-fresh key rest s fresh, length-push_each (links db key) rest))

    walk_ends :
        (fuel : ℕ) (stack : List Text) (s : Walk)
        → measure stack s ≤ fuel
        → (t : Walk) × (walk db fuel stack s ≡ some t)
    unfolding walk
    walk_ends zero [] s h = (s, refl)
    walk_ends (suc fuel) [] s h = (s, refl)
    walk_ends zero (key ∷ rest) s h = absurd (omega arith)
    walk_ends (suc fuel) (key ∷ rest) s h =
        walk_ends fuel (visit db key rest s).to_visit (visit db key rest s)
          (omega (arith, measure-either key rest s (member s.visited key) refl))

    -- Fuel for the seeds and for every link of the database.
    abbrev pub enough : List Text → ℕ
    enough additional = suc (length additional + unvisited keys [])

    resolve_scopes_ends :
        (fuel : ℕ) (primary : Text) (additional : List Text)
        → enough additional ≤ fuel
        → (r : ResolvedScopes) × (resolve_scopes db fuel primary additional ≡ some r)
    unfolding resolve_scopes
    resolve_scopes_ends fuel primary additional h =
        let seeds = push_each additional (primary ∷ []) in
        let (t, e) =
          walk_ends fuel seeds (start primary additional)
            (omega (arith, length-push_each additional (primary ∷ []))) in
        (_, ap (resolved primary) e)

    -- If finitely many scopes have links, `resolve_scopes` ends, with fuel for its seeds and for
    -- every link; a scope is allowed exactly if it is `scope_root` or links lead to it from the
    -- primary and the additional scopes.
    pub resolve_scopes_decides :
        (fuel : ℕ) (primary : Text) (additional : List Text)
        → enough additional ≤ fuel
        → (r : ResolvedScopes) × (resolve_scopes db fuel primary additional ≡ some r)
          × Allows db primary additional r
    resolve_scopes_decides fuel primary additional h =
        let (r, e) = resolve_scopes_ends fuel primary additional h in
        (r, e, resolve_scopes-Allows db primary additional fuel r e)
