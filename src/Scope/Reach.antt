-- ===== src/Scope/Reach.antt =====
-- Which scopes `resolve_scopes` of crates/core/seidrum-kernel/src/scope/service.rs allows.
use mathlib.Core.Bool.{false≢true}
use seidrum.Base.{
  Text, text_eq, text_eq→eq, true, ◌||◌, List, [], ◌∷◌, ◌≡◌, refl, ◌⊎◌, arith, sym, subst, ap, ◌∙◌,
  text_eq_refl, some, false, Bool, inl, inr, suc, zero, some, ℕ, Option, none, codes, ◌↔◌,
  text_eq_iff, if◌then◌else◌,
}
use seidrum.Scope.{
  ScopeStore, member, insert, Walk, push_each, links, visit, walk, start, resolved, resolve_scopes,
  ResolvedScopes,
}

module _ {V E : Type 0} (db : ScopeStore V E) (seeds : List Text) where
  -- The scopes that links lead to from the seeds.
  pub data Reachable : Text → Type 0 where
    seed : {v : Text} → member seeds v ≡ true → Reachable v
    link : {u v : Text} → Reachable u → member (links db u) v ≡ true → Reachable v

member-push_each :
    (xs stack : List Text) (v : Text)
    → member (push_each xs stack) v ≡ (member xs v || member stack v)
unfolding push_each
member-push_each [] stack v = refl
member-push_each (x ∷ xs) stack v = ground (arith, member-push_each xs (x ∷ stack) v)

member-insert :
    (x : Text) (xs : List Text) (v : Text) → member (insert x xs) v ≡ (text_eq x v || member xs v)
member-insert x xs v = ground (arith, text_eq→eq x v)

or_cases : (a b : Bool) → (a || b) ≡ true → (a ≡ true) ⊎ (b ≡ true)
or_cases a b h = ground arith

or_left : {a : Bool} (b : Bool) → a ≡ true → (a || b) ≡ true
or_left b h = ground arith

or_right : (a : Bool) {b : Bool} → b ≡ true → (a || b) ≡ true
or_right a h = ground arith

at_end : {A : Type 0} → A ⊎ (false ≡ true) → A
at_end (inl a) = a
at_end (inr e) = cc

some_injective : {A : Type 0} {a b : A} → some a ≡ some b → a ≡ b
some_injective h = cc

module _ {V E : Type 0} (db : ScopeStore V E) (seeds : List Text) where
  -- What holds of the walk with `stack` left to visit.
  record Inv (s : Walk) (stack : List Text) : Type 0 where
    sound : (v : Text) → member s.visited v ≡ true → Reachable db seeds v
    waiting : (v : Text) → member stack v ≡ true → Reachable db seeds v
    seeded :
        (v : Text) → member seeds v ≡ true → (member s.visited v ≡ true) ⊎ (member stack v ≡ true)
    closed :
        (u v : Text)
        → member s.visited u ≡ true
        → member (links db u) v ≡ true
        → (member s.visited v ≡ true) ⊎ (member stack v ≡ true)
    same : (v : Text) → member s.allowed v ≡ member s.visited v

  Inv-skip :
      (key : Text) (rest : List Text) (s : Walk)
      → member s.visited key ≡ true
      → Inv s (key ∷ rest)
      → Inv (record s { to_visit = rest }) rest
  Inv-skip key rest s seen h = record {
    sound = h.sound;
    waiting = λ v m. h.waiting v (ground arith);
    seeded = λ v m. ground (arith, h.seeded v, text_eq→eq key v);
    closed = λ u v m e. ground (arith, h.closed u v m e, text_eq→eq key v);
    same = h.same;
  }

  visited_walk : Text → List Text → Walk → Walk
  visited_walk key rest s = record {
    visited = insert key s.visited;
    allowed = insert key s.allowed;
    to_visit = push_each (links db key) rest;
  }

  -- What was visited or waiting before `key` was visited is so after it.
  moved :
      (key : Text) (rest : List Text) (s : Walk) (v : Text)
      → (member s.visited v ≡ true) ⊎ (member (key ∷ rest) v ≡ true)
      → (member (insert key s.visited) v ≡ true) ⊎ (member (push_each (links db key) rest) v ≡ true)
  moved key rest s v (inl old) = inl (member-insert key s.visited v ∙ or_right (text_eq key v) old)
  moved key rest s v (inr m) = elim (or_cases (text_eq key v) (member rest v) m) [
    | inl same ↦ inl (member-insert key s.visited v ∙ or_left (member s.visited v) same)
    | inr left ↦
        inr (member-push_each (links db key) rest v ∙ or_right (member (links db key) v) left)
  ]

  Inv-visited :
      (key : Text) (rest : List Text) (s : Walk)
      → Inv s (key ∷ rest)
      → Inv (visited_walk key rest s) (push_each (links db key) rest)
  unfolding visited_walk
  Inv-visited key rest s h =
      let here = h.waiting key (rw (text_eq_refl key) refl) in
      let pushed = member-push_each (links db key) rest in
      record {
        sound = λ v m.
            elim (or_cases (text_eq key v) (member s.visited v)
              (sym (member-insert key s.visited v) ∙ m)) [
                | inl same ↦ subst (Reachable db seeds) (text_eq→eq key v same) here
                | inr old ↦ h.sound v old
              ];
        waiting = λ v m.
            elim (or_cases (member (links db key) v) (member rest v) (sym (pushed v) ∙ m)) [
              | inl linked ↦ link here linked
              | inr left ↦ h.waiting v (or_right (text_eq key v) left)
            ];
        seeded = λ v m. moved key rest s v (h.seeded v m);
        closed = λ u v m e.
            elim (or_cases (text_eq key u) (member s.visited u)
              (sym (member-insert key s.visited u) ∙ m)) [
                | inl same ↦ inr (
                    pushed v
                    ∙ or_left (member rest v)
                        (subst (λ k. member (links db k) v ≡ true) (sym (text_eq→eq key u same)) e))
                | inr old ↦ moved key rest s v (h.closed u v old e)
              ];
        same = λ v.
            member-insert key s.allowed v
            ∙ (ap (λ b. text_eq key v || b) (h.same v) ∙ sym (member-insert key s.visited v));
      }

  Inv-either :
      (key : Text) (rest : List Text) (s : Walk) (seen : Bool)
      → member s.visited key ≡ seen
      → Inv s (key ∷ rest)
      → let s' = if seen then record s { to_visit = rest } else visited_walk key rest s in
        Inv s' s'.to_visit
  unfolding visited_walk
  Inv-either key rest s true seen h = Inv-skip key rest s seen h
  Inv-either key rest s false fresh h = Inv-visited key rest s h

  Inv-visit :
      (key : Text) (rest : List Text) (s : Walk)
      → Inv s (key ∷ rest)
      → Inv (visit db key rest s) (visit db key rest s).to_visit
  unfolding visit visited_walk
  Inv-visit key rest s = Inv-either key rest s (member s.visited key) refl

  -- At the end nothing is left to visit.
  Inv-walk :
      (fuel : ℕ) (stack : List Text) (s t : Walk)
      → Inv s stack
      → walk db fuel stack s ≡ some t
      → Inv t []
  unfolding walk
  Inv-walk zero [] s t h e = subst (λ w. Inv w []) (some_injective e) h
  Inv-walk (suc fuel) [] s t h e = subst (λ w. Inv w []) (some_injective e) h
  Inv-walk zero (key ∷ rest) s t h e = cc
  Inv-walk (suc fuel) (key ∷ rest) s t h e =
      Inv-walk fuel (visit db key rest s).to_visit (visit db key rest s) t (Inv-visit key rest s h)
        e

  -- What the walk has visited at its end is all that is reachable.
  visited_all :
      (t : Walk) → Inv t [] → {v : Text} → Reachable db seeds v → member t.visited v ≡ true
  visited_all t h (seed {v} m) = at_end (h.seeded v m)
  visited_all t h (link {u} {v} p e) = at_end (h.closed u v (visited_all t h p) e)

  Inv-start : (s : Walk) → s.visited ≡ [] → s.allowed ≡ [] → Inv s seeds
  Inv-start s none_visited none_allowed = record {
    sound = λ v m. absurd (false≢true (rw none_visited at m));
    waiting = λ v m. seed m;
    seeded = λ v m. inr m;
    closed = λ u v m e. absurd (false≢true (rw none_visited at m));
    same = λ v. rw (none_visited, none_allowed) refl;
  }

module _ {V E : Type 0} (db : ScopeStore V E) (primary : Text) (additional : List Text) where
  abbrev pub seeds : List Text
  seeds = push_each additional (primary ∷ [])

  -- The allowed scopes are `scope_root` and those that are reached.
  abbrev pub Allows : ResolvedScopes → Type 0
  Allows r =
      (v : Text) → (member r.allowed v ≡ true) ↔ ((codes "scope_root" ≡ v) ⊎ Reachable db seeds v)

  Allows-walk :
      (t : Walk)
      → Inv db seeds t []
      → Allows (record { allowed = insert (codes "scope_root") t.allowed; primary = primary })
  Allows-walk t h v = (
    λ m.
        elim (or_cases (text_eq (codes "scope_root") v) (member t.allowed v)
          (sym (member-insert (codes "scope_root") t.allowed v) ∙ m)) [
            | inl root ↦ inl (text_eq→eq (codes "scope_root") v root)
            | inr old ↦ inr (h.sound v (sym (h.same v) ∙ old))
          ],
    λ c. member-insert (codes "scope_root") t.allowed v ∙ elim c [
      | inl root ↦ or_left (member t.allowed v) ((text_eq_iff (codes "scope_root") v).1 root)
      | inr reached ↦
          or_right (text_eq (codes "scope_root") v) (h.same v ∙ visited_all db seeds t h reached)
    ],
  )

  Allows-resolved :
      (fuel : ℕ) (o : Option Walk) (r : ResolvedScopes)
      → ((t : Walk) → o ≡ some t → Inv db seeds t [])
      → resolved primary o ≡ some r
      → Allows r
  Allows-resolved fuel none r inv h = cc
  Allows-resolved fuel (some t) r inv h =
      subst Allows (some_injective h) (Allows-walk t (inv t refl))

  pub resolve_scopes-Allows :
      (fuel : ℕ) (r : ResolvedScopes)
      → resolve_scopes db fuel primary additional ≡ some r
      → Allows r
  unfolding resolve_scopes
  resolve_scopes-Allows fuel r =
      Allows-resolved fuel (walk db fuel seeds (start primary additional)) r (λ t e.
        Inv-walk db seeds fuel seeds (start primary additional) t
          (Inv-start db seeds (start primary additional) refl refl) e)
