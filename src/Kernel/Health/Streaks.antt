-- ===== src/Kernel/Health/Streaks.antt =====
-- Which plugins the health checks of crates/core/seidrum-kernel/src/scheduler/service.rs deregister.
use seidrum.Base.{
  ℕ, suc, ◌%◌, if◌then◌else◌, leb, ◌==◌, Text, Bool, true, false, not, ◌&&◌, Option, none, some,
  List, [], ◌∷◌, ◌≡◌, refl, ap, ap₂, ◌∙◌, inl, inr, arith, Bool-cases, on_some, push_some,
}
use seidrum.Base.Maps.{HashMap, get}
use seidrum.Base.Maps.Named.{holds, any-names_of, IsDistinct, names_of-IsDistinct}
use seidrum.Kernel.Registry.Queries.{IsRegistry}
use seidrum.Store.{next_u32}
use seidrum.Kernel.Health.{
  is_responsive, max_health_failures, Check, reset_each, failures, active_plugins, failed_plugins,
  run_health_check, after_checks,
}
use seidrum.Kernel.Health.Counts.{
  listed, after_failure, failures-reset_each, failures-count_failures, listed-count_failures,
}

-- How many pings failed since the last that did not, the latest first.
abbrev pub trailing : List Bool → ℕ
trailing [] = 0
trailing (true ∷ ps) = 0
trailing (false ∷ ps) = suc (trailing ps)

abbrev pub is_failed : Option Bool → Bool
is_failed none = false
is_failed (some responded) = not responded

next_count : (t : ℕ) → after_failure (t % 3) ≡ suc t % 3
unfolding next_u32
next_count t = ground arith

reached : (t : ℕ) → leb max_health_failures (next_u32 (t % 3)) ≡ (suc t % 3 == 0)
unfolding next_u32
reached t = ground arith

module _ {A : Type 0} (responds : A → Bool) where
  counted :
      (o : Option A) (ps : List Bool) (n : ℕ)
      → n ≡ trailing ps % 3
      → (if holds (λ p. not (responds p)) o
          then after_failure (if holds responds o then 0 else n)
          else (if holds responds o then 0 else n))
        ≡ trailing (push_some (on_some responds o) ps) % 3
  counted none ps n h = h
  counted (some p) ps n h = elim (Bool-cases (responds p)) [
    | inl up ↦ rw up refl
    | inr down ↦ rw (down, h) (next_count (trailing ps))
  ]

  dead :
      (o : Option A) (ps : List Bool) (n : ℕ)
      → n ≡ trailing ps % 3
      → (holds (λ p. not (responds p)) o
          && leb max_health_failures (next_u32 (if holds responds o then 0 else n)))
        ≡ (is_failed (on_some responds o)
            && (trailing (push_some (on_some responds o) ps) % 3 == 0))
  dead none ps n h = refl
  dead (some p) ps n h = elim (Bool-cases (responds p)) [
    | inl up ↦ rw up refl
    | inr down ↦ rw (down, h) (reached (trailing ps))
  ]

module _ {V : Type 0} where
  -- What the ping of a plugin came to in a check, if it was registered.
  abbrev pub ping : Check V → Text → Option Bool
  ping c id = on_some (λ p. is_responsive (c.replies p)) (get c.registry id)

  -- The pings of a plugin in checks, both the latest first.
  abbrev pub pings : List (Check V) → Text → List Bool
  pings [] id = []
  pings (c ∷ cs) id = push_some (ping c id) (pings cs id)

  abbrev pub AllRegistries : List (Check V) → Type 0
  AllRegistries [] = Unit
  AllRegistries (c ∷ cs) = IsRegistry c.registry × AllRegistries cs

  module _ (c : Check V) (valid : IsRegistry c.registry) (counts : HashMap ℕ) (id : Text) where
    active :
        listed (active_plugins c) id ≡ holds (λ p. is_responsive (c.replies p)) (get c.registry id)
    active =
        any-names_of (λ p. p.id) (λ p. is_responsive (c.replies p)) c.registry id valid.0 valid.1

    failed :
        listed (failed_plugins c) id
        ≡ holds (λ p. not (is_responsive (c.replies p))) (get c.registry id)
    failed =
        any-names_of (λ p. p.id) (λ p. not (is_responsive (c.replies p))) c.registry id valid.0
          valid.1

    distinct : IsDistinct (failed_plugins c)
    distinct =
        names_of-IsDistinct (λ p. p.id) (λ p. not (is_responsive (c.replies p))) c.registry valid.0
          valid.1

    reset : failures (reset_each (active_plugins c) counts) id ≡ (
        if holds (λ p. is_responsive (c.replies p)) (get c.registry id)
        then 0
        else failures counts id)
    reset =
        failures-reset_each (active_plugins c) counts id
        ∙ ap (λ b. if b then 0 else failures counts id) active

    failures-run_health_check :
        (ps : List Bool)
        → failures counts id ≡ trailing ps % 3
        → failures (run_health_check c counts).2 id ≡ trailing (push_some (ping c id) ps) % 3
    unfolding run_health_check
    failures-run_health_check ps h =
        failures-count_failures (failed_plugins c) (reset_each (active_plugins c) counts) id
          distinct
        ∙ ap₂ (λ b n. if b then after_failure n else n) failed reset
        ∙ counted (λ p. is_responsive (c.replies p)) (get c.registry id) ps (failures counts id) h

    listed-run_health_check :
        (ps : List Bool)
        → failures counts id ≡ trailing ps % 3
        → listed (run_health_check c counts).0 id
          ≡ (is_failed (ping c id) && (trailing (push_some (ping c id) ps) % 3 == 0))
    unfolding run_health_check
    listed-run_health_check ps h =
        listed-count_failures (failed_plugins c) (reset_each (active_plugins c) counts) id distinct
        ∙ ap₂ (λ b n. b && leb max_health_failures (next_u32 n)) failed reset
        ∙ dead (λ p. is_responsive (c.replies p)) (get c.registry id) ps (failures counts id) h

  failures-after_checks :
      (cs : List (Check V)) (id : Text)
      → AllRegistries cs
      → failures (after_checks cs) id ≡ trailing (pings cs id) % 3
  unfolding after_checks get
  failures-after_checks [] id valid = refl
  failures-after_checks (c ∷ cs) id valid =
      failures-run_health_check c valid.0 (after_checks cs) id (pings cs id)
        (failures-after_checks cs id valid.1)

  -- After any checks of registries, each plugin under its own id once, a check deregisters exactly
  -- the plugins whose ping fails in it and makes the number of their failures since they last
  -- responded a multiple of three.
  pub run_health_check-third :
      (c : Check V) (cs : List (Check V)) (id : Text)
      → AllRegistries (c ∷ cs)
      → listed (run_health_check c (after_checks cs)).0 id
        ≡ (is_failed (ping c id) && (trailing (pings (c ∷ cs) id) % 3 == 0))
  run_health_check-third c cs id valid =
      listed-run_health_check c valid.0 (after_checks cs) id (pings cs id)
        (failures-after_checks cs id valid.1)
