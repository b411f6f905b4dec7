-- ===== src/Kernel/Health/Counts.antt =====
-- The counts of failures in the health checks of crates/core/seidrum-kernel/src/scheduler/service.rs.
use seidrum.Base.{
  ℕ, if◌then◌else◌, leb, Text, text_eq, text_eq→eq, text_eq_refl, Bool, true, false, ◌&&◌, ◌||◌,
  Option, none, some, List, [], ◌∷◌, any, ◌≡◌, refl, ap, subst, ◌∙◌, inl, inr, arith, Bool-cases,
}
use seidrum.Base.Maps.{HashMap, get, insert, remove, get-insert, get-remove}
use seidrum.Base.Maps.Named.{IsDistinct}
use seidrum.Store.{next_u32}
use seidrum.Kernel.Health.{
  max_health_failures, reset_each, or_zero, failures, count_failure, push_if, count_failures,
}

abbrev pub listed : List Text → Text → Bool
listed ids id = any (λ t. text_eq t id) ids

or_zero_if :
    (b : Bool) (n : ℕ) (o : Option ℕ)
    → or_zero (if b then some n else o) ≡ (if b then n else or_zero o)
or_zero_if true n o = refl
or_zero_if false n o = refl

failures-insert :
    (counts : HashMap ℕ) (j : Text) (n : ℕ) (id : Text)
    → failures (insert counts j n) id ≡ (if text_eq j id then n else failures counts id)
failures-insert counts j n id =
    ap or_zero (get-insert counts j n id) ∙ or_zero_if (text_eq j id) n (get counts id)

or_none : (b : Bool) (o : Option ℕ) → or_zero (if b then none else o) ≡ (if b then 0 else or_zero o)
or_none true o = refl
or_none false o = refl

failures-remove :
    (counts : HashMap ℕ) (j id : Text)
    → failures (remove counts j) id ≡ (if text_eq j id then 0 else failures counts id)
failures-remove counts j id =
    ap or_zero (get-remove counts j id) ∙ or_none (text_eq j id) (get counts id)

pub failures-reset_each :
    (ids : List Text) (counts : HashMap ℕ) (id : Text)
    → failures (reset_each ids counts) id ≡ (if listed ids id then 0 else failures counts id)
unfolding reset_each
failures-reset_each [] counts id = refl
failures-reset_each (j ∷ ids) counts id =
    ground (arith, failures-reset_each ids (remove counts j) id, failures-remove counts j id)

-- The count after one more failure, which starts again from 0 when it deregisters the plugin.
abbrev pub after_failure : ℕ → ℕ
after_failure n = if leb max_health_failures (next_u32 n) then 0 else next_u32 n

failures-count_failure :
    (j : Text) (counts : HashMap ℕ) (id : Text)
    → failures (count_failure j counts).1 id
      ≡ (if text_eq j id then after_failure (failures counts id) else failures counts id)
unfolding count_failure
failures-count_failure j counts id =
    let count = next_u32 (failures counts j) in
    ground (
      arith,
      failures-remove (insert counts j count) j id,
      failures-insert counts j count id,
      text_eq→eq j id,
      text_eq_refl id,
    )

not_again :
    (j : Text) (ids : List Text) (id : Text)
    → text_eq j id ≡ true
    → listed ids j ≡ false
    → listed ids id ≡ false
not_again j ids id same fresh = subst (λ t. listed ids t ≡ false) (text_eq→eq j id same) fresh

pub failures-count_failures :
    (ids : List Text) (counts : HashMap ℕ) (id : Text)
    → IsDistinct ids
    → failures (count_failures ids counts).1 id
      ≡ (if listed ids id then after_failure (failures counts id) else failures counts id)
unfolding count_failures
failures-count_failures [] counts id d = refl
failures-count_failures (j ∷ ids) counts id d = elim (Bool-cases (text_eq j id)) [
  | inl same ↦
      let once = not_again j ids id same d.0 in
      ground (
        arith,
        failures-count_failures ids (count_failure j counts).1 id d.1,
        failures-count_failure j counts id,
      )
  | inr other ↦ ground (
    arith,
    failures-count_failures ids (count_failure j counts).1 id d.1,
    failures-count_failure j counts id,
  )
]

listed-push_if :
    (b : Bool) (j : Text) (ids : List Text) (id : Text)
    → listed (push_if b j ids) id ≡ ((b && text_eq j id) || listed ids id)
listed-push_if true j ids id = refl
listed-push_if false j ids id = refl

dead-count_failure :
    (j : Text) (counts : HashMap ℕ) (id : Text)
    → text_eq j id ≡ true
    → (count_failure j counts).0 ≡ leb max_health_failures (next_u32 (failures counts id))
unfolding count_failure
dead-count_failure j counts id same = ground (arith, text_eq→eq j id)

pub listed-count_failures :
    (ids : List Text) (counts : HashMap ℕ) (id : Text)
    → IsDistinct ids
    → listed (count_failures ids counts).0 id
      ≡ (listed ids id && leb max_health_failures (next_u32 (failures counts id)))
unfolding count_failures
listed-count_failures [] counts id d = refl
listed-count_failures (j ∷ ids) counts id d = elim (Bool-cases (text_eq j id)) [
  | inl same ↦
      let once = not_again j ids id same d.0 in
      ground (
        arith,
        listed-count_failures ids (count_failure j counts).1 id d.1,
        listed-push_if (count_failure j counts).0 j
            (count_failures ids (count_failure j counts).1).0 id,
        dead-count_failure j counts id same,
      )
  | inr other ↦ ground (
    arith,
    listed-count_failures ids (count_failure j counts).1 id d.1,
    listed-push_if (count_failure j counts).0 j (count_failures ids (count_failure j counts).1).0
        id,
    failures-count_failure j counts id,
  )
]
