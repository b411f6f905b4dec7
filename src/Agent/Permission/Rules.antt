-- ===== src/Agent/Permission/Rules.antt =====
-- What the rules of crates/core/seidrum-agent-runtime/src/lib.rs let through.
use seidrum.Base.{
  Text, text_eq, text_eq_iff, text_eq→eq, text_eq_refl, Bool, true, false, Option, none, some, List,
  ◌≡◌, refl, sym, subst, ap, ◌↔◌, Option-cases, inl, inr, arith, find, find-mem, find-holds,
  on_some, if◌then◌else◌,
}
use mathlib.Core.List.{Mem}
use seidrum.Agent.{ChannelKind, telegram, other, channel_eq}
use seidrum.Agent.Permission.{
  allow, deny, ToolAuthorizationRule, ToolAuthorizationContext, admits, origin_user, matches,
  default_deny, decision_for,
}

channel_eq→eq : (a b : ChannelKind) → channel_eq a b ≡ true → a ≡ b
channel_eq→eq telegram telegram h = refl
channel_eq→eq telegram (other b) h = cc
channel_eq→eq (other a) telegram h = cc
channel_eq→eq (other a) (other b) h = ap other (text_eq→eq a b h)

channel_eq_refl : (a : ChannelKind) → channel_eq a a ≡ true
channel_eq_refl telegram = refl
channel_eq_refl (other a) = text_eq_refl a

-- A condition that is set holds of the value.
abbrev pub Requires : {A : Type 0} → Option A → Option A → Type 0
Requires none actual = Unit
Requires (some expected) actual = actual ≡ some expected

-- The rule is for the tool and all of its conditions hold.
abbrev pub Applies : ToolAuthorizationRule → Text → ToolAuthorizationContext → Type 0
Applies rule name context =
    (rule.tool_name ≡ name)
    × Requires rule.channel_kind (on_some (λ o. o.provider) context.channel_origin)
    × Requires rule.user_id (origin_user context.channel_origin)
    × Requires rule.session_id context.session_id

some_inj : {A : Type 0} {a b : A} → some a ≡ some b → a ≡ b
some_inj h = cc

module _ {A : Type 0} (eq : A → A → Bool) (sound : (a b : A) → eq a b ≡ true → a ≡ b)
    (same : (a : A) → eq a a ≡ true) where
  admits_iff :
      (expected actual : Option A) → (admits eq expected actual ≡ true) ↔ Requires expected actual
  admits_iff none actual = (λ h. tt, λ h. refl)
  admits_iff (some a) none = (λ h. cc, λ h. cc)
  admits_iff (some a) (some b) =
      (λ h. ap some (sound b a h), λ h. subst (λ c. eq c a ≡ true) (some_inj (sym h)) (same a))

-- Four tests, one after the other.
all_four :
    (a b c d : Bool)
    → ((if a then if b then if c then d else false else false else false) ≡ true)
      ↔ ((a ≡ true) × (b ≡ true) × (c ≡ true) × (d ≡ true))
all_four a b c d = ground arith

module _ (rule : ToolAuthorizationRule) (name : Text) (context : ToolAuthorizationContext) where
  pub matches-Applies : (matches rule name context ≡ true) ↔ Applies rule name context
  unfolding matches
  matches-Applies =
      let tests =
        all_four (text_eq rule.tool_name name)
          (admits channel_eq rule.channel_kind (on_some (λ o. o.provider) context.channel_origin))
          (admits text_eq rule.user_id (origin_user context.channel_origin))
          (admits text_eq rule.session_id context.session_id) in
      let named = text_eq_iff rule.tool_name name in
      let kind =
        admits_iff channel_eq channel_eq→eq channel_eq_refl rule.channel_kind
          (on_some (λ o. o.provider) context.channel_origin) in
      let user =
        admits_iff text_eq text_eq→eq text_eq_refl rule.user_id
          (origin_user context.channel_origin) in
      let session = admits_iff text_eq text_eq→eq text_eq_refl rule.session_id context.session_id in
      (
        λ h. let (a, b, c, d) = tests.0 h in (named.0 a, kind.0 b, user.0 c, session.0 d),
        λ (a, b, c, d). tests.1 (named.1 a, kind.1 b, user.1 c, session.1 d),
      )

deny≢allow : {reason : Text} → deny reason ≡ allow → ⊥
deny≢allow h = cc

-- A rule of the list applies and allows.
abbrev pub Permitted : List ToolAuthorizationRule → Text → ToolAuthorizationContext → Type 0
Permitted rules name context =
    (rule : ToolAuthorizationRule) × Mem rule rules
    × Applies rule name context
    × (rule.decision ≡ allow)

-- A boundary that denies by default allows a call only under one of its rules that allows, names
-- the tool, and whose conditions on the channel kind, the user and the session all hold.
pub default_deny-Permitted :
    (rules : List ToolAuthorizationRule) (name : Text) (context : ToolAuthorizationContext)
    → decision_for (default_deny rules) name context ≡ allow
    → Permitted rules name context
unfolding decision_for
default_deny-Permitted rules name context h =
    elim (Option-cases (find (λ rule. matches rule name context) rules)) [
      | inl missing ↦ absurd (deny≢allow (rw missing at h))
      | inr (rule, found) ↦ (
        rule,
        find-mem (λ r. matches r name context) rules rule found,
        (matches-Applies rule name context).0
            (find-holds (λ r. matches r name context) rules rule found),
        rw found at h,
      )
    ]
