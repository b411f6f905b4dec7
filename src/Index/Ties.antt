-- ===== src/Index/Ties.antt =====
-- `lookup` of dispatch/subject_index.rs on subscriptions of one priority.
use seidrum.Base.{Text, text_eq, text_eq_refl, [], ◌∷◌, ◌≡◌, arith}
use seidrum.Error.{ok}
use seidrum.Subject.{split, rest}
use seidrum.Index.{SubscriptionEntry, SubjectIndex, new, subscribe, lookup, insert, collect}
use seidrum.Index.Stored.{IsLiteral}
use seidrum.Index.Sort.{sort_by_key}
use seidrum.Index.Contract.{subscribe_inv, inserted}

module _ {V : Type 0} (a b : SubscriptionEntry V) (token subject : Text) where
  collect_two :
      IsLiteral token
      → collect (token ∷ []) (insert (rest ∷ []) b (insert (token ∷ []) a new.root)) ≡ b ∷ a ∷ []
  unfolding collect insert text_eq
  collect_two l = simp (l.0, l.1, text_eq_refl token)

  sort_two : a.priority ≡ b.priority → sort_by_key (λ e. e.priority) (b ∷ a ∷ []) ≡ b ∷ a ∷ []
  unfolding sort_by_key
  sort_two h = ground arith

  -- A subscription to `>` comes before an earlier subscription to a literal token of the same
  -- priority.
  pub lookup_ties :
      {one two : SubjectIndex V}
      → IsLiteral token
      → split a.subject_pattern ≡ token ∷ []
      → split b.subject_pattern ≡ rest ∷ []
      → split subject ≡ token ∷ []
      → a.priority ≡ b.priority
      → subscribe a new ≡ ok one
      → subscribe b one ≡ ok two
      → lookup subject two ≡ b ∷ a ∷ []
  unfolding lookup
  lookup_ties {one} {two} l pa pb ps same first second =
      let e1 : one ≡ inserted a new = (subscribe_inv a new one first).1 in
      let e2 : two ≡ inserted b one = (subscribe_inv b one two second).1 in
      rw (e2, e1, ps, pa, pb, collect_two l) (sort_two same)
