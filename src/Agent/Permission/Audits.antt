-- ===== src/Agent/Permission/Audits.antt =====
-- `AuditedSecureToolExecutor` of crates/core/seidrum-agent-runtime/src/lib.rs over an audit store, and
-- `InMemoryAuthorizationAuditStore`, whose lock no thread poisons.
use seidrum.Base.{
  ℕ, suc, Text, true, List, [], ◌∷◌, ◌++◌, length, ◌≡◌, refl, subst, ap, ◌∙◌, ◌⊎◌, inl, inr, arith,
}
use seidrum.Error.{Result, ok, err}
use seidrum.Index.Sort.{insert_sorted, sort_by_key}
use seidrum.Agent.{RuntimeError, ToolCall, ToolResult}
use seidrum.Agent.Action.{bind-rule}
use seidrum.Agent.Turns.{sequence_after}
use seidrum.Agent.Permission.{
  ToolPermissionDecision, allow, deny, require_approval, AuthorizationAuditRecord,
  AuthorizationAuditStore, new_audit, AuditedSecureToolExecutor, request, refusal, unless_refused,
  execute_audited,
}

module _ {W : Type 0} where
  -- `audits` are the records of the store in the order of their arrival.
  pub record AuditLaws (store : AuthorizationAuditStore W)
      (audits : W → List AuthorizationAuditRecord) : Type 0 where
    pub append_audits :
        (r : AuthorizationAuditRecord) (w : W)
        → (((store.append_authorization_audit r w).0 ≡ ok tt)
            × (audits (store.append_authorization_audit r w).1 ≡ audits w ++ r ∷ []))
          ⊎ ((e : RuntimeError) × ((store.append_authorization_audit r w).0 ≡ err e)
              × (audits (store.append_authorization_audit r w).1 ≡ audits w))
    pub list_audits :
        (w : W)
        → ((rs : List AuthorizationAuditRecord) × (store.list_authorization_audits w ≡ ok rs)
            × (length rs ≡ length (audits w)))
          ⊎ ((e : RuntimeError) × (store.list_authorization_audits w ≡ err e))

module _ {W : Type 0} (audits : W → List AuthorizationAuditRecord) where
  abbrev Appended : AuthorizationAuditRecord → W → Result RuntimeError (Unit {0}) × W → Type 0
  Appended r w (ok u, w') = audits w' ≡ audits w ++ r ∷ []
  Appended r w (err e, w') = audits w' ≡ audits w

  Appended-ok :
      (r : AuthorizationAuditRecord) (w : W) (o : Result RuntimeError (Unit {0}) × W)
      → o.0 ≡ ok tt
      → audits o.1 ≡ audits w ++ r ∷ []
      → Appended r w o
  Appended-ok r w (ok u, w') h added = added
  Appended-ok r w (err e, w') h added = cc

  Appended-none :
      (r : AuthorizationAuditRecord) (w : W) (o : Result RuntimeError (Unit {0}) × W)
      (e : RuntimeError)
      → o.0 ≡ err e
      → audits o.1 ≡ audits w
      → Appended r w o
  Appended-none r w (ok u, w') e h same = cc
  Appended-none r w (err e', w') e h same = same

module _ {W : Type 0} (store : AuthorizationAuditStore W)
    (audits : W → List AuthorizationAuditRecord) (laws : AuditLaws store audits) where
  append-Appended :
      (r : AuthorizationAuditRecord) (w : W)
      → Appended audits r w (store.append_authorization_audit r w)
  append-Appended r w = elim (laws.append_audits r w) [
    | inl (done, added) ↦ Appended-ok audits r w (store.append_authorization_audit r w) done added
    | inr (e, failed, same) ↦
        Appended-none audits r w (store.append_authorization_audit r w) e failed same
  ]

module _ {A : Type 0} (key : A → ℕ) where
  length-insert_sorted : (x : A) (xs : List A) → length (insert_sorted key x xs) ≡ suc (length xs)
  unfolding insert_sorted
  length-insert_sorted x [] = refl
  length-insert_sorted x (y ∷ ys) = ground (arith, length-insert_sorted x ys)

  length-sort_by_key : (xs : List A) → length (sort_by_key key xs) ≡ length xs
  unfolding sort_by_key
  length-sort_by_key [] = refl
  length-sort_by_key (x ∷ xs) =
      length-insert_sorted x (sort_by_key key xs) ∙ ap suc (length-sort_by_key xs)

module _ {E : Type 0} where
  abbrev pub memory_audits : AuthorizationAuditStore (List AuthorizationAuditRecord × E)
  memory_audits = record {
    append_authorization_audit = λ r w. (ok tt, (w.0 ++ r ∷ [], w.1));
    list_authorization_audits = λ w. ok (sort_by_key (λ r. r.sequence) w.0);
  }

  pub memory_audits-AuditLaws : AuditLaws memory_audits (λ w. w.0)
  memory_audits-AuditLaws = record {
    append_audits = λ r w. inl (refl, refl);
    list_audits = λ w.
        inl (sort_by_key (λ r. r.sequence) w.0, refl, length-sort_by_key (λ r. r.sequence) w.0);
  }

module _ {V W : Type 0} (x : AuditedSecureToolExecutor V W)
    (audits : W → List AuthorizationAuditRecord) (laws : AuditLaws x.audit_store audits)
    (id_keeps : (w : W) → audits (x.new_record_id w).1 ≡ audits w)
    (authorize_keeps : (call : ToolCall V) (w : W)
      → audits (x.guarded.authorize (request x.guarded call) w).1 ≡ audits w)
    (call : ToolCall V) where
  -- The decision on the call in the world `w`.
  abbrev pub decision_at : W → ToolPermissionDecision
  decision_at w = (x.guarded.authorize (request x.guarded call) w).0

  -- The tool runs on an allowed call; any other is answered without it.
  abbrev pub Follows : ToolPermissionDecision → W → Result RuntimeError ToolResult × W → Type 0
  Follows allow w o = o ≡ x.guarded.inner call w
  Follows d w o = (r : ToolResult) × (r.is_error ≡ true) × (o ≡ (ok r, w))

  -- The decision is stored under the next number, and what follows starts from there.
  abbrev pub Audited : W → Result RuntimeError ToolResult × W → Type 0
  Audited w o =
      (id : Text) × (w' : W) × (audits w'
        ≡ audits w
          ++ new_audit id (sequence_after (length (audits w))) (decision_at w)
              (request x.guarded call)
            ∷ [])
      × Follows (decision_at w) w' o

  abbrev pub Unaudited : W → Result RuntimeError ToolResult × W → Type 0
  Unaudited w o = (e : RuntimeError) × (o.0 ≡ err e) × (audits o.1 ≡ audits w)

  follows :
      (d : ToolPermissionDecision) (w : W)
      → Follows d w (unless_refused x.guarded.inner call (refusal call d) w)
  follows allow w = refl
  follows (deny reason) w = (_, refl, refl)
  follows (require_approval reason) w = (_, refl, refl)

  -- Over an audit store whose calls work whole or fail without effect, and with ids and decisions
  -- that leave the audits alone, a guarded call either stores exactly one audit with the decision
  -- on it, under the number after those stored, before anything else happens, and then the tool
  -- runs if the decision is to allow and is not touched otherwise, the result then being an error;
  -- or it fails with an error, and stores nothing.
  pub execute_audited-Audited :
      (w : W) → Audited w (execute_audited x call w) ⊎ Unaudited w (execute_audited x call w)
  unfolding execute_audited
  execute_audited-Audited w =
      let d = decision_at w in
      let w1 = (x.guarded.authorize (request x.guarded call) w).1 in
      let kept1 = authorize_keeps call w in
      elim (laws.list_audits w1) [
        | inr (e, failed) ↦ rw failed (inr (e, refl, kept1))
        | inl (rs, listed, counted) ↦ rw listed (
            let (id, w2) = x.new_record_id w1 in
            let kept = id_keeps w1 ∙ kept1 in
            let audit = new_audit id (sequence_after (length rs)) d (request x.guarded call) in
            let same = counted ∙ ap length kept1 in
            let stored = append-Appended x.audit_store audits laws audit w2 in
            bind-rule (λ o. Audited w o ⊎ Unaudited w o)
              (x.audit_store.append_authorization_audit audit) _ w2
              (λ u w' did. inl (
                id,
                w',
                subst
                    (λ n.
                      audits w'
                      ≡ audits w ++ new_audit id (sequence_after n) d (request x.guarded call) ∷ [])
                    same
                    (subst (Appended audits audit w2) did stored ∙ ap (λ l. l ++ audit ∷ []) kept),
                follows d w',
              ))
              (λ e w' did. inr (e, refl, subst (Appended audits audit w2) did stored ∙ kept)))
      ]
