-- ===== src/Agent/Outbox/Retries.antt =====
-- The life of a delivery of crates/core/seidrum-agent-runtime/src/lib.rs under `dispatch_one`.
use seidrum.Base.{
  ℕ, zero, suc, ◌<◌, ◌≤◌, ◌^◌, min, if◌then◌else◌, leb, Text, text_eq, text_eq_refl, Bool-cases,
  Option, none, some, ◌≡◌, refl, sym, subst, ap, ◌∙◌, ◌⊎◌, inl, inr, arith,
}
use seidrum.Error.{ok, err}
use seidrum.Store.{next_u32}
use seidrum.Agent.{RuntimeError}
use seidrum.Agent.Action.{return_after}
use seidrum.Agent.Outbox.{
  OutboundDeliveryRecord, failed, retry_scheduled, OutboundRetryPolicy, get_or_last, record_failure,
  OutboundDeliveryStore, FakeOutboundDeliverySink, delivered, dispatch_one,
}

module _ {W : Type 0} where
  -- `view w id` is the delivery under `id`.
  pub record OutboxLaws (store : OutboundDeliveryStore W)
      (view : W → Text → Option OutboundDeliveryRecord) : Type 0 where
    pub get_view :
        (id : Text) (w : W)
        → (store.outbound_delivery id w ≡ ok (view w id))
          ⊎ ((e : RuntimeError) × (store.outbound_delivery id w ≡ err e))
    pub view_id :
        (id : Text) (w : W) (d : OutboundDeliveryRecord) → view w id ≡ some d → d.delivery_id ≡ id
    pub put_view :
        (d : OutboundDeliveryRecord) (w : W) (w' : W)
        → store.put_outbound_delivery d w ≡ (ok tt, w')
        → (id : Text) → view w' id ≡ (if text_eq d.delivery_id id then some d else view w id)

module _ (policy : OutboundRetryPolicy) (error : Text) where
  abbrev pub fail_times : ℕ → OutboundDeliveryRecord → OutboundDeliveryRecord
  fail_times zero d = d
  fail_times (suc n) d = record_failure policy (fail_times n d) error

  abbrev pub cap : OutboundDeliveryRecord → ℕ
  cap d = min d.max_attempts policy.max_attempts

  -- The delivery after `suc n` attempts that failed, of `limit`.
  abbrev pub Settled : ℕ → ℕ → OutboundDeliveryRecord → Type 0
  Settled limit n d' =
      (d'.attempt_count ≡ suc n)
      × (d'.last_error ≡ some error)
      × (((limit ≤ suc n) × (d'.status ≡ failed) × (d'.retry_after ≡ none))
          ⊎ ((suc n < limit)
              × (d'.status ≡ retry_scheduled)
              × (d'.retry_after ≡ get_or_last policy.backoff_schedule n)))

  record_failure_keeps :
      (d : OutboundDeliveryRecord)
      → ((record_failure policy d error).attempt_count ≡ next_u32 d.attempt_count)
        × ((record_failure policy d error).max_attempts ≡ d.max_attempts)
        × ((record_failure policy d error).delivery_id ≡ d.delivery_id)
  unfolding record_failure
  record_failure_keeps d = ground arith

  fail_times_keeps :
      (n : ℕ) (d : OutboundDeliveryRecord)
      → d.attempt_count ≡ 0
      → n < 2 ^ 32
      → ((fail_times n d).attempt_count ≡ n)
        × ((fail_times n d).max_attempts ≡ d.max_attempts)
        × ((fail_times n d).delivery_id ≡ d.delivery_id)
  unfolding next_u32
  fail_times_keeps zero d fresh h = (fresh, refl, refl)
  fail_times_keeps (suc n) d fresh h =
      let (count, bound, id) = fail_times_keeps n d fresh (omega arith) in
      let (count', bound', id') = record_failure_keeps (fail_times n d) in
      (omega arith, bound' ∙ bound, id' ∙ id)

  next_u32_small : (n k : ℕ) → k ≡ n → suc n < 2 ^ 32 → next_u32 k ≡ suc n
  unfolding next_u32
  next_u32_small n k h small = omega arith

  record_failure-Settled :
      (d : OutboundDeliveryRecord) (n : ℕ)
      → d.attempt_count ≡ n
      → suc n < 2 ^ 32
      → Settled (cap d) n (record_failure policy d error)
  unfolding record_failure
  record_failure-Settled d n h small =
      let count = next_u32_small n d.attempt_count h small in
      elim (Bool-cases (leb (cap d) (next_u32 d.attempt_count))) [
        | inl hit ↦ rw hit (count, refl, inl (ground (arith, count), refl, refl))
        | inr miss ↦ rw miss (
          count,
          refl,
          inr (
            ground (arith, count),
            refl,
            ap (get_or_last policy.backoff_schedule) (omega (arith, count)),
          ),
        )
      ]

  Settled-fail_times :
      (n : ℕ) (d : OutboundDeliveryRecord)
      → d.attempt_count ≡ 0
      → suc n < 2 ^ 32
      → Settled (cap d) n (fail_times (suc n) d)
  Settled-fail_times n d fresh small =
      let (count, bound, id) = fail_times_keeps n d fresh (omega arith) in
      subst (λ m. Settled (min m policy.max_attempts) n (fail_times (suc n) d)) bound
        (record_failure-Settled (fail_times n d) n count small)

module _ {W : Type 0} (store : OutboundDeliveryStore W) (sink : FakeOutboundDeliverySink)
    (policy : OutboundRetryPolicy) (id : Text) where
  -- So many dispatches of the delivery, one after the other, that the store accepts.
  pub data Dispatches : ℕ → W → W → Type 0 where
    no_dispatch : {w : W} → Dispatches 0 w w
    dispatch :
        {n : ℕ} {w w1 w2 : W} (d : OutboundDeliveryRecord)
        → Dispatches n w w1
        → dispatch_one store sink policy id w1 ≡ (ok d, w2)
        → Dispatches (suc n) w w2

  module _ (view : W → Text → Option OutboundDeliveryRecord) (laws : OutboxLaws store view) where
    -- A dispatch that succeeds stores what it returns.
    pub dispatch_one_stores :
        (w w' : W) (d d' : OutboundDeliveryRecord)
        → view w id ≡ some d
        → (delivered sink policy d).delivery_id ≡ d.delivery_id
        → dispatch_one store sink policy id w ≡ (ok d', w')
        → (d' ≡ delivered sink policy d) × (view w' id ≡ some d')
    unfolding dispatch_one
    dispatch_one_stores w w' d d' found same did = elim (laws.get_view id w) [
      | inr (e, missed) ↦ cc (rw missed at did)
      | inl read ↦
          let put = rw (read, found) at did in
          let (is, stored) =
            return_after (store.put_outbound_delivery (delivered sink policy d))
              (delivered sink policy d) d' w w' put in
          let owner = same ∙ laws.view_id id w d found in
          (
            sym is,
            laws.put_view (delivered sink policy d) w w' stored id
                ∙ rw (owner, text_eq_refl id) (ap some is),
          )
    ]

module _ {W : Type 0} (store : OutboundDeliveryStore W)
    (view : W → Text → Option OutboundDeliveryRecord) (laws : OutboxLaws store view)
    (policy : OutboundRetryPolicy) (error id : Text) where
  abbrev Fails : ℕ → W → W → Type 0
  Fails = Dispatches store (err error) policy id

  Dispatches-fail_times :
      (n : ℕ) (w w' : W) (d : OutboundDeliveryRecord)
      → view w id ≡ some d
      → d.attempt_count ≡ 0
      → n < 2 ^ 32
      → Fails n w w'
      → view w' id ≡ some (fail_times policy error n d)
  Dispatches-fail_times n v v2 d found fresh small no_dispatch = found
  Dispatches-fail_times (suc n) v v2 d found fresh small (dispatch {w1} d' before did) =
      let at = Dispatches-fail_times n v w1 d found fresh (omega arith) before in
      let (is, stored) =
        dispatch_one_stores store (err error) policy id view laws w1 v2
          (fail_times policy error n d) d' at
          (record_failure_keeps policy error (fail_times policy error n d)).2 did in
      stored ∙ ap some is

  -- A fresh delivery whose dispatches all fail has after each of them that many attempts, below
  -- 2^32, and the error; it is to be retried, at the time of the schedule for that attempt or the
  -- last one, as long as there are fewer attempts than the caps of the delivery and of the policy,
  -- and `Failed` from then on.
  pub Dispatches-Settled :
      (n : ℕ) (w w' : W) (d : OutboundDeliveryRecord)
      → view w id ≡ some d
      → d.attempt_count ≡ 0
      → suc n < 2 ^ 32
      → Dispatches store (err error) policy id (suc n) w w'
      → (d' : OutboundDeliveryRecord) × (view w' id ≡ some d')
        × Settled policy error (cap policy error d) n d'
  Dispatches-Settled n w w' d found fresh small run = (
    fail_times policy error (suc n) d,
    Dispatches-fail_times (suc n) w w' d found fresh small run,
    Settled-fail_times policy error n d fresh small,
  )
