-- ===== src/Error.antt =====
-- The errors of the event bus: `EventBusError` and `Result` of crates/core/seidrum-eventbus/src/lib.rs,
-- `StorageError` of storage/mod.rs. A message that the source formats is named by what it says.
use seidrum.Channel.{DeliveryError}
use seidrum.Base.{ℕ, ◌≡◌, ◌⊎◌, inl, inr, refl}

pub data StorageError : Type 0 where
  not_found : StorageError
  not_dead_lettered : ℕ → StorageError
  operation_failed database_error : StorageError

-- What `InvalidSubject` says.
pub data SubjectFault : Type 0 where
  empty_subject too_long null_byte too_deep empty_token misplaced_rest reserved : SubjectFault

-- What `Internal` says.
pub data Fault : Type 0 where
  reentrant_publish too_many_interceptors already_replied : Fault
  event_not_found event_not_dead_lettered : ℕ → Fault

pub data EventBusError : Type 0 where
  storage : StorageError → EventBusError
  delivery : DeliveryError → EventBusError
  invalid_subject : SubjectFault → EventBusError
  payload_too_large configuration request_timeout reply_channel_closed : EventBusError
  internal : Fault → EventBusError

pub data Result {ℓ κ} (E : Type ℓ) (A : Type κ) : Type (ℓ ⊔ κ) where
  ok : A → Result E A
  err : E → Result E A

-- The `?` operator.
infixl 5 ◌>>=◌ ◌>>◌
abbrev pub ◌>>=◌ {ℓ κ μ} :
    {E : Type ℓ} {A : Type κ} {B : Type μ} → Result E A → (A → Result E B) → Result E B
ok a >>= f = f a
err e >>= f = err e

abbrev pub ◌>>◌ {ℓ κ} : {E : Type ℓ} {B : Type κ} → Result E (Unit {0}) → Result E B → Result E B
m >> k = m >>= λ _. k

pub ok_injective {ℓ κ} :
    {E : Type ℓ} {A : Type κ} {a b : A} → ◌≡◌ {A = Result E A} (ok a) (ok b) → a ≡ b
ok_injective h = cc

pub Result-cases {ℓ κ} :
    {E : Type ℓ} {A : Type κ} (r : Result E A) → ((a : A) × (r ≡ ok a)) ⊎ ((e : E) × (r ≡ err e))
Result-cases (ok a) = inl (a, refl)
Result-cases (err e) = inr (e, refl)
