-- ===== src/Dispatch/Live/Maps.antt =====
-- The maps of senders and interceptors of dispatch/engine.rs, and their keys.
use seidrum.Base.{
  Text, text_eq, text_eq→eq, text_eq_refl, text_ne-sym, any, retain, true, false, ◌||◌, Bool-cases,
  inl, inr, some, List, [], ◌∷◌, ◌≡◌, refl, arith, sym, ◌∙◌, subst,
}
use seidrum.Index.{SubscriptionEntry, has_id}
use seidrum.Index.Remove.{other_id}
use seidrum.Dispatch.{get, insert, remove, contains_key}

module _ {A : Type 0} where
  pub contains_key-insert :
      (k id : Text) (v : A) (m : List (Text × A))
      → contains_key k (insert id v m) ≡ (text_eq id k || contains_key k m)
  unfolding get insert
  contains_key-insert k id v [] = ground arith
  contains_key-insert k id v ((j, w) ∷ m) = elim (Bool-cases (text_eq j id)) [
    | inl same ↦ rw (same, text_eq→eq j id same) (ground arith)
    | inr other ↦ rw other (ground (arith, contains_key-insert k id v m))
  ]

  pub contains_key-remove :
      (k id : Text) (m : List (Text × A))
      → text_eq k id ≡ false
      → contains_key k (remove id m) ≡ contains_key k m
  unfolding get remove
  contains_key-remove k id [] ne = refl
  contains_key-remove k id ((j, w) ∷ m) ne = elim (Bool-cases (text_eq j id)) [
    | inl same ↦
        let differs : text_eq j k ≡ false =
          subst (λ i. text_eq i k ≡ false) (sym (text_eq→eq j id same)) (text_ne-sym k id ne) in
        ground (arith, contains_key-remove k id m ne)
    | inr other ↦ rw other (ground (arith, contains_key-remove k id m ne))
  ]

  pub get-insert : (id : Text) (v : A) (m : List (Text × A)) → get id (insert id v m) ≡ some v
  unfolding get insert
  get-insert id v [] = rw (text_eq_refl id)
  get-insert id v ((j, w) ∷ m) = ground (arith, text_eq_refl id, get-insert id v m)

module _ {V : Type 0} where
  -- Each key is the id of a held subscription.
  abbrev pub AllHeld : {A : Type 0} → List (SubscriptionEntry V) → List (Text × A) → Type 0
  AllHeld subs [] = Unit
  AllHeld subs ((k, v) ∷ m) = (any (has_id k) subs ≡ true) × AllHeld subs m

  -- Each held subscription has a sender or an interceptor.
  abbrev pub AllServed :
      {Sender Interceptor : Type 0}
      → List (Text × Sender)
      → List (Text × Interceptor)
      → List (SubscriptionEntry V)
      → Type 0
  AllServed senders interceptors [] = Unit
  AllServed senders interceptors (e ∷ subs) =
      ((contains_key e.id senders || contains_key e.id interceptors) ≡ true)
      × AllServed senders interceptors subs

  pub AllHeld-add :
      {A : Type 0} (e : SubscriptionEntry V) (subs : List (SubscriptionEntry V))
      (m : List (Text × A))
      → AllHeld subs m
      → AllHeld (e ∷ subs) m
  AllHeld-add e subs [] h = tt
  AllHeld-add e subs ((k, v) ∷ m) h = (ground (arith, h.0), AllHeld-add e subs m h.1)

  pub AllHeld-insert :
      {A : Type 0} (e : SubscriptionEntry V) (v : A) (subs : List (SubscriptionEntry V))
      (m : List (Text × A))
      → AllHeld subs m
      → AllHeld (e ∷ subs) (insert e.id v m)
  unfolding insert
  AllHeld-insert e v subs [] h = (ground (arith, text_eq_refl e.id), tt)
  AllHeld-insert e v subs ((k, w) ∷ m) h = elim (Bool-cases (text_eq k e.id)) [
    | inl same ↦ rw same (ground (arith, text_eq_refl e.id), AllHeld-add e subs m h.1)
    | inr other ↦ rw other (ground (arith, h.0), AllHeld-insert e v subs m h.1)
  ]

  pub any-other_id :
      (k id : Text) (subs : List (SubscriptionEntry V))
      → text_eq k id ≡ false
      → any (has_id k) (retain (other_id id) subs) ≡ any (has_id k) subs
  any-other_id k id [] ne = refl
  any-other_id k id (e ∷ subs) ne = elim (Bool-cases (text_eq e.id id)) [
    | inl same ↦
        let differs : text_eq e.id k ≡ false =
          subst (λ i. text_eq i k ≡ false) (sym (text_eq→eq e.id id same)) (text_ne-sym k id ne) in
        ground (arith, any-other_id k id subs ne)
    | inr other ↦ ground (arith, any-other_id k id subs ne)
  ]

  pub AllHeld-remove :
      {A : Type 0} (id : Text) (subs : List (SubscriptionEntry V)) (m : List (Text × A))
      → AllHeld subs m
      → AllHeld (retain (other_id id) subs) (remove id m)
  unfolding remove
  AllHeld-remove id subs [] h = tt
  AllHeld-remove id subs ((k, v) ∷ m) h = elim (Bool-cases (text_eq k id)) [
    | inl same ↦ rw same (AllHeld-remove id subs m h.1)
    | inr other ↦ rw other (any-other_id k id subs other ∙ h.0, AllHeld-remove id subs m h.1)
  ]

module _ {V Sender Interceptor : Type 0} (senders : List (Text × Sender))
    (interceptors : List (Text × Interceptor)) where
  pub AllServed-sender :
      (id : Text) (tx : Sender) (subs : List (SubscriptionEntry V))
      → AllServed senders interceptors subs
      → AllServed (insert id tx senders) interceptors subs
  AllServed-sender id tx [] h = tt
  AllServed-sender id tx (e ∷ subs) h =
      (ground (arith, contains_key-insert e.id id tx senders, h.0), AllServed-sender id tx subs h.1)

  pub AllServed-interceptor :
      (id : Text) (i : Interceptor) (subs : List (SubscriptionEntry V))
      → AllServed senders interceptors subs
      → AllServed senders (insert id i interceptors) subs
  AllServed-interceptor id i [] h = tt
  AllServed-interceptor id i (e ∷ subs) h = (
    ground (arith, contains_key-insert e.id id i interceptors, h.0),
    AllServed-interceptor id i subs h.1,
  )

  pub AllServed-remove :
      (id : Text) (subs : List (SubscriptionEntry V))
      → AllServed senders interceptors subs
      → AllServed (remove id senders) (remove id interceptors) (retain (other_id id) subs)
  AllServed-remove id [] h = tt
  AllServed-remove id (e ∷ subs) h = elim (Bool-cases (text_eq e.id id)) [
    | inl same ↦ rw same (AllServed-remove id subs h.1)
    | inr other ↦ rw other (
      rw (contains_key-remove e.id id senders other, contains_key-remove e.id id interceptors other)
          h.0,
      AllServed-remove id subs h.1,
    )
  ]
