-- ===== src/Dispatch/Live.antt =====
-- Subscribing and unsubscribing in dispatch/engine.rs: the index, the senders and the interceptors.
pub mod Maps
use seidrum.Base.{
  ℕ, ◌<◌, leb, Text, text_eq, text_eq→eq, text_eq_refl, text_ne-sym, any, retain, true, false, ◌||◌,
  Bool-cases, inl, inr, Option, none, some, List, [], ◌∷◌, ◌≡◌, refl, arith, sym, ◌∙◌, subst,
}
use seidrum.Error.{ok}
use seidrum.Filter.{EventFilter}
use seidrum.Channel.{ChannelConfig, in_process}
use seidrum.Index.{SubscriptionEntry, SubscriptionMode, sync, has_id}
use seidrum.Index.Contract.{Accepted, Represents, subscribe-adds, unsubscribe-Represents}
use seidrum.Index.Remove.{other_id}
use seidrum.Dispatch.{
  Runtime, DispatchState, get, insert, remove, contains_key, validate_subject, subscribe, intercept,
  unsubscribe, existing_for_pattern, max_interceptors_per_subject, or_default,
  default_interceptor_timeout, default_channel_capacity,
}
use seidrum.Dispatch.Live.Maps.{
  contains_key-insert, contains_key-remove, get-insert, AllHeld, AllServed, AllHeld-add,
  AllHeld-insert, any-other_id, AllHeld-remove, AllServed-sender, AllServed-interceptor,
  AllServed-remove,
}

module _ {V Sender Interceptor : Type 0} where
  -- The index holds these subscriptions, each has a sender or an interceptor, and neither map holds
  -- anything else.
  pub record Consistent (st : DispatchState V Sender Interceptor)
      (subs : List (SubscriptionEntry V)) : Type 0 where
    pub represents : Represents st.index subs
    pub served : AllServed st.senders st.interceptors subs
    pub senders_held : AllHeld subs st.senders
    pub interceptors_held : AllHeld subs st.interceptors

  -- `unsubscribe` keeps the engine's state consistent: the index represents what is held less the
  -- subscriptions with the id, each of them has a sender or an interceptor, and neither map has a
  -- key that is not held.
  pub unsubscribe-Consistent :
      (id : Text) (st : DispatchState V Sender Interceptor) (subs : List (SubscriptionEntry V))
      → Consistent st subs
      → Consistent (unsubscribe id st) (retain (other_id id) subs)
  unfolding unsubscribe
  unsubscribe-Consistent id st subs c = record {
    represents = unsubscribe-Represents id st.index subs c.represents;
    served = AllServed-remove st.senders st.interceptors id subs c.served;
    senders_held = AllHeld-remove id subs st.senders c.senders_held;
    interceptors_held = AllHeld-remove id subs st.interceptors c.interceptors_held;
  }

module _ {V W Sender Interceptor Channel : Type 0}
    (rt : Runtime V W Sender Interceptor Channel) where
  -- In a consistent state `subscribe` on a valid and accepted pattern succeeds: the sender is
  -- registered under the new id, and the state stays consistent with exactly the new subscription
  -- added.
  pub subscribe-Consistent :
      (pattern : Text) (priority : ℕ) (mode : SubscriptionMode) (channel : ChannelConfig V)
      (timeout : ℕ) (filter : Option (EventFilter V)) (st : DispatchState V Sender Interceptor)
      (w : W) (subs : List (SubscriptionEntry V))
      → validate_subject pattern ≡ ok tt
      → Accepted pattern
      → Consistent st subs
      → (id : Text) × (tx : Sender) × (st' : DispatchState V Sender Interceptor) × ((subscribe rt
            pattern priority mode channel timeout filter st w).0
          ≡ ok (id, tx, st'))
        × (get id st'.senders ≡ some tx)
        × Consistent st' (
            (record {
              id = id;
              subject_pattern = pattern;
              priority = priority;
              mode = mode;
              channel = channel;
              timeout = timeout;
              filter = filter;
            })
            ∷ subs)
  unfolding subscribe
  subscribe-Consistent pattern priority mode channel timeout filter st w subs valid accepted c =
      let id = (rt.new_id w).0 in
      let tx = (rt.new_channel default_channel_capacity (rt.new_id w).1).0 in
      let e : SubscriptionEntry V = record {
        id = id;
        subject_pattern = pattern;
        priority = priority;
        mode = mode;
        channel = channel;
        timeout = timeout;
        filter = filter;
      } in
      let (index, taken, represents) = subscribe-adds e st.index subs accepted c.represents in
      let known = contains_key-insert id id tx st.senders in
      rw (valid, taken, subscribe)
        (
          id,
          tx,
          record st { index = index; senders = insert id tx st.senders },
          refl,
          get-insert id tx st.senders,
          record {
            represents = represents;
            served = (
              ground (arith, known, text_eq_refl id),
              AllServed-sender st.senders st.interceptors id tx subs c.served,
            );
            senders_held = AllHeld-insert e tx subs st.senders c.senders_held;
            interceptors_held = AllHeld-add e subs st.interceptors c.interceptors_held;
          },
        )

  -- In a consistent state with fewer than the maximum of interceptors for the pattern, `intercept`
  -- on a valid and accepted pattern succeeds: the interceptor is registered under the new id, and
  -- the state stays consistent with exactly the new synchronous subscription added.
  pub intercept-Consistent :
      (pattern : Text) (priority : ℕ) (interceptor : Interceptor) (timeout : Option ℕ)
      (st : DispatchState V Sender Interceptor) (w : W) (subs : List (SubscriptionEntry V))
      → validate_subject pattern ≡ ok tt
      → Accepted pattern
      → existing_for_pattern rt pattern st < max_interceptors_per_subject
      → Consistent st subs
      → (id : Text) × (st' : DispatchState V Sender Interceptor) × ((intercept rt pattern priority
            interceptor timeout st w).0
          ≡ ok (id, st'))
        × (get id st'.interceptors ≡ some interceptor)
        × Consistent st' (
            (record {
              id = id;
              subject_pattern = pattern;
              priority = priority;
              mode = sync;
              channel = in_process;
              timeout = or_default rt timeout default_interceptor_timeout;
              filter = none;
            })
            ∷ subs)
  unfolding intercept
  intercept-Consistent pattern priority interceptor timeout st w subs valid accepted room c =
      let id = (rt.new_id w).0 in
      let e : SubscriptionEntry V = record {
        id = id;
        subject_pattern = pattern;
        priority = priority;
        mode = sync;
        channel = in_process;
        timeout = or_default rt timeout default_interceptor_timeout;
        filter = none;
      } in
      let (index, taken, represents) = subscribe-adds e st.index subs accepted c.represents in
      let known = contains_key-insert id id interceptor st.interceptors in
      let free : leb max_interceptors_per_subject (existing_for_pattern rt pattern st) ≡ false =
        ground (arith, room) in
      rw (valid, intercept)
        (rw free (
          rw taken (
            id,
            record st { index = index; interceptors = insert id interceptor st.interceptors },
            refl,
            get-insert id interceptor st.interceptors,
            record {
              represents = represents;
              served = (
                ground (arith, known, text_eq_refl id),
                AllServed-interceptor st.senders st.interceptors id interceptor subs c.served,
              );
              senders_held = AllHeld-add e subs st.senders c.senders_held;
              interceptors_held =
                  AllHeld-insert e interceptor subs st.interceptors c.interceptors_held;
            },
          )))
