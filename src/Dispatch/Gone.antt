-- ===== src/Dispatch/Gone.antt =====
-- `retry_to_subscriber` of dispatch/engine.rs for subscribers that have left.
use seidrum.Base.{retain, Text, List, [], ◌∷◌, ◌≡◌, refl, arith}
use seidrum.Error.{err}
use seidrum.Store.{subscriber_gone, RetryableDelivery}
use seidrum.Dispatch.Record.{Engine}
use seidrum.Index.{SubscriptionEntry, has_id}
use seidrum.Index.Contract.{Represents, find_by_id-none, unsubscribe-Represents}
use seidrum.Index.Remove.{other_id}
use seidrum.Dispatch.{DispatchState, unsubscribe}
use seidrum.Dispatch.Retry.{retry_to_subscriber, permanent}

module _ {V : Type 0} where
  retain-other_id :
      (id : Text) (subs : List (SubscriptionEntry V))
      → retain (has_id id) (retain (other_id id) subs) ≡ []
  retain-other_id id [] = refl
  retain-other_id id (e ∷ subs) = ground (arith, retain-other_id id subs)

module _ {V S W Sender Interceptor Channel : Type 0} (en : Engine V S W Sender Interceptor Channel)
    (channels : List (Text × Channel)) where
  -- If the index represents a collection of subscriptions, a retry to a subscriber that has
  -- unsubscribed fails for good, and nothing is sent.
  pub retry_to_subscriber-unsubscribe :
      (st : DispatchState V Sender Interceptor) (subs : List (SubscriptionEntry V))
      (d : RetryableDelivery) (w : W)
      → Represents st.index subs
      → retry_to_subscriber en channels (unsubscribe d.subscriber_id st) d w
        ≡ (err (permanent subscriber_gone), w)
  unfolding retry_to_subscriber unsubscribe
  retry_to_subscriber-unsubscribe st subs d w r =
      let gone =
        (find_by_id-none d.subscriber_id _ _
            (unsubscribe-Represents d.subscriber_id st.index subs r)).1
          (retain-other_id d.subscriber_id subs) in
      rw (gone, retry_to_subscriber)
