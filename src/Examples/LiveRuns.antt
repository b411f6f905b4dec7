-- ===== src/Examples/LiveRuns.antt =====
-- Subscriptions that come and go.
use seidrum.Base.{
  ◌<◌, Text, codes, text_eq, retain, Bool, true, none, some, [], ◌∷◌, ◌≡◌, refl, arith,
}
use seidrum.Error.{ok}
use seidrum.Subject.{split}
use seidrum.Channel.{in_process}
use seidrum.Index.{SubscriptionEntry, async, sync, new, list}
use seidrum.Index
use seidrum.Index.Remove.{other_id}
use seidrum.Index.Contract.{Accepted, new-Represents, inserted, subscribe-Represents}
use seidrum.Dispatch.{
  DispatchState, InterceptOutcome, pass, subscribe, intercept, unsubscribe, validate_subject,
  existing_for_pattern, max_interceptors_per_subject, or_default, default_interceptor_timeout, get,
}
use seidrum.Dispatch.Live.{
  Consistent, subscribe-Consistent, intercept-Consistent, unsubscribe-Consistent,
}
use seidrum.Examples.{Value, runtime}

abbrev State : Type 0
State = DispatchState Value Bool InterceptOutcome

abbrev nothing_held : State
nothing_held = record { index = new; senders = []; interceptors = [] }

nothing_held-Consistent : Consistent nothing_held []
nothing_held-Consistent = record {
  represents = new-Represents;
  served = tt;
  senders_held = tt;
  interceptors_held = tt;
}

user-Accepted : Accepted (codes "user")
unfolding split text_eq
user-Accepted = record { depth = omega arith; no_empty = refl; rest_last = ((λ h. cc), tt) }

user_valid : validate_subject (codes "user") ≡ ok tt
unfolding validate_subject
user_valid = refl

subscribe-Consistent_example :
    (id : Text) × (tx : Bool) × (st' : State) × ((subscribe runtime
        (codes "user")
        10
        async
        in_process
        5000
        none
        nothing_held
        7).0
      ≡ ok (id, tx, st'))
    × (get id st'.senders ≡ some tx)
    × Consistent st' (
        (record {
          id = id;
          subject_pattern = codes "user";
          priority = 10;
          mode = async;
          channel = in_process;
          timeout = 5000;
          filter = none;
        })
        ∷ [])
subscribe-Consistent_example =
    subscribe-Consistent runtime (codes "user") 10 async in_process 5000 none nothing_held 7 []
      user_valid user-Accepted nothing_held-Consistent

has_room : existing_for_pattern runtime (codes "user") nothing_held < max_interceptors_per_subject
unfolding existing_for_pattern list
has_room = omega arith

intercept-Consistent_example :
    (id : Text) × (st' : State) × ((intercept runtime
        (codes "user")
        10
        (pass [])
        none
        nothing_held
        7).0
      ≡ ok (id, st'))
    × (get id st'.interceptors ≡ some (pass []))
    × Consistent st' (
        (record {
          id = id;
          subject_pattern = codes "user";
          priority = 10;
          mode = sync;
          channel = in_process;
          timeout = or_default runtime none default_interceptor_timeout;
          filter = none;
        })
        ∷ [])
intercept-Consistent_example =
    intercept-Consistent runtime (codes "user") 10 (pass []) none nothing_held 7 [] user_valid
      user-Accepted has_room nothing_held-Consistent

abbrev seventh : SubscriptionEntry Value
seventh = record {
  id = 7 ∷ [];
  subject_pattern = codes "user";
  priority = 10;
  mode = async;
  channel = in_process;
  timeout = 5000;
  filter = none;
}

-- The state after that subscription.
abbrev one_held : State
one_held = record { index = inserted seventh new; senders = (7 ∷ [], true) ∷ []; interceptors = [] }

subscribed_seventh :
    (subscribe runtime (codes "user") 10 async in_process 5000 none nothing_held 7).0
    ≡ ok (7 ∷ [], true, one_held)
unfolding subscribe Index.subscribe split text_eq validate_subject
subscribed_seventh = refl

one_held-Consistent : Consistent one_held (seventh ∷ [])
unfolding get text_eq
one_held-Consistent = record {
  represents =
      (subscribe-Represents seventh new (inserted seventh new) []
        (unfold Index.subscribe split text_eq in refl) new-Represents).1;
  served = (refl, tt);
  senders_held = (refl, tt);
  interceptors_held = tt;
}

unsubscribe-Consistent_example :
    Consistent (unsubscribe (7 ∷ []) one_held) (retain (other_id (7 ∷ [])) (seventh ∷ []))
unsubscribe-Consistent_example =
    unsubscribe-Consistent (7 ∷ []) one_held (seventh ∷ []) one_held-Consistent
