-- ===== src/Examples/IndexRuns.antt =====
-- The subject index and the event filters on small data.
use mathlib.Core.List.{Perm}
use seidrum.Base.{codes, text_eq, contains, retain, true, some, [], ◌∷◌, ◌≡◌, refl, arith}
use seidrum.Error.{ok}
use seidrum.Filter.{
  EventFilter, field_equals, field_contains, all_of, any_of, nil, cons, matches, contains_field,
  equals_field,
}
use seidrum.Filter.Meaning.{height, passes, matches-passes}
use seidrum.Subject.{split}
use seidrum.Index.{
  SubscriptionEntry, SubjectIndex, sync, async, subscribe, unsubscribe, lookup, find_by_id, new,
  insert,
}
use seidrum.Index.Remove.{other_id}
use seidrum.Index.Sort.{IsSorted, sort_by_key}
use seidrum.Index.Contract.{
  Accepted, Represents, new-Represents, subscribe-Represents, unsubscribe-Represents, reached,
  lookup-reached, inserted,
}
use seidrum.Examples.{Value, string, json, entry, parse, get_field, value_eq}

abbrev user : SubscriptionEntry Value
user = entry "one" "user.*" 10 async

abbrev all_events : SubscriptionEntry Value
all_events = entry "two" ">" 5 sync

abbrev one_held : SubjectIndex Value
one_held = inserted user new

abbrev two_held : SubjectIndex Value
two_held = inserted all_events one_held

user-Accepted : Accepted (codes "user.*")
unfolding split text_eq
user-Accepted = record {
  depth = omega arith;
  no_empty = refl;
  rest_last = ((λ h. cc), ((λ h. refl), tt));
}

subscribe_two : subscribe all_events one_held ≡ ok two_held
unfolding subscribe split text_eq
subscribe_two = refl

subscribe_one : subscribe user new ≡ ok one_held
unfolding subscribe split text_eq
subscribe_one = refl

one-Represents : Represents one_held (user ∷ [])
one-Represents = (subscribe-Represents user new one_held [] subscribe_one new-Represents).1

subscribe-Represents_example : Accepted (codes ">") × Represents two_held (all_events ∷ user ∷ [])
subscribe-Represents_example =
    subscribe-Represents all_events one_held two_held (user ∷ []) subscribe_two one-Represents

two-Represents : Represents two_held (all_events ∷ user ∷ [])
two-Represents =
    (subscribe-Represents all_events one_held two_held (user ∷ []) subscribe_two one-Represents).1

unsubscribe-Represents_example :
    Represents
      (unsubscribe (codes "one") two_held)
      (retain (other_id (codes "one")) (all_events ∷ user ∷ []))
unsubscribe-Represents_example =
    unsubscribe-Represents (codes "one") two_held (all_events ∷ user ∷ []) two-Represents

none_left : Represents (unsubscribe (codes "one") one_held) []
unfolding text_eq
none_left = unsubscribe-Represents (codes "one") one_held (user ∷ []) one-Represents

lookup-reached_example :
    Perm
      (lookup (codes "user.ann") two_held)
      (retain (reached (codes "user.ann")) (all_events ∷ user ∷ []))
    × IsSorted (λ e. e.priority) (lookup (codes "user.ann") two_held)
lookup-reached_example =
    lookup-reached (codes "user.ann") two_held (all_events ∷ user ∷ []) two-Represents

-- Both are found, in the order of their priorities.
lookup_both : lookup (codes "user.ann") two_held ≡ all_events ∷ user ∷ []
unfolding lookup split text_eq insert sort_by_key
lookup_both = refl

found_one : find_by_id (codes "one") two_held ≡ some user
unfolding find_by_id split text_eq insert
found_one = refl

abbrev literal : SubscriptionEntry Value
literal = entry "first" "user" 10 sync

abbrev catch_all : SubscriptionEntry Value
catch_all = entry "second" ">" 10 sync

subscribe-literal : subscribe literal new ≡ ok (inserted literal new)
unfolding subscribe split text_eq
subscribe-literal = refl

subscribe-catch_all :
    subscribe catch_all (inserted literal new) ≡ ok (inserted catch_all (inserted literal new))
unfolding subscribe split text_eq
subscribe-catch_all = refl

split_user : split (codes "user") ≡ codes "user" ∷ []
unfolding split
split_user = refl

split_rest : split (codes ">") ≡ codes ">" ∷ []
unfolding split
split_rest = refl

abbrev greeting : EventFilter Value
greeting = all_of (
    cons (field_contains (codes "text") (codes "hi"))
      (cons (any_of (cons (field_equals (codes "text") (string (codes "hi you"))) nil)) nil))

matches-passes_example :
    matches json greeting (codes "hi you") ≡ passes json (codes "hi you") greeting
unfolding height
matches-passes_example = matches-passes json greeting (codes "hi you") (omega arith)

-- The filter takes that payload.
matches-greeting : matches json greeting (codes "hi you") ≡ true
unfolding matches parse contains_field split get_field text_eq contains equals_field value_eq
matches-greeting = refl
