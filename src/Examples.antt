-- ===== src/Examples.antt =====
-- The theorems at concrete inputs, and runs of the code on small data. This file declares the data
-- that the examples share: JSON values with one field, and a world that counts.
pub mod IndexRuns
pub mod StoreRuns
pub mod DispatchRuns
pub mod RetryRuns
pub mod LiveRuns
mod AgentBench
pub mod AgentRuns
pub mod GuardRuns
pub mod ScopeRuns
pub mod SplitRuns
pub mod RouteRuns
pub mod UrlRuns
pub mod HookRuns
pub mod KernelRuns
pub mod BoundaryRuns
use Prim.Native.String.{String}
use seidrum.Base.{
  ℕ, suc, ◌==◌, if◌then◌else◌, Text, codes, text_eq, Bool, true, false, Option, none, some, List,
  [], ◌∷◌,
}
use seidrum.Error.{ok}
use seidrum.Filter.{Json, EventFilter}
use seidrum.Channel.{in_process}
use seidrum.Index.{SubscriptionEntry, SubscriptionMode}
use seidrum.Dispatch.{Runtime, SendOutcome, sent, full, InterceptOutcome}

-- A value is a string or an object with one field.
pub data Value : Type 0 where
  string : Text → Value
  object : Text → Value → Value

unfoldable pub get_field : Value → Text → Option Value
get_field (string s) k = none
get_field (object j v) k = if text_eq j k then some v else none

unfoldable pub value_eq : Value → Value → Bool
value_eq (string s) (string t) = text_eq s t
value_eq (object j v) (object k w) = if text_eq j k then value_eq v w else false
value_eq _ _ = false

-- A payload that is not empty reads as the field `text`.
unfoldable pub parse : Text → Option Value
parse [] = none
parse (c ∷ s) = some (object (codes "text") (string (c ∷ s)))

abbrev pub value_string : Value → Option Text
value_string (string s) = some s
value_string (object k v) = none

abbrev pub json : Json Value
json = record {
  from_slice = parse;
  get = get_field;
  beq = value_eq;
  as_string = value_string;
  to_string = λ v. [];
}

abbrev pub entry : String → String → ℕ → SubscriptionMode → SubscriptionEntry Value
entry id pattern priority mode = record {
  id = codes id;
  subject_pattern = codes pattern;
  priority = priority;
  mode = mode;
  channel = in_process;
  timeout = 5000;
  filter = none;
}

abbrev pub send_to : Bool → SendOutcome
send_to true = sent
send_to false = full

-- A sender says whether its channel has room, an interceptor how it ends.
abbrev pub runtime : Runtime Value ℕ Bool InterceptOutcome (Unit {0})
runtime = record {
  now = λ w. (w, suc w);
  random_range = λ w. ((λ r. 0), w);
  try_send = λ tx e w. (send_to tx, w);
  intercept = λ i subject payload timeout seq w. (i, w);
  new_id = λ w. (w ∷ [], suc w);
  new_channel = λ capacity w. (true, w);
  deliver_webhook = λ subject payload config w. (ok tt, w);
  deliver = λ channel subject payload config w. (ok tt, w);
}
