-- ===== src/Webhook/Channel/Deliveries.antt =====
-- What a delivery of `WebhookChannel`, crates/core/seidrum-eventbus/src/delivery/webhook.rs, leaves of the
-- circuits, and where it connects to.
use seidrum.Base.{
  ℕ, if◌then◌else◌, Text, text_eq, text_eq_refl, Bool, true, false, Option, some, List, ◌++◌, ◌≡◌,
  refl, sym, ap, ap₂, subst, codes, ◌∙◌, inl, inr, Bool-cases, arith,
}
use seidrum.Base.Maps.{get, get-insert}
use seidrum.Channel.{webhook, DeliveryError, failed, permanent}
use seidrum.Error.{Result, ok, err}
use seidrum.Webhook.{ValidatedWebhookUrl}
use seidrum.Webhook.Circuit.{
  CircuitState, new, gate, fail_at, WebhookChannel, or_new, circuit, set_circuit, skipped,
  ensure_circuit_allows_delivery, record_success, record_failure,
}
use seidrum.Webhook.Channel.{
  DeliveryReceipt, Joined, validated, refused, panicked, Client, status_error, is_success,
  fail_with, on_response, on_built, on_validated, if_allowed, deliver,
}

or_new_if :
    (b : Bool) (ch : WebhookChannel) (s : CircuitState) (o : Option CircuitState)
    → or_new ch.circuit_config (if b then some s else o)
      ≡ (if b then s else or_new ch.circuit_config o)
or_new_if true ch s o = refl
or_new_if false ch s o = refl

circuit-set_circuit :
    (ch : WebhookChannel) (url : Text) (s : CircuitState) (j : Text)
    → circuit (set_circuit ch url s) j ≡ (if text_eq url j then s else circuit ch j)
circuit-set_circuit ch url s j =
    ap (or_new ch.circuit_config) (get-insert ch.circuits url s j)
    ∙ or_new_if (text_eq url j) ch s (get ch.circuits j)

-- The channel has the given circuit for the URL, and otherwise those it had.
pub record Changed (ch : WebhookChannel) (url : Text) (s : CircuitState) (ch' : WebhookChannel)
    : Type 0 where
  pub circuits_of : (j : Text) → circuit ch' j ≡ (if text_eq url j then s else circuit ch j)
  pub same_config : ch'.circuit_config ≡ ch.circuit_config
  pub same_policy : ch'.policy ≡ ch.policy

set_circuit-Changed :
    (ch : WebhookChannel) (url : Text) (s : CircuitState) → Changed ch url s (set_circuit ch url s)
set_circuit-Changed ch url s = record {
  circuits_of = circuit-set_circuit ch url s;
  same_config = refl;
  same_policy = refl;
}

-- What is set last counts.
Changed-again :
    (ch ch' : WebhookChannel) (url : Text) (s t : CircuitState)
    → Changed ch url s ch'
    → Changed ch url t (set_circuit ch' url t)
Changed-again ch ch' url s t h = record {
  circuits_of = λ j. ground (arith, circuit-set_circuit ch' url t j, h.circuits_of j);
  same_config = h.same_config;
  same_policy = h.same_policy;
}

module _ {W : Type 0} where
  -- A delivery that succeeded has reset the circuit; one that failed has counted its failure at some
  -- time, from the state `s` that let it through.
  abbrev pub Counted :
      WebhookChannel
      → Text
      → CircuitState
      → Result DeliveryError DeliveryReceipt × (WebhookChannel × W)
      → Type 0
  Counted ch url s (ok receipt, (ch', w)) = Changed ch url (new ch.circuit_config) ch'
  Counted ch url s (err e, (ch', w)) =
      (time : ℕ) × Changed ch url (fail_at ch.circuit_config time s) ch'

  -- What a delivery comes to, by whether its circuit lets it through, and the circuit then. One that
  -- is not let through has only read the clock.
  abbrev pub Decided :
      WebhookChannel
      → Text
      → W
      → Bool × CircuitState
      → Result DeliveryError DeliveryReceipt × (WebhookChannel × W)
      → Type 0
  Decided ch url w (true, s) r = Counted ch url s r
  Decided ch url w (false, s) r =
      (ch' : WebhookChannel) × (r ≡ (err skipped, (ch', w))) × Changed ch url s ch'

module _ {W : Type 0} (client : Client W) (ch : WebhookChannel) (url : Text) (s : CircuitState)
    (ch' : WebhookChannel) (let_through : Changed ch url s ch') where
  same_circuit : circuit ch' url ≡ s
  same_circuit =
      let_through.circuits_of url ∙ ap (λ t. if t then s else circuit ch url) (text_eq_refl url)

  record_failure-Changed :
      (time : ℕ) → Changed ch url (fail_at ch.circuit_config time s) (record_failure ch' url time)
  unfolding record_failure
  record_failure-Changed time =
      let same = ap₂ (λ c t. fail_at c time t) let_through.same_config same_circuit in
      subst (λ t. Changed ch url (fail_at ch.circuit_config time s) (set_circuit ch' url t))
        (sym same) (Changed-again ch ch' url s (fail_at ch.circuit_config time s) let_through)

  record_success-Changed : Changed ch url (new ch.circuit_config) (record_success ch' url)
  unfolding record_success
  record_success-Changed =
      subst (λ c. Changed ch url (new ch.circuit_config) (set_circuit ch' url (new c)))
        (sym let_through.same_config)
        (Changed-again ch ch' url s (new ch.circuit_config) let_through)

  fail_with-Counted :
      (e : DeliveryError) (w : W) → Counted ch url s (fail_with client e url (ch', w))
  fail_with-Counted e w = ((client.now w).0, record_failure-Changed (client.now w).0)

  on_response-Counted :
      (start : ℕ) (r : Result Text ℕ × W) → Counted ch url s (on_response client start url ch' r)
  on_response-Counted start (ok code, w) = elim (Bool-cases (is_success code)) [
    | inl good ↦ rw good record_success-Changed
    | inr bad ↦ rw bad (fail_with-Counted (status_error code (client.status_line code)) w)
  ]
  on_response-Counted start (err e, w) =
      fail_with-Counted (failed (codes "HTTP request failed: " ++ e)) w

  module _ (start : ℕ) (headers : List (Text × Text)) (subject event : Text) where
    on_built-Counted :
        (v : ValidatedWebhookUrl) (r : Result Text (Unit {0}) × W)
        → Counted ch url s (on_built client start url headers subject event v ch' r)
    on_built-Counted v (ok u, w) =
        on_response-Counted start (client.send v url headers subject event w)
    on_built-Counted v (err e, w) =
        fail_with-Counted (failed (codes "failed to build pinned client: " ++ e)) w

    on_validated-Counted :
        (r : Joined × W)
        → Counted ch url s (on_validated client start url headers subject event ch' r)
    on_validated-Counted (validated v, w) = on_built-Counted v (client.build v w)
    on_validated-Counted (refused e, w) =
        fail_with-Counted
          (permanent (codes "URL no longer passes SSRF policy: " ++ client.printed e)) w
    on_validated-Counted (panicked e, w) =
        fail_with-Counted (failed (codes "validation task panicked: " ++ e)) w

module _ {W : Type 0} (client : Client W) where
  decided :
      (start : ℕ) (headers : List (Text × Text)) (subject event url : Text) (ch : WebhookChannel)
      (w : W) (g : Bool × CircuitState)
      → Decided ch url w g
          (if_allowed client start url headers subject event w (g.0, set_circuit ch url g.1))
  decided start headers subject event url ch w (true, s) =
      on_validated-Counted client ch url s (set_circuit ch url s) (set_circuit-Changed ch url s)
        start headers subject event (client.validate url ch.policy w)
  decided start headers subject event url ch w (false, s) =
      (set_circuit ch url s, refl, set_circuit-Changed ch url s)

  -- A delivery to a webhook whose circuit is open does not go beyond reading the clock, and is
  -- `skipped`. One that its circuit lets through resets the circuit if it succeeds; if it fails,
  -- whatever the reason, the failure counts once. The circuits of other URLs stay as they are.
  pub deliver-Decided :
      (V : Type 0) (event subject url : Text) (headers : List (Text × Text)) (ch : WebhookChannel)
      (w : W)
      → let started = client.now w in
        let tested = client.now started.1 in
        Decided ch url tested.1
          (gate tested.0 (circuit ch url).mode (circuit ch url))
          (deliver client {V = V} event subject (webhook url headers) (ch, w))
  unfolding deliver ensure_circuit_allows_delivery
  deliver-Decided V event subject url headers ch w =
      let started = client.now w in
      let tested = client.now started.1 in
      decided started.0 headers subject event url ch tested.1
        (gate tested.0 (circuit ch url).mode (circuit ch url))
