-- ===== src/Webhook/Channel/Dials.antt =====
-- Where the deliveries of `WebhookChannel`, crates/core/seidrum-eventbus/src/delivery/webhook.rs, connect to.
use seidrum.Base.{ℕ, Text, Bool, true, false, List, ◌≡◌, refl, inl, inr, Bool-cases, subst}
use seidrum.Channel.{ChannelConfig, in_process, web_socket, webhook, custom}
use seidrum.Error.{Result, ok, err}
use seidrum.Webhook.{
  WebhookUrlPolicy, strict, ValidatedWebhookUrl, Url, IpAddr, validate_webhook_url_resolved,
}
use seidrum.Webhook.Addresses.{IsPublic}
use seidrum.Webhook.Public.{validate_webhook_url_resolved-Safe}
use seidrum.Webhook.Circuit.{
  gate, WebhookChannel, circuit, set_circuit, ensure_circuit_allows_delivery,
}
use seidrum.Webhook.Channel.{
  Joined, validated, refused, panicked, Client, is_success, on_response, on_built, on_validated,
  if_allowed, deliver,
}

-- What the client does to a property of the world: only sending may break it, to an address that is
-- not public. Its validation is that of the source, with what the parser and the lookups give then.
pub record Vetting {W : Type 0} (client : Client W) (P : W → Type 0) : Type 0 where
  pub now_keeps : (w : W) → P w → P (client.now w).1
  pub validate_keeps :
      (url : Text) (policy : WebhookUrlPolicy) (w : W) → P w → P (client.validate url policy w).1
  pub build_keeps : (v : ValidatedWebhookUrl) (w : W) → P w → P (client.build v w).1
  pub send_keeps :
      (v : ValidatedWebhookUrl) (url : Text) (headers : List (Text × Text)) (subject event : Text)
      (w : W)
      → IsPublic v.resolved_ip
      → P w
      → P (client.send v url headers subject event w).1
  pub validates :
      (url : Text) (policy : WebhookUrlPolicy) (w : W) (v : ValidatedWebhookUrl)
      → (client.validate url policy w).0 ≡ validated v
      → (first : Text → ℕ → Result Text (List IpAddr)) × (second : Text
          → ℕ
          → Result Text (List IpAddr))
        × (url_parse : Text → Result Text Url) × (validate_webhook_url_resolved first second
              url_parse url policy
            ≡ ok v)

module _ {W : Type 0} (client : Client W) (P : W → Type 0) (vet : Vetting client P) where
  on_response_keeps :
      (start : ℕ) (url : Text) (ch : WebhookChannel) (r : Result Text ℕ × W)
      → P r.1
      → P (on_response client start url ch r).1.1
  on_response_keeps start url ch (ok code, w) h = elim (Bool-cases (is_success code)) [
    | inl good ↦ rw good (vet.now_keeps (client.now w).1 (vet.now_keeps w h))
    | inr bad ↦ rw bad (vet.now_keeps w h)
  ]
  on_response_keeps start url ch (err e, w) h = vet.now_keeps w h

  module _ (start : ℕ) (url : Text) (headers : List (Text × Text)) (subject event : Text) where
    on_built_keeps :
        (v : ValidatedWebhookUrl) (ch : WebhookChannel) (r : Result Text (Unit {0}) × W)
        → IsPublic v.resolved_ip
        → P r.1
        → P (on_built client start url headers subject event v ch r).1.1
    on_built_keeps v ch (ok u, w) public h =
        on_response_keeps start url ch (client.send v url headers subject event w)
          (vet.send_keeps v url headers subject event w public h)
    on_built_keeps v ch (err e, w) public h = vet.now_keeps w h

    on_validated_keeps :
        (ch : WebhookChannel) (r : Joined × W)
        → ((v : ValidatedWebhookUrl) → r.0 ≡ validated v → IsPublic v.resolved_ip)
        → P r.1
        → P (on_validated client start url headers subject event ch r).1.1
    on_validated_keeps ch (validated v, w) safe h =
        on_built_keeps v ch (client.build v w) (safe v refl) (vet.build_keeps v w h)
    on_validated_keeps ch (refused e, w) safe h = vet.now_keeps w h
    on_validated_keeps ch (panicked e, w) safe h = vet.now_keeps w h

    vetted :
        (policy : WebhookUrlPolicy) (w : W)
        → policy ≡ strict
        → (v : ValidatedWebhookUrl) → (client.validate url policy w).0 ≡ validated v
        → IsPublic v.resolved_ip
    vetted policy w is_strict v given =
        let (first, second, url_parse, run) = vet.validates url policy w v given in
        (validate_webhook_url_resolved-Safe first second url_parse url v (
          subst (λ p. validate_webhook_url_resolved first second url_parse url p ≡ ok v) is_strict
            run)).1.1.1.1

    if_allowed_keeps :
        (ch : WebhookChannel) (w : W) (g : Bool)
        → ch.policy ≡ strict
        → P w
        → P (if_allowed client start url headers subject event w (g, ch)).1.1
    if_allowed_keeps ch w true is_strict h =
        on_validated_keeps ch (client.validate url ch.policy w) (vetted ch.policy w is_strict)
          (vet.validate_keeps url ch.policy w h)
    if_allowed_keeps ch w false is_strict h = h

  -- A delivery of a channel with the strict policy keeps every property of the world that only
  -- sending to an address that is not public may break, if its client validates as
  -- `validate_webhook_url_resolved` does, with any parser and lookups.
  pub deliver_keeps :
      (V : Type 0) (event subject : Text) (config : ChannelConfig V) (ch : WebhookChannel) (w : W)
      → ch.policy ≡ strict
      → P w
      → P (deliver client event subject config (ch, w)).1.1
  unfolding deliver ensure_circuit_allows_delivery
  deliver_keeps V event subject in_process ch w is_strict h = vet.now_keeps w h
  deliver_keeps V event subject web_socket ch w is_strict h = vet.now_keeps w h
  deliver_keeps V event subject (custom kind v) ch w is_strict h = vet.now_keeps w h
  deliver_keeps V event subject (webhook url headers) ch w is_strict h =
      let started = client.now w in
      let tested = client.now started.1 in
      let g = gate tested.0 (circuit ch url).mode (circuit ch url) in
      if_allowed_keeps started.0 url headers subject event (set_circuit ch url g.1) tested.1 g.0
        is_strict (vet.now_keeps started.1 (vet.now_keeps w h))
