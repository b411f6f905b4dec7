-- ===== src/Examples/HookRuns.antt =====
-- Deliveries to webhooks at concrete inputs.
use seidrum.Base.{ℕ, ◌+◌, Text, codes, true, some, List, [], ◌∷◌, ◌≡◌, refl, arith, text_eq}
use seidrum.Base.Maps.{get, insert}
use seidrum.Channel.{ChannelConfig, webhook}
use seidrum.Error.{Result, ok, err}
use seidrum.Webhook.{
  octets, IpAddr, v4, domain, Url, WebhookUrlError, strict, ValidatedWebhookUrl,
  validate_webhook_url_resolved,
}
use seidrum.Webhook.Public.{AllPublic}
use seidrum.Webhook.Circuit.{
  default_config, CircuitState, half_open, gate, circuit, WebhookChannel, with_policy_and_circuit,
  ensure_circuit_allows_delivery,
}
use seidrum.Webhook.Channel.{Joined, validated, refused, Client, deliver}
use seidrum.Webhook.Circuit.Bounds.{Phase, outage, outage-Phase}
use seidrum.Webhook.Channel.Deliveries.{Decided, deliver-Decided}
use seidrum.Webhook.Channel.Dials.{Vetting, deliver_keeps}

-- The clock and the addresses that were dialled.
abbrev World : Type 0
World = ℕ × List IpAddr

abbrev hook_url : Text → Result Text Url
hook_url s = ok (record {
  scheme = codes "https";
  host = some (domain s);
  host_str = some s;
  port_or_known_default = some 443;
})

abbrev answered : Text → ℕ → Result Text (List IpAddr)
answered name port = ok (v4 (octets 93 184 216 34) ∷ [])

abbrev joined : Result WebhookUrlError ValidatedWebhookUrl → Joined
joined (ok v) = validated v
joined (err e) = refused e

-- A client whose endpoint answers with one status.
abbrev client : ℕ → Client World
client code = record {
  now = λ w. (w.0, (w.0 + 1, w.1));
  validate = λ url policy w.
      (joined (validate_webhook_url_resolved answered answered hook_url url policy), w);
  build = λ v w. (ok tt, w);
  send = λ v url headers subject event w. (ok code, (w.0, v.resolved_ip ∷ w.1));
  head = λ url headers w. (ok code, w);
  printed = λ e. [];
  status_line = λ c. [];
}

abbrev strict_channel : WebhookChannel
strict_channel = with_policy_and_circuit strict default_config

abbrev to_hook : ChannelConfig (Unit {0})
to_hook = webhook (codes "hook") []

outage-Phase_example :
    Phase default_config (outage default_config (40000000000 ∷ 35000000000 ∷ 2000 ∷ 1000 ∷ 0 ∷ []))
outage-Phase_example =
    outage-Phase default_config (40000000000 ∷ 35000000000 ∷ 2000 ∷ 1000 ∷ 0 ∷ []) (omega arith)
      (omega arith) (omega arith) (omega arith)

deliver-Decided_example :
    Decided strict_channel
      (codes "hook")
      (2, [])
      (gate 1 (circuit strict_channel (codes "hook")).mode (circuit strict_channel (codes "hook")))
      (deliver
        (client 500)
        {V = Unit {0}}
        (codes "e")
        (codes "s")
        (webhook (codes "hook") [])
        (strict_channel, (0, [])))
deliver-Decided_example =
    deliver-Decided (client 500) (Unit {0}) (codes "e") (codes "s") (codes "hook") [] strict_channel
      (0, [])

-- The dialled addresses are public.
abbrev Dialled : World → Type 0
Dialled w = AllPublic w.1

joined-validated :
    (r : Result WebhookUrlError ValidatedWebhookUrl) (v : ValidatedWebhookUrl)
    → joined r ≡ validated v
    → r ≡ ok v
joined-validated (ok u) v h = cc
joined-validated (err e) v h = cc

client-Vetting : (code : ℕ) → Vetting (client code) Dialled
client-Vetting code = record {
  now_keeps = λ w h. h;
  validate_keeps = λ url policy w h. h;
  build_keeps = λ v w h. h;
  send_keeps = λ v url headers subject event w public h. (public, h);
  validates = λ url policy w v given. (
    answered,
    answered,
    hook_url,
    joined-validated (validate_webhook_url_resolved answered answered hook_url url policy) v given,
  );
}

deliver_keeps_example :
    Dialled
      (deliver
        (client 200)
        {V = Unit {0}}
        (codes "e")
        (codes "s")
        to_hook
        (strict_channel, (0, []))).1.1
deliver_keeps_example =
    deliver_keeps (client 200) Dialled (client-Vetting 200) (Unit {0}) (codes "e") (codes "s")
      to_hook strict_channel (0, []) refl tt

-- A circuit that waits for its probe lets another delivery through.
abbrev probing : CircuitState
probing = record {
  mode = half_open;
  consecutive_failures = 3;
  cooldown = 60;
  opened_until = some 30;
}

probe_test :
    (ensure_circuit_allows_delivery
      (record strict_channel { circuits = (codes "hook", probing) ∷ [] })
      (codes "hook")
      40).0
    ≡ true
unfolding ensure_circuit_allows_delivery get insert text_eq
probe_test = refl
