-- ===== src/Webhook/Channel.antt =====
-- The deliveries of `WebhookChannel`, crates/core/seidrum-eventbus/src/delivery/webhook.rs. The clock, the
-- validation of URLs and the HTTP client act on a world and are parameters, and so is the text of their
-- errors.
pub mod Deliveries
pub mod Dials
use seidrum.Base.{
  ℕ, ◌+◌, ◌-◌, ◌*◌, ◌/◌, ◌^◌, min, if◌then◌else◌, leb, ltb, ◌==◌, Text, codes, Bool, true, false,
  not, ◌&&◌, ◌||◌, Option, none, some, List, [], ◌++◌,
}
use seidrum.Base.Maps.{HashMap, get, insert}
use seidrum.Channel.{
  ChannelConfig, in_process, web_socket, webhook, custom, DeliveryError, failed, permanent,
}
use seidrum.Error.{Result, ok, err}
use seidrum.Store.{u32_mod}
use seidrum.Webhook.{WebhookUrlError, WebhookUrlPolicy, ValidatedWebhookUrl}
use seidrum.Webhook.Circuit.{
  WebhookChannel, ensure_circuit_allows_delivery, record_success, record_failure, skipped,
  circuit_blocks_health,
}

pub record DeliveryReceipt : Type 0 where
  pub delivered_at : ℕ
  pub latency_us : ℕ

-- What a task that runs the validation comes to: its result, or why it panicked.
pub data Joined : Type 0 where
  validated : ValidatedWebhookUrl → Joined
  refused : WebhookUrlError → Joined
  panicked : Text → Joined

-- The clock, the validation of URLs, and the client of reqwest pinned to an address. A response is the
-- code of its status.
pub record Client (W : Type 0) : Type 0 where
  pub now : W → ℕ × W
  pub validate : Text → WebhookUrlPolicy → W → Joined × W
  pub build : ValidatedWebhookUrl → W → Result Text (Unit {0}) × W
  pub send : ValidatedWebhookUrl → Text → List (Text × Text) → Text → Text → W → Result Text ℕ × W
  pub head : Text → List (Text × Text) → W → Result Text ℕ × W
  pub printed : WebhookUrlError → Text
  pub status_line : ℕ → Text

abbrev pub extract_config :
    {V : Type 0} → ChannelConfig V → Result DeliveryError (Text × List (Text × Text))
extract_config (webhook url headers) = ok (url, headers)
extract_config in_process = err (failed (codes "Invalid config for WebhookChannel"))
extract_config web_socket = err (failed (codes "Invalid config for WebhookChannel"))
extract_config (custom kind v) = err (failed (codes "Invalid config for WebhookChannel"))

abbrev pub is_success : ℕ → Bool
is_success code = leb 200 code && ltb code 300

-- A client error that does not get better with retries.
abbrev pub is_final : ℕ → Bool
is_final code =
    (leb 400 code && ltb code 500)
    && (not (code == 408) && (not (code == 425) && not (code == 429)))

abbrev pub status_error : ℕ → Text → DeliveryError
status_error code line = if is_final code then permanent line else failed line

module _ {W : Type 0} (client : Client W) where
  -- The channel and the world after a failure of a delivery, which is recorded at its time.
  abbrev pub fail_with :
      DeliveryError
      → Text
      → WebhookChannel × W
      → Result DeliveryError DeliveryReceipt × (WebhookChannel × W)
  fail_with e url (ch, w) = let (t, w') = client.now w in (err e, (record_failure ch url t, w'))

  abbrev pub on_status :
      ℕ
      → Text
      → ℕ
      → WebhookChannel × W
      → Result DeliveryError DeliveryReceipt × (WebhookChannel × W)
  on_status start url code (ch, w) =
      let failing = fail_with (status_error code (client.status_line code)) url (ch, w) in
      let (done, w1) = client.now w in
      let (delivered_at, w2) = client.now w1 in
      if is_success code
      then (
        ok (record { delivered_at = delivered_at / 1000000; latency_us = (done - start) / 1000 }),
        (record_success ch url, w2),
      )
      else failing

  abbrev pub on_response :
      ℕ
      → Text
      → WebhookChannel
      → Result Text ℕ × W
      → Result DeliveryError DeliveryReceipt × (WebhookChannel × W)
  on_response start url ch (ok code, w) = on_status start url code (ch, w)
  on_response start url ch (err e, w) =
      fail_with (failed (codes "HTTP request failed: " ++ e)) url (ch, w)

  abbrev pub on_built :
      ℕ
      → Text
      → List (Text × Text)
      → Text
      → Text
      → ValidatedWebhookUrl
      → WebhookChannel
      → Result Text (Unit {0}) × W
      → Result DeliveryError DeliveryReceipt × (WebhookChannel × W)
  on_built start url headers subject event v ch (ok u, w) =
      on_response start url ch (client.send v url headers subject event w)
  on_built start url headers subject event v ch (err e, w) =
      fail_with (failed (codes "failed to build pinned client: " ++ e)) url (ch, w)

  abbrev pub on_validated :
      ℕ
      → Text
      → List (Text × Text)
      → Text
      → Text
      → WebhookChannel
      → Joined × W
      → Result DeliveryError DeliveryReceipt × (WebhookChannel × W)
  on_validated start url headers subject event ch (validated v, w) =
      on_built start url headers subject event v ch (client.build v w)
  on_validated start url headers subject event ch (refused e, w) =
      fail_with (permanent (codes "URL no longer passes SSRF policy: " ++ client.printed e)) url
        (ch, w)
  on_validated start url headers subject event ch (panicked e, w) =
      fail_with (failed (codes "validation task panicked: " ++ e)) url (ch, w)

  abbrev pub if_allowed :
      ℕ
      → Text
      → List (Text × Text)
      → Text
      → Text
      → W
      → Bool × WebhookChannel
      → Result DeliveryError DeliveryReceipt × (WebhookChannel × W)
  if_allowed start url headers subject event w (false, ch) = (err skipped, (ch, w))
  if_allowed start url headers subject event w (true, ch) =
      on_validated start url headers subject event ch (client.validate url ch.policy w)

  abbrev pub on_config :
      ℕ
      → Text
      → Text
      → WebhookChannel × W
      → Result DeliveryError (Text × List (Text × Text))
      → Result DeliveryError DeliveryReceipt × (WebhookChannel × W)
  on_config start event subject (ch, w) (err e) = (err e, (ch, w))
  on_config start event subject (ch, w) (ok (url, headers)) =
      let (t, w') = client.now w in
      if_allowed start url headers subject event w' (ensure_circuit_allows_delivery ch url t)

  unfoldable pub deliver :
      {V : Type 0}
      → Text
      → Text
      → ChannelConfig V
      → WebhookChannel × W
      → Result DeliveryError DeliveryReceipt × (WebhookChannel × W)
  deliver event subject config (ch, w) =
      let (start, w') = client.now w in
      on_config start event subject (ch, w') (extract_config config)

  abbrev pub is_alive : Result Text ℕ × W → Bool × W
  is_alive (ok code, w) = (is_success code || code == 405, w)
  is_alive (err e, w) = (false, w)

  abbrev pub probe :
      WebhookChannel → Result DeliveryError (Text × List (Text × Text)) → W → Bool × W
  probe ch (err e) w = (false, w)
  probe ch (ok (url, headers)) w =
      let (t, w') = client.now w in
      let alive = is_alive (client.head url headers w') in
      if circuit_blocks_health ch url t then (false, w') else alive

  unfoldable pub is_healthy : {V : Type 0} → ChannelConfig V → WebhookChannel → W → Bool × W
  is_healthy config ch = probe ch (extract_config config)
