-- ===== src/Channel.antt =====
-- Delivery channels as metadata of a subscription: `ChannelConfig` of
-- crates/core/seidrum-eventbus/src/delivery/mod.rs, and the errors a channel reports.
use seidrum.Base.{Text, List}

pub data ChannelConfig (V : Type 0) : Type 0 where
  in_process web_socket : ChannelConfig V
  webhook : Text → List (Text × Text) → ChannelConfig V
  custom : Text → V → ChannelConfig V

pub data DeliveryError : Type 0 where
  failed permanent : Text → DeliveryError
  not_ready : DeliveryError
