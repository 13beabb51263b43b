-- ===== src/ClientTypes.antt =====
-- client-daemon/src/types.rs: what it declares of its own. Its `Ticket` and `MsgType` are those of
-- `Types`.
use spmp.Prelude.{ℕ, Bytes}
use spmp.Types.{B256, Address}

pub record PricingConfig : Type 0 where
  pub face_value : ℕ
  pub win_prob_numerator : ℕ
  pub win_prob_denominator : ℕ
  pub expiry_duration_sec : ℕ

-- `PricingConfig::default()`
abbrev pub default_pricing : PricingConfig
default_pricing = record {
  face_value = 50_000;
  win_prob_numerator = 1;
  win_prob_denominator = 50;
  expiry_duration_sec = 86_400;
}

pub record TicketPayload : Type 0 where
  pub channel_id : B256
  pub provider : Address
  pub nonce : ℕ
  pub face_value : ℕ
  pub win_prob_numerator : ℕ
  pub win_prob_denominator : ℕ
  pub expiry : ℕ
  pub client_seed : B256
  pub provider_commitment : B256

pub record SignedTicket : Type 0 where
  pub payload : TicketPayload
  pub signature : Bytes
