-- ===== src/Signer.antt =====
-- client-daemon/src/crypto.rs: the client's signer. A signer is used by one call at a time here; calls
-- in parallel, which share the watermark by `fetch_add`, are in Signer/Parallel.
pub mod Tickets
pub mod Nonces
pub mod Acceptance
pub mod Parallel
mod Examples
use spmp.Prelude.{
  ℕ, ◌+◌, ◌%◌, ◌^◌, Option, none, some, [], ◌∷◌, Bytes, ltb, ◌==◌, ◌&&◌, if◌then◌else◌,
}
use spmp.Prelude.Words.{u64_max}
use spmp.Results.{Result, ok, err, ok_or, unwrap, Profile, add_u64, ◌>>=◌}
use spmp.Results.{bad_private_key, clock_before_epoch, signing_failed}
use spmp.Types.{B256, Address, Ticket}
use spmp.ClientTypes.{PricingConfig, TicketPayload, SignedTicket}
use spmp.Alloy.{Alloy, Eip712Domain}

-- What the client takes from alloy's local signer, another crate that is not part of the repository:
-- a private key parsed from hex digits, its address, and the 65 bytes of a signature; `none` where
-- they fail.
pub record Wallet (Key : Type 0) : Type 0 where
  pub parse : Bytes → Option Key
  pub address : Key → Address
  pub sign_hash : Key → B256 → Option Bytes

pub record Signer (Key : Type 0) : Type 0 where
  pub signer : Key
  pub client_address : Address
  pub channel_id : B256
  pub provider_address : Address
  pub contract_address : Address
  pub chain_id : ℕ
  pub nonce_watermark : ℕ
  pub domain : Eip712Domain

-- `hex_key.strip_prefix("0x").unwrap_or(hex_key)`, a string being its bytes.
abbrev pub strip_0x : Bytes → Bytes
strip_0x [] = []
strip_0x (a ∷ []) = a ∷ []
strip_0x (a ∷ b ∷ rest) = if (a == 0x30) && (b == 0x78) then rest else a ∷ b ∷ rest

-- `face_value.to::<u128>()`, which panics past 128 bits.
abbrev pub to_u128 : ℕ → Option ℕ
to_u128 n = if ltb n (2 ^ 128) then some n else none

module _ {Key : Type 0} (wallet : Wallet Key) where
  unfoldable pub new : Bytes → B256 → Address → Address → ℕ → Result (Signer Key)
  new hex_key channel_id provider_address contract_address chain_id = do
    signer ← ok_or (wallet.parse (strip_0x hex_key)) bad_private_key
    ok (record {
      signer = signer;
      client_address = wallet.address signer;
      channel_id = channel_id;
      provider_address = provider_address;
      contract_address = contract_address;
      chain_id = chain_id;
      nonce_watermark = 0;
      domain = record {
        name = some "SPMP_Protocol";
        version = some "1";
        chain_id = some chain_id;
        verifying_contract = some contract_address;
        salt = none;
      };
    })

  module _ {Sig : Type 0} (alloy : Alloy Sig) where
    unfoldable pub compute_eip712_digest : Signer Key → Ticket → B256
    compute_eip712_digest self ticket = alloy.eip712_signing_hash ticket self.domain

    -- Steps 4 to 7 of `sign_next_ticket`: the ticket is put together, signed and packed.
    unfoldable pub sign_content :
        B256 → Signer Key → B256 → PricingConfig → ℕ → ℕ → ℕ → Result SignedTicket
    sign_content client_seed self provider_commitment pricing nonce expiry face_value =
        let sol_ticket : Ticket = record {
          channel_id = self.channel_id;
          provider = self.provider_address;
          nonce = nonce;
          face_value = face_value;
          win_prob_numerator = pricing.win_prob_numerator;
          win_prob_denominator = pricing.win_prob_denominator;
          expiry = expiry;
          client_seed = client_seed;
          provider_commitment = provider_commitment;
        } in
        let payload : TicketPayload = record {
          channel_id = self.channel_id;
          provider = self.provider_address;
          nonce = nonce;
          face_value = pricing.face_value;
          win_prob_numerator = pricing.win_prob_numerator;
          win_prob_denominator = pricing.win_prob_denominator;
          expiry = expiry;
          client_seed = client_seed;
          provider_commitment = provider_commitment;
        } in
        elim (wallet.sign_hash self.signer (compute_eip712_digest self sol_ticket)) [
          | none ↦ err signing_failed
          | some sig_bytes ↦ ok (record { payload = payload; signature = sig_bytes })
        ]

    -- Step 3, and the conversion of the face value.
    unfoldable pub sign_ticket :
        Profile → B256 → Option ℕ → Signer Key → B256 → PricingConfig → ℕ → Result SignedTicket
    sign_ticket profile client_seed clock self provider_commitment pricing nonce = do
      now ← ok_or clock clock_before_epoch
      expiry ← add_u64 profile now pricing.expiry_duration_sec
      face_value ← unwrap (to_u128 pricing.face_value)
      sign_content client_seed self provider_commitment pricing nonce expiry face_value

    -- One call, over the 32 random bytes that it draws and the answer of the system clock. The
    -- watermark wraps; `+ 1` on what it was is checked as the build says.
    unfoldable pub sign_next_ticket :
        Profile
        → B256
        → Option ℕ
        → B256
        → PricingConfig
        → Signer Key
        → Result SignedTicket × Signer Key
    sign_next_ticket profile client_seed clock provider_commitment pricing self = (
      add_u64 profile self.nonce_watermark 1 >>= λ nonce.
          sign_ticket profile client_seed clock self provider_commitment pricing nonce,
      record self { nonce_watermark = (self.nonce_watermark + 1) % 2 ^ 64 },
    )
