-- ===== src/Signer/Tickets.antt =====
-- What a ticket of the signer holds.
use spmp.Prelude.{ℕ, ◌+◌, ◌^◌, ◌<◌, ◌≡◌, ◌∙◌, ap, sym, arith, Option, some}
use spmp.Prelude.Words.{u64_max}
use spmp.Results.{
  Result, ok, ok_or, unwrap, Profile, add_u64, add_u64-small, clock_before_epoch, ◌>>=◌,
}
use spmp.Results.Inversion.{>>=_ok, ok_or-ok, unwrap-ok}
use spmp.Types.{B256, Ticket}
use spmp.ClientTypes.{PricingConfig, TicketPayload, SignedTicket}
use spmp.Alloy.{Alloy}
use spmp.Signer.{
  Wallet, Signer, sign_next_ticket, sign_ticket, sign_content, to_u128, compute_eip712_digest,
}

-- What a call of `sign_next_ticket` is given.
pub record Call : Type 0 where
  pub client_seed : B256
  pub clock : Option ℕ
  pub provider_commitment : B256
  pub pricing : PricingConfig

module _ {Key : Type 0} (c : Call) (self : Signer Key) (nonce expiry : ℕ) where
  abbrev pub payload_of : TicketPayload
  payload_of = record {
    channel_id = self.channel_id;
    provider = self.provider_address;
    nonce = nonce;
    face_value = c.pricing.face_value;
    win_prob_numerator = c.pricing.win_prob_numerator;
    win_prob_denominator = c.pricing.win_prob_denominator;
    expiry = expiry;
    client_seed = c.client_seed;
    provider_commitment = c.provider_commitment;
  }

  abbrev pub signed_content : Ticket
  signed_content = record {
    channel_id = self.channel_id;
    provider = self.provider_address;
    nonce = nonce;
    face_value = c.pricing.face_value;
    win_prob_numerator = c.pricing.win_prob_numerator;
    win_prob_denominator = c.pricing.win_prob_denominator;
    expiry = expiry;
    client_seed = c.client_seed;
    provider_commitment = c.provider_commitment;
  }

module _ {Key : Type 0} (wallet : Wallet Key) {Sig : Type 0} (alloy : Alloy Sig)
    (profile : Profile) where
  -- The ticket is made of the call, the signer and the nonce, it expires as long after the clock's
  -- time as the pricing says, and it carries the signature of what it holds.
  abbrev pub SignedFor : Call → Signer Key → ℕ → SignedTicket → Type 0
  SignedFor c self nonce t =
      (now : ℕ) × (expiry : ℕ) × (c.clock ≡ some now)
      × (add_u64 profile now c.pricing.expiry_duration_sec ≡ ok expiry)
      × (c.pricing.face_value < 2 ^ 128)
      × (t.payload ≡ payload_of c self nonce expiry)
      × (wallet.sign_hash self.signer
            (alloy.eip712_signing_hash (signed_content c self nonce expiry) self.domain)
          ≡ some t.signature)

  to_u128-some : (n m : ℕ) → to_u128 n ≡ some m → (n < 2 ^ 128) × (m ≡ n)
  to_u128-some n m h = (ground arith, ground arith)

  sign_content_inv :
      (c : Call) (self : Signer Key) (nonce expiry face_value : ℕ) (t : SignedTicket)
      → face_value ≡ c.pricing.face_value
      → sign_content wallet alloy c.client_seed self c.provider_commitment c.pricing nonce expiry
          face_value
        ≡ ok t
      → (t.payload ≡ payload_of c self nonce expiry)
        × (wallet.sign_hash self.signer
              (alloy.eip712_signing_hash (signed_content c self nonce expiry) self.domain)
            ≡ some t.signature)
  unfolding sign_content compute_eip712_digest
  sign_content_inv c self nonce expiry face_value t same h = (ground arith, ground arith)

  priced :
      (c : Call) (self : Signer Key) (nonce now expiry : ℕ) (t : SignedTicket)
      → c.clock ≡ some now
      → add_u64 profile now c.pricing.expiry_duration_sec ≡ ok expiry
      → (face_value : ℕ) × (unwrap (to_u128 c.pricing.face_value) ≡ ok face_value)
        × (sign_content wallet alloy c.client_seed self c.provider_commitment c.pricing nonce expiry
              face_value
            ≡ ok t)
      → SignedFor c self nonce t
  priced c self nonce now expiry t e₁ e₂ (face_value, e₃, h) =
      let (small, same) = to_u128-some c.pricing.face_value face_value (unwrap-ok _ _ e₃) in
      let (packed, sealed) = sign_content_inv c self nonce expiry face_value t same h in
      (now, expiry, e₁, e₂, small, packed, sealed)

  pub sign_ticket-SignedFor :
      (c : Call) (self : Signer Key) (nonce : ℕ) (t : SignedTicket)
      → sign_ticket wallet alloy profile c.client_seed c.clock self c.provider_commitment c.pricing
          nonce
        ≡ ok t
      → SignedFor c self nonce t
  unfolding sign_ticket
  sign_ticket-SignedFor c self nonce t h = timed (>>=_ok _ _ t h)
    where
      dated :
          (now : ℕ)
          → c.clock ≡ some now
          → (expiry : ℕ) × (add_u64 profile now c.pricing.expiry_duration_sec ≡ ok expiry)
            × ((unwrap (to_u128 c.pricing.face_value) >>= λ face_value.
                  sign_content wallet alloy c.client_seed self c.provider_commitment c.pricing nonce
                    expiry face_value)
                ≡ ok t)
          → SignedFor c self nonce t
      dated now e₁ (expiry, e₂, h₂) = priced c self nonce now expiry t e₁ e₂ (>>=_ok _ _ t h₂)

      timed :
          (now : ℕ) × (ok_or c.clock clock_before_epoch ≡ ok now)
            × ((add_u64 profile now c.pricing.expiry_duration_sec >>= λ expiry.
                  unwrap (to_u128 c.pricing.face_value) >>= λ face_value.
                  sign_content wallet alloy c.client_seed self c.provider_commitment c.pricing nonce
                    expiry face_value)
                ≡ ok t)
          → SignedFor c self nonce t
      timed (now, e₁, h₁) = dated now (ok_or-ok _ _ _ e₁) (>>=_ok _ _ t h₁)

  abbrev pub sign : Call → Signer Key → Result SignedTicket × Signer Key
  sign c self =
      sign_next_ticket wallet alloy profile c.client_seed c.clock c.provider_commitment c.pricing
        self

  -- A call that succeeds where the watermark is below the last u64 signs a ticket for the watermark
  -- plus one.
  pub sign-SignedFor :
      (c : Call) (self : Signer Key) (t : SignedTicket)
      → self.nonce_watermark < u64_max
      → (sign c self).0 ≡ ok t
      → SignedFor c self (self.nonce_watermark + 1) t
  unfolding sign_next_ticket
  sign-SignedFor c self t below h = sign_ticket-SignedFor c self (self.nonce_watermark + 1) t (
      ap
        (λ m.
          m
          >>= sign_ticket wallet alloy profile c.client_seed c.clock self c.provider_commitment
              c.pricing)
        (sym (add_u64-small profile self.nonce_watermark 1 (omega arith)))
      ∙ h)
