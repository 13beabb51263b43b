-- ===== src/Signer/Acceptance.antt =====
-- The signer of the client against the gatekeeper of the provider.
use spmp.Prelude.{
  ℕ, ◌+◌, ◌*◌, ◌^◌, ◌≤◌, ◌<◌, ◌≡◌, ◌∙◌, sym, ap, refl, arith, lt→ltb, Option, none, some, Bytes,
}
use spmp.Prelude.Words.{u64_max}
use spmp.Results.{add_u64-small, ok, err, Profile, clock_before_epoch}
use spmp.Types.{B256, invalid_nonce, secp256k1_n}
use spmp.ClientTypes.{SignedTicket}
use spmp.Client.{ticket_sol}
use spmp.Alloy.{Alloy, AlloyLaws}
use spmp.Signer.{Wallet, Signer, sign_next_ticket, sign_ticket}
use spmp.Signer.Tickets.{Call, SignedFor, sign, sign-SignedFor, payload_of, signed_content}
use spmp.Signer.Nonces.{next_watermark}
use spmp.Verifier.{TicketVerifier, verify_ticket}
use spmp.Verifier.Digest.{ticket_digest-signing_hash}
use spmp.Verifier.Gate.{IsConfigured}
use spmp.Types.{Ticket}
use spmp.Verifier.Verdict.{Acceptable, IsValidVerdict, SignedBy, verify_ticket-valid_iff}
use spmp.Verifier.Reject.{verify_ticket-reject_iff}

-- The documented behaviour of alloy's local signer: its signatures parse, they have the lower of the
-- two s-values, and the address that is recovered from them is that of the key.
pub record WalletLaws {Key Sig : Type 0} (wallet : Wallet Key) (alloy : Alloy Sig) : Type 0 where
  pub sign_hash_lem :
      (key : Key) (digest : B256) (bytes : Bytes)
      → wallet.sign_hash key digest ≡ some bytes
      → (sig : Sig) × (alloy.signature_try_from bytes ≡ some sig)
        × (2 * alloy.signature_s sig ≤ secp256k1_n)
        × (alloy.recover_address_from_prehash sig digest ≡ some (wallet.address key))

module _ {Key : Type 0} (wallet : Wallet Key) {Sig : Type 0} (alloy : Alloy Sig)
    (alloy_laws : AlloyLaws alloy) (wallet_laws : WalletLaws wallet alloy) where
  -- What a key signs of a ticket recovers to the key's address, for a gatekeeper with the separator
  -- of its domain.
  pub sign_hash-SignedBy :
      (v : TicketVerifier) (t : Ticket) (key : Key) (bytes : Bytes)
      → v.domain_separator ≡ alloy.hash_struct v.domain
      → wallet.sign_hash key (alloy.eip712_signing_hash t v.domain) ≡ some bytes
      → SignedBy alloy v t bytes (wallet.address key)
  sign_hash-SignedBy v t key bytes es e =
      let (sig, parsed, low, found) = wallet_laws.sign_hash_lem key _ _ e in
      let digest = ticket_digest-signing_hash alloy alloy_laws v t es in
      (sig, parsed, omega arith, rw digest found)

  -- What a key signs of a ticket in order, with the gatekeeper's commitment and in time, is
  -- acceptable.
  pub sign_hash-Acceptable :
      (v : TicketVerifier) (t : Ticket) (key : Key) (bytes : Bytes) (last later : ℕ)
      → IsConfigured alloy v
      → t.nonce ≡ last + 1
      → last < u64_max
      → t.provider_commitment ≡ v.provider_commitment
      → later < t.expiry
      → wallet.sign_hash key (alloy.eip712_signing_hash t v.domain) ≡ some bytes
      → Acceptable alloy (some later) v t bytes (wallet.address key) last
  sign_hash-Acceptable v t key bytes last later conf en below ec fresh e =
      (en, below, ec, (later, refl, fresh), sign_hash-SignedBy v t key bytes conf.separated e)

module _ {Key : Type 0} (wallet : Wallet Key) {Sig : Type 0} (alloy : Alloy Sig)
    (alloy_laws : AlloyLaws alloy) (wallet_laws : WalletLaws wallet alloy) (profile : Profile) where
  -- What goes over the wire is what was signed.
  ticket_sol-signed_content :
      (c : Call) (self : Signer Key) (nonce expiry : ℕ) (t : SignedTicket)
      → c.pricing.face_value < 2 ^ 128
      → t.payload ≡ payload_of c self nonce expiry
      → ticket_sol t ≡ signed_content c self nonce expiry
  unfolding ticket_sol
  ticket_sol-signed_content c self nonce expiry t small packed =
      rw (packed, lt→ltb c.pricing.face_value (2 ^ 128) small)

  signed-SignedBy :
      (v : TicketVerifier) (c : Call) (self : Signer Key) (nonce : ℕ) (t : SignedTicket)
      → v.domain ≡ self.domain
      → v.domain_separator ≡ alloy.hash_struct v.domain
      → self.client_address ≡ wallet.address self.signer
      → SignedFor wallet alloy profile c self nonce t
      → SignedBy alloy v (ticket_sol t) t.signature self.client_address
  signed-SignedBy v c self nonce t ed es ea (now, expiry, _, _, small, packed, sealed) =
      let content = ticket_sol-signed_content c self nonce expiry t small packed in
      let by_key : wallet.sign_hash self.signer (alloy.eip712_signing_hash (ticket_sol t) v.domain)
          ≡ some t.signature =
        rw (content, ed) sealed in
      rw ea (
        sign_hash-SignedBy wallet alloy alloy_laws wallet_laws v (ticket_sol t) self.signer
          t.signature es by_key)

  -- A ticket that the signer makes and the encoder puts on the wire gets a valid verdict, if the
  -- gatekeeper has the signer's domain, the separator of that domain and the commitment that the
  -- signer was given, the signer's address is that of its key, the gatekeeper's watermark is
  -- that of the signer and below the last u64, and its clock reads less than the expiry. Hashing
  -- and signing are as alloy documents them.
  pub signed_ticket_accepted :
      (v : TicketVerifier) (c : Call) (self : Signer Key) (t : SignedTicket) (now : ℕ)
      → v.domain ≡ self.domain
      → v.domain_separator ≡ alloy.hash_struct v.domain
      → self.client_address ≡ wallet.address self.signer
      → c.provider_commitment ≡ v.provider_commitment
      → self.nonce_watermark < u64_max
      → (sign wallet alloy profile c self).0 ≡ ok t
      → now < t.payload.expiry
      → IsValidVerdict (
          verify_ticket alloy
            (some now)
            v
            (ticket_sol t)
            t.signature
            self.client_address
            self.nonce_watermark)
  unfolding ticket_sol
  signed_ticket_accepted v c self t now ed es ea ec below signed fresh =
      let w = self.nonce_watermark in
      let made = sign-SignedFor wallet alloy profile c self t below signed in
      let (_, _, _, _, _, packed, _) = made in
      let by_client = signed-SignedBy v c self (w + 1) t ed es ea made in
      (verify_ticket-valid_iff alloy v (ticket_sol t) t.signature self.client_address w
          (omega arith) (some now)).1
        (
          ap (λ p. p.nonce) packed,
          below,
          ap (λ p. p.provider_commitment) packed ∙ ec,
          (now, refl, fresh),
          by_client,
        )

module _ {Key : Type 0} (wallet : Wallet Key) {Sig : Type 0} (alloy : Alloy Sig)
    (profile : Profile) where
  -- A call to whose question the clock has no answer fails, and uses a nonce up: where the
  -- watermark plus one is below the last u64 and the next call succeeds, its ticket is rejected
  -- for its nonce by a gatekeeper that was level with the signer before the failure, whatever
  -- its clock says and whoever it takes the client for.
  pub failed_call_desyncs :
      (v : TicketVerifier) (missed c : Call) (self : Signer Key) (t : SignedTicket) (now : Option ℕ)
      (client : Bytes)
      → missed.clock ≡ none
      → self.nonce_watermark + 1 < u64_max
      → let (r, self') = sign wallet alloy profile missed self in
        (sign wallet alloy profile c self').0 ≡ ok t
        → (r ≡ err clock_before_epoch)
          × (verify_ticket alloy now v (ticket_sol t) t.signature client self.nonce_watermark
              ≡ invalid_nonce)
  unfolding ticket_sol sign_next_ticket sign_ticket
  failed_call_desyncs v missed c self t now client no_clock below signed =
      let w = self.nonce_watermark in
      let moved = next_watermark wallet alloy profile missed self (omega arith) in
      let (_, _, _, _, _, packed, _) =
        sign-SignedFor wallet alloy profile c (record self { nonce_watermark = w + 1 }) t below
          (ap (λ m. (sign wallet alloy profile c m).0) (sym moved) ∙ signed) in
      let refused =
        (verify_ticket-reject_iff alloy v (ticket_sol t) t.signature client w (omega arith) now).0.1
          (λ (same, _). absurd (omega (arith, ap (λ p. p.nonce) packed))) in
      (rw (add_u64-small profile w 1 (omega arith), no_clock), refused)
