-- ===== src/Verifier/Verdict.antt =====
-- When the gatekeeper accepts a ticket, when the ticket wins, and why one is rejected.
use spmp.Prelude.{ℕ, ◌+◌, ◌≤◌, ◌<◌, ◌≡◌, ◌↔◌, ◌⊎◌, inl, inr, arith, refl}
use spmp.Prelude.{
  Bytes, Option, none, some, true, bytes_eq_iff, bytes_eq, bytes_eq_sound, bytes_eq_self,
  Option-cases,
}
use spmp.Prelude.Words.{u64_max}
use spmp.Types.{B256, Address, Ticket, TicketVerdict, secp256k1_half_order}
use spmp.Types.{valid_losing, valid_winning}
use spmp.Alloy.{Alloy}
use spmp.Verifier.{TicketVerifier, ticket_digest, entropy_verdict}
use spmp.Verifier.{recovered, verify_signed, verify_ticket}

abbrev pub IsValidVerdict : TicketVerdict → Type 0
IsValidVerdict verdict = (verdict ≡ valid_losing) ⊎ (verdict ≡ valid_winning)

-- The clock reads less than the ticket's expiry.
abbrev pub Unexpired : Option ℕ → Ticket → Type 0
Unexpired now t = (seconds : ℕ) × (now ≡ some seconds) × (seconds < t.expiry)

module _ {Sig : Type 0} (alloy : Alloy Sig) where
  -- The signature parses, its s is in the accepted half, and it recovers to the client.
  abbrev pub SignedBy : TicketVerifier → Ticket → Bytes → Address → Type 0
  SignedBy v t bytes client =
      (sig : Sig) × (alloy.signature_try_from bytes ≡ some sig)
      × (alloy.signature_s sig ≤ secp256k1_half_order)
      × (alloy.recover_address_from_prehash sig (ticket_digest alloy v t) ≡ some client)

  pub recovered_iff :
      (v : TicketVerifier) (t : Ticket) (bytes : Bytes) (client : Address)
      → (recovered alloy v t bytes ≡ some client) ↔ SignedBy v t bytes client
  unfolding recovered
  recovered_iff v t bytes client = (
    λ h. elim (Option-cases (alloy.signature_try_from bytes)) [
      | inl failed ↦ absurd (ground arith)
      | inr (sig, e) ↦ (sig, e, ground arith, ground arith)
    ],
    λ (sig, e, low, r). ground arith,
  )

  -- The entropy step never rejects.
  entropy_verdict-IsValidVerdict :
      (v : TicketVerifier) (t : Ticket) (digest : B256)
      → IsValidVerdict (entropy_verdict alloy v t digest)
  unfolding entropy_verdict
  entropy_verdict-IsValidVerdict v t digest = ground arith

  pub verify_signed_iff :
      (v : TicketVerifier) (t : Ticket) (bytes : Bytes) (client : Address)
      → IsValidVerdict (verify_signed alloy v t bytes client)
        ↔ (recovered alloy v t bytes ≡ some client)
  unfolding verify_signed
  verify_signed_iff v t bytes client = (
    λ h. elim (Option-cases (recovered alloy v t bytes)) [
      | inl e ↦ absurd (ground arith)
      | inr (a, e) ↦ ground (arith, bytes_eq_sound a client)
    ],
    λ e.
        ground (
          arith,
          bytes_eq_self client,
          entropy_verdict-IsValidVerdict v t (ticket_digest alloy v t),
        ),
  )

  -- What a valid verdict needs.
  abbrev pub Acceptable : Option ℕ → TicketVerifier → Ticket → Bytes → Address → ℕ → Type 0
  Acceptable now v t bytes client last_nonce =
      (t.nonce ≡ last_nonce + 1)
      × (last_nonce < u64_max)
      × (t.provider_commitment ≡ v.provider_commitment)
      × Unexpired now t
      × SignedBy v t bytes client

module _ {Sig : Type 0} (alloy : Alloy Sig) (v : TicketVerifier) (t : Ticket) (bytes : Bytes)
    (client : Address) (last : ℕ) (u64 : last ≤ u64_max) where
  -- The tests before the signature, each passed.
  pub guards_passed :
      (now : Option ℕ)
      → IsValidVerdict (verify_ticket alloy now v t bytes client last)
      → (t.nonce ≡ last + 1)
        × (last < u64_max)
        × (bytes_eq t.provider_commitment v.provider_commitment ≡ true)
        × Unexpired now t
        × IsValidVerdict (verify_signed alloy v t bytes client)
  unfolding verify_ticket
  guards_passed none h = absurd (ground arith)
  guards_passed (some seconds) h =
      (ground arith, ground arith, ground arith, (seconds, refl, ground arith), ground arith)

  -- With the tests before the signature passed, the verdict is that on the signature.
  pub guards_skip :
      (now : Option ℕ)
      → t.nonce ≡ last + 1
      → last < u64_max
      → t.provider_commitment ≡ v.provider_commitment
      → Unexpired now t
      → verify_ticket alloy now v t bytes client last ≡ verify_signed alloy v t bytes client
  unfolding verify_ticket
  guards_skip now en hl ec (seconds, e, h) =
      rw e (ground (arith, bytes_eq_iff t.provider_commitment v.provider_commitment))

  -- For a watermark within u64, a ticket gets a valid verdict exactly when its nonce is the
  -- watermark plus one and the watermark is not the last u64, it carries the provider's current
  -- commitment, the clock reads less than its expiry, and its signature parses, has an s of at
  -- most the half-order constant and recovers to the client from the gatekeeper's digest.
  pub verify_ticket-valid_iff :
      (now : Option ℕ)
      → IsValidVerdict (verify_ticket alloy now v t bytes client last)
        ↔ Acceptable alloy now v t bytes client last
  verify_ticket-valid_iff now = (
    λ h.
        let (en, hl, ec, fresh, s) = guards_passed now h in
        (
          en,
          hl,
          bytes_eq_sound _ _ ec,
          fresh,
          (recovered_iff alloy v t bytes client).0 ((verify_signed_iff alloy v t bytes client).0 s),
        ),
    λ (en, hl, ec, fresh, s).
        rw (guards_skip now en hl ec fresh) (
          (verify_signed_iff alloy v t bytes client).1
            ((recovered_iff alloy v t bytes client).1 s)),
  )
