-- ===== src/Simulate/Honest.antt =====
-- The audit's own tickets are never rejected.
use spmp.Prelude.{ℕ, ◌+◌, ◌-◌, ◌≤◌, ◌<◌, ◌≡◌, refl, arith, some, Bytes}
use spmp.Prelude.Words.{u64_max}
use spmp.Results.{Profile}
use spmp.Alloy.{Alloy, AlloyLaws}
use spmp.Verifier.{TicketVerifier, verify_ticket}
use spmp.Verifier.Verdict.{IsValidVerdict, verify_ticket-valid_iff}
use spmp.Verifier.Gate.{IsConfigured}
use spmp.Signer.{Wallet}
use spmp.Signer.Acceptance.{WalletLaws, sign_hash-Acceptable}
use spmp.Simulate.{Setting, Round, audit_ticket}

-- The clock can be read, and when the ticket is checked it has not moved on by a day or more.
abbrev pub Timely : Round → Type 0
Timely round =
    (now : ℕ) × (later : ℕ) × (round.now ≡ some now)
    × (round.gate_now ≡ some later)
    × (now + 86_400 ≤ u64_max)
    × (later < now + 86_400)

module _ {Key : Type 0} (wallet : Wallet Key) {Sig : Type 0} (alloy : Alloy Sig)
    (alloy_laws : AlloyLaws alloy) (wallet_laws : WalletLaws wallet alloy) (profile : Profile)
    (set : Setting Key) (own_address : set.client_addr ≡ wallet.address set.client_signer) where
  pub valid_audit_ticket :
      (v : TicketVerifier) (round : Round) (nonce expiry later : ℕ) (bytes : Bytes)
      → IsConfigured alloy v
      → round.gate_now ≡ some later
      → later < expiry
      → 1 ≤ nonce
      → nonce ≤ u64_max
      → let t = audit_ticket alloy wallet profile set round nonce expiry v in
        wallet.sign_hash set.client_signer (alloy.eip712_signing_hash t v.domain) ≡ some bytes
        → IsValidVerdict (verify_ticket alloy round.gate_now v t bytes set.client_addr (nonce - 1))
  valid_audit_ticket v round nonce expiry later bytes conf clock fresh h₁ h₂ e =
      let t = audit_ticket alloy wallet profile set round nonce expiry v in
      rw (clock, own_address)
        ((verify_ticket-valid_iff alloy v t bytes (wallet.address set.client_signer) (nonce - 1)
            (omega arith) (some later)).1
          (sign_hash-Acceptable wallet alloy alloy_laws wallet_laws v t set.client_signer bytes
            (nonce - 1) later conf (omega arith) (omega arith) refl fresh e))
