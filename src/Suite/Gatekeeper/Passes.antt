-- ===== src/Suite/Gatekeeper/Passes.antt =====
-- The gatekeeper's tests pass, whatever the key, the crates and the clock, within what is documented.
use spmp.Prelude.{
  ℕ, ◌+◌, ◌^◌, ◌≤◌, ◌<◌, ◌≡◌, ◌≢◌, refl, arith, inl, inr, Option, some, Bytes, replicate,
  some_injective, sym, ◌++◌, ◌∙◌,
}
use spmp.Results.{ok, Profile, add_u64-small}
use spmp.Types.{
  B256, Ticket, TicketVerdict, valid_losing, valid_winning, invalid_signature, invalid_commitment,
  invalid_nonce, expired,
}
use spmp.Alloy.{Alloy, AlloyLaws}
use spmp.Verifier.{TicketVerifier, new, verify_ticket}
use spmp.Verifier.Verdict.{IsValidVerdict, Acceptable, SignedBy, verify_ticket-valid_iff}
use spmp.Verifier.Reject.{verify_ticket-reject_iff}
use spmp.Verifier.Gate.{IsConfigured, new-IsConfigured}
use spmp.Signer.{Wallet}
use spmp.Signer.Acceptance.{WalletLaws, sign_hash-Acceptable, sign_hash-SignedBy}
use spmp.Suite.{assert}
use spmp.Suite.Gatekeeper.{
  is_valid, verdict_eq, b256_zero, setup_verifier, ticket_for, test_verify_invalid_nonce,
  test_verify_invalid_commitment, test_verify_expired, test_verify_valid_ticket,
  test_verify_invalid_signature,
}

pub assert-IsValidVerdict :
    (verdict : TicketVerdict) → IsValidVerdict verdict → assert (is_valid verdict) ≡ ok tt
assert-IsValidVerdict verdict (inl e) = rw e
assert-IsValidVerdict verdict (inr e) = rw e

pub assert-verdict_eq : (a b : TicketVerdict) → a ≡ b → assert (verdict_eq a b) ≡ ok tt
assert-verdict_eq a valid_losing e = rw e
assert-verdict_eq a valid_winning e = rw e
assert-verdict_eq a invalid_signature e = rw e
assert-verdict_eq a invalid_commitment e = rw e
assert-verdict_eq a invalid_nonce e = rw e
assert-verdict_eq a expired e = rw e

-- A key signs whatever it is asked to.
abbrev pub Signs : {Key : Type 0} → Wallet Key → Key → Type 0
Signs wallet key = (digest : B256) → (bytes : Bytes) × (wallet.sign_hash key digest ≡ some bytes)

module _ {Sig : Type 0} (alloy : Alloy Sig) {Key : Type 0} (wallet : Wallet Key)
    (alloy_laws : AlloyLaws alloy) (wallet_laws : WalletLaws wallet alloy) where
  setup_verifier-IsConfigured :
      (provider_seed : B256) → IsConfigured alloy (setup_verifier alloy provider_seed)
  setup_verifier-IsConfigured provider_seed =
      new-IsConfigured alloy (replicate 20 0x11) (replicate 20 0x22) 31_337 provider_seed

  abbrev v : TicketVerifier
  v = setup_verifier alloy (replicate 32 0x77)

  pub conf : IsConfigured alloy v
  conf = setup_verifier-IsConfigured (replicate 32 0x77)

  -- A signature is one address's.
  SignedBy-unique :
      (w : TicketVerifier) (t : Ticket) (bytes : Bytes) (a b : Bytes)
      → SignedBy alloy w t bytes a
      → SignedBy alloy w t bytes b
      → a ≡ b
  SignedBy-unique w t bytes a b (sig, p, _, r) (sig', p', _, r') =
      let same = some_injective sig sig' (sym p ∙ p') in some_injective a b (sym r ∙ rw same r')

  -- The client's ticket for the commitment is acceptable.
  pub own-Acceptable :
      (key : Key) (t : Ticket) (bytes : Bytes) (later : ℕ)
      → t.nonce ≡ 1
      → t.provider_commitment ≡ v.provider_commitment
      → later < t.expiry
      → wallet.sign_hash key (alloy.eip712_signing_hash t v.domain) ≡ some bytes
      → Acceptable alloy (some later) v t bytes (wallet.address key) 0
  own-Acceptable key t bytes later en ec fresh e =
      sign_hash-Acceptable wallet alloy alloy_laws wallet_laws v t key bytes 0 later conf
        (omega (arith, en)) (omega arith) ec fresh e

  pub own-IsValidVerdict :
      (key : Key) (t : Ticket) (bytes : Bytes) (later : ℕ)
      → t.nonce ≡ 1
      → t.provider_commitment ≡ v.provider_commitment
      → later < t.expiry
      → wallet.sign_hash key (alloy.eip712_signing_hash t v.domain) ≡ some bytes
      → IsValidVerdict (verify_ticket alloy (some later) v t bytes (wallet.address key) 0)
  own-IsValidVerdict key t bytes later en ec fresh e =
      (verify_ticket-valid_iff alloy v t bytes (wallet.address key) 0 (omega arith) (some later)).1
        (own-Acceptable key t bytes later en ec fresh e)

  pub test_verify_invalid_nonce-passes :
      (key : Key) (gate_clock : Option ℕ)
      → Signs wallet key
      → test_verify_invalid_nonce alloy wallet key gate_clock ≡ ok tt
  unfolding test_verify_invalid_nonce
  test_verify_invalid_nonce-passes key gate_clock signs =
      let t =
        ticket_for b256_zero 5 1_000 1 1_000 9_999_999_999 b256_zero v.provider_commitment v in
      let (bytes, e) = signs (alloy.eip712_signing_hash t v.domain) in
      rw e (
        assert-verdict_eq _ invalid_nonce (
          (verify_ticket-reject_iff alloy v t bytes (wallet.address key) 0 (omega arith)
              gate_clock).0.1
            (λ (same, _). absurd (omega (arith, same)))))

  pub test_verify_invalid_commitment-passes :
      (key : Key) (gate_clock : Option ℕ)
      → Signs wallet key
      → replicate 32 0x99 ≢ alloy.keccak256 (replicate 32 0x77)
      → test_verify_invalid_commitment alloy wallet key gate_clock ≡ ok tt
  unfolding test_verify_invalid_commitment new
  test_verify_invalid_commitment-passes key gate_clock signs other =
      let t = ticket_for b256_zero 1 1_000 1 1_000 9_999_999_999 b256_zero (replicate 32 0x99) v in
      let (bytes, e) = signs (alloy.eip712_signing_hash t v.domain) in
      rw e (
        assert-verdict_eq _ invalid_commitment (
          (verify_ticket-reject_iff alloy v t bytes (wallet.address key) 0 (omega arith)
              gate_clock).1.1
            ((refl, omega arith), other)))

  pub test_verify_expired-passes :
      (key : Key) (later : ℕ)
      → Signs wallet key
      → 100 ≤ later
      → test_verify_expired alloy wallet key (some later) ≡ ok tt
  unfolding test_verify_expired
  test_verify_expired-passes key later signs h =
      let t = ticket_for b256_zero 1 1_000 1 1_000 100 b256_zero v.provider_commitment v in
      let (bytes, e) = signs (alloy.eip712_signing_hash t v.domain) in
      rw e (
        assert-verdict_eq _ expired (
          (verify_ticket-reject_iff alloy v t bytes (wallet.address key) 0 (omega arith)
              (some later)).2.1
            (
              (refl, omega arith),
              refl,
              λ (seconds, same, early).
                  let same' = some_injective later seconds same in absurd (omega arith),
            )))

  module _ (profile : Profile) where
    pub test_verify_valid_ticket-passes :
        (key : Key) (now later : ℕ)
        → Signs wallet key
        → now + 3_600 < 2 ^ 64
        → later < now + 3_600
        → test_verify_valid_ticket alloy wallet profile key (some now) (some later) ≡ ok tt
    unfolding test_verify_valid_ticket
    test_verify_valid_ticket-passes key now later signs fits fresh =
        let channel_id = alloy.keccak256 (wallet.address key ++ v.provider_address) in
        let t =
          ticket_for channel_id 1 1_000_000 1 1_000 (now + 3_600) (replicate 32 0xaa)
            v.provider_commitment v in
        let (bytes, e) = signs (alloy.eip712_signing_hash t v.domain) in
        rw (add_u64-small profile now 3_600 fits, e)
          (assert-IsValidVerdict _ (own-IsValidVerdict key t bytes later refl refl fresh e))

    -- Another address is recovered from what another key signs.
    pub test_verify_invalid_signature-passes :
        (key malicious : Key) (now later : ℕ)
        → Signs wallet malicious
        → wallet.address malicious ≢ wallet.address key
        → now + 3_600 < 2 ^ 64
        → later < now + 3_600
        → test_verify_invalid_signature alloy wallet profile key malicious (some now) (some later)
          ≡ ok tt
    unfolding test_verify_invalid_signature
    test_verify_invalid_signature-passes key malicious now later signs other fits fresh =
        let t =
          ticket_for b256_zero 1 1_000 1 1_000 (now + 3_600) b256_zero v.provider_commitment v in
        let (bytes, e) = signs (alloy.eip712_signing_hash t v.domain) in
        let by_malicious =
          sign_hash-SignedBy wallet alloy alloy_laws wallet_laws v t malicious bytes conf.separated
            e in
        rw (add_u64-small profile now 3_600 fits, e)
          (assert-verdict_eq _ invalid_signature (
            (verify_ticket-reject_iff alloy v t bytes (wallet.address key) 0 (omega arith)
                (some later)).3.1
              (
                (refl, omega arith),
                refl,
                (later, refl, fresh),
                λ by_client. other (SignedBy-unique v t bytes _ _ by_malicious by_client),
              )))
