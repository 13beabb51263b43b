-- ===== src/Suite/Gatekeeper/Twin.antt =====
-- provider-daemon/src/verifier.rs, `mod tests`: the test of the malleable twin of a signature, and when
-- it passes.
use spmp.Prelude.{
  ℕ, ◌+◌, ◌^◌, ◌≤◌, ◌<◌, ◌≡◌, ◌↔◌, ◌⊎◌, ◌∙◌, sym, ap, refl, arith, inl, inr, Option, some,
  replicate, ◌++◌, some_injective,
}
use spmp.Results.{Result, ok, unwrap, Profile, add_u64, add_u64-small, ◌>>=◌, ◌>>◌}
use spmp.Types.{
  B256, Ticket, TicketVerdict, secp256k1_n, secp256k1_half_order, valid_losing, valid_winning,
  invalid_signature, invalid_commitment, invalid_nonce, expired,
}
use spmp.Alloy.{Alloy, AlloyLaws}
use spmp.Verifier.{TicketVerifier, verify_ticket}
use spmp.Verifier.Digest.{ticket_digest-signing_hash}
use spmp.Verifier.Verdict.{IsValidVerdict, verify_ticket-valid_iff}
use spmp.Verifier.Reject.{verify_ticket-reject_iff}
use spmp.Verifier.Malleability.{twin_accepted_iff}
use spmp.Signer.{Wallet}
use spmp.Signer.Acceptance.{WalletLaws}
use spmp.Simulate.Bench.Signature.{TwinLaws, LocalSignature, as_bytes, twin_bytes}
use spmp.Suite.{assert}
use spmp.Suite.Gatekeeper.{is_valid, verdict_eq, ticket_for, setup_env, setup_verifier}
use spmp.Suite.Gatekeeper.Passes.{conf, own-IsValidVerdict, assert-IsValidVerdict}

module _ {Sig : Type 0} (alloy : Alloy Sig) {Key : Type 0} (wallet : Wallet Key) where
  abbrev pub malleability_ticket : Key → ℕ → TicketVerifier → Ticket
  malleability_ticket key expiry verifier =
      let channel_id = alloy.keccak256 (wallet.address key ++ verifier.provider_address) in
      ticket_for channel_id 1 1_000_000 1 1_000 expiry (replicate 32 0xaa)
        verifier.provider_commitment verifier

module _ {Sig : Type 0} (alloy : Alloy Sig) {Key : Type 0} (wallet : Wallet Key)
    (local : Key → B256 → Option LocalSignature) (profile : Profile) where
  unfoldable pub test_ecdsa_low_s_malleability_defense :
      Key → Option ℕ → (Option ℕ × Option ℕ) → Result (Unit {0})
  test_ecdsa_low_s_malleability_defense key clock (clock₁, clock₂) = do
    let (verifier, client_signer, client_addr, _) = setup_env alloy wallet key
    now ← unwrap clock
    expiry ← add_u64 profile now 3_600
    let ticket = malleability_ticket alloy wallet client_signer expiry verifier
    signature ← unwrap (local client_signer (alloy.eip712_signing_hash ticket verifier.domain))
    let sig_bytes = as_bytes signature
    assert (is_valid (verify_ticket alloy clock₁ verifier ticket sig_bytes client_addr 0))
    let malleable_bytes = twin_bytes signature
    let malleable_verdict = verify_ticket alloy clock₂ verifier ticket malleable_bytes client_addr 0
    assert (verdict_eq malleable_verdict invalid_signature)

assert-invalid_signature :
    (verdict : TicketVerdict)
    → (assert (verdict_eq verdict invalid_signature) ≡ ok tt) ↔ (verdict ≡ invalid_signature)
assert-invalid_signature valid_losing = (λ h. cc, λ h. cc)
assert-invalid_signature valid_winning = (λ h. cc, λ h. cc)
assert-invalid_signature invalid_signature = (λ h. refl, λ h. refl)
assert-invalid_signature invalid_commitment = (λ h. cc, λ h. cc)
assert-invalid_signature invalid_nonce = (λ h. cc, λ h. cc)
assert-invalid_signature expired = (λ h. cc, λ h. cc)

high_or_low : (n : ℕ) → (secp256k1_n ≤ n) ⊎ (n < secp256k1_n)
high_or_low n = ground arith

not_both : (verdict : TicketVerdict) → verdict ≡ invalid_signature → ¬ IsValidVerdict verdict
not_both verdict e (inl h) = cc
not_both verdict e (inr h) = cc

module _ {Sig : Type 0} (alloy : Alloy Sig) {Key : Type 0} (wallet : Wallet Key)
    (alloy_laws : AlloyLaws alloy) (wallet_laws : WalletLaws wallet alloy)
    (local : Key → B256 → Option LocalSignature) (twin_laws : TwinLaws wallet alloy local)
    (profile : Profile) where
  abbrev v : TicketVerifier
  v = setup_verifier alloy (replicate 32 0x77)

  twin-invalid_signature_iff :
      (key : Key) (t : Ticket) (signature : LocalSignature) (later : ℕ)
      → t.nonce ≡ 1
      → t.provider_commitment ≡ v.provider_commitment
      → later < t.expiry
      → local key (alloy.eip712_signing_hash t v.domain) ≡ some signature
      → (verify_ticket alloy (some later) v t (twin_bytes signature) (wallet.address key) 0
          ≡ invalid_signature)
        ↔ (signature.s + secp256k1_half_order < secp256k1_n)
  twin-invalid_signature_iff key t signature later en ec fresh made =
      let client = wallet.address key in
      let digest = alloy.eip712_signing_hash t v.domain in
      let signed = twin_laws.packs key digest signature made in
      let (sig, parsed, same) = twin_laws.reads_back key digest signature made in
      let (sig', parsed', other, found) = twin_laws.reads_twin key digest signature made in
      let (sig'', parsed'', low, _) = wallet_laws.sign_hash_lem key digest _ signed in
      let one : alloy.signature_s sig'' ≡ alloy.signature_s sig =
        ap alloy.signature_s (some_injective sig'' sig (sym parsed'' ∙ parsed)) in
      let valid =
        own-IsValidVerdict alloy wallet alloy_laws wallet_laws key t (as_bytes signature) later en
          ec fresh signed in
      let digests =
        ticket_digest-signing_hash alloy alloy_laws v t
          (conf alloy wallet alloy_laws wallet_laws).separated in
      let (accepted, accepts) =
        twin_accepted_iff alloy v t client 0 (omega arith) (some later) (as_bytes signature)
          (twin_bytes signature) sig sig' parsed parsed' (omega arith) (rw digests found) valid in
      let (_, refuses) =
        (verify_ticket-reject_iff alloy v t (twin_bytes signature) client 0 (omega arith)
          (some later)).3 in
      (
        λ refused. elim (high_or_low (signature.s + secp256k1_half_order)) [
          | inl high ↦ absurd (not_both _ refused (accepts (omega arith)))
          | inr below ↦ below
        ],
        λ below. refuses (
          (omega (arith, en), omega arith),
          ec,
          (later, refl, fresh),
          λ by_client.
              let twin_valid =
                (verify_ticket-valid_iff alloy v t (twin_bytes signature) client 0 (omega arith)
                    (some later)).1
                  (omega (arith, en), omega arith, ec, (later, refl, fresh), by_client) in
              absurd (omega (arith, accepted twin_valid)),
        ),
      )

  -- The test of the malleable twin, in a clock that does not move on by an hour, with a key whose
  -- signatures, their bytes and their twins are as documented: once the signature is made, the test
  -- passes exactly when its s is below the order of the curve less the half-order constant. That
  -- constant is greater than half the order, so for the few signatures with an s in between the twin
  -- is accepted, and the test fails.
  pub test_ecdsa_low_s_malleability_defense-ok_iff :
      (key : Key) (now later₁ later₂ : ℕ) (signature : LocalSignature)
      → now + 3_600 < 2 ^ 64
      → later₁ < now + 3_600
      → later₂ < now + 3_600
      → local key (
          alloy.eip712_signing_hash (malleability_ticket alloy wallet key (now + 3_600) v) v.domain)
        ≡ some signature
      → (test_ecdsa_low_s_malleability_defense alloy wallet local profile key
            (some now)
            (some later₁, some later₂)
          ≡ ok tt)
        ↔ (signature.s + secp256k1_half_order < secp256k1_n)
  unfolding test_ecdsa_low_s_malleability_defense
  test_ecdsa_low_s_malleability_defense-ok_iff key now later₁ later₂ signature fits f₁ f₂ made =
      let t = malleability_ticket alloy wallet key (now + 3_600) v in
      let signed = twin_laws.packs key _ signature made in
      let first =
        own-IsValidVerdict alloy wallet alloy_laws wallet_laws key t (as_bytes signature) later₁
          refl refl f₁ signed in
      let (refused, refuses) =
        twin-invalid_signature_iff key t signature later₂ refl refl f₂ made in
      let (passed, passes) =
        assert-invalid_signature
          (verify_ticket alloy (some later₂) v t (twin_bytes signature) (wallet.address key) 0) in
      rw (add_u64-small profile now 3_600 fits, made, assert-IsValidVerdict _ first)
        (λ h. refused (passed h), λ below. passes (refuses below))
