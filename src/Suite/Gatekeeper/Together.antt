-- ===== src/Suite/Gatekeeper/Together.antt =====
-- The gatekeeper's tests of single tickets, all together.
use spmp.Prelude.{ℕ, ◌+◌, ◌^◌, ◌≤◌, ◌<◌, ◌≡◌, ◌≢◌, Option, some, replicate}
use spmp.Results.{ok, Profile}
use spmp.Alloy.{Alloy, AlloyLaws}
use spmp.Signer.{Wallet}
use spmp.Signer.Acceptance.{WalletLaws}
use spmp.Suite.Gatekeeper.{
  test_verify_invalid_nonce, test_verify_invalid_commitment, test_verify_expired,
  test_verify_valid_ticket, test_verify_invalid_signature, test_odds_clamping_and_saturation,
  test_gatekeeper_lifecycle_and_seed_rotation,
}
use spmp.Suite.Gatekeeper.Passes.{
  Signs, test_verify_invalid_nonce-passes, test_verify_invalid_commitment-passes,
  test_verify_expired-passes, test_verify_valid_ticket-passes, test_verify_invalid_signature-passes,
}
use spmp.Suite.Gatekeeper.Odds.{
  test_odds_clamping_and_saturation-passes, test_gatekeeper_lifecycle_and_seed_rotation-passes,
}

-- The repository's unit tests of the gatekeeper pass with any crates and any wallet that are as
-- documented, in a debug build and in a release build: a valid ticket, a wrong nonce, a wrong
-- commitment, another signer, an expired ticket, degenerate and sure odds, and the life cycle of a
-- seed from a win over its rejection to its rotation. The keys sign what they are asked to and have
-- different addresses; the hash of the tests' seed is not their wrong commitment; the time plus an hour
-- is within a u64; and no reading of the clock behind the first is an hour later, nor less than 100.
pub gatekeeper_tests-pass :
    {Sig : Type 0} (alloy : Alloy Sig) {Key : Type 0} (wallet : Wallet Key)
    (alloy_laws : AlloyLaws alloy) (wallet_laws : WalletLaws wallet alloy) (profile : Profile)
    (key malicious : Key) (now : ℕ) (later : ℕ → ℕ)
    → Signs wallet key
    → Signs wallet malicious
    → wallet.address malicious ≢ wallet.address key
    → replicate 32 0x99 ≢ alloy.keccak256 (replicate 32 0x77)
    → now + 3_600 < 2 ^ 64
    → ((i : ℕ) → 100 ≤ later i)
    → ((i : ℕ) → later i < now + 3_600)
    → let clock : ℕ → Option ℕ = λ i. some (later i) in
      (test_verify_valid_ticket alloy wallet profile key (some now) (clock 0) ≡ ok tt)
      × (test_verify_invalid_nonce alloy wallet key (clock 1) ≡ ok tt)
      × (test_verify_invalid_commitment alloy wallet key (clock 2) ≡ ok tt)
      × (test_verify_invalid_signature alloy wallet profile key malicious (some now) (clock 3)
          ≡ ok tt)
      × (test_verify_expired alloy wallet key (clock 4) ≡ ok tt)
      × (test_odds_clamping_and_saturation alloy wallet profile key
            (some now)
            (clock 5, clock 6, clock 7)
          ≡ ok tt)
      × (test_gatekeeper_lifecycle_and_seed_rotation alloy wallet profile key
            (some now)
            (clock 8, clock 9)
          ≡ ok tt)
gatekeeper_tests-pass alloy wallet alloy_laws wallet_laws profile key malicious now later signs
      signs' apart other fits past soon =
    (
      test_verify_valid_ticket-passes alloy wallet alloy_laws wallet_laws profile key now (later 0)
          signs fits (soon 0),
      test_verify_invalid_nonce-passes alloy wallet alloy_laws wallet_laws key (some (later 1))
          signs,
      test_verify_invalid_commitment-passes alloy wallet alloy_laws wallet_laws key (some (later 2))
          signs other,
      test_verify_invalid_signature-passes alloy wallet alloy_laws wallet_laws profile key malicious
          now (later 3) signs' apart fits (soon 3),
      test_verify_expired-passes alloy wallet alloy_laws wallet_laws key (later 4) signs (past 4),
      test_odds_clamping_and_saturation-passes alloy wallet alloy_laws wallet_laws profile key now
          (later 5) (later 6) (later 7) signs fits (soon 5) (soon 6) (soon 7),
      test_gatekeeper_lifecycle_and_seed_rotation-passes alloy wallet alloy_laws wallet_laws profile
          key now (later 8) (some (later 9)) signs fits (soon 8),
    )
