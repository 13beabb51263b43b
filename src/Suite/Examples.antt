-- ===== src/Suite/Examples.antt =====
-- The theorems on the unit tests with toy crates: a signature is the number of its key.
use spmp.Prelude.{
  ap, ℕ, ◌+◌, ◌<◌, ◌≡◌, ◌↔◌, refl, arith, Bool, true, some, false, [], ◌∷◌, Bytes, replicate,
  if◌then◌else◌,
}
use spmp.Results.{ok, debug}
use spmp.Types.{secp256k1_n, secp256k1_half_order}
use spmp.Alloy.{Alloy, AlloyLaws}
use spmp.Signer.{Wallet}
use spmp.Signer.Acceptance.{WalletLaws}
use spmp.Simulate.{Round}
use spmp.Suite.Gatekeeper.{
  test_verify_invalid_nonce, test_verify_invalid_commitment, test_verify_expired,
  test_verify_valid_ticket, test_verify_invalid_signature, test_odds_clamping_and_saturation,
  test_gatekeeper_lifecycle_and_seed_rotation,
}
use spmp.Suite.Gatekeeper.Passes.{Signs}
use spmp.Suite.Gatekeeper.Together.{gatekeeper_tests-pass}
use spmp.Suite.Gatekeeper.Twin.{
  test_ecdsa_low_s_malleability_defense, test_ecdsa_low_s_malleability_defense-ok_iff,
}
use spmp.Simulate.Outcomes.{Outcomes}
use spmp.Fixtures
use spmp.Fixtures.LocalSigner.{
  low_signature, low_alloy, low_laws, low_wallet, local, low_wallet_laws, local_laws,
}

abbrev alloy : Alloy ℕ
alloy = record Fixtures.alloy { recover_address_from_prehash = λ s digest. some (replicate 20 s) }

laws : AlloyLaws alloy
laws = record {
  keccak256-IsB256 = λ b. refl;
  hash_struct-IsB256 = λ d. refl;
  eip712_hash_struct-IsB256 = λ t. refl;
  eip712_signing_hash_lem = λ t d. refl;
}

-- The keys 1 and 2.
abbrev wallet : Wallet Bool
wallet = record {
  parse = λ hex. some true;
  address = λ key. replicate 20 (if key then 1 else 2);
  sign_hash = λ key digest. some ((if key then 1 else 2) ∷ []);
}

wallet_laws : WalletLaws wallet alloy
wallet_laws = record {
  sign_hash_lem = λ key digest bytes e.
      let same : (if key then 1 else 2) ∷ [] ≡ bytes = cc in
      rw (← same) ((if key then 1 else 2), refl, ground arith, refl);
}

signs : (key : Bool) → Signs wallet key
signs key digest = ((if key then 1 else 2) ∷ [], refl)

abbrev first : Bytes → ℕ
first [] = 0
first (b ∷ bs) = b

gatekeeper_tests-pass_example :
    (test_verify_valid_ticket alloy wallet debug true (some 900) (some 950) ≡ ok tt)
    × (test_verify_invalid_nonce alloy wallet true (some 950) ≡ ok tt)
    × (test_verify_invalid_commitment alloy wallet true (some 950) ≡ ok tt)
    × (test_verify_invalid_signature alloy wallet debug true false (some 900) (some 950) ≡ ok tt)
    × (test_verify_expired alloy wallet true (some 950) ≡ ok tt)
    × (test_odds_clamping_and_saturation alloy wallet debug true
          (some 900)
          (some 950, some 950, some 950)
        ≡ ok tt)
    × (test_gatekeeper_lifecycle_and_seed_rotation alloy wallet debug true
          (some 900)
          (some 950, some 950)
        ≡ ok tt)
gatekeeper_tests-pass_example =
    gatekeeper_tests-pass alloy wallet laws wallet_laws debug true false 900 (λ i. 950) (signs true)
      (signs false) (λ e. absurd (cc)) (λ e. absurd (omega (arith, ap first e))) (omega arith)
      (λ i. omega arith) (λ i. omega arith)

-- A round that takes a minute.
abbrev round : Round
round = record {
  client_seed = Fixtures.seed;
  now = some 900;
  gate_now = some 960;
  new_seed = replicate 32 8;
}

test_ecdsa_low_s_malleability_defense-ok_iff_example :
    (test_ecdsa_low_s_malleability_defense low_alloy low_wallet local debug 1
        (some 900)
        (some 950, some 960)
      ≡ ok tt)
    ↔ (5 + secp256k1_half_order < secp256k1_n)
test_ecdsa_low_s_malleability_defense-ok_iff_example =
    test_ecdsa_low_s_malleability_defense-ok_iff low_alloy low_wallet low_laws low_wallet_laws local
      local_laws debug 1 900 950 960 low_signature (omega arith) (omega arith) (omega arith) refl
