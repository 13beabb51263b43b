-- ===== src/Suite/Gatekeeper.antt =====
-- provider-daemon/src/verifier.rs, `mod tests`: the gatekeeper's tests. The client's key, the readings
-- of the clock by the test and by the verifier, and the random bytes are arguments.
pub mod Passes
pub mod Odds
pub mod Twin
pub mod Together
use spmp.Prelude.{ℕ, ◌+◌, ◌==◌, ◌||◌, not, Bool, true, false, Option, Bytes, replicate, ◌++◌}
use spmp.Results.{Result, ok, unwrap, Profile, add_u64, ◌>>=◌, ◌>>◌}
use spmp.Types.{B256, Address, Ticket, TicketVerdict, GatekeeperDecision}
use spmp.Types.{
  valid_losing, valid_winning, invalid_signature, invalid_commitment, invalid_nonce, expired,
  serve_losing, claim_and_rotate_winning, reject,
}
use spmp.Alloy.{Alloy}
use spmp.Verifier.{TicketVerifier, new, rotate_seed, verify_ticket, evaluate_and_gate}
use spmp.Signer.{Wallet}
use spmp.Suite.{assert}

abbrev verdict_code : TicketVerdict → ℕ
verdict_code valid_losing = 0
verdict_code valid_winning = 1
verdict_code invalid_signature = 2
verdict_code invalid_commitment = 3
verdict_code invalid_nonce = 4
verdict_code expired = 5

-- The derived `==` of `TicketVerdict`.
abbrev pub verdict_eq : TicketVerdict → TicketVerdict → Bool
verdict_eq a b = verdict_code a == verdict_code b

-- The derived `==` of `GatekeeperDecision`.
abbrev pub decision_eq : GatekeeperDecision → GatekeeperDecision → Bool
decision_eq serve_losing serve_losing = true
decision_eq claim_and_rotate_winning claim_and_rotate_winning = true
decision_eq (reject a) (reject b) = verdict_eq a b
decision_eq _ _ = false

-- `verdict == ValidLosing || verdict == ValidWinning`
abbrev pub is_valid : TicketVerdict → Bool
is_valid verdict = verdict_eq verdict valid_losing || verdict_eq verdict valid_winning

-- `B256::ZERO`
abbrev pub b256_zero : B256
b256_zero = replicate 32 0

-- A test's ticket: its channel, nonce, face value, odds, expiry, client seed and commitment.
abbrev pub ticket_for : B256 → ℕ → ℕ → ℕ → ℕ → ℕ → B256 → B256 → TicketVerifier → Ticket
ticket_for channel_id nonce face_value num denom expiry client_seed provider_commitment verifier =
    record {
      channel_id = channel_id;
      provider = verifier.provider_address;
      nonce = nonce;
      face_value = face_value;
      win_prob_numerator = num;
      win_prob_denominator = denom;
      expiry = expiry;
      client_seed = client_seed;
      provider_commitment = provider_commitment;
    }

module _ {Sig : Type 0} (alloy : Alloy Sig) where
  abbrev pub setup_verifier : B256 → TicketVerifier
  setup_verifier provider_seed =
      new alloy (replicate 20 0x11) (replicate 20 0x22) 31_337 provider_seed

module _ {Sig : Type 0} (alloy : Alloy Sig) {Key : Type 0} (wallet : Wallet Key) where
  -- The verifier, the client's key and address, and the provider's seed.
  abbrev pub setup_env : Key → TicketVerifier × Key × Address × B256
  setup_env client_signer =
      let provider_seed = replicate 32 0x77 in
      (
        setup_verifier alloy provider_seed,
        client_signer,
        wallet.address client_signer,
        provider_seed,
      )

  -- `client_signer.sign_hash(&ticket.eip712_signing_hash(&verifier.domain)).await.unwrap()`
  abbrev pub signed_by : Key → Ticket → TicketVerifier → Result Bytes
  signed_by key ticket verifier =
      unwrap (wallet.sign_hash key (alloy.eip712_signing_hash ticket verifier.domain))

  unfoldable pub test_verify_invalid_nonce : Key → Option ℕ → Result (Unit {0})
  test_verify_invalid_nonce key gate_clock = do
    let (verifier, client_signer, client_addr, _) = setup_env key
    let ticket =
        ticket_for b256_zero 5 1_000 1 1_000 9_999_999_999 b256_zero verifier.provider_commitment
          verifier
    signature ← signed_by client_signer ticket verifier
    let verdict = verify_ticket alloy gate_clock verifier ticket signature client_addr 0
    assert (verdict_eq verdict invalid_nonce)

  unfoldable pub test_verify_invalid_commitment : Key → Option ℕ → Result (Unit {0})
  test_verify_invalid_commitment key gate_clock = do
    let (verifier, client_signer, client_addr, _) = setup_env key
    let ticket =
        ticket_for b256_zero 1 1_000 1 1_000 9_999_999_999 b256_zero (replicate 32 0x99) verifier
    signature ← signed_by client_signer ticket verifier
    let verdict = verify_ticket alloy gate_clock verifier ticket signature client_addr 0
    assert (verdict_eq verdict invalid_commitment)

  unfoldable pub test_verify_expired : Key → Option ℕ → Result (Unit {0})
  test_verify_expired key gate_clock = do
    let (verifier, client_signer, client_addr, _) = setup_env key
    let ticket =
        ticket_for b256_zero 1 1_000 1 1_000 100 b256_zero verifier.provider_commitment verifier
    signature ← signed_by client_signer ticket verifier
    let verdict = verify_ticket alloy gate_clock verifier ticket signature client_addr 0
    assert (verdict_eq verdict expired)

  -- One of the three parts of the odds' test: the odds, the verdict, and the clock at the check.
  abbrev pub odds_case :
      TicketVerifier → Key → Address → ℕ → (ℕ × ℕ) → TicketVerdict → Option ℕ → Result (Unit {0})
  odds_case verifier client_signer client_addr expiry (num, denom) verdict gate_clock = do
    let ticket =
        ticket_for b256_zero 1 1_000_000 num denom expiry b256_zero verifier.provider_commitment
          verifier
    sig ← signed_by client_signer ticket verifier
    assert (verdict_eq (verify_ticket alloy gate_clock verifier ticket sig client_addr 0) verdict)

  module _ (profile : Profile) where
    unfoldable pub test_verify_valid_ticket : Key → Option ℕ → Option ℕ → Result (Unit {0})
    test_verify_valid_ticket key clock gate_clock = do
      let (verifier, client_signer, client_addr, _) = setup_env key
      let channel_id = alloy.keccak256 (client_addr ++ verifier.provider_address)
      now ← unwrap clock
      expiry ← add_u64 profile now 3_600
      let ticket =
          ticket_for channel_id 1 1_000_000 1 1_000 expiry (replicate 32 0xaa)
            verifier.provider_commitment verifier
      sig_bytes ← signed_by client_signer ticket verifier
      let verdict = verify_ticket alloy gate_clock verifier ticket sig_bytes client_addr 0
      assert (is_valid verdict)

    unfoldable pub test_verify_invalid_signature :
        Key → Key → Option ℕ → Option ℕ → Result (Unit {0})
    test_verify_invalid_signature key malicious_signer clock gate_clock = do
      let (verifier, _, client_addr, _) = setup_env key
      now ← unwrap clock
      expiry ← add_u64 profile now 3_600
      let ticket =
          ticket_for b256_zero 1 1_000 1 1_000 expiry b256_zero verifier.provider_commitment
            verifier
      signature ← signed_by malicious_signer ticket verifier
      let verdict = verify_ticket alloy gate_clock verifier ticket signature client_addr 0
      assert (verdict_eq verdict invalid_signature)

    unfoldable pub test_odds_clamping_and_saturation :
        Key → Option ℕ → (Option ℕ × Option ℕ × Option ℕ) → Result (Unit {0})
    test_odds_clamping_and_saturation key clock (clock₁, clock₂, clock₃) = do
      let (verifier, client_signer, client_addr, _) = setup_env key
      now ← unwrap clock
      expiry ← add_u64 profile now 3_600
      odds_case verifier client_signer client_addr expiry (0, 1_000) valid_losing clock₁
      odds_case verifier client_signer client_addr expiry (1, 0) valid_losing clock₂
      odds_case verifier client_signer client_addr expiry (1_000, 1_000) valid_winning clock₃

    unfoldable pub test_gatekeeper_lifecycle_and_seed_rotation :
        Key → Option ℕ → (Option ℕ × Option ℕ) → Result (Unit {0})
    test_gatekeeper_lifecycle_and_seed_rotation key clock (clock₁, clock₂) = do
      let (verifier, client_signer, client_addr, _) = setup_env key
      now ← unwrap clock
      expiry ← add_u64 profile now 3_600
      let win_ticket =
          ticket_for b256_zero 1 1_000_000 1_000 1_000 expiry b256_zero verifier.provider_commitment
            verifier
      sig ← signed_by client_signer win_ticket verifier
      let (decision, used) = evaluate_and_gate alloy clock₁ verifier win_ticket sig client_addr 0
      assert (decision_eq decision claim_and_rotate_winning)
      assert used.seed_invalidated
      let next_ticket =
          ticket_for b256_zero 2 1_000_000 1 1_000 expiry b256_zero used.provider_commitment used
      sig2 ← signed_by client_signer next_ticket used
      let (decision2, still) = evaluate_and_gate alloy clock₂ used next_ticket sig2 client_addr 1
      assert (decision_eq decision2 (reject invalid_commitment))
      assert (not (rotate_seed alloy (replicate 32 0x88) still).seed_invalidated)
