-- ===== src/Suite/Gatekeeper/Odds.antt =====
-- The test of the odds and the test of the seed's life cycle pass.
use spmp.Prelude.{
  true, ℕ, ◌+◌, ◌^◌, ◌≤◌, ◌<◌, ◌≡◌, ◌≢◌, refl, arith, inl, inr, ◌⊎◌, Option, some, Bytes, replicate,
}
use spmp.Results.{ok, Profile, add_u64-small}
use spmp.Types.{Ticket, TicketVerdict, valid_losing, valid_winning}
use spmp.Alloy.{Alloy, AlloyLaws}
use spmp.Verifier.{TicketVerifier, new, rotate_seed, verify_ticket}
use spmp.Verifier.Verdict.{Acceptable, verify_ticket-valid_iff}
use spmp.Verifier.Win.{verify_ticket-winning_iff}
use spmp.Verifier.Decision.{losing_of, evaluate_and_gate-winning, evaluate_and_gate-invalidated}
use spmp.Signer.{Wallet}
use spmp.Signer.Acceptance.{WalletLaws}
use spmp.Suite.Gatekeeper.{
  b256_zero, setup_verifier, ticket_for, odds_case, test_odds_clamping_and_saturation,
  test_gatekeeper_lifecycle_and_seed_rotation,
}
use spmp.Suite.Gatekeeper.Passes.{Signs, assert-verdict_eq, own-Acceptable}

module _ {Sig : Type 0} (alloy : Alloy Sig) {Key : Type 0} (wallet : Wallet Key)
    (alloy_laws : AlloyLaws alloy) (wallet_laws : WalletLaws wallet alloy) (profile : Profile) where
  abbrev v : TicketVerifier
  v = setup_verifier alloy (replicate 32 0x77)

  -- A ticket of the odds' test gets its verdict if it wins or loses accordingly.
  odds_case-passes :
      (key : Key) (now later num denom : ℕ) (verdict : TicketVerdict)
      → Signs wallet key
      → later < now + 3_600
      → ((bytes : Bytes)
          → let t =
              ticket_for b256_zero 1 1_000_000 num denom
                (now + 3_600)
                b256_zero
                v.provider_commitment
                v in
            Acceptable alloy (some later) v t bytes (wallet.address key) 0
            → verify_ticket alloy (some later) v t bytes (wallet.address key) 0 ≡ verdict)
      → odds_case alloy wallet v key
          (wallet.address key)
          (now + 3_600)
          (num, denom)
          verdict
          (some later)
        ≡ ok tt
  odds_case-passes key now later num denom verdict signs fresh decided =
      let t =
        ticket_for b256_zero 1 1_000_000 num denom (now + 3_600) b256_zero v.provider_commitment
          v in
      let (bytes, e) = signs (alloy.eip712_signing_hash t v.domain) in
      rw e (
        assert-verdict_eq _ verdict (
          decided bytes (
            own-Acceptable alloy wallet alloy_laws wallet_laws key t bytes later refl refl fresh
              e)))

  never_wins :
      (t : Ticket) (bytes : Bytes) (client : Bytes) (later : ℕ)
      → (t.win_prob_numerator ≡ 0) ⊎ (t.win_prob_denominator ≡ 0)
      → Acceptable alloy (some later) v t bytes client 0
      → verify_ticket alloy (some later) v t bytes client 0 ≡ valid_losing
  never_wins t bytes client later zero_odds accepted =
      losing_of _
        ((verify_ticket-valid_iff alloy v t bytes client 0 (omega arith) (some later)).1 accepted)
        (λ won.
          let (_, (num, denom, _)) =
            (verify_ticket-winning_iff alloy v t bytes client 0 (some later) (omega arith)).0 won in
          elim zero_odds [ inl e ↦ absurd (num e) | inr e ↦ absurd (denom e) ])

  -- Odds of one or more always win.
  sure_win :
      (t : Ticket) (bytes : Bytes) (client : Bytes) (later : ℕ)
      → t.win_prob_numerator ≢ 0
      → t.win_prob_denominator ≢ 0
      → t.win_prob_denominator ≤ t.win_prob_numerator
      → Acceptable alloy (some later) v t bytes client 0
      → verify_ticket alloy (some later) v t bytes client 0 ≡ valid_winning
  sure_win t bytes client later num denom sure accepted =
      (verify_ticket-winning_iff alloy v t bytes client 0 (some later) (omega arith)).1
        (accepted, (num, denom, inl sure))

  pub test_odds_clamping_and_saturation-passes :
      (key : Key) (now later₁ later₂ later₃ : ℕ)
      → Signs wallet key
      → now + 3_600 < 2 ^ 64
      → later₁ < now + 3_600
      → later₂ < now + 3_600
      → later₃ < now + 3_600
      → test_odds_clamping_and_saturation alloy wallet profile key
          (some now)
          (some later₁, some later₂, some later₃)
        ≡ ok tt
  unfolding test_odds_clamping_and_saturation
  test_odds_clamping_and_saturation-passes key now later₁ later₂ later₃ signs fits f₁ f₂ f₃ =
      rw
        (
          add_u64-small profile now 3_600 fits,
          odds_case-passes key now later₁ 0 1_000 valid_losing signs f₁
              (λ bytes. never_wins _ bytes (wallet.address key) later₁ (inl refl)),
          odds_case-passes key now later₂ 1 0 valid_losing signs f₂
              (λ bytes. never_wins _ bytes (wallet.address key) later₂ (inr refl)),
        )
        (odds_case-passes key now later₃ 1_000 1_000 valid_winning signs f₃ (λ bytes.
          sure_win _ bytes (wallet.address key) later₃ (omega arith) (omega arith) (omega arith)))

  pub test_gatekeeper_lifecycle_and_seed_rotation-passes :
      (key : Key) (now later : ℕ) (gate_clock : Option ℕ)
      → Signs wallet key
      → now + 3_600 < 2 ^ 64
      → later < now + 3_600
      → test_gatekeeper_lifecycle_and_seed_rotation alloy wallet profile key
          (some now)
          (some later, gate_clock)
        ≡ ok tt
  unfolding test_gatekeeper_lifecycle_and_seed_rotation new rotate_seed
  test_gatekeeper_lifecycle_and_seed_rotation-passes key now later gate_clock signs fits fresh =
      let t =
        ticket_for b256_zero 1 1_000_000 1_000 1_000 (now + 3_600) b256_zero v.provider_commitment
          v in
      let used = record v { seed_invalidated = true } in
      let t₂ =
        ticket_for b256_zero 2 1_000_000 1 1_000 (now + 3_600) b256_zero used.provider_commitment
          used in
      let (bytes, e) = signs (alloy.eip712_signing_hash t v.domain) in
      let (bytes₂, e₂) = signs (alloy.eip712_signing_hash t₂ used.domain) in
      let won =
        sure_win t bytes (wallet.address key) later (omega arith) (omega arith) (omega arith) (
          own-Acceptable alloy wallet alloy_laws wallet_laws key t bytes later refl refl fresh e) in
      rw
        (
          add_u64-small profile now 3_600 fits,
          e,
          evaluate_and_gate-winning alloy (some later) v t bytes (wallet.address key) 0 refl won,
          e₂,
          evaluate_and_gate-invalidated alloy gate_clock used t₂ bytes₂ (wallet.address key) 1 refl,
        )
        refl
