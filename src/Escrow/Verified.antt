-- ===== src/Escrow/Verified.antt =====
-- The tests of the seed, the signer and the odds in `claimTicket` of contracts/SPMPEscrow.sol.
use spmp.Prelude.{
  ℕ, ◌*◌, ◌/◌, ◌^◌, ◌<◌, ◌≡◌, ◌≢◌, ◌↔◌, refl, arith, Bytes, some, not, ltb, lt→ltb, ==_false,
  bytes_eq, bytes_eq_sound, bytes_eq_self,
}
use spmp.Prelude.Words.{u256_max}
use spmp.Types.{B256, Ticket}
use spmp.Results.{
  ok, ok_or, bail_if, invalid_provider_seed, invalid_ticket_signer, ecdsa_reverted,
  non_winning_ticket,
}
use spmp.Results.Inversion.{>>=_ok, bail_if-ok, ok_or-ok}
use spmp.Evm.{Evm}
use spmp.EscrowTypes.{Channel}
use spmp.Escrow.{struct_hash, combined_hash, threshold, verify_claim}
use spmp.Escrow.Calls.{true_of_not}

-- The target of the odds, where the contract's arithmetic does not revert.
abbrev pub HasTarget : ℕ → ℕ → ℕ → Type 0
HasTarget num denom target =
    (denom ≢ 0) × (u256_max / denom * num < 2 ^ 256) × (target ≡ u256_max / denom * num)

threshold-HasTarget :
    (num denom target : ℕ) → threshold num denom ≡ ok target → HasTarget num denom target
unfolding threshold
threshold-HasTarget num denom target h = ground arith

less_of_bail_if : (a b : ℕ) → bail_if (not (ltb a b)) non_winning_ticket ≡ ok tt → a < b
less_of_bail_if a b h = ground arith

-- The seed hashes to the ticket's commitment, the channel's client has signed the ticket's digest, and
-- the combined hash lies below the odds' share of the 256-bit range.
pub record Verified (evm : Evm) (channel : Channel) (ticket : Ticket) (signature : Bytes)
    (seed : B256) : Type 0 where
  pub committed : evm.keccak256 seed ≡ ticket.provider_commitment
  pub signed :
      evm.recover (evm.hash_typed_data_v4 (struct_hash evm ticket)) signature ≡ some channel.client
  pub divisible : ticket.win_prob_denominator ≢ 0
  pub in_range : u256_max / ticket.win_prob_denominator * ticket.win_prob_numerator < 2 ^ 256
  pub lucky :
      combined_hash evm ticket (evm.hash_typed_data_v4 (struct_hash evm ticket)) seed
      < u256_max / ticket.win_prob_denominator * ticket.win_prob_numerator

module _ (evm : Evm) (channel : Channel) (ticket : Ticket) (signature : Bytes) (seed : B256) where
  verify_claim-Verified :
      verify_claim evm channel ticket signature seed ≡ ok tt
      → Verified evm channel ticket signature seed
  unfolding verify_claim
  verify_claim-Verified h =
      let digest = evm.hash_typed_data_v4 (struct_hash evm ticket) in
      let (same, h1) =
        bail_if-ok (not (bytes_eq (evm.keccak256 seed) ticket.provider_commitment))
          invalid_provider_seed _ tt h in
      let (signer, found, h2) =
        >>=_ok (ok_or (evm.recover digest signature) ecdsa_reverted) _ tt h1 in
      let (ours, h3) =
        bail_if-ok (not (bytes_eq signer channel.client)) invalid_ticket_signer _ tt h2 in
      let (target, share, h4) =
        >>=_ok (threshold ticket.win_prob_numerator ticket.win_prob_denominator) _ tt h3 in
      let (pos, fits, e) = threshold-HasTarget _ _ target share in
      record {
        committed = bytes_eq_sound _ _ (true_of_not _ same);
        signed =
            rw (← bytes_eq_sound signer channel.client (true_of_not _ ours)) (ok_or-ok _ _ _ found);
        divisible = pos;
        in_range = fits;
        lucky = rw e at (less_of_bail_if (combined_hash evm ticket digest seed) target h4);
      }

  Verified-verify_claim :
      Verified evm channel ticket signature seed
      → verify_claim evm channel ticket signature seed ≡ ok tt
  unfolding verify_claim threshold
  Verified-verify_claim v =
      rw
        (
          v.committed,
          bytes_eq_self ticket.provider_commitment,
          v.signed,
          bytes_eq_self channel.client,
          ==_false ticket.win_prob_denominator 0 v.divisible,
          lt→ltb _ (2 ^ 256) v.in_range,
          lt→ltb _ _ v.lucky,
        )
        refl

  pub verify_claim_iff :
      (verify_claim evm channel ticket signature seed ≡ ok tt)
      ↔ Verified evm channel ticket signature seed
  verify_claim_iff = (verify_claim-Verified, Verified-verify_claim)
