-- ===== src/Escrow/Examples.antt =====
-- Runs of the contract, and the theorems at concrete states.
use spmp.Escrow.Invocation.{EscrowCall}
use spmp.Escrow.Custody.{TakenBy, lowered-TakenBy}
use spmp.Prelude.{◌+◌, ◌≡◌, refl, arith, [], ◌∷◌, replicate, some, ◌⊎◌, ◌↔◌}
use spmp.Types.{Ticket, valid_winning}
use spmp.Results.{ok}
use spmp.EscrowTypes.{EscrowState, Event, close_requested}
use spmp.Verifier.{
  verify_ticket, verify_signed, recovered, entropy_verdict, combined_val, ticket_digest, copy_at,
  win_target,
}
use spmp.Verifier.Verdict.{IsValidVerdict}
use spmp.Escrow.{
  claim_ticket, nullifier_of, request_close, withdraw, verify_claim, struct_hash, combined_hash,
  threshold, pay_out,
}
use spmp.Escrow.Claims.{Claimable, claim_ticket-ok_iff, claimed, claim_event, PaysOut}
use spmp.Escrow.Steps.{Reach, here, next, claims, requests, claim_ticket-once}
use spmp.Escrow.Solvency.{Solvent, Reach-Solvent}
use spmp.Escrow.Exit.{withdraw-after-request_close}
use spmp.Escrow.Closing.{Withdrawn}
use spmp.Escrow.Refusal.{claim_ticket-above_one}
use spmp.Fixtures.{ticket, verifier, seed, client_address}
use spmp.Fixtures.Chain.{
  evm, alloy, signature, token, token_laws, escrow_address, provider_msg, client_msg, channel,
  escrow, Balances, moved, start-Solvent,
}

abbrev after_claim : EscrowState Balances
after_claim =
    claimed evm token escrow_address ticket escrow
      (moved escrow_address (replicate 20 2) 50_000 escrow.token)

abbrev after_request : EscrowState Balances
after_request = record after_claim {
  channels = (replicate 32 1, record channel { balance = 30_000; close_requested_at = 500 }) ∷ [];
}

winning : verify_ticket alloy (some 10) verifier ticket signature client_address 0 ≡ valid_winning
unfolding verify_ticket verify_signed recovered entropy_verdict combined_val ticket_digest copy_at
    win_target struct_hash
winning = refl

ticket_claim :
    claim_ticket evm token escrow_address (provider_msg 20) ticket signature seed escrow
    ≡ ok (after_claim, claim_event evm token escrow_address ticket escrow)
unfolding claim_ticket verify_claim struct_hash combined_hash threshold pay_out nullifier_of
ticket_claim = refl

close_request :
    request_close evm token escrow_address (client_msg 500) (replicate 32 1) after_claim
    ≡ ok (after_request, close_requested (replicate 32 1) 86_900)
unfolding request_close
close_request = refl

to_claim : Reach evm token escrow_address escrow after_claim
to_claim =
    next here (claims (provider_msg 20) ticket signature seed _ (λ e. absurd (cc)) ticket_claim)

to_request : Reach evm token escrow_address after_claim after_request
to_request =
    next here (requests (client_msg 500) (replicate 32 1) _ (λ e. absurd (cc)) close_request)

abbrev claim_result : EscrowState Balances × Event
claim_result = (after_claim, claim_event evm token escrow_address ticket escrow)

claim_ticket-ok_iff_example :
    (claim_ticket evm token escrow_address (provider_msg 20) ticket signature seed escrow
      ≡ ok (after_claim, claim_event evm token escrow_address ticket escrow))
    ↔ (Claimable evm (provider_msg 20) ticket signature seed escrow
        × ((t : Balances) × PaysOut evm token escrow_address ticket escrow t
            × (claim_result ≡ (
              claimed evm token escrow_address ticket escrow t,
              claim_event evm token escrow_address ticket escrow,
            ))))
claim_ticket-ok_iff_example =
    claim_ticket-ok_iff evm token escrow_address (provider_msg 20) ticket signature seed escrow
      (after_claim, claim_event evm token escrow_address ticket escrow)

claim_ticket-once_example : ¬ (
    (r : EscrowState Balances × Event) × (claim_ticket evm token escrow_address
        (provider_msg 600)
        ticket
        (27 ∷ [])
        (replicate 32 8)
        after_request
      ≡ ok r))
claim_ticket-once_example =
    claim_ticket-once evm token escrow_address (provider_msg 20) (provider_msg 600) ticket ticket
      signature (27 ∷ []) seed (replicate 32 8) (claim_event evm token escrow_address ticket escrow)
      escrow ticket_claim to_request refl refl

Reach-Solvent_example : Solvent token escrow_address after_claim
Reach-Solvent_example = Reach-Solvent evm token token_laws escrow_address to_claim start-Solvent

withdraw-after-request_close_example :
    Withdrawn evm token escrow_address (replicate 32 1) client_address after_request after_request
    ⊎ ((s : EscrowState Balances) × (e : Event) × (withdraw evm token escrow_address
            (client_msg 86_900)
            (replicate 32 1)
            after_request
          ≡ ok (s, e))
        × (s.token client_address ≡ 0 + 30_000))
withdraw-after-request_close_example =
    withdraw-after-request_close evm token escrow_address token_laws (client_msg 500)
      (replicate 32 1) after_claim after_request after_request
      (close_requested (replicate 32 1) 86_900) 86_900
      (Reach-Solvent evm token token_laws escrow_address to_claim start-Solvent) close_request
      (omega arith) (omega arith) (λ e. absurd (cc)) (λ e. absurd (cc)) here (omega arith)

abbrev sure_ticket : Ticket
sure_ticket = record ticket { win_prob_numerator = 3 }

claim_ticket-above_one_example :
    (IsValidVerdict (verify_ticket alloy (some 10) verifier sure_ticket signature client_address 0)
      → verify_ticket alloy (some 10) verifier sure_ticket signature client_address 0
        ≡ valid_winning)
    × ¬ (
        (r : EscrowState Balances × Event) × (claim_ticket evm token escrow_address
            (provider_msg 20)
            sure_ticket
            signature
            seed
            escrow
          ≡ ok r))
claim_ticket-above_one_example =
    claim_ticket-above_one alloy evm token escrow_address verifier sure_ticket signature
      client_address 0 (some 10) (provider_msg 20) signature seed escrow (omega arith) (omega arith)
      (omega arith) (omega arith)

lowered-TakenBy_example :
    TakenBy evm token escrow_address
      (EscrowCall.claims (provider_msg 20) ticket signature seed)
      (replicate 32 1)
      channel
lowered-TakenBy_example =
    lowered-TakenBy evm token escrow_address
      (EscrowCall.claims (provider_msg 20) ticket signature seed) escrow after_claim _
      (replicate 32 1) ticket_claim (λ e. absurd (cc)) (omega arith)
