-- ===== src/Verifier/Decision.antt =====
-- What the gatekeeper decides on a ticket with a valid verdict.
use spmp.Prelude.{ℕ, ◌≡◌, ◌⊎◌, inl, inr, true, false, Option, Bytes}
use spmp.Types.{
  Address, Ticket, serve_losing, claim_and_rotate_winning, reject, invalid_commitment,
  valid_winning, valid_losing, TicketVerdict,
}
use spmp.Alloy.{Alloy}
use spmp.Verifier.{TicketVerifier, verify_ticket, evaluate_and_gate}
use spmp.Verifier.Verdict.{IsValidVerdict}

-- A valid verdict that is not the winning one is the losing one.
pub losing_of :
    (verdict : TicketVerdict)
    → IsValidVerdict verdict
    → (¬ (verdict ≡ valid_winning))
    → verdict ≡ valid_losing
losing_of verdict (inl e) not_won = e
losing_of verdict (inr e) not_won = absurd (not_won e)

module _ {Sig : Type 0} (alloy : Alloy Sig) (now : Option ℕ) (v : TicketVerifier) (t : Ticket)
    (bytes : Bytes) (client : Address) (last_nonce : ℕ) where
  pub evaluate_and_gate-IsValidVerdict :
      v.seed_invalidated ≡ false
      → IsValidVerdict (verify_ticket alloy now v t bytes client last_nonce)
      → (evaluate_and_gate alloy now v t bytes client last_nonce ≡ (serve_losing, v))
        ⊎ (evaluate_and_gate alloy now v t bytes client last_nonce
            ≡ (claim_and_rotate_winning, record v { seed_invalidated = true }))
  unfolding evaluate_and_gate
  evaluate_and_gate-IsValidVerdict fresh (inl losing) = inl (rw (losing, fresh))
  evaluate_and_gate-IsValidVerdict fresh (inr winning) = inr (rw (winning, fresh))

  pub evaluate_and_gate-losing :
      v.seed_invalidated ≡ false
      → verify_ticket alloy now v t bytes client last_nonce ≡ valid_losing
      → evaluate_and_gate alloy now v t bytes client last_nonce ≡ (serve_losing, v)
  unfolding evaluate_and_gate
  evaluate_and_gate-losing fresh losing = rw (losing, fresh)

  pub evaluate_and_gate-winning :
      v.seed_invalidated ≡ false
      → verify_ticket alloy now v t bytes client last_nonce ≡ valid_winning
      → evaluate_and_gate alloy now v t bytes client last_nonce
        ≡ (claim_and_rotate_winning, record v { seed_invalidated = true })
  unfolding evaluate_and_gate
  evaluate_and_gate-winning fresh winning = rw (winning, fresh)

  pub evaluate_and_gate-invalidated :
      v.seed_invalidated ≡ true
      → evaluate_and_gate alloy now v t bytes client last_nonce ≡ (reject invalid_commitment, v)
  unfolding evaluate_and_gate
  evaluate_and_gate-invalidated used = rw used
