-- ===== src/Verifier/ByOdds.antt =====
-- The gatekeeper's decision on a ticket with a valid verdict, by the ticket's odds; and what the tickets
-- of a run come to by theirs, of a verifier that draws a new seed after each win.
use spmp.Prelude.{ℕ, ◌≤◌, ◌≡◌, ◌⊎◌, inl, inr, refl, Bool, true, false, if◌then◌else◌, Option, Bytes}
use spmp.Prelude.Words.{u64_max}
use spmp.Types.{
  B256, Address, Ticket, serve_losing, claim_and_rotate_winning, valid_winning, valid_losing,
  TicketVerdict,
}
use spmp.Alloy.{Alloy}
use spmp.Verifier.{TicketVerifier, rotate_seed, verify_ticket, evaluate_and_gate}
use spmp.Verifier.Verdict.{IsValidVerdict, verify_ticket-valid_iff}
use spmp.Verifier.Win.{Wins, entropy, verify_ticket-winning_iff}
use spmp.Verifier.Decision.{evaluate_and_gate-losing, evaluate_and_gate-winning}

losing-not_winning :
    (verdict : TicketVerdict) → verdict ≡ valid_losing → ¬ (verdict ≡ valid_winning)
losing-not_winning verdict losing winning = cc

module _ {Sig : Type 0} (alloy : Alloy Sig) where
  -- The ticket wins with the verifier's seed.
  abbrev pub WinsFor : TicketVerifier → Ticket → Type 0
  WinsFor v t = Wins t.win_prob_numerator t.win_prob_denominator (entropy alloy v t)

  pub evaluate_and_gate-WinsFor :
      (now : Option ℕ) (v : TicketVerifier) (t : Ticket) (bytes : Bytes) (client : Address)
      (last : ℕ)
      → last ≤ u64_max
      → v.seed_invalidated ≡ false
      → IsValidVerdict (verify_ticket alloy now v t bytes client last)
      → ((¬ WinsFor v t) × (evaluate_and_gate alloy now v t bytes client last ≡ (serve_losing, v)))
        ⊎ (WinsFor v t
            × (evaluate_and_gate alloy now v t bytes client last
                ≡ (claim_and_rotate_winning, record v { seed_invalidated = true })))
  evaluate_and_gate-WinsFor now v t bytes client last u64 live (inl losing) =
      let accepted = (verify_ticket-valid_iff alloy v t bytes client last u64 now).0 (inl losing) in
      inl (
        λ won.
            losing-not_winning _ losing
              ((verify_ticket-winning_iff alloy v t bytes client last now u64).1 (accepted, won)),
        evaluate_and_gate-losing alloy now v t bytes client last live losing,
      )
  evaluate_and_gate-WinsFor now v t bytes client last u64 live (inr winning) = inr (
    ((verify_ticket-winning_iff alloy v t bytes client last now u64).0 winning).1,
    evaluate_and_gate-winning alloy now v t bytes client last live winning,
  )

  -- The verifier after a ticket that won or lost.
  abbrev pub next_verifier : B256 → Bool → TicketVerifier → TicketVerifier
  next_verifier new_seed w v = if w then rotate_seed alloy new_seed v else v

  pub rotate_seed-invalidated :
      (seed : B256) (v : TicketVerifier)
      → rotate_seed alloy seed (record v { seed_invalidated = true }) ≡ rotate_seed alloy seed v
  unfolding rotate_seed
  rotate_seed-invalidated seed v = refl
