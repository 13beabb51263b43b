-- ===== src/Simulate/Outcomes.antt =====
-- What the tickets of a run come to by their odds: the run makes a ticket for each round, and its
-- verifier takes a new seed after each win.
use spmp.Prelude.{ℕ, ◌+◌, ◌≡◌, ◌↔◌, Bool, true, some, List, [], ◌∷◌}
use spmp.Types.{Ticket}
use spmp.Alloy.{Alloy}
use spmp.Verifier.{TicketVerifier}
use spmp.Verifier.ByOdds.{WinsFor, next_verifier}
use spmp.Simulate.{Round}

-- `ticket` makes the ticket of a round from its nonce and its expiry, which is `life` seconds on.
module _ {Sig : Type 0} (alloy : Alloy Sig) (ticket : Round → ℕ → ℕ → TicketVerifier → Ticket)
    (life : ℕ) where
  -- The outcome of one round: whether its ticket wins by its odds.
  abbrev pub Outcome : Round → ℕ → TicketVerifier → Bool → Type 0
  Outcome round nonce v w =
      (now : ℕ) × (round.now ≡ some now)
      × ((w ≡ true) ↔ WinsFor alloy v (ticket round nonce (now + life) v))

  -- The outcomes of a run.
  abbrev pub Outcomes : List Round → ℕ → TicketVerifier → List Bool → Type 0
  Outcomes [] nonce v ws = ws ≡ []
  Outcomes (round ∷ rounds) nonce v [] = ⊥
  Outcomes (round ∷ rounds) nonce v (w ∷ ws) =
      Outcome round nonce v w
      × Outcomes rounds (nonce + 1) (next_verifier alloy round.new_seed w v) ws
