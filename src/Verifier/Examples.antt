-- ===== src/Verifier/Examples.antt =====
-- The gatekeeper's theorems at concrete tickets.
use spmp.Prelude.{◌+◌, ◌≤◌, ◌≡◌, ◌↔◌, refl, arith, [], ◌∷◌}
use spmp.Prelude.{some, inr, ◌-◌}
use spmp.Types.{secp256k1_n, secp256k1_half_order}
use spmp.Verifier.Malleability.{twin_accepted_iff}
use spmp.Types.{valid_winning}
use spmp.Fixtures
use spmp.Fixtures.{toy_hash}
use spmp.Verifier.{win_target, ticket_digest, combined_val, verify_ticket, recovered, verify_signed}
use spmp.Verifier.{entropy_verdict, copy_at}
use spmp.Verifier.Verdict.{Unexpired, SignedBy, IsValidVerdict, Acceptable, verify_ticket-valid_iff}
use spmp.Verifier.Win.{Wins, entropy, verify_ticket-winning_iff}
use spmp.Verifier.Reject.{FirstFailure, InOrder, Committed, verify_ticket-reject_iff}
use spmp.Verifier.Gate.{Request, evaluate, rotate, gate_all, claims, rotations}
use spmp.Verifier.Gate.{live}
use spmp.Verifier.Gate.{claims-le-rotations}

abbrev request : Request
request = record {
  now = some 999;
  ticket = Fixtures.ticket;
  signature_bytes = 5 ∷ [];
  client_addr = Fixtures.client_address;
  last_nonce = 0;
}

ticket_wins :
    verify_ticket Fixtures.alloy
      (some 999)
      Fixtures.verifier
      Fixtures.ticket
      (5 ∷ [])
      Fixtures.client_address
      0
    ≡ valid_winning
unfolding verify_ticket verify_signed recovered entropy_verdict combined_val ticket_digest copy_at
    win_target
ticket_wins = refl

verify_ticket-valid_iff_example :
    IsValidVerdict (
      verify_ticket Fixtures.alloy
        (some 999)
        Fixtures.verifier
        Fixtures.ticket
        (5 ∷ [])
        Fixtures.client_address
        0)
    ↔ Acceptable Fixtures.alloy
        (some 999)
        Fixtures.verifier
        Fixtures.ticket
        (5 ∷ [])
        Fixtures.client_address
        0
verify_ticket-valid_iff_example =
    verify_ticket-valid_iff Fixtures.alloy Fixtures.verifier Fixtures.ticket (5 ∷ [])
      Fixtures.client_address 0 (omega arith) (some 999)

verify_ticket-winning_iff_example :
    (verify_ticket Fixtures.alloy
        (some 999)
        Fixtures.verifier
        Fixtures.ticket
        (5 ∷ [])
        Fixtures.client_address
        0
      ≡ valid_winning)
    ↔ (Acceptable Fixtures.alloy
          (some 999)
          Fixtures.verifier
          Fixtures.ticket
          (5 ∷ [])
          Fixtures.client_address
          0
        × Wins 1 2 (entropy Fixtures.alloy Fixtures.verifier Fixtures.ticket))
verify_ticket-winning_iff_example =
    verify_ticket-winning_iff Fixtures.alloy Fixtures.verifier Fixtures.ticket (5 ∷ [])
      Fixtures.client_address 0 (some 999) (omega arith)

verify_ticket-reject_iff_example :
    FirstFailure
      (InOrder Fixtures.ticket 1)
      (Committed Fixtures.ticket Fixtures.verifier)
      (Unexpired (some 999) Fixtures.ticket)
      (SignedBy Fixtures.alloy Fixtures.verifier Fixtures.ticket (5 ∷ []) Fixtures.client_address)
      (verify_ticket Fixtures.alloy
        (some 999)
        Fixtures.verifier
        Fixtures.ticket
        (5 ∷ [])
        Fixtures.client_address
        1)
verify_ticket-reject_iff_example =
    verify_ticket-reject_iff Fixtures.alloy Fixtures.verifier Fixtures.ticket (5 ∷ [])
      Fixtures.client_address 1 (omega arith) (some 999)

claims-le-rotations_example :
    let es = evaluate request ∷ evaluate request ∷ rotate Fixtures.seed ∷ evaluate request ∷ [] in
    let (decisions, end) = gate_all Fixtures.alloy es Fixtures.verifier in
    claims decisions + live end ≤ rotations es + live Fixtures.verifier
claims-le-rotations_example =
    claims-le-rotations Fixtures.alloy
      (evaluate request ∷ evaluate request ∷ rotate Fixtures.seed ∷ evaluate request ∷ [])
      Fixtures.verifier

-- The twin of a signature with an s of 5 has an s that is too high.
twin_accepted_iff_example :
    IsValidVerdict (
      verify_ticket Fixtures.alloy
        (some 999)
        Fixtures.verifier
        Fixtures.ticket
        ((secp256k1_n - 5) ∷ [])
        Fixtures.client_address
        0)
    ↔ (secp256k1_n ≤ 5 + secp256k1_half_order)
twin_accepted_iff_example =
    twin_accepted_iff Fixtures.alloy Fixtures.verifier Fixtures.ticket Fixtures.client_address 0
      (omega arith) (some 999) (5 ∷ []) ((secp256k1_n - 5) ∷ []) 5 (secp256k1_n - 5) refl refl refl
      refl (inr ticket_wins)
