-- ===== src/Verifier/Malleability.antt =====
-- Which signatures have a malleable twin that passes the low-s test as well.
use spmp.Prelude.{ℕ, ◌+◌, ◌≤◌, ◌≡◌, ◌↔◌, arith, Bytes, Option, some}
use spmp.Types.{Address, Ticket, secp256k1_half_order, secp256k1_n}
use spmp.Alloy.{Alloy}
use spmp.Verifier.{TicketVerifier, ticket_digest, verify_ticket}
use spmp.Verifier.Verdict.{IsValidVerdict, verify_ticket-valid_iff}
use spmp.Prelude.Words.{u64_max}

module _ {Sig : Type 0} (alloy : Alloy Sig) (v : TicketVerifier) (t : Ticket) (client : Address)
    (last : ℕ) (u64 : last ≤ u64_max) (now : Option ℕ) where
  -- A ticket has a valid verdict with one signature, for a watermark within u64. Another
  -- signature parses, recovers to the client as well, and the two s-values add up to the order
  -- of the curve. Then the other one gets a valid verdict too exactly when the first s-value is
  -- at least the order less the half-order constant.
  pub twin_accepted_iff :
      (bytes bytes' : Bytes) (sig sig' : Sig)
      → alloy.signature_try_from bytes ≡ some sig
      → alloy.signature_try_from bytes' ≡ some sig'
      → alloy.signature_s sig + alloy.signature_s sig' ≡ secp256k1_n
      → alloy.recover_address_from_prehash sig' (ticket_digest alloy v t) ≡ some client
      → IsValidVerdict (verify_ticket alloy now v t bytes client last)
      → IsValidVerdict (verify_ticket alloy now v t bytes' client last)
        ↔ (secp256k1_n ≤ alloy.signature_s sig + secp256k1_half_order)
  twin_accepted_iff bytes bytes' sig sig' p p' sum r' valid =
      let (accepts, _) = verify_ticket-valid_iff alloy v t bytes client last u64 now in
      let (accepts', valid') = verify_ticket-valid_iff alloy v t bytes' client last u64 now in
      let (en, hl, ec, fresh, _) = accepts valid in
      (
        λ h.
            let (s, e, low, _) = (accepts' h).4 in
            let same : alloy.signature_s s ≡ alloy.signature_s sig' = cc in omega arith,
        λ h. valid' (en, hl, ec, fresh, (sig', p', omega arith, r')),
      )
