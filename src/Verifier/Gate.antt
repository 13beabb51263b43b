-- ===== src/Verifier/Gate.antt =====
-- The life cycle of the provider's seed: a win invalidates it, and nothing is served until it is
-- rotated.
use spmp.Prelude.{ℕ, ◌+◌, ◌≤◌, ◌≡◌, ◌↔◌, arith, refl, Bool, true, false, Option, Bytes}
use spmp.Prelude.{List, [], ◌∷◌, map, if◌then◌else◌}
use spmp.Types.{B256, Address, Ticket, GatekeeperDecision, invalid_commitment, valid_winning}
use spmp.Types.{serve_losing, claim_and_rotate_winning, reject}
use spmp.Alloy.{Alloy}
use spmp.Verifier.{TicketVerifier, new, rotate_seed, verify_ticket, evaluate_and_gate}

-- A call of `evaluate_and_gate`.
pub record Request : Type 0 where
  pub now : Option ℕ
  pub ticket : Ticket
  pub signature_bytes : Bytes
  pub client_addr : Address
  pub last_nonce : ℕ

-- What can happen to a verifier, in any order.
pub data GateEvent : Type 0 where
  evaluate : Request → GateEvent
  rotate : B256 → GateEvent

module _ {Sig : Type 0} (alloy : Alloy Sig) where
  abbrev pub gate : Request → TicketVerifier → GatekeeperDecision × TicketVerifier
  gate r v = evaluate_and_gate alloy r.now v r.ticket r.signature_bytes r.client_addr r.last_nonce

  abbrev pub gate_all : List GateEvent → TicketVerifier → List GatekeeperDecision × TicketVerifier
  gate_all [] v = ([], v)
  gate_all (evaluate r ∷ es) v =
      let (decision, v') = gate r v in
      let (decisions, end) = gate_all es v' in (decision ∷ decisions, end)
  gate_all (rotate seed ∷ es) v = gate_all es (rotate_seed alloy seed v)

  -- The verifier's derived fields belong to its seed and its domain.
  pub record IsConfigured (v : TicketVerifier) : Type 0 where
    pub committed : v.provider_commitment ≡ alloy.keccak256 v.provider_seed
    pub separated : v.domain_separator ≡ alloy.hash_struct v.domain

abbrev pub claims : List GatekeeperDecision → ℕ
claims [] = 0
claims (claim_and_rotate_winning ∷ ds) = claims ds + 1
claims (serve_losing ∷ ds) = claims ds
claims (reject _ ∷ ds) = claims ds

abbrev pub rotations : List GateEvent → ℕ
rotations [] = 0
rotations (rotate _ ∷ es) = rotations es + 1
rotations (evaluate _ ∷ es) = rotations es

claims-cons :
    (d : GatekeeperDecision) (ds : List GatekeeperDecision)
    → claims (d ∷ ds) ≡ claims (d ∷ []) + claims ds
claims-cons claim_and_rotate_winning ds = omega arith
claims-cons serve_losing ds = omega arith
claims-cons (reject _) ds = omega arith

-- 1 while the seed may still claim.
abbrev pub live : TicketVerifier → ℕ
live v = if v.seed_invalidated then 0 else 1

abbrev pub is_claim : GatekeeperDecision → Bool
is_claim claim_and_rotate_winning = true
is_claim serve_losing = false
is_claim (reject _) = false

module _ {Sig : Type 0} (alloy : Alloy Sig) where
  -- A call claims exactly when the seed is not invalidated and the ticket wins. A claim invalidates
  -- the seed and changes nothing else; any other decision leaves the verifier as it is.
  pub evaluate_and_gate_lem :
      (r : Request) (v : TicketVerifier)
      → let verdict =
          verify_ticket alloy r.now v r.ticket r.signature_bytes r.client_addr r.last_nonce in
        let (decision, v') = gate alloy r v in
        ((decision ≡ claim_and_rotate_winning)
          ↔ ((v.seed_invalidated ≡ false) × (verdict ≡ valid_winning)))
        × (v' ≡ (if is_claim decision then record v { seed_invalidated = true } else v))
  unfolding evaluate_and_gate
  evaluate_and_gate_lem r v = ((λ h. ground arith, λ h. ground arith), ground arith)

  -- While the seed is invalidated every call is rejected for its commitment, and the verifier stays
  -- as it is, for any sequence of calls in which the seed is not rotated.
  pub invalidated_gate_rejects :
      (rs : List Request) (v : TicketVerifier)
      → v.seed_invalidated ≡ true
      → gate_all alloy (map evaluate rs) v ≡ (map (λ _. reject invalid_commitment) rs, v)
  unfolding evaluate_and_gate
  invalidated_gate_rejects [] v h = refl
  invalidated_gate_rejects (r ∷ rs) v h = ground (arith, invalidated_gate_rejects rs v h)

  gate-live :
      (r : Request) (v : TicketVerifier)
      → let (decision, v') = gate alloy r v in claims (decision ∷ []) + live v' ≤ live v
  unfolding evaluate_and_gate
  gate-live r v = ground arith

  -- Whatever the calls and rotations and their order, a verifier claims at most once for each seed
  -- that it is given and once for the seed that it starts with, if that is live; and once less if it
  -- ends with a live seed.
  pub claims-le-rotations :
      (es : List GateEvent) (v : TicketVerifier)
      → claims (gate_all alloy es v).0 + live (gate_all alloy es v).1 ≤ rotations es + live v
  unfolding rotate_seed
  claims-le-rotations [] v = omega arith
  claims-le-rotations (evaluate r ∷ es) v =
      let (decision, v') = gate alloy r v in
      omega (
        arith,
        gate-live r v,
        claims-cons decision (gate_all alloy es v').0,
        claims-le-rotations es v',
      )
  claims-le-rotations (rotate seed ∷ es) v =
      omega (arith, claims-le-rotations es (rotate_seed alloy seed v))

  -- A verifier whose commitment is the hash of its seed and whose separator is that of its domain is
  -- still one after any sequence of calls and rotations.
  pub gate_all-IsConfigured :
      (es : List GateEvent) (v : TicketVerifier)
      → IsConfigured alloy v
      → IsConfigured alloy (gate_all alloy es v).1
  unfolding rotate_seed evaluate_and_gate
  gate_all-IsConfigured [] v c = c
  gate_all-IsConfigured (evaluate r ∷ es) v c =
      gate_all-IsConfigured es (gate alloy r v).1 (ground arith)
  gate_all-IsConfigured (rotate seed ∷ es) v c =
      gate_all-IsConfigured es (rotate_seed alloy seed v) (ground arith)

  pub new-IsConfigured :
      (provider contract : Address) (chain_id : ℕ) (seed : B256)
      → IsConfigured alloy (new alloy provider contract chain_id seed)
  unfolding new
  new-IsConfigured provider contract chain_id seed = ground arith
