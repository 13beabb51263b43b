-- ===== src/Verifier.antt =====
-- provider-daemon/src/verifier.rs: the ticket gatekeeper. `now` is the answer of the system clock in
-- seconds since the epoch, `none` where `duration_since(UNIX_EPOCH)` fails.
pub mod Odds
pub mod Digest
pub mod Verdict
pub mod Win
pub mod Reject
pub mod Gate
pub mod Malleability
pub mod Decision
pub mod ByOdds
mod Examples
use spmp.Prelude.{ℕ, ◌+◌, ◌-◌, ◌*◌, ◌/◌, Bool, true, false, not, ◌||◌, Option, none, some, Bytes}
use spmp.Prelude.{
  ◌∷◌, ◌++◌, [], ◌==◌, leb, ltb, if◌then◌else◌, length, take, drop, replicate, bytes_eq,
}
use spmp.Prelude.Words.{u64_max, u256_max, wrapping_add, u256_from_be_bytes}
use spmp.Types.{B256, Address, Ticket, TicketVerdict, GatekeeperDecision, secp256k1_half_order}
use spmp.Types.{valid_losing, valid_winning, invalid_signature, invalid_commitment, invalid_nonce}
use spmp.Types.{expired, serve_losing, claim_and_rotate_winning, reject}
use spmp.Alloy.{Alloy, Eip712Domain}

pub record TicketVerifier : Type 0 where
  pub contract_address : Address
  pub chain_id : ℕ
  pub provider_address : Address
  pub provider_seed : B256
  pub provider_commitment : B256
  pub domain_separator : B256
  pub domain : Eip712Domain
  pub seed_invalidated : Bool

-- `buf[i..j].copy_from_slice(src)`, for a `src` of `j - i` bytes.
unfoldable pub copy_at : ℕ → Bytes → Bytes → Bytes
copy_at i src buf = take i buf ++ (src ++ drop (i + length src) buf)

-- The target below which the combined hash wins; the quotient comes first, as in the source.
unfoldable pub win_target : ℕ → ℕ → ℕ
win_target num denom =
    if denom == 0 || num == 0
    then 0
    else if leb denom num
    then u256_max
    else (u256_max / denom) * num

module _ {Sig : Type 0} (alloy : Alloy Sig) where
  unfoldable pub new : Address → Address → ℕ → B256 → TicketVerifier
  new provider_address contract_address chain_id provider_seed =
      let domain : Eip712Domain = record {
        name = some "SPMP_Protocol";
        version = some "1";
        chain_id = some chain_id;
        verifying_contract = some contract_address;
        salt = none;
      } in
      record {
        contract_address = contract_address;
        chain_id = chain_id;
        provider_address = provider_address;
        provider_seed = provider_seed;
        provider_commitment = alloy.keccak256 provider_seed;
        domain_separator = alloy.hash_struct domain;
        domain = domain;
        seed_invalidated = false;
      }

  unfoldable pub rotate_seed : B256 → TicketVerifier → TicketVerifier
  rotate_seed new_seed self = record self {
    provider_seed = new_seed;
    provider_commitment = alloy.keccak256 new_seed;
    seed_invalidated = false;
  }

  -- Step 4: the digest that the client signed, put together in a buffer of 66 bytes.
  unfoldable pub ticket_digest : TicketVerifier → Ticket → B256
  ticket_digest self ticket =
      let digest_buf = 0x19 ∷ 0x01 ∷ replicate 64 0 in
      let with_domain = copy_at 2 self.domain_separator digest_buf in
      alloy.keccak256 (copy_at 34 (alloy.eip712_hash_struct ticket) with_domain)

  -- Step 5: the hash of the digest and of both parties' seeds, in a buffer of 96 bytes, as a number.
  unfoldable pub combined_val : TicketVerifier → Ticket → B256 → ℕ
  combined_val self ticket digest =
      let with_digest = copy_at 0 digest (replicate 96 0) in
      let with_client = copy_at 32 ticket.client_seed with_digest in
      u256_from_be_bytes (alloy.keccak256 (copy_at 64 self.provider_seed with_client))

  unfoldable pub entropy_verdict : TicketVerifier → Ticket → B256 → TicketVerdict
  entropy_verdict self ticket digest =
      let target = win_target ticket.win_prob_numerator ticket.win_prob_denominator in
      if target == u256_max || ltb (combined_val self ticket digest) target
      then valid_winning
      else valid_losing

  -- Step 4: `none` is the verdict `InvalidSignature`.
  unfoldable pub recovered : TicketVerifier → Ticket → Bytes → Option Address
  recovered self ticket signature_bytes = elim (alloy.signature_try_from signature_bytes) [
    | none ↦ none
    | some sig ↦
        if ltb secp256k1_half_order (alloy.signature_s sig)
        then none
        else alloy.recover_address_from_prehash sig (ticket_digest self ticket)
  ]

  unfoldable pub verify_signed : TicketVerifier → Ticket → Bytes → Address → TicketVerdict
  verify_signed self ticket signature_bytes client_addr =
      elim (recovered self ticket signature_bytes) [
        | none ↦ invalid_signature
        | some recovered_address ↦
            if not (bytes_eq recovered_address client_addr)
            then invalid_signature
            else entropy_verdict self ticket (ticket_digest self ticket)
      ]

  unfoldable pub verify_ticket :
      Option ℕ → TicketVerifier → Ticket → Bytes → Address → ℕ → TicketVerdict
  verify_ticket now self ticket signature_bytes client_addr last_nonce =
      if not (ticket.nonce == wrapping_add last_nonce 1) || last_nonce == u64_max
      then invalid_nonce
      else if not (bytes_eq ticket.provider_commitment self.provider_commitment)
      then invalid_commitment
      else elim now [
        | none ↦ expired
        | some seconds ↦
            if leb ticket.expiry seconds
            then expired
            else verify_signed self ticket signature_bytes client_addr
      ]

  -- What `evaluate_and_gate` makes of a verdict.
  abbrev gate_verdict : TicketVerdict → TicketVerifier → GatekeeperDecision × TicketVerifier
  gate_verdict valid_losing self = (serve_losing, self)
  gate_verdict valid_winning self =
      (claim_and_rotate_winning, record self { seed_invalidated = true })
  gate_verdict rejected self = (reject rejected, self)

  -- The decision, and the verifier afterwards.
  unfoldable pub evaluate_and_gate :
      Option ℕ → TicketVerifier → Ticket → Bytes → Address → ℕ → GatekeeperDecision × TicketVerifier
  evaluate_and_gate now self ticket signature_bytes client_addr last_nonce =
      if self.seed_invalidated
      then (reject invalid_commitment, self)
      else gate_verdict (verify_ticket now self ticket signature_bytes client_addr last_nonce) self
