-- ===== src/Escrow/Agreement.antt =====
-- The gatekeeper of the provider against the contract: the tickets that one finds winning and the
-- other pays.
use spmp.Prelude.{ℕ, ◌+◌, ◌*◌, ◌/◌, ◌≤◌, ◌<◌, ◌≡◌, ◌≢◌, ◌⊎◌, refl, arith, sym, ◌∙◌, inl, inr}
use spmp.Prelude.{Option, none, some, Bytes, ◌∷◌, ◌++◌, [], length, false}
use spmp.Prelude.Words.{u64_max, u256_max}
use spmp.Types.{B256, Address, Ticket, valid_winning, secp256k1_n}
use spmp.Types.Laws.{IsB256}
use spmp.Results.{ok}
use spmp.Alloy.{Alloy, AlloyLaws}
use spmp.Verifier.{TicketVerifier, verify_ticket, ticket_digest}
use spmp.Verifier.Win.{Wins, entropy, share_lt, verify_ticket-winning_iff}
use spmp.Verifier.Gate.{IsConfigured}
use spmp.Verifier.Digest.{digest_packed, combined_val-packed}
use spmp.Evm.{Evm, Erc20, Erc20Laws}
use spmp.EscrowTypes.{Channel, EscrowState, Event, Msg, channel_at, is_set, zero_address}
use spmp.EscrowTypes.Storage.{channel_at-le-total}
use spmp.Escrow.{struct_hash, combined_hash, nullifier_of, claim_ticket}
use spmp.Escrow.Verified.{Verified}
use spmp.Escrow.Claims.{claim_ticket-ok_iff, claimed, claim_event}
use spmp.Escrow.Solvency.{Solvent}
use mathlib.Core.List.{append_assoc}

-- 65 bytes that end with a recovery id as Ethereum writes it.
abbrev pub Canonical : Bytes → Type 0
Canonical bytes =
    (rs : Bytes) × (id : ℕ) × (length rs ≡ 64) × (bytes ≡ rs ++ (id ∷ [])) × ((id ≡ 27) ⊎ (id ≡ 28))

-- What EIP-712 and ECDSA say of alloy and of the EVM together: the hashes are the same, the contract
-- has the gatekeeper's domain, and OpenZeppelin recovers what alloy recovers from a canonical
-- signature with the lower s, and refuses one with the higher s.
pub record Agrees {Sig : Type 0} (alloy : Alloy Sig) (evm : Evm) (v : TicketVerifier) : Type 0 where
  pub keccak256_same : (b : Bytes) → evm.keccak256 b ≡ alloy.keccak256 b
  pub struct_same : (t : Ticket) → struct_hash evm t ≡ alloy.eip712_hash_struct t
  pub typed_data_lem :
      (h : B256)
      → evm.hash_typed_data_v4 h ≡ alloy.keccak256 (0x19 ∷ 0x01 ∷ (alloy.hash_struct v.domain ++ h))
  pub recover-low :
      (bytes : Bytes) (sig : Sig) (digest : B256) (a : Address)
      → alloy.signature_try_from bytes ≡ some sig
      → Canonical bytes
      → 2 * alloy.signature_s sig ≤ secp256k1_n
      → alloy.recover_address_from_prehash sig digest ≡ some a
      → evm.recover digest bytes ≡ some a
  pub recover-high :
      (bytes : Bytes) (sig : Sig) (digest : B256)
      → alloy.signature_try_from bytes ≡ some sig
      → secp256k1_n < 2 * alloy.signature_s sig
      → evm.recover digest bytes ≡ none

module _ {Sig : Type 0} (alloy : Alloy Sig) (alloy_laws : AlloyLaws alloy) (evm : Evm)
    (v : TicketVerifier) (agrees : Agrees alloy evm v) (configured : IsConfigured alloy v) where
  digest_same : (t : Ticket) → evm.hash_typed_data_v4 (struct_hash evm t) ≡ ticket_digest alloy v t
  digest_same t =
      rw (agrees.struct_same t, agrees.typed_data_lem, ← configured.separated)
        (sym (
          digest_packed alloy v t
            (rw (configured.separated) (alloy_laws.hash_struct-IsB256 v.domain))
            (alloy_laws.eip712_hash_struct-IsB256 t)))

  digest-IsB256 : (t : Ticket) → IsB256 (ticket_digest alloy v t)
  digest-IsB256 t = rw (← digest_same t, agrees.typed_data_lem) (alloy_laws.keccak256-IsB256 _)

  combined_same :
      (t : Ticket)
      → IsB256 t.client_seed
      → IsB256 v.provider_seed
      → combined_hash evm t (ticket_digest alloy v t) v.provider_seed ≡ entropy alloy v t
  unfolding combined_hash
  combined_same t seed_size own_size =
      rw
        (
          agrees.keccak256_same,
          combined_val-packed alloy v t (ticket_digest alloy v t) (digest-IsB256 t) seed_size
              own_size,
          append_assoc,
        )
        refl

  -- The gatekeeper's winning verdict passes the contract's tests of commitment, signer and odds.
  winning-Verified :
      (t : Ticket) (bytes : Bytes) (client : Address) (last : ℕ) (now : Option ℕ) (c : Channel)
      → last ≤ u64_max
      → verify_ticket alloy now v t bytes client last ≡ valid_winning
      → IsB256 t.client_seed
      → IsB256 v.provider_seed
      → t.win_prob_numerator < t.win_prob_denominator
      → Canonical bytes
      → ((sig : Sig)
          → alloy.signature_try_from bytes ≡ some sig
          → 2 * alloy.signature_s sig ≤ secp256k1_n)
      → c.client ≡ client
      → Verified evm c t bytes v.provider_seed
  winning-Verified t bytes client last now c u64 winning seed_size own_size below canonical low
        same =
      let ((en, hl, ec, fresh, (sig, parsed, _, found)), wins) =
        (verify_ticket-winning_iff alloy v t bytes client last now u64).0 winning in
      let committed : evm.keccak256 v.provider_seed ≡ t.provider_commitment =
        agrees.keccak256_same v.provider_seed ∙ sym configured.committed ∙ sym ec in
      let recovers =
        agrees.recover-low bytes sig (ticket_digest alloy v t) client parsed canonical
          (low sig parsed) found in
      record {
        committed = committed;
        signed = rw (digest_same t, same) recovers;
        divisible = omega arith;
        in_range = omega (
          arith,
          share_lt u256_max t.win_prob_numerator t.win_prob_denominator below (omega arith),
        );
        lucky = rw (digest_same t, combined_same t seed_size own_size) (share wins);
      }
    where
      share :
          Wins t.win_prob_numerator t.win_prob_denominator (entropy alloy v t)
          → entropy alloy v t < u256_max / t.win_prob_denominator * t.win_prob_numerator
      share (_, _, inl certain) = absurd (omega arith)
      share (_, _, inr less) = less

  -- A ticket that the gatekeeper finds winning is paid by the contract: the claim with the
  -- provider's seed succeeds and the provider gets the face value. The caller is the provider of an
  -- open channel of the ticket's client, the block is not past the ticket's expiry, the channel
  -- covers the face value, and no ticket of this channel and nonce was claimed. The odds are below
  -- one, the signature is canonical with the lower s, the seeds have 32 bytes, the verifier's
  -- derived fields belong to its seed and domain, the contract is solvent, and alloy, the EVM and
  -- the token are as documented.
  pub claim_ticket-winning :
      {Tok : Type 0} (token : Erc20 Tok) (token_laws : Erc20Laws zero_address token)
      (this : Address) (msg : Msg) (t : Ticket) (bytes : Bytes) (client : Address) (last : ℕ)
      (now : Option ℕ) (s : EscrowState Tok)
      → last ≤ u64_max
      → verify_ticket alloy now v t bytes client last ≡ valid_winning
      → IsB256 t.client_seed
      → IsB256 v.provider_seed
      → t.win_prob_numerator < t.win_prob_denominator
      → Canonical bytes
      → ((sig : Sig)
          → alloy.signature_try_from bytes ≡ some sig
          → 2 * alloy.signature_s sig ≤ secp256k1_n)
      → (channel_at t.channel_id s.channels).client ≡ client
      → client ≢ zero_address
      → (channel_at t.channel_id s.channels).provider ≡ msg.sender
      → msg.sender ≢ zero_address
      → this ≢ msg.sender
      → msg.timestamp ≤ t.expiry
      → t.face_value ≤ (channel_at t.channel_id s.channels).balance
      → is_set (nullifier_of evm t) s.nullifiers ≡ false
      → Solvent token this s
      → (s' : EscrowState Tok) × (e : Event) × (claim_ticket evm token this msg t bytes
            v.provider_seed s
          ≡ ok (s', e))
        × (token.balance_of s'.token msg.sender
            ≡ token.balance_of s.token msg.sender + t.face_value)
  claim_ticket-winning token token_laws this msg t bytes client last now s u64 winning seed_size
        own_size below canonical low client_same real ours payable other fresh covered unclaimed
        solvent =
      let in_hand = channel_at-le-total t.channel_id s.channels in
      let (paid, sent) =
        token_laws.transfer-true this msg.sender t.face_value s.token payable (omega arith) in
      let (_, gain) =
        token_laws.transfer_lem this msg.sender t.face_value s.token paid other sent in
      (
        claimed evm token this t s paid,
        claim_event evm token this t s,
        (claim_ticket-ok_iff evm token this msg t bytes v.provider_seed s _).1 (
          record {
            opened = λ none. real (sym client_same ∙ none);
            by_provider = ours;
            fresh = fresh;
            covered = covered;
            unclaimed = unclaimed;
            verified =
                winning-Verified t bytes client last now (channel_at t.channel_id s.channels) u64
                  winning seed_size own_size below canonical low client_same;
          },
          (paid, rw ours sent, refl),
        ),
        gain,
      )
