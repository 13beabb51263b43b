-- ===== src/Settlement/EndToEnd.antt =====
-- From the client's signature to the provider's money.
use spmp.Prelude.{some_injective}
use spmp.Prelude.{
  ℕ, ◌+◌, ◌*◌, ◌/◌, ◌≤◌, ◌<◌, ◌≡◌, ◌≢◌, ◌∙◌, sym, arith, inr, Option, some, false, Bytes, [], ◌∷◌,
}
use spmp.Prelude.Words.{u64_max, u256_max}
use spmp.Results.{ok, Profile}
use spmp.Types.{claim_and_rotate_winning, secp256k1_n}
use spmp.Types.Laws.{IsB256}
use spmp.ClientTypes.{SignedTicket}
use spmp.Client.{ticket_sol}
use spmp.Alloy.{Alloy, AlloyLaws}
use spmp.Evm.{Evm, Erc20, Erc20Laws}
use spmp.EscrowTypes.{EscrowState, channel_at, is_set, zero_address}
use spmp.Escrow.{nullifier_of}
use spmp.Escrow.Solvency.{Solvent}
use spmp.Escrow.Agreement.{Agrees, Canonical}
use spmp.Verifier.{TicketVerifier}
use spmp.Verifier.Gate.{IsConfigured, Request, gate, evaluate_and_gate_lem}
use spmp.Verifier.Verdict.{verify_ticket-valid_iff}
use spmp.Verifier.Win.{entropy, verify_ticket-winning_iff}
use spmp.Signer.{Wallet, Signer}
use spmp.Signer.Tickets.{Call, sign, sign-SignedFor}
use spmp.Signer.Acceptance.{WalletLaws, signed_ticket_accepted}
use spmp.Settlement.{SettlementWorker, ClaimTask, confirmed, run}
use spmp.Settlement.OnChain.{on_chain, task_of, claimed_ticket_paid}

-- The gatekeeper's view of a signer's ticket, at a time and with the watermark before it.
abbrev pub request_of : {Key : Type 0} → Signer Key → SignedTicket → ℕ → Request
request_of self t now = record {
  now = some now;
  ticket = ticket_sol t;
  signature_bytes = t.signature;
  client_addr = self.client_address;
  last_nonce = self.nonce_watermark;
}

module _ {Key : Type 0} (wallet : Wallet Key) {Sig : Type 0} (alloy : Alloy Sig)
    (alloy_laws : AlloyLaws alloy) (wallet_laws : WalletLaws wallet alloy) (profile : Profile) where
  signed-low :
      (c : Call) (self : Signer Key) (t : SignedTicket)
      → self.nonce_watermark < u64_max
      → (sign wallet alloy profile c self).0 ≡ ok t
      → (sig : Sig) → alloy.signature_try_from t.signature ≡ some sig
      → 2 * alloy.signature_s sig ≤ secp256k1_n
  signed-low c self t below signed sig parsed =
      let (_, _, _, _, _, _, sealed) = sign-SignedFor wallet alloy profile c self t below signed in
      let (sig', parsed', low, _) = wallet_laws.sign_hash_lem self.signer _ _ sealed in
      rw (some_injective sig sig' (sym parsed ∙ parsed')) low

  signed-claimed :
      (v : TicketVerifier) (c : Call) (self : Signer Key) (t : SignedTicket) (now : ℕ)
      → IsConfigured alloy v
      → v.seed_invalidated ≡ false
      → v.domain ≡ self.domain
      → self.client_address ≡ wallet.address self.signer
      → c.provider_commitment ≡ v.provider_commitment
      → self.nonce_watermark < u64_max
      → (sign wallet alloy profile c self).0 ≡ ok t
      → now < t.payload.expiry
      → (ticket_sol t).win_prob_numerator ≢ 0
      → (ticket_sol t).win_prob_numerator < (ticket_sol t).win_prob_denominator
      → entropy alloy v (ticket_sol t)
        < u256_max / (ticket_sol t).win_prob_denominator * (ticket_sol t).win_prob_numerator
      → (gate alloy (request_of self t now) v).0 ≡ claim_and_rotate_winning
  signed-claimed v c self t now configured live ed ea ec below signed fresh pos odds lucky =
      let w = self.nonce_watermark in
      let accepted =
        signed_ticket_accepted wallet alloy alloy_laws wallet_laws profile v c self t now ed
          configured.separated ea ec below signed fresh in
      let acceptable =
        (verify_ticket-valid_iff alloy v (ticket_sol t) t.signature self.client_address w
            (omega arith) (some now)).0
          accepted in
      let winning =
        (verify_ticket-winning_iff alloy v (ticket_sol t) t.signature self.client_address w
            (some now) (omega arith)).1
          (acceptable, (pos, omega arith, inr lucky)) in
      (evaluate_and_gate_lem alloy (request_of self t now) v).0.1 (live, winning)

  -- A ticket from its signature to its payment. The signer makes a ticket for the gatekeeper's
  -- commitment, and both have the same domain and watermark, which is below the last u64; the signer's
  -- address is that of its key; the gatekeeper's derived fields belong to its live seed and its domain,
  -- and its clock reads less than the expiry. The odds are positive and below one, and the combined
  -- entropy is in their share. Then the gatekeeper decides to claim the ticket, and the worker, run on
  -- its task, reports it confirmed and has the face value more than before. The worker's RPC address is a
  -- URL; it is the provider of an open channel of the client and neither the zero address nor the
  -- contract, its transaction is in a block not past the expiry, the channel covers the face value, no
  -- ticket of this channel and nonce was claimed, and the contract is solvent. The seeds have 32 bytes,
  -- the ticket's signature is canonical, and the wallet, alloy, the EVM and the token are as documented.
  pub signed_ticket_paid :
      (evm : Evm) {Tok : Type 0} (token : Erc20 Tok) (token_laws : Erc20Laws zero_address token)
      {WorkerKey Url : Type 0} (keys : Wallet WorkerKey) (parse : Bytes → Option Url)
      (time : ClaimTask → ℕ) (v : TicketVerifier) (c : Call) (self : Signer Key) (t : SignedTicket)
      (now : ℕ) (worker : SettlementWorker WorkerKey) (url : Url) (s : EscrowState Tok)
      → Agrees alloy evm v
      → Canonical t.signature
      → IsConfigured alloy v
      → v.seed_invalidated ≡ false
      → v.domain ≡ self.domain
      → self.client_address ≡ wallet.address self.signer
      → c.provider_commitment ≡ v.provider_commitment
      → self.nonce_watermark < u64_max
      → (sign wallet alloy profile c self).0 ≡ ok t
      → now < t.payload.expiry
      → (ticket_sol t).win_prob_numerator ≢ 0
      → (ticket_sol t).win_prob_numerator < (ticket_sol t).win_prob_denominator
      → entropy alloy v (ticket_sol t)
        < u256_max / (ticket_sol t).win_prob_denominator * (ticket_sol t).win_prob_numerator
      → IsB256 (ticket_sol t).client_seed
      → IsB256 v.provider_seed
      → (channel_at (ticket_sol t).channel_id s.channels).client ≡ self.client_address
      → self.client_address ≢ zero_address
      → (channel_at (ticket_sol t).channel_id s.channels).provider ≡ keys.address worker.wallet
      → keys.address worker.wallet ≢ zero_address
      → worker.contract_address ≢ keys.address worker.wallet
      → time (task_of v (request_of self t now)) ≤ (ticket_sol t).expiry
      → (ticket_sol t).face_value ≤ (channel_at (ticket_sol t).channel_id s.channels).balance
      → is_set (nullifier_of evm (ticket_sol t)) s.nullifiers ≡ false
      → Solvent token worker.contract_address s
      → parse worker.rpc_url ≡ some url
      → let task = task_of v (request_of self t now) in
        let (reports, s') = run (on_chain evm token keys parse time) worker (task ∷ []) s in
        ((gate alloy (request_of self t now) v).0 ≡ claim_and_rotate_winning)
        × (reports ≡ some (confirmed (ticket_sol t).nonce ∷ []))
        × (token.balance_of s'.token (keys.address worker.wallet)
            ≡ token.balance_of s.token (keys.address worker.wallet) + (ticket_sol t).face_value)
  signed_ticket_paid evm token token_laws keys parse time v c self t now worker url s agrees
        canonical configured live ed ea ec below signed fresh pos odds lucky seed_size own_size
        client_same real ours payable other in_time covered unclaimed solvent parsed =
      let decided =
        signed-claimed v c self t now configured live ed ea ec below signed fresh pos odds lucky in
      let (reported, paid) =
        claimed_ticket_paid evm token keys parse time alloy alloy_laws token_laws v
          (request_of self t now) worker url s agrees configured decided (omega arith) seed_size
          own_size odds canonical (signed-low c self t below signed) client_same real ours payable
          other in_time covered unclaimed solvent parsed in
      (decided, reported, paid)
