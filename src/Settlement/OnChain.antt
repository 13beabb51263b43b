-- ===== src/Settlement/OnChain.antt =====
-- The worker on a chain that runs the escrow contract.
use spmp.Prelude.{
  ℕ, ◌+◌, ◌*◌, ◌≤◌, ◌<◌, ◌≡◌, ◌≢◌, ap, refl, Option, none, some, true, false, Bytes, List, [], ◌∷◌,
}
use spmp.Prelude.Words.{u64_max}
use spmp.Types.{Address, claim_and_rotate_winning, secp256k1_n}
use spmp.Types.Laws.{IsB256}
use spmp.Results.{Result, ok, err, panic, waits}
use spmp.Alloy.{Alloy, AlloyLaws}
use spmp.Evm.{Evm, Erc20, Erc20Laws}
use spmp.EscrowTypes.{EscrowState, Event, Msg, channel_at, is_set, zero_address}
use spmp.Escrow.{claim_ticket, nullifier_of}
use spmp.Escrow.Steps.{Reach, here, next, claims, Reach-append}
use spmp.Escrow.Solvency.{Solvent}
use spmp.Escrow.Agreement.{Agrees, Canonical, claim_ticket-winning}
use spmp.Verifier.{TicketVerifier}
use spmp.Verifier.Gate.{IsConfigured, Request, gate, evaluate_and_gate_lem}
use spmp.Signer.{Wallet}
use spmp.Settlement.Queue.{settle-state, run-confirmed}
use spmp.Settlement.{ClaimTask, SettlementWorker, Rpc, confirmed, settle, settle_all, run}

-- The task that the gatekeeper's caller queues for a ticket that it is to claim.
abbrev pub task_of : TicketVerifier → Request → ClaimTask
task_of v r = record {
  ticket = r.ticket;
  signature = r.signature_bytes;
  provider_seed = v.provider_seed;
}

module _ (evm : Evm) {Tok : Type 0} (token : Erc20 Tok) {Key : Type 0} (keys : Wallet Key)
    {Url : Type 0} (parse : Bytes → Option Url) (time : ClaimTask → ℕ) where
  abbrev pub msg_of : Key → ClaimTask → Msg
  msg_of key task = record { sender = keys.address key; timestamp = time task }

  abbrev mined : EscrowState Tok → Result (EscrowState Tok × Event) → Option Event × EscrowState Tok
  mined s (ok (s', e)) = (some e, s')
  mined s (err e) = (none, s)
  mined s panic = (none, s)
  mined s waits = (none, s)

  -- A transaction is a call of the contract in the block of its time; one that reverts is refused
  -- when it is sent, and every receipt arrives.
  abbrev pub on_chain : Rpc Key Url Event (EscrowState Tok)
  on_chain = record {
    parse = parse;
    send = λ url key contract task s. mined s (
        claim_ticket evm token contract (msg_of key task) task.ticket task.signature
          task.provider_seed s);
    watch = λ pending s. (true, s);
  }

  mined-Reach :
      (contract : Address) (key : Key) (task : ClaimTask) (s : EscrowState Tok)
      (r : Result (EscrowState Tok × Event))
      → keys.address key ≢ contract
      → claim_ticket evm token contract
          (msg_of key task)
          task.ticket
          task.signature
          task.provider_seed
          s
        ≡ r
      → Reach evm token contract s (mined s r).1
  mined-Reach contract key task s (ok (s', e)) apart h =
      next here (claims (msg_of key task) task.ticket task.signature task.provider_seed e apart h)
  mined-Reach contract key task s (err e) apart h = here
  mined-Reach contract key task s panic apart h = here
  mined-Reach contract key task s waits apart h = here

  -- Whatever is in the queue, the worker takes the contract through calls that it admits, each a step of
  -- the contract, so that what holds of all reachable states holds of the one that it leaves.
  pub settle_all-Reach :
      (self : SettlementWorker Key) (url : Url) (tasks : List ClaimTask) (s : EscrowState Tok)
      → keys.address self.wallet ≢ self.contract_address
      → Reach evm token self.contract_address s (settle_all on_chain self url tasks s).1
  unfolding settle_all
  settle_all-Reach self url [] s apart = here
  settle_all-Reach self url (task ∷ tasks) s apart =
      let first = mined-Reach self.contract_address self.wallet task s _ apart refl in
      let moved = settle-state on_chain self url task s (λ p c. refl) in
      Reach-append evm token self.contract_address (rw moved first)
        (settle_all-Reach self url tasks (settle on_chain self url task s).1 apart)

  mined-ok :
      (self : SettlementWorker Key) (url : Url) (task : ClaimTask) (s s' : EscrowState Tok)
      (e : Event)
      → parse self.rpc_url ≡ some url
      → claim_ticket evm token self.contract_address
          (msg_of self.wallet task)
          task.ticket
          task.signature
          task.provider_seed
          s
        ≡ ok (s', e)
      → run on_chain self (task ∷ []) s ≡ (some (confirmed task.ticket.nonce ∷ []), s')
  mined-ok self url task s s' e parsed h =
      run-confirmed on_chain self url task s s' s' e parsed (ap (mined s) h) refl

  -- From the gatekeeper's decision to the payment: a ticket that `evaluate_and_gate` decides to claim,
  -- queued with its signature and the verifier's seed, is confirmed by the worker and pays the face
  -- value to the worker's address. The worker's RPC address is a URL, the worker is the provider of
  -- an open channel of the ticket's client, its transaction is in a block not past the ticket's
  -- expiry, the channel covers the face value, and no ticket of this channel and nonce was claimed. The
  -- watermark is a u64, the odds are below one, the signature is canonical with the lower s, the seeds
  -- have 32 bytes, the verifier's derived fields belong to its seed and domain, the contract is
  -- solvent, and alloy, the EVM and the token are as documented.
  pub claimed_ticket_paid :
      {Sig : Type 0} (alloy : Alloy Sig) (alloy_laws : AlloyLaws alloy)
      (token_laws : Erc20Laws zero_address token) (v : TicketVerifier) (r : Request)
      (self : SettlementWorker Key) (url : Url) (s : EscrowState Tok)
      → Agrees alloy evm v
      → IsConfigured alloy v
      → (gate alloy r v).0 ≡ claim_and_rotate_winning
      → r.last_nonce ≤ u64_max
      → IsB256 r.ticket.client_seed
      → IsB256 v.provider_seed
      → r.ticket.win_prob_numerator < r.ticket.win_prob_denominator
      → Canonical r.signature_bytes
      → ((sig : Sig)
          → alloy.signature_try_from r.signature_bytes ≡ some sig
          → 2 * alloy.signature_s sig ≤ secp256k1_n)
      → (channel_at r.ticket.channel_id s.channels).client ≡ r.client_addr
      → r.client_addr ≢ zero_address
      → (channel_at r.ticket.channel_id s.channels).provider ≡ keys.address self.wallet
      → keys.address self.wallet ≢ zero_address
      → self.contract_address ≢ keys.address self.wallet
      → time (task_of v r) ≤ r.ticket.expiry
      → r.ticket.face_value ≤ (channel_at r.ticket.channel_id s.channels).balance
      → is_set (nullifier_of evm r.ticket) s.nullifiers ≡ false
      → Solvent token self.contract_address s
      → parse self.rpc_url ≡ some url
      → let (reports, s') = run on_chain self (task_of v r ∷ []) s in
        (reports ≡ some (confirmed r.ticket.nonce ∷ []))
        × (token.balance_of s'.token (keys.address self.wallet)
            ≡ token.balance_of s.token (keys.address self.wallet) + r.ticket.face_value)
  claimed_ticket_paid alloy alloy_laws token_laws v r self url s agrees configured decided u64
        seed_size own_size below canonical low client_same real ours payable other fresh covered
        unclaimed solvent parsed =
      let (_, winning) = (evaluate_and_gate_lem alloy r v).0.0 decided in
      let (s', e, paid, gain) =
        claim_ticket-winning alloy alloy_laws evm v agrees configured token token_laws
          self.contract_address (msg_of self.wallet (task_of v r)) r.ticket r.signature_bytes
          r.client_addr r.last_nonce r.now s u64 winning seed_size own_size below canonical low
          client_same real ours payable other fresh covered unclaimed solvent in
      let ended = mined-ok self url (task_of v r) s s' e parsed paid in rw ended (refl, gain)
