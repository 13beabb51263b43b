-- ===== src/Settlement/Delivered.antt =====
-- A ticket on its way over the network: what the client signed and sent is what the provider decodes,
-- decides on and is paid for.
use spmp.Prelude.{
  ℕ, ◌+◌, ◌*◌, ◌/◌, ◌≤◌, ◌<◌, ◌≡◌, ◌≢◌, refl, Option, some, false, Bytes, [], ◌∷◌, ◌++◌, length,
}
use spmp.Prelude.Words.{u64_max, u256_max}
use spmp.Results.{ok, Profile}
use spmp.Types.{IncomingTicketFrame, claim_and_rotate_winning}
use spmp.Types.Laws.{IsB256}
use spmp.ClientTypes.{SignedTicket}
use spmp.Net.{Tcp}
use spmp.Net.Laws.{TcpLaws}
use spmp.Frames.{max_frame_size}
use spmp.FrameReader.{read_frame}
use spmp.FrameReader.RoundTrip.{Took}
use spmp.Server.{decode_ticket_frame, ticket_abi_len}
use spmp.Client.{ticket_sol, encode_ticket_frame}
use spmp.Protocol.Tickets.{ticket_delivered}
use spmp.Alloy.{Alloy, AlloyLaws}
use spmp.Evm.{Evm, Erc20, Erc20Laws}
use spmp.EscrowTypes.{EscrowState, channel_at, is_set, zero_address}
use spmp.Escrow.{nullifier_of}
use spmp.Escrow.Solvency.{Solvent}
use spmp.Escrow.Agreement.{Agrees, Canonical}
use spmp.Verifier.{TicketVerifier}
use spmp.Verifier.Gate.{IsConfigured, Request, gate}
use spmp.Verifier.Win.{entropy}
use spmp.Signer.{Wallet, Signer}
use spmp.Signer.Tickets.{Call, sign}
use spmp.Signer.Acceptance.{WalletLaws}
use spmp.Settlement.{SettlementWorker, ClaimTask, confirmed, run}
use spmp.Settlement.OnChain.{on_chain, task_of}
use spmp.Settlement.EndToEnd.{request_of, signed_ticket_paid}

-- The gatekeeper's question about a frame, at a time, for a session's client and watermark.
abbrev pub request_from : {Key : Type 0} → Signer Key → IncomingTicketFrame → ℕ → Request
request_from self incoming now = record {
  now = some now;
  ticket = incoming.ticket;
  signature_bytes = incoming.signature;
  client_addr = self.client_address;
  last_nonce = self.nonce_watermark;
}

module _ {Key : Type 0} (wallet : Wallet Key) {Sig : Type 0} (alloy : Alloy Sig)
    (alloy_laws : AlloyLaws alloy) (wallet_laws : WalletLaws wallet alloy) (profile : Profile)
    {S : Type 0} (tcp : Tcp S) (tcp_laws : TcpLaws tcp) where
  open tcp_laws use {incoming}

  -- A ticket from its signature over the connection to its payment. The signer makes a ticket for the
  -- gatekeeper's commitment, and what the server's connection has coming in is the client's frame of
  -- it and of a prompt, with a payload of at most 64 KB, and more; the ABI takes 288 bytes for the
  -- ticket and gives it back. Then `read_frame` takes a frame from the connection, leaves the rest and
  -- writes nothing; its decoding has the prompt, and on its ticket and signature the gatekeeper
  -- decides to claim; and the worker, run on its task, reports it confirmed and has the face value
  -- more than before. Signer and gatekeeper have the same domain, the gatekeeper is asked for the
  -- signer's address and watermark, which is below the last u64; that address is that of the signer's
  -- key; the gatekeeper's derived fields belong to its live seed and its domain, and its clock reads
  -- less than the expiry. The odds are positive and below one, and the combined entropy is in their
  -- share. The worker's RPC address is a URL; it is the provider of an open channel of the client and
  -- neither the zero address nor the contract, its transaction is in a block not past the expiry, the
  -- channel covers the face value, no ticket of this channel and nonce was claimed, and the contract
  -- is solvent. The seeds have 32 bytes, the ticket's signature is canonical, and the wallet, alloy,
  -- the stream, the EVM and the token are as documented.
  pub sent_ticket_paid :
      (evm : Evm) {Tok : Type 0} (token : Erc20 Tok) (token_laws : Erc20Laws zero_address token)
      {WorkerKey Url : Type 0} (keys : Wallet WorkerKey) (parse : Bytes → Option Url)
      (time : ClaimTask → ℕ) (v : TicketVerifier) (c : Call) (self : Signer Key) (t : SignedTicket)
      (now : ℕ) (worker : SettlementWorker WorkerKey) (url : Url) (s : EscrowState Tok)
      (prompt rest : Bytes) (conn : S)
      → Agrees alloy evm v
      → Canonical t.signature
      → IsConfigured alloy v
      → v.seed_invalidated ≡ false
      → v.domain ≡ self.domain
      → self.client_address ≡ wallet.address self.signer
      → c.provider_commitment ≡ v.provider_commitment
      → self.nonce_watermark < u64_max
      → (sign wallet alloy profile c self).0 ≡ ok t
      → length (alloy.abi_encode (ticket_sol t)) ≡ ticket_abi_len
      → alloy.abi_decode (alloy.abi_encode (ticket_sol t)) ≡ some (ticket_sol t)
      → length t.signature + length prompt + 296 ≤ max_frame_size
      → incoming conn ≡ encode_ticket_frame alloy.abi_encode t prompt ++ rest
      → now < t.payload.expiry
      → (ticket_sol t).win_prob_numerator ≢ 0
      → (ticket_sol t).win_prob_numerator < (ticket_sol t).win_prob_denominator
      → entropy alloy v (ticket_sol t)
        < u256_max / (ticket_sol t).win_prob_denominator * (ticket_sol t).win_prob_numerator
      → IsB256 (ticket_sol t).client_seed
      → IsB256 v.provider_seed
      → (channel_at (ticket_sol t).channel_id s.channels).client ≡ self.client_address
      → self.client_address ≢ zero_address
      → (channel_at (ticket_sol t).channel_id s.channels).provider ≡ keys.address worker.wallet
      → keys.address worker.wallet ≢ zero_address
      → worker.contract_address ≢ keys.address worker.wallet
      → time (task_of v (request_of self t now)) ≤ (ticket_sol t).expiry
      → (ticket_sol t).face_value ≤ (channel_at (ticket_sol t).channel_id s.channels).balance
      → is_set (nullifier_of evm (ticket_sol t)) s.nullifiers ≡ false
      → Solvent token worker.contract_address s
      → parse worker.rpc_url ≡ some url
      → (body : Bytes) × (frame : IncomingTicketFrame) × Took tcp_laws conn rest
          (read_frame tcp conn)
          (some body)
        × (decode_ticket_frame alloy.abi_decode body ≡ ok frame)
        × (frame.prompt_payload ≡ prompt)
        × ((gate alloy (request_from self frame now) v).0 ≡ claim_and_rotate_winning)
        × (let task = task_of v (request_from self frame now) in
            let (reports, s') = run (on_chain evm token keys parse time) worker (task ∷ []) s in
            (reports ≡ some (confirmed frame.ticket.nonce ∷ []))
            × (token.balance_of s'.token (keys.address worker.wallet)
                ≡ token.balance_of s.token (keys.address worker.wallet) + frame.ticket.face_value))
  sent_ticket_paid evm token token_laws keys parse time v c self t now worker url s prompt rest conn
        agrees canonical configured live ed ea ec below signed size round small arrives fresh pos
        odds lucky seed_size own_size client_same real ours payable other in_time covered unclaimed
        solvent parsed =
      let (body, took, decoded) =
        ticket_delivered tcp tcp_laws alloy.abi_encode alloy.abi_decode t prompt rest conn size
          round small arrives in
      let (decided, reported, paid) =
        signed_ticket_paid wallet alloy alloy_laws wallet_laws profile evm token token_laws keys
          parse time v c self t now worker url s agrees canonical configured live ed ea ec below
          signed fresh pos odds lucky seed_size own_size client_same real ours payable other in_time
          covered unclaimed solvent parsed in
      (body, _, took, decoded, refl, decided, (reported, paid))
