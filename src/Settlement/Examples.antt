-- ===== src/Settlement/Examples.antt =====
-- The worker with a chain that refuses some transactions, and on the escrow contract.
use spmp.Prelude.{
  ℕ, suc, ◌+◌, ◌≡◌, refl, arith, Option, none, some, true, Bytes, [], ◌∷◌, ◌==◌, if◌then◌else◌,
  replicate, inl,
}
use spmp.Types.{claim_and_rotate_winning}
use spmp.Verifier.{
  verify_ticket, verify_signed, recovered, entropy_verdict, combined_val, ticket_digest, copy_at,
  win_target, evaluate_and_gate,
}
use spmp.Verifier.Gate.{Request, gate}
use spmp.Signer.{Wallet, sign_next_ticket, sign_ticket, sign_content, compute_eip712_digest}
use spmp.Signer.Acceptance.{WalletLaws}
use spmp.Results.{debug}
use spmp.ClientTypes.{SignedTicket}
use spmp.Client.{ticket_sol, encode_ticket_frame}
use spmp.Prelude.Words.{u256_max}
use spmp.Prelude.{◌<◌, ◌/◌, ◌*◌, inl}
use spmp.Verifier.Win.{entropy}
use spmp.Settlement.Delivered.{request_from, sent_ticket_paid}
use spmp.Fixtures.Pipe.{Pipe, tcp, tcp_laws, receiving}
use spmp.FrameReader.{read_frame}
use spmp.FrameReader.RoundTrip.{Took}
use spmp.Server.{decode_ticket_frame}
use spmp.Types.{IncomingTicketFrame}
use spmp.Results.{ok}
use spmp.Prelude.{◌++◌}
use spmp.Fixtures.{signed}
use spmp.Fixtures.Wallet.{signer, call}
use spmp.Escrow.{struct_hash}
use spmp.Settlement.{ClaimTask, SettlementWorker, Rpc, confirmed, run}
use spmp.Settlement.Queue.{recording, Handled, run-recording}
use spmp.Settlement.OnChain.{on_chain, task_of, claimed_ticket_paid}
use spmp.Fixtures.{verifier, ticket, seed, client_address}
use spmp.Fixtures.Chain.{
  evm, alloy, laws, agrees, verifier-IsConfigured, signature, token, token_laws, escrow_address,
  escrow, signature_low, start-Solvent,
}

abbrev keys : Wallet ℕ
keys = record {
  parse = λ hex. some 1;
  address = λ key. replicate 20 2;
  sign_hash = λ key digest. some signature;
}

abbrev worker : SettlementWorker ℕ
worker = record {
  contract_address = escrow_address;
  wallet = 1;
  provider_address = replicate 20 2;
  rpc_url = 104 ∷ [];
}

-- It refuses transactions for nonce 1, and counts the others.
abbrev choosy : Rpc ℕ ℕ ℕ ℕ
choosy = record {
  parse = λ url. some 0;
  send = λ url key contract task count.
      if task.ticket.nonce == 1 then (none, count) else (some count, suc count);
  watch = λ pending count. (true, count);
}

abbrev task : ℕ → ClaimTask
task nonce = record {
  ticket = record ticket { nonce = nonce };
  signature = signature;
  provider_seed = seed;
}

run-recording_example :
    Handled choosy
      (some 0)
      worker
      (task 1 ∷ task 2 ∷ [])
      0
      (run (recording choosy) worker (task 1 ∷ task 2 ∷ []) (0, []))
run-recording_example = run-recording choosy worker (task 1 ∷ task 2 ∷ []) 0

abbrev parse_url : Bytes → Option ℕ
parse_url url = some 0

abbrev request : Request
request = record {
  now = some 10;
  ticket = ticket;
  signature_bytes = signature;
  client_addr = client_address;
  last_nonce = 0;
}

decided : (gate alloy request verifier).0 ≡ claim_and_rotate_winning
unfolding evaluate_and_gate verify_ticket verify_signed recovered entropy_verdict combined_val
    ticket_digest copy_at win_target struct_hash
decided = refl

claimed_ticket_paid_example :
    let (reports, s') =
      run
        (on_chain evm token keys parse_url (λ task. 20))
        worker
        (task_of verifier request ∷ [])
        escrow in
    (reports ≡ some (confirmed 1 ∷ [])) × (s'.token (replicate 20 2) ≡ 500 + 50_000)
claimed_ticket_paid_example =
    claimed_ticket_paid evm token keys parse_url (λ task. 20) alloy laws token_laws verifier request
      worker 0 escrow agrees verifier-IsConfigured decided (omega arith) refl refl (omega arith)
      (replicate 64 3, 27, refl, refl, inl refl) signature_low refl (λ e. absurd (cc)) refl
      (λ e. absurd (cc)) (λ e. absurd (cc)) (omega arith) (omega arith) refl start-Solvent refl

-- The client's wallet on the same chain.
abbrev client_wallet : Wallet ℕ
client_wallet = record {
  parse = λ hex. some 1;
  address = λ key. client_address;
  sign_hash = λ key digest. some signature;
}

client_wallet_laws : WalletLaws client_wallet alloy
client_wallet_laws = record { sign_hash_lem = λ key digest bytes e. (5, refl, omega arith, refl) }

abbrev sent : SignedTicket
sent = record signed { signature = signature }

lucky : entropy alloy verifier (ticket_sol sent) < u256_max / 2 * 1
unfolding combined_val ticket_digest copy_at struct_hash ticket_sol
lucky = omega arith

abbrev hi : Bytes
hi = 104 ∷ 105 ∷ []

abbrev conn : Pipe
conn = receiving (encode_ticket_frame alloy.abi_encode sent hi ++ (0 ∷ []))

sent_ticket_paid_example :
    (body : Bytes) × (frame : IncomingTicketFrame) × Took tcp_laws conn
      (0 ∷ [])
      (read_frame tcp conn)
      (some body)
    × (decode_ticket_frame alloy.abi_decode body ≡ ok frame)
    × (frame.prompt_payload ≡ hi)
    × ((gate alloy (request_from signer frame 950) verifier).0 ≡ claim_and_rotate_winning)
    × (let task = task_of verifier (request_from signer frame 950) in
        let (reports, s') =
          run (on_chain evm token keys parse_url (λ task. 960)) worker (task ∷ []) escrow in
        (reports ≡ some (confirmed frame.ticket.nonce ∷ []))
        × (s'.token (replicate 20 2) ≡ 500 + frame.ticket.face_value))
unfolding sign_next_ticket sign_ticket sign_content compute_eip712_digest ticket_sol
sent_ticket_paid_example =
    sent_ticket_paid client_wallet alloy laws client_wallet_laws debug tcp tcp_laws evm token
      token_laws keys parse_url (λ task. 960) verifier call signer sent 950 worker 0 escrow hi
      (0 ∷ []) conn agrees (replicate 64 3, 27, refl, refl, inl refl) verifier-IsConfigured refl
      refl refl refl (omega arith) refl refl refl (omega arith) refl (omega arith) (omega arith)
      (omega arith) lucky refl refl refl (λ e. absurd (cc)) refl (λ e. absurd (cc))
      (λ e. absurd (cc)) (omega arith) (omega arith) refl start-Solvent refl
