-- ===== src/Lib.antt =====
-- SPMP: streaming micro-payments for LLM inference. A client pays a provider for each chunk of compute
-- with a signed probabilistic ticket; the provider checks the tickets off-chain, and claims the winning
-- ones from an escrow contract. This library models the two Rust daemons and the contract and proves what
-- they do with tickets, with each other's bytes and with the money.
--
-- The parts and their files:
--   Prelude, Prelude/*     shared names, Boolean tests, lists and machine words over the native numbers
--   Results, Results/*     how a call ends: a value, an anyhow error, a panic, an endless wait
--   Types, Types/*         provider-daemon/src/types.rs; tickets and messages of both daemons
--   Alloy                  the operations of the alloy crates that the daemons call, with their laws
--   Verifier, Verifier/*   provider-daemon/src/verifier.rs: TicketVerifier. verify_ticket and
--                          evaluate_and_gate are the methods of these names, and ticket_digest,
--                          recovered, combined_val, win_target and entropy_verdict are the steps of
--                          verify_ticket
--   Net, Net/Laws          the TCP stream of tokio: its operations, the async functions on it, its laws
--   Frames, Frames/*       build_frame and split_frame of provider-daemon/src/transport.rs
--   FrameReader, ./*       read_frame of the same file
--   Server, Server/*       its TCPServer: the ticket decoder, response encoder, the answer to the
--                          handshake, the body of the connection's loop
--   Connection, ./Loop     handle_client and handle_handshake_inner of the same file
--   ClientTypes            client-daemon/src/types.rs
--   Signer, Signer/*       client-daemon/src/crypto.rs: Signer and sign_next_ticket, in Signer/Parallel the
--                          steps of calls that share the watermark
--   Client, Client/*       the encoder and decoder of client-daemon/src/transport.rs
--   ClientLink             the methods of its TCPClient that use the stream
--   Simulate, Simulate/*   provider-daemon/src/bin/simulate.rs: run_variance_and_governor_audit, and in
--                          Simulate/Bench run_single_or_bench_mode, in Simulate/Options the command line
--   Settlement, ./*        provider-daemon/src/settlement.rs: SettlementWorker and its loop
--   Backend, Backend/*     provider-daemon/src/worker.rs: OllamaClient and its token stream
--   Proxy, Proxy/*         client-daemon/src/proxy.rs: chat_completions and its events
--   Evm                    what the contracts take from the EVM and from OpenZeppelin, with the laws
--   EscrowTypes, ./*       contracts/SPMPEscrow.sol: its storage, events and mappings
--   Escrow, Escrow/*       the functions of the same contract, and the steps of its storage; in
--                          Escrow/Verified what the tests of a claim come to
--   Suite, Suite/*         the unit tests in verifier.rs, crypto.rs, both transport.rs, proxy.rs,
--                          settlement.rs and worker.rs, as functions of what they draw and read, and
--                          when they pass
--   Utf8                   String::from_utf8, which the client applies to a response
--   Protocol, Protocol/*   theorems about both daemons: handshake, tickets and responses
--   Fixtures, Fixtures/*   a stand-in for alloy, a connection in memory, and the data of the tests
--
-- How the parts interact. The client connects, and the server sends its commitment, the hash of a random
-- seed, in a HandshakeInit frame. The client answers with its channel and address. It then signs tickets
-- with increasing nonces (Signer), puts each into a frame with a prompt (Client) and waits for a response
-- (ClientLink). The server reads frames (FrameReader) and decodes tickets from them (Server) in the loop
-- of the connection (Connection). The gatekeeper (Verifier) gives a verdict on a ticket against the
-- session's watermark and the provider's seed, and decides to serve, to claim, or to reject. The server's
-- loop does not call the gatekeeper in the source, and it does not here. A ticket that is to be claimed
-- goes into the queue of the worker (Settlement), which calls claimTicket (Escrow). A web client talks to
-- the proxy (Proxy), and the provider's tokens come from an LLM server (Backend).
--
-- Conventions. Bytes are a list of native numbers, a u64 is a number whose wrap is written out, and a
-- string is its bytes, but for names and addresses of hosts. Where the source can panic (slices, splits,
-- unwrap, checked addition) the model has a panic that the theorems are about. The build profile is an
-- argument where an addition can overflow: a debug build traps, a release build wraps. The clock, the
-- random bytes, the outcome of opening a connection, and whether tracing lets the server's INFO events
-- through (it computes their fields only then) are arguments.
--
-- Fuel. `serve`, the loop of a connection, takes fuel for its rounds. A round that goes on takes at least
-- nine bytes from the stream, so more rounds than the peer sends bytes are enough. `decimal` prints 39
-- digits at most, which are enough for a u128.
--
-- Parameters. alloy (hashing, EIP-712, ECDSA recovery, ABI codec, local signer) and tokio (the stream,
-- timeouts) are not part of the repository; they are records of operations, and what a theorem assumes of
-- them is in AlloyLaws, WalletLaws and TcpLaws. So are the EVM, OpenZeppelin's ECDSA and the ERC-20 token
-- (Evm, Erc20Laws), and what they and alloy have in common (Agrees). reqwest, the RPC node and serde_json
-- are functions that the definitions take. Fixtures instantiates all of them with concrete functions.
--
-- Not modelled: binding the listening sockets, the accepting loop of the server (it spawns a call of
-- handle_client for each connection), tokio's channel between the engine and a response, the HTTP router,
-- log output but for an addition in one log line, the statistics that the simulator prints (floating
-- point), the timing of a unit test, the constructor of the contract and the test token
-- (contracts/MockUSDC.sol). client-daemon/src/orchestrator.rs and the main functions of the daemons hold
-- no code that does anything. The client's mutexes are not there, since each call holds the lock on the
-- stream for all its length. The contract's guard against reentrancy is not there either, since the token
-- is a function that calls nothing back.
pub mod Alloy
pub mod Backend
pub mod Client
pub mod ClientLink
pub mod ClientTypes
pub mod Connection
pub mod Escrow
pub mod EscrowTypes
pub mod Evm
pub mod Fixtures
pub mod FrameReader
pub mod Frames
pub mod Net
pub mod Prelude
pub mod Protocol
pub mod Proxy
pub mod Results
pub mod Server
pub mod Settlement
pub mod Signer
pub mod Simulate
pub mod Suite
pub mod Types
pub mod Utf8
pub mod Verifier
