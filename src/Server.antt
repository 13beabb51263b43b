-- ===== src/Server.antt =====
-- `TCPServer` of provider-daemon/src/transport.rs, up to what it reads and writes: the new server, the
-- ticket frames, the response frames, the answer to the handshake, the body of the connection's loop.
pub mod Decode
pub mod Totality
use spmp.Prelude.{ℕ, zero, suc, ◌+◌, ◌*◌, true, false, not, if◌then◌else◌, ◌==◌, ltb, Bool}
use spmp.Prelude.{Option, none, some, [], ◌∷◌, ◌++◌, Bytes, length}
use spmp.Prelude.Words.{from_le_bytes}
use spmp.Results.{Result, ok, err, panic, waits, Profile, add_u64, bail_if, unwrap, ok_or, slice}
use spmp.Results.{slice_from, split_at, from_slice, ◌>>=◌, ◌>>◌}
use spmp.Results.{expected_ticket_request, ticket_frame_too_short, ticket_frame_truncated}
use spmp.Results.{prompt_truncated, closed_before_ack, expected_handshake_ack, malformed_ack}
use spmp.Results.{handshake_write_timed_out, handshake_read_timed_out}
use spmp.Types.{B256, Address, Ticket, SessionConfig, IncomingTicketFrame, MsgType, msg_type_eq}
use spmp.Types.{handshake_init, handshake_ack, ticket_request, compute_resp, decode_ticket}
use spmp.Frames.{build_frame, split_frame}
use Prim.Native.String.{String}

abbrev pub ticket_abi_len : ℕ
ticket_abi_len = 9 * 32

abbrev pub channel_id_len : ℕ
channel_id_len = 32

abbrev pub address_len : ℕ
address_len = 20

abbrev pub handshake_timeout : ℕ
handshake_timeout = 5

pub record TcpServer : Type 0 where
  pub listen_addr : String
  pub provider_seed : B256
  pub provider_commitment : B256

-- `TCPServer::new`, over the 32 random bytes that it draws and alloy's hash.
pub new : (Bytes → B256) → B256 → String → TcpServer
new keccak256 seed_bytes addr = record {
  listen_addr = addr;
  provider_seed = seed_bytes;
  provider_commitment = keccak256 seed_bytes;
}

-- The end of `decode_ticket_frame`: the prompt behind its length.
unfoldable pub decode_prompt : Ticket → Bytes → Bytes → Result IncomingTicketFrame
decode_prompt ticket signature after_sig = do
  (payload_len_bytes, rest) ← split_at 4 after_sig
  payload_len ← unwrap (from_le_bytes payload_len_bytes)
  bail_if (ltb (length rest) payload_len) prompt_truncated
  prompt_payload ← slice 0 payload_len rest
  ok (record { ticket = ticket; signature = signature; prompt_payload = prompt_payload })

-- Its middle: the signature behind its length.
unfoldable pub decode_signature : Ticket → Bytes → Result IncomingTicketFrame
decode_signature ticket after_ticket = do
  (sig_len_bytes, after_len) ← split_at 4 after_ticket
  sig_len ← unwrap (from_le_bytes sig_len_bytes)
  bail_if (ltb (length after_len) (sig_len + 4)) ticket_frame_truncated
  (sig_bytes, after_sig) ← split_at sig_len after_len
  decode_prompt ticket sig_bytes after_sig

unfoldable pub decode_ticket_frame : (Bytes → Option Ticket) → Bytes → Result IncomingTicketFrame
decode_ticket_frame abi_decode buf = do
  (msg_type, payload) ← split_frame buf
  bail_if (not (msg_type_eq msg_type ticket_request)) expected_ticket_request
  bail_if (ltb (length payload) (ticket_abi_len + 4)) ticket_frame_too_short
  (ticket_bytes, after_ticket) ← split_at ticket_abi_len payload
  ticket ← decode_ticket abi_decode ticket_bytes
  decode_signature ticket after_ticket

-- A `&str` is its bytes. `is_finished as u8` is 1 or 0.
unfoldable pub encode_response_frame : Bytes → Bool → Bytes
encode_response_frame token_chunk is_finished =
    build_frame compute_resp ((if is_finished then 1 else 0) ∷ token_chunk)

-- What the server makes of the frame that answers its `HandshakeInit`.
unfoldable pub session_of_ack : B256 → B256 → Bytes → Result SessionConfig
session_of_ack provider_seed provider_commitment ack_buf = do
  (msg_type, payload) ← split_frame ack_buf
  bail_if (not (msg_type_eq msg_type handshake_ack)) expected_handshake_ack
  bail_if (not (length payload == channel_id_len + address_len)) malformed_ack
  channel_id_bytes ← slice 0 channel_id_len payload
  channel_id ← from_slice 32 channel_id_bytes
  address_bytes ← slice_from channel_id_len payload
  client_address ← from_slice 20 address_bytes
  ok (record {
    channel_id = channel_id;
    client_address = client_address;
    provider_seed = provider_seed;
    provider_commitment = provider_commitment;
    last_nonce = 0;
  })

-- The fields of the log line on a ticket, which tracing computes only where its filter lets INFO
-- events of this module through.
unfoldable pub log_fields : Profile → Bool → SessionConfig → Result (Unit {0})
log_fields profile info_enabled session =
    if info_enabled
    then (add_u64 profile session.last_nonce 1 >>= λ expected_next. ok tt)
    else ok tt

-- The body of the connection's loop on a frame: a ticket is logged, then the watermark moves; a frame
-- that does not decode is logged and dropped.
unfoldable pub on_frame :
    Profile → Bool → (Bytes → Option Ticket) → Bytes → SessionConfig → Result SessionConfig
on_frame profile info_enabled abi_decode frame_buf session =
    elim (decode_ticket_frame abi_decode frame_buf) [
      | ok incoming ↦ log_fields profile info_enabled session >>= λ logged.
          ok (record session { last_nonce = incoming.ticket.nonce })
      | err e ↦ ok session
      | panic ↦ panic
      | waits ↦ waits
    ]
