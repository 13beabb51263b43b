-- ===== src/ClientLink.antt =====
-- The methods of `TCPClient` (client-daemon/src/transport.rs) that use its stream.
use spmp.Prelude.{not, ◌==◌, Bool, Option, none, some, ◌∷◌, ◌++◌, Bytes, length, replicate}
use spmp.Prelude.Words.{as_u32, to_be_bytes, to_le_bytes, from_be_bytes, from_le_bytes}
use spmp.Results.{
  Result, ok, err, panic, waits, bail_if, ok_or, slice, index, from_slice, bad_slice,
}
use spmp.Results.{
  invalid_magic, expected_handshake_init, unexpected_response, empty_payload, not_connected,
}
use spmp.Types.{
  B256, Address, Ticket, as_u8, spmp_magic, handshake_init, handshake_ack, compute_resp,
}
use spmp.ClientTypes.{SignedTicket}
use spmp.Client.{encode_ticket_frame, response_of}
use spmp.Net.{Tcp, Action, lift, ◌>>=◌, ◌>>◌}
use Prim.Native.String.{String}

pub record TcpClient (S : Type 0) : Type 0 where
  pub stream : Option S
  pub provider_addr : String
  pub provider_commitment : B256

-- `TCPClient::new`
pub new : {S : Type 0} → String → TcpClient S
new addr = record { stream = none; provider_addr = addr; provider_commitment = replicate 32 0 }

pub get_provider_commitment : {S : Type 0} → TcpClient S → B256
get_provider_commitment client = client.provider_commitment

-- `TCPClient::connect`, over the outcome of opening the connection.
pub connect : {S : Type 0} → Result S → TcpClient S → Result (Unit {0}) × TcpClient S
connect (ok s) client = (ok tt, record client { stream = some s })
connect (err e) client = (err e, client)
connect panic client = (panic, client)
connect waits client = (waits, client)

-- The frame that answers `HandshakeInit`.
unfoldable pub ack_frame : B256 → Address → Bytes
ack_frame channel_id client_address =
    let ack_payload = channel_id ++ client_address in
    to_be_bytes spmp_magic
    ++ (as_u8 handshake_ack ∷ (to_le_bytes (as_u32 (length ack_payload)) ++ ack_payload))

module _ {S : Type 0} (tcp : Tcp S) where
  -- Step 1 of the handshake. The length in the header is not read.
  unfoldable pub receive_init : Action S B256
  receive_init = do
    header ← tcp.read_exact 9
    magic_bytes ← lift (slice 0 4 header)
    magic ← lift (ok_or (from_be_bytes magic_bytes) bad_slice)
    lift (bail_if (not (magic == spmp_magic)) invalid_magic)
    msg_type ← lift (index 4 header)
    lift (bail_if (not (msg_type == as_u8 handshake_init)) expected_handshake_init)
    commitment_buf ← tcp.read_exact 32
    lift (from_slice 32 commitment_buf)

  -- Step 2: the commitment is stored before the answer is written.
  abbrev pub acknowledge :
      B256 → Address → Result B256 × S → TcpClient S → Result (Unit {0}) × TcpClient S
  acknowledge channel_id client_address (ok commitment, s) client =
      let (written, s') = tcp.write_all (ack_frame channel_id client_address) s in
      (written, record client { stream = some s'; provider_commitment = commitment })
  acknowledge channel_id client_address (err e, s) client =
      (err e, record client { stream = some s })
  acknowledge channel_id client_address (panic, s) client =
      (panic, record client { stream = some s })
  acknowledge channel_id client_address (waits, s) client =
      (waits, record client { stream = some s })

  unfoldable pub perform_handshake : B256 → Address → TcpClient S → Result (Unit {0}) × TcpClient S
  perform_handshake channel_id client_address client = elim (client.stream) [
    | none ↦ (err not_connected, client)
    | some s ↦ acknowledge channel_id client_address (receive_init s) client
  ]

  -- Reads the answer to a ticket. There is no limit on the length that its header announces.
  unfoldable pub receive_response : Action S (Bytes × Bool)
  receive_response = do
    header ← tcp.read_exact 9
    magic_bytes ← lift (slice 0 4 header)
    magic ← lift (ok_or (from_be_bytes magic_bytes) bad_slice)
    lift (bail_if (not (magic == spmp_magic)) invalid_magic)
    msg_type ← lift (index 4 header)
    lift (bail_if (not (msg_type == as_u8 compute_resp)) unexpected_response)
    len_bytes ← lift (slice 5 9 header)
    len ← lift (ok_or (from_le_bytes len_bytes) bad_slice)
    payload ← tcp.read_exact len
    lift (bail_if (length payload == 0) empty_payload)
    lift (response_of payload)

  unfoldable pub exchange : Bytes → Action S (Bytes × Bool)
  unfolding receive_response
  exchange frame = do tcp.write_all frame; receive_response

  unfoldable pub send_ticket_and_prompt :
      (Ticket → Bytes) → SignedTicket → Bytes → TcpClient S → Result (Bytes × Bool) × TcpClient S
  send_ticket_and_prompt abi_encode ticket prompt client = elim (client.stream) [
    | none ↦ (err not_connected, client)
    | some s ↦
        let (r, s') = exchange (encode_ticket_frame abi_encode ticket prompt) s in
        (r, record client { stream = some s' })
  ]
