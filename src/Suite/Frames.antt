-- ===== src/Suite/Frames.antt =====
-- The tests in provider-daemon/src/transport.rs and client-daemon/src/transport.rs: the handshake's
-- server against a client that reads and writes bytes, and the encoders and decoders of frames.
pub mod Passes
use spmp.Prelude.{
  ℕ, ◌+◌, ◌==◌, Bool, true, false, Option, none, some, [], ◌∷◌, ◌++◌, Bytes, length, take, drop,
  replicate, bytes_eq,
}
use spmp.Prelude.Text.{ascii, be_bytes}
use spmp.Prelude.Words.{to_be_bytes, to_le_bytes, from_be_bytes, from_le_bytes, as_u32}
use spmp.Results.{Result, ok, unwrap, index, slice, slice_from, ◌>>=◌, ◌>>◌}
use spmp.Types.{
  Ticket, SessionConfig, spmp_magic, as_u8, handshake_init, handshake_ack, ticket_request,
  compute_resp,
}
use spmp.ClientTypes.{SignedTicket}
use spmp.Net.{Tcp}
use spmp.Server.{TcpServer, encode_response_frame}
use spmp.Connection.{handle_handshake}
use spmp.Client.{encode_ticket_frame, decode_response_frame}
use spmp.Suite.{assert}
use spmp.Suite.Signing.{expect}

-- The header's magic, as `u32::from_be_bytes(header[0..4].try_into().unwrap())`, and its length.
abbrev magic_of : Bytes → Result ℕ
magic_of frame = do bytes ← slice 0 4 frame; unwrap (from_be_bytes bytes)

abbrev length_of : Bytes → Result ℕ
length_of frame = do bytes ← slice 5 9 frame; unwrap (from_le_bytes bytes)

-- What the test's client reads of the bytes that it is sent: the header, and behind it the commitment.
unfoldable pub client_reads : Bytes → Bytes → Result (Unit {0})
client_reads expected_commitment sent = do
  header ← slice 0 9 sent
  magic ← magic_of header
  assert (magic == spmp_magic)
  kind ← index 4 header
  assert (kind == as_u8 handshake_init)
  len ← length_of header
  assert (len == 32)
  commitment_buf ← slice 9 (9 + len) sent
  assert (bytes_eq commitment_buf expected_commitment)

abbrev pub fake_channel_id : Bytes
fake_channel_id = replicate 32 7

abbrev pub fake_client_addr : Bytes
fake_client_addr = replicate 20 9

-- The answer that the test's client writes.
abbrev pub fake_ack_frame : Bytes
fake_ack_frame =
    let ack_payload = fake_channel_id ++ fake_client_addr in
    to_be_bytes spmp_magic
    ++ (as_u8 handshake_ack ∷ (to_le_bytes (as_u32 (length ack_payload)) ++ ack_payload))

-- The handshake on a connection, from where the client has written its answer; `sent` is what the
-- client's end of a connection has been sent.
unfoldable pub handshake_commitment_matches_keccak_of_seed_and_captures_session :
    {S : Type 0} → Tcp S → (S → Bytes) → TcpServer → S → Result (Unit {0})
handshake_commitment_matches_keccak_of_seed_and_captures_session tcp sent server s =
    let (end, s') = handle_handshake tcp server s in
    client_reads server.provider_commitment (sent s')
    >> (expect end >>= λ session.
        assert (bytes_eq session.channel_id fake_channel_id)
        >> assert (bytes_eq session.client_address fake_client_addr)
        >> assert (session.last_nonce == 0))

unfoldable pub encode_response_frame_roundtrips_header : Result (Unit {0})
encode_response_frame_roundtrips_header = do
  let frame = encode_response_frame (ascii "hello") false
  magic ← magic_of frame
  assert (magic == spmp_magic)
  kind ← index 4 frame
  assert (kind == as_u8 compute_resp)
  len ← length_of frame
  assert (len == 1 + length (ascii "hello"))
  is_done ← index 9 frame
  assert (is_done == 0)
  text ← slice_from 10 frame
  assert (bytes_eq text (ascii "hello"))

abbrev pub mock_ticket : SignedTicket
mock_ticket = record {
  payload = record {
    channel_id = replicate 32 0x11;
    provider = be_bytes 20 0x70997970C51812dc3A010C7d01b50e0d17dc79C8;
    nonce = 42;
    face_value = 50_000;
    win_prob_numerator = 1;
    win_prob_denominator = 50;
    expiry = 1_700_000_000;
    client_seed = replicate 32 0x22;
    provider_commitment = replicate 32 0x33;
  };
  signature = replicate 65 0;
}

abbrev pub mock_resp : Bytes
mock_resp =
    let text_bytes = ascii "TokenOutput" in
    to_be_bytes spmp_magic
    ++ (as_u8 compute_resp ∷ (to_le_bytes (1 + as_u32 (length text_bytes)) ++ (1 ∷ text_bytes)))

unfoldable pub test_encode_and_decode_frames : (Ticket → Bytes) → Result (Unit {0})
test_encode_and_decode_frames abi_encode = do
  let encoded = encode_ticket_frame abi_encode mock_ticket (ascii "Hello SPMP")
  magic ← slice 0 4 encoded
  assert (bytes_eq magic (to_be_bytes spmp_magic))
  kind ← index 4 encoded
  assert (kind == as_u8 ticket_request)
  (decoded_text, is_done) ← expect (decode_response_frame mock_resp)
  assert (bytes_eq decoded_text (ascii "TokenOutput"))
  assert is_done
