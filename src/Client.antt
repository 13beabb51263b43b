-- ===== src/Client.antt =====
-- `TCPClient` of client-daemon/src/transport.rs. Its two mutexes are not modelled: a call holds the
-- stream's from beginning to end, so calls follow one another.
pub mod Responses
use spmp.Prelude.{ℕ, ◌+◌, ◌^◌, true, false, not, if◌then◌else◌, ◌==◌, ltb, Bool, Option, none, some}
use spmp.Prelude.{[], ◌∷◌, ◌++◌, Bytes, length}
use spmp.Prelude.Words.{as_u32, to_be_bytes, to_le_bytes, from_be_bytes, from_le_bytes}
use spmp.Results.{Result, ok, err, bail_if, ok_or, slice, slice_from, index, ◌>>=◌, ◌>>◌}
use spmp.Results.{bad_slice, response_too_small, invalid_magic, unexpected_response}
use spmp.Results.{incomplete_payload, empty_payload, invalid_utf8}
use spmp.Types.{Ticket, as_u8, spmp_magic, ticket_request, compute_resp}
use spmp.ClientTypes.{SignedTicket}
use spmp.Utf8.{from_utf8}

-- `face_value.try_into().unwrap_or_default()` from 256 bits to 128.
abbrev pub u128_or_default : ℕ → ℕ
u128_or_default n = if ltb n (2 ^ 128) then n else 0

-- The Solidity struct that goes over the wire.
unfoldable pub ticket_sol : SignedTicket → Ticket
ticket_sol ticket = record {
  channel_id = ticket.payload.channel_id;
  provider = ticket.payload.provider;
  nonce = ticket.payload.nonce;
  face_value = u128_or_default ticket.payload.face_value;
  win_prob_numerator = ticket.payload.win_prob_numerator;
  win_prob_denominator = ticket.payload.win_prob_denominator;
  expiry = ticket.payload.expiry;
  client_seed = ticket.payload.client_seed;
  provider_commitment = ticket.payload.provider_commitment;
}

unfoldable pub encode_ticket_frame : (Ticket → Bytes) → SignedTicket → Bytes → Bytes
encode_ticket_frame abi_encode ticket payload =
    let frame_payload =
      abi_encode (ticket_sol ticket)
      ++ (to_le_bytes (as_u32 (length ticket.signature))
          ++ (ticket.signature ++ (to_le_bytes (as_u32 (length payload)) ++ payload))) in
    to_be_bytes spmp_magic
    ++ (as_u8 ticket_request ∷ (to_le_bytes (as_u32 (length frame_payload)) ++ frame_payload))

-- The text and the flag that a response's payload holds.
unfoldable pub response_of : Bytes → Result (Bytes × Bool)
response_of payload = do
  flag ← index 0 payload
  text_bytes ← slice_from 1 payload
  text ← ok_or (from_utf8 text_bytes) invalid_utf8
  ok (text, not (flag == 0))

unfoldable pub decode_response_frame : Bytes → Result (Bytes × Bool)
decode_response_frame buf = do
  bail_if (ltb (length buf) 10) response_too_small
  magic_bytes ← slice 0 4 buf
  magic ← ok_or (from_be_bytes magic_bytes) bad_slice
  bail_if (not (magic == spmp_magic)) invalid_magic
  msg_type ← index 4 buf
  bail_if (not (msg_type == as_u8 compute_resp)) unexpected_response
  len_bytes ← slice 5 9 buf
  payload_len ← ok_or (from_le_bytes len_bytes) bad_slice
  bail_if (ltb (length buf) (9 + payload_len)) incomplete_payload
  payload_buf ← slice 9 (9 + payload_len) buf
  bail_if (length payload_buf == 0) empty_payload
  response_of payload_buf
