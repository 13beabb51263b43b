-- ===== src/Types.antt =====
-- provider-daemon/src/types.rs, and what client-daemon/src/types.rs declares the same way.
pub mod Laws
use spmp.Prelude.{ℕ, ◌==◌, if◌then◌else◌, Bytes, Option, none, some, Bool, true, false}
use spmp.Results.{Result, ok, err, unknown_msg_type, bad_ticket_abi, ok_or}

-- A `B256` is a string of 32 bytes and an `Address` one of 20: see `IsB256`, `IsAddress`.
abbrev pub B256 : Type 0
B256 = Bytes

abbrev pub Address : Type 0
Address = Bytes

abbrev pub secp256k1_half_order : ℕ
secp256k1_half_order = 0x7FFFFFFFFFFFFFFFFFFFFFFFFFFFFFFF5D576E735EBE07597DA786400E927ED0

abbrev pub secp256k1_n : ℕ
secp256k1_n = 0xFFFFFFFFFFFFFFFFFFFFFFFFFFFFFFFEBAAEDCE6AF48A03BBFD25E8CD0364141

pub record Ticket : Type 0 where
  pub channel_id : B256
  pub provider : Address
  pub nonce : ℕ
  pub face_value : ℕ
  pub win_prob_numerator : ℕ
  pub win_prob_denominator : ℕ
  pub expiry : ℕ
  pub client_seed : B256
  pub provider_commitment : B256

pub record SessionConfig : Type 0 where
  pub channel_id : B256
  pub client_address : Address
  pub provider_seed : B256
  pub provider_commitment : B256
  pub last_nonce : ℕ

pub record IncomingTicketFrame : Type 0 where
  pub ticket : Ticket
  pub signature : Bytes
  pub prompt_payload : Bytes

pub data TicketVerdict : Type 0 where
  valid_losing valid_winning invalid_signature invalid_commitment : TicketVerdict
  invalid_nonce expired : TicketVerdict

pub data GatekeeperDecision : Type 0 where
  serve_losing claim_and_rotate_winning : GatekeeperDecision
  reject : TicketVerdict → GatekeeperDecision

abbrev pub spmp_magic : ℕ
spmp_magic = 0x53504D50

pub data MsgType : Type 0 where
  handshake_init handshake_ack ticket_request compute_resp win_notify error_halt : MsgType

-- `msg_type as u8`
abbrev pub as_u8 : MsgType → ℕ
as_u8 handshake_init = 0x01
as_u8 handshake_ack = 0x02
as_u8 ticket_request = 0x03
as_u8 compute_resp = 0x04
as_u8 win_notify = 0x05
as_u8 error_halt = 0xFF

unfoldable pub from_u8 : ℕ → Result MsgType
from_u8 byte =
    if byte == 0x01
    then ok handshake_init
    else if byte == 0x02
    then ok handshake_ack
    else if byte == 0x03
    then ok ticket_request
    else if byte == 0x04
    then ok compute_resp
    else if byte == 0x05
    then ok win_notify
    else if byte == 0xFF
    then ok error_halt
    else err (unknown_msg_type byte)

-- The derived `==` of `MsgType`.
abbrev pub msg_type_eq : MsgType → MsgType → Bool
msg_type_eq a b = as_u8 a == as_u8 b

-- `decode_ticket` over `abi_decode`, the decoder that alloy derives for `Ticket`.
unfoldable pub decode_ticket : (Bytes → Option Ticket) → Bytes → Result Ticket
decode_ticket abi_decode buf = ok_or (abi_decode buf) bad_ticket_abi
