-- ===== src/Types/Laws.antt =====
-- The message bytes are read back as they were written, and no other byte is a message.
use spmp.Prelude.{ℕ, ◌≡◌, refl, arith, ◌↔◌, Bytes, length}
use spmp.Types.{MsgType, as_u8, from_u8, handshake_init, handshake_ack, ticket_request}
use spmp.Types.{compute_resp, win_notify, error_halt}
use spmp.Results.{ok}

abbrev pub IsB256 : Bytes → Type 0
IsB256 b = length b ≡ 32

abbrev pub IsAddress : Bytes → Type 0
IsAddress b = length b ≡ 20

pub from_u8-as_u8 : (m : MsgType) → from_u8 (as_u8 m) ≡ ok m
unfolding from_u8
from_u8-as_u8 handshake_init = refl
from_u8-as_u8 handshake_ack = refl
from_u8-as_u8 ticket_request = refl
from_u8-as_u8 compute_resp = refl
from_u8-as_u8 win_notify = refl
from_u8-as_u8 error_halt = refl

from_u8_inv : (byte : ℕ) (m : MsgType) → from_u8 byte ≡ ok m → as_u8 m ≡ byte
unfolding from_u8
from_u8_inv byte m h = ground arith

-- `MsgType::from_u8` accepts a byte as the message `m` exactly when `m as u8` is that byte.
pub from_u8_iff : (byte : ℕ) (m : MsgType) → (from_u8 byte ≡ ok m) ↔ (as_u8 m ≡ byte)
from_u8_iff byte m = (from_u8_inv byte m, λ e. rw (← e) (from_u8-as_u8 m))
