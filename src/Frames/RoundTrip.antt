-- ===== src/Frames/RoundTrip.antt =====
-- A frame that was built is split into what it was built from, and no buffer makes the split panic.
use spmp.Prelude.{ℕ, ◌≡◌, arith, ◌∷◌, ◌++◌, Bytes}
use spmp.Prelude.Words.{to_be_bytes}
use spmp.Results.{ok, Returns}
use spmp.Types.{MsgType, as_u8, spmp_magic, from_u8}
use spmp.Types.Laws.{from_u8-as_u8}
use spmp.Frames.{split_frame}

-- A frame body as `read_frame` returns it: magic, message byte, payload.
abbrev pub frame_body : MsgType → Bytes → Bytes
frame_body msg_type payload = to_be_bytes spmp_magic ++ (as_u8 msg_type ∷ payload)

pub split_frame-frame_body :
    (msg_type : MsgType) (payload : Bytes)
    → split_frame (frame_body msg_type payload) ≡ ok (msg_type, payload)
unfolding split_frame
split_frame-frame_body m p = ground (arith, from_u8-as_u8 m)

from_u8-Returns : (b : ℕ) → Returns (from_u8 b)
unfolding from_u8
from_u8-Returns b = ground arith

pub split_frame-Returns : (buf : Bytes) → Returns (split_frame buf)
unfolding split_frame
split_frame-Returns (a ∷ b ∷ c ∷ d ∷ e ∷ rest) = ground (arith, from_u8-Returns e)
split_frame-Returns _ = tt
