-- ===== src/Frames.antt =====
-- The frame codec of provider-daemon/src/transport.rs.
pub mod RoundTrip
use spmp.Prelude.{ℕ, ◌*◌, true, false, not, ◌==◌, ltb, ◌∷◌, ◌++◌, Bytes, length}
use spmp.Prelude.Words.{as_u32, to_be_bytes, to_le_bytes, from_be_bytes}
use spmp.Results.{Result, ok, frame_too_short, invalid_magic, bail_if, unwrap, slice_from}
use spmp.Results.{split_at, index, ◌>>=◌, ◌>>◌}
use spmp.Types.{MsgType, as_u8, from_u8, spmp_magic}

abbrev pub max_frame_size : ℕ
max_frame_size = 64 * 1024

unfoldable pub build_frame : MsgType → Bytes → Bytes
build_frame msg_type payload =
    to_be_bytes spmp_magic ++ (as_u8 msg_type ∷ (to_le_bytes (as_u32 (length payload)) ++ payload))

unfoldable pub split_frame : Bytes → Result (MsgType × Bytes)
split_frame buf = do
  bail_if (ltb (length buf) 5) frame_too_short
  (magic_bytes, rest) ← split_at 4 buf
  magic ← unwrap (from_be_bytes magic_bytes)
  bail_if (not (magic == spmp_magic)) invalid_magic
  byte ← index 0 rest
  msg_type ← from_u8 byte
  payload ← slice_from 1 rest
  ok (msg_type, payload)
