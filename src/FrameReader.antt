-- ===== src/FrameReader.antt =====
-- `TCPServer::read_frame` of provider-daemon/src/transport.rs.
pub mod Bounds
pub mod Closed
pub mod RoundTrip
use spmp.Prelude.{ℕ, Bool, true, false, not, if◌then◌else◌, ◌==◌, ltb, Option, none, some}
use spmp.Prelude.{[], ◌∷◌, ◌++◌, Bytes}
use spmp.Prelude.Words.{from_be_bytes, from_le_bytes}
use spmp.Results.{Result, ok, err, panic, waits, unexpected_eof, invalid_magic, frame_too_large}
use spmp.Results.{bail_if, unwrap, slice, index}
use spmp.Types.{spmp_magic}
use spmp.Frames.{max_frame_size}
use spmp.Net.{Tcp, Action, lift, pure, ◌>>=◌, ◌>>◌}

-- The `match` on `read_exact(&mut header)`: the end of the stream is no error there.
abbrev unless_eof : Result Bytes → Result (Option Bytes)
unless_eof (ok header) = ok (some header)
unless_eof (err unexpected_eof) = ok none
unless_eof (err e) = err e
unless_eof panic = panic
unless_eof waits = waits

module _ {S : Type 0} (tcp : Tcp S) where
  abbrev read_payload : ℕ → Action S Bytes
  read_payload len = if ltb 0 len then tcp.read_exact len else pure []

  pub read_after_header : Bytes → Action S (Option Bytes)
  read_after_header header = do
    magic_bytes ← lift (slice 0 4 header)
    magic ← lift (unwrap (from_be_bytes magic_bytes))
    lift (bail_if (not (magic == spmp_magic)) invalid_magic)
    msg_type_byte ← lift (index 4 header)
    len_bytes ← lift (slice 5 9 header)
    len ← lift (unwrap (from_le_bytes len_bytes))
    lift (bail_if (ltb max_frame_size len) (frame_too_large len))
    payload ← read_payload len
    pure (some (magic_bytes ++ (msg_type_byte ∷ payload)))

  abbrev read_or_eof : Option Bytes → Action S (Option Bytes)
  read_or_eof none = pure none
  read_or_eof (some header) = read_after_header header

  pub read_frame : Action S (Option Bytes)
  read_frame s = let (r, s') = tcp.read_exact 9 s in (lift (unless_eof r) >>= read_or_eof) s'
