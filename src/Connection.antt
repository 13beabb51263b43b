-- ===== src/Connection.antt =====
-- `TCPServer::handle_client` of provider-daemon/src/transport.rs: the task of one connection.
pub mod Loop
use spmp.Prelude.{ℕ, zero, suc, Bool, Option, none, some, Bytes}
use spmp.Results.{Result, ok, err, panic, waits, Profile, ok_or, closed_before_ack}
use spmp.Results.{handshake_write_timed_out, handshake_read_timed_out}
use spmp.Types.{B256, Ticket, SessionConfig, handshake_init}
use spmp.Frames.{build_frame}
use spmp.FrameReader.{read_frame}
use spmp.Server.{TcpServer, handshake_timeout, session_of_ack, on_frame}
use spmp.Net.{Tcp, Action, lift, timeout, ◌>>=◌, ◌>>◌}

-- The end of a task that has a session.
abbrev pub in_session :
    {S : Type 0}
    → Option (Result (Unit {0}) × SessionConfig × S)
    → Option (Result (Unit {0}) × Option SessionConfig × S)
in_session none = none
in_session (some (end, session, s)) = some (end, some session, s)

module _ {S : Type 0} (tcp : Tcp S) where
  unfoldable pub handle_handshake_inner : B256 → B256 → Action S SessionConfig
  handle_handshake_inner provider_seed provider_commitment = do
    timeout tcp handshake_timeout handshake_write_timed_out
        (tcp.write_all (build_frame handshake_init provider_commitment))
    ack ← timeout tcp handshake_timeout handshake_read_timed_out (read_frame tcp)
    ack_buf ← lift (ok_or ack closed_before_ack)
    lift (session_of_ack provider_seed provider_commitment ack_buf)

  -- `TCPServer::handle_handshake`
  abbrev pub handle_handshake : TcpServer → Action S SessionConfig
  handle_handshake self = handle_handshake_inner self.provider_seed self.provider_commitment

  module _ (profile : Profile) (info_enabled : Bool) (abi_decode : Bytes → Option Ticket) where
    -- The loop, with fuel for its rounds: how it ended, the session and the stream; `none` where the
    -- fuel ran out.
    unfoldable pub serve : ℕ → SessionConfig → S → Option (Result (Unit {0}) × SessionConfig × S)
    serve zero session s = none
    serve (suc fuel) session s =
        let (r, s') = read_frame tcp s in
        elim r [
          | ok none ↦ some (ok tt, session, s')
          | ok (some frame_buf) ↦
              elim (on_frame profile info_enabled abi_decode frame_buf session) [
                | ok session' ↦ serve fuel session' s'
                | err e ↦ some (err e, session, s')
                | panic ↦ some (panic, session, s')
                | waits ↦ some (waits, session, s')
              ]
          | err e ↦ some (err e, session, s')
          | panic ↦ some (panic, session, s')
          | waits ↦ some (waits, session, s')
        ]

    -- The whole task; the session is there only after the handshake.
    unfoldable pub handle_client :
        ℕ → B256 → B256 → S → Option (Result (Unit {0}) × Option SessionConfig × S)
    handle_client fuel provider_seed provider_commitment s =
        let (r, s') = handle_handshake_inner provider_seed provider_commitment s in
        elim r [
          | ok session ↦ in_session (serve fuel session s')
          | err e ↦ some (err e, none, s')
          | panic ↦ some (panic, none, s')
          | waits ↦ some (waits, none, s')
        ]
