-- ===== src/Protocol/Handshake.antt =====
-- Each side of the handshake, against the bytes of the other.
use spmp.Prelude.{◌≡◌, ◌∙◌, ap, refl, arith, false, Bytes, length, ◌++◌, some, length-append}
use spmp.Prelude.{drop-append_of_eq, take-append_of_eq}
use spmp.Results.{ok}
use spmp.Types.{B256, Address, SessionConfig, handshake_init, handshake_ack}
use spmp.Types.Laws.{IsB256, IsAddress}
use spmp.Net.{Tcp, timeout, ◌>>=◌, ◌>>◌}
use spmp.Net.Laws.{TcpLaws}
use spmp.Frames.{build_frame}
use spmp.Frames.RoundTrip.{frame_body, split_frame-frame_body}
use spmp.FrameReader.RoundTrip.{read_frame-build_frame, frame_header, read_exact-next}
use spmp.Server.{session_of_ack, handshake_timeout}
use spmp.Connection.{handle_handshake_inner}
use spmp.ClientLink.{TcpClient, ack_frame, receive_init, perform_handshake}

-- The client's answer is a frame as the server builds them.
ack_frame-build_frame :
    (channel_id : B256) (addr : Address)
    → ack_frame channel_id addr ≡ build_frame handshake_ack (channel_id ++ addr)
unfolding ack_frame build_frame
ack_frame-build_frame channel_id addr = refl

abbrev pub session : B256 → Address → B256 → B256 → SessionConfig
session channel_id addr seed commitment = record {
  channel_id = channel_id;
  client_address = addr;
  provider_seed = seed;
  provider_commitment = commitment;
  last_nonce = 0;
}

session_of_ack-frame_body :
    (seed commitment : B256) (channel_id : B256) (addr : Address)
    → IsB256 channel_id
    → IsAddress addr
    → session_of_ack seed commitment (frame_body handshake_ack (channel_id ++ addr))
      ≡ ok (session channel_id addr seed commitment)
unfolding session_of_ack
session_of_ack-frame_body seed commitment channel_id addr hc ha =
    let size : length (channel_id ++ addr) ≡ 52 = omega (arith, length-append channel_id addr) in
    rw (
      split_frame-frame_body,
      size,
      take-append_of_eq 32 channel_id addr hc,
      hc,
      drop-append_of_eq 32 channel_id addr hc,
      ha,
    )

module _ {S : Type 0} (tcp : Tcp S) (laws : TcpLaws tcp) where
  open laws use {incoming, outgoing, write_done}

  -- The server, on a stream where the write succeeds and neither step times out, and the
  -- client's answer comes in, with a channel of 32 bytes and an address of 20: it has sent its
  -- commitment, and the session has the client's channel and address, the server's seed and
  -- commitment, and the watermark 0. What follows the answer is left.
  pub server_handshake :
      (seed commitment channel_id : B256) (addr : Address) (rest : Bytes) (s : S)
      → IsB256 channel_id
      → IsAddress addr
      → let init = build_frame handshake_init commitment in
        let (r, s₁) = tcp.write_all init s in
        let (end, s') = handle_handshake_inner tcp seed commitment s in
        r ≡ ok tt
        → tcp.elapses handshake_timeout s ≡ false
        → tcp.elapses handshake_timeout s₁ ≡ false
        → incoming s ≡ ack_frame channel_id addr ++ rest
        → (end ≡ ok (session channel_id addr seed commitment))
          × (incoming s' ≡ rest)
          × (outgoing s' ≡ outgoing s ++ init)
  unfolding handle_handshake_inner
  server_handshake seed commitment channel_id addr rest s hc ha w t t₁ e =
      let s₁ = (tcp.write_all (build_frame handshake_init commitment) s).1 in
      let (i, o) = write_done (build_frame handshake_init commitment) s w in
      let sent : incoming s₁ ≡ build_frame handshake_ack (channel_id ++ addr) ++ rest =
        i ∙ e ∙ ap (λ b. b ++ rest) (ack_frame-build_frame channel_id addr) in
      let (r', i', o') =
        read_frame-build_frame tcp laws handshake_ack (channel_id ++ addr) rest s₁
          (omega (arith, length-append channel_id addr)) sent in
      rw
        (
          w,
          t,
          t₁,
          r',
          session_of_ack-frame_body seed commitment channel_id addr hc ha,
          handle_handshake_inner,
          timeout,
          ◌>>=◌,
          ◌>>◌,
        )
        (refl, i', o' ∙ o)

  receive_init-build_frame :
      (commitment : B256) (rest : Bytes) (s : S)
      → IsB256 commitment
      → incoming s ≡ build_frame handshake_init commitment ++ rest
      → let (r, s') = receive_init tcp s in
        (r ≡ ok commitment) × (incoming s' ≡ rest) × (outgoing s' ≡ outgoing s)
  unfolding receive_init build_frame
  receive_init-build_frame commitment rest s hc e =
      let (r, i, o) =
        read_exact-next tcp laws 9 (frame_header handshake_init 32) (commitment ++ rest) s refl
          (e ∙ rw hc) in
      let (r', i', o') = read_exact-next tcp laws 32 commitment rest (tcp.read_exact 9 s).1 hc i in
      rw (r, r', receive_init, ◌>>=◌) (rw hc, i', o' ∙ o)

  -- The client, on an open stream where the server's commitment of 32 bytes comes in and the
  -- write succeeds: it keeps that commitment and has sent its channel and address. What follows
  -- the commitment is left.
  pub client_handshake :
      (commitment channel_id : B256) (addr : Address) (rest : Bytes) (client : TcpClient S) (s : S)
      → IsB256 commitment
      → client.stream ≡ some s
      → incoming s ≡ build_frame handshake_init commitment ++ rest
      → (tcp.write_all (ack_frame channel_id addr) (receive_init tcp s).1).0 ≡ ok tt
      → let (r, client') = perform_handshake tcp channel_id addr client in
        (r ≡ ok tt)
        × (client'.provider_commitment ≡ commitment)
        × ((s' : S) × (client'.stream ≡ some s')
            × (incoming s' ≡ rest)
            × (outgoing s' ≡ outgoing s ++ ack_frame channel_id addr))
  unfolding perform_handshake
  client_handshake commitment channel_id addr rest client s hc open_stream e w =
      let (r, i, o) = receive_init-build_frame commitment rest s hc e in
      let (i', o') = write_done (ack_frame channel_id addr) (receive_init tcp s).1 w in
      let s' = (tcp.write_all (ack_frame channel_id addr) (receive_init tcp s).1).1 in
      rw (open_stream, r)
        (w, refl, (s', refl, i' ∙ i, o' ∙ ap (λ b. b ++ ack_frame channel_id addr) o))
