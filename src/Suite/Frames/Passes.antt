-- ===== src/Suite/Frames/Passes.antt =====
-- The tests of the handshake and of the frames pass.
use spmp.Prelude.{
  ℕ, ◌≡◌, ◌∙◌, sym, ap, refl, arith, false, [], ◌∷◌, ◌++◌, Bytes, length, take, bytes_eq_self,
  le→leb, take-append_of_eq,
}
use spmp.Results.{ok, slice}
use spmp.Types.{Ticket, handshake_init}
use spmp.Types.Laws.{IsB256}
use spmp.Net.{Tcp}
use spmp.Net.Laws.{TcpLaws}
use spmp.Frames.{build_frame}
use spmp.Server.{TcpServer, handshake_timeout, encode_response_frame}
use spmp.Client.{encode_ticket_frame, decode_response_frame, response_of}
use spmp.ClientLink.{ack_frame}
use spmp.Protocol.Handshake.{server_handshake}
use spmp.Utf8.{is_utf8, utf8_from, from_utf8}
use spmp.Suite.Frames.{
  client_reads, fake_ack_frame, fake_channel_id, fake_client_addr,
  handshake_commitment_matches_keccak_of_seed_and_captures_session,
  encode_response_frame_roundtrips_header, test_encode_and_decode_frames,
}
use mathlib.Core.List.{append-nil}

client_reads-build_frame :
    (commitment : Bytes)
    → IsB256 commitment
    → client_reads commitment (build_frame handshake_init commitment) ≡ ok tt
unfolding client_reads build_frame
client_reads-build_frame commitment size =
    let whole : take 32 commitment ≡ commitment =
      ap (take 32) (sym (append-nil commitment)) ∙ take-append_of_eq 32 commitment [] size in
    rw (size, whole, bytes_eq_self commitment) refl

fake_ack_frame-ack_frame : fake_ack_frame ≡ ack_frame fake_channel_id fake_client_addr
unfolding ack_frame
fake_ack_frame-ack_frame = refl

-- On a connection on which nothing was sent yet, the write succeeds and neither step times out.
handshake_test-passes :
    {S : Type 0} (tcp : Tcp S) (laws : TcpLaws tcp) (server : TcpServer) (rest : Bytes) (s : S)
    → IsB256 server.provider_commitment
    → laws.outgoing s ≡ []
    → laws.incoming s ≡ fake_ack_frame ++ rest
    → let (r, s₁) = tcp.write_all (build_frame handshake_init server.provider_commitment) s in
      r ≡ ok tt
      → tcp.elapses handshake_timeout s ≡ false
      → tcp.elapses handshake_timeout s₁ ≡ false
      → handshake_commitment_matches_keccak_of_seed_and_captures_session tcp laws.outgoing server s
        ≡ ok tt
unfolding handshake_commitment_matches_keccak_of_seed_and_captures_session
handshake_test-passes tcp laws server rest s size fresh arrives written soon₁ soon₂ =
    let (session, _, sent) =
      server_handshake tcp laws server.provider_seed server.provider_commitment fake_channel_id
        fake_client_addr rest s refl refl written soon₁ soon₂
        (arrives ∙ ap (λ b. b ++ rest) fake_ack_frame-ack_frame) in
    rw (session, sent, fresh, client_reads-build_frame server.provider_commitment size) refl

encode_response_frame_roundtrips_header-passes : encode_response_frame_roundtrips_header ≡ ok tt
unfolding encode_response_frame_roundtrips_header encode_response_frame build_frame
encode_response_frame_roundtrips_header-passes = refl

slice-front :
    (a b c d : ℕ) (rest : Bytes) → slice 0 4 (a ∷ b ∷ c ∷ d ∷ rest) ≡ ok (a ∷ b ∷ c ∷ d ∷ [])
slice-front a b c d rest = rw (le→leb 4 (length (a ∷ b ∷ c ∷ d ∷ rest)) (omega arith)) refl

-- Whatever the ABI encoder.
test_encode_and_decode_frames-passes :
    (abi_encode : Ticket → Bytes) → test_encode_and_decode_frames abi_encode ≡ ok tt
unfolding test_encode_and_decode_frames encode_ticket_frame decode_response_frame response_of
    is_utf8 utf8_from from_utf8
test_encode_and_decode_frames-passes abi_encode = rw (slice-front 0x53 0x50 0x4D 0x50) refl
