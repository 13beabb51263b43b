-- ===== src/Protocol/Examples.antt =====
-- The theorems about streams and frames on concrete bytes.
use spmp.Prelude.{
  ◌+◌, ◌≤◌, ◌≡◌, ◌≢◌, ◌↔◌, refl, arith, true, some, [], ◌∷◌, ◌++◌, Bytes, length, replicate,
}
use spmp.Prelude.Words.{u64_max}
use spmp.Results.{Result, ok, err, panic, waits, debug, frame_too_large}
use spmp.Types.{SessionConfig, IncomingTicketFrame, ticket_request, compute_resp, handshake_init}
use spmp.Frames.{build_frame, max_frame_size}
use spmp.Frames.RoundTrip.{frame_body}
use spmp.FrameReader.{read_frame}
use spmp.FrameReader.RoundTrip.{Took, read_frame-build_frame}
use spmp.FrameReader.Bounds.{read_frame_bounds}
use spmp.Server.Totality.{decode_ticket_frame-Returns}
use spmp.Results.{Returns}
use spmp.Server.{decode_ticket_frame, encode_response_frame, on_frame}
use spmp.Server.Decode.{ticket_payload}
use spmp.Connection.{serve, handle_handshake_inner}
use spmp.Connection.Loop.{SameParty, Untrapped, on_frame-panic_iff, serve_ends}
use spmp.Client.{ticket_sol, encode_ticket_frame}
use spmp.ClientLink.{TcpClient, ack_frame, perform_handshake}
use spmp.Protocol.Handshake.{session, server_handshake, client_handshake}
use spmp.Protocol.Tickets.{ticket_delivered, ticket_refused}
use spmp.Utf8.{is_utf8, utf8_from}
use spmp.Prelude.{List}
use spmp.Connection.{handle_client, in_session}
use spmp.Protocol.Session.{Sent, frames, after_tickets, handle_client-after_tickets}
use spmp.ClientLink.{send_ticket_and_prompt}
use spmp.Protocol.Exchange.{send_ticket_and_prompt-encode_response_frame}
use spmp.Fixtures
use spmp.Fixtures.Pipe.{Pipe, tcp, tcp_laws, receiving}

read_frame-build_frame_example :
    Took tcp_laws
      (receiving (build_frame compute_resp (1 ∷ 2 ∷ []) ++ (7 ∷ [])))
      (7 ∷ [])
      (read_frame tcp (receiving (build_frame compute_resp (1 ∷ 2 ∷ []) ++ (7 ∷ []))))
      (some (frame_body compute_resp (1 ∷ 2 ∷ [])))
read_frame-build_frame_example =
    read_frame-build_frame tcp tcp_laws compute_resp (1 ∷ 2 ∷ []) (7 ∷ [])
      (receiving (build_frame compute_resp (1 ∷ 2 ∷ []) ++ (7 ∷ []))) (omega arith) refl

read_frame_bounds_example :
    let s = receiving (build_frame compute_resp (1 ∷ [])) in
    let (r, s') = read_frame tcp s in
    (r ≢ panic)
    × ((frame : Bytes)
        → r ≡ ok (some frame)
        → (5 ≤ length frame)
          × (length frame ≤ max_frame_size + 5)
          × (length (s'.unread) + 9 ≤ length (s.unread)))
read_frame_bounds_example =
    read_frame_bounds tcp tcp_laws (receiving (build_frame compute_resp (1 ∷ [])))

-- A ticket with a signature of one byte and the prompt "hi".
abbrev hi : Bytes
hi = 104 ∷ 105 ∷ []

abbrev last_session : SessionConfig
last_session = record Fixtures.session { last_nonce = u64_max }

on_frame-panic_iff_example :
    let frame = frame_body ticket_request (ticket_payload (replicate 288 0) (5 ∷ []) hi) in
    (on_frame debug true Fixtures.alloy.abi_decode frame last_session ≡ panic) ↔ (
      (debug ≡ debug)
      × (true ≡ true)
      × (u64_max ≡ u64_max)
      × ((incoming : IncomingTicketFrame) × (decode_ticket_frame Fixtures.alloy.abi_decode frame
            ≡ ok incoming)))
on_frame-panic_iff_example =
    on_frame-panic_iff Fixtures.alloy.abi_decode
      (frame_body ticket_request (ticket_payload (replicate 288 0) (5 ∷ []) hi)) last_session debug
      true (omega arith)

serve_ends_example :
    let s = receiving (build_frame ticket_request (ticket_payload (replicate 288 0) (5 ∷ []) hi)) in
    (end : Result (Unit {0})) × (session' : SessionConfig) × (s' : Pipe) × (serve tcp debug true
        Fixtures.alloy.abi_decode 400 Fixtures.session s
      ≡ some (end, session', s'))
    × SameParty Fixtures.session session'
    × (end ≢ waits)
    × (Untrapped debug true → end ≢ panic)
unfolding build_frame
serve_ends_example =
    serve_ends tcp tcp_laws (λ n p c. refl) Fixtures.alloy.abi_decode debug true 400
      Fixtures.session
      (receiving (build_frame ticket_request (ticket_payload (replicate 288 0) (5 ∷ []) hi)))
      (omega arith) refl

server_handshake_example :
    let init = build_frame handshake_init (replicate 32 3) in
    let s = receiving (ack_frame (replicate 32 1) Fixtures.client_address ++ (9 ∷ [])) in
    let (end, s') = handle_handshake_inner tcp Fixtures.seed (replicate 32 3) s in
    (end ≡ ok (session (replicate 32 1) Fixtures.client_address Fixtures.seed (replicate 32 3)))
    × (s'.unread ≡ 9 ∷ [])
    × (s'.written ≡ [] ++ init)
server_handshake_example =
    server_handshake tcp tcp_laws Fixtures.seed (replicate 32 3) (replicate 32 1)
      Fixtures.client_address (9 ∷ [])
      (receiving (ack_frame (replicate 32 1) Fixtures.client_address ++ (9 ∷ []))) refl refl refl
      refl refl refl

abbrev connected : Pipe → TcpClient Pipe
connected p = record {
  stream = some p;
  provider_addr = "127.0.0.1:9000";
  provider_commitment = replicate 32 0;
}

client_handshake_example :
    let ack = ack_frame (replicate 32 1) Fixtures.client_address in
    let s = receiving (build_frame handshake_init (replicate 32 3) ++ (9 ∷ [])) in
    let (r, client') =
      perform_handshake tcp (replicate 32 1) Fixtures.client_address (connected s) in
    (r ≡ ok tt)
    × (client'.provider_commitment ≡ replicate 32 3)
    × ((s' : Pipe) × (client'.stream ≡ some s') × (s'.unread ≡ 9 ∷ []) × (s'.written ≡ [] ++ ack))
client_handshake_example =
    let s = receiving (build_frame handshake_init (replicate 32 3) ++ (9 ∷ [])) in
    client_handshake tcp tcp_laws (replicate 32 3) (replicate 32 1) Fixtures.client_address (9 ∷ [])
      (connected s) s refl refl refl refl

ticket_delivered_example :
    let s =
      receiving (encode_ticket_frame Fixtures.alloy.abi_encode Fixtures.signed hi ++ (0 ∷ [])) in
    (body : Bytes) × Took tcp_laws s (0 ∷ []) (read_frame tcp s) (some body)
    × (decode_ticket_frame Fixtures.alloy.abi_decode body
        ≡ ok (record {
          ticket = ticket_sol Fixtures.signed;
          signature = 5 ∷ [];
          prompt_payload = hi;
        }))
unfolding ticket_sol
ticket_delivered_example =
    ticket_delivered tcp tcp_laws Fixtures.alloy.abi_encode Fixtures.alloy.abi_decode
      Fixtures.signed hi (0 ∷ [])
      (receiving (encode_ticket_frame Fixtures.alloy.abi_encode Fixtures.signed hi ++ (0 ∷ [])))
      refl refl (omega arith) refl

ticket_refused_example :
    (read_frame tcp (
      receiving (
        encode_ticket_frame Fixtures.alloy.abi_encode Fixtures.signed (replicate 65_300 104)
        ++ []))).0
    ≡ err (frame_too_large 65_597)
ticket_refused_example =
    let prompt = replicate 65_300 104 in
    ticket_refused tcp tcp_laws Fixtures.alloy.abi_encode Fixtures.alloy.abi_decode Fixtures.signed
      prompt []
      (receiving (encode_ticket_frame Fixtures.alloy.abi_encode Fixtures.signed prompt ++ [])) refl
      (omega arith) (omega arith) refl

abbrev two_sent : List Sent
two_sent = (Fixtures.signed, hi) ∷ (Fixtures.signed, []) ∷ []

abbrev conversation : Pipe
conversation = receiving (
    ack_frame (replicate 32 1) Fixtures.client_address
    ++ (frames Fixtures.alloy.abi_encode two_sent ++ (9 ∷ [])))

handle_client-after_tickets_example :
    let init = build_frame handshake_init (replicate 32 3) in
    let before = session (replicate 32 1) Fixtures.client_address Fixtures.seed (replicate 32 3) in
    (s' : Pipe) × (handle_client tcp debug true Fixtures.alloy.abi_decode 3 Fixtures.seed
        (replicate 32 3)
        conversation
      ≡ in_session
          (serve tcp debug true Fixtures.alloy.abi_decode 1 (after_tickets two_sent before) s'))
    × (s'.unread ≡ 9 ∷ [])
    × (s'.written ≡ [] ++ init)
unfolding ticket_sol
handle_client-after_tickets_example =
    handle_client-after_tickets tcp tcp_laws debug true Fixtures.alloy.abi_encode
      Fixtures.alloy.abi_decode two_sent 1 Fixtures.seed (replicate 32 3) (replicate 32 1)
      Fixtures.client_address (9 ∷ []) conversation refl refl
      ((refl, refl, omega arith, omega arith), ((refl, refl, omega arith, omega arith), tt)) refl
      refl refl refl

send_ticket_and_prompt-encode_response_frame_example :
    let s = receiving (encode_response_frame hi true ++ (7 ∷ [])) in
    let (r, client') =
      send_ticket_and_prompt tcp Fixtures.alloy.abi_encode Fixtures.signed hi (connected s) in
    (r ≡ ok (hi, true))
    × ((s' : Pipe) × (client'.stream ≡ some s')
        × (s'.unread ≡ 7 ∷ [])
        × (s'.written ≡ [] ++ encode_ticket_frame Fixtures.alloy.abi_encode Fixtures.signed hi))
unfolding is_utf8 utf8_from
send_ticket_and_prompt-encode_response_frame_example =
    let s = receiving (encode_response_frame hi true ++ (7 ∷ [])) in
    send_ticket_and_prompt-encode_response_frame tcp tcp_laws Fixtures.alloy.abi_encode
      Fixtures.signed hi hi (7 ∷ []) true (connected s) s refl refl refl refl (omega arith)

decode_ticket_frame-Returns_example :
    Returns (decode_ticket_frame Fixtures.alloy.abi_decode (frame_body ticket_request (5 ∷ [])))
decode_ticket_frame-Returns_example =
    decode_ticket_frame-Returns Fixtures.alloy.abi_decode (frame_body ticket_request (5 ∷ []))
