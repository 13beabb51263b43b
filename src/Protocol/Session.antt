-- ===== src/Protocol/Session.antt =====
-- A connection from the server's side: the tickets of the client, one after the other.
use spmp.Prelude.{
  Bool, true, false, ℕ, suc, ◌+◌, ◌≤◌, ◌<◌, ◌≡◌, ◌∙◌, ap, refl, arith, All, Option, some, List, [],
  ◌∷◌, ◌++◌, Bytes, length,
}
use spmp.Prelude.Words.{u64_max}
use spmp.Results.{ok, Profile, debug, release, add_u64}
use spmp.Types.{Ticket, SessionConfig, IncomingTicketFrame}
use spmp.ClientTypes.{SignedTicket}
use spmp.Client.{ticket_sol, encode_ticket_frame}
use spmp.Net.{Tcp}
use spmp.Net.Laws.{TcpLaws}
use spmp.Frames.{max_frame_size}
use spmp.FrameReader.{read_frame}
use spmp.Server.{decode_ticket_frame, log_fields, on_frame, ticket_abi_len}
use spmp.Connection.{serve, handle_client, in_session, handle_handshake_inner}
use spmp.ClientLink.{ack_frame}
use spmp.Frames.{build_frame}
use spmp.Types.{B256, Address, handshake_init}
use spmp.Types.Laws.{IsB256, IsAddress}
use spmp.Server.{handshake_timeout}
use spmp.Protocol.Handshake.{session, server_handshake}
use spmp.Protocol.Tickets.{ticket_delivered}
use mathlib.Core.List.{append_assoc}

-- What the client sends in one exchange.
abbrev pub Sent : Type 0
Sent = SignedTicket × Bytes

-- The bytes of a run of exchanges.
abbrev pub frames : (Ticket → Bytes) → List Sent → Bytes
frames abi_encode [] = []
frames abi_encode ((t, prompt) ∷ sent) =
    encode_ticket_frame abi_encode t prompt ++ frames abi_encode sent

-- The session after the tickets: the watermark is the nonce of the last one.
abbrev pub after_tickets : List Sent → SessionConfig → SessionConfig
after_tickets [] session = session
after_tickets ((t, prompt) ∷ sent) session =
    after_tickets sent (record session { last_nonce = t.payload.nonce })

-- The exchange fits a frame, the ABI decoder undoes the encoder on its ticket, and the nonce is not
-- the last u64.
abbrev pub Deliverable : (Ticket → Bytes) → (Bytes → Option Ticket) → Sent → Type 0
Deliverable abi_encode abi_decode (t, prompt) =
    (length (abi_encode (ticket_sol t)) ≡ ticket_abi_len)
    × (abi_decode (abi_encode (ticket_sol t)) ≡ some (ticket_sol t))
    × (length t.signature + length prompt + 296 ≤ max_frame_size)
    × (t.payload.nonce < u64_max)

next_expected : (profile : Profile) (n : ℕ) → n < u64_max → add_u64 profile n 1 ≡ ok (n + 1)
next_expected debug n h = ground arith
next_expected release n h = ap ok (omega arith)

-- A frame that decodes moves the watermark.
on_frame-decoded :
    (profile : Profile) (info : Bool) (abi_decode : Bytes → Option Ticket) (body : Bytes)
    (session : SessionConfig) (incoming : IncomingTicketFrame)
    → decode_ticket_frame abi_decode body ≡ ok incoming
    → session.last_nonce < u64_max
    → on_frame profile info abi_decode body session
      ≡ ok (record session { last_nonce = incoming.ticket.nonce })
unfolding on_frame log_fields
on_frame-decoded profile true abi_decode body session incoming d below =
    rw (d, next_expected profile session.last_nonce below, on_frame)
on_frame-decoded profile false abi_decode body session incoming d below = rw (d, on_frame)

-- A round that goes on.
serve-round :
    {S : Type 0} (tcp : Tcp S) (profile : Profile) (info : Bool)
    (abi_decode : Bytes → Option Ticket) (fuel : ℕ) (body : Bytes)
    (session session' : SessionConfig) (s : S)
    → (read_frame tcp s).0 ≡ ok (some body)
    → on_frame profile info abi_decode body session ≡ ok session'
    → serve tcp profile info abi_decode (suc fuel) session s
      ≡ serve tcp profile info abi_decode fuel session' (read_frame tcp s).1
unfolding serve
serve-round tcp profile info abi_decode fuel body session session' s r step =
    rw (r, step, serve) refl

module _ {S : Type 0} (tcp : Tcp S) (laws : TcpLaws tcp) (profile : Profile) (info : Bool)
    (abi_encode : Ticket → Bytes) (abi_decode : Bytes → Option Ticket) where
  open laws use {incoming, outgoing}

  -- The frames of any tickets that can be delivered come in, signed by whomever: the loop takes each
  -- of them, one round for each, and goes on with what follows them. It has written nothing, and the
  -- watermark is the nonce of the last ticket, in a debug build or a release build, whether the
  -- tickets are logged or not.
  pub serve-after_tickets :
      (sent : List Sent) (fuel : ℕ) (session : SessionConfig) (rest : Bytes) (s : S)
      → All (Deliverable abi_encode abi_decode) sent
      → session.last_nonce < u64_max
      → incoming s ≡ frames abi_encode sent ++ rest
      → (s' : S) × (serve tcp profile info abi_decode (length sent + fuel) session s
          ≡ serve tcp profile info abi_decode fuel (after_tickets sent session) s')
        × (incoming s' ≡ rest)
        × (outgoing s' ≡ outgoing s)
  unfolding ticket_sol
  serve-after_tickets [] fuel session rest s all below e =
      (s, ap (λ n. serve tcp profile info abi_decode n session s) (omega arith), e, refl)
  serve-after_tickets ((t, prompt) ∷ sent) fuel session rest s ((le, ed, small, low), all) below e =
      let (body, (r, i, o), d) =
        ticket_delivered tcp laws abi_encode abi_decode t prompt (frames abi_encode sent ++ rest) s
          le ed small
          (e
            ∙ append_assoc (encode_ticket_frame abi_encode t prompt) (frames abi_encode sent)
                rest) in
      let (s', run, i', o') =
        serve-after_tickets sent fuel (record session { last_nonce = t.payload.nonce }) rest
          (read_frame tcp s).1 all low i in
      let moved = record session { last_nonce = t.payload.nonce } in
      let step = on_frame-decoded profile info abi_decode body session _ d below in
      let round =
        serve-round tcp profile info abi_decode (length sent + fuel) body session moved s r step in
      let more : suc (length sent) + fuel ≡ suc (length sent + fuel) = omega arith in
      (s', ap (λ n. serve tcp profile info abi_decode n session s) more ∙ round ∙ run, i', o' ∙ o)

  -- A whole connection: the client's answer to the handshake comes in, with a channel of 32
  -- bytes and an address of 20, and then its tickets, which fit their frames, which the ABI
  -- decoder reads as what they are, and whose nonces are below the last u64. The server's write
  -- succeeds, and neither step of the handshake times out. The task gets to the loop with the
  -- client's session, its watermark the nonce of the last ticket, with one round for each
  -- ticket; it has read no more than that and written its commitment only, in a debug build or a
  -- release build, whether the tickets are logged or not.
  pub handle_client-after_tickets :
      (sent : List Sent) (fuel : ℕ) (seed commitment channel_id : B256) (addr : Address)
      (rest : Bytes) (s : S)
      → IsB256 channel_id
      → IsAddress addr
      → All (Deliverable abi_encode abi_decode) sent
      → let init = build_frame handshake_init commitment in
        let (r, s₁) = tcp.write_all init s in
        r ≡ ok tt
        → tcp.elapses handshake_timeout s ≡ false
        → tcp.elapses handshake_timeout s₁ ≡ false
        → incoming s ≡ ack_frame channel_id addr ++ (frames abi_encode sent ++ rest)
        → (s' : S) × (handle_client tcp profile info abi_decode
              (length sent + fuel)
              seed
              commitment
              s
            ≡ in_session (
                serve tcp profile info abi_decode fuel
                  (after_tickets sent (session channel_id addr seed commitment))
                  s'))
          × (incoming s' ≡ rest)
          × (outgoing s' ≡ outgoing s ++ init)
  unfolding handle_client
  handle_client-after_tickets sent fuel seed commitment channel_id addr rest s hc ha all w t t₁ e =
      let (r, i, o) =
        server_handshake tcp laws seed commitment channel_id addr (frames abi_encode sent ++ rest) s
          hc ha w t t₁ e in
      let s₂ = (handle_handshake_inner tcp seed commitment s).1 in
      let (s', run, i', o') =
        serve-after_tickets sent fuel (session channel_id addr seed commitment) rest s₂ all
          (omega arith) i in
      (s', rw (r, handle_client) (ap in_session run), i', o' ∙ o)
