-- ===== src/Protocol/Tickets.antt =====
-- A ticket and a prompt from the client's encoder to the server's decoder.
use spmp.Prelude.{
  ◌+◌, ◌^◌, ◌≤◌, ◌<◌, ◌≡◌, ◌∙◌, sym, ap, arith, Bytes, length, ◌++◌, [], some, Option,
  length-append,
}
use spmp.Prelude.Words.{as_u32, to_le_bytes}
use spmp.Results.{ok, err, frame_too_large}
use spmp.Types.{Ticket, ticket_request}
use spmp.ClientTypes.{SignedTicket}
use spmp.Net.{Tcp}
use spmp.Net.Laws.{TcpLaws}
use spmp.Frames.{build_frame, max_frame_size}
use spmp.Frames.RoundTrip.{frame_body}
use spmp.FrameReader.{read_frame}
use spmp.FrameReader.RoundTrip.{
  read_frame-build_frame, read_frame_too_large, frame_header, build_frame-eq, Took,
}
use spmp.Server.{decode_ticket_frame, ticket_abi_len}
use spmp.Server.Decode.{ticket_payload, decode_ticket_frame-ticket_payload}
use spmp.Client.{ticket_sol, encode_ticket_frame}
use mathlib.Core.List.{append-nil}

module _ (abi_encode : Ticket → Bytes) (ticket : SignedTicket) (prompt : Bytes) where
  -- The payload of the client's frame, where the lengths fit 32 bits.
  abbrev sent_payload : Bytes
  sent_payload = ticket_payload (abi_encode (ticket_sol ticket)) ticket.signature prompt

  length-sent_payload :
      length (abi_encode (ticket_sol ticket)) ≡ ticket_abi_len
      → length sent_payload ≡ length ticket.signature + length prompt + 296
  length-sent_payload e =
      let p = to_le_bytes (length prompt) ++ prompt in
      omega (
        arith,
        length-append (abi_encode (ticket_sol ticket))
            (to_le_bytes (length ticket.signature) ++ (ticket.signature ++ p)),
        length-append ticket.signature p,
      )

  encode_ticket_frame-build_frame :
      length ticket.signature < 2 ^ 32
      → length prompt < 2 ^ 32
      → encode_ticket_frame abi_encode ticket prompt ≡ build_frame ticket_request sent_payload
  unfolding encode_ticket_frame build_frame
  encode_ticket_frame-build_frame hs hp =
      let s32 : as_u32 (length ticket.signature) ≡ length ticket.signature = omega arith in
      let p32 : as_u32 (length prompt) ≡ length prompt = omega arith in rw (s32, p32)

module _ {S : Type 0} (tcp : Tcp S) (laws : TcpLaws tcp) (abi_encode : Ticket → Bytes)
    (abi_decode : Bytes → Option Ticket) (ticket : SignedTicket) (prompt rest : Bytes) (s : S) where
  open laws use {incoming}

  -- The client's frame for a ticket and a prompt comes in, and its payload is at most 64 KB:
  -- `read_frame` takes it from the stream and leaves what follows, and the server's decoder returns
  -- the ticket, the signature and the prompt, if the ABI decoder undoes the encoder on that ticket,
  -- which takes 288 bytes.
  pub ticket_delivered :
      length (abi_encode (ticket_sol ticket)) ≡ ticket_abi_len
      → abi_decode (abi_encode (ticket_sol ticket)) ≡ some (ticket_sol ticket)
      → length ticket.signature + length prompt + 296 ≤ max_frame_size
      → incoming s ≡ encode_ticket_frame abi_encode ticket prompt ++ rest
      → (body : Bytes) × Took laws s rest (read_frame tcp s) (some body)
        × (decode_ticket_frame abi_decode body
            ≡ ok (record {
              ticket = ticket_sol ticket;
              signature = ticket.signature;
              prompt_payload = prompt;
            }))
  ticket_delivered le ed small e =
      let sent = sent_payload abi_encode ticket prompt in
      let size = length-sent_payload abi_encode ticket prompt le in
      let framed =
        encode_ticket_frame-build_frame abi_encode ticket prompt (omega arith) (omega arith) in
      let took =
        read_frame-build_frame tcp laws ticket_request sent rest s (omega arith)
          (e ∙ ap (λ b. b ++ rest) framed) in
      let decoded =
        decode_ticket_frame-ticket_payload abi_decode (ticket_sol ticket)
          (abi_encode (ticket_sol ticket)) ticket.signature prompt [] le ed in
      (
        frame_body ticket_request sent,
        took,
        ap (λ p. decode_ticket_frame abi_decode (frame_body ticket_request p))
              (sym (append-nil sent))
            ∙ decoded,
      )

  -- The client's frame for a ticket and a prompt comes in, its ticket encoded in 288 bytes, and
  -- its payload is over 64 KB but its length fits 32 bits: `read_frame` fails with that length,
  -- though the client's encoder made the frame.
  pub ticket_refused :
      length (abi_encode (ticket_sol ticket)) ≡ ticket_abi_len
      → max_frame_size < length ticket.signature + length prompt + 296
      → length ticket.signature + length prompt + 296 < 2 ^ 32
      → incoming s ≡ encode_ticket_frame abi_encode ticket prompt ++ rest
      → (read_frame tcp s).0 ≡ err (frame_too_large (length ticket.signature + length prompt + 296))
  ticket_refused le large fits e =
      let sent = sent_payload abi_encode ticket prompt in
      let size = length-sent_payload abi_encode ticket prompt le in
      let framed =
        encode_ticket_frame-build_frame abi_encode ticket prompt (omega arith) (omega arith) in
      let n32 : as_u32 (length sent) ≡ length ticket.signature + length prompt + 296 =
        omega arith in
      let header = e ∙ ap (λ b. b ++ rest) (framed ∙ build_frame-eq ticket_request sent) in
      (read_frame_too_large tcp laws ticket_request (length ticket.signature + length prompt + 296)
        (sent ++ rest) s large
        (header ∙ ap (λ n. frame_header ticket_request n ++ (sent ++ rest)) n32)).0
