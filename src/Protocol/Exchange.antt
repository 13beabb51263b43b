-- ===== src/Protocol/Exchange.antt =====
-- One exchange of the client: a ticket goes out, a chunk of text comes back.
use spmp.Prelude.{◌+◌, ◌^◌, ◌<◌, ◌≡◌, ◌∙◌, refl, true, Bool, some, Bytes, length, ◌++◌}
use spmp.Results.{ok}
use spmp.Types.{Ticket}
use spmp.ClientTypes.{SignedTicket}
use spmp.Client.{encode_ticket_frame}
use spmp.ClientLink.{TcpClient, receive_response, exchange, send_ticket_and_prompt}
use spmp.Net.{Tcp, ◌>>=◌, ◌>>◌}
use spmp.Net.Laws.{TcpLaws}
use spmp.Server.{encode_response_frame}
use spmp.Utf8.{is_utf8}
use spmp.Protocol.Responses.{receive_response-encode_response_frame}

module _ {S : Type 0} (tcp : Tcp S) (laws : TcpLaws tcp) (abi_encode : Ticket → Bytes) where
  open laws use {incoming, outgoing, write_done}

  -- The client, on a stream where the write of its frame succeeds and a response of the server's
  -- encoder comes in, of text below 4 GB with its flag: the call returns the text and the flag, has
  -- sent the frame with the ticket and the prompt, and leaves what follows the response.
  pub send_ticket_and_prompt-encode_response_frame :
      (ticket : SignedTicket) (prompt chunk rest : Bytes) (is_finished : Bool)
      (client : TcpClient S) (s : S)
      → client.stream ≡ some s
      → (tcp.write_all (encode_ticket_frame abi_encode ticket prompt) s).0 ≡ ok tt
      → incoming s ≡ encode_response_frame chunk is_finished ++ rest
      → is_utf8 chunk ≡ true
      → length chunk + 1 < 2 ^ 32
      → let (r, client') = send_ticket_and_prompt tcp abi_encode ticket prompt client in
        (r ≡ ok (chunk, is_finished))
        × ((s' : S) × (client'.stream ≡ some s')
            × (incoming s' ≡ rest)
            × (outgoing s' ≡ outgoing s ++ encode_ticket_frame abi_encode ticket prompt))
  unfolding send_ticket_and_prompt exchange
  send_ticket_and_prompt-encode_response_frame ticket prompt chunk rest is_finished client s
        open_stream w e utf8 fits =
      let frame = encode_ticket_frame abi_encode ticket prompt in
      let (i, o) = write_done frame s w in
      let s₁ = (tcp.write_all frame s).1 in
      let (r, i', o') =
        receive_response-encode_response_frame chunk rest is_finished tcp laws s₁ utf8 fits
          (i ∙ e) in
      rw (open_stream, w, ◌>>=◌, ◌>>◌) (r, ((receive_response tcp s₁).1, refl, i', o' ∙ o))
