-- ===== src/Server/Totality.antt =====
-- No bytes that a client sends make the decoding of its frames panic.
use spmp.Prelude.{
  ◌+◌, ◌^◌, ◌*◌, ◌≤◌, ◌≡◌, ◌⊎◌, inl, inr, refl, arith, Option, Option-cases, Bytes, length, drop,
  take, ◌∷◌,
}
use spmp.Prelude.{le→not_ltb, Bool-cases, ltb, length-drop, length-take}
use spmp.Results.{Result, ok, err, Error, panic, waits, Returns, split_at_ok}
use spmp.Types.{Ticket, decode_ticket, MsgType, ticket_request, handshake_ack}
use spmp.Frames.{split_frame}
use spmp.Frames.RoundTrip.{split_frame-Returns}
use spmp.Server.{decode_prompt, decode_signature, decode_ticket_frame, session_of_ack}
use spmp.Server.{ticket_abi_len}

-- A call that returns has a value or an error.
pub Returns-cases :
    {A : Type 0} (r : Result A) → Returns r → ((a : A) × (r ≡ ok a)) ⊎ ((e : Error) × (r ≡ err e))
Returns-cases (ok a) h = inl (a, refl)
Returns-cases (err e) h = inr (e, refl)
Returns-cases panic h = absurd h
Returns-cases waits h = absurd h

decode_prompt-Returns :
    (t : Ticket) (sig after : Bytes) → 4 ≤ length after → Returns (decode_prompt t sig after)
unfolding decode_prompt
decode_prompt-Returns t sig (a ∷ b ∷ c ∷ d ∷ rest) h = ground arith
decode_prompt-Returns t sig _ h = absurd (omega arith)

decode_signature-Returns :
    (t : Ticket) (after : Bytes) → 4 ≤ length after → Returns (decode_signature t after)
unfolding decode_signature
decode_signature-Returns t (a ∷ b ∷ c ∷ d ∷ rest) h =
    let n = a + b * 2 ^ 8 + c * 2 ^ 16 + d * 2 ^ 24 in
    ground (arith, decode_prompt-Returns t (take n rest) (drop n rest), length-drop n rest)
decode_signature-Returns t _ h = absurd (omega arith)

module _ (abi_decode : Bytes → Option Ticket) (buf : Bytes) where
  -- The part of the decoding that follows the type and length tests.
  decode_long-Returns :
      (payload : Bytes)
      → split_frame buf ≡ ok (ticket_request, payload)
      → ticket_abi_len + 4 ≤ length payload
      → Returns (decode_ticket_frame abi_decode buf)
  unfolding decode_ticket_frame decode_ticket
  decode_long-Returns payload split h =
      let long = le→not_ltb (length payload) (ticket_abi_len + 4) h in
      let parts = split_at_ok ticket_abi_len payload (omega arith) in
      let after = drop ticket_abi_len payload in
      elim (Option-cases (abi_decode (take ticket_abi_len payload))) [
        | inl bad ↦ rw (split, long, parts, bad) tt
        | inr (t, good) ↦
            rw (split, long, parts, good)
              (decode_signature-Returns t after (omega (arith, length-drop ticket_abi_len payload)))
      ]

  decode_request-Returns :
      (m : MsgType) (payload : Bytes)
      → split_frame buf ≡ ok (m, payload)
      → Returns (decode_ticket_frame abi_decode buf)
  unfolding decode_ticket_frame
  decode_request-Returns ticket_request payload split =
      elim (Bool-cases (ltb (length payload) (ticket_abi_len + 4))) [
        | inl short ↦ rw (split, short) tt
        | inr long ↦ decode_long-Returns payload split (ground arith)
      ]
  decode_request-Returns _ payload split = rw split tt

  -- Whatever bytes stand in the frame, and whatever the ABI decoder makes of the ticket's,
  -- `decode_ticket_frame` returns a frame or an error: none of its splits and slices is out of
  -- range.
  pub decode_ticket_frame-Returns : Returns (decode_ticket_frame abi_decode buf)
  unfolding decode_ticket_frame
  decode_ticket_frame-Returns = elim (Returns-cases (split_frame buf) (split_frame-Returns buf)) [
    | inr (e, failed) ↦ rw failed tt
    | inl ((m, payload), split) ↦ decode_request-Returns m payload split
  ]

-- The same of the answer to the handshake.
session_of_ack_ack-Returns :
    (seed commitment buf payload : Bytes)
    → split_frame buf ≡ ok (handshake_ack, payload)
    → Returns (session_of_ack seed commitment buf)
unfolding session_of_ack
session_of_ack_ack-Returns seed commitment buf payload split =
    rw split (ground (arith, length-take 32 payload, length-drop 32 payload))

-- Whatever the client answers to `HandshakeInit`, the server makes a session of it or fails: the
-- slices and the two conversions of the answer's payload do not panic.
pub session_of_ack-Returns :
    (seed commitment buf : Bytes) → Returns (session_of_ack seed commitment buf)
unfolding session_of_ack
session_of_ack-Returns seed commitment buf =
    elim (Returns-cases (split_frame buf) (split_frame-Returns buf)) [
      | inr (e, failed) ↦ rw failed tt
      | inl ((handshake_ack, payload), split) ↦
          session_of_ack_ack-Returns seed commitment buf payload split
      | inl ((_, payload), split) ↦ rw split tt
    ]
