-- ===== src/Server/Decode.antt =====
-- A ticket frame is decoded into what it was made of.
use spmp.Prelude.{ℕ, ◌+◌, ◌-◌, ◌≡◌, refl, arith, ◌++◌, Bytes, length, some, Option, List}
use spmp.Prelude.{take-append_of_eq, drop-append_of_eq, length-append, le→leb, le→not_ltb}
use spmp.Prelude.Words.{to_le_bytes, le_value}
use spmp.Results.{ok, split_at, slice}
use spmp.Types.{Ticket, ticket_request, decode_ticket}
use mathlib.Core.List.{append_assoc}
use spmp.Frames.RoundTrip.{frame_body, split_frame-frame_body}
use spmp.Server.{decode_signature, decode_prompt, decode_ticket_frame, ticket_abi_len}

-- The payload of a ticket frame: the encoded ticket, the signature and the prompt, each of the last
-- two behind its length.
abbrev pub ticket_payload : Bytes → Bytes → Bytes → Bytes
ticket_payload ticket_bytes signature prompt =
    ticket_bytes
    ++ (to_le_bytes (length signature) ++ (signature ++ (to_le_bytes (length prompt) ++ prompt)))

pub split_at-append {ℓ} :
    {A : Type ℓ} (n : ℕ) (xs ys : List A) → length xs ≡ n → split_at n (xs ++ ys) ≡ ok (xs, ys)
split_at-append n xs ys e = rw (
  le→leb n (length (xs ++ ys)) (omega (arith, length-append xs ys)),
  take-append_of_eq n xs ys e,
  drop-append_of_eq n xs ys e,
)

pub slice-append {ℓ} :
    {A : Type ℓ} (n : ℕ) (xs ys : List A) → length xs ≡ n → slice 0 n (xs ++ ys) ≡ ok xs
slice-append n xs ys e =
    let whole : n - 0 ≡ n = omega arith in
    rw (
      le→leb 0 n (omega arith),
      le→leb n (length (xs ++ ys)) (omega (arith, length-append xs ys)),
      whole,
      take-append_of_eq n xs ys e,
    )

length-ticket_payload :
    (tb sig prompt extra : Bytes)
    → length (ticket_payload tb sig prompt ++ extra)
      ≡ length tb + length sig + length prompt + length extra + 8
length-ticket_payload tb sig prompt extra = omega (
  arith,
  length-append (ticket_payload tb sig prompt) extra,
  length-append tb (to_le_bytes (length sig) ++ (sig ++ (to_le_bytes (length prompt) ++ prompt))),
  length-append sig (to_le_bytes (length prompt) ++ prompt),
)

module _ (abi_decode : Bytes → Option Ticket) (t : Ticket) (tb sig prompt extra : Bytes) where
  -- The server reads a ticket, a signature and a prompt, each of the last two behind its length, as
  -- what they are, if the ABI decoder knows the 288 bytes of the ticket. What follows the prompt is
  -- ignored.
  pub decode_ticket_frame-ticket_payload :
      length tb ≡ ticket_abi_len
      → abi_decode tb ≡ some t
      → decode_ticket_frame abi_decode
          (frame_body ticket_request (ticket_payload tb sig prompt ++ extra))
        ≡ ok (record { ticket = t; signature = sig; prompt_payload = prompt })
  unfolding decode_ticket_frame decode_ticket decode_signature decode_prompt
  decode_ticket_frame-ticket_payload lt et =
      let tail = (to_le_bytes (length prompt) ++ prompt) ++ extra in
      let long =
        le→not_ltb (length (ticket_payload tb sig prompt ++ extra)) (ticket_abi_len + 4)
          (omega (arith, length-ticket_payload tb sig prompt extra)) in
      let sig_fits =
        le→not_ltb (length (sig ++ tail)) (length sig + 4)
          (omega (arith, length-append sig tail)) in
      let prompt_fits =
        le→not_ltb (length (prompt ++ extra)) (length prompt)
          (omega (arith, length-append prompt extra)) in
      rw (
        split_frame-frame_body,
        long,
        append_assoc tb _ extra,
        split_at-append ticket_abi_len tb _ lt,
        et,
        split_at-append 4 (to_le_bytes (length sig)) _ refl,
        le_value (length sig),
        append_assoc sig _ extra,
        sig_fits,
        split_at-append (length sig) sig tail refl,
        split_at-append 4 (to_le_bytes (length prompt)) (prompt ++ extra) refl,
        le_value (length prompt),
        prompt_fits,
        slice-append (length prompt) prompt extra refl,
      )
