-- ===== src/Client/Responses.antt =====
-- No bytes make the decoding of a response panic.
use spmp.Prelude.{
  ℕ, ◌+◌, ◌^◌, ◌*◌, ◌-◌, inl, inr, arith, Option-cases, Bytes, length, take, ◌∷◌, [],
}
use spmp.Prelude.{◌==◌}
use spmp.Results.{Returns, bail_if, empty_payload, ◌>>◌}
use spmp.Client.{response_of, decode_response_frame}
use spmp.Utf8.{from_utf8}

-- A payload with a flag, as the decoders hold one, is read as a text or fails.
response_of-Returns : (flag : ℕ) (text : Bytes) → Returns (response_of (flag ∷ text))
unfolding response_of
response_of-Returns flag text = elim (Option-cases (from_utf8 text)) [
  | inl bad ↦ ground arith
  | inr (t, good) ↦ ground arith
]

checked_response-Returns :
    (payload : Bytes) → Returns (bail_if (length payload == 0) empty_payload >> response_of payload)
checked_response-Returns [] = tt
checked_response-Returns (flag ∷ text) = ground (arith, response_of-Returns flag text)

-- Whatever bytes the buffer holds, `decode_response_frame` returns a text and a flag or an error:
-- none of its slices is out of range.
pub decode_response_frame-Returns : (buf : Bytes) → Returns (decode_response_frame buf)
unfolding decode_response_frame
decode_response_frame-Returns (a ∷ b ∷ c ∷ d ∷ m ∷ w ∷ x ∷ y ∷ z ∷ flag ∷ text) =
    let n = w + x * 2 ^ 8 + y * 2 ^ 16 + z * 2 ^ 24 in
    ground (arith, checked_response-Returns (take (9 + n - 9) (flag ∷ text)))
decode_response_frame-Returns _ = tt
