-- ===== src/Protocol/Responses.antt =====
-- A response from the server's encoder to the client's decoders.
use spmp.Prelude.{
  ℕ, suc, ◌+◌, ◌-◌, ◌^◌, ◌<◌, ◌≡◌, ◌∙◌, ap, refl, arith, true, false, if◌then◌else◌, ◌==◌, Bool,
  Bytes, length, take, ◌++◌, ◌∷◌, length-append, le→not_ltb, le→leb, take-append_of_eq,
}
use spmp.Prelude.Words.{as_u32, le_value}
use spmp.Results.{ok}
use spmp.Types.{compute_resp}
use spmp.Net.{Tcp, lift, ◌>>=◌, ◌>>◌}
use spmp.Net.Laws.{TcpLaws}
use spmp.FrameReader.RoundTrip.{frame_header, Took, read_exact-next, build_frame-eq}
use spmp.Server.{encode_response_frame}
use spmp.Client.{response_of, decode_response_frame}
use spmp.ClientLink.{receive_response}
use spmp.Utf8.{is_utf8, from_utf8_of}

as_u32-fits : (n : ℕ) → n < 2 ^ 32 → as_u32 n ≡ n
as_u32-fits n h = omega arith

suc-not_zero : (n : ℕ) → (suc n == 0) ≡ false
suc-not_zero n = ground arith

-- The payload of a response.
abbrev response_payload : Bytes → Bool → Bytes
response_payload chunk is_finished = (if is_finished then 1 else 0) ∷ chunk

response_of-response_payload :
    (chunk : Bytes) (is_finished : Bool)
    → is_utf8 chunk ≡ true
    → response_of (response_payload chunk is_finished) ≡ ok (chunk, is_finished)
unfolding response_of
response_of-response_payload chunk true h =
    rw (le→leb 1 (suc (length chunk)) (omega arith), from_utf8_of chunk h)
response_of-response_payload chunk false h =
    rw (le→leb 1 (suc (length chunk)) (omega arith), from_utf8_of chunk h)

encode_response_frame-header :
    (chunk : Bytes) (is_finished : Bool)
    → length chunk + 1 < 2 ^ 32
    → encode_response_frame chunk is_finished
      ≡ (let p = response_payload chunk is_finished in frame_header compute_resp (length p) ++ p)
unfolding encode_response_frame
encode_response_frame-header chunk is_finished fits =
    let p = response_payload chunk is_finished in
    build_frame-eq compute_resp p
    ∙ ap (λ n. frame_header compute_resp n ++ p) (as_u32-fits (length p) (omega arith))

module _ (chunk rest : Bytes) (is_finished : Bool) where
  -- A chunk of text as the server sends it, below 4 GB with its flag: the client's decoder returns
  -- the chunk and the flag, whatever follows in the buffer.
  pub decode_response_frame-encode_response_frame :
      is_utf8 chunk ≡ true
      → length chunk + 1 < 2 ^ 32
      → decode_response_frame (encode_response_frame chunk is_finished ++ rest)
        ≡ ok (chunk, is_finished)
  unfolding decode_response_frame
  decode_response_frame-encode_response_frame h fits =
      let p = response_payload chunk is_finished in
      let n = length p in
      let buf = frame_header compute_resp n ++ (p ++ rest) in
      let size : length buf ≡ 9 + n + length rest = omega (arith, length-append p rest) in
      let payload : 9 + n - 9 ≡ n = omega arith in
      let whole = le→leb (9 + n) (length buf) (omega arith) in
      rw (
        encode_response_frame-header chunk is_finished fits,
        le→not_ltb (length buf) 10 (omega arith),
        le→leb 4 (length buf) (omega arith),
        le→leb 9 (length buf) (omega arith),
        le_value n,
        le→not_ltb (length buf) (9 + n) (omega arith),
        le→leb 9 (9 + n) (omega arith),
        whole,
        payload,
        take-append_of_eq n p rest refl,
        response_of-response_payload chunk is_finished h,
        suc-not_zero (length (take (length chunk) (chunk ++ rest))),
      )

  -- The same on a stream where the server's frame comes in, but for what follows it, which is left.
  pub receive_response-encode_response_frame :
      {S : Type 0} (tcp : Tcp S) (laws : TcpLaws tcp) (s : S)
      → is_utf8 chunk ≡ true
      → length chunk + 1 < 2 ^ 32
      → laws.incoming s ≡ encode_response_frame chunk is_finished ++ rest
      → Took laws s rest (receive_response tcp s) (chunk, is_finished)
  unfolding receive_response
  receive_response-encode_response_frame tcp laws s h fits e =
      let p = response_payload chunk is_finished in
      let n = length p in
      let sent = e ∙ ap (λ b. b ++ rest) (encode_response_frame-header chunk is_finished fits) in
      let (r, i, o) =
        read_exact-next tcp laws 9 (frame_header compute_resp n) (p ++ rest) s refl sent in
      let (r', i', o') = read_exact-next tcp laws n p rest (tcp.read_exact 9 s).1 refl i in
      let call : receive_response tcp s
          ≡ (ok (chunk, is_finished), (tcp.read_exact n (tcp.read_exact 9 s).1).1) =
        rw (
          r,
          le_value n,
          r',
          suc-not_zero (length chunk),
          receive_response,
          ◌>>=◌,
          ◌>>◌,
          lift,
          response_of-response_payload chunk is_finished h,
          le_value n,
        ) in
      rw call (refl, i', o' ∙ o)
