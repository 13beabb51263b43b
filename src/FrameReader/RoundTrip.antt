-- ===== src/FrameReader/RoundTrip.antt =====
-- What was built as a frame and sent is read back as its body.
use spmp.Prelude.{ℕ, ◌≤◌, ◌≡◌, ◌∙◌, ap, refl, arith, ◌∷◌, ◌++◌, [], Bytes, length, take, drop, some}
use spmp.Prelude.{take-append_of_eq, drop-append_of_eq, lt→ltb, ◌<◌, length-append, le→not_ltb}
use spmp.Prelude.Words.{to_le_bytes, as_u32, le_value}
use spmp.Results.{Result, ok, err, frame_too_large}
use spmp.Types.{MsgType, as_u8}
use spmp.Net.{Tcp, ◌>>=◌, pure}
use spmp.Net.Laws.{TcpLaws}
use spmp.Frames.{build_frame, max_frame_size}
use spmp.Frames.RoundTrip.{frame_body}
use spmp.FrameReader.{read_frame, read_after_header, read_payload}

-- The header of a frame that announces a payload of `n` bytes.
abbrev pub frame_header : MsgType → ℕ → Bytes
frame_header msg_type n = 0x53 ∷ 0x50 ∷ 0x4D ∷ 0x50 ∷ as_u8 msg_type ∷ to_le_bytes n

pub build_frame-eq :
    (m : MsgType) (p : Bytes) → build_frame m p ≡ frame_header m (as_u32 (length p)) ++ p
unfolding build_frame
build_frame-eq m p = refl

-- The stream after a call that took `rest` away from it and wrote nothing.
abbrev pub Took : {S A : Type 0} {tcp : Tcp S} → TcpLaws tcp → S → Bytes → Result A × S → A → Type 0
Took laws s rest call a =
    (call.0 ≡ ok a) × (laws.incoming call.1 ≡ rest) × (laws.outgoing call.1 ≡ laws.outgoing s)

module _ {S : Type 0} (tcp : Tcp S) where
  -- A good header leaves the payload to be read.
  pub read_after_header-small :
      (m : MsgType) (n : ℕ) (s : S)
      → n ≤ max_frame_size
      → read_after_header tcp (frame_header m n) s
        ≡ (read_payload tcp n >>= λ p. pure (some (frame_body m p))) s
  unfolding read_after_header
  read_after_header-small m n s h = rw (le_value n, le→not_ltb max_frame_size n h)

  pub read_after_header-large :
      (m : MsgType) (n : ℕ) (s : S)
      → max_frame_size < n
      → read_after_header tcp (frame_header m n) s ≡ (err (frame_too_large n), s)
  unfolding read_after_header
  read_after_header-large m n s h = rw (le_value n, lt→ltb max_frame_size n h)

module _ {S : Type 0} (tcp : Tcp S) (laws : TcpLaws tcp) where
  open laws use {incoming, outgoing, read_enough}

  -- `read_exact` of as many bytes as `b` has, where `b` comes next.
  pub read_exact-next :
      (n : ℕ) (b rest : Bytes) (s : S)
      → length b ≡ n
      → incoming s ≡ b ++ rest
      → Took laws s rest (tcp.read_exact n s) b
  read_exact-next n b rest s en es =
      let (r, i, o) = read_enough n s (rw es (omega (arith, length-append b rest))) in
      (
        r ∙ ap (λ x. ok (take n x)) es ∙ ap ok (take-append_of_eq n b rest en),
        i ∙ ap (drop n) es ∙ drop-append_of_eq n b rest en,
        o,
      )

  payload_next :
      (m : MsgType) (p rest : Bytes) (s : S)
      → incoming s ≡ p ++ rest
      → Took laws s rest
          ((read_payload tcp (length p) >>= λ q. pure (some (frame_body m q))) s)
          (some (frame_body m p))
  payload_next m [] rest s e = (refl, e, refl)
  payload_next m (x ∷ p) rest s e =
      let (r, i, o) = read_exact-next (length (x ∷ p)) (x ∷ p) rest s refl e in ground arith

  -- The first nine bytes are read as the header.
  pub read_frame-header :
      (m : MsgType) (n : ℕ) (more : Bytes) (s : S)
      → incoming s ≡ frame_header m n ++ more
      → let s' = (tcp.read_exact 9 s).1 in
        (read_frame tcp s ≡ read_after_header tcp (frame_header m n) s')
        × (incoming s' ≡ more)
        × (outgoing s' ≡ outgoing s)
  unfolding read_frame
  read_frame-header m n more s e =
      let (r, i, o) = read_exact-next 9 (frame_header m n) more s refl e in (rw r, i, o)

  -- A frame that was built from at most 64 KB, and whatever follows it: `read_frame` returns its
  -- body, leaves what follows, and writes nothing.
  pub read_frame-build_frame :
      (m : MsgType) (p rest : Bytes) (s : S)
      → length p ≤ max_frame_size
      → incoming s ≡ build_frame m p ++ rest
      → Took laws s rest (read_frame tcp s) (some (frame_body m p))
  read_frame-build_frame m p rest s small e =
      let fits : as_u32 (length p) ≡ length p = omega arith in
      let sent : incoming s ≡ frame_header m (length p) ++ (p ++ rest) =
        e ∙ ap (λ b. b ++ rest) (build_frame-eq m p) ∙ rw fits in
      let (r, i, o) = read_frame-header m (length p) (p ++ rest) s sent in
      let s' = (tcp.read_exact 9 s).1 in
      let (r', i', o') = payload_next m p rest s' i in
      rw (r, read_after_header-small tcp m (length p) s' small) (r', i', o' ∙ o)

  -- A header that announces more than 64 KB: `read_frame` fails with that length, having read the
  -- nine bytes of the header and nothing else, and writes nothing.
  pub read_frame_too_large :
      (m : MsgType) (n : ℕ) (more : Bytes) (s : S)
      → max_frame_size < n
      → incoming s ≡ frame_header m n ++ more
      → let (r, s') = read_frame tcp s in
        (r ≡ err (frame_too_large n)) × (incoming s' ≡ more) × (outgoing s' ≡ outgoing s)
  read_frame_too_large m n more s large e =
      let (r, i, o) = read_frame-header m n more s e in
      rw (r, read_after_header-large tcp m n (tcp.read_exact 9 s).1 large) (refl, i, o)
