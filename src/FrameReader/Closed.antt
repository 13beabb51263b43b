-- ===== src/FrameReader/Closed.antt =====
-- `read_frame` on a stream whose peer has closed the connection: it does not wait.
use spmp.Prelude.{
  ℕ, zero, suc, ◌+◌, ◌*◌, ◌^◌, ◌≡◌, inl, inr, arith, ◌∷◌, [], Bytes, length, take, length-take,
  lt→ltb, ltb, true, Bool-cases, ◌==◌, some,
}
use spmp.Results.{Result, ok, err, panic, waits}
use spmp.Net.{Tcp, Action, pure, ◌>>=◌}
use spmp.Net.Laws.{TcpLaws}
use spmp.Types.{spmp_magic}
use spmp.Frames.{max_frame_size}
use spmp.FrameReader.{read_frame, read_after_header, read_payload}
use native.Mathlib.Decide.{dec_le}

module _ {S : Type 0} (tcp : Tcp S) (laws : TcpLaws tcp) where
  open laws use {incoming, closed, read_enough, read_closed}

  -- A connection that the peer has closed stays closed: what every TCP stream does.
  abbrev pub StaysClosed : Type 0
  StaysClosed = (n : ℕ) (s : S) → closed s ≡ true → closed (tcp.read_exact n s).1 ≡ true

  module _ (stays : StaysClosed) where
    -- A call that ended, and left the connection closed.
    abbrev pub Settles : {A : Type 0} → Result A × S → Type 0
    Settles (ok a, s') = closed s' ≡ true
    Settles (err e, s') = closed s' ≡ true
    Settles (panic, s') = closed s' ≡ true
    Settles (waits, s') = ⊥

    read_exact-Settles : (n : ℕ) (s : S) → closed s ≡ true → Settles (tcp.read_exact n s)
    read_exact-Settles n s c = elim (dec_le n (length (incoming s))) [
      | yes h ↦ let (r, i, o) = read_enough n s h in rw r (stays n s c)
      | no h ↦ rw (read_closed n s c (omega arith)) (stays n s c)
    ]

    Settles-bind :
        {A B : Type 0} (s : S) (m : Action S A) (f : A → Action S B)
        → Settles (m s)
        → ((a : A) (s' : S) → closed s' ≡ true → Settles (f a s'))
        → Settles ((m >>= f) s)
    Settles-bind {A} {B} s m f t k = go (m s) t
      where
        go : (call : Result A × S) → Settles call → Settles (((λ (_ : S). call) >>= f) s)
        go (ok a, s') c = k a s' c
        go (err e, s') c = c
        go (panic, s') c = c
        go (waits, s') c = c

    read_payload-Settles : (n : ℕ) (s : S) → closed s ≡ true → Settles (read_payload tcp n s)
    read_payload-Settles zero s c = c
    read_payload-Settles (suc n) s c =
        rw (lt→ltb 0 (suc n) (omega arith)) (read_exact-Settles (suc n) s c)

    read_after_header-Settles :
        (header : Bytes)
        → length header ≡ 9
        → (s : S) → closed s ≡ true
        → Settles (read_after_header tcp header s)
    unfolding read_after_header
    read_after_header-Settles (a ∷ b ∷ c ∷ d ∷ t ∷ e ∷ f ∷ g ∷ h ∷ []) len s shut =
        let n = e + f * 2 ^ 8 + g * 2 ^ 16 + h * 2 ^ 24 in
        elim (Bool-cases (a * 2 ^ 24 + b * 2 ^ 16 + c * 2 ^ 8 + d == spmp_magic)) [
          | inr other ↦ rw other shut
          | inl magic ↦ elim (Bool-cases (ltb max_frame_size n)) [
            | inl large ↦ rw (magic, large) shut
            | inr small ↦
                rw (magic, small)
                  (Settles-bind s (read_payload tcp n) (λ p. pure (some (a ∷ b ∷ c ∷ d ∷ t ∷ p)))
                    (read_payload-Settles n s shut) (λ p s' c'. c'))
          ]
        ]
    read_after_header-Settles _ len s shut = absurd (omega arith)

    pub read_frame-Settles : (s : S) → closed s ≡ true → Settles (read_frame tcp s)
    unfolding read_frame
    read_frame-Settles s shut = elim (dec_le 9 (length (incoming s))) [
      | yes h ↦
          let (r, i, o) = read_enough 9 s h in
          let header = take 9 (incoming s) in
          let s' = (tcp.read_exact 9 s).1 in
          rw r (
            read_after_header-Settles header (omega (arith, length-take 9 (incoming s))) s'
              (stays 9 s shut))
      | no h ↦ rw (read_closed 9 s shut (omega arith)) (stays 9 s shut)
    ]
