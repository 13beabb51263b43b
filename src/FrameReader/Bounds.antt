-- ===== src/FrameReader/Bounds.antt =====
-- What `read_frame` can return on any stream: no panic, no frame beyond the limit.
use spmp.Prelude.{
  ℕ, zero, suc, ◌+◌, ◌*◌, ◌^◌, ◌≤◌, ◌<◌, ◌≡◌, ◌≢◌, inl, inr, refl, arith, ◌∷◌, [], Bytes, length,
  take,
}
use spmp.Prelude.{Option, some, none, length-take, length-drop, lt→ltb, ltb, true, Bool-cases, ◌==◌}
use spmp.Results.{Result, ok, err, panic, waits}
use spmp.Net.{Tcp, Action, pure, ◌>>=◌}
use spmp.Net.Laws.{TcpLaws}
use spmp.Types.{spmp_magic}
use spmp.Frames.{max_frame_size}
use spmp.FrameReader.{read_frame, read_after_header, read_payload}
use native.Mathlib.Decide.{dec_le}

module _ {S : Type 0} (tcp : Tcp S) (laws : TcpLaws tcp) where
  open laws use {incoming, closed, read_enough, read_short, read_closed}

  -- A call that took at least `n` bytes and returned a value with the property `P`, or failed, or
  -- waits; it did not panic.
  abbrev pub Takes : {A : Type 0} → (A → Type 0) → ℕ → S → Result A × S → Type 0
  Takes P n s (ok a, s') = P a × (length (incoming s') + n ≤ length (incoming s))
  Takes P n s (err e, s') = Unit
  Takes P n s (panic, s') = ⊥
  Takes P n s (waits, s') = Unit

  Takes-weaken :
      {A : Type 0} (P : A → Type 0) (n : ℕ) (s : S) (call : Result A × S)
      → Takes P n s call
      → Takes P 0 s call
  Takes-weaken P n s (ok a, s') (p, h) = (p, omega arith)
  Takes-weaken P n s (err e, s') t = tt
  Takes-weaken P n s (panic, s') t = t
  Takes-weaken P n s (waits, s') t = tt

  read_exact-Takes : (n : ℕ) (s : S) → Takes (λ b. length b ≡ n) n s (tcp.read_exact n s)
  read_exact-Takes n s = elim (dec_le n (length (incoming s))) [
    | yes h ↦
        let (r, i, o) = read_enough n s h in
        rw r (
          omega (arith, length-take n (incoming s)),
          rw i (omega (arith, length-drop n (incoming s))),
        )
    | no h ↦ elim (read_short n s (omega arith)) [
      | inl e ↦ rw e tt
      | inr (inl e) ↦ rw e tt
      | inr (inr e) ↦ rw e tt
    ]
  ]

  Takes-trans :
      {A : Type 0} (P : A → Type 0) (n : ℕ) (s s' : S) (call : Result A × S)
      → length (incoming s') + n ≤ length (incoming s)
      → Takes P 0 s' call
      → Takes P n s call
  Takes-trans P n s s' (ok a, end) h (p, shorter) = (p, omega arith)
  Takes-trans P n s s' (err e, end) h t = tt
  Takes-trans P n s s' (panic, end) h t = t
  Takes-trans P n s s' (waits, end) h t = tt

  Takes-bind :
      {A B : Type 0} (P : A → Type 0) (Q : B → Type 0) (n : ℕ) (s : S) (m : Action S A)
      (f : A → Action S B)
      → Takes P n s (m s)
      → ((a : A) (s' : S) → P a → Takes Q 0 s' (f a s'))
      → Takes Q n s ((m >>= f) s)
  Takes-bind {A} {B} P Q n s m f t k = go (m s) t
    where
      go : (call : Result A × S) → Takes P n s call → Takes Q n s (((λ (_ : S). call) >>= f) s)
      go (ok a, s') (p, shorter) = Takes-trans Q n s s' (f a s') shorter (k a s' p)
      go (err e, s') t = tt
      go (panic, s') t = t
      go (waits, s') t = tt

  read_payload-Takes : (n : ℕ) (s : S) → Takes (λ b. length b ≡ n) 0 s (read_payload tcp n s)
  read_payload-Takes zero s = (refl, omega arith)
  read_payload-Takes (suc n) s =
      rw (lt→ltb 0 (suc n) (omega arith)) (Takes-weaken _ (suc n) s _ (read_exact-Takes (suc n) s))

  -- The body of a frame within the limit.
  abbrev pub IsFrame : Option Bytes → Type 0
  IsFrame none = Unit
  IsFrame (some frame) = (5 ≤ length frame) × (length frame ≤ max_frame_size + 5)

  read_after_header-Takes :
      (header : Bytes)
      → length header ≡ 9
      → (s : S) → Takes IsFrame 0 s (read_after_header tcp header s)
  unfolding read_after_header
  read_after_header-Takes (a ∷ b ∷ c ∷ d ∷ t ∷ e ∷ f ∷ g ∷ h ∷ []) len s =
      let n = e + f * 2 ^ 8 + g * 2 ^ 16 + h * 2 ^ 24 in
      elim (Bool-cases (a * 2 ^ 24 + b * 2 ^ 16 + c * 2 ^ 8 + d == spmp_magic)) [
        | inr other ↦ rw other tt
        | inl magic ↦ elim (Bool-cases (ltb max_frame_size n)) [
          | inl large ↦ rw (magic, large) tt
          | inr small ↦
              rw (magic, small)
                (Takes-bind (λ p. length p ≡ n) IsFrame 0 s (read_payload tcp n)
                  (λ p. pure (some (a ∷ b ∷ c ∷ d ∷ t ∷ p))) (read_payload-Takes n s)
                  (λ p s' lp. (ground arith, omega arith)))
        ]
      ]
  read_after_header-Takes _ len s = absurd (omega arith)

  -- The answer of a call of `read_frame` that began in `s`.
  abbrev Answers : S → Result (Option Bytes) × S → Type 0
  Answers s (ok none, s') = Unit
  Answers s (ok (some frame), s') =
      IsFrame (some frame) × (length (incoming s') + 9 ≤ length (incoming s))
  Answers s (err e, s') = Unit
  Answers s (panic, s') = ⊥
  Answers s (waits, s') = Unit

  Takes-Answers :
      (s s' : S) (call : Result (Option Bytes) × S)
      → length (incoming s') + 9 ≤ length (incoming s)
      → Takes IsFrame 0 s' call
      → Answers s call
  Takes-Answers s s' (ok none, end) h t = tt
  Takes-Answers s s' (ok (some frame), end) h (f, t) = (f, omega arith)
  Takes-Answers s s' (err e, end) h t = tt
  Takes-Answers s s' (panic, end) h t = t
  Takes-Answers s s' (waits, end) h t = tt

  read_frame-Answers : (s : S) → Answers s (read_frame tcp s)
  unfolding read_frame
  read_frame-Answers s = elim (dec_le 9 (length (incoming s))) [
    | yes h ↦
        let (r, i, o) = read_enough 9 s h in
        let header = take 9 (incoming s) in
        let s' = (tcp.read_exact 9 s).1 in
        rw r (
          Takes-Answers s s' (read_after_header tcp header s')
            (rw i (omega (arith, length-drop 9 (incoming s))))
            (read_after_header-Takes header (omega (arith, length-take 9 (incoming s))) s'))
    | no h ↦ elim (read_short 9 s (omega arith)) [
      | inl e ↦ rw e tt
      | inr (inl e) ↦ rw e tt
      | inr (inr e) ↦ rw e tt
    ]
  ]

  -- On any stream `read_frame` does not panic: it fails, waits, or answers. A frame that it returns
  -- has at least the five bytes of magic and type and at most 64 KB after them, and was longer than
  -- the stream that is left by nine bytes or more.
  pub read_frame_bounds :
      (s : S)
      → let (r, s') = read_frame tcp s in
        (r ≢ panic)
        × ((frame : Bytes)
            → r ≡ ok (some frame)
            → (5 ≤ length frame)
              × (length frame ≤ max_frame_size + 5)
              × (length (incoming s') + 9 ≤ length (incoming s)))
  read_frame_bounds s = go (read_frame tcp s) (read_frame-Answers s)
    where
      go :
          (call : Result (Option Bytes) × S)
          → Answers s call
          → (call.0 ≢ panic)
            × ((frame : Bytes)
                → call.0 ≡ ok (some frame)
                → (5 ≤ length frame)
                  × (length frame ≤ max_frame_size + 5)
                  × (length (incoming call.1) + 9 ≤ length (incoming s)))
      go (ok none, s') a = (λ e. cc, λ frame e. cc)
      go (ok (some f), s') a =
          (λ e. cc, λ frame e. let same : f ≡ frame = cc in rw (← same) (a.0.0, a.0.1, a.1))
      go (err x, s') a = (λ e. cc, λ frame e. cc)
      go (panic, s') a = absurd a
      go (waits, s') a = (λ e. cc, λ frame e. cc)

  -- On a stream that ends after less than nine bytes `read_frame` answers `None`, as at a clean end,
  -- also where it has cut the header short.
  pub read_frame_cut_header :
      (s : S) → closed s ≡ true → length (incoming s) < 9 → (read_frame tcp s).0 ≡ ok none
  unfolding read_frame
  read_frame_cut_header s c h = rw (read_closed 9 s c h)
