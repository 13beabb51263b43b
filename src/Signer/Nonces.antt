-- ===== src/Signer/Nonces.antt =====
-- The nonces of a signer's tickets.
use spmp.Prelude.{ℕ, ◌+◌, ◌≤◌, ◌<◌, ◌≡◌, ◌∙◌, ap, refl, arith, List, [], ◌∷◌, length}
use spmp.Prelude.Words.{u64_max}
use spmp.Results.{Result, ok, err, panic, waits, Profile}
use spmp.ClientTypes.{SignedTicket}
use spmp.Alloy.{Alloy}
use spmp.Signer.{Wallet, Signer, sign_next_ticket}
use spmp.Signer.Tickets.{Call, sign, sign-SignedFor}

module _ {Key : Type 0} (wallet : Wallet Key) {Sig : Type 0} (alloy : Alloy Sig)
    (profile : Profile) where
  -- A run of calls, one after the other: what each answered, and the signer afterwards.
  unfoldable pub sign_all : List Call → Signer Key → List (Result SignedTicket) × Signer Key
  sign_all [] self = ([], self)
  sign_all (c ∷ cs) self =
      let (r, self') = sign wallet alloy profile c self in
      let (rs, end) = sign_all cs self' in (r ∷ rs, end)

  -- The tickets of a run have the nonces from `w + 1` on, one for each call, in their order: a call
  -- that fails uses its nonce up.
  abbrev pub Numbered : ℕ → List (Result SignedTicket) → Type 0
  Numbered w [] = Unit
  Numbered w (ok t ∷ rs) = (t.payload.nonce ≡ w + 1) × Numbered (w + 1) rs
  Numbered w (r ∷ rs) = Numbered (w + 1) rs

  pub next_watermark :
      (c : Call) (self : Signer Key)
      → self.nonce_watermark < u64_max
      → (sign wallet alloy profile c self).1
        ≡ record self { nonce_watermark = self.nonce_watermark + 1 }
  unfolding sign_next_ticket
  next_watermark c self h = ap (λ n. record self { nonce_watermark = n }) (omega arith)

  Numbered-next :
      (w : ℕ) (r : Result SignedTicket) (rs : List (Result SignedTicket))
      → ((t : SignedTicket) → r ≡ ok t → t.payload.nonce ≡ w + 1)
      → Numbered (w + 1) rs
      → Numbered w (r ∷ rs)
  Numbered-next w (ok t) rs first rest = (first t refl, rest)
  Numbered-next w (err e) rs first rest = rest
  Numbered-next w panic rs first rest = rest
  Numbered-next w waits rs first rest = rest

  -- A run of calls that the u64 has room for: the tickets have the nonces that follow the watermark,
  -- one for each call in the order of the calls, and the watermark grows by the number of calls, of
  -- which some may fail.
  pub sign_all-Numbered :
      (cs : List Call) (self : Signer Key)
      → self.nonce_watermark + length cs ≤ u64_max
      → let (rs, end) = sign_all cs self in
        Numbered self.nonce_watermark rs
        × (end ≡ record self { nonce_watermark = self.nonce_watermark + length cs })
  unfolding sign_all
  sign_all-Numbered [] self room = (tt, ap (λ n. record self { nonce_watermark = n }) (omega arith))
  sign_all-Numbered (c ∷ cs) self room =
      let w = self.nonce_watermark in
      let self' = (sign wallet alloy profile c self).1 in
      let moved = next_watermark c self (omega arith) in
      let first : (t : SignedTicket)
          → (sign wallet alloy profile c self).0 ≡ ok t
          → t.payload.nonce ≡ w + 1 =
        λ t e.
          let (_, _, _, _, _, packed, _) =
            sign-SignedFor wallet alloy profile c self t (omega arith) e in
          ap (λ p. p.nonce) packed in
      let (numbered, end) =
        sign_all-Numbered cs (record self { nonce_watermark = w + 1 }) (omega arith) in
      rw moved (
        Numbered-next w _ _ first numbered,
        end ∙ ap (λ n. record self { nonce_watermark = n }) (omega arith),
      )
