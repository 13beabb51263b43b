-- ===== src/Signer/Parallel.antt =====
-- Calls of `sign_next_ticket` in parallel: they share the watermark, and nothing else of a call
-- touches what another reads.
pub mod Counting
pub mod Numbers
pub mod Tickets
mod Examples
use spmp.Prelude.{ℕ, zero, suc, ◌+◌, ◌%◌, ◌^◌, ◌≡◌, refl, List, [], ◌∷◌}
use spmp.Results.{Result, ok, Profile, add_u64, ◌>>=◌}
use spmp.ClientTypes.{SignedTicket}
use spmp.Alloy.{Alloy}
use spmp.Signer.{Wallet, Signer, sign_next_ticket, sign_ticket}
use spmp.Signer.Tickets.{Call, sign}

-- Where a call is: before its `fetch_add`, with the nonce that it computed from it, or done.
pub data Thread : Type 0 where
  waiting : Call → Thread
  numbered : Call → Result ℕ → Thread
  finished : Call → Result ℕ → Result SignedTicket → Thread

-- The steps that a call has left.
abbrev left : Thread → ℕ
left (waiting c) = 2
left (numbered c n) = 1
left (finished c n r) = 0

abbrev pub IsFinished : Thread → Type 0
IsFinished t = left t ≡ 0

module _ {Key : Type 0} (wallet : Wallet Key) {Sig : Type 0} (alloy : Alloy Sig)
    (profile : Profile) where
  -- `fetch_add(1)` on the shared watermark, which wraps.
  abbrev pub fetch_add : Signer Key → Signer Key
  fetch_add self = record self { nonce_watermark = (self.nonce_watermark + 1) % 2 ^ 64 }

  -- What a call does behind its nonce.
  abbrev pub finish : Call → Signer Key → Result ℕ → Result SignedTicket
  finish c self nonce =
      nonce
      >>= sign_ticket wallet alloy profile c.client_seed c.clock self c.provider_commitment
          c.pricing

  -- A call by itself is its two steps one after the other.
  pub sign-two_steps :
      (c : Call) (self : Signer Key)
      → sign wallet alloy profile c self
        ≡ (finish c self (add_u64 profile self.nonce_watermark 1), fetch_add self)
  unfolding sign_next_ticket
  sign-two_steps c self = refl

  -- One of the calls takes its next step.
  pub data Moves (self : Signer Key) : List Thread → Signer Key → List Thread → Type 0 where
    take_nonce :
        (c : Call) (ts : List Thread)
        → Moves self
            (waiting c ∷ ts)
            (fetch_add self)
            (numbered c (add_u64 profile self.nonce_watermark 1) ∷ ts)
    sign_it :
        (c : Call) (nonce : Result ℕ) (ts : List Thread)
        → Moves self (numbered c nonce ∷ ts) self (finished c nonce (finish c self nonce) ∷ ts)
    behind :
        {ts ts' : List Thread} {self' : Signer Key} (t : Thread)
        → Moves self ts self' ts'
        → Moves self (t ∷ ts) self' (t ∷ ts')

  -- A number of steps in any order.
  pub data Run (self : Signer Key) (ts : List Thread) : ℕ → Signer Key → List Thread → Type 0 where
    stay : Run self ts 0 self ts
    step :
        {n : ℕ} {self' self'' : Signer Key} {ts' ts'' : List Thread}
        → Run self ts n self' ts'
        → Moves self' ts' self'' ts''
        → Run self ts (suc n) self'' ts''
