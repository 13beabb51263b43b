-- ===== src/Signer/Parallel/Tickets.antt =====
-- Calls in parallel whose clock can be read all end with a ticket.
use spmp.Prelude.{
  suc, ap, ℕ, ◌+◌, ◌^◌, ◌≤◌, ◌<◌, ◌≡◌, refl, arith, lt→ltb, some, List, [], ◌∷◌, map, length, All,
  Bytes,
}
use spmp.Prelude.Words.{u64_max}
use spmp.Results.{Result, ok, Profile, add_u64-small}
use spmp.Types.{B256}
use spmp.ClientTypes.{SignedTicket}
use spmp.Alloy.{Alloy}
use spmp.Signer.{Wallet, Signer, sign_ticket, sign_content, compute_eip712_digest}
use spmp.Signer.Tickets.{Call, signed_content, payload_of}
use spmp.Signer.Parallel.{
  Thread, waiting, numbered, finished, finish, Moves, take_nonce, sign_it, behind, Run, stay, step,
}
use spmp.Signer.Parallel.Counting.{
  occurrences, numbers, ticket_nonces, taken, within, taken-le-length, has_taken-le_one,
}
use spmp.Signer.Parallel.Numbers.{HasTaken, start-Counted, Run-Counted}
use spmp.Signer.Parallel.{IsFinished}

-- The call can read the clock, and its expiry and its face value fit their types.
abbrev pub IsTimely : Call → Type 0
IsTimely c =
    (now : ℕ) × (c.clock ≡ some now)
    × (now + c.pricing.expiry_duration_sec < 2 ^ 64)
    × (c.pricing.face_value < 2 ^ 128)

-- The key signs whatever it is asked to.
abbrev pub CanSign : {Key : Type 0} → Wallet Key → Key → Type 0
CanSign wallet key = (digest : B256) → (bytes : Bytes) × (wallet.sign_hash key digest ≡ some bytes)

-- A call that is to end, or has ended, with a ticket.
abbrev pub IsFruitful : Thread → Type 0
IsFruitful (waiting c) = IsTimely c
IsFruitful (numbered c n) = IsTimely c × ((k : ℕ) × (n ≡ ok k))
IsFruitful (finished c n r) = (t : SignedTicket) × (r ≡ ok t)

waiting-IsFruitful : (cs : List Call) → All IsTimely cs → All IsFruitful (map waiting cs)
waiting-IsFruitful [] h = tt
waiting-IsFruitful (c ∷ cs) (h, hs) = (h, waiting-IsFruitful cs hs)

module _ {Key : Type 0} (wallet : Wallet Key) {Sig : Type 0} (alloy : Alloy Sig)
    (profile : Profile) where
  finish-ok :
      (c : Call) (self : Signer Key) (n : Result ℕ) (k : ℕ)
      → IsTimely c
      → CanSign wallet self.signer
      → n ≡ ok k
      → (t : SignedTicket) × (finish wallet alloy profile c self n ≡ ok t)
  unfolding sign_ticket sign_content compute_eip712_digest
  finish-ok c self n k (now, read, fits, small) signs same =
      let expiry = now + c.pricing.expiry_duration_sec in
      let (bytes, e) =
        signs (alloy.eip712_signing_hash (signed_content c self k expiry) self.domain) in
      (
        record { payload = payload_of c self k expiry; signature = bytes },
        rw
            (
              same,
              read,
              add_u64-small profile now c.pricing.expiry_duration_sec fits,
              lt→ltb c.pricing.face_value (2 ^ 128) small,
              sign_content,
              e,
            )
            refl,
      )

  Moves-CanSign :
      {self self' : Signer Key} {ts ts' : List Thread}
      → Moves wallet alloy profile self ts self' ts'
      → CanSign wallet self.signer
      → CanSign wallet self'.signer
  Moves-CanSign (take_nonce c ts) signs = signs
  Moves-CanSign (sign_it c n ts) signs = signs
  Moves-CanSign (behind t mv) signs = Moves-CanSign mv signs

  Moves-IsFruitful :
      {self self' : Signer Key} {ts ts' : List Thread}
      → self.nonce_watermark + length ts ≤ u64_max + taken ts
      → CanSign wallet self.signer
      → Moves wallet alloy profile self ts self' ts'
      → All IsFruitful ts
      → All IsFruitful ts'
  Moves-IsFruitful {self} room signs (take_nonce c ts) (timely, rest) =
      let below : self.nonce_watermark < u64_max = omega (arith, taken-le-length ts) in
      (
        (
          timely,
          (self.nonce_watermark + 1, add_u64-small profile self.nonce_watermark 1 (omega arith)),
        ),
        rest,
      )
  Moves-IsFruitful {self} room signs (sign_it c n ts) ((timely, (k, same)), rest) =
      (finish-ok c self n k timely signs same, rest)
  Moves-IsFruitful room signs (behind t mv) (here, rest) =
      (here, Moves-IsFruitful (omega (arith, has_taken-le_one t)) signs mv rest)

  pub Run-IsFruitful :
      {self : Signer Key} (cs : List Call) {n : ℕ} {self' : Signer Key} {ts' : List Thread}
      → self.nonce_watermark + length cs ≤ u64_max
      → CanSign wallet self.signer
      → All IsTimely cs
      → Run wallet alloy profile self (map waiting cs) n self' ts'
      → CanSign wallet self'.signer × All IsFruitful ts'
  Run-IsFruitful cs room signs timely stay = (signs, waiting-IsFruitful cs timely)
  Run-IsFruitful {self} cs room signs timely (step r mv) =
      let (signs', fruitful) = Run-IsFruitful cs room signs timely r in
      let at =
        Run-Counted wallet alloy profile self.nonce_watermark (length cs) room r
          (start-Counted wallet alloy profile self cs) in
      (
        Moves-CanSign mv signs',
        Moves-IsFruitful (omega (arith, at.reached, at.sized)) signs' mv fruitful,
      )

  -- Calls that have all ended with a ticket have made the tickets of the nonces that they took.
  pub numbers-ticket_nonces :
      (ts : List Thread)
      → All IsFinished ts
      → All IsFruitful ts
      → All (HasTaken wallet alloy profile) ts
      → (numbers ts ≡ ticket_nonces ts)
        × (length (ticket_nonces ts) ≡ length ts)
        × (taken ts ≡ length ts)
  numbers-ticket_nonces [] done fruitful m = (refl, refl, refl)
  numbers-ticket_nonces (waiting c ∷ ts) (two, _) fruitful m = absurd (omega (arith, two))
  numbers-ticket_nonces (numbered c n ∷ ts) (one, _) fruitful m = absurd (omega (arith, one))
  numbers-ticket_nonces (finished c n r ∷ ts) (_, done) ((t, made), fruitful) (h, m) =
      let (same, sized, all_taken) = numbers-ticket_nonces ts done fruitful m in
      rw (h t made, made)
        (ap (λ xs. t.payload.nonce ∷ xs) same, ap suc sized, omega (arith, all_taken))

  -- Calls in parallel, whose clocks can be read and whose numbers fit, of a signer whose key signs and
  -- whose watermark leaves room for all of them in the u64, in any order of their steps: once all of
  -- them have ended, there is a ticket for each call, the tickets' nonces are those that follow the
  -- watermark, each once and none left out, and the watermark is behind them.
  pub Run-tickets :
      {n : ℕ} {self' : Signer Key} {ts : List Thread} (self : Signer Key) (cs : List Call)
      → self.nonce_watermark + length cs ≤ u64_max
      → CanSign wallet self.signer
      → All IsTimely cs
      → Run wallet alloy profile self (map waiting cs) n self' ts
      → All IsFinished ts
      → (length (ticket_nonces ts) ≡ length cs)
        × ((k : ℕ)
            → occurrences k (ticket_nonces ts)
              ≡ within self.nonce_watermark (self.nonce_watermark + length cs) k)
        × (self'.nonce_watermark ≡ self.nonce_watermark + length cs)
  Run-tickets {self'} {ts} self cs room signs timely r done =
      let (_, fruitful) = Run-IsFruitful cs room signs timely r in
      let end =
        Run-Counted wallet alloy profile self.nonce_watermark (length cs) room r
          (start-Counted wallet alloy profile self cs) in
      let (same, sized, all_taken) = numbers-ticket_nonces ts done fruitful end.matched in
      let reached : self'.nonce_watermark ≡ self.nonce_watermark + length cs =
        omega (arith, end.reached, end.sized) in
      (omega (arith, end.sized), λ k. rw (← same, ← reached) (end.counted k), reached)
