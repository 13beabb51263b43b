-- ===== src/Suite/Signing/Nonces.antt =====
-- The test of calls in parallel.
use spmp.Prelude.{suc, ap, ◌^◌, ◌<◌, inl, inr, Option, some, Option-cases}
use spmp.Types.{B256}
use spmp.Results.{panic}
use spmp.Signer.{new, strip_0x}
use spmp.Escrow.Calls.{ok_injective}
use spmp.Suite.Signing.{spawned, test_signer, test_private_key}
use spmp.Prelude.{◌≤◌, ◌+◌, ℕ, ◌≡◌, refl, arith, All, map, List, [], ◌∷◌, length}
use spmp.Results.{ok, Profile}
use spmp.Alloy.{Alloy}
use spmp.Signer.{Wallet, Signer}
use spmp.Signer.Parallel.{Thread, waiting, numbered, finished, Run}
use spmp.Signer.Parallel.{IsFinished}
use spmp.Signer.Parallel.Tickets.{IsTimely, CanSign, IsFruitful, Run-IsFruitful, Run-tickets}
use spmp.Prelude.Words.{u64_max}
use spmp.Signer.Parallel.Counting.{ticket_nonces}
use spmp.Suite.Signing.{nonces_of, test_nonce_monotonicity_under_concurrency}
use spmp.Suite.Signing.Sorted.{sort-counts_up}

-- A reading of the clock that leaves room for the expiry.
abbrev pub IsOnTime : B256 × Option ℕ → Type 0
IsOnTime (client_seed, clock) = (now : ℕ) × (clock ≡ some now) × (now + 86_400 < 2 ^ 64)

not_panic : {A : Type 0} (a : A) → ¬ (panic ≡ ok a)
not_panic a h = cc

module _ {Key : Type 0} (wallet : Wallet Key) {Sig : Type 0} (alloy : Alloy Sig)
    (profile : Profile) where
  -- The signer of the tests starts at nonce zero.
  test_signer-fresh : (self : Signer Key) → test_signer wallet ≡ ok self → self.nonce_watermark ≡ 0
  unfolding new
  test_signer-fresh self h = elim (Option-cases (wallet.parse (strip_0x test_private_key))) [
    | inl failed ↦ absurd (not_panic self (rw failed at h))
    | inr (key, parsed) ↦ ap (λ s. s.nonce_watermark) (ok_injective _ _ (rw parsed at h))
  ]

  -- Calls that have all ended with a ticket are awaited without a panic.
  nonces_of-ticket_nonces :
      (ts : List Thread)
      → All IsFinished ts
      → All IsFruitful ts
      → nonces_of ts ≡ ok (ticket_nonces ts)
  nonces_of-ticket_nonces [] done fruitful = refl
  nonces_of-ticket_nonces (waiting c ∷ ts) (two, _) fruitful = absurd (omega (arith, two))
  nonces_of-ticket_nonces (numbered c n ∷ ts) (one, _) fruitful = absurd (omega (arith, one))
  nonces_of-ticket_nonces (finished c n r ∷ ts) (_, done) ((t, made), fruitful) =
      rw (made, nonces_of-ticket_nonces ts done fruitful) refl

  spawned-IsTimely :
      (draws : List (B256 × Option ℕ)) → All IsOnTime draws → All IsTimely (spawned draws)
  spawned-IsTimely [] h = tt
  spawned-IsTimely ((client_seed, clock) ∷ draws) ((now, read, fits), h) =
      ((now, read, fits, omega arith), spawned-IsTimely draws h)

  length-spawned : (draws : List (B256 × Option ℕ)) → length (spawned draws) ≡ length draws
  length-spawned [] = refl
  length-spawned (d ∷ draws) = ap suc (length-spawned draws)

  -- The test of 50 calls in parallel passes, whatever the calls draw and the order of their steps: of
  -- the tests' signer, if its key is parsed and signs, with clocks that can be read and leave room for
  -- the expiry in a u64, once all calls have ended. So no call panics, the nonces of the tickets, once
  -- sorted, are those from 1 to 50, and the watermark is at 50.
  pub test_nonce_monotonicity_under_concurrency-passes :
      {n : ℕ} {self' : Signer Key} {ts : List Thread} (self : Signer Key)
      (draws : List (B256 × Option ℕ))
      → test_signer wallet ≡ ok self
      → length draws ≡ 50
      → CanSign wallet self.signer
      → All IsOnTime draws
      → Run wallet alloy profile self (map waiting (spawned draws)) n self' ts
      → All IsFinished ts
      → test_nonce_monotonicity_under_concurrency wallet ts self' ≡ ok tt
  unfolding test_nonce_monotonicity_under_concurrency
  test_nonce_monotonicity_under_concurrency-passes {self'} {ts} self draws made size signs soon r
        done =
      let cs = spawned draws in
      let start : self.nonce_watermark ≡ 0 = test_signer-fresh self made in
      let sized : length cs ≡ 50 = omega (arith, length-spawned draws) in
      let room : self.nonce_watermark + length cs ≤ u64_max = omega arith in
      let timely = spawned-IsTimely draws soon in
      let (_, fruitful) = Run-IsFruitful wallet alloy profile cs room signs timely r in
      let (_, once, reached) = Run-tickets wallet alloy profile self cs room signs timely r done in
      let at_50 : self'.nonce_watermark ≡ 50 = omega (arith, reached) in
      let (counted, enumerated) =
        sort-counts_up 50 (ticket_nonces ts) (λ k. rw (start, sized) at (once k)) in
      rw (nonces_of-ticket_nonces ts done fruitful, counted, enumerated, at_50) refl
