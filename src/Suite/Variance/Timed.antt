-- ===== src/Suite/Variance/Timed.antt =====
-- The benchmark's tickets are all valid.
use spmp.Prelude.{
  ℕ, zero, suc, ◌+◌, ◌^◌, ◌≤◌, ◌<◌, ◌≡◌, refl, arith, Option, some, List, [], ◌∷◌, Bytes, replicate,
}
use spmp.Prelude.Words.{u64_max}
use spmp.Results.{ok, Profile, add_u64-small}
use spmp.Types.{Ticket}
use spmp.Alloy.{Alloy, AlloyLaws}
use spmp.Verifier.{TicketVerifier, verify_ticket}
use spmp.Verifier.Verdict.{IsValidVerdict, verify_ticket-valid_iff}
use spmp.Verifier.Gate.{IsConfigured, new-IsConfigured}
use spmp.Signer.{Wallet}
use spmp.Signer.Acceptance.{WalletLaws, sign_hash-Acceptable}
use spmp.Suite.Gatekeeper.{setup_verifier}
use spmp.Suite.Gatekeeper.Passes.{Signs, assert-IsValidVerdict}
use spmp.Suite.Variance.{
  latency_ticket, latency_tickets, verify_each, test_sub_millisecond_latency_benchmark,
}

-- A reading of the clock less than a time.
abbrev pub Before : ℕ → Option ℕ → Type 0
Before limit clock = (later : ℕ) × (clock ≡ some later) × (later < limit)

module _ {Sig : Type 0} (alloy : Alloy Sig) {Key : Type 0} (wallet : Wallet Key)
    (alloy_laws : AlloyLaws alloy) (wallet_laws : WalletLaws wallet alloy) (profile : Profile)
    (key : Key) (signs : Signs wallet key) (v : TicketVerifier) (conf : IsConfigured alloy v)
    (now : ℕ) (fits : now + 86_400 < 2 ^ 64) where
  latency-IsValidVerdict :
      (i : ℕ) (bytes : Bytes) (clock : Option ℕ)
      → i + 1 ≤ u64_max
      → Before (now + 86_400) clock
      → let t = latency_ticket (i + 1) (now + 86_400) v in
        wallet.sign_hash key (alloy.eip712_signing_hash t v.domain) ≡ some bytes
        → IsValidVerdict (verify_ticket alloy clock v t bytes (wallet.address key) i)
  latency-IsValidVerdict i bytes clock room (later, read, fresh) e =
      let t = latency_ticket (i + 1) (now + 86_400) v in
      rw read (
        (verify_ticket-valid_iff alloy v t bytes (wallet.address key) i (omega arith)
            (some later)).1
          (sign_hash-Acceptable wallet alloy alloy_laws wallet_laws v t key bytes i later conf refl
            (omega arith) refl fresh e))

  latency_tickets-valid :
      (n i : ℕ)
      → i + n ≤ u64_max
      → (pairs : List (Ticket × Bytes)) × (latency_tickets alloy wallet profile key v now n (i + 1)
          ≡ ok pairs)
        × ((clocks : ℕ → Option ℕ)
            → ((j : ℕ) → Before (now + 86_400) (clocks j))
            → verify_each alloy v (wallet.address key) clocks pairs i ≡ ok tt)
  unfolding latency_tickets verify_each
  latency_tickets-valid zero i room = ([], refl, λ clocks timely. refl)
  latency_tickets-valid (suc n) i room =
      let t = latency_ticket (i + 1) (now + 86_400) v in
      let (bytes, e) = signs (alloy.eip712_signing_hash t v.domain) in
      let (rest, made, valid) = latency_tickets-valid n (i + 1) (omega arith) in
      (
        (t, bytes) ∷ rest,
        rw (add_u64-small profile now 86_400 fits, e, made) refl,
        λ clocks timely.
            rw
              (assert-IsValidVerdict _
                (latency-IsValidVerdict i bytes (clocks i) (omega arith) (timely i) e))
              (valid clocks timely),
      )

module _ {Sig : Type 0} (alloy : Alloy Sig) {Key : Type 0} (wallet : Wallet Key)
    (alloy_laws : AlloyLaws alloy) (wallet_laws : WalletLaws wallet alloy) (profile : Profile) where
  -- The 1 000 tickets that the benchmark makes are all valid, one after the other.
  pub test_sub_millisecond_latency_benchmark-passes :
      (key : Key) (now : ℕ) (clocks : ℕ → Option ℕ)
      → Signs wallet key
      → now + 86_400 < 2 ^ 64
      → ((i : ℕ) → Before (now + 86_400) (clocks i))
      → test_sub_millisecond_latency_benchmark alloy wallet profile key (some now) clocks ≡ ok tt
  unfolding test_sub_millisecond_latency_benchmark
  test_sub_millisecond_latency_benchmark-passes key now clocks signs fits timely =
      let v = setup_verifier alloy (replicate 32 0x77) in
      let conf =
        new-IsConfigured alloy (replicate 20 0x11) (replicate 20 0x22) 31_337 (replicate 32 0x77) in
      let (pairs, made, valid) =
        latency_tickets-valid alloy wallet alloy_laws wallet_laws profile key signs v conf now fits
          1_000 0 (omega arith) in
      rw made (valid clocks timely)
