-- ===== src/Simulate/Bench/Tampered.antt =====
-- What the single-ticket mode reports.
use spmp.Prelude.{
  ℕ, ◌-◌, ◌+◌, ◌≤◌, ◌<◌, ◌≡◌, ap, refl, arith, true, false, Option, some, List, [], ◌∷◌, Bytes,
}
use spmp.Prelude.Words.{u64_max}
use spmp.Results.{ok, Profile, debug, release, add_u64-small}
use spmp.Types.{
  GatekeeperDecision, Address, Ticket, invalid_nonce, invalid_commitment, expired, valid_winning,
  reject, claim_and_rotate_winning,
}
use spmp.Alloy.{Alloy}
use spmp.Verifier.{TicketVerifier, verify_ticket}
use spmp.Verifier.Decision.{evaluate_and_gate-winning, evaluate_and_gate-invalidated}
use spmp.Verifier.Reject.{verify_ticket-reject_iff}
use spmp.Simulate.{sub_usize}
use spmp.Simulate.Bench.{
  bench_content, BenchMode, bench_nonce, bench_expiry, bench_ticket, bench_loop, bench,
}

sub_hour :
    (profile : Profile) (n : ℕ)
    → 3_600 ≤ n
    → n ≤ u64_max
    → sub_usize profile n 3_600 ≡ ok (n - 3_600)
sub_hour debug n h u = ground arith
sub_hour release n h u = ap ok (omega arith)

module _ {Sig : Type 0} (alloy : Alloy Sig) (ticket : Ticket) (sig_bytes : Bytes)
    (client_addr : Address) (last_nonce : ℕ) where
  bench_loop-invalidated :
      (now : Option ℕ) (nows : List (Option ℕ)) (v : TicketVerifier)
      → v.seed_invalidated ≡ true
      → (st : GatekeeperDecision)
      → bench_loop alloy ticket sig_bytes client_addr last_nonce (now ∷ nows) (st, v)
        ≡ (reject invalid_commitment, v)
  unfolding bench_loop
  bench_loop-invalidated now [] v used st =
      evaluate_and_gate-invalidated alloy now v ticket sig_bytes client_addr last_nonce used
  bench_loop-invalidated now (next ∷ nows) v used st =
      rw (evaluate_and_gate-invalidated alloy now v ticket sig_bytes client_addr last_nonce used)
        (bench_loop-invalidated next nows v used (reject invalid_commitment))

  -- A ticket that wins in the first of two or more iterations: the decision that the run reports is a
  -- rejection for the commitment, since the loop does not rotate the seed.
  pub bench-winning :
      (now next : Option ℕ) (nows : List (Option ℕ)) (v : TicketVerifier)
      → v.seed_invalidated ≡ false
      → verify_ticket alloy now v ticket sig_bytes client_addr last_nonce ≡ valid_winning
      → bench alloy ticket sig_bytes client_addr last_nonce (now ∷ next ∷ nows) v
        ≡ (reject invalid_commitment, record v { seed_invalidated = true })
  unfolding bench bench_loop
  bench-winning now next nows v fresh won =
      rw (evaluate_and_gate-winning alloy now v ticket sig_bytes client_addr last_nonce fresh won) (
        bench_loop-invalidated next nows (record v { seed_invalidated = true }) refl
          claim_and_rotate_winning)

module _ {Sig : Type 0} (alloy : Alloy Sig) (profile : Profile) (mode : BenchMode)
    (v : TicketVerifier) (sig_bytes : Bytes) (client_addr : Address) where
  -- With the option that tampers with the nonce, where the watermark is at least 99 below the last
  -- u64 and the expiry can be computed: the mode makes a ticket, and it is rejected for its nonce,
  -- whatever the other options, the signature and the clock.
  pub tampered_nonce_rejected :
      (now expiry : ℕ) (later : Option ℕ)
      → mode.tamper_nonce ≡ true
      → mode.last_nonce + 99 ≤ u64_max
      → bench_expiry profile mode now ≡ ok expiry
      → (t : Ticket) × (bench_ticket profile mode v.provider_commitment now ≡ ok t)
        × (verify_ticket alloy later v t sig_bytes client_addr mode.last_nonce ≡ invalid_nonce)
  unfolding bench_ticket bench_nonce bench_expiry
  tampered_nonce_rejected now expiry later on low dated =
      let last = mode.last_nonce in
      let t = bench_content mode v.provider_commitment (last + 99) expiry in
      (
        t,
        rw (on, add_u64-small profile last 99 (omega arith), dated),
        (verify_ticket-reject_iff alloy v t sig_bytes client_addr last (omega arith) later).0.1
            (λ (same, _). absurd (omega arith)),
      )

  -- With the option for an expired ticket and no other, at a nonce in order and an hour or more after
  -- the epoch: the mode makes a ticket, and while the clock does not go back by an hour it is
  -- rejected as expired, whatever the signature.
  pub expired_ticket_rejected :
      (now later : ℕ)
      → mode.expired ≡ true
      → mode.tamper_nonce ≡ false
      → mode.tamper_commitment ≡ false
      → mode.nonce ≡ mode.last_nonce + 1
      → mode.last_nonce < u64_max
      → 3_600 ≤ now
      → now ≤ u64_max
      → now ≤ later + 3_600
      → (t : Ticket) × (bench_ticket profile mode v.provider_commitment now ≡ ok t)
        × (verify_ticket alloy (some later) v t sig_bytes client_addr mode.last_nonce ≡ expired)
  unfolding bench_ticket bench_nonce bench_expiry
  expired_ticket_rejected now later on plain kept next below hour u64 soon =
      let last = mode.last_nonce in
      let t = bench_content mode v.provider_commitment mode.nonce (now - 3_600) in
      (
        t,
        rw (plain, on, sub_hour profile now hour u64),
        (verify_ticket-reject_iff alloy v t sig_bytes client_addr last (omega arith)
              (some later)).2.1
            ((next, below), rw kept, λ (seconds, e, fresh). absurd (past seconds e fresh)),
      )
    where
      past : (seconds : ℕ) → some later ≡ some seconds → seconds < now - 3_600 → ⊥
      past seconds e fresh = let same : later ≡ seconds = cc in absurd (omega arith)
