-- ===== src/Simulate/Bench/Single.antt =====
-- The single-ticket mode of provider-daemon/src/bin/simulate.rs as a whole, `run_single_or_bench_mode`
-- without its output and its timing, and what it reports of a ticket that nobody has tampered with.
use spmp.Prelude.{
  ap, ℕ, ◌+◌, ◌^◌, ◌≤◌, ◌<◌, ◌≡◌, refl, arith, All, false, Option, some, List, [], ◌∷◌, ◌++◌, Bytes,
  length, replicate,
}
use spmp.Prelude.Words.{u64_max}
use spmp.Results.{Result, ok, unwrap, Profile, add_u64-small, ◌>>=◌}
use spmp.Types.{
  B256, Address, Ticket, GatekeeperDecision, serve_losing, claim_and_rotate_winning, reject,
  invalid_commitment, valid_winning,
}
use spmp.Alloy.{Alloy, AlloyLaws}
use spmp.Verifier.{TicketVerifier, new, verify_ticket, evaluate_and_gate}
use spmp.Verifier.Verdict.{Acceptable, verify_ticket-valid_iff}
use spmp.Verifier.Win.{Wins, entropy, verify_ticket-winning_iff}
use spmp.Verifier.Gate.{new-IsConfigured}
use spmp.Verifier.Decision.{losing_of, evaluate_and_gate-losing, evaluate_and_gate-winning}
use spmp.Signer.{Wallet}
use spmp.Signer.Acceptance.{WalletLaws, sign_hash-Acceptable}
use spmp.Simulate.Options.{Options}
use spmp.Simulate.Bench.{
  BenchMode, bench_ticket, bench_nonce, bench_expiry, bench_content, bench_loop, bench,
}
use spmp.Simulate.Bench.Tampered.{bench-winning}
use spmp.Simulate.Bench.Signature.{LocalSignature, TwinLaws, as_bytes, bench_signature}

module _ {Sig : Type 0} (alloy : Alloy Sig) {Key : Type 0} (wallet : Wallet Key)
    (local : Key → B256 → Option LocalSignature) (profile : Profile) (o : Options)
    (client_signer : Key) where
  abbrev pub verifier : TicketVerifier
  verifier = new alloy (replicate 20 0x11) (replicate 20 0x22) 31_337 (replicate 32 0x42)

  abbrev pub mode : BenchMode
  mode = record {
    num = o.num;
    denom = o.denom;
    face_value = o.face_value;
    nonce = o.nonce;
    last_nonce = o.last_nonce;
    tamper_nonce = o.tamper_nonce;
    tamper_commitment = o.tamper_commitment;
    expired = o.expired;
    channel_id = alloy.keccak256 (wallet.address client_signer ++ replicate 20 0x11);
    provider_addr = replicate 20 0x11;
  }

  -- The decision that is reported, from the reading of the clock for the ticket and those of the
  -- iterations. The five verdicts that warm the verifier up are dropped, and change nothing.
  unfoldable pub run_single_or_bench_mode : Option ℕ → List (Option ℕ) → Result GatekeeperDecision
  run_single_or_bench_mode clock iterations = do
    now ← unwrap clock
    ticket ← bench_ticket profile mode verifier.provider_commitment now
    signature ← unwrap (local client_signer (alloy.eip712_signing_hash ticket verifier.domain))
    let sig_bytes = bench_signature o.malleable_s o.tamper_sig signature
    let (last_decision, _) =
        bench alloy ticket sig_bytes (wallet.address client_signer) o.last_nonce iterations verifier
    ok last_decision

-- No option tampers with the ticket, and its nonce is in order.
pub record IsUntampered (o : Options) : Type 0 where
  pub signature_kept : o.tamper_sig ≡ false
  pub low_s : o.malleable_s ≡ false
  pub nonce_kept : o.tamper_nonce ≡ false
  pub commitment_kept : o.tamper_commitment ≡ false
  pub unexpired : o.expired ≡ false
  pub in_order : o.nonce ≡ o.last_nonce + 1
  pub below : o.last_nonce < u64_max

-- A reading of the clock less than the expiry.
abbrev pub InTime : ℕ → Option ℕ → Type 0
InTime expiry clock = (later : ℕ) × (clock ≡ some later) × (later < expiry)

-- What the loop reports of a ticket that is accepted at each reading of the clock: serving, if the
-- ticket loses, and if it wins a claim after one iteration, and a rejection after more.
abbrev pub Reports :
    {Sig : Type 0} → Alloy Sig → Ticket → TicketVerifier → ℕ → GatekeeperDecision → Type 0
Reports alloy t v iterations decision =
    let odds = Wins t.win_prob_numerator t.win_prob_denominator (entropy alloy v t) in
    ((¬ odds) → decision ≡ serve_losing)
    × (odds → iterations ≡ 1 → decision ≡ claim_and_rotate_winning)
    × (odds → 2 ≤ iterations → decision ≡ reject invalid_commitment)

module _ {Sig : Type 0} (alloy : Alloy Sig) (t : Ticket) (bytes : Bytes) (client : Address)
    (last : ℕ) where
  bench_loop-losing :
      (nows : List (Option ℕ)) (v : TicketVerifier)
      → v.seed_invalidated ≡ false
      → ((now : Option ℕ)
          → InTime t.expiry now
          → evaluate_and_gate alloy now v t bytes client last ≡ (serve_losing, v))
      → All (InTime t.expiry) nows
      → (bench_loop alloy t bytes client last nows (serve_losing, v)).0 ≡ serve_losing
  unfolding bench_loop
  bench_loop-losing [] v live losing soon = refl
  bench_loop-losing (now ∷ nows) v live losing (here, soon) =
      rw (bench_loop, losing now here) (bench_loop-losing nows v live losing soon)

  module _ (v : TicketVerifier) (live : v.seed_invalidated ≡ false) (u64 : last < u64_max)
      (acceptable : (later : ℕ)
        → later < t.expiry
        → Acceptable alloy (some later) v t bytes client last) where
    lost :
        (¬ Wins t.win_prob_numerator t.win_prob_denominator (entropy alloy v t))
        → (now : Option ℕ) → InTime t.expiry now
        → evaluate_and_gate alloy now v t bytes client last ≡ (serve_losing, v)
    lost unlucky now (later, read, soon) =
        let accepted = acceptable later soon in
        let valid =
          (verify_ticket-valid_iff alloy v t bytes client last (omega arith) (some later)).1
            accepted in
        let losing = losing_of _ valid (λ won.
          unlucky
            ((verify_ticket-winning_iff alloy v t bytes client last (some later) (omega arith)).0
              won).1) in
        rw read (evaluate_and_gate-losing alloy (some later) v t bytes client last live losing)

    won :
        Wins t.win_prob_numerator t.win_prob_denominator (entropy alloy v t)
        → (now : Option ℕ) → InTime t.expiry now
        → verify_ticket alloy now v t bytes client last ≡ valid_winning
    won lucky now (later, read, soon) = rw read (
        (verify_ticket-winning_iff alloy v t bytes client last (some later) (omega arith)).1
          (acceptable later soon, lucky))

    bench-Reports :
        (nows : List (Option ℕ))
        → All (InTime t.expiry) nows
        → 1 ≤ length nows
        → Reports alloy t v (length nows) (bench alloy t bytes client last nows v).0
    unfolding bench bench_loop
    bench-Reports [] soon some_run = absurd (omega (arith, some_run))
    bench-Reports (now ∷ []) (here, soon) some_run = (
      λ unlucky. rw (lost unlucky now here) refl,
      λ lucky one.
          rw (evaluate_and_gate-winning alloy now v t bytes client last live (won lucky now here))
            refl,
      λ lucky two. absurd (omega (arith, two)),
    )
    bench-Reports (now ∷ next ∷ nows) (here, soon) some_run = (
      λ unlucky.
          rw (bench_loop, lost unlucky now here)
            (bench_loop-losing (next ∷ nows) v live (lost unlucky) soon),
      λ lucky one. absurd (omega (arith, one)),
      λ lucky two.
          ap (λ r. r.0)
            (bench-winning alloy t bytes client last now next nows v live (won lucky now here)),
    )

module _ {Sig : Type 0} (alloy : Alloy Sig) {Key : Type 0} (wallet : Wallet Key)
    (alloy_laws : AlloyLaws alloy) (wallet_laws : WalletLaws wallet alloy)
    (local : Key → B256 → Option LocalSignature) (twin_laws : TwinLaws wallet alloy local)
    (profile : Profile) where
  -- The single-ticket mode, with no option that tampers with the ticket and a nonce in order, where the
  -- local signer signs, the expiry fits a u64, and each iteration is before it: it reports a decision.
  -- If the ticket loses, that is to serve it. If it wins, that is to claim it after one iteration, but
  -- after two or more it is a rejection for the commitment, since the loop does not rotate the seed.
  pub run_single_or_bench_mode-Reports :
      (o : Options) (key : Key) (now : ℕ) (nows : List (Option ℕ))
      → IsUntampered o
      → ((digest : B256) → (signature : LocalSignature) × (local key digest ≡ some signature))
      → now + 86_400 < 2 ^ 64
      → All (InTime (now + 86_400)) nows
      → 1 ≤ length nows
      → let v = verifier alloy wallet local profile o key in
        let m = mode alloy wallet local profile o key in
        let t = bench_content m v.provider_commitment o.nonce (now + 86_400) in
        (decision : GatekeeperDecision) × (run_single_or_bench_mode alloy wallet local profile o key
            (some now)
            nows
          ≡ ok decision)
        × Reports alloy t v (length nows) decision
  unfolding run_single_or_bench_mode bench_ticket bench_nonce bench_expiry bench_signature new
  run_single_or_bench_mode-Reports o key now nows u signs fits soon some_run =
      let v = verifier alloy wallet local profile o key in
      let m = mode alloy wallet local profile o key in
      let t = bench_content m v.provider_commitment o.nonce (now + 86_400) in
      let (signature, made) = signs (alloy.eip712_signing_hash t v.domain) in
      let signed = twin_laws.packs key _ signature made in
      let conf =
        new-IsConfigured alloy (replicate 20 0x11) (replicate 20 0x22) 31_337 (replicate 32 0x42) in
      let kept : t.provider_commitment ≡ v.provider_commitment = rw u.commitment_kept refl in
      let reports =
        bench-Reports alloy t (as_bytes signature) (wallet.address key) o.last_nonce v refl u.below
          (λ later fresh.
            sign_hash-Acceptable wallet alloy alloy_laws wallet_laws v t key (as_bytes signature)
              o.last_nonce later conf u.in_order u.below kept fresh signed)
          nows soon some_run in
      (
        (bench alloy t (as_bytes signature) (wallet.address key) o.last_nonce nows v).0,
        rw
            (
              u.nonce_kept,
              u.unexpired,
              add_u64-small profile now 86_400 fits,
              made,
              u.low_s,
              u.signature_kept,
            )
            refl,
        reports,
      )
