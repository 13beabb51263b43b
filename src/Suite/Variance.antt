-- ===== src/Suite/Variance.antt =====
-- provider-daemon/src/verifier.rs, `mod tests`: the benchmark of the verifier, without its clock, and
-- the run of 1 000 tickets in search of dry spells.
pub mod Spelled
pub mod Timed
use spmp.Prelude.{
  zero, suc, ℕ, ◌+◌, ◌-◌, ◌%◌, ltb, not, ◌==◌, Bool, true, false, Option, List, [], ◌∷◌, Bytes,
  length, replicate, if◌then◌else◌,
}
use spmp.Results.{Result, ok, panic, unwrap, Profile, add_u64, ◌>>=◌, ◌>>◌}
use spmp.Types.{
  B256, Address, Ticket, GatekeeperDecision, serve_losing, claim_and_rotate_winning, reject,
}
use spmp.Alloy.{Alloy}
use spmp.Verifier.{TicketVerifier, rotate_seed, verify_ticket, evaluate_and_gate}
use spmp.Signer.{Wallet}
use spmp.Simulate.{Round}
use spmp.Suite.{assert}
use spmp.Suite.Gatekeeper.{is_valid, b256_zero, ticket_for, signed_by, setup_env}

-- What the run changes.
pub record Spells : Type 0 where
  pub verifier : TicketVerifier
  pub wins : ℕ
  pub current_dry_spell : ℕ
  pub max_dry_spell : ℕ

abbrev pub variance_ticket : Round → ℕ → ℕ → TicketVerifier → Ticket
variance_ticket round nonce expiry verifier =
    ticket_for b256_zero nonce 50_000 1 50 expiry round.client_seed verifier.provider_commitment
      verifier

-- The state before the run.
abbrev pub no_spells : TicketVerifier → Spells
no_spells verifier = record {
  verifier = verifier;
  wins = 0;
  current_dry_spell = 0;
  max_dry_spell = 0;
}

-- The ticket of the benchmark for a nonce, with the commitment and the expiry.
abbrev pub latency_ticket : ℕ → ℕ → TicketVerifier → Ticket
latency_ticket i expiry verifier =
    ticket_for b256_zero i 1_000_000 1 1_000 expiry (replicate 32 (i % 255))
      verifier.provider_commitment verifier

module _ {Sig : Type 0} (alloy : Alloy Sig) where
  -- The `match decision` of the run. A rejection panics.
  abbrev pub count_spell : B256 → GatekeeperDecision → Spells → Result Spells
  count_spell new_seed claim_and_rotate_winning st = ok (record st {
    wins = st.wins + 1;
    current_dry_spell = 0;
    verifier = rotate_seed alloy new_seed st.verifier;
  })
  count_spell new_seed serve_losing st =
      let current = st.current_dry_spell + 1 in
      ok (record st {
        current_dry_spell = current;
        max_dry_spell = if ltb st.max_dry_spell current then current else st.max_dry_spell;
      })
  count_spell new_seed (reject verdict) st = panic

  -- The timed loop, without the timing: ticket `i` is verified against the watermark `i`, at reading
  -- `i` of the clock.
  unfoldable pub verify_each :
      TicketVerifier → Address → (ℕ → Option ℕ) → List (Ticket × Bytes) → ℕ → Result (Unit {0})
  verify_each verifier client_addr clocks [] i = ok tt
  verify_each verifier client_addr clocks ((ticket, sig) ∷ rest) i =
      assert (is_valid (verify_ticket alloy (clocks i) verifier ticket sig client_addr i))
      >> verify_each verifier client_addr clocks rest (i + 1)

module _ {Sig : Type 0} (alloy : Alloy Sig) {Key : Type 0} (wallet : Wallet Key)
    (profile : Profile) where
  -- One pass of `for nonce in 1..=total_trials`.
  unfoldable pub variance_round : Key → Address → Round → ℕ → Spells → Result Spells
  variance_round client_signer client_addr round nonce st = do
    now ← unwrap round.now
    expiry ← add_u64 profile now 3_600
    let ticket = variance_ticket round nonce expiry st.verifier
    sig ← signed_by alloy wallet client_signer ticket st.verifier
    let (decision, verifier) =
        evaluate_and_gate alloy round.gate_now st.verifier ticket sig client_addr (nonce - 1)
    count_spell alloy round.new_seed decision (record st { verifier = verifier })

  unfoldable pub variance_loop : Key → Address → List Round → ℕ → Spells → Result Spells
  variance_loop client_signer client_addr [] nonce st = ok st
  variance_loop client_signer client_addr (round ∷ rounds) nonce st =
      variance_round client_signer client_addr round nonce st >>= λ next.
      variance_loop client_signer client_addr rounds (nonce + 1) next

  -- The run over what its 1 000 passes draw and read.
  unfoldable pub test_dry_spell_and_binomial_variance : Key → List Round → Result (Unit {0})
  test_dry_spell_and_binomial_variance key rounds = do
    let (verifier, client_signer, client_addr, _) = setup_env alloy wallet key
    st ← variance_loop client_signer client_addr rounds 1 (no_spells verifier)
    assert (ltb 0 st.wins)
    assert (ltb st.max_dry_spell 1_000)

  -- The tickets and the signatures of the benchmark, for so many nonces from one on. The clock is
  -- read once, before them. The ten verdicts that warm the verifier up are dropped, and change nothing.
  unfoldable pub latency_tickets : Key → TicketVerifier → ℕ → ℕ → ℕ → Result (List (Ticket × Bytes))
  latency_tickets key verifier now zero i = ok []
  latency_tickets key verifier now (suc n) i = add_u64 profile now 86_400 >>= λ expiry.
      signed_by alloy wallet key (latency_ticket i expiry verifier) verifier >>= λ sig.
      latency_tickets key verifier now n (i + 1) >>= λ rest.
      ok ((latency_ticket i expiry verifier, sig) ∷ rest)

  unfoldable pub test_sub_millisecond_latency_benchmark :
      Key → Option ℕ → (ℕ → Option ℕ) → Result (Unit {0})
  test_sub_millisecond_latency_benchmark key clock clocks = do
    let (verifier, client_signer, client_addr, _) = setup_env alloy wallet key
    now ← unwrap clock
    pairs ← latency_tickets client_signer verifier now 1_000 1
    verify_each alloy verifier client_addr clocks pairs 0
