-- ===== src/Simulate/Bench.antt =====
-- The single-ticket mode of provider-daemon/src/bin/simulate.rs, `run_single_or_bench_mode`: its ticket
-- and its loop. The bytes of the signature, tampered with or not, are an argument.
pub mod Tampered
pub mod Signature
pub mod Single
mod Examples
use spmp.Prelude.{ℕ, Bool, if◌then◌else◌, Option, List, [], ◌∷◌, Bytes, replicate}
use spmp.Results.{Result, ok, Profile, add_u64, ◌>>=◌}
use spmp.Types.{B256, Address, Ticket, GatekeeperDecision, reject, invalid_nonce}
use spmp.Alloy.{Alloy}
use spmp.Verifier.{TicketVerifier, evaluate_and_gate}
use spmp.Simulate.{sub_usize}

-- The arguments that go into the ticket, with the channel and the provider's address.
pub record BenchMode : Type 0 where
  pub num : ℕ
  pub denom : ℕ
  pub face_value : ℕ
  pub nonce : ℕ
  pub last_nonce : ℕ
  pub tamper_nonce : Bool
  pub tamper_commitment : Bool
  pub expired : Bool
  pub channel_id : B256
  pub provider_addr : Address

unfoldable pub bench_nonce : Profile → BenchMode → Result ℕ
bench_nonce profile mode =
    if mode.tamper_nonce then add_u64 profile mode.last_nonce 99 else ok mode.nonce

unfoldable pub bench_expiry : Profile → BenchMode → ℕ → Result ℕ
bench_expiry profile mode now =
    if mode.expired then sub_usize profile now 3_600 else add_u64 profile now 86_400

abbrev pub bench_content : BenchMode → B256 → ℕ → ℕ → Ticket
bench_content mode provider_commitment nonce expiry_ts = record {
  channel_id = mode.channel_id;
  provider = mode.provider_addr;
  nonce = nonce;
  face_value = mode.face_value;
  win_prob_numerator = mode.num;
  win_prob_denominator = mode.denom;
  expiry = expiry_ts;
  client_seed = replicate 32 0x99;
  provider_commitment = if mode.tamper_commitment then replicate 32 0xDE else provider_commitment;
}

-- The ticket for the provider's commitment, at a reading of the clock.
unfoldable pub bench_ticket : Profile → BenchMode → B256 → ℕ → Result Ticket
bench_ticket profile mode provider_commitment now = do
  nonce ← bench_nonce profile mode
  expiry_ts ← bench_expiry profile mode now
  ok (bench_content mode provider_commitment nonce expiry_ts)

module _ {Sig : Type 0} (alloy : Alloy Sig) (ticket : Ticket) (sig_bytes : Bytes)
    (client_addr : Address) (last_nonce : ℕ) where
  -- `for _ in 0..iterations`, with the clock's reading in each iteration.
  unfoldable pub bench_loop :
      List (Option ℕ) → GatekeeperDecision × TicketVerifier → GatekeeperDecision × TicketVerifier
  bench_loop [] st = st
  bench_loop (now ∷ nows) (last_decision, verifier) =
      bench_loop nows (evaluate_and_gate alloy now verifier ticket sig_bytes client_addr last_nonce)

  -- The loop with what goes before it.
  unfoldable pub bench : List (Option ℕ) → TicketVerifier → GatekeeperDecision × TicketVerifier
  bench nows verifier = bench_loop nows (reject invalid_nonce, verifier)
