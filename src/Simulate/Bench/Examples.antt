-- ===== src/Simulate/Bench/Examples.antt =====
-- The single-ticket mode with a toy local signer, in two iterations.
use spmp.Prelude.{◌+◌, ◌≡◌, refl, arith, some, [], ◌∷◌}
use spmp.Results.{ok, debug}
use spmp.Types.{GatekeeperDecision}
use spmp.Simulate.Options.{defaults}
use spmp.Simulate.Bench.{bench_content}
use spmp.Simulate.Bench.Single.{
  verifier, mode, run_single_or_bench_mode, Reports, run_single_or_bench_mode-Reports,
}
use spmp.Fixtures.LocalSigner.{
  low_signature, low_alloy, low_laws, low_wallet, local, low_wallet_laws, local_laws,
}

run_single_or_bench_mode-Reports_example :
    let v = verifier low_alloy low_wallet local debug defaults 1 in
    let m = mode low_alloy low_wallet local debug defaults 1 in
    let t = bench_content m v.provider_commitment 1 (900 + 86_400) in
    (decision : GatekeeperDecision) × (run_single_or_bench_mode low_alloy low_wallet local debug
        defaults 1
        (some 900)
        (some 950 ∷ some 960 ∷ [])
      ≡ ok decision)
    × Reports low_alloy t v 2 decision
run_single_or_bench_mode-Reports_example =
    run_single_or_bench_mode-Reports low_alloy low_wallet low_laws low_wallet_laws local local_laws
      debug defaults 1 900 (some 950 ∷ some 960 ∷ [])
      (record {
        signature_kept = refl;
        low_s = refl;
        nonce_kept = refl;
        commitment_kept = refl;
        unexpired = refl;
        in_order = refl;
        below = omega arith;
      })
      (λ digest. (low_signature, refl)) (omega arith)
      ((950, refl, omega arith), ((960, refl, omega arith), tt)) (omega arith)
