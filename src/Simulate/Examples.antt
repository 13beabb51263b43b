-- ===== src/Simulate/Examples.antt =====
-- The audit's theorems at concrete rounds and outcomes.
use spmp.Prelude.{ℕ, ◌+◌, ◌≡◌, refl, arith, some, List, [], ◌∷◌, Bool}
use spmp.Results.{ok, debug}
use spmp.Fixtures
use spmp.Fixtures.Wallet.{wallet, wallet_laws}
use spmp.Simulate.{Audit, Setting, Round, initial, audit_ticket, audit}
use spmp.Simulate.Outcomes.{Outcomes}
use spmp.Simulate.Window.{wins}
use spmp.Simulate.Governor.{sessions, Governed}
use spmp.Simulate.Rounds.{audit-Governed, audit-IsLongest}
use spmp.Simulate.Spells.{IsLongest}

abbrev set : Setting ℕ
set = record {
  client_signer = 1;
  client_addr = Fixtures.client_address;
  channel_id = Fixtures.session.channel_id;
  provider_addr = Fixtures.verifier.provider_address;
  num = 1;
  denom = 2;
  face_value = 50_000;
}

abbrev round : Round
round = record {
  client_seed = Fixtures.seed;
  now = some 1_000;
  gate_now = some 1_001;
  new_seed = Fixtures.seed;
}

abbrev start : Audit
start = initial Fixtures.verifier

audit-Governed_example :
    (ws : List Bool) × (b : Audit) × (audit Fixtures.alloy wallet debug set
        (round ∷ round ∷ [])
        1
        start
      ≡ ok b)
    × Outcomes Fixtures.alloy
        (audit_ticket Fixtures.alloy wallet debug set)
        86_400
        (round ∷ round ∷ [])
        1
        Fixtures.verifier
        ws
    × Governed (sessions ws ([], 0)) b
    × (b.total_wins ≡ 0 + wins ws)
    × (b.total_wins + b.total_losses ≡ 0 + 0 + 2)
audit-Governed_example =
    audit-Governed wallet Fixtures.alloy Fixtures.laws wallet_laws debug set refl
      (λ digest. (5 ∷ [], refl)) (round ∷ round ∷ []) 1 ([], 0) start
      (
        (1_000, 1_001, refl, refl, omega arith, omega arith),
        ((1_000, 1_001, refl, refl, omega arith, omega arith), tt),
      )
      (omega arith) (omega arith) (record { committed = refl; separated = refl }, refl)
      ((refl, refl), refl, refl)

audit-IsLongest_example :
    (ws : List Bool) × (b : Audit) × (audit Fixtures.alloy wallet debug set
        (round ∷ round ∷ [])
        1
        start
      ≡ ok b)
    × Outcomes Fixtures.alloy
        (audit_ticket Fixtures.alloy wallet debug set)
        86_400
        (round ∷ round ∷ [])
        1
        Fixtures.verifier
        ws
    × IsLongest b.max_dry_spell ws
audit-IsLongest_example =
    audit-IsLongest wallet Fixtures.alloy Fixtures.laws wallet_laws debug set refl
      (λ digest. (5 ∷ [], refl)) (round ∷ round ∷ []) 1 ([], 0) start
      (
        (1_000, 1_001, refl, refl, omega arith, omega arith),
        ((1_000, 1_001, refl, refl, omega arith, omega arith), tt),
      )
      (omega arith) (omega arith) (record { committed = refl; separated = refl }, refl)
      ((refl, refl), refl, refl) refl refl
