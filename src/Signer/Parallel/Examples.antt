-- ===== src/Signer/Parallel/Examples.antt =====
-- Two calls in parallel: the second takes its nonce first.
use spmp.Prelude.{ℕ, ◌+◌, ◌≤◌, ◌≡◌, arith, List, [], ◌∷◌, length, refl}
use spmp.Results.{ok, debug}
use spmp.Signer.{Signer}
use spmp.Signer.Parallel.{
  Thread, waiting, numbered, finished, finish, Run, stay, step, take_nonce, sign_it, behind,
}
use spmp.Signer.Parallel.Counting.{occurrences, numbers, ticket_nonces, within}
use spmp.Signer.Parallel.Numbers.{Run-nonces}
use spmp.Signer.Parallel.Tickets.{IsTimely, Run-tickets}
use spmp.Fixtures
use spmp.Fixtures.Wallet.{wallet, signer, call}

abbrev watermark : ℕ → Signer ℕ
watermark n = record signer { nonce_watermark = n }

abbrev ts : List Thread
ts =
    numbered call (ok 2)
    ∷ finished call (ok 1) (finish wallet Fixtures.alloy debug call (watermark 2) (ok 1))
    ∷ []

run : Run wallet Fixtures.alloy debug signer (waiting call ∷ waiting call ∷ []) 3 (watermark 2) ts
run =
    step
      (step (step stay (behind (waiting call) (take_nonce call [])))
        (take_nonce call (numbered call (ok 1) ∷ [])))
      (behind (numbered call (ok 2)) (sign_it call (ok 1) []))

timely : IsTimely call
timely = (900, refl, omega arith, omega arith)

Run-nonces_example :
    (occurrences 1 (numbers ts) ≡ within 0 (0 + 2) 1)
    × (occurrences 1 (ticket_nonces ts) ≤ within 0 (0 + 2) 1)
Run-nonces_example =
    Run-nonces wallet Fixtures.alloy debug signer (call ∷ call ∷ []) 1 (omega arith) run

abbrev all_done : List Thread
all_done =
    finished call (ok 2) (finish wallet Fixtures.alloy debug call (watermark 2) (ok 2))
    ∷ finished call (ok 1) (finish wallet Fixtures.alloy debug call (watermark 2) (ok 1))
    ∷ []

Run-tickets_example :
    (length (ticket_nonces all_done) ≡ 2)
    × ((k : ℕ) → occurrences k (ticket_nonces all_done) ≡ within 0 (0 + 2) k)
    × (2 ≡ 0 + 2)
Run-tickets_example =
    Run-tickets wallet Fixtures.alloy debug signer (call ∷ call ∷ []) (omega arith)
      (λ digest. (5 ∷ [], refl)) (timely, (timely, tt)) (step run (sign_it call (ok 2) (_ ∷ [])))
      (refl, (refl, tt))
