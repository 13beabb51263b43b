-- ===== src/Verifier/Win.antt =====
-- When an acceptable ticket wins.
use spmp.Prelude.{ℕ, zero, suc, ◌∙◌, ◌*◌, ◌/◌, ◌≤◌, ◌<◌, ◌≡◌, ◌≢◌, ◌↔◌, ◌⊎◌, inr, arith}
use spmp.Prelude.{Bytes, Option, some, bytes_eq_self}
use spmp.Prelude.Words.{u64_max, u256_max}
use spmp.Types.{Address, Ticket, valid_winning}
use spmp.Alloy.{Alloy}
use spmp.Verifier.{TicketVerifier, win_target, ticket_digest, combined_val, entropy_verdict}
use spmp.Verifier.{recovered, verify_signed, verify_ticket}
use spmp.Verifier.Verdict.{Acceptable, verify_ticket-valid_iff, guards_skip, recovered_iff}
use native.Mathlib.Nat.{div-mul-le_self, mul-le-mul_left}

-- The odds are positive, and they are one or more or the value lies in their share of the range.
abbrev pub Wins : ℕ → ℕ → ℕ → Type 0
Wins num denom value = (num ≢ 0) × (denom ≢ 0) × ((denom ≤ num) ⊎ (value < u256_max / denom * num))

abbrev pub entropy : {Sig : Type 0} → Alloy Sig → TicketVerifier → Ticket → ℕ
entropy alloy v t = combined_val alloy v t (ticket_digest alloy v t)

-- A target that is computed as a share is less than the full range.
pub share_lt : (m num denom : ℕ) → num < denom → 0 < m → m / denom * num < m
share_lt m num denom small pos = go (m / denom) (div-mul-le_self m denom)
  where
    go : (q : ℕ) → q * denom ≤ m → q * num < m
    go zero h = omega arith
    go (suc q) h = omega (arith, mul-le-mul_left q small)

module _ {Sig : Type 0} (alloy : Alloy Sig) (v : TicketVerifier) (t : Ticket) where
  entropy_verdict_iff :
      (entropy_verdict alloy v t (ticket_digest alloy v t) ≡ valid_winning)
      ↔ Wins t.win_prob_numerator t.win_prob_denominator (entropy alloy v t)
  unfolding entropy_verdict win_target
  entropy_verdict_iff =
      let small = share_lt u256_max t.win_prob_numerator t.win_prob_denominator in
      (λ h. (ground arith, ground arith, ground (arith, small)), λ w. ground arith)

  -- With the signature's check passed the verdict is that on the entropy.
  verify_signed-entropy :
      (bytes : Bytes) (client : Address)
      → recovered alloy v t bytes ≡ some client
      → verify_signed alloy v t bytes client ≡ entropy_verdict alloy v t (ticket_digest alloy v t)
  unfolding verify_signed
  verify_signed-entropy bytes client e = ground (arith, bytes_eq_self client)

  -- For a watermark within u64, a ticket gets the winning verdict exactly when it meets all that
  -- a valid verdict needs and it wins: its odds are positive, and either they are one or more or
  -- the combined entropy lies below the share of the 256-bit range that the odds give.
  pub verify_ticket-winning_iff :
      (bytes : Bytes) (client : Address) (last : ℕ) (now : Option ℕ)
      → last ≤ u64_max
      → (verify_ticket alloy now v t bytes client last ≡ valid_winning) ↔ (
          Acceptable alloy now v t bytes client last
          × Wins t.win_prob_numerator t.win_prob_denominator (entropy alloy v t))
  verify_ticket-winning_iff bytes client last now u64 = (
    λ h.
        let accepted = (verify_ticket-valid_iff alloy v t bytes client last u64 now).0 (inr h) in
        (accepted, entropy_verdict_iff.0 (rw (verdict-entropy accepted) at h)),
    λ (accepted, wins). rw (verdict-entropy accepted) (entropy_verdict_iff.1 wins),
  )
    where
      verdict-entropy :
          Acceptable alloy now v t bytes client last
          → verify_ticket alloy now v t bytes client last
            ≡ entropy_verdict alloy v t (ticket_digest alloy v t)
      verdict-entropy (en, hl, ec, fresh, s) =
          guards_skip alloy v t bytes client last u64 now en hl ec fresh
          ∙ verify_signed-entropy bytes client ((recovered_iff alloy v t bytes client).1 s)
