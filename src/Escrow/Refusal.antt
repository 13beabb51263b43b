-- ===== src/Escrow/Refusal.antt =====
-- The tickets that the gatekeeper finds winning and the contract never pays.
use spmp.Prelude.{ℕ, ◌+◌, ◌*◌, ◌/◌, ◌^◌, ◌≤◌, ◌<◌, ◌≡◌, ◌≢◌, inl, arith}
use spmp.Prelude.{Option, Bytes}
use spmp.Prelude.Words.{u64_max, u256_max}
use spmp.Types.{B256, Address, Ticket, valid_winning}
use spmp.Results.{ok}
use spmp.Alloy.{Alloy}
use spmp.Prelude.{none, some, sym, ◌∙◌}
use spmp.Types.{secp256k1_n}
use spmp.Escrow.Agreement.{Agrees}
use spmp.Verifier.{TicketVerifier, verify_ticket}
use spmp.Verifier.Verdict.{IsValidVerdict, verify_ticket-valid_iff}
use spmp.Verifier.Win.{verify_ticket-winning_iff}
use spmp.Evm.{Evm, Erc20}
use spmp.EscrowTypes.{EscrowState, Event, Msg}
use spmp.Escrow.{claim_ticket}
use spmp.Escrow.Claims.{claim_ticket-ok_iff}
use native.Mathlib.Nat.{lt-div-mul-add, le-div_iff_mul-le, mul-le-mul_left, mul-le-mul}

more_than_share : (q denom num : ℕ) → denom < num → q * denom + q ≤ q * num
more_than_share q denom num h = omega (arith, mul-le-mul_left q h)

square_fits : (denom : ℕ) → denom < 2 ^ 32 → denom * denom ≤ u256_max
square_fits denom h =
    let square : denom * denom ≤ 2 ^ 32 * 2 ^ 32 =
      mul-le-mul {n₂ = 2 ^ 32} {m₂ = 2 ^ 32} (omega arith) (omega arith) in
    omega arith

-- With odds above one the multiplication overflows.
threshold-above_one :
    (num denom : ℕ) → denom ≢ 0 → denom < 2 ^ 32 → denom < num → 2 ^ 256 ≤ u256_max / denom * num
threshold-above_one num denom pos u32 above =
    let q = u256_max / denom in
    let size : u256_max < q * denom + denom = lt-div-mul-add (omega arith) in
    let large : denom ≤ q = (le-div_iff_mul-le (omega arith)).1 (square_fits denom u32) in
    let over = more_than_share q denom num above in omega arith

module _ {Sig : Type 0} (alloy : Alloy Sig) (evm : Evm) {Tok : Type 0} (token : Erc20 Tok)
    (this : Address) where
  -- A ticket with odds above one: whenever the gatekeeper gives it a valid verdict, for a watermark
  -- within u64, the verdict is that it wins; and no claim of it succeeds, in any state of the
  -- contract and whatever the caller, the signature and the seed. The denominator is a u32 and is
  -- not 0.
  pub claim_ticket-above_one :
      (v : TicketVerifier) (t : Ticket) (bytes : Bytes) (client : Address) (last : ℕ)
      (now : Option ℕ) (msg : Msg) (signature : Bytes) (seed : B256) (s : EscrowState Tok)
      → last ≤ u64_max
      → t.win_prob_denominator ≢ 0
      → t.win_prob_denominator < 2 ^ 32
      → t.win_prob_denominator < t.win_prob_numerator
      → (IsValidVerdict (verify_ticket alloy now v t bytes client last)
          → verify_ticket alloy now v t bytes client last ≡ valid_winning)
        × ¬ (
            (r : EscrowState Tok × Event) × (claim_ticket evm token this msg t signature seed s
              ≡ ok r))
  claim_ticket-above_one v t bytes client last now msg signature seed s u64 pos u32 above = (
    λ valid. (verify_ticket-winning_iff alloy v t bytes client last now u64).1 (
      (verify_ticket-valid_iff alloy v t bytes client last u64 now).0 valid,
      (omega arith, pos, inl (omega arith)),
    ),
    λ (r, h).
        let (claimable, _) = (claim_ticket-ok_iff evm token this msg t signature seed s r).0 h in
        let over = threshold-above_one t.win_prob_numerator t.win_prob_denominator pos u32 above in
        let fits = claimable.verified.in_range in absurd (omega arith),
  )

-- A signature with an s above half of the order claims nothing, though the gatekeeper's half-order
-- constant lets some of them through.
claim_ticket-high_s :
    {Sig : Type 0} (alloy : Alloy Sig) (evm : Evm) (v : TicketVerifier) {Tok : Type 0}
    (token : Erc20 Tok) (this : Address) (msg : Msg) (t : Ticket) (bytes : Bytes) (seed : B256)
    (s : EscrowState Tok) (sig : Sig)
    → Agrees alloy evm v
    → alloy.signature_try_from bytes ≡ some sig
    → secp256k1_n < 2 * alloy.signature_s sig
    → ¬ ((r : EscrowState Tok × Event) × (claim_ticket evm token this msg t bytes seed s ≡ ok r))
claim_ticket-high_s alloy evm v token this msg t bytes seed s sig agrees parsed high (r, h) =
    let (claimable, _) = (claim_ticket-ok_iff evm token this msg t bytes seed s r).0 h in
    let refused = agrees.recover-high bytes sig _ parsed high in
    absurd (nothing _ (sym refused ∙ claimable.verified.signed))
  where
    nothing : (a : Address) → ¬ (none ≡ some a)
    nothing a e = absurd (cc)
