-- ===== src/Verifier/Reject.antt =====
-- Why a ticket is rejected: the four reasons, each exactly where it applies.
use spmp.Prelude.{ℕ, ◌+◌, ◌≤◌, ◌<◌, ◌≡◌, ◌↔◌, ◌⊎◌, inl, inr, arith, refl}
use spmp.Prelude.{Bytes, Option, none, some, ◌∙◌, ltb, bytes_eq, bytes_eq_iff, Bool-cases}
use spmp.Prelude.Words.{u64_max}
use spmp.Types.{Address, Ticket, TicketVerdict}
use spmp.Types.{invalid_signature, invalid_commitment, invalid_nonce, expired}
use spmp.Alloy.{Alloy}
use spmp.Verifier.{TicketVerifier, verify_signed, verify_ticket, entropy_verdict}
use spmp.Verifier.Verdict.{
  Unexpired, SignedBy, recovered_iff, guards_skip, IsValidVerdict, verify_signed_iff,
}

abbrev pub InOrder : Ticket → ℕ → Type 0
InOrder t last = (t.nonce ≡ last + 1) × (last < u64_max)

abbrev pub Committed : Ticket → TicketVerifier → Type 0
Committed t v = t.provider_commitment ≡ v.provider_commitment

-- A verdict with the tests that were passed and the one that failed, for any four tests.
data Stage (N C F S : Type 0) (verdict : TicketVerdict) : Type 0 where
  out_of_order : (¬ N) → verdict ≡ invalid_nonce → Stage N C F S verdict
  not_committed : N → (¬ C) → verdict ≡ invalid_commitment → Stage N C F S verdict
  too_late : N → C → (¬ F) → verdict ≡ expired → Stage N C F S verdict
  not_signed : N → C → F → (¬ S) → verdict ≡ invalid_signature → Stage N C F S verdict
  accepted : N → C → F → S → IsValidVerdict verdict → Stage N C F S verdict

abbrev pub FirstFailure : Type 0 → Type 0 → Type 0 → Type 0 → TicketVerdict → Type 0
FirstFailure N C F S verdict =
    ((verdict ≡ invalid_nonce) ↔ (¬ N))
    × ((verdict ≡ invalid_commitment) ↔ (N × (¬ C)))
    × ((verdict ≡ expired) ↔ (N × C × (¬ F)))
    × ((verdict ≡ invalid_signature) ↔ (N × C × F × (¬ S)))

Stage-FirstFailure :
    {N C F S : Type 0} {verdict : TicketVerdict}
    → Stage N C F S verdict
    → FirstFailure N C F S verdict
Stage-FirstFailure (out_of_order n e) = (
  (λ _. n, λ _. e),
  (λ h. cc, λ w. absurd (n w.0)),
  (λ h. cc, λ w. absurd (n w.0)),
  (λ h. cc, λ w. absurd (n w.0)),
)
Stage-FirstFailure (not_committed n c e) = (
  (λ h. cc, λ w. absurd (w n)),
  (λ _. (n, c), λ _. e),
  (λ h. cc, λ w. absurd (c w.1)),
  (λ h. cc, λ w. absurd (c w.1)),
)
Stage-FirstFailure (too_late n c f e) = (
  (λ h. cc, λ w. absurd (w n)),
  (λ h. cc, λ w. absurd (w.1 c)),
  (λ _. (n, c, f), λ _. e),
  (λ h. cc, λ w. absurd (f w.2)),
)
Stage-FirstFailure (not_signed n c f s e) = (
  (λ h. cc, λ w. absurd (w n)),
  (λ h. cc, λ w. absurd (w.1 c)),
  (λ h. cc, λ w. absurd (w.2 f)),
  (λ _. (n, c, f, s), λ _. e),
)
Stage-FirstFailure (accepted n c f s v) = (
  (λ h. ground arith, λ w. absurd (w n)),
  (λ h. ground arith, λ w. absurd (w.1 c)),
  (λ h. ground arith, λ w. absurd (w.2 f)),
  (λ h. ground arith, λ w. absurd (w.3 s)),
)

InOrder-cases : (t : Ticket) (last : ℕ) → InOrder t last ⊎ (¬ InOrder t last)
InOrder-cases t last = ground arith

Committed-cases : (t : Ticket) (v : TicketVerifier) → Committed t v ⊎ (¬ Committed t v)
Committed-cases t v = elim (Bool-cases (bytes_eq t.provider_commitment v.provider_commitment)) [
  | inl e ↦ inl ((bytes_eq_iff _ _).0 e)
  | inr e ↦ inr (λ p. let q = (bytes_eq_iff t.provider_commitment _).1 p in cc)
]

Unexpired-cases : (now : Option ℕ) (t : Ticket) → Unexpired now t ⊎ (¬ Unexpired now t)
Unexpired-cases none t = inr (λ (_, e, _). cc)
Unexpired-cases (some seconds) t = elim (Bool-cases (ltb seconds t.expiry)) [
  | inl e ↦ inl (seconds, refl, ground arith)
  | inr e ↦ inr (λ (n, p, h). ground arith)
]

module _ {Sig : Type 0} (alloy : Alloy Sig) (v : TicketVerifier) (t : Ticket) (bytes : Bytes)
    (client : Address) where
  -- The verdict on the signature is never one of the earlier reasons.
  verify_signed-cases :
      (verify_signed alloy v t bytes client ≡ invalid_signature)
      ⊎ IsValidVerdict (verify_signed alloy v t bytes client)
  unfolding verify_signed entropy_verdict
  verify_signed-cases = ground arith

  verify_signed-SignedBy :
      IsValidVerdict (verify_signed alloy v t bytes client) ↔ SignedBy alloy v t bytes client
  verify_signed-SignedBy =
      let (valid, recovers) = verify_signed_iff alloy v t bytes client in
      let (signed, back) = recovered_iff alloy v t bytes client in
      (λ h. signed (valid h), λ s. recovers (back s))

  module _ (last : ℕ) (u64 : last ≤ u64_max) where
    wrong_nonce :
        (now : Option ℕ)
        → (¬ InOrder t last)
        → verify_ticket alloy now v t bytes client last ≡ invalid_nonce
    unfolding verify_ticket
    wrong_nonce now n = ground arith

    wrong_commitment :
        (now : Option ℕ)
        → InOrder t last
        → (¬ Committed t v)
        → verify_ticket alloy now v t bytes client last ≡ invalid_commitment
    unfolding verify_ticket
    wrong_commitment now n c =
        ground (arith, bytes_eq_iff t.provider_commitment v.provider_commitment)

    late :
        (now : Option ℕ)
        → InOrder t last
        → Committed t v
        → (¬ Unexpired now t)
        → verify_ticket alloy now v t bytes client last ≡ expired
    unfolding verify_ticket
    late none n c f = ground (arith, bytes_eq_iff t.provider_commitment v.provider_commitment)
    late (some seconds) n c f =
        let past : ¬ (seconds < t.expiry) = λ h. f (seconds, refl, h) in
        ground (arith, bytes_eq_iff t.provider_commitment v.provider_commitment)

    -- In time, the stage depends on the signature.
    signature-Stage :
        (now : Option ℕ)
        → InOrder t last
        → Committed t v
        → Unexpired now t
        → Stage
            (InOrder t last)
            (Committed t v)
            (Unexpired now t)
            (SignedBy alloy v t bytes client)
            (verify_ticket alloy now v t bytes client last)
    signature-Stage now n c f =
        let skip = guards_skip alloy v t bytes client last u64 now n.0 n.1 c f in
        elim verify_signed-cases [
          | inl e ↦
              not_signed n c f (λ s. let h = verify_signed-SignedBy.1 s in absurd (ground arith))
                (skip ∙ e)
          | inr e ↦ accepted n c f (verify_signed-SignedBy.0 e) (rw skip e)
        ]

    verify_ticket-Stage :
        (now : Option ℕ)
        → Stage
            (InOrder t last)
            (Committed t v)
            (Unexpired now t)
            (SignedBy alloy v t bytes client)
            (verify_ticket alloy now v t bytes client last)
    verify_ticket-Stage now = elim (InOrder-cases t last) [
      | inr n ↦ out_of_order n (wrong_nonce now n)
      | inl n ↦ elim (Committed-cases t v) [
        | inr c ↦ not_committed n c (wrong_commitment now n c)
        | inl c ↦ elim (Unexpired-cases now t) [
          | inr f ↦ too_late n c f (late now n c f)
          | inl f ↦ signature-Stage now n c f
        ]
      ]
    ]

    -- For a watermark within u64, a ticket is rejected for its nonce exactly when that is not
    -- the watermark plus one, or the watermark is the last u64; for its commitment, exactly when
    -- the nonce is in order and the commitment is not the provider's; as expired, when those two
    -- pass and the clock cannot be read or has reached the expiry; for its signature, when those
    -- three pass and the signature does not check. So the first test that fails gives the
    -- verdict.
    pub verify_ticket-reject_iff :
        (now : Option ℕ)
        → FirstFailure
            (InOrder t last)
            (Committed t v)
            (Unexpired now t)
            (SignedBy alloy v t bytes client)
            (verify_ticket alloy now v t bytes client last)
    verify_ticket-reject_iff now = Stage-FirstFailure (verify_ticket-Stage now)
