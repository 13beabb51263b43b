-- ===== src/Suite/Fuzz.antt =====
-- provider-daemon/src/verifier.rs, `mod tests`: the two properties under `proptest!`, as functions of
-- the values that proptest draws.
use spmp.Prelude.{
  ℕ, ◌*◌, ◌/◌, ◌≡◌, refl, ◌==◌, ◌||◌, not, leb, Option, Bytes, replicate, if◌then◌else◌, Bool-cases,
  inl, inr,
}
use spmp.Prelude.Words.{u64_max, u256_max, wrapping_add}
use spmp.Results.{Result, ok}
use spmp.Types.{B256, Address, invalid_nonce}
use spmp.Alloy.{Alloy}
use spmp.Verifier.{verify_ticket, win_target}
use spmp.Suite.{assert}
use spmp.Suite.Gatekeeper.{verdict_eq, b256_zero, ticket_for, setup_verifier}

-- What the first property draws.
pub record Drawn : Type 0 where
  pub sig_bytes : Bytes
  pub nonce : ℕ
  pub last_nonce : ℕ
  pub face_value : ℕ
  pub num : ℕ
  pub denom : ℕ
  pub expiry : ℕ
  pub client_seed : B256
  pub provider_commitment : B256
  pub client_addr : Address

module _ {Sig : Type 0} (alloy : Alloy Sig) where
  unfoldable fuzz_arbitrary_signature_bytes_never_panics : Drawn → Option ℕ → Result (Unit {0})
  fuzz_arbitrary_signature_bytes_never_panics d clock =
      let verifier = setup_verifier alloy (replicate 32 0x77) in
      let ticket =
        ticket_for b256_zero d.nonce d.face_value d.num d.denom d.expiry d.client_seed
          d.provider_commitment verifier in
      let verdict =
        verify_ticket alloy clock verifier ticket d.sig_bytes d.client_addr d.last_nonce in
      if not (d.nonce == wrapping_add d.last_nonce 1) || d.last_nonce == u64_max
      then assert (verdict_eq verdict invalid_nonce)
      else ok tt

  -- The first property holds of all values that it can draw and more.
  fuzz_arbitrary_signature_bytes_never_panics-passes :
      (d : Drawn) (clock : Option ℕ) → fuzz_arbitrary_signature_bytes_never_panics d clock ≡ ok tt
  unfolding fuzz_arbitrary_signature_bytes_never_panics verify_ticket
  fuzz_arbitrary_signature_bytes_never_panics-passes d clock =
      elim (Bool-cases (not (d.nonce == wrapping_add d.last_nonce 1) || d.last_nonce == u64_max)) [
        | inl refused ↦ rw refused
        | inr passed ↦ rw passed
      ]

-- The target as the second property computes it.
unfoldable fuzz_target : ℕ → ℕ → ℕ
fuzz_target num denom =
    if denom == 0 || num == 0
    then 0
    else if leb denom num
    then u256_max
    else (u256_max / denom) * num

unfoldable fuzz_odds_mathematical_stability : ℕ → ℕ → Result (Unit {0})
fuzz_odds_mathematical_stability num denom =
    let target = fuzz_target num denom in
    if denom == 0 || num == 0
    then assert (target == 0)
    else if leb denom num
    then assert (target == u256_max)
    else ok tt

-- The second property holds for all odds, and its target is that of the gatekeeper.
fuzz_odds_mathematical_stability-passes :
    (num denom : ℕ)
    → (fuzz_odds_mathematical_stability num denom ≡ ok tt)
      × (fuzz_target num denom ≡ win_target num denom)
unfolding fuzz_odds_mathematical_stability fuzz_target win_target
fuzz_odds_mathematical_stability-passes num denom = elim (Bool-cases (denom == 0 || num == 0)) [
  | inl degenerate ↦ (rw degenerate, refl)
  | inr proper ↦ elim (Bool-cases (leb denom num)) [
    | inl sure ↦ (rw (proper, sure), refl)
    | inr share ↦ (rw (proper, share), refl)
  ]
]
