-- ===== src/Simulate/Rounds.antt =====
-- The rounds of the audit: none is fatal, and each is counted once.
use spmp.Prelude.{
  All, ℕ, ◌+◌, ◌-◌, ◌≤◌, ◌≡◌, inl, inr, ◌∙◌, refl, arith, Bool, true, false, some, List, [], ◌∷◌,
  Bytes, length,
}
use spmp.Prelude.Words.{u64_max}
use spmp.Results.{add_u64-small, ok, Profile}
use spmp.Types.{B256}
use spmp.Alloy.{Alloy, AlloyLaws}
use spmp.Verifier.{TicketVerifier, rotate_seed}
use spmp.Verifier.ByOdds.{next_verifier, evaluate_and_gate-WinsFor, rotate_seed-invalidated}
use spmp.Simulate.Outcomes.{Outcome, Outcomes}
use spmp.Verifier.Gate.{IsConfigured}
use spmp.Signer.{Wallet}
use spmp.Signer.Acceptance.{WalletLaws}
use spmp.Simulate.{
  track_dry_spell, Audit, Setting, Round, audit_ticket, count_decision, audit_round, audit,
}
use spmp.Simulate.Window.{bit, wins}
use spmp.Simulate.Spells.{IsLongest, counters, counters-IsLongest, counters-after}
use spmp.Simulate.Governor.{SameSpells, Governed, after_outcome, sessions, track-Governed}
use spmp.Simulate.Honest.{Timely, valid_audit_ticket}

module _ {Sig : Type 0} (alloy : Alloy Sig) where
  -- A verifier whose seed can claim and whose derived fields are in order.
  abbrev pub IsLive : TicketVerifier → Type 0
  IsLive v = IsConfigured alloy v × (v.seed_invalidated ≡ false)

  -- What a round does to the audit, if its ticket wins and if it loses.
  abbrev pub Counted : Audit → List Bool × ℕ → Bool → Audit → Type 0
  Counted a st w b =
      IsLive b.verifier
      × Governed (after_outcome w st) b
      × (b.total_wins ≡ a.total_wins + bit w)
      × (b.total_wins + b.total_losses ≡ a.total_wins + a.total_losses + 1)

  pub rotate_seed-IsLive :
      (seed : B256) (v w : TicketVerifier)
      → IsConfigured alloy v
      → w ≡ rotate_seed alloy seed (record v { seed_invalidated = true })
      → IsLive w
  unfolding rotate_seed
  rotate_seed-IsLive seed v w conf e =
      rw e (record { committed = refl; separated = conf.separated }, refl)

module _ {Key : Type 0} (wallet : Wallet Key) {Sig : Type 0} (alloy : Alloy Sig)
    (alloy_laws : AlloyLaws alloy) (wallet_laws : WalletLaws wallet alloy) (profile : Profile)
    (set : Setting Key) (own_address : set.client_addr ≡ wallet.address set.client_signer)
    (signs : (digest : B256)
      → (bytes : Bytes) × (wallet.sign_hash set.client_signer digest ≡ some bytes)) where
  audit_round-Counted :
      (round : Round) (nonce : ℕ) (st : List Bool × ℕ) (a : Audit)
      → Timely round
      → 1 ≤ nonce
      → nonce ≤ u64_max
      → IsLive alloy a.verifier
      → Governed st a
      → (w : Bool) × (b : Audit) × (audit_round alloy wallet profile set round nonce a ≡ ok b)
        × Counted alloy a st w b
        × Outcome alloy (audit_ticket alloy wallet profile set) 86_400 round nonce a.verifier w
        × (b.verifier ≡ next_verifier alloy round.new_seed w a.verifier)
        × SameSpells (track_dry_spell w a) b
  unfolding audit_round count_decision track_dry_spell
  audit_round-Counted round nonce st a (now, later, c₁, c₂, day, soon) h₁ h₂ (conf, fresh) g =
      let expiry = now + 86_400 in
      let t = audit_ticket alloy wallet profile set round nonce expiry a.verifier in
      let (bytes, signed) = signs (alloy.eip712_signing_hash t a.verifier.domain) in
      let valid =
        valid_audit_ticket wallet alloy alloy_laws wallet_laws profile set own_address a.verifier
          round nonce expiry later bytes conf c₂ soon h₁ h₂ signed in
      elim (evaluate_and_gate-WinsFor alloy round.gate_now a.verifier t bytes set.client_addr
        (nonce - 1) (omega arith) fresh valid) [
          | inl (unlucky, e) ↦
              let lost = record a { total_losses = a.total_losses + 1 } in
              let (b, tracked, gb, (v, x, y), spells) = track-Governed profile false st lost g in
              (
                false,
                b,
                rw (c₁, add_u64-small profile now 86_400 (omega arith), signed, e, tracked),
                (rw v (conf, fresh), gb, omega arith, omega arith),
                (now, c₁, (λ f. absurd (cc), λ won. absurd (unlucky won))),
                v,
                spells,
              )
          | inr (lucky, e) ↦
              let won = record a {
                total_wins = a.total_wins + 1;
                verifier =
                    rotate_seed alloy round.new_seed
                      (record a.verifier { seed_invalidated = true });
              } in
              let (b, tracked, gb, (v, x, y), spells) = track-Governed profile true st won g in
              (
                true,
                b,
                rw (c₁, add_u64-small profile now 86_400 (omega arith), signed, e, tracked),
                (
                  rotate_seed-IsLive alloy round.new_seed a.verifier b.verifier conf v,
                  gb,
                  omega arith,
                  omega arith,
                ),
                (now, c₁, (λ _. lucky, λ _. refl)),
                v ∙ rotate_seed-invalidated alloy round.new_seed a.verifier,
                spells,
              )
        ]

  -- All of what the audit comes to, of which the two theorems below are parts.
  audit-Counted :
      (rounds : List Round) (nonce : ℕ) (st : List Bool × ℕ) (a : Audit)
      → All Timely rounds
      → 1 ≤ nonce
      → nonce + length rounds ≤ u64_max + 1
      → IsLive alloy a.verifier
      → Governed st a
      → (ws : List Bool) × (b : Audit) × (audit alloy wallet profile set rounds nonce a ≡ ok b)
        × Outcomes alloy (audit_ticket alloy wallet profile set) 86_400 rounds nonce a.verifier ws
        × Governed (sessions ws st) b
        × (b.total_wins ≡ a.total_wins + wins ws)
        × (b.total_wins + b.total_losses ≡ a.total_wins + a.total_losses + length rounds)
        × (b.max_dry_spell ≡ (counters ws (a.current_dry_spell, a.max_dry_spell)).1)
  unfolding audit
  audit-Counted [] nonce st a timely h₁ h₂ isLive g =
      ([], a, refl, refl, g, omega arith, omega arith, refl)
  audit-Counted (round ∷ rounds) nonce st a (now, timely) h₁ h₂ isLive g =
      let (w, b, e, (liveB, gb, x, y), won, next, (spell, most)) =
        audit_round-Counted round nonce st a now h₁ (omega arith) isLive g in
      let (ws, c, e', drawn, gc, x', y', longest) =
        audit-Counted rounds (nonce + 1) (after_outcome w st) b timely (omega arith) (omega arith)
          liveB gb in
      (
        w ∷ ws,
        c,
        rw e e',
        (won, rw (next) at drawn),
        gc,
        omega arith,
        omega arith,
        longest ∙ rw (spell, most) (counters-after w ws a),
      )

  -- The audit from a live verifier on, with rounds in which the clock can be read and does not
  -- move on by a day, for nonces and expiries within a u64, with a signer that signs and whose
  -- address is the client's; hashing and signing are as alloy documents them. No ticket is
  -- rejected, in a debug build or a release build, so the audit ends. Its wins grow by the number
  -- of tickets that win by their odds, each with the seed that is drawn after the win before it, its
  -- losses by that of the others; and for these outcomes the governor's counters and window are
  -- those of its description.
  pub audit-Governed :
      (rounds : List Round) (nonce : ℕ) (st : List Bool × ℕ) (a : Audit)
      → All Timely rounds
      → 1 ≤ nonce
      → nonce + length rounds ≤ u64_max + 1
      → IsLive alloy a.verifier
      → Governed st a
      → (ws : List Bool) × (b : Audit) × (audit alloy wallet profile set rounds nonce a ≡ ok b)
        × Outcomes alloy (audit_ticket alloy wallet profile set) 86_400 rounds nonce a.verifier ws
        × Governed (sessions ws st) b
        × (b.total_wins ≡ a.total_wins + wins ws)
        × (b.total_wins + b.total_losses ≡ a.total_wins + a.total_losses + length rounds)
  audit-Governed rounds nonce st a timely h₁ h₂ isLive g =
      let (ws, b, e, drawn, gb, x, y, _) = audit-Counted rounds nonce st a timely h₁ h₂ isLive g in
      (ws, b, e, drawn, gb, x, y)

  -- Under the same conditions, and from dry-spell counters at zero: `max_dry_spell` is after the
  -- audit the length of the longest unbroken run of tickets that lose by their odds. There is a run
  -- of that length, and none is longer.
  pub audit-IsLongest :
      (rounds : List Round) (nonce : ℕ) (st : List Bool × ℕ) (a : Audit)
      → All Timely rounds
      → 1 ≤ nonce
      → nonce + length rounds ≤ u64_max + 1
      → IsLive alloy a.verifier
      → Governed st a
      → a.current_dry_spell ≡ 0
      → a.max_dry_spell ≡ 0
      → (ws : List Bool) × (b : Audit) × (audit alloy wallet profile set rounds nonce a ≡ ok b)
        × Outcomes alloy (audit_ticket alloy wallet profile set) 86_400 rounds nonce a.verifier ws
        × IsLongest b.max_dry_spell ws
  audit-IsLongest rounds nonce st a timely h₁ h₂ isLive g no_spell no_most =
      let (ws, b, e, drawn, _, _, _, m) = audit-Counted rounds nonce st a timely h₁ h₂ isLive g in
      (ws, b, e, drawn, counters-IsLongest _ _ _ ws m no_spell no_most)
