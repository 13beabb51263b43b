-- ===== src/Simulate/Governor.antt =====
-- The governor against its description: a session ends when two of its last 50 tickets won.
use spmp.Prelude.{
  ℕ, ◌+◌, ◌≡◌, ◌∙◌, ap, refl, Bool, true, false, if◌then◌else◌, leb, Bool-cases, inl, inr, List, [],
  ◌∷◌, ◌++◌,
}
use spmp.Results.{ok, Profile, ◌>>=◌}
use spmp.Simulate.{Audit, track_dry_spell, check_governor, track}
use spmp.Simulate.Window.{last, wins, Shows, with_window, slide_window-Shows}

-- The description: the outcomes of the current session, and how many sessions were ended.
abbrev pub after_outcome : Bool → List Bool × ℕ → List Bool × ℕ
after_outcome w (session, ended) =
    let longer = session ++ (w ∷ []) in
    if leb 2 (wins (last 50 longer)) then ([], ended + 1) else (longer, ended)

abbrev pub sessions : List Bool → List Bool × ℕ → List Bool × ℕ
sessions [] st = st
sessions (w ∷ ws) st = sessions ws (after_outcome w st)

-- An audit in the state of the description.
abbrev pub Governed : List Bool × ℕ → Audit → Type 0
Governed (session, ended) a =
    Shows session a × (a.governor_triggers ≡ ended) × (a.governor_triggered_sessions ≡ ended)

track_dry_spell-Governed :
    (w : Bool) (st : List Bool × ℕ) (a : Audit) → Governed st a → Governed st (track_dry_spell w a)
unfolding track_dry_spell
track_dry_spell-Governed true st a g = g
track_dry_spell-Governed false st a g = g

check_governor-Governed :
    (w : Bool) (session : List Bool) (ended : ℕ) (a : Audit)
    → a.governor_triggers ≡ ended
    → a.governor_triggered_sessions ≡ ended
    → Governed
        (after_outcome w (session, ended))
        (check_governor (with_window (last 50 (session ++ (w ∷ []))) a))
unfolding check_governor
check_governor-Governed w session ended a e₁ e₂ =
    elim (Bool-cases (leb 2 (wins (last 50 (session ++ (w ∷ [])))))) [
      | inl trip ↦ rw trip ((refl, refl), ap (λ n. n + 1) e₁, ap (λ n. n + 1) e₂)
      | inr calm ↦ rw calm ((refl, refl), e₁, e₂)
    ]

-- What a ticket's outcome leaves alone: the verifier and the two totals.
abbrev pub SameTotals : Audit → Audit → Type 0
SameTotals a b =
    (b.verifier ≡ a.verifier) × (b.total_wins ≡ a.total_wins) × (b.total_losses ≡ a.total_losses)

track_dry_spell-SameTotals : (w : Bool) (a : Audit) → SameTotals a (track_dry_spell w a)
unfolding track_dry_spell
track_dry_spell-SameTotals true a = (refl, refl, refl)
track_dry_spell-SameTotals false a = (refl, refl, refl)

check_governor-SameTotals : (a : Audit) → SameTotals a (check_governor a)
unfolding check_governor
check_governor-SameTotals a = elim (Bool-cases (leb 2 a.window_wins)) [
  | inl trip ↦ rw trip (refl, refl, refl)
  | inr calm ↦ rw calm (refl, refl, refl)
]

track-SameTotals :
    (w : Bool) (window : List Bool) (a : Audit)
    → SameTotals a (check_governor (with_window window (track_dry_spell w a)))
track-SameTotals w window a =
    let (v, x, y) = check_governor-SameTotals (with_window window (track_dry_spell w a)) in
    let (v', x', y') = track_dry_spell-SameTotals w a in (v ∙ v', x ∙ x', y ∙ y')

-- The window and the governor leave the dry spells alone.
abbrev pub SameSpells : Audit → Audit → Type 0
SameSpells a b = (b.current_dry_spell ≡ a.current_dry_spell) × (b.max_dry_spell ≡ a.max_dry_spell)

check_governor-SameSpells : (a : Audit) → SameSpells a (check_governor a)
unfolding check_governor
check_governor-SameSpells a = elim (Bool-cases (leb 2 a.window_wins)) [
  | inl trip ↦ rw trip (refl, refl)
  | inr calm ↦ rw calm (refl, refl)
]

-- One ticket takes the audit to the next state of the description, and does not fail.
pub track-Governed :
    (profile : Profile) (w : Bool) (st : List Bool × ℕ) (a : Audit)
    → Governed st a
    → (b : Audit) × (track profile w a ≡ ok b)
      × Governed (after_outcome w st) b
      × SameTotals a b
      × SameSpells (track_dry_spell w a) b
unfolding track
track-Governed profile w (session, ended) a g =
    let ((ew, en), e₁, e₂) = track_dry_spell-Governed w (session, ended) a g in
    (
      check_governor (with_window (last 50 (session ++ (w ∷ []))) (track_dry_spell w a)),
      ap (λ r. r >>= λ b. ok (check_governor b))
          (slide_window-Shows profile session w (track_dry_spell w a) (ew, en)),
      check_governor-Governed w session ended (track_dry_spell w a) e₁ e₂,
      track-SameTotals w (last 50 (session ++ (w ∷ []))) a,
      check_governor-SameSpells (with_window (last 50 (session ++ (w ∷ []))) (track_dry_spell w a)),
    )
