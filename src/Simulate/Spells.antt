-- ===== src/Simulate/Spells.antt =====
-- The dry spells of a run of outcomes.
use spmp.Prelude.{
  ℕ, zero, suc, ◌+◌, ◌≤◌, ◌≡◌, ◌⊎◌, inl, inr, ◌∙◌, sym, ap, refl, arith, Bool, true, false,
  if◌then◌else◌, ltb, Bool-cases, List, [], ◌∷◌, ◌++◌, length, replicate, length-append,
}
use spmp.Simulate.{Audit, track_dry_spell}
use mathlib.Core.List.{append_assoc}

-- `k` losses one after the other.
abbrev pub Spell : ℕ → List Bool → Type 0
Spell k ws =
    (before : List Bool) × (after : List Bool) × (ws ≡ before ++ (replicate k false ++ after))

-- The longest spell.
abbrev pub IsLongest : ℕ → List Bool → Type 0
IsLongest m ws = Spell m ws × ((k : ℕ) → Spell k ws → k ≤ m)

-- The two counters over a run.
abbrev pub counters : List Bool → ℕ × ℕ → ℕ × ℕ
counters [] st = st
counters (true ∷ ws) (spell, most) = counters ws (0, most)
counters (false ∷ ws) (spell, most) =
    counters ws (suc spell, if ltb most (suc spell) then suc spell else most)

replicate-snoc :
    (c : ℕ) (ws : List Bool) → replicate c false ++ (false ∷ ws) ≡ replicate (suc c) false ++ ws
replicate-snoc zero ws = refl
replicate-snoc (suc c) ws = ap (λ xs. false ∷ xs) (replicate-snoc c ws)

-- Losses at the front of a list that has `c` of them before a win.
front-le :
    (k c : ℕ) (after ws : List Bool)
    → replicate c false ++ (true ∷ ws) ≡ replicate k false ++ after
    → k ≤ c
front-le zero c after ws e = omega arith
front-le (suc k) zero after ws e = absurd (cc)
front-le (suc k) (suc c) after ws e =
    let tails : replicate c false ++ (true ∷ ws) ≡ replicate k false ++ after = cc in
    omega (arith, front-le k c after ws tails)

-- A spell lies in the losses before a win or behind it.
split-Spell :
    (k c : ℕ) (ws : List Bool) → Spell k (replicate c false ++ (true ∷ ws)) → (k ≤ c) ⊎ Spell k ws
split-Spell k c ws ([], after, e) = inl (front-le k c after ws e)
split-Spell k zero ws (x ∷ before, after, e) = inr (before, after, cc)
split-Spell k (suc c) ws (x ∷ before, after, e) = elim (split-Spell k c ws (before, after, cc)) [
  | inl h ↦ inl (omega arith)
  | inr s ↦ inr s
]

length-replicate : (k : ℕ) → length (replicate k false) ≡ k
length-replicate zero = refl
length-replicate (suc k) = ap suc (length-replicate k)

whole-Spell : (k c : ℕ) → Spell k (replicate c false ++ []) → k ≤ c
whole-Spell k c (before, after, e) = omega (
  arith,
  ap length e,
  length-append (replicate c false) [],
  length-append before (replicate k false ++ after),
  length-append (replicate k false) after,
  length-replicate k,
  length-replicate c,
)

later-Spell : (m c : ℕ) (ws : List Bool) → Spell m ws → Spell m (replicate c false ++ (true ∷ ws))
later-Spell m c ws (before, after, e) = (
  replicate c false ++ (true ∷ before),
  after,
  ap (λ xs. replicate c false ++ (true ∷ xs)) e
      ∙ sym (append_assoc (replicate c false) (true ∷ before) (replicate m false ++ after)),
)

-- What a run makes of the greatest spell so far, where the run goes on from `c` losses.
abbrev Grows : ℕ → ℕ → List Bool → ℕ → Type 0
Grows c m ws m' =
    ((m' ≡ m) ⊎ Spell m' (replicate c false ++ ws))
    × (m ≤ m')
    × ((k : ℕ) → Spell k (replicate c false ++ ws) → k ≤ m')

loss-Grows :
    (c m m₁ : ℕ) (ws : List Bool) (m' : ℕ)
    → (m₁ ≡ m) ⊎ (m₁ ≡ suc c)
    → m ≤ m₁
    → Grows (suc c) m₁ ws m'
    → Grows c m (false ∷ ws) m'
loss-Grows c m m₁ ws m' from h (attained, grown, most) = rw (replicate-snoc c ws) (
  elim attained [
    | inl e ↦ elim from [ inl e₁ ↦ inl (e ∙ e₁) | inr e₁ ↦ inr (rw (e, e₁) ([], ws, refl)) ]
    | inr s ↦ inr s
  ],
  omega arith,
  most,
)

counters-Grows : (ws : List Bool) (c m : ℕ) → c ≤ m → Grows c m ws (counters ws (c, m)).1
counters-Grows [] c m h = (inl refl, omega arith, λ k s. omega (arith, whole-Spell k c s))
counters-Grows (true ∷ ws) c m h =
    let (attained, grown, most) = counters-Grows ws 0 m (omega arith) in
    let m' = (counters ws (0, m)).1 in
    (
      elim attained [ inl e ↦ inl e | inr s ↦ inr (later-Spell m' c ws s) ],
      grown,
      λ k s. elim (split-Spell k c ws s) [ inl l ↦ omega arith | inr s' ↦ most k s' ],
    )
counters-Grows (false ∷ ws) c m h = elim (Bool-cases (ltb m (suc c))) [
  | inl more ↦
      rw (more, counters)
        (loss-Grows c m (suc c) ws _ (inr refl) (ground arith)
          (counters-Grows ws (suc c) (suc c) (omega arith)))
  | inr less ↦
      rw (less, counters)
        (loss-Grows c m m ws _ (inl refl) (omega arith)
          (counters-Grows ws (suc c) m (ground arith)))
]

-- From nothing, the greatest spell that the counters find is the longest one.
pub counters-IsLongest :
    (m spell most : ℕ) (ws : List Bool)
    → m ≡ (counters ws (spell, most)).1
    → spell ≡ 0
    → most ≡ 0
    → IsLongest m ws
counters-IsLongest m spell most ws found no_spell no_most =
    let (attained, _, longest) = counters-Grows ws 0 0 (omega arith) in
    rw (found, no_spell, no_most)
      (elim attained [ inl e ↦ rw e ([], ws, refl) | inr s ↦ s ], longest)

pub counters-after :
    (w : Bool) (ws : List Bool) (a : Audit)
    → (counters ws ((track_dry_spell w a).current_dry_spell, (track_dry_spell w a).max_dry_spell)).1
      ≡ (counters (w ∷ ws) (a.current_dry_spell, a.max_dry_spell)).1
unfolding track_dry_spell
counters-after true ws a = refl
counters-after false ws a =
    let next : a.current_dry_spell + 1 ≡ suc a.current_dry_spell = omega arith in
    ap (λ n. (counters ws (n, if ltb a.max_dry_spell n then n else a.max_dry_spell)).1) next
