-- ===== src/Suite/Variance/Spelled.antt =====
-- When the run in search of dry spells passes.
use spmp.Prelude.{ℕ, ◌+◌, ◌^◌, ◌≤◌, ◌<◌, ◌≡◌, ◌≢◌, some, ltb, if◌then◌else◌}
use spmp.Alloy.{Alloy}
use spmp.Simulate.Outcomes.{Outcomes}
use spmp.Simulate.Window.{wins}
use spmp.Simulate.{Round}
use spmp.Suite.Variance.{Spells}

-- The clock can be read, and when the ticket is verified it has not moved on by an hour or more.
abbrev pub WithinHour : Round → Type 0
WithinHour round =
    (now : ℕ) × (later : ℕ) × (round.now ≡ some now)
    × (round.gate_now ≡ some later)
    × (now + 3_600 < 2 ^ 64)
    × (later < now + 3_600)

-- After `n` passes: no spell is longer than the run, and with a win in it each is shorter.
abbrev Spelled : ℕ → Spells → Type 0
Spelled n st =
    (st.current_dry_spell ≤ n)
    × (st.max_dry_spell ≤ n)
    × (st.wins ≢ 0 → (st.current_dry_spell < n) × (st.max_dry_spell < n))

-- The counters after a loss.
abbrev longer : Spells → Spells
longer st =
    let current = st.current_dry_spell + 1 in
    record st {
      current_dry_spell = current;
      max_dry_spell = if ltb st.max_dry_spell current then current else st.max_dry_spell;
    }
