-- ===== src/Simulate.antt =====
-- The audit of provider-daemon/src/bin/simulate.rs: `run_variance_and_governor_audit` without its
-- output. Its counters count tickets of one run, whose number is a `usize`, so they do not overflow.
pub mod Spells
pub mod Window
pub mod Governor
pub mod Honest
pub mod Outcomes
pub mod Rounds
pub mod Bench
pub mod Options
mod Examples
use spmp.Prelude.{
  ℕ, ◌+◌, ◌-◌, ◌%◌, ◌^◌, Bool, true, false, if◌then◌else◌, ◌==◌, leb, ltb, Option, none, some, List,
  [], ◌∷◌, ◌++◌, Bytes, length,
}
use spmp.Results.{Result, ok, panic, unwrap, Profile, debug, release, add_u64, ◌>>=◌}
use spmp.Types.{
  B256, Address, Ticket, GatekeeperDecision, serve_losing, claim_and_rotate_winning, reject,
}
use spmp.Alloy.{Alloy}
use spmp.Verifier.{TicketVerifier, rotate_seed, evaluate_and_gate}
use spmp.Signer.{Wallet}

-- What the loop changes.
pub record Audit : Type 0 where
  pub verifier : TicketVerifier
  pub total_wins : ℕ
  pub total_losses : ℕ
  pub current_dry_spell : ℕ
  pub max_dry_spell : ℕ
  pub sliding_window : List Bool
  pub window_wins : ℕ
  pub governor_triggers : ℕ
  pub governor_triggered_sessions : ℕ

-- What it does not change.
pub record Setting (Key : Type 0) : Type 0 where
  pub client_signer : Key
  pub client_addr : Address
  pub channel_id : B256
  pub provider_addr : Address
  pub num : ℕ
  pub denom : ℕ
  pub face_value : ℕ

-- What one round draws and reads: the client's entropy, the clock when the ticket is made and when it
-- is checked, the seed that follows a win.
pub record Round : Type 0 where
  pub client_seed : B256
  pub now : Option ℕ
  pub gate_now : Option ℕ
  pub new_seed : B256

-- `a - b` on usize.
abbrev pub sub_usize : Profile → ℕ → ℕ → Result ℕ
sub_usize debug a b = if ltb a b then panic else ok (a - b)
sub_usize release a b = ok ((a + 2 ^ 64 - b) % 2 ^ 64)

-- Consecutive losses.
unfoldable pub track_dry_spell : Bool → Audit → Audit
track_dry_spell true a = record a { current_dry_spell = 0 }
track_dry_spell false a =
    let spell = a.current_dry_spell + 1 in
    record a {
      current_dry_spell = spell;
      max_dry_spell = if ltb a.max_dry_spell spell then spell else a.max_dry_spell;
    }

-- `sliding_window.len() == 50 && sliding_window.pop_front().unwrap()` and what it guards.
abbrev pub pop_oldest : Profile → List Bool → Audit → Result Audit
pop_oldest profile [] a = panic
pop_oldest profile (true ∷ rest) a = sub_usize profile a.window_wins 1 >>= λ wins.
    ok (record a { sliding_window = rest; window_wins = wins })
pop_oldest profile (false ∷ rest) a = ok (record a { sliding_window = rest })

abbrev pub push_outcome : Bool → Audit → Audit
push_outcome is_win a = record a {
  sliding_window = a.sliding_window ++ (is_win ∷ []);
  window_wins = if is_win then a.window_wins + 1 else a.window_wins;
}

unfoldable pub slide_window : Profile → Bool → Audit → Result Audit
slide_window profile is_win a =
    (if length a.sliding_window == 50 then pop_oldest profile a.sliding_window a else ok a) >>= λ b.
    ok (push_outcome is_win b)

-- The governor ends a session at two wins in the window.
unfoldable pub check_governor : Audit → Audit
check_governor a =
    if leb 2 a.window_wins
    then record a {
      governor_triggers = a.governor_triggers + 1;
      governor_triggered_sessions = a.governor_triggered_sessions + 1;
      sliding_window = [];
      window_wins = 0;
    }
    else a

-- The loop's body behind the decision.
unfoldable pub track : Profile → Bool → Audit → Result Audit
track profile is_win a =
    slide_window profile is_win (track_dry_spell is_win a) >>= λ b. ok (check_governor b)

module _ {Sig : Type 0} (alloy : Alloy Sig) where
  -- The `match decision` of the loop. A rejection is fatal.
  unfoldable pub count_decision : B256 → GatekeeperDecision → Audit → Result (Bool × Audit)
  count_decision new_seed claim_and_rotate_winning a = ok (
    true,
    record a { total_wins = a.total_wins + 1; verifier = rotate_seed alloy new_seed a.verifier },
  )
  count_decision new_seed serve_losing a =
      ok (false, record a { total_losses = a.total_losses + 1 })
  count_decision new_seed (reject verdict) a = panic

  module _ {Key : Type 0} (wallet : Wallet Key) (profile : Profile) (set : Setting Key) where
    abbrev pub audit_ticket : Round → ℕ → ℕ → TicketVerifier → Ticket
    audit_ticket round nonce expiry verifier = record {
      channel_id = set.channel_id;
      provider = set.provider_addr;
      nonce = nonce;
      face_value = set.face_value;
      win_prob_numerator = set.num;
      win_prob_denominator = set.denom;
      expiry = expiry;
      client_seed = round.client_seed;
      provider_commitment = verifier.provider_commitment;
    }

    -- One round of `for nonce in 1..=total_tickets`.
    unfoldable pub audit_round : Round → ℕ → Audit → Result Audit
    audit_round round nonce a = do
      now ← unwrap round.now
      expiry ← add_u64 profile now 86_400
      signature ← unwrap (
          wallet.sign_hash set.client_signer (
            alloy.eip712_signing_hash (audit_ticket round nonce expiry a.verifier)
              a.verifier.domain))
      let (decision, verifier) =
          evaluate_and_gate alloy round.gate_now a.verifier
            (audit_ticket round nonce expiry a.verifier) signature set.client_addr (nonce - 1)
      (is_win, counted) ← count_decision round.new_seed decision (record a { verifier = verifier })
      track profile is_win counted

    -- The loop from a nonce on, one round for each ticket.
    unfoldable pub audit : List Round → ℕ → Audit → Result Audit
    audit [] nonce a = ok a
    audit (round ∷ rounds) nonce a = audit_round round nonce a >>= λ b. audit rounds (nonce + 1) b

-- The state before the loop, over the new verifier.
abbrev pub initial : TicketVerifier → Audit
initial verifier = record {
  verifier = verifier;
  total_wins = 0;
  total_losses = 0;
  current_dry_spell = 0;
  max_dry_spell = 0;
  sliding_window = [];
  window_wins = 0;
  governor_triggers = 0;
  governor_triggered_sessions = 0;
}
