-- ===== src/EscrowTypes/Storage.antt =====
-- The mappings of the escrow contract: what a write changes, and the sum of the channels' balances.
use spmp.Prelude.{ℕ, ◌+◌, ◌≤◌, ◌≡◌, arith, List, false, [], ◌∷◌}
use spmp.Prelude.{bytes_eq, bytes_eq_sound, bytes_eq_self, inl, inr, Bool-cases}
use spmp.Types.{B256}
use spmp.EscrowTypes.{Channel, channel_at, set_channel}

pub channel_at-set_channel :
    (key : B256) (c : Channel) (m : List (B256 × Channel))
    → channel_at key (set_channel key c m) ≡ c
channel_at-set_channel key c [] = rw (bytes_eq_self key)
channel_at-set_channel key c ((k, d) ∷ m) = elim (Bool-cases (bytes_eq k key)) [
  | inl e ↦ rw (e, e)
  | inr e ↦ rw (e, e, channel_at-set_channel key c m)
]

pub channel_at-set_other :
    (key other : B256) (c : Channel) (m : List (B256 × Channel))
    → bytes_eq other key ≡ false
    → channel_at key (set_channel other c m) ≡ channel_at key m
channel_at-set_other key other c [] h = rw h
channel_at-set_other key other c ((k, d) ∷ m) h = elim (Bool-cases (bytes_eq k other)) [
  | inl e ↦ let same : bytes_eq k key ≡ false = rw (bytes_eq_sound k other e) h in rw (e, same)
  | inr e ↦ rw (e, channel_at-set_other key other c m h)
]

-- All that the channels hold together.
abbrev pub total : List (B256 × Channel) → ℕ
total [] = 0
total ((k, c) ∷ m) = c.balance + total m

-- A write changes the total by what it changes in its channel.
pub total-set_channel :
    (key : B256) (c : Channel) (m : List (B256 × Channel))
    → total (set_channel key c m) + (channel_at key m).balance ≡ total m + c.balance
total-set_channel key c [] = omega arith
total-set_channel key c ((k, d) ∷ m) = elim (Bool-cases (bytes_eq k key)) [
  | inl e ↦ rw e (omega arith)
  | inr e ↦ rw e (omega (arith, total-set_channel key c m))
]

pub channel_at-le-total :
    (key : B256) (m : List (B256 × Channel)) → (channel_at key m).balance ≤ total m
channel_at-le-total key [] = omega arith
channel_at-le-total key ((k, d) ∷ m) = elim (Bool-cases (bytes_eq k key)) [
  | inl e ↦ rw e (omega arith)
  | inr e ↦ rw e (omega (arith, channel_at-le-total key m))
]
