-- ===== src/EscrowTypes.antt =====
-- contracts/SPMPEscrow.sol: the contract's storage, its events, and what a call brings along.
pub mod Storage
use spmp.Prelude.{ℕ, Bytes, replicate, List, Bool, true, false, [], ◌∷◌, ◌||◌, bytes_eq}
use spmp.Prelude.{if◌then◌else◌}
use spmp.Types.{B256, Address}

abbrev pub zero_address : Address
zero_address = replicate 20 0

-- 1 days
abbrev pub withdrawal_delay : ℕ
withdrawal_delay = 86_400

pub record Channel : Type 0 where
  pub client : Address
  pub provider : Address
  pub balance : ℕ
  pub close_requested_at : ℕ

-- What a key that was never written, or was deleted, maps to.
abbrev pub no_channel : Channel
no_channel = record {
  client = zero_address;
  provider = zero_address;
  balance = 0;
  close_requested_at = 0;
}

-- `channels[channelId]`: the first entry of the key counts.
abbrev pub channel_at : B256 → List (B256 × Channel) → Channel
channel_at key [] = no_channel
channel_at key ((k, channel) ∷ rest) = if bytes_eq k key then channel else channel_at key rest

-- `channels[channelId] = channel`
abbrev pub set_channel : B256 → Channel → List (B256 × Channel) → List (B256 × Channel)
set_channel key new [] = (key, new) ∷ []
set_channel key new ((k, channel) ∷ rest) =
    if bytes_eq k key then (k, new) ∷ rest else (k, channel) ∷ set_channel key new rest

-- `nullifiers[nullifier]`, the mapping being the list of the keys that are set.
abbrev pub is_set : B256 → List B256 → Bool
is_set key [] = false
is_set key (k ∷ rest) = bytes_eq k key || is_set key rest

-- The contract's storage, with the state of the token that it calls.
pub record EscrowState (Tok : Type 0) : Type 0 where
  pub channels : List (B256 × Channel)
  pub nullifiers : List B256
  pub token : Tok

pub data Event : Type 0 where
  channel_opened : B256 → Address → Address → ℕ → Event
  channel_topped_up : B256 → ℕ → ℕ → Event
  ticket_claimed : B256 → Address → ℕ → ℕ → B256 → Event
  close_requested : B256 → ℕ → Event
  channel_withdrawn : B256 → Address → ℕ → Event

-- `msg.sender` and `block.timestamp`
pub record Msg : Type 0 where
  pub sender : Address
  pub timestamp : ℕ
