-- ===== src/Results.antt =====
-- How a call ends: a value, an error (in the contract a revert), a panic of the task, or a wait that
-- nothing ends. `Error` has a constructor for each error that the modelled code can return.
pub mod Inversion
use spmp.Prelude.{
  ℕ, zero, suc, ◌==◌, ◌+◌, ◌^◌, ◌≤◌, ◌≡◌, Bool, true, false, Option, none, some, List,
}
use spmp.Prelude.{
  ◌<◌, ap, arith, Bytes, leb, ltb, if◌then◌else◌, length, take, drop, le→leb, ◌-◌, ◌%◌,
}

pub data Error : Type 0 where
  -- tokio's io errors
  unexpected_eof io_failure : Error
  -- provider-daemon/src/types.rs
  unknown_msg_type : ℕ → Error
  bad_ticket_abi : Error
  -- provider-daemon/src/transport.rs
  handshake_write_timed_out handshake_read_timed_out closed_before_ack : Error
  expected_handshake_ack malformed_ack : Error
  frame_too_short invalid_magic expected_ticket_request : Error
  ticket_frame_too_short ticket_frame_truncated prompt_truncated : Error
  frame_too_large : ℕ → Error
  -- client-daemon/src/transport.rs
  not_connected expected_handshake_init unexpected_response : Error
  bad_slice response_too_small incomplete_payload empty_payload invalid_utf8 : Error
  -- provider-daemon/src/worker.rs: reqwest's errors
  request_failed : Error
  -- client-daemon/src/crypto.rs and provider-daemon/src/settlement.rs
  bad_private_key clock_before_epoch signing_failed : Error
  -- contracts/SPMPEscrow.sol: its errors, its `require`s, and what reverts below it
  invalid_channel channel_already_exists insufficient_escrow ticket_expired : Error
  ticket_already_claimed invalid_ticket_signer invalid_provider_seed non_winning_ticket : Error
  close_already_requested close_not_requested withdrawal_locked unauthorized : Error
  invalid_provider_address amount_must_be_positive : Error
  transfer_failed payout_transfer_failed refund_transfer_failed : Error
  token_reverted ecdsa_reverted arithmetic_overflow division_by_zero : Error

pub data Result {ℓ} (A : Type ℓ) : Type ℓ where
  ok : A → Result A
  err : Error → Result A
  panic : Result A
  -- the task waits for its peer for ever
  waits : Result A

infixl 5 ◌>>=◌ ◌>>◌
abbrev pub ◌>>=◌ {ℓ κ} : {A : Type ℓ} {B : Type κ} → Result A → (A → Result B) → Result B
ok a >>= f = f a
err e >>= f = err e
panic >>= f = panic
waits >>= f = waits

abbrev pub ◌>>◌ {ℓ} : {B : Type ℓ} → Result (Unit {0}) → Result B → Result B
m >> k = m >>= λ _. k

-- `if test { bail!(e) }`
abbrev pub bail_if : Bool → Error → Result (Unit {0})
bail_if true e = err e
bail_if false e = ok tt

-- `.ok_or_else(|| e)?`, and `.map_err(|_| e)?` on a call that answers with an option here
abbrev pub ok_or {ℓ} : {A : Type ℓ} → Option A → Error → Result A
ok_or none e = err e
ok_or (some a) e = ok a

-- `.unwrap()`
abbrev pub unwrap {ℓ} : {A : Type ℓ} → Option A → Result A
unwrap none = panic
unwrap (some a) = ok a

-- A value, or an error, and neither a panic nor an endless wait.
abbrev pub Returns {ℓ} : {A : Type ℓ} → Result A → Type 0
Returns (ok a) = Unit
Returns (err e) = Unit
Returns panic = ⊥
Returns waits = ⊥

module _ {ℓ} {A : Type ℓ} where
  -- `xs.split_at(n)`, which panics past the end.
  abbrev pub split_at : ℕ → List A → Result (List A × List A)
  split_at n xs = if leb n (length xs) then ok (take n xs, drop n xs) else panic

  -- `&xs[i..j]`
  abbrev pub slice : ℕ → ℕ → List A → Result (List A)
  slice i j xs =
      if leb i j then if leb j (length xs) then ok (take (j - i) (drop i xs)) else panic else panic

  -- `&xs[i..]`
  abbrev pub slice_from : ℕ → List A → Result (List A)
  slice_from i xs = if leb i (length xs) then ok (drop i xs) else panic

-- `xs[i]`
abbrev pub index {ℓ} : {A : Type ℓ} → ℕ → List A → Result A
index i List.[] = panic
index zero (List.◌∷◌ x xs) = ok x
index (suc i) (List.◌∷◌ x xs) = index i xs

-- `B256::from_slice` and `Address::from_slice`, which panic at another length than theirs.
abbrev pub from_slice : ℕ → Bytes → Result Bytes
from_slice n xs = if length xs == n then ok xs else panic

pub split_at_ok {ℓ} :
    {A : Type ℓ} (n : ℕ) (xs : List A) → n ≤ length xs → split_at n xs ≡ ok (take n xs, drop n xs)
split_at_ok n xs h = rw (le→leb n (length xs) h)

-- How the daemons were built: `cargo build` traps arithmetic overflow, `cargo build --release` wraps.
pub data Profile : Type 0 where
  debug release : Profile

-- `a + b` on u64.
abbrev pub add_u64 : Profile → ℕ → ℕ → Result ℕ
add_u64 debug a b = if ltb (a + b) (2 ^ 64) then ok (a + b) else panic
add_u64 release a b = ok ((a + b) % 2 ^ 64)

pub add_u64-small :
    (profile : Profile) (a b : ℕ) → a + b < 2 ^ 64 → add_u64 profile a b ≡ ok (a + b)
add_u64-small debug a b h = ground arith
add_u64-small release a b h = ap ok (omega arith)
