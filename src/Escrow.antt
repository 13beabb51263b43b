-- ===== src/Escrow.antt =====
-- contracts/SPMPEscrow.sol: the contract's calls. A call that reverts is an error, and its state is
-- dropped; else it ends with the new state and the event that it emits. The token is a function of
-- its state here and calls nothing back, so the guard against reentrancy never acts.
pub mod Calls
pub mod Steps
pub mod Solvency
pub mod Verified
pub mod Claims
pub mod Closing
pub mod Exit
pub mod Agreement
pub mod Refusal
pub mod Invocation
pub mod Custody
mod Examples
use spmp.Prelude.{ℕ, zero, ◌+◌, ◌-◌, ◌*◌, ◌/◌, ◌^◌, ◌%◌, ◌==◌, ltb, Bool, true, false, not, Bytes}
use spmp.Prelude.{◌++◌, ◌∷◌, bytes_eq, if◌then◌else◌, replicate, Option}
use spmp.Prelude.Words.{u256_max, u256_from_be_bytes}
use spmp.Prelude.Text.{ascii, be_bytes}
use spmp.Types.{B256, Address, Ticket}
use spmp.Results.{Error, Result, ok, err, ◌>>=◌, ◌>>◌, bail_if, ok_or}
use spmp.Results.{
  invalid_channel, channel_already_exists, insufficient_escrow, ticket_expired,
  ticket_already_claimed, invalid_ticket_signer, invalid_provider_seed, non_winning_ticket,
  close_already_requested, close_not_requested, withdrawal_locked, unauthorized,
  invalid_provider_address, amount_must_be_positive, transfer_failed, payout_transfer_failed,
  refund_transfer_failed, token_reverted, ecdsa_reverted, arithmetic_overflow, division_by_zero,
}
use spmp.Evm.{Evm, Erc20}
use spmp.EscrowTypes.{Channel, EscrowState, Event, Msg, channel_at, set_channel, is_set}
use spmp.EscrowTypes.{zero_address, withdrawal_delay, no_channel}
use spmp.EscrowTypes.{
  channel_opened, channel_topped_up, ticket_claimed, close_requested, channel_withdrawn,
}

-- Checked arithmetic on uint256.
abbrev pub add_u256 : ℕ → ℕ → Result ℕ
add_u256 a b = if ltb (a + b) (2 ^ 256) then ok (a + b) else err arithmetic_overflow

abbrev pub mul_u256 : ℕ → ℕ → Result ℕ
mul_u256 a b = if ltb (a * b) (2 ^ 256) then ok (a * b) else err arithmetic_overflow

abbrev pub div_u256 : ℕ → ℕ → Result ℕ
div_u256 a b = if b == 0 then err division_by_zero else ok (a / b)

-- `require(token.transfer(..), ..)`: the token's answer has to be `true`.
abbrev pub require_paid : {Tok : Type 0} → Error → Option (Bool × Tok) → Result Tok
require_paid e answer = do
  (paid, token) ← ok_or answer token_reverted
  bail_if (not paid) e
  ok token

-- The text whose hash is TICKET_TYPEHASH.
abbrev pub ticket_type : Bytes
ticket_type =
    ascii
      "Ticket(bytes32 channelId,address provider,uint64 nonce,uint128 faceValue,uint32 winProbNumerator,uint32 winProbDenominator,uint64 expiry,bytes32 clientSeed,bytes32 providerCommitment)"

-- `abi.encode` of a number and of an address.
abbrev pub word : ℕ → B256
word n = be_bytes 32 n

abbrev pub address_word : Address → B256
address_word a = replicate 12 0 ++ a

-- `(type(uint256).max / denominator) * numerator`
unfoldable pub threshold : ℕ → ℕ → Result ℕ
threshold num denom = do share ← div_u256 u256_max denom; mul_u256 share num

module _ (evm : Evm) where
  pub get_channel_id : Address → Address → B256
  get_channel_id client provider = evm.keccak256 (client ++ provider)

  -- The hash of the channel and of the ticket's nonce.
  unfoldable pub nullifier_of : Ticket → B256
  nullifier_of ticket = evm.keccak256 (ticket.channel_id ++ be_bytes 8 ticket.nonce)

  unfoldable pub struct_hash : Ticket → B256
  struct_hash ticket = evm.keccak256 (
      evm.keccak256 ticket_type
      ++ ticket.channel_id
      ++ address_word ticket.provider
      ++ word ticket.nonce
      ++ word ticket.face_value
      ++ word ticket.win_prob_numerator
      ++ word ticket.win_prob_denominator
      ++ word ticket.expiry
      ++ ticket.client_seed
      ++ ticket.provider_commitment)

  -- The number that the threshold is compared with.
  unfoldable pub combined_hash : Ticket → B256 → B256 → ℕ
  combined_hash ticket digest provider_seed =
      u256_from_be_bytes (evm.keccak256 (digest ++ ticket.client_seed ++ provider_seed))

  -- Steps 2 to 4 of `claimTicket`: the commitment, the signer and the odds.
  unfoldable pub verify_claim : Channel → Ticket → Bytes → B256 → Result (Unit {0})
  verify_claim channel ticket signature provider_seed = do
    bail_if (not (bytes_eq (evm.keccak256 provider_seed) ticket.provider_commitment))
        invalid_provider_seed
    let digest = evm.hash_typed_data_v4 (struct_hash ticket)
    signer ← ok_or (evm.recover digest signature) ecdsa_reverted
    bail_if (not (bytes_eq signer channel.client)) invalid_ticket_signer
    target ← threshold ticket.win_prob_numerator ticket.win_prob_denominator
    bail_if (not (ltb (combined_hash ticket digest provider_seed) target)) non_winning_ticket

  module _ {Tok : Type 0} (token : Erc20 Tok) (this : Address) where
    unfoldable pub open_channel :
        Msg → Address → ℕ → EscrowState Tok → Result (EscrowState Tok × Event)
    open_channel msg provider amount self = do
      bail_if (bytes_eq provider zero_address) invalid_provider_address
      bail_if (amount == 0) amount_must_be_positive
      let channel_id = get_channel_id msg.sender provider
      bail_if (not (bytes_eq (channel_at channel_id self.channels).client zero_address))
          channel_already_exists
      let channel : Channel = record {
        client = msg.sender;
        provider = provider;
        balance = amount;
        close_requested_at = 0;
      }
      token' ←
          require_paid transfer_failed (token.transfer_from this msg.sender this amount self.token)
      ok (
        record self { channels = set_channel channel_id channel self.channels; token = token' },
        channel_opened channel_id msg.sender provider amount,
      )

    unfoldable pub deposit : Msg → B256 → ℕ → EscrowState Tok → Result (EscrowState Tok × Event)
    deposit msg channel_id amount self = do
      let channel = channel_at channel_id self.channels
      bail_if (bytes_eq channel.client zero_address) invalid_channel
      bail_if (amount == 0) amount_must_be_positive
      balance ← add_u256 channel.balance amount
      token' ←
          require_paid transfer_failed (token.transfer_from this msg.sender this amount self.token)
      ok (
        record self {
          channels = set_channel channel_id (record channel { balance = balance }) self.channels;
          token = token';
        },
        channel_topped_up channel_id amount balance,
      )

    -- Step 5 of `claimTicket`. The subtraction is behind the test of the balance.
    unfoldable pub pay_out : Channel → Ticket → EscrowState Tok → Result (EscrowState Tok × Event)
    pay_out channel ticket self = do
      let nullifier = nullifier_of ticket
      let left = record channel { balance = channel.balance - ticket.face_value }
      token' ←
          require_paid payout_transfer_failed
            (token.transfer this channel.provider ticket.face_value self.token)
      ok (
        record self {
          channels = set_channel ticket.channel_id left self.channels;
          nullifiers = nullifier ∷ self.nullifiers;
          token = token';
        },
        ticket_claimed ticket.channel_id channel.provider ticket.nonce ticket.face_value nullifier,
      )

    unfoldable pub claim_ticket :
        Msg → Ticket → Bytes → B256 → EscrowState Tok → Result (EscrowState Tok × Event)
    claim_ticket msg ticket signature provider_seed self = do
      let channel = channel_at ticket.channel_id self.channels
      bail_if (bytes_eq channel.client zero_address) invalid_channel
      bail_if (not (bytes_eq channel.provider msg.sender)) unauthorized
      bail_if (ltb ticket.expiry msg.timestamp) ticket_expired
      bail_if (ltb channel.balance ticket.face_value) insufficient_escrow
      bail_if (is_set (nullifier_of ticket) self.nullifiers) ticket_already_claimed
      verify_claim channel ticket signature provider_seed
      pay_out channel ticket self

    unfoldable pub request_close : Msg → B256 → EscrowState Tok → Result (EscrowState Tok × Event)
    request_close msg channel_id self = do
      let channel = channel_at channel_id self.channels
      bail_if (not (bytes_eq channel.client msg.sender)) unauthorized
      bail_if (not (channel.close_requested_at == 0)) close_already_requested
      let closing = record channel { close_requested_at = msg.timestamp % 2 ^ 64 }
      unlock ← add_u256 msg.timestamp withdrawal_delay
      ok (
        record self { channels = set_channel channel_id closing self.channels },
        close_requested channel_id (unlock % 2 ^ 64),
      )

    -- `if (remaining > 0) { require(token.transfer(..), ..); }`
    unfoldable pub refund : Address → ℕ → Tok → Result Tok
    refund to remaining state =
        if remaining == 0
        then ok state
        else require_paid refund_transfer_failed (token.transfer this to remaining state)

    unfoldable pub withdraw : Msg → B256 → EscrowState Tok → Result (EscrowState Tok × Event)
    withdraw msg channel_id self = do
      let channel = channel_at channel_id self.channels
      bail_if (not (bytes_eq channel.client msg.sender)) unauthorized
      bail_if (channel.close_requested_at == 0) close_not_requested
      bail_if (ltb msg.timestamp (channel.close_requested_at + withdrawal_delay)) withdrawal_locked
      token' ← refund msg.sender channel.balance self.token
      ok (
        record self { channels = set_channel channel_id no_channel self.channels; token = token' },
        channel_withdrawn channel_id msg.sender channel.balance,
      )
