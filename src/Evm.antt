-- ===== src/Evm.antt =====
-- What the contracts take from the EVM and from OpenZeppelin: hashing, EIP712, ECDSA and an ERC-20
-- token. None of it is part of the repository, so it is a parameter of the model. `Tok` is the state
-- of the token contract.
use spmp.Prelude.{ℕ, ◌+◌, ◌≤◌, ◌≡◌, ◌≢◌, Bool, true, Option, some, Bytes}
use spmp.Types.{B256, Address}

pub record Evm : Type 0 where
  pub keccak256 : Bytes → B256
  -- `EIP712._hashTypedDataV4` of the contract
  pub hash_typed_data_v4 : B256 → B256
  -- `ECDSA.recover`; `none` where it reverts
  pub recover : B256 → Bytes → Option Address

-- A call's caller comes first; `none` where the token reverts.
pub record Erc20 (Tok : Type 0) : Type 0 where
  pub balance_of : Tok → Address → ℕ
  pub transfer : Address → Address → ℕ → Tok → Option (Bool × Tok)
  pub transfer_from : Address → Address → Address → ℕ → Tok → Option (Bool × Tok)

-- ERC-20 as OpenZeppelin documents it: a transfer that answers `true` moved the amount, and a caller
-- who has the amount can send it to an account other than the zero address.
pub record Erc20Laws {Tok : Type 0} (zero_address : Address) (token : Erc20 Tok) : Type 0 where
  pub transfer_lem :
      (caller to : Address) (amount : ℕ) (s s' : Tok)
      → caller ≢ to
      → token.transfer caller to amount s ≡ some (true, s')
      → (token.balance_of s' caller + amount ≡ token.balance_of s caller)
        × (token.balance_of s' to ≡ token.balance_of s to + amount)
  pub transfer-true :
      (caller to : Address) (amount : ℕ) (s : Tok)
      → to ≢ zero_address
      → amount ≤ token.balance_of s caller
      → (s' : Tok) × (token.transfer caller to amount s ≡ some (true, s'))
  pub transfer_from_lem :
      (caller from to : Address) (amount : ℕ) (s s' : Tok)
      → from ≢ to
      → token.transfer_from caller from to amount s ≡ some (true, s')
      → (token.balance_of s' from + amount ≡ token.balance_of s from)
        × (token.balance_of s' to ≡ token.balance_of s to + amount)
