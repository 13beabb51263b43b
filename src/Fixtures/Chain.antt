-- ===== src/Fixtures/Chain.antt =====
-- A chain for the tests: a stand-in for the EVM, the alloy that agrees with it, a token whose state is
-- the function of its balances, and an escrow with one channel.
use spmp.Prelude.{some_injective}
use spmp.Prelude.{ℕ, ◌+◌, ◌-◌, ◌*◌, ◌≤◌, ◌≡◌, ◌≢◌, refl, sym, arith, Option, none, some, Bool, true}
use spmp.Prelude.{Bytes, [], ◌∷◌, ◌++◌, replicate, bytes_eq, bytes_eq_self}
use spmp.Prelude.{if◌then◌else◌, ltb, le→not_ltb, Bool-cases, inl, inr}
use spmp.Types.{secp256k1_n}
use spmp.Escrow.Solvency.{Solvent}
use spmp.Types.{Address}
use spmp.Alloy.{Alloy, AlloyLaws}
use spmp.Evm.{Evm, Erc20, Erc20Laws}
use spmp.EscrowTypes.{Channel, EscrowState, Msg, zero_address}
use spmp.Escrow.{struct_hash}
use spmp.Escrow.Calls.{ne_bytes}
use spmp.Escrow.Agreement.{Agrees}
use spmp.Verifier.Gate.{IsConfigured}
use spmp.Fixtures.{toy_hash, client_address, verifier, ticket}

abbrev pub evm : Evm
evm = record {
  keccak256 = toy_hash;
  hash_typed_data_v4 = λ h. toy_hash (0x19 ∷ 0x01 ∷ (replicate 32 5 ++ h));
  recover = λ digest bytes. some client_address;
}

-- Every signature parses, with an s of 5, and is the client's.
abbrev pub alloy : Alloy ℕ
alloy = record {
  keccak256 = toy_hash;
  hash_struct = λ d. replicate 32 5;
  eip712_hash_struct = λ t. struct_hash evm t;
  eip712_signing_hash = λ t d. toy_hash (0x19 ∷ 0x01 ∷ (replicate 32 5 ++ struct_hash evm t));
  signature_try_from = λ bytes. some 5;
  signature_s = λ s. s;
  recover_address_from_prehash = λ sig digest. some client_address;
  abi_encode = λ t. replicate 288 0;
  abi_decode = λ b. some ticket;
}

pub laws : AlloyLaws alloy
unfolding struct_hash
laws = record {
  keccak256-IsB256 = λ b. refl;
  hash_struct-IsB256 = λ d. refl;
  eip712_hash_struct-IsB256 = λ t. refl;
  eip712_signing_hash_lem = λ t d. refl;
}

pub agrees : Agrees alloy evm verifier
agrees = record {
  keccak256_same = λ b. refl;
  struct_same = λ t. refl;
  typed_data_lem = λ h. refl;
  recover-low = λ bytes sig digest a parsed canonical low found. found;
  recover-high = λ bytes sig digest parsed high.
      let five = some_injective 5 sig parsed in absurd (omega arith);
}

pub verifier-IsConfigured : IsConfigured alloy verifier
verifier-IsConfigured = record { committed = refl; separated = refl }

abbrev pub signature : Bytes
signature = replicate 64 3 ++ (27 ∷ [])

abbrev pub Balances : Type 0
Balances = Address → ℕ

abbrev pub moved : Address → Address → ℕ → Balances → Balances
moved from to amount s a =
    if bytes_eq a from then s a - amount else if bytes_eq a to then s a + amount else s a

abbrev send : Address → Address → ℕ → Balances → Option (Bool × Balances)
send from to amount s =
    if bytes_eq to zero_address
    then none
    else if ltb (s from) amount
    then none
    else some (true, moved from to amount s)

abbrev pub token : Erc20 Balances
token = record { balance_of = λ s a. s a; transfer = send; transfer_from = λ spender. send }

moved_lem :
    (from to : Address) (amount : ℕ) (s : Balances)
    → from ≢ to
    → amount ≤ s from
    → (moved from to amount s from + amount ≡ s from) × (moved from to amount s to ≡ s to + amount)
moved_lem from to amount s apart covered = (
  rw (bytes_eq_self from) (omega arith),
  rw (ne_bytes to from (λ e. apart (sym e)), bytes_eq_self to) refl,
)

abbrev paid : Balances → Option (Bool × Balances)
paid s = some (true, s)

paid_injective : (s s' : Balances) → paid s ≡ paid s' → s' ≡ s
paid_injective s s' h = cc

not_paid : (s : Balances) → ¬ (none ≡ paid s)
not_paid s h = absurd (cc)

send_lem :
    (from to : Address) (amount : ℕ) (s s' : Balances)
    → from ≢ to
    → send from to amount s ≡ some (true, s')
    → (s' from + amount ≡ s from) × (s' to ≡ s to + amount)
send_lem from to amount s s' apart h = elim (Bool-cases (bytes_eq to zero_address)) [
  | inl nobody ↦ absurd (not_paid s' (rw nobody at h))
  | inr real ↦ elim (Bool-cases (ltb (s from) amount)) [
    | inl short ↦ absurd (not_paid s' (rw (real, short) at h))
    | inr enough ↦
        rw (paid_injective _ _ (rw (real, enough) at h))
          (moved_lem from to amount s apart (ground arith))
  ]
]

send-true :
    (from to : Address) (amount : ℕ) (s : Balances)
    → to ≢ zero_address
    → amount ≤ s from
    → (s' : Balances) × (send from to amount s ≡ some (true, s'))
send-true from to amount s real covered = (
  moved from to amount s,
  rw (ne_bytes to zero_address real, le→not_ltb (s from) amount covered) refl,
)

pub token_laws : Erc20Laws zero_address token
token_laws = record {
  transfer_lem = send_lem;
  transfer-true = send-true;
  transfer_from_lem = λ spender. send_lem;
}

abbrev pub escrow_address : Address
escrow_address = replicate 20 4

abbrev pub provider_msg : ℕ → Msg
provider_msg timestamp = record { sender = replicate 20 2; timestamp = timestamp }

abbrev pub client_msg : ℕ → Msg
client_msg timestamp = record { sender = client_address; timestamp = timestamp }

abbrev pub channel : Channel
channel = record {
  client = client_address;
  provider = replicate 20 2;
  balance = 80_000;
  close_requested_at = 0;
}

-- The contract has 80 000, and the provider 500.
abbrev pub balances : Balances
balances a =
    if bytes_eq a escrow_address then 80_000 else if bytes_eq a (replicate 20 2) then 500 else 0

abbrev pub escrow : EscrowState Balances
escrow = record { channels = (replicate 32 1, channel) ∷ []; nullifiers = []; token = balances }

pub signature_low :
    (sig : ℕ)
    → alloy.signature_try_from signature ≡ some sig
    → 2 * alloy.signature_s sig ≤ secp256k1_n
signature_low sig parsed = let five : 5 ≡ sig = some_injective 5 sig parsed in omega arith

pub start-Solvent : Solvent token escrow_address escrow
start-Solvent = omega arith
