-- ===== src/Alloy.antt =====
-- What the daemons take from the alloy crates: hashing, EIP-712, ECDSA recovery and the ABI codec.
-- The crates are not part of the repository, so they are a parameter of the model. `Sig` stands for
-- alloy's `Signature`.
use spmp.Prelude.{ℕ, ◌≡◌, ◌++◌, ◌∷◌, Option, Bytes}
use spmp.Types.{Ticket, B256, Address}
use spmp.Types.Laws.{IsB256}
use Prim.Native.String.{String}

-- The fields of alloy's `Eip712Domain` that the daemons set.
pub record Eip712Domain : Type 0 where
  pub name : Option String
  pub version : Option String
  pub chain_id : Option ℕ
  pub verifying_contract : Option Address
  pub salt : Option B256

pub record Alloy (Sig : Type 0) : Type 0 where
  pub keccak256 : Bytes → B256
  -- `Eip712Domain::hash_struct`
  pub hash_struct : Eip712Domain → B256
  pub eip712_hash_struct : Ticket → B256
  pub eip712_signing_hash : Ticket → Eip712Domain → B256
  -- `Signature::try_from(&[u8])`, `Signature::s` and address recovery; `none` where they fail
  pub signature_try_from : Bytes → Option Sig
  pub signature_s : Sig → ℕ
  pub recover_address_from_prehash : Sig → B256 → Option Address
  pub abi_encode : Ticket → Bytes
  pub abi_decode : Bytes → Option Ticket

-- The documented facts that some theorems take as a hypothesis: hashes have 32 bytes, and the
-- signing hash is the one that EIP-712 prescribes.
pub record AlloyLaws {Sig : Type 0} (alloy : Alloy Sig) : Type 0 where
  pub keccak256-IsB256 : (b : Bytes) → IsB256 (alloy.keccak256 b)
  pub hash_struct-IsB256 : (d : Eip712Domain) → IsB256 (alloy.hash_struct d)
  pub eip712_hash_struct-IsB256 : (t : Ticket) → IsB256 (alloy.eip712_hash_struct t)
  pub eip712_signing_hash_lem :
      (t : Ticket) (d : Eip712Domain)
      → alloy.eip712_signing_hash t d
        ≡ alloy.keccak256 (0x19 ∷ 0x01 ∷ (alloy.hash_struct d ++ alloy.eip712_hash_struct t))
