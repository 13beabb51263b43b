-- ===== src/Fixtures.antt =====
-- Concrete values for the tests: a stand-in for alloy that meets the laws, a provider and a ticket.
pub mod Pipe
pub mod Wallet
pub mod Chain
pub mod LocalSigner
use spmp.Prelude.{ℕ, ◌+◌, ◌%◌, refl, Option, none, some, false, [], ◌∷◌, ◌++◌, Bytes, replicate}
use spmp.Types.{B256, Address, Ticket, SessionConfig}
use spmp.ClientTypes.{SignedTicket}
use spmp.Alloy.{Alloy, AlloyLaws}
use spmp.Verifier.{TicketVerifier}
use mathlib.Core.List.{foldl}

abbrev pub toy_hash : Bytes → B256
toy_hash b = replicate 32 (foldl ◌+◌ 0 b % 256)

-- A signature is its s-value, written as one element.
abbrev pub toy_signature : Bytes → Option ℕ
toy_signature (s ∷ []) = some s
toy_signature _ = none

abbrev pub client_address : Address
client_address = replicate 20 9

abbrev pub seed : B256
seed = replicate 32 7

abbrev pub ticket : Ticket
ticket = record {
  channel_id = replicate 32 1;
  provider = replicate 20 2;
  nonce = 1;
  face_value = 50_000;
  win_prob_numerator = 1;
  win_prob_denominator = 2;
  expiry = 1_000;
  client_seed = replicate 32 7;
  provider_commitment = toy_hash seed;
}

abbrev pub alloy : Alloy ℕ
alloy = record {
  keccak256 = toy_hash;
  hash_struct = λ d. replicate 32 5;
  eip712_hash_struct = λ t. replicate 32 6;
  eip712_signing_hash = λ t d. toy_hash (0x19 ∷ 0x01 ∷ (replicate 32 5 ++ replicate 32 6));
  signature_try_from = toy_signature;
  signature_s = λ s. s;
  recover_address_from_prehash = λ s digest. some client_address;
  abi_encode = λ t. replicate 288 0;
  abi_decode = λ b. some ticket;
}

pub laws : AlloyLaws alloy
laws = record {
  keccak256-IsB256 = λ b. refl;
  hash_struct-IsB256 = λ d. refl;
  eip712_hash_struct-IsB256 = λ t. refl;
  eip712_signing_hash_lem = λ t d. refl;
}

abbrev pub verifier : TicketVerifier
verifier = record {
  contract_address = replicate 20 4;
  chain_id = 31_337;
  provider_address = replicate 20 2;
  provider_seed = seed;
  provider_commitment = toy_hash seed;
  domain_separator = replicate 32 5;
  domain = record {
    name = some "SPMP_Protocol";
    version = some "1";
    chain_id = some 31_337;
    verifying_contract = some (replicate 20 4);
    salt = none;
  };
  seed_invalidated = false;
}

-- The same ticket in the client's hands.
abbrev pub signed : SignedTicket
signed = record {
  payload = record {
    channel_id = replicate 32 1;
    provider = replicate 20 2;
    nonce = 1;
    face_value = 50_000;
    win_prob_numerator = 1;
    win_prob_denominator = 2;
    expiry = 1_000;
    client_seed = replicate 32 7;
    provider_commitment = toy_hash seed;
  };
  signature = 5 ∷ [];
}

abbrev pub session : SessionConfig
session = record {
  channel_id = replicate 32 1;
  client_address = client_address;
  provider_seed = seed;
  provider_commitment = toy_hash seed;
  last_nonce = 0;
}
