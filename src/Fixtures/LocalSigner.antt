-- ===== src/Fixtures/LocalSigner.antt =====
-- A local signer for the tests that gives a signature before it is packed into bytes, and an alloy that
-- reads its bytes and those of their malleable twins.
use spmp.Prelude.{ℕ, ◌-◌, refl, arith, false, Option, some, bytes_eq, if◌then◌else◌, some_injective}
use spmp.Types.{B256, secp256k1_n}
use spmp.Alloy.{Alloy, AlloyLaws}
use spmp.Signer.{Wallet}
use spmp.Signer.Acceptance.{WalletLaws}
use spmp.Simulate.Bench.Signature.{LocalSignature, TwinLaws, as_bytes}
use spmp.Fixtures

-- A local signer whose signatures all have an s of 5, and the alloy that reads its bytes and those of
-- their twins.
abbrev pub low_signature : LocalSignature
low_signature = record { r = 3; s = 5; y_parity = false }

abbrev pub low_alloy : Alloy ℕ
low_alloy = record Fixtures.alloy {
  signature_try_from =
      λ bytes. some (if bytes_eq bytes (as_bytes low_signature) then 5 else secp256k1_n - 5);
}

pub low_laws : AlloyLaws low_alloy
low_laws = record {
  keccak256-IsB256 = λ b. refl;
  hash_struct-IsB256 = λ d. refl;
  eip712_hash_struct-IsB256 = λ t. refl;
  eip712_signing_hash_lem = λ t d. refl;
}

abbrev pub low_wallet : Wallet ℕ
low_wallet = record {
  parse = λ hex. some 1;
  address = λ key. Fixtures.client_address;
  sign_hash = λ key digest. some (as_bytes low_signature);
}

abbrev pub local : ℕ → B256 → Option LocalSignature
local key digest = some low_signature

pub low_wallet_laws : WalletLaws low_wallet low_alloy
low_wallet_laws = record {
  sign_hash_lem = λ key digest bytes e.
      rw (← some_injective (as_bytes low_signature) bytes e) (5, refl, omega arith, refl);
}

pub local_laws : TwinLaws low_wallet low_alloy local
local_laws = record {
  packs = λ key digest signature e. rw (← some_injective low_signature signature e) refl;
  reads_back =
      λ key digest signature e. rw (← some_injective low_signature signature e) (5, refl, refl);
  reads_twin = λ key digest signature e.
      rw (← some_injective low_signature signature e) (secp256k1_n - 5, refl, refl, refl);
}
