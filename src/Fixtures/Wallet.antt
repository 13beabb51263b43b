-- ===== src/Fixtures/Wallet.antt =====
-- A wallet of one key, which meets the laws of alloy's local signer.
use spmp.Prelude.{ℕ, ◌≡◌, refl, arith, some, [], ◌∷◌}
use spmp.Signer.{Wallet, Signer}
use spmp.Signer.Tickets.{Call}
use spmp.Signer.Acceptance.{WalletLaws}
use spmp.Fixtures

abbrev pub wallet : Wallet ℕ
wallet = record {
  parse = λ hex. some 1;
  address = λ key. Fixtures.client_address;
  sign_hash = λ key digest. some (5 ∷ []);
}

pub wallet_laws : WalletLaws wallet Fixtures.alloy
wallet_laws = record {
  sign_hash_lem = λ key digest bytes e.
      let same : 5 ∷ [] ≡ bytes = cc in rw (← same) (5, refl, omega arith, refl);
}

abbrev pub signer : Signer ℕ
signer = record {
  signer = 1;
  client_address = Fixtures.client_address;
  channel_id = Fixtures.session.channel_id;
  provider_address = Fixtures.verifier.provider_address;
  contract_address = Fixtures.verifier.contract_address;
  chain_id = 31_337;
  nonce_watermark = 0;
  domain = Fixtures.verifier.domain;
}

abbrev pub call : Call
call = record {
  client_seed = Fixtures.seed;
  clock = some 900;
  provider_commitment = Fixtures.verifier.provider_commitment;
  pricing = record {
    face_value = 50_000;
    win_prob_numerator = 1;
    win_prob_denominator = 2;
    expiry_duration_sec = 100;
  };
}
