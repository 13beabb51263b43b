-- ===== src/Suite/Signing/Recovers.antt =====
-- The signer's tests of one call pass.
use spmp.Prelude.{ap, ℕ, ◌+◌, ◌^◌, ◌<◌, ◌≡◌, refl, arith, some, none, Bytes, length, bytes_eq_self}
use spmp.Prelude.Text.{be_bytes}
use spmp.Results.{ok, Profile, add_u64-small}
use spmp.Types.{B256}
use spmp.ClientTypes.{SignedTicket, default_pricing}
use spmp.Alloy.{Alloy}
use spmp.Signer.{
  Wallet, Signer, new, strip_0x, sign_next_ticket, sign_ticket, sign_content, compute_eip712_digest,
}
use spmp.Signer.Tickets.{Call, signed_content, payload_of}
use spmp.Signer.Acceptance.{WalletLaws}
use spmp.Suite.Gatekeeper.Passes.{Signs}
use spmp.Suite.Signing.{
  test_private_key, test_channel_id, test_provider, test_contract, test_chain_id, test_signer,
  recovers, test_signer_initialization, test_sign_next_ticket_and_recover_address,
}

module _ {Key : Type 0} (wallet : Wallet Key) (key : Key)
    (parsed : wallet.parse (strip_0x test_private_key) ≡ some key) where
  -- The signer of the tests.
  abbrev signer : Signer Key
  signer = record {
    signer = key;
    client_address = wallet.address key;
    channel_id = test_channel_id;
    provider_address = test_provider;
    contract_address = test_contract;
    chain_id = test_chain_id;
    nonce_watermark = 0;
    domain = record {
      name = some "SPMP_Protocol";
      version = some "1";
      chain_id = some test_chain_id;
      verifying_contract = some test_contract;
      salt = none;
    };
  }

  test_signer-signer : test_signer wallet ≡ ok signer
  unfolding new
  test_signer-signer = rw parsed

  pub test_signer_initialization-passes :
      wallet.address key ≡ be_bytes 20 0xf39Fd6e51aad88F6F4ce6aB8827279cffFb92266
      → test_signer_initialization wallet ≡ ok tt
  unfolding test_signer_initialization
  test_signer_initialization-passes anvil = rw (test_signer-signer, anvil) refl

  module _ {Sig : Type 0} (alloy : Alloy Sig) (wallet_laws : WalletLaws wallet alloy)
      (profile : Profile) where
    -- The ticket of the test's call, from the clock's time.
    abbrev call : B256 → ℕ → Call
    call client_seed now = record {
      client_seed = client_seed;
      clock = some now;
      provider_commitment =
          be_bytes 32 0x1111111111111111111111111111111111111111111111111111111111111111;
      pricing = default_pricing;
    }

    abbrev made : B256 → ℕ → Bytes → SignedTicket
    made client_seed now bytes = record {
      payload = payload_of (call client_seed now) signer 1 (now + 86_400);
      signature = bytes;
    }

    sign_content-made :
        (client_seed : B256) (now : ℕ) (bytes : Bytes)
        → let c = call client_seed now in
          wallet.sign_hash key
              (alloy.eip712_signing_hash (signed_content c signer 1 (now + 86_400)) signer.domain)
            ≡ some bytes
          → sign_content wallet alloy client_seed signer c.provider_commitment default_pricing 1
              (now + 86_400)
              50_000
            ≡ ok (made client_seed now bytes)
    unfolding sign_content compute_eip712_digest
    sign_content-made client_seed now bytes e = rw (sign_content, e) refl

    sign-made :
        (client_seed : B256) (now : ℕ) (bytes : Bytes)
        → now + 86_400 < 2 ^ 64
        → let c = call client_seed now in
          wallet.sign_hash key
              (alloy.eip712_signing_hash (signed_content c signer 1 (now + 86_400)) signer.domain)
            ≡ some bytes
          → sign_next_ticket wallet alloy profile client_seed
              (some now)
              c.provider_commitment
              default_pricing
              signer
            ≡ (ok (made client_seed now bytes), record signer { nonce_watermark = 1 })
    unfolding sign_next_ticket sign_ticket
    sign-made client_seed now bytes fits e =
        rw (add_u64-small profile 0 1 (omega arith), add_u64-small profile now 86_400 fits)
          (ap (λ r. (r, record signer { nonce_watermark = 1 }))
            (sign_content-made client_seed now bytes e))

    recovers-made :
        (client_seed : B256) (now : ℕ) (bytes : Bytes)
        → let c = call client_seed now in
          wallet.sign_hash key
              (alloy.eip712_signing_hash (signed_content c signer 1 (now + 86_400)) signer.domain)
            ≡ some bytes
          → recovers wallet alloy profile
              (record signer { nonce_watermark = 1 })
              (made client_seed now bytes)
            ≡ ok tt
    unfolding compute_eip712_digest
    recovers-made client_seed now bytes e =
        let (sig, read, _, found) = wallet_laws.sign_hash_lem key _ bytes e in
        rw (read, found, bytes_eq_self (wallet.address key)) refl

    pub test_sign_next_ticket_and_recover_address-passes :
        (client_seed : B256) (now : ℕ)
        → Signs wallet key
        → ((digest : B256) (bytes : Bytes)
            → wallet.sign_hash key digest ≡ some bytes
            → length bytes ≡ 65)
        → now + 86_400 < 2 ^ 64
        → test_sign_next_ticket_and_recover_address wallet alloy profile client_seed (some now)
          ≡ ok tt
    unfolding test_sign_next_ticket_and_recover_address
    test_sign_next_ticket_and_recover_address-passes client_seed now signs sized fits =
        let t = signed_content (call client_seed now) signer 1 (now + 86_400) in
        let (bytes, e) = signs (alloy.eip712_signing_hash t signer.domain) in
        rw (test_signer-signer, sign-made client_seed now bytes fits e, sized _ bytes e)
          (recovers-made client_seed now bytes e)
