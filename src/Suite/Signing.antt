-- ===== src/Suite/Signing.antt =====
-- client-daemon/src/crypto.rs, `mod tests`: the signer's tests. The random bytes and the readings of
-- the clock are arguments, and so is the order in which calls in parallel took their turns.
pub mod Recovers
pub mod Sorted
pub mod Nonces
use spmp.Prelude.{
  ℕ, ◌+◌, ◌==◌, ◌&&◌, leb, if◌then◌else◌, bytes_eq, Bool, true, false, Option, List, [], ◌∷◌, Bytes,
  length,
}
use spmp.Prelude.Text.{ascii, be_bytes}
use spmp.Results.{Result, ok, panic, unwrap, Profile, ◌>>=◌, ◌>>◌}
use spmp.Types.{B256, Address, Ticket}
use spmp.ClientTypes.{SignedTicket, default_pricing}
use spmp.Alloy.{Alloy}
use spmp.Signer.{Wallet, Signer, new, sign_next_ticket, compute_eip712_digest, to_u128}
use spmp.Signer.Tickets.{Call}
use spmp.Signer.Parallel.{Thread, waiting, numbered, finished}
use spmp.Suite.{assert}

abbrev pub test_private_key : Bytes
test_private_key = ascii "0xac0974bec39a17e36ba4a6b4d238ff944bacb478cbed5efcae784d7bf4f2ff80"

abbrev pub test_channel_id : B256
test_channel_id = be_bytes 32 0x0102030405060708090a0b0c0d0e0f101112131415161718191a1b1c1d1e1f20

abbrev pub test_provider : Address
test_provider = be_bytes 20 0x70997970C51812dc3A010C7d01b50e0d17dc79C8

abbrev pub test_contract : Address
test_contract = be_bytes 20 0x5FbDB2315678afecb367f032d93F642f64180aa3

abbrev pub test_chain_id : ℕ
test_chain_id = 31_337

-- `.unwrap()` and `.expect(..)` on a result
abbrev pub expect {ℓ} : {A : Type ℓ} → Result A → Result A
expect (ok a) = ok a
expect _ = panic

-- `nonces.sort()`
abbrev pub insert : ℕ → List ℕ → List ℕ
insert x [] = x ∷ []
insert x (y ∷ ys) = if leb x y then x ∷ y ∷ ys else y ∷ insert x ys

abbrev pub sort : List ℕ → List ℕ
sort [] = []
sort (x ∷ xs) = insert x (sort xs)

-- `for (i, nonce) in nonces.iter().enumerate() { assert_eq!(*nonce, (i + 1) as u64); }`
abbrev pub enumerated : ℕ → List ℕ → Result (Unit {0})
enumerated i [] = ok tt
enumerated i (nonce ∷ nonces) = assert (nonce == i + 1) >> enumerated (i + 1) nonces

-- The calls that are spawned in the test, each with the random bytes that it draws and its reading of
-- the clock.
abbrev pub spawned : List (B256 × Option ℕ) → List Call
spawned [] = []
spawned ((client_seed, clock) ∷ draws) =
    record {
      client_seed = client_seed;
      clock = clock;
      provider_commitment =
          be_bytes 32 0x2222222222222222222222222222222222222222222222222222222222222222;
      pricing = default_pricing;
    }
    ∷ spawned draws

-- `handle.await.unwrap().payload.nonce` of each call, in the order in which they were spawned. A call
-- that has not ended is waited for.
abbrev pub nonces_of : List Thread → Result (List ℕ)
nonces_of [] = ok []
nonces_of (finished c n (ok t) ∷ ts) = nonces_of ts >>= λ rest. ok (t.payload.nonce ∷ rest)
nonces_of (finished c n _ ∷ ts) = panic
nonces_of (_ ∷ ts) = Result.waits

module _ {Key : Type 0} (wallet : Wallet Key) where
  abbrev pub test_signer : Result (Signer Key)
  test_signer =
      expect (new wallet test_private_key test_channel_id test_provider test_contract test_chain_id)

  unfoldable pub test_signer_initialization : Result (Unit {0})
  test_signer_initialization = do
    signer ← test_signer
    assert (bytes_eq signer.client_address (be_bytes 20 0xf39Fd6e51aad88F6F4ce6aB8827279cffFb92266))
    assert (signer.nonce_watermark == 0)

  module _ {Sig : Type 0} (alloy : Alloy Sig) (profile : Profile) where
    -- What the test puts together of the signed ticket, with its face value as a u128.
    abbrev pub sol_ticket_of : SignedTicket → ℕ → Ticket
    sol_ticket_of signed_ticket face_value = record {
      channel_id = signed_ticket.payload.channel_id;
      provider = signed_ticket.payload.provider;
      nonce = signed_ticket.payload.nonce;
      face_value = face_value;
      win_prob_numerator = signed_ticket.payload.win_prob_numerator;
      win_prob_denominator = signed_ticket.payload.win_prob_denominator;
      expiry = signed_ticket.payload.expiry;
      client_seed = signed_ticket.payload.client_seed;
      provider_commitment = signed_ticket.payload.provider_commitment;
    }

    -- The second half of the test: the address is recovered from the signature.
    abbrev pub recovers : Signer Key → SignedTicket → Result (Unit {0})
    recovers signer signed_ticket = do
      face_value ← unwrap (to_u128 signed_ticket.payload.face_value)
      let digest =
          compute_eip712_digest wallet alloy signer (sol_ticket_of signed_ticket face_value)
      sig ← unwrap (alloy.signature_try_from signed_ticket.signature)
      recovered_address ← unwrap (alloy.recover_address_from_prehash sig digest)
      assert (bytes_eq recovered_address signer.client_address)

    unfoldable pub test_sign_next_ticket_and_recover_address : B256 → Option ℕ → Result (Unit {0})
    test_sign_next_ticket_and_recover_address client_seed clock = do
      signer ← test_signer
      let provider_commitment =
          be_bytes 32 0x1111111111111111111111111111111111111111111111111111111111111111
      let (result, after) =
          sign_next_ticket wallet alloy profile client_seed clock provider_commitment
            default_pricing signer
      signed_ticket ← expect result
      assert (signed_ticket.payload.nonce == 1)
      assert (length signed_ticket.signature == 65)
      assert (after.nonce_watermark == 1)
      recovers after signed_ticket

  -- The test of 50 calls in parallel, from where they have taken their turns: the calls, in the order
  -- in which they were spawned, and the signer.
  unfoldable pub test_nonce_monotonicity_under_concurrency :
      List Thread → Signer Key → Result (Unit {0})
  test_nonce_monotonicity_under_concurrency threads signer = do
    unsorted ← nonces_of threads
    let nonces = sort unsorted
    assert (length nonces == 50)
    enumerated 0 nonces
    assert (signer.nonce_watermark == 50)
