-- ===== src/Verifier/Digest.antt =====
-- The buffers of `verify_ticket` hold what EIP-712 and the escrow contract hash.
use spmp.Prelude.{ℕ, ◌+◌, ◌≡◌, ◌∙◌, ap, refl, List, ◌++◌, ◌∷◌, [], arith, Bytes, length, drop}
use spmp.Prelude.{take-append_of_eq, length-append, zero, suc, replicate}
use spmp.Prelude.Words.{u256_from_be_bytes}
use spmp.Types.{B256, Ticket}
use spmp.Types.Laws.{IsB256}
use spmp.Alloy.{Alloy, AlloyLaws}
use spmp.Verifier.{TicketVerifier, copy_at, ticket_digest, combined_val}
use mathlib.Core.List.{append_assoc, append-nil}

drop-append_more {ℓ} :
    {A : Type ℓ} (m n : ℕ) (xs ys : List A) → m ≡ length xs + n → drop m (xs ++ ys) ≡ drop n ys
drop-append_more m n [] ys e = let e' : m ≡ n = omega arith in rw e'
drop-append_more zero n (x ∷ xs) ys e = absurd (omega arith)
drop-append_more (suc m) n (x ∷ xs) ys e = drop-append_more m n xs ys (omega arith)

drop-replicate {ℓ} :
    {A : Type ℓ} (m n k : ℕ) (a : A) → k ≡ m + n → drop m (replicate k a) ≡ replicate n a
drop-replicate zero n k a e = let e' : k ≡ n = omega arith in rw e'
drop-replicate (suc m) n zero a e = absurd (omega arith)
drop-replicate (suc m) n (suc k) a e = drop-replicate m n k a (omega arith)

-- Writing the next bytes of a buffer that is filled from the left.
copy_at-next :
    (i k n : ℕ) (done src : Bytes)
    → length done ≡ i
    → length src + n ≡ k
    → copy_at i src (done ++ replicate k 0) ≡ (done ++ src) ++ replicate n 0
unfolding copy_at
copy_at-next i k n done src ei ek = rw (
  take-append_of_eq i done (replicate k 0) ei,
  drop-append_more (i + length src) (length src) done (replicate k 0) (omega arith),
  drop-replicate {A = ℕ} (length src) n k 0 (omega arith),
  append_assoc done src (replicate {A = ℕ} n 0),
)

module _ {Sig : Type 0} (alloy : Alloy Sig) where
  pub digest_packed :
      (v : TicketVerifier) (t : Ticket)
      → IsB256 v.domain_separator
      → IsB256 (alloy.eip712_hash_struct t)
      → ticket_digest alloy v t
        ≡ alloy.keccak256 (0x19 ∷ 0x01 ∷ (v.domain_separator ++ alloy.eip712_hash_struct t))
  unfolding ticket_digest
  digest_packed v t hd hs = ap alloy.keccak256 buffer
    where
      head : Bytes
      head = 0x19 ∷ 0x01 ∷ []

      buffer :
          copy_at 34
            (alloy.eip712_hash_struct t)
            (copy_at 2 v.domain_separator (0x19 ∷ 0x01 ∷ replicate 64 0))
          ≡ 0x19 ∷ 0x01 ∷ (v.domain_separator ++ alloy.eip712_hash_struct t)
      buffer = rw (
        copy_at-next 2 64 32 head v.domain_separator refl (omega arith),
        copy_at-next 34 32 0 (head ++ v.domain_separator) (alloy.eip712_hash_struct t) (omega arith)
            (omega arith),
        append-nil,
      )

  -- The combined entropy is the hash of the digest, the client's seed and the provider's, in this
  -- order and with nothing between them, as a big-endian number, when each has its 32 bytes.
  pub combined_val-packed :
      (v : TicketVerifier) (t : Ticket) (digest : B256)
      → IsB256 digest
      → IsB256 t.client_seed
      → IsB256 v.provider_seed
      → combined_val alloy v t digest
        ≡ u256_from_be_bytes (alloy.keccak256 ((digest ++ t.client_seed) ++ v.provider_seed))
  unfolding combined_val
  combined_val-packed v t digest hd hc hp = rw (
    copy_at-next 0 96 64 [] digest refl (omega arith),
    copy_at-next 32 64 32 digest t.client_seed hd (omega arith),
    copy_at-next 64 32 0 (digest ++ t.client_seed) v.provider_seed
        (omega (arith, length-append digest t.client_seed)) (omega arith),
    append-nil,
  )

module _ {Sig : Type 0} (alloy : Alloy Sig) (laws : AlloyLaws alloy) where
  open laws use {hash_struct-IsB256, eip712_hash_struct-IsB256, eip712_signing_hash_lem}

  -- The digest that the gatekeeper recovers the signer from is alloy's signing hash, the one that
  -- the client signs, when the verifier holds the separator of its own domain.
  pub ticket_digest-signing_hash :
      (v : TicketVerifier) (t : Ticket)
      → v.domain_separator ≡ alloy.hash_struct v.domain
      → ticket_digest alloy v t ≡ alloy.eip712_signing_hash t v.domain
  ticket_digest-signing_hash v t e =
      digest_packed alloy v t (rw e (hash_struct-IsB256 v.domain)) (eip712_hash_struct-IsB256 t)
      ∙ rw (e, eip712_signing_hash_lem t v.domain)
