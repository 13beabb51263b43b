-- ===== src/Simulate/Bench/Signature.antt =====
-- The signature of the single-ticket mode of provider-daemon/src/bin/simulate.rs, as the options
-- `--malleable-s` and `--tamper-sig` leave it.
use spmp.Prelude.{some_injective}
use spmp.Prelude.{
  ℕ, zero, suc, ◌-◌, ◌≤◌, ◌<◌, ◌≡◌, ◌∙◌, sym, ap, arith, Bool, true, if◌then◌else◌, Option, some,
  [], ◌∷◌, ◌++◌, Bytes,
}
use spmp.Prelude.Words.{u64_max}
use spmp.Prelude.Text.{be_bytes}
use spmp.Types.{B256, Ticket, Address, secp256k1_n, secp256k1_half_order}
use spmp.Signer.{Wallet}
use spmp.Alloy.{Alloy}
use spmp.Verifier.{TicketVerifier, verify_ticket}
use spmp.Verifier.Verdict.{IsValidVerdict, verify_ticket-valid_iff}

-- What alloy's local signer answers.
pub record LocalSignature : Type 0 where
  pub r : ℕ
  pub s : ℕ
  pub y_parity : Bool

-- r, s, and a recovery id of 27 or 28.
abbrev pub packed : ℕ → ℕ → ℕ → Bytes
packed r s v = be_bytes 32 r ++ (be_bytes 32 s ++ (v ∷ []))

abbrev pub as_bytes : LocalSignature → Bytes
as_bytes signature = packed signature.r signature.s (if signature.y_parity then 28 else 27)

-- `bytes[i] ^= 0xFF`, for a byte that is there.
abbrev pub flip_byte : ℕ → Bytes → Bytes
flip_byte i [] = []
flip_byte zero (b ∷ bs) = (0xFF - b) ∷ bs
flip_byte (suc i) (b ∷ bs) = b ∷ flip_byte i bs

abbrev pub twin_bytes : LocalSignature → Bytes
twin_bytes signature =
    packed signature.r (secp256k1_n - signature.s) (if signature.y_parity then 27 else 28)

-- The documented behaviour of alloy's local signer and of its signatures: `local` is `sign_hash`
-- before its answer is packed into bytes; the bytes of a signature and of its twin are read back with
-- their s, and the twin recovers to the same address.
pub record TwinLaws {Key Sig : Type 0} (wallet : Wallet Key) (alloy : Alloy Sig)
    (local : Key → B256 → Option LocalSignature) : Type 0 where
  pub packs :
      (key : Key) (digest : B256) (signature : LocalSignature)
      → local key digest ≡ some signature
      → wallet.sign_hash key digest ≡ some (as_bytes signature)
  pub reads_back :
      (key : Key) (digest : B256) (signature : LocalSignature)
      → local key digest ≡ some signature
      → (sig : Sig) × (alloy.signature_try_from (as_bytes signature) ≡ some sig)
        × (alloy.signature_s sig ≡ signature.s)
  pub reads_twin :
      (key : Key) (digest : B256) (signature : LocalSignature)
      → local key digest ≡ some signature
      → (sig : Sig) × (alloy.signature_try_from (twin_bytes signature) ≡ some sig)
        × (alloy.signature_s sig ≡ secp256k1_n - signature.s)
        × (alloy.recover_address_from_prehash sig digest ≡ some (wallet.address key))

unfoldable pub bench_signature : Bool → Bool → LocalSignature → Bytes
bench_signature malleable_s tamper_sig signature =
    if malleable_s
    then twin_bytes signature
    else if tamper_sig
    then flip_byte 10 (as_bytes signature)
    else as_bytes signature

-- With `--malleable-s`, whatever else is asked for, the gatekeeper gives no valid verdict, for a
-- watermark within u64: alloy reads the twin's s back, and the s of the signature is below the order
-- less the half-order constant, as it is of all signatures with the lower s but those close to the half.
pub malleable_signature_rejected :
    {Sig : Type 0} (alloy : Alloy Sig) (v : TicketVerifier) (ticket : Ticket) (client : Address)
    (last : ℕ) (now : Option ℕ) (tamper_sig : Bool) (signature : LocalSignature) (sig : Sig)
    → last ≤ u64_max
    → alloy.signature_try_from (twin_bytes signature) ≡ some sig
    → alloy.signature_s sig ≡ secp256k1_n - signature.s
    → signature.s < secp256k1_n - secp256k1_half_order
    → ¬ IsValidVerdict
        (verify_ticket alloy now v ticket (bench_signature true tamper_sig signature) client last)
unfolding bench_signature
malleable_signature_rejected alloy v ticket client last now tamper_sig signature sig u64 parsed twin
      low valid =
    let (_, _, _, _, (sig', parsed', s_low, _)) =
      (verify_ticket-valid_iff alloy v ticket (twin_bytes signature) client last u64 now).0 valid in
    let same = some_injective sig sig' (sym parsed ∙ parsed') in
    let size : alloy.signature_s sig ≡ alloy.signature_s sig' = ap alloy.signature_s same in
    absurd (omega arith)
