-- ===== src/Signer/Examples.antt =====
-- The theorems about the signer with a wallet of one key.
use spmp.Prelude.{◌≡◌, refl, arith, none, some, [], ◌∷◌}
use spmp.Results.{err, debug, clock_before_epoch}
use spmp.Types.{invalid_nonce}
use spmp.ClientTypes.{SignedTicket}
use spmp.Client.{ticket_sol}
use spmp.Verifier.{verify_ticket}
use spmp.Verifier.Verdict.{IsValidVerdict}
use spmp.Signer.{sign_next_ticket, sign_ticket, sign_content, compute_eip712_digest}
use spmp.Signer.Tickets.{Call, sign}
use spmp.Signer.Acceptance.{signed_ticket_accepted, failed_call_desyncs}
use spmp.Fixtures
use spmp.Fixtures.Wallet.{wallet, wallet_laws, signer, call}

abbrev missed : Call
missed = record call { clock = none }

-- The ticket of the call.
abbrev signed : SignedTicket
signed = Fixtures.signed

-- The ticket of the call where the watermark is 1.
abbrev second : SignedTicket
second = record signed { payload = record signed.payload { nonce = 2 } }

signed_ticket_accepted_example : IsValidVerdict (
    verify_ticket Fixtures.alloy
      (some 950)
      Fixtures.verifier
      (ticket_sol signed)
      (5 ∷ [])
      Fixtures.client_address
      0)
unfolding sign_next_ticket sign_ticket sign_content compute_eip712_digest
signed_ticket_accepted_example =
    signed_ticket_accepted wallet Fixtures.alloy Fixtures.laws wallet_laws debug Fixtures.verifier
      call signer signed 950 refl refl refl refl (omega arith) refl (omega arith)

failed_call_desyncs_example :
    let (r, _) = sign wallet Fixtures.alloy debug missed signer in
    (r ≡ err clock_before_epoch)
    × (verify_ticket Fixtures.alloy
          (some 950)
          Fixtures.verifier
          (ticket_sol second)
          (5 ∷ [])
          Fixtures.client_address
          0
        ≡ invalid_nonce)
unfolding sign_next_ticket sign_ticket sign_content compute_eip712_digest
failed_call_desyncs_example =
    failed_call_desyncs wallet Fixtures.alloy debug Fixtures.verifier missed call signer second
      (some 950) Fixtures.client_address refl (omega arith) refl
