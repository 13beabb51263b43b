-- ===== src/Escrow/Exit.antt =====
-- A client who asks for the close of its channel gets what is left in it.
use spmp.Prelude.{ℕ, ◌+◌, ◌^◌, ◌%◌, ◌≤◌, ◌<◌, ◌≡◌, ◌≢◌, ◌⊎◌, ap, refl, arith}
use spmp.Prelude.{inl, inr, sym, ◌==◌, ==_false, Bool-cases, bytes_eq_self}
use spmp.Prelude.{le→not_ltb}
use spmp.Types.{B256, Address}
use spmp.Results.{ok}
use spmp.Evm.{Evm, Erc20, Erc20Laws}
use spmp.EscrowTypes.{EscrowState, Event, Msg, channel_at, set_channel, zero_address}
use spmp.EscrowTypes.{no_channel, withdrawal_delay, channel_withdrawn}
use spmp.EscrowTypes.Storage.{channel_at-set_channel, channel_at-le-total}
use spmp.Escrow.{refund, withdraw, request_close}
use spmp.Escrow.Calls.{request_close-ok, Withdrawable}
use spmp.Escrow.Steps.{Reach, requests, here, next}
use spmp.Escrow.Solvency.{Solvent, Reach-Solvent}
use spmp.Escrow.Closing.{Closing, Withdrawn, Reach-Closing}

module _ (evm : Evm) {Tok : Type 0} (token : Erc20 Tok) (this : Address) where
  refund-paid :
      (laws : Erc20Laws zero_address token) (to : Address) (n : ℕ) (t : Tok)
      → to ≢ zero_address
      → this ≢ to
      → n ≤ token.balance_of t this
      → (t' : Tok) × (refund evm token this to n t ≡ ok t')
        × (token.balance_of t' to ≡ token.balance_of t to + n)
  unfolding refund
  refund-paid laws to n t real other covered = elim (Bool-cases (n == 0)) [
    | inl none_left ↦ (t, rw none_left refl, ground arith)
    | inr some_left ↦
        let (t', sent) = laws.transfer-true this to n t real covered in
        let (_, gain) = laws.transfer_lem this to n t t' other sent in
        (t', rw (some_left, sent) refl, gain)
  ]

  withdraw-paid :
      (laws : Erc20Laws zero_address token) (msg : Msg) (id : B256) (s : EscrowState Tok)
      → Withdrawable evm token this msg (channel_at id s.channels)
      → Solvent token this s
      → msg.sender ≢ zero_address
      → this ≢ msg.sender
      → (s' : EscrowState Tok) × (e : Event) × (withdraw evm token this msg id s ≡ ok (s', e))
        × (token.balance_of s'.token msg.sender
            ≡ token.balance_of s.token msg.sender + (channel_at id s.channels).balance)
  unfolding withdraw
  withdraw-paid laws msg id s (ours, asked, late) solvent real other =
      let c = channel_at id s.channels in
      let covered = channel_at-le-total id s.channels in
      let (t, paid, gain) =
        refund-paid laws msg.sender c.balance s.token real other (omega arith) in
      (
        record s { channels = set_channel id no_channel s.channels; token = t },
        channel_withdrawn id msg.sender c.balance,
        rw
            (
              ours,
              bytes_eq_self msg.sender,
              ==_false c.close_requested_at 0 asked,
              le→not_ltb msg.timestamp (c.close_requested_at + withdrawal_delay) late,
              paid,
            )
            refl,
        gain,
      )

  -- A client whose request for the close of its channel succeeded, at a time that is not 0 and fits
  -- 64 bits, can withdraw from any state that the contract reaches from there, once a day has
  -- passed: either it has withdrawn since, or a withdrawal succeeds and pays it all that is left in
  -- the channel. The contract is solvent at the request, the client is neither the zero address nor
  -- the contract, and the token is an ERC-20.
  pub withdraw-after-request_close :
      (laws : Erc20Laws zero_address token) (ask : Msg) (id : B256) (s s1 s2 : EscrowState Tok)
      (e : Event) (timestamp : ℕ)
      → Solvent token this s
      → request_close evm token this ask id s ≡ ok (s1, e)
      → ask.timestamp ≢ 0
      → ask.timestamp < 2 ^ 64
      → ask.sender ≢ zero_address
      → ask.sender ≢ this
      → Reach evm token this s1 s2
      → ask.timestamp + withdrawal_delay ≤ timestamp
      → Withdrawn evm token this id ask.sender s1 s2
        ⊎ ((s3 : EscrowState Tok) × (e' : Event) × (withdraw evm token this
                (record ask { timestamp = timestamp })
                id
                s2
              ≡ ok (s3, e'))
            × (token.balance_of s3.token ask.sender
                ≡ token.balance_of s2.token ask.sender + (channel_at id s2.channels).balance))
  withdraw-after-request_close laws ask id s s1 s2 e timestamp solvent h asked fits real other later
        passed =
      let (ours, free, er) = request_close-ok evm token this ask id s (s1, e) h in
      let stamp : ask.timestamp % 2 ^ 64 ≡ ask.timestamp = omega arith in
      let closing : Closing id ask.sender ask.timestamp s1 =
        rw (ap (λ r. r.0.channels) er, channel_at-set_channel) (ours, stamp) in
      elim (Reach-Closing evm token this id ask.sender ask.timestamp real asked later closing) [
        | inr w ↦ inl w
        | inl (client, at) ↦
            let solvent2 =
              Reach-Solvent evm token laws this (next here (requests ask id e other h)) solvent in
            inr (
              withdraw-paid laws (record ask { timestamp = timestamp }) id s2
                (client, rw at asked, rw at passed)
                (Reach-Solvent evm token laws this later solvent2) real (λ same. other (sym same)))
      ]
