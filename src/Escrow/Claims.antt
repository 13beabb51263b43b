-- ===== src/Escrow/Claims.antt =====
-- When `claimTicket` succeeds, and what it then changes.
use spmp.Prelude.{◌-◌, ◌≤◌, ◌≡◌, ◌≢◌, ◌↔◌, ap, arith, Bytes, true, false, not}
use spmp.Prelude.{some, bytes_eq, bytes_eq_sound, bytes_eq_self, ltb, ◌∷◌, le→not_ltb, sym, ◌∙◌}
use spmp.Types.{B256, Address, Ticket}
use spmp.Results.{ok}
use spmp.Results.{
  invalid_channel, insufficient_escrow, ticket_expired, ticket_already_claimed, unauthorized,
  payout_transfer_failed,
}
use spmp.Results.Inversion.{>>=_ok, bail_if-ok}
use spmp.Evm.{Evm, Erc20}
use spmp.EscrowTypes.{Channel, EscrowState, Event, Msg, channel_at, set_channel, is_set}
use spmp.EscrowTypes.{zero_address}
use spmp.EscrowTypes.{ticket_claimed}
use spmp.Escrow.{require_paid, nullifier_of, verify_claim, pay_out, claim_ticket}
use spmp.Escrow.Verified.{Verified, verify_claim_iff}
use spmp.Escrow.Calls.{require_paid-ok, ok_injective, bytes_ne, ne_bytes, true_of_not}

-- The conditions of `claimTicket` on the channel and the ticket, in the order of the source.
pub record Claimable (evm : Evm) {Tok : Type 0} (msg : Msg) (ticket : Ticket) (signature : Bytes)
    (seed : B256) (s : EscrowState Tok) : Type 0 where
  pub opened : (channel_at ticket.channel_id s.channels).client ≢ zero_address
  pub by_provider : (channel_at ticket.channel_id s.channels).provider ≡ msg.sender
  pub fresh : msg.timestamp ≤ ticket.expiry
  pub covered : ticket.face_value ≤ (channel_at ticket.channel_id s.channels).balance
  pub unclaimed : is_set (nullifier_of evm ticket) s.nullifiers ≡ false
  pub verified : Verified evm (channel_at ticket.channel_id s.channels) ticket signature seed

module _ (evm : Evm) {Tok : Type 0} (token : Erc20 Tok) (this : Address) where
  abbrev pub State : Type 0
  State = EscrowState Tok

  abbrev pub channel_of : Ticket → State → Channel
  channel_of ticket s = channel_at ticket.channel_id s.channels

  -- What a claim changes, once the token has paid.
  abbrev pub claimed : Ticket → State → Tok → State
  claimed ticket s t = record s {
    channels =
        set_channel ticket.channel_id
          (record (channel_of ticket s) {
            balance = (channel_of ticket s).balance - ticket.face_value;
          })
          s.channels;
    nullifiers = nullifier_of evm ticket ∷ s.nullifiers;
    token = t;
  }

  abbrev pub claim_event : Ticket → State → Event
  claim_event ticket s =
      ticket_claimed ticket.channel_id (channel_of ticket s).provider ticket.nonce ticket.face_value
        (nullifier_of evm ticket)

  -- The token pays the face value to the channel's provider.
  abbrev pub PaysOut : Ticket → State → Tok → Type 0
  PaysOut ticket s t =
      token.transfer this (channel_of ticket s).provider ticket.face_value s.token ≡ some (true, t)

  pay_out-ok :
      (ticket : Ticket) (s : State) (r : State × Event)
      → pay_out evm token this (channel_of ticket s) ticket s ≡ ok r
      → (t : Tok) × PaysOut ticket s t × (r ≡ (claimed ticket s t, claim_event ticket s))
  unfolding pay_out
  pay_out-ok ticket s r h =
      let answer = token.transfer this (channel_of ticket s).provider ticket.face_value s.token in
      let (t, paid, h1) = >>=_ok (require_paid payout_transfer_failed answer) _ r h in
      (t, require_paid-ok payout_transfer_failed answer t paid, ok_injective _ _ h1)

  pay_out-paid :
      (ticket : Ticket) (s : State) (t : Tok)
      → PaysOut ticket s t
      → pay_out evm token this (channel_of ticket s) ticket s
        ≡ ok (claimed ticket s t, claim_event ticket s)
  unfolding pay_out
  pay_out-paid ticket s t h = rw h

  claim_ticket-Claimable :
      (msg : Msg) (ticket : Ticket) (signature : Bytes) (seed : B256) (s : State)
      (r : State × Event)
      → claim_ticket evm token this msg ticket signature seed s ≡ ok r
      → Claimable evm msg ticket signature seed s
        × (pay_out evm token this (channel_of ticket s) ticket s ≡ ok r)
  unfolding claim_ticket
  claim_ticket-Claimable msg ticket signature seed s r h =
      let c = channel_of ticket s in
      let (opened, h1) = bail_if-ok (bytes_eq c.client zero_address) invalid_channel _ r h in
      let (ours, h2) = bail_if-ok (not (bytes_eq c.provider msg.sender)) unauthorized _ r h1 in
      let (fresh, h3) = bail_if-ok (ltb ticket.expiry msg.timestamp) ticket_expired _ r h2 in
      let (covered, h4) = bail_if-ok (ltb c.balance ticket.face_value) insufficient_escrow _ r h3 in
      let (unclaimed, h5) =
        bail_if-ok (is_set (nullifier_of evm ticket) s.nullifiers) ticket_already_claimed _ r h4 in
      let (_, verified, h6) = >>=_ok (verify_claim evm c ticket signature seed) _ r h5 in
      (
        record {
          opened = bytes_ne c.client zero_address opened;
          by_provider = bytes_eq_sound c.provider msg.sender (true_of_not _ ours);
          fresh = ground arith;
          covered = ground arith;
          unclaimed = unclaimed;
          verified = (verify_claim_iff evm c ticket signature seed).0 verified;
        },
        h6,
      )

  claim_ticket-paid :
      (msg : Msg) (ticket : Ticket) (signature : Bytes) (seed : B256) (s : State)
      → Claimable evm msg ticket signature seed s
      → claim_ticket evm token this msg ticket signature seed s
        ≡ pay_out evm token this (channel_of ticket s) ticket s
  unfolding claim_ticket
  claim_ticket-paid msg ticket signature seed s c = rw (
    ne_bytes (channel_of ticket s).client zero_address c.opened,
    c.by_provider,
    bytes_eq_self msg.sender,
    le→not_ltb ticket.expiry msg.timestamp c.fresh,
    le→not_ltb (channel_of ticket s).balance ticket.face_value c.covered,
    c.unclaimed,
    (verify_claim_iff evm (channel_of ticket s) ticket signature seed).1 c.verified,
  )

  -- A claim succeeds with a result exactly when the channel is open and the caller's, the ticket is
  -- not expired at the block's time, the channel covers its face value, its nullifier is not set,
  -- the seed hashes to the ticket's commitment, the channel's client has signed the ticket's digest,
  -- the combined hash lies below (max / denominator) * numerator, where that does not divide by zero
  -- or overflow, and the token pays the provider; the result then is the storage with the face value
  -- taken from the channel and the nullifier set, and the event.
  pub claim_ticket-ok_iff :
      (msg : Msg) (ticket : Ticket) (signature : Bytes) (seed : B256) (s : State)
      (r : State × Event)
      → (claim_ticket evm token this msg ticket signature seed s ≡ ok r) ↔ (
          Claimable evm msg ticket signature seed s
          × ((t : Tok) × PaysOut ticket s t × (r ≡ (claimed ticket s t, claim_event ticket s))))
  claim_ticket-ok_iff msg ticket signature seed s r = (
    λ h.
        let (c, h1) = claim_ticket-Claimable msg ticket signature seed s r h in
        (c, pay_out-ok ticket s r h1),
    λ (c, (t, pays, e)).
        claim_ticket-paid msg ticket signature seed s c
        ∙ pay_out-paid ticket s t pays
        ∙ ap ok (sym e),
  )
