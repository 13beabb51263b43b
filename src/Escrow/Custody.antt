-- ===== src/Escrow/Custody.antt =====
-- Who can take money out of a channel.
use spmp.Prelude.{
  refl, ◌≤◌, ◌<◌, ◌≡◌, ◌≢◌, ◌⊎◌, inl, inr, ◌∙◌, ap, arith, Bytes, some, List, bytes_eq,
  bytes_eq_sound, Bool-cases,
}
use spmp.Types.{B256, Address, Ticket}
use spmp.Results.{ok}
use spmp.Evm.{Evm, Erc20}
use spmp.EscrowTypes.{Channel, EscrowState, Event, Msg, channel_at, set_channel, zero_address}
use spmp.EscrowTypes.Storage.{channel_at-set_channel, channel_at-set_other}
use spmp.Escrow.{struct_hash}
use spmp.Escrow.Calls.{open_channel-ok, deposit-ok, request_close-ok, withdraw-ok, Withdrawable}
use spmp.Escrow.Claims.{claim_ticket-ok_iff}
use spmp.Escrow.Invocation.{EscrowCall, opens, deposits, claims, requests, withdraws, call}

-- A write lowers a balance only in its own channel, and there to what it writes.
lowered_at :
    (id key : B256) (new : Channel) (m : List (B256 × Channel))
    → (channel_at key (set_channel id new m)).balance < (channel_at key m).balance
    → (id ≡ key) × (new.balance < (channel_at key m).balance)
lowered_at id key new m less = elim (Bool-cases (bytes_eq id key)) [
  | inl same ↦
      let e = bytes_eq_sound id key same in
      let written = channel_at-set_channel key new m in (e, rw written at (rw e at less))
  | inr other ↦
      let kept = channel_at-set_other key id new m other in absurd (omega (arith, rw kept at less))
]

module _ (evm : Evm) {Tok : Type 0} (token : Erc20 Tok) (this : Address) where
  -- The two ways out: the provider claims a ticket that the client signed, or the client withdraws
  -- after the delay.
  abbrev pub TakenBy : EscrowCall → B256 → Channel → Type 0
  TakenBy c key channel =
      ((msg : Msg) × (ticket : Ticket) × (signature : Bytes) × (seed : B256) × (c
          ≡ claims msg ticket signature seed)
        × (ticket.channel_id ≡ key)
        × (channel.provider ≡ msg.sender)
        × (evm.recover (evm.hash_typed_data_v4 (struct_hash evm ticket)) signature
            ≡ some channel.client)
        × (ticket.face_value ≤ channel.balance))
      ⊎ ((msg : Msg) × (c ≡ withdraws msg key) × Withdrawable evm token this msg channel)

  -- A call that succeeds and leaves an open channel with a smaller balance than before is either
  -- `claimTicket`, by the channel's provider, for a ticket of the channel that the channel's client
  -- has signed and whose face value the balance covers, or `withdraw`, by the channel's client, once a
  -- close was requested and the delay has passed since. So nobody else takes money out of a channel.
  pub lowered-TakenBy :
      (c : EscrowCall) (s s' : EscrowState Tok) (e : Event) (key : B256)
      → call evm token this c s ≡ ok (s', e)
      → (channel_at key s.channels).client ≢ zero_address
      → (channel_at key s'.channels).balance < (channel_at key s.channels).balance
      → TakenBy c key (channel_at key s.channels)
  lowered-TakenBy (opens msg provider amount) s s' e key h live less =
      let (_, _, free, er) = open_channel-ok evm token this msg provider amount s (s', e) h in
      let (same, _) = lowered_at _ key _ s.channels (rw (ap (λ r. r.0.channels) er) at less) in
      absurd (live (rw same at free))
  lowered-TakenBy (deposits msg id amount) s s' e key h live less =
      let (_, _, _, er) = deposit-ok evm token this msg id amount s (s', e) h in
      let (same, low) = lowered_at _ key _ s.channels (rw (ap (λ r. r.0.channels) er) at less) in
      absurd (omega (arith, rw same at low))
  lowered-TakenBy (claims msg ticket signature seed) s s' e key h live less =
      let (c, (_, _, er)) =
        (claim_ticket-ok_iff evm token this msg ticket signature seed s (s', e)).0 h in
      let (same, _) = lowered_at _ key _ s.channels (rw (ap (λ r. r.0.channels) er) at less) in
      inl (
        msg,
        ticket,
        signature,
        seed,
        refl,
        same,
        rw same at c.by_provider,
        c.verified.signed ∙ ap (λ k. some (channel_at k s.channels).client) same,
        rw same at c.covered,
      )
  lowered-TakenBy (requests msg id) s s' e key h live less =
      let (_, _, er) = request_close-ok evm token this msg id s (s', e) h in
      let (same, low) = lowered_at _ key _ s.channels (rw (ap (λ r. r.0.channels) er) at less) in
      absurd (omega (arith, rw same at low))
  lowered-TakenBy (withdraws msg id) s s' e key h live less =
      let (due, (_, _, er)) = withdraw-ok evm token this msg id s (s', e) h in
      let (same, _) = lowered_at _ key _ s.channels (rw (ap (λ r. r.0.channels) er) at less) in
      inr (msg, ap (withdraws msg) same, rw same at due)
