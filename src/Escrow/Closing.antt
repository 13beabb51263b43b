-- ===== src/Escrow/Closing.antt =====
-- The request of a client for the close of its channel stands until the client withdraws.
use spmp.Prelude.{ℕ, ◌≡◌, ◌≢◌, ◌⊎◌, ap}
use spmp.Prelude.{inl, inr, sym, ◌∙◌, Bool-cases, bytes_eq, bytes_eq_sound}
use spmp.Types.{B256, Address}
use spmp.Results.{ok}
use spmp.Evm.{Evm, Erc20}
use spmp.EscrowTypes.{Channel, EscrowState, Event, Msg, channel_at, set_channel, zero_address}
use spmp.EscrowTypes.{no_channel}
use spmp.EscrowTypes.Storage.{channel_at-set_channel, channel_at-set_other}
use spmp.Escrow.{withdraw}
use spmp.Escrow.Calls.{open_channel-ok, deposit-ok, request_close-ok, withdraw-ok}
use spmp.Escrow.Claims.{claim_ticket-ok_iff}
use spmp.Escrow.Steps.{
  Step, Reach, opens, deposits, claims, requests, withdraws, outside, here, next, Reach-append,
}

-- The client's request at the time `at` stands.
abbrev pub Closing : {Tok : Type 0} → B256 → Address → ℕ → EscrowState Tok → Type 0
Closing id client at s =
    ((channel_at id s.channels).client ≡ client)
    × ((channel_at id s.channels).close_requested_at ≡ at)

-- A write that keeps the client and the time of the request in its own channel.
pub write-Closing :
    {Tok : Type 0} (id other client : B256) (at : ℕ) (c : Channel) (s s' : EscrowState Tok)
    → Closing id client at s
    → s'.channels ≡ set_channel other c s.channels
    → (other ≡ id → (c.client ≡ client) × (c.close_requested_at ≡ at))
    → Closing id client at s'
write-Closing id other client at c s s' closing e same = elim (Bool-cases (bytes_eq other id)) [
  | inl h ↦
      let at_id : other ≡ id = bytes_eq_sound other id h in
      rw (e, at_id, channel_at-set_channel id c s.channels) (same at_id)
  | inr h ↦ rw (e, channel_at-set_other id other c s.channels h) closing
]

module _ (evm : Evm) {Tok : Type 0} (token : Erc20 Tok) (this : Address) where
  -- The client has withdrawn the channel between two states.
  pub record Withdrawn (id : B256) (client : Address) (s s' : EscrowState Tok) : Type 0 where
    pub before : EscrowState Tok
    pub after : EscrowState Tok
    pub msg : Msg
    pub event : Event
    pub by_client : msg.sender ≡ client
    pub called : withdraw evm token this msg id before ≡ ok (after, event)
    pub reached : Reach evm token this s before
    pub left : Reach evm token this after s'

  Step-Closing :
      {s s' : EscrowState Tok} (id : B256) (client : Address) (at : ℕ)
      → client ≢ zero_address
      → at ≢ 0
      → Step evm token this s s'
      → Closing id client at s
      → Closing id client at s' ⊎ Withdrawn id client s s'
  Step-Closing id client at real asked (opens {s} {s'} msg provider amount e other h) closing =
      let (t, paid, free, er) = open_channel-ok evm token this msg provider amount s (s', e) h in
      inl (
        write-Closing id _ client at _ s s' closing (ap (λ r. r.0.channels) er)
          (λ same. absurd (real (sym closing.0 ∙ (rw same at free)))))
  Step-Closing id client at real asked (deposits {s} {s'} msg key amount e other h) closing =
      let (t, paid, _, er) = deposit-ok evm token this msg key amount s (s', e) h in
      inl (
        write-Closing id key client at _ s s' closing (ap (λ r. r.0.channels) er)
          (λ same. rw same closing))
  Step-Closing id client at real asked (claims {s} {s'} msg ticket signature seed e other h)
        closing =
      let (claimable, (t, paid, er)) =
        (claim_ticket-ok_iff evm token this msg ticket signature seed s (s', e)).0 h in
      inl (
        write-Closing id ticket.channel_id client at _ s s' closing (ap (λ r. r.0.channels) er)
          (λ same. rw same closing))
  Step-Closing id client at real asked (requests {s} {s'} msg key e other h) closing =
      let (ours, free, er) = request_close-ok evm token this msg key s (s', e) h in
      inl (
        write-Closing id key client at _ s s' closing (ap (λ r. r.0.channels) er)
          (λ same. absurd (asked (sym closing.1 ∙ (rw same at free)))))
  Step-Closing id client at real asked (withdraws {s} {s'} msg key e other h) closing =
      let ((ours, _, _), (t, paid, er)) = withdraw-ok evm token this msg key s (s', e) h in
      elim (Bool-cases (bytes_eq key id)) [
        | inl same ↦
            let at_id : key ≡ id = bytes_eq_sound key id same in
            inr (record {
              before = s;
              after = s';
              msg = msg;
              event = e;
              by_client = sym (rw at_id at ours) ∙ closing.0;
              called = rw (← at_id) h;
              reached = here;
              left = here;
            })
        | inr h' ↦ inl (
            rw (ap (λ r. r.0.channels) er, channel_at-set_other id key no_channel s.channels h')
              closing)
      ]
  Step-Closing id client at real asked (outside s t h) closing = inl closing

  since_earlier :
      {s t u : EscrowState Tok} {id : B256} {client : Address}
      → Reach evm token this s t
      → Withdrawn id client t u
      → Withdrawn id client s u
  since_earlier r w = record {
    before = w.before;
    after = w.after;
    msg = w.msg;
    event = w.event;
    by_client = w.by_client;
    called = w.called;
    reached = Reach-append evm token this r w.reached;
    left = w.left;
  }

  until_later :
      {s t u : EscrowState Tok} {id : B256} {client : Address}
      → Step evm token this t u
      → Withdrawn id client s t
      → Withdrawn id client s u
  until_later st w = record {
    before = w.before;
    after = w.after;
    msg = w.msg;
    event = w.event;
    by_client = w.by_client;
    called = w.called;
    reached = w.reached;
    left = next w.left st;
  }

  pub Reach-Closing :
      {s s' : EscrowState Tok} (id : B256) (client : Address) (at : ℕ)
      → client ≢ zero_address
      → at ≢ 0
      → Reach evm token this s s'
      → Closing id client at s
      → Closing id client at s' ⊎ Withdrawn id client s s'
  Reach-Closing id client at real asked here closing = inl closing
  Reach-Closing id client at real asked (next {t} {u} r st) closing =
      elim (Reach-Closing id client at real asked r closing) [
        | inl still ↦ elim (Step-Closing id client at real asked st still) [
          | inl stays ↦ inl stays
          | inr w ↦ inr (since_earlier r w)
        ]
        | inr w ↦ inr (until_later st w)
      ]
