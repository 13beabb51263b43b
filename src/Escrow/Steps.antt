-- ===== src/Escrow/Steps.antt =====
-- The storage of the contract over time: its calls in any order by any accounts, and what others do
-- with the token.
use spmp.Prelude.{ℕ, ◌≤◌, ◌≡◌, ◌≢◌, ap, refl, Bytes, true, false, bytes_eq_self}
use spmp.Prelude.{arith}
use spmp.Types.{B256, Address, Ticket}
use spmp.Results.{ok}
use spmp.Evm.{Evm, Erc20}
use spmp.EscrowTypes.{EscrowState, Event, Msg, is_set}
use spmp.Escrow.{open_channel, deposit, claim_ticket, request_close, withdraw, nullifier_of}
use spmp.Escrow.Calls.{open_channel-ok, deposit-ok, request_close-ok, withdraw-ok}
use spmp.Escrow.Claims.{claim_ticket-ok_iff}

module _ (evm : Evm) {Tok : Type 0} (token : Erc20 Tok) (this : Address) where
  -- A call that succeeds; the contract does not call itself. A call that reverts changes nothing.
  -- Others move the token among themselves and to the contract, and never away from it.
  pub data Step : EscrowState Tok → EscrowState Tok → Type 0 where
    opens :
        {s s' : EscrowState Tok} (msg : Msg) (provider : Address) (amount : ℕ) (e : Event)
        → msg.sender ≢ this
        → open_channel evm token this msg provider amount s ≡ ok (s', e)
        → Step s s'
    deposits :
        {s s' : EscrowState Tok} (msg : Msg) (id : B256) (amount : ℕ) (e : Event)
        → msg.sender ≢ this
        → deposit evm token this msg id amount s ≡ ok (s', e)
        → Step s s'
    claims :
        {s s' : EscrowState Tok} (msg : Msg) (ticket : Ticket) (signature : Bytes) (seed : B256)
        (e : Event)
        → msg.sender ≢ this
        → claim_ticket evm token this msg ticket signature seed s ≡ ok (s', e)
        → Step s s'
    requests :
        {s s' : EscrowState Tok} (msg : Msg) (id : B256) (e : Event)
        → msg.sender ≢ this
        → request_close evm token this msg id s ≡ ok (s', e)
        → Step s s'
    withdraws :
        {s s' : EscrowState Tok} (msg : Msg) (id : B256) (e : Event)
        → msg.sender ≢ this
        → withdraw evm token this msg id s ≡ ok (s', e)
        → Step s s'
    outside :
        (s : EscrowState Tok) (t : Tok)
        → token.balance_of s.token this ≤ token.balance_of t this
        → Step s (record s { token = t })

  pub data Reach (s : EscrowState Tok) : EscrowState Tok → Type 0 where
    here : Reach s s
    next : {t u : EscrowState Tok} → Reach s t → Step t u → Reach s u

  pub Reach-append : {s t u : EscrowState Tok} → Reach s t → Reach t u → Reach s u
  Reach-append r here = r
  Reach-append r (next r' st) = next (Reach-append r r') st

  kept : {r r' : EscrowState Tok × Event} → r ≡ r' → r.0.nullifiers ≡ r'.0.nullifiers
  kept e = ap (λ r. r.0.nullifiers) e

  -- A nullifier that is set stays set.
  is_set-Step :
      {s s' : EscrowState Tok} (key : B256)
      → Step s s'
      → is_set key s.nullifiers ≡ true
      → is_set key s'.nullifiers ≡ true
  is_set-Step key (opens {s} {s'} msg provider amount e _ h) set =
      let (_, _, _, er) = open_channel-ok evm token this msg provider amount s (s', e) h in
      rw (kept er) set
  is_set-Step key (deposits {s} {s'} msg id amount e _ h) set =
      let (_, _, _, er) = deposit-ok evm token this msg id amount s (s', e) h in rw (kept er) set
  is_set-Step key (claims {s} {s'} msg ticket signature seed e _ h) set =
      let (_, (_, _, er)) =
        (claim_ticket-ok_iff evm token this msg ticket signature seed s (s', e)).0 h in
      rw (kept er) (ground arith)
  is_set-Step key (requests {s} {s'} msg id e _ h) set =
      let (_, _, er) = request_close-ok evm token this msg id s (s', e) h in rw (kept er) set
  is_set-Step key (withdraws {s} {s'} msg id e _ h) set =
      let (_, (_, _, er)) = withdraw-ok evm token this msg id s (s', e) h in rw (kept er) set
  is_set-Step key (outside s t _) set = set

  is_set-Reach :
      {s s' : EscrowState Tok} (key : B256)
      → Reach s s'
      → is_set key s.nullifiers ≡ true
      → is_set key s'.nullifiers ≡ true
  is_set-Reach key here set = set
  is_set-Reach key (next r st) set = is_set-Step key st (is_set-Reach key r set)

  pub nullifier_of_eq :
      (a b : Ticket)
      → a.channel_id ≡ b.channel_id
      → a.nonce ≡ b.nonce
      → nullifier_of evm a ≡ nullifier_of evm b
  unfolding nullifier_of
  nullifier_of_eq a b same_channel same_nonce = rw (same_channel, same_nonce)

  -- Once a ticket is claimed, no claim of a ticket with its channel and its nonce succeeds, whoever
  -- calls and whatever the ticket's other fields, signature and seed are, after any calls of the
  -- contract, a withdrawal and a new opening of the channel among them.
  pub claim_ticket-once :
      {s s' : EscrowState Tok} (first again : Msg) (ticket other : Ticket) (signature : Bytes)
      (signature' : Bytes) (seed seed' : B256) (e : Event) (before : EscrowState Tok)
      → claim_ticket evm token this first ticket signature seed before ≡ ok (s, e)
      → Reach s s'
      → other.channel_id ≡ ticket.channel_id
      → other.nonce ≡ ticket.nonce
      → ¬ (
          (r : EscrowState Tok × Event) × (claim_ticket evm token this again other signature' seed'
              s'
            ≡ ok r))
  claim_ticket-once {s} {s'} first again ticket other signature signature' seed seed' e before h
        later same_channel same_nonce (r, h') =
      let (_, (_, _, er)) =
        (claim_ticket-ok_iff evm token this first ticket signature seed before (s, e)).0 h in
      let (claimable, _) =
        (claim_ticket-ok_iff evm token this again other signature' seed' s' r).0 h' in
      let set : is_set (nullifier_of evm ticket) s.nullifiers ≡ true =
        rw (kept er, bytes_eq_self (nullifier_of evm ticket)) refl in
      let still = is_set-Reach (nullifier_of evm ticket) later set in
      let same = nullifier_of_eq other ticket same_channel same_nonce in
      let free : is_set (nullifier_of evm ticket) s'.nullifiers ≡ false =
        rw (← same) claimable.unclaimed in
      absurd (cc)
