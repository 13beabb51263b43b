-- ===== src/Escrow/Solvency.antt =====
-- The escrow holds the tokens that its channels promise.
use spmp.Prelude.{ℕ, ◌+◌, ◌≤◌, ◌≡◌, ◌≢◌, ap, arith, inl, inr, sym, ◌∙◌}
use spmp.Types.{B256, Address}
use spmp.Evm.{Evm, Erc20, Erc20Laws}
use spmp.EscrowTypes.{Channel, EscrowState, channel_at, set_channel, zero_address}
use spmp.EscrowTypes.Storage.{total, total-set_channel}
use spmp.Escrow.Calls.{open_channel-ok, deposit-ok, request_close-ok, refund-ok, withdraw-ok}
use spmp.Escrow.Claims.{claim_ticket-ok_iff}
use spmp.Escrow.Steps.{
  Step, Reach, opens, deposits, claims, requests, withdraws, outside, here, next,
}

-- The contract's tokens cover the balances of all channels together.
abbrev pub Solvent : {Tok : Type 0} → Erc20 Tok → Address → EscrowState Tok → Type 0
Solvent token this s = total s.channels ≤ token.balance_of s.token this

module _ (evm : Evm) {Tok : Type 0} (token : Erc20 Tok) (laws : Erc20Laws zero_address token)
    (this : Address) where
  -- A channel is written and the contract's tokens change by as much.
  write-Solvent :
      (id : B256) (c : Channel) (s s' : EscrowState Tok) (t : Tok) (added taken : ℕ)
      → Solvent token this s
      → s'.channels ≡ set_channel id c s.channels
      → s'.token ≡ t
      → c.balance + taken ≤ (channel_at id s.channels).balance + added
      → token.balance_of s.token this + added ≡ token.balance_of t this + taken
      → Solvent token this s'
  write-Solvent id c s s' t added taken solvent e e' moved held =
      rw (e, e') (omega (arith, total-set_channel id c s.channels))

  Step-Solvent :
      {s s' : EscrowState Tok}
      → Step evm token this s s'
      → Solvent token this s
      → Solvent token this s'
  Step-Solvent (opens {s} {s'} msg provider amount e other h) solvent =
      let (t, paid, _, er) = open_channel-ok evm token this msg provider amount s (s', e) h in
      let (_, gain) = laws.transfer_from_lem this msg.sender this amount s.token t other paid in
      write-Solvent _ _ s s' _ amount 0 solvent (ap (λ r. r.0.channels) er) (ap (λ r. r.0.token) er)
        (omega arith) (omega arith)
  Step-Solvent (deposits {s} {s'} msg id amount e other h) solvent =
      let (t, paid, _, er) = deposit-ok evm token this msg id amount s (s', e) h in
      let (_, gain) = laws.transfer_from_lem this msg.sender this amount s.token t other paid in
      write-Solvent _ _ s s' _ amount 0 solvent (ap (λ r. r.0.channels) er) (ap (λ r. r.0.token) er)
        (omega arith) (omega arith)
  Step-Solvent (claims {s} {s'} msg ticket signature seed e other h) solvent =
      let (claimable, (t, paid, er)) =
        (claim_ticket-ok_iff evm token this msg ticket signature seed s (s', e)).0 h in
      let provider = (channel_at ticket.channel_id s.channels).provider in
      let apart : this ≢ provider = λ same. other (sym (same ∙ claimable.by_provider)) in
      let (loss, _) = laws.transfer_lem this provider ticket.face_value s.token t apart paid in
      let covered = claimable.covered in
      write-Solvent _ _ s s' _ 0 ticket.face_value solvent (ap (λ r. r.0.channels) er)
        (ap (λ r. r.0.token) er) (omega arith) (omega arith)
  Step-Solvent (requests {s} {s'} msg id e other h) solvent =
      let (_, _, er) = request_close-ok evm token this msg id s (s', e) h in
      write-Solvent _ _ s s' _ 0 0 solvent (ap (λ r. r.0.channels) er) (ap (λ r. r.0.token) er)
        (omega arith) (omega arith)
  Step-Solvent (withdraws {s} {s'} msg id e other h) solvent =
      let (_, (t, paid, er)) = withdraw-ok evm token this msg id s (s', e) h in
      elim (refund-ok evm token this msg.sender (channel_at id s.channels).balance s.token t paid) [
        | inl (empty, same) ↦
            write-Solvent _ _ s s' _ 0 0 solvent (ap (λ r. r.0.channels) er)
              (ap (λ r. r.0.token) er ∙ same) (omega arith) (omega arith)
        | inr sent ↦
            let (loss, _) =
              laws.transfer_lem this msg.sender _ s.token t (λ same. other (sym same)) sent in
            write-Solvent _ _ s s' _ 0 (channel_at id s.channels).balance solvent
              (ap (λ r. r.0.channels) er) (ap (λ r. r.0.token) er) (omega arith) (omega arith)
      ]
  Step-Solvent (outside s t h) solvent = omega arith

  -- Whatever calls accounts other than the contract make and in whatever order, and whatever others
  -- do with the token that takes none from the contract, a contract whose tokens cover the balances of
  -- its channels goes on to cover them; the token moves what it says, as ERC-20 has it.
  pub Reach-Solvent :
      {s s' : EscrowState Tok}
      → Reach evm token this s s'
      → Solvent token this s
      → Solvent token this s'
  Reach-Solvent here solvent = solvent
  Reach-Solvent (next r st) solvent = Step-Solvent st (Reach-Solvent r solvent)
