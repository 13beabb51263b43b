-- ===== src/Escrow/Invocation.antt =====
-- The calls of contracts/SPMPEscrow.sol that change its state, as data.
use spmp.Prelude.{ℕ, Bytes}
use spmp.Types.{B256, Address, Ticket}
use spmp.Results.{Result}
use spmp.Evm.{Evm, Erc20}
use spmp.EscrowTypes.{EscrowState, Event, Msg}
use spmp.Escrow.{open_channel, deposit, claim_ticket, request_close, withdraw}

pub data EscrowCall : Type 0 where
  opens : Msg → Address → ℕ → EscrowCall
  deposits : Msg → B256 → ℕ → EscrowCall
  claims : Msg → Ticket → Bytes → B256 → EscrowCall
  requests : Msg → B256 → EscrowCall
  withdraws : Msg → B256 → EscrowCall

module _ (evm : Evm) {Tok : Type 0} (token : Erc20 Tok) (this : Address) where
  -- A call as the contract runs it.
  abbrev pub call : EscrowCall → EscrowState Tok → Result (EscrowState Tok × Event)
  call (opens msg provider amount) = open_channel evm token this msg provider amount
  call (deposits msg id amount) = deposit evm token this msg id amount
  call (claims msg ticket signature seed) = claim_ticket evm token this msg ticket signature seed
  call (requests msg id) = request_close evm token this msg id
  call (withdraws msg id) = withdraw evm token this msg id
