-- ===== src/Settlement.antt =====
-- provider-daemon/src/settlement.rs: the worker that claims winning tickets on-chain. The queue is the
-- list of the tasks that are sent before all senders are dropped.
pub mod Queue
pub mod OnChain
pub mod EndToEnd
pub mod Delivered
mod Examples
use spmp.Prelude.{ℕ, Option, none, some, Bool, true, false, Bytes, List, [], ◌∷◌, if◌then◌else◌}
use spmp.Types.{B256, Address, Ticket}
use spmp.Results.{Result, ok, ok_or, ◌>>=◌, bad_private_key}
use spmp.Signer.{Wallet, strip_0x}

pub record ClaimTask : Type 0 where
  pub ticket : Ticket
  pub signature : Bytes
  pub provider_seed : B256

pub record SettlementWorker (Key : Type 0) : Type 0 where
  pub contract_address : Address
  pub wallet : Key
  pub provider_address : Address
  pub rpc_url : Bytes

-- What the worker takes from reqwest and alloy: parsing a URL, sending a `claimTicket` transaction to
-- the contract with the wallet's key, and waiting for its receipt. `Chain` is the state of the chain;
-- `none` and `false` are errors.
pub record Rpc (Key Url Pending Chain : Type 0) : Type 0 where
  pub parse : Bytes → Option Url
  pub send : Url → Key → Address → ClaimTask → Chain → Option Pending × Chain
  pub watch : Pending → Chain → Bool × Chain

-- What the worker logs of a task at its end.
pub data Settled : Type 0 where
  confirmed receipt_failed submit_failed : ℕ → Settled

module _ {Key : Type 0} (keys : Wallet Key) where
  unfoldable pub new : Bytes → Address → Bytes → Result (SettlementWorker Key)
  new rpc_url contract_address private_key_hex = do
    signer ← ok_or (keys.parse (strip_0x private_key_hex)) bad_private_key
    ok (record {
      contract_address = contract_address;
      wallet = signer;
      provider_address = keys.address signer;
      rpc_url = rpc_url;
    })

module _ {Key Url Pending Chain : Type 0} (rpc : Rpc Key Url Pending Chain) where
  -- `pending_tx.watch()` and its two log lines.
  unfoldable pub await_receipt : ClaimTask → Pending → Chain → Settled × Chain
  await_receipt task pending_tx chain =
      let (seen, chain') = rpc.watch pending_tx chain in
      (if seen then confirmed task.ticket.nonce else receipt_failed task.ticket.nonce, chain')

  -- The body of the loop.
  unfoldable pub settle : SettlementWorker Key → Url → ClaimTask → Chain → Settled × Chain
  settle self url task chain =
      let (sent, chain') = rpc.send url self.wallet self.contract_address task chain in
      elim sent [
        | none ↦ (submit_failed task.ticket.nonce, chain')
        | some pending_tx ↦ await_receipt task pending_tx chain'
      ]

  unfoldable pub settle_all :
      SettlementWorker Key → Url → List ClaimTask → Chain → List Settled × Chain
  settle_all self url [] chain = ([], chain)
  settle_all self url (task ∷ tasks) chain =
      let (report, chain') = settle self url task chain in
      let (reports, end) = settle_all self url tasks chain' in (report ∷ reports, end)

  -- `none` where the URL is not one: the worker returns before its loop.
  unfoldable pub run : SettlementWorker Key → List ClaimTask → Chain → Option (List Settled) × Chain
  run self tasks chain = elim (rpc.parse self.rpc_url) [
    | none ↦ (none, chain)
    | some url ↦ let (reports, end) = settle_all self url tasks chain in (some reports, end)
  ]
