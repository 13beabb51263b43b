-- ===== src/Settlement/Queue.antt =====
-- Every task of the queue is sent once and in its order, whatever becomes of the others.
use spmp.Prelude.{
  ◌⊎◌, if◌then◌else◌, Option, none, some, true, List, [], ◌∷◌, ◌++◌, map, refl, ◌≡◌, Option-cases,
  inl, inr,
}
use spmp.Types.{Address}
use spmp.Settlement.{
  Settled, confirmed, receipt_failed, submit_failed, ClaimTask, SettlementWorker, Rpc,
  await_receipt, settle, settle_all, run,
}
use mathlib.Core.List.{append_assoc, append-nil}

module _ {Key Url Pending Chain : Type 0} (rpc : Rpc Key Url Pending Chain) where
  -- The same calls on a chain that keeps what it is sent, the latest last.
  abbrev pub recording : Rpc Key Url Pending (Chain × List (Address × ClaimTask))
  recording = record {
    parse = rpc.parse;
    send = λ url key contract task (chain, sent).
        let (pending, chain') = rpc.send url key contract task chain in
        (pending, (chain', sent ++ ((contract, task) ∷ [])));
    watch = λ pending (chain, sent).
        let (seen, chain') = rpc.watch pending chain in (seen, (chain', sent));
  }

  -- Where a receipt changes nothing on the chain, a task changes what its transaction does.
  pub settle-state :
      (self : SettlementWorker Key) (url : Url) (task : ClaimTask) (chain : Chain)
      → ((p : Pending) (c : Chain) → (rpc.watch p c).1 ≡ c)
      → (settle rpc self url task chain).1
        ≡ (rpc.send url self.wallet self.contract_address task chain).1
  unfolding settle await_receipt
  settle-state self url task chain still =
      elim (Option-cases (rpc.send url self.wallet self.contract_address task chain).0) [
        | inl e ↦ rw (settle, e) refl
        | inr (p, e) ↦ rw (settle, e) (still p _)
      ]

  -- One task, whose transaction is sent and whose receipt arrives.
  pub run-confirmed :
      (self : SettlementWorker Key) (url : Url) (task : ClaimTask) (chain chain' end : Chain)
      (pending : Pending)
      → rpc.parse self.rpc_url ≡ some url
      → rpc.send url self.wallet self.contract_address task chain ≡ (some pending, chain')
      → rpc.watch pending chain' ≡ (true, end)
      → run rpc self (task ∷ []) chain ≡ (some (confirmed task.ticket.nonce ∷ []), end)
  unfolding run settle_all settle await_receipt
  run-confirmed self url task chain chain' end pending parsed sent seen =
      rw (run, parsed, settle_all, settle, sent, await_receipt, sent, seen) refl

  settle-recording :
      (self : SettlementWorker Key) (url : Url) (task : ClaimTask) (chain : Chain)
      (sent : List (Address × ClaimTask))
      → settle recording self url task (chain, sent) ≡ (
        (settle rpc self url task chain).0,
        ((settle rpc self url task chain).1, sent ++ ((self.contract_address, task) ∷ [])),
      )
  unfolding settle await_receipt
  settle-recording self url task chain sent =
      elim (Option-cases (rpc.send url self.wallet self.contract_address task chain).0) [
        | inl e ↦ rw (settle, e) refl
        | inr (p, e) ↦ rw (settle, e) refl
      ]

  settle_all-recording :
      (self : SettlementWorker Key) (url : Url) (tasks : List ClaimTask) (chain : Chain)
      (sent : List (Address × ClaimTask))
      → settle_all recording self url tasks (chain, sent) ≡ (
        (settle_all rpc self url tasks chain).0,
        (
          (settle_all rpc self url tasks chain).1,
          sent ++ map (λ task. (self.contract_address, task)) tasks,
        ),
      )
  unfolding settle_all
  settle_all-recording self url [] chain sent = rw (append-nil sent) refl
  settle_all-recording self url (task ∷ tasks) chain sent =
      rw
        (
          settle-recording self url task chain sent,
          settle_all-recording self url tasks (settle rpc self url task chain).1
              (sent ++ ((self.contract_address, task) ∷ [])),
          append_assoc sent ((self.contract_address, task) ∷ [])
              (map (λ task. (self.contract_address, task)) tasks),
        )
        refl

  -- What is reported of a task, by what became of its transaction and its receipt on some state of
  -- the chain.
  abbrev pub Tells : SettlementWorker Key → Url → ClaimTask → Settled → Type 0
  Tells self url task report =
      (chain : Chain) × ((((rpc.send url self.wallet self.contract_address task chain).0 ≡ none)
          × (report ≡ submit_failed task.ticket.nonce))
        ⊎ ((pending : Pending) × ((rpc.send url self.wallet self.contract_address task chain).0
              ≡ some pending)
            × (report ≡ (
                if (rpc.watch pending
                  (rpc.send url self.wallet self.contract_address task chain).1).0
                then confirmed task.ticket.nonce
                else receipt_failed task.ticket.nonce))))

  -- A report on each task, in the order of the queue.
  abbrev pub Reported : SettlementWorker Key → Url → List ClaimTask → List Settled → Type 0
  Reported self url [] [] = Unit
  Reported self url [] (report ∷ reports) = ⊥
  Reported self url (task ∷ tasks) [] = ⊥
  Reported self url (task ∷ tasks) (report ∷ reports) =
      Tells self url task report × Reported self url tasks reports

  settle-Tells :
      (self : SettlementWorker Key) (url : Url) (task : ClaimTask) (chain : Chain)
      → Tells self url task (settle rpc self url task chain).0
  unfolding settle await_receipt
  settle-Tells self url task chain =
      elim (Option-cases (rpc.send url self.wallet self.contract_address task chain).0) [
        | inl e ↦ (chain, inl (e, rw (settle, e) refl))
        | inr (p, e) ↦ (chain, inr (p, e, rw (settle, e) refl))
      ]

  settle_all-Reported :
      (self : SettlementWorker Key) (url : Url) (tasks : List ClaimTask) (chain : Chain)
      → Reported self url tasks (settle_all rpc self url tasks chain).0
  unfolding settle_all
  settle_all-Reported self url [] chain = tt
  settle_all-Reported self url (task ∷ tasks) chain = (
    settle-Tells self url task chain,
    settle_all-Reported self url tasks (settle rpc self url task chain).1,
  )

  -- What a run over a parsed URL leaves: its reports, the chain and what was sent.
  abbrev pub Handled :
      Option Url
      → SettlementWorker Key
      → List ClaimTask
      → Chain
      → Option (List Settled) × (Chain × List (Address × ClaimTask))
      → Type 0
  Handled none self tasks chain (reports, (end, sent)) =
      (reports ≡ none) × (end ≡ chain) × (sent ≡ [])
  Handled (some url) self tasks chain (reports, (end, sent)) =
      ((rs : List Settled) × (reports ≡ some rs) × Reported self url tasks rs)
      × (sent ≡ map (λ task. (self.contract_address, task)) tasks)

  -- A worker whose RPC address is no URL sends nothing and reports nothing. One whose address is a
  -- URL sends each task of its queue to the contract exactly once and in the order of the queue,
  -- whatever becomes of the transactions and of their receipts. It reports once on each task, in the
  -- same order and by its nonce: a failed submission, a failed receipt or a confirmation, as the RPC
  -- node answered for that task on some state of the chain.
  pub run-recording :
      (self : SettlementWorker Key) (tasks : List ClaimTask) (chain : Chain)
      → Handled (rpc.parse self.rpc_url) self tasks chain (run recording self tasks (chain, []))
  unfolding run
  run-recording self tasks chain = elim (Option-cases (rpc.parse self.rpc_url)) [
    | inl e ↦ rw (e, run) (refl, refl, refl)
    | inr (url, e) ↦
        rw (e, run, settle_all-recording self url tasks chain [])
          (
            (
              (settle_all rpc self url tasks chain).0,
              refl,
              settle_all-Reported self url tasks chain,
            ),
            refl,
          )
  ]
