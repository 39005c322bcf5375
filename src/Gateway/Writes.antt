-- ===== src/Gateway/Writes.antt =====
-- The requests of the gateway that record an event.
use agent_economy.Shared.{ℕ, String, Option, some, Bool}
use agent_economy.Shared.Action.{Action, Result, ok, err, pure, after, ◌>>=◌}
use agent_economy.Gateway.Sql.{Database, Connection, settled}
use agent_economy.Gateway.Statements.{Event, Constraints}
use agent_economy.Gateway.Writer.Agents.{NewAgent, Written, register_agent}
use agent_economy.Gateway.Writer.Accounts.{NewAccount, NewCredit, create_account, credit_account}
use agent_economy.Gateway.Writer.Escrows.{
  NewLock, escrow_lock, Release, Split, escrow_release, escrow_split,
}
use agent_economy.Gateway.Writer.Tasks.{
  NewTask, NewBid, NewAsset, TaskUpdate, create_task, submit_bid, record_asset, update_task_status,
}
use agent_economy.Gateway.Writer.Feedback.{NewFeedback, submit_feedback}
use agent_economy.Gateway.Writer.Claims.{
  NewClaim, NewRebuttal, NewRuling, file_claim, update_claim_status, submit_rebuttal, record_ruling,
}
use agent_economy.Gateway.Steps.Clauses.{Named}
use agent_economy.Gateway.Saved.{Concludes}
use agent_economy.Gateway.Methods.Bank.{
  register_agent-Concludes, create_account-Concludes, credit_account-Concludes,
  escrow_lock-Concludes, escrow_release-Concludes, escrow_split-Concludes,
}
use agent_economy.Gateway.Methods.Others.{
  create_task-Concludes, submit_bid-Concludes, record_asset-Concludes, update_task_status-Concludes,
  submit_feedback-Concludes, file_claim-Concludes, update_claim_status-Concludes,
  submit_rebuttal-Concludes, record_ruling-Concludes,
}

-- A request that records an event. The two writes that record none, a claim's status change without an
-- event and the deletion of a ruling, are not among them.
pub data Write : Type 0 where
  agent : NewAgent → Write
  account : NewAccount → Write
  credit : NewCredit → Write
  lock : NewLock → Write
  release : Release → Option Constraints → Write
  split : Split → Option Constraints → Write
  task : NewTask → Write
  bid : NewBid → Option Constraints → Write
  task_status : String → TaskUpdate → Option Constraints → Write
  asset : NewAsset → Option Constraints → Write
  feedback : NewFeedback → Write
  claim : NewClaim → Write
  claim_status : String → String → Event → Option Constraints → Write
  rebuttal : NewRebuttal → Option Constraints → Write
  ruling : NewRuling → Write

abbrev pub event_of : Write → Event
event_of (agent r) = r.event
event_of (account r) = r.event
event_of (credit r) = r.event
event_of (lock r) = r.event
event_of (release r cs) = r.event
event_of (split r cs) = r.event
event_of (task r) = r.event
event_of (bid r cs) = r.event
event_of (task_status id r cs) = r.event
event_of (asset r cs) = r.event
event_of (feedback r) = r.event
event_of (claim r) = r.event
event_of (claim_status id status event cs) = event
event_of (rebuttal r cs) = r.event
event_of (ruling r) = r.event

abbrev written : Written → Action Connection ℕ
written w = pure w.event_id

module _ (is_identifier : String → Bool) where
  -- The method that serves a request, and the number of its event.
  unfoldable pub perform : Write → Action Connection ℕ
  perform (agent r) = register_agent r >>= written
  perform (account r) = create_account r >>= written
  perform (credit r) = credit_account r >>= λ c. pure c.event_id
  perform (lock r) = escrow_lock r >>= λ l. pure l.event_id
  perform (release r cs) = escrow_release is_identifier r cs >>= λ p. pure p.event_id
  perform (split r cs) = escrow_split is_identifier r cs
  perform (task r) = create_task r >>= written
  perform (bid r cs) = submit_bid is_identifier r cs >>= written
  perform (task_status id r cs) = update_task_status is_identifier id r cs
  perform (asset r cs) = record_asset is_identifier r cs >>= written
  perform (feedback r) = submit_feedback r >>= written
  perform (claim r) = file_claim r >>= written
  perform (claim_status id status event cs) =
      update_claim_status is_identifier id (record { status = status; event = some event }) cs
  perform (rebuttal r cs) = submit_rebuttal is_identifier r cs >>= written
  perform (ruling r) = record_ruling r >>= written

  -- Where a refusal for a constraint's name comes with no rollback, names are identifiers.
  abbrev pub WellNamed : Write → Type 0
  WellNamed (release r cs) = Named is_identifier cs
  WellNamed (split r cs) = Named is_identifier cs
  WellNamed (task_status id r cs) = Named is_identifier cs
  WellNamed (claim_status id status event cs) = Named is_identifier cs
  WellNamed (agent r) = Unit {0}
  WellNamed (account r) = Unit {0}
  WellNamed (credit r) = Unit {0}
  WellNamed (lock r) = Unit {0}
  WellNamed (task r) = Unit {0}
  WellNamed (bid r cs) = Unit {0}
  WellNamed (asset r cs) = Unit {0}
  WellNamed (feedback r) = Unit {0}
  WellNamed (claim r) = Unit {0}
  WellNamed (rebuttal r cs) = Unit {0}
  WellNamed (ruling r) = Unit {0}

numbered :
    {A : Type 0} (number : A → ℕ) (d : Database) (event : Event) (o : Result A × Connection)
    → Concludes number d event o
    → Concludes (λ id. id) d event (let (r, v) = o in after r (λ a. pure (number a)) v)
numbered number d event (err e, v) h = h
numbered number d event (ok a, v) h = h

module _ (is_identifier : String → Bool) (d : Database) where
  -- A request that records an event (each write but a claim's status change without an event and the
  -- deletion of a ruling), on a connection with no open transaction, whose constraints are well named where
  -- the method does not roll back for them, ends with no transaction open, and in one of three ways: it
  -- raises and the file is as before; it answers with event number 0 and the file is as before; or it
  -- answers with the number of its own event, which is one more than that of the last event and the
  -- only event that the file has gained.
  pub perform-Concludes :
      (w : Write)
      → WellNamed is_identifier w
      → Concludes (λ id. id) d (event_of w) (perform is_identifier w (settled d))
  unfolding perform
  perform-Concludes (agent r) named = numbered _ d r.event _ (register_agent-Concludes d r)
  perform-Concludes (account r) named = numbered _ d r.event _ (create_account-Concludes d r)
  perform-Concludes (credit r) named = numbered _ d r.event _ (credit_account-Concludes d r)
  perform-Concludes (lock r) named = numbered _ d r.event _ (escrow_lock-Concludes d r)
  perform-Concludes (release r cs) named =
      numbered _ d r.event _ (escrow_release-Concludes d is_identifier r cs named)
  perform-Concludes (split r cs) named = escrow_split-Concludes d is_identifier r cs named
  perform-Concludes (task r) named = numbered _ d r.event _ (create_task-Concludes d r)
  perform-Concludes (bid r cs) named =
      numbered _ d r.event _ (submit_bid-Concludes d is_identifier r cs)
  perform-Concludes (task_status id r cs) named =
      update_task_status-Concludes d is_identifier id r cs named
  perform-Concludes (asset r cs) named =
      numbered _ d r.event _ (record_asset-Concludes d is_identifier r cs)
  perform-Concludes (feedback r) named = numbered _ d r.event _ (submit_feedback-Concludes d r)
  perform-Concludes (claim r) named = numbered _ d r.event _ (file_claim-Concludes d r)
  perform-Concludes (claim_status id status event cs) named =
      update_claim_status-Concludes d is_identifier id status event cs named
  perform-Concludes (rebuttal r cs) named =
      numbered _ d r.event _ (submit_rebuttal-Concludes d is_identifier r cs)
  perform-Concludes (ruling r) named = numbered _ d r.event _ (record_ruling-Concludes d r)
