-- ===== src/Board/Client.antt =====
-- What the Task Board sees of the Central Bank, and `EscrowCoordinator`
-- (services/task-board/src/task_board_service/services/escrow_coordinator.py).
use agent_economy.Shared.{String, Option, some, none, Bool, true, false, [], ◌∷◌, if◌then◌else◌}
use agent_economy.Shared.Int.{ℤ}
use agent_economy.Shared.Action.{
  Action, Error, pure, raise, handle, ◌>>◌, service_error, duplicate_task, duplicate_bid, key_error,
  runtime_error, other_exception, unique_failed, foreign_failed, database_error, funds_exception,
  duplicate_dispute, duplicate_feedback, duplicate_agent, not_found_response,
  central_bank_unavailable,
}
use agent_economy.Board.Types.{
  Task, TaskStore, Status, opened, accepted, submitted, approved, cancelled, disputed, ruled,
  expired, set_escrow_pending,
}
use agent_economy.Board.Store.{Db, update_task}

-- `CentralBankClient`, over a bank whose state is `B`: each call may change the bank and may raise,
-- also after it has changed it. `escrow_lock` returns the escrow's identifier. A recipient is NULL
-- where the row has none.
pub record BankClient (B : Type 0) : Type 0 where
  pub lock : String → Action B String
  pub release : String → Option String → Action B (Unit {0})
  pub divide : String → Option String → String → ℤ → Action B (Unit {0})

-- The task store, and the bank behind its client.
pub record World (B : Type 0) : Type 0 where
  pub store : TaskStore
  pub bank : B

module _ {B : Type 0} where
  abbrev pub on_store : {A : Type 0} → Db A → Action (World B) A
  on_store m w = let (r, s) = m w.store in (r, record w { store = s })

  abbrev pub on_bank : {A : Type 0} → Action B A → Action (World B) A
  on_bank m w = let (r, b) = m w.bank in (r, record w { bank = b })

-- `except ServiceError: raise` and `except Exception`: what leaves the coordinator is a
-- `ServiceError`.
abbrev pub as_service_error : Error → Error
as_service_error (service_error code status) = service_error code status
as_service_error duplicate_task = service_error central_bank_unavailable 502
as_service_error duplicate_bid = service_error central_bank_unavailable 502
as_service_error key_error = service_error central_bank_unavailable 502
as_service_error runtime_error = service_error central_bank_unavailable 502
as_service_error other_exception = service_error central_bank_unavailable 502
as_service_error (unique_failed names) = service_error central_bank_unavailable 502
as_service_error foreign_failed = service_error central_bank_unavailable 502
as_service_error database_error = service_error central_bank_unavailable 502
as_service_error funds_exception = service_error central_bank_unavailable 502
as_service_error duplicate_dispute = service_error central_bank_unavailable 502
as_service_error duplicate_feedback = service_error central_bank_unavailable 502
as_service_error duplicate_agent = service_error central_bank_unavailable 502
as_service_error not_found_response = service_error central_bank_unavailable 502

module _ {B : Type 0} ⦃client : BankClient B⦄ where
  unfoldable pub release_escrow : String → Option String → Action (World B) (Unit {0})
  release_escrow escrow_id recipient_id =
      handle (on_bank (client.release escrow_id recipient_id)) (λ e. raise (as_service_error e))

  unfoldable pub split_escrow : String → Option String → String → ℤ → Action (World B) (Unit {0})
  split_escrow escrow_id worker_id poster_id worker_pct =
      handle (on_bank (client.divide escrow_id worker_id poster_id worker_pct))
        (λ e. raise (as_service_error e))

  abbrev pub set_pending : String → Bool → Action (World B) (Unit {0})
  set_pending task_id pending =
      on_store (update_task task_id (set_escrow_pending pending ∷ []) none) >> pure tt

  -- Never raises: a release that fails leaves `escrow_pending` set.
  unfoldable pub try_release_escrow : String → String → Option String → Action (World B) (Unit {0})
  unfolding release_escrow
  try_release_escrow task_id escrow_id recipient_id =
      handle (release_escrow escrow_id recipient_id >> set_pending task_id false)
        (λ e. set_pending task_id true)

  -- The retry for one recipient.
  unfoldable pub retry_release : Task → Option String → Action (World B) Task
  retry_release task recipient_id =
      handle
        (do
          release_escrow task.escrow_id recipient_id
          set_pending task.task_id false
          pure (record task { escrow_pending = false }))
        (λ e. pure task)

  unfoldable pub retry_as : Status → Task → Action (World B) Task
  retry_as expired task = retry_release task (some task.poster_id)
  retry_as approved task = retry_release task task.worker_id
  retry_as opened task = pure task
  retry_as accepted task = pure task
  retry_as submitted task = pure task
  retry_as cancelled task = pure task
  retry_as disputed task = pure task
  retry_as ruled task = pure task

  unfoldable pub retry_pending_escrow : Task → Action (World B) Task
  retry_pending_escrow task = if task.escrow_pending then retry_as task.status task else pure task
