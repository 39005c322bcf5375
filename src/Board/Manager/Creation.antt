-- ===== src/Board/Manager/Creation.antt =====
-- The second half of `TaskManager.create_task`: the escrow and the new row.
use agent_economy.Shared.{ℕ, String, none, some, false, text_eq, is_some}
use agent_economy.Shared.Action.{
  Action, Error, pure, raise, or_raise, raise_if, handle, lift, ◌>>=◌, ◌>>◌, service_error,
  duplicate_task, duplicate_bid, key_error, runtime_error, other_exception, unique_failed,
  foreign_failed, database_error, funds_exception, duplicate_dispute, duplicate_feedback,
  duplicate_agent, not_found_response, task_already_exists, insufficient_funds,
  central_bank_unavailable,
}
use agent_economy.Board.Types.{Task, opened}
use agent_economy.Board.Store.{get_task, insert_task}
use agent_economy.Board.Client.{BankClient, World, on_store, on_bank, release_escrow}
use agent_economy.Board.Tokens.{Crypto}
use agent_economy.Board.Deadlines.{Reads}
use agent_economy.Board.Manager.NewTask.{NewTask, create_request}
use agent_economy.Board.Manager.Replies.{Response, task_to_response}

abbrev pub new_row : NewTask → String → ℕ → Task
new_row t escrow_id created_at = record {
  task_id = t.task_id;
  poster_id = t.poster_id;
  title = t.title;
  spec = t.spec;
  reward = t.reward;
  bidding_deadline_seconds = t.bidding_deadline_seconds;
  deadline_seconds = t.deadline_seconds;
  review_deadline_seconds = t.review_deadline_seconds;
  status = opened;
  escrow_id = escrow_id;
  bid_count = 0;
  worker_id = none;
  accepted_bid_id = none;
  created_at = some created_at;
  accepted_at = none;
  submitted_at = none;
  approved_at = none;
  cancelled_at = none;
  disputed_at = none;
  dispute_reason = none;
  ruling_id = none;
  ruled_at = none;
  worker_pct = none;
  ruling_summary = none;
  expired_at = none;
  escrow_pending = false;
}

-- `except ServiceError` and `except Exception` round the lock.
abbrev pub as_lock_error : Error → Error
as_lock_error (service_error code status) = service_error code status
as_lock_error funds_exception = service_error insufficient_funds 402
as_lock_error other_exception = service_error central_bank_unavailable 502
as_lock_error (unique_failed names) = service_error central_bank_unavailable 502
as_lock_error foreign_failed = service_error central_bank_unavailable 502
as_lock_error database_error = service_error central_bank_unavailable 502
as_lock_error duplicate_dispute = service_error central_bank_unavailable 502
as_lock_error duplicate_feedback = service_error central_bank_unavailable 502
as_lock_error duplicate_agent = service_error central_bank_unavailable 502
as_lock_error not_found_response = service_error central_bank_unavailable 502
as_lock_error duplicate_task = service_error central_bank_unavailable 502
as_lock_error duplicate_bid = service_error central_bank_unavailable 502
as_lock_error key_error = service_error central_bank_unavailable 502
as_lock_error runtime_error = service_error central_bank_unavailable 502

module _ {B : Type 0} ⦃client : BankClient B⦄ where
  -- `except DuplicateTaskError`: the escrow goes back, and a failure of that is only logged.
  abbrev pub roll_back : String → String → Error → Action (World B) (Unit {0})
  roll_back escrow_id poster_id duplicate_task = do
    handle (release_escrow escrow_id (some poster_id)) (λ e. pure tt)
    raise (service_error task_already_exists 409)
  roll_back escrow_id poster_id (service_error code status) = raise (service_error code status)
  roll_back escrow_id poster_id duplicate_bid = raise duplicate_bid
  roll_back escrow_id poster_id key_error = raise key_error
  roll_back escrow_id poster_id runtime_error = raise runtime_error
  roll_back escrow_id poster_id other_exception = raise other_exception
  roll_back escrow_id poster_id (unique_failed names) = raise (unique_failed names)
  roll_back escrow_id poster_id foreign_failed = raise foreign_failed
  roll_back escrow_id poster_id database_error = raise database_error
  roll_back escrow_id poster_id funds_exception = raise funds_exception
  roll_back escrow_id poster_id duplicate_dispute = raise duplicate_dispute
  roll_back escrow_id poster_id duplicate_feedback = raise duplicate_feedback
  roll_back escrow_id poster_id duplicate_agent = raise duplicate_agent
  roll_back escrow_id poster_id not_found_response = raise not_found_response

  -- The request once its tokens have passed.
  unfoldable pub store_task : Reads → NewTask → String → Action (World B) Response
  store_task reads t escrow_token = do
    existing ← on_store (get_task t.task_id)
    raise_if (is_some existing) (service_error task_already_exists 409)
    escrow_id ← handle (on_bank (client.lock escrow_token)) (λ e. raise (as_lock_error e))
    handle (on_store (insert_task (new_row t escrow_id reads.stamp)))
        (roll_back escrow_id t.poster_id)
    row ← on_store (get_task t.task_id)
    updated ← or_raise row runtime_error
    lift (task_to_response updated)

module _ {B : Type 0} ⦃client : BankClient B⦄ ⦃crypto : Crypto⦄ where
  unfoldable pub create_task : Reads → String → String → Action (World B) Response
  create_task reads task_token escrow_token = do
    t ← lift (create_request task_token escrow_token)
    store_task reads t escrow_token
