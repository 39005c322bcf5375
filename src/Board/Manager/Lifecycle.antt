-- ===== src/Board/Manager/Lifecycle.antt =====
-- The requests of `TaskManager` that move a task along its lifecycle.
use Prim.Native.String.{count}
use agent_economy.Shared.{
  ℕ, String, Option, none, some, List, [], ◌∷◌, Bool, false, not, ltb, nat_beq, text_eq, ◌==◌,
  if◌then◌else◌,
}
use agent_economy.Shared.Int.{ℤ, pos, eqb_ℤ}
use agent_economy.Shared.Value.{Object}
use agent_economy.Shared.Action.{
  Action, Error, pure, raise, or_raise, raise_if, handle, lift, ◌>>=◌, ◌>>◌, service_error,
  runtime_error, duplicate_bid, duplicate_task, key_error, other_exception, unique_failed,
  foreign_failed, database_error, funds_exception, duplicate_dispute, duplicate_feedback,
  duplicate_agent, not_found_response, task_not_found, invalid_status, forbidden, self_bid,
  bid_already_exists, bid_not_found, no_assets, invalid_reason, invalid_worker_pct,
}
use agent_economy.Board.Types.{
  Status, opened, accepted, submitted, approved, cancelled, disputed, ruled, expired, same_status,
  Task, Bid, Update, set_status, set_worker_id, set_accepted_bid_id, set_accepted_at,
  set_submitted_at, set_approved_at, set_cancelled_at, set_disputed_at, set_dispute_reason,
  set_ruling_id, set_ruled_at, set_worker_pct, set_ruling_summary,
}
use agent_economy.Board.Store.{
  get_task, update_task, insert_bid, get_bid, get_bids_for_task, count_assets, list_tasks,
}
use agent_economy.Board.Client.{BankClient, World, on_store, release_escrow, split_escrow}
use agent_economy.Board.Tokens.{Crypto, nonempty_text, field_or_null}
use agent_economy.Board.Deadlines.{
  Reads, compute_deadline, has_passed, evaluate_deadline, evaluate_deadlines_batch,
}
use agent_economy.Board.Manager.Replies.{Response, task_to_response, summaries}
use agent_economy.Board.Manager.Requests.{
  signed_request, bid_request, accept_request, list_request, ruling_request, valid_worker_pct,
}

-- `len(reason) < 1` and `len(reason) > 10000`
abbrev pub dispute_reason_of : Object → Option String
dispute_reason_of payload = elim (nonempty_text (field_or_null "reason" payload)) [
  | none ↦ none
  | some s ↦ if ltb 10000 (count s) then none else some s
]

-- The reply of `submit_bid`.
abbrev pub bid_row : Reads → String → String → ℤ → Bid
bid_row reads task_id bidder_id amount = record {
  bid_id = reads.uuid;
  task_id = task_id;
  bidder_id = bidder_id;
  amount = amount;
  submitted_at = reads.stamp;
}

-- `signer_id == task["worker_id"]`
abbrev pub is_worker : String → Option String → Bool
is_worker signer none = false
is_worker signer (some worker) = signer == worker

-- `except DuplicateBidError`
abbrev pub as_bid_error : Error → Error
as_bid_error duplicate_bid = service_error bid_already_exists 409
as_bid_error (service_error code status) = service_error code status
as_bid_error duplicate_task = duplicate_task
as_bid_error key_error = key_error
as_bid_error runtime_error = runtime_error
as_bid_error other_exception = other_exception
as_bid_error (unique_failed names) = unique_failed names
as_bid_error foreign_failed = foreign_failed
as_bid_error database_error = database_error
as_bid_error funds_exception = funds_exception
as_bid_error duplicate_dispute = duplicate_dispute
as_bid_error duplicate_feedback = duplicate_feedback
as_bid_error duplicate_agent = duplicate_agent
as_bid_error not_found_response = not_found_response

module _ {B : Type 0} ⦃client : BankClient B⦄ where
  -- The row of a task, brought up to date with its deadlines.
  unfoldable pub load_task : Reads → String → Action (World B) Task
  load_task reads task_id = do
    row ← on_store (get_task task_id)
    task ← or_raise row (service_error task_not_found 404)
    evaluate_deadline reads task

  -- The guards on the status, and on the signer as one of the task's parties.
  abbrev pub must_be : Status → Task → Action (World B) (Unit {0})
  must_be status task =
      raise_if (not (same_status task.status status)) (service_error invalid_status 409)

  abbrev pub must_be_poster : String → Task → Action (World B) (Unit {0})
  must_be_poster signer task =
      raise_if (not (signer == task.poster_id)) (service_error forbidden 403)

  -- The update of a request, and the row as its reply.
  unfoldable pub write_and_reply : String → List Update → Action (World B) Response
  write_and_reply task_id updates = do
    on_store (update_task task_id updates none)
    row ← on_store (get_task task_id)
    updated ← or_raise row runtime_error
    lift (task_to_response updated)

  -- `get_task`
  unfoldable pub show_task : Reads → String → Action (World B) Response
  show_task reads task_id = do task ← load_task reads task_id; lift (task_to_response task)

  -- `list_tasks`
  unfoldable pub show_tasks :
      (ℕ → Reads)
      → Option Status
      → Option String
      → Option String
      → Option ℕ
      → Option ℕ
      → Action (World B) (List Response)
  show_tasks reads status poster_id worker_id offset limit = do
    tasks ← on_store (list_tasks status poster_id worker_id limit offset)
    evaluated ← evaluate_deadlines_batch reads tasks
    lift (summaries evaluated)

module _ {B : Type 0} ⦃client : BankClient B⦄ ⦃crypto : Crypto⦄ where
  unfoldable pub cancel_task : Reads → String → String → Action (World B) Response
  cancel_task reads task_id token = do
    (_, signer) ← lift (signed_request "poster_id" ("cancel_task" ∷ []) task_id token)
    task ← load_task reads task_id
    must_be opened task
    must_be_poster signer task
    release_escrow task.escrow_id (some task.poster_id)
    write_and_reply task_id (set_status cancelled ∷ set_cancelled_at reads.stamp ∷ [])

  unfoldable pub submit_bid : Reads → String → String → Action (World B) Bid
  submit_bid reads task_id token = do
    (bidder_id, amount) ← lift (bid_request task_id token)
    task ← load_task reads task_id
    must_be opened task
    deadline ← lift (compute_deadline task.created_at task.bidding_deadline_seconds)
    raise_if (has_passed reads.bid_checked_at deadline) (service_error invalid_status 409)
    raise_if (bidder_id == task.poster_id) (service_error self_bid 400)
    handle (on_store (insert_bid (bid_row reads task_id bidder_id amount)))
        (λ e. raise (as_bid_error e))
    pure (bid_row reads task_id bidder_id amount)

  abbrev pub authorize_list : String → Option String → Status → Task → Action (World B) (Unit {0})
  authorize_list task_id auth_token opened task = do
    signer ← lift (list_request task_id auth_token)
    must_be_poster signer task
  authorize_list task_id auth_token accepted task = pure tt
  authorize_list task_id auth_token submitted task = pure tt
  authorize_list task_id auth_token approved task = pure tt
  authorize_list task_id auth_token cancelled task = pure tt
  authorize_list task_id auth_token disputed task = pure tt
  authorize_list task_id auth_token ruled task = pure tt
  authorize_list task_id auth_token expired task = pure tt

  unfoldable pub list_bids : Reads → String → Option String → Action (World B) (List Bid)
  list_bids reads task_id auth_token = do
    task ← load_task reads task_id
    authorize_list task_id auth_token task.status task
    on_store (get_bids_for_task task_id)

  unfoldable pub accept_bid : Reads → String → String → String → Action (World B) Response
  accept_bid reads task_id bid_id token = do
    signer ← lift (accept_request task_id bid_id token)
    task ← load_task reads task_id
    must_be opened task
    must_be_poster signer task
    found ← on_store (get_bid bid_id task_id)
    bid ← or_raise found (service_error bid_not_found 404)
    write_and_reply task_id (
        set_status accepted
        ∷ set_worker_id bid.bidder_id
        ∷ set_accepted_bid_id bid_id
        ∷ set_accepted_at reads.stamp
        ∷ [])

  unfoldable pub submit_deliverable : Reads → String → String → Action (World B) Response
  submit_deliverable reads task_id token = do
    (_, signer) ← lift (signed_request "worker_id" ("submit_deliverable" ∷ []) task_id token)
    task ← load_task reads task_id
    must_be accepted task
    raise_if (not (is_worker signer task.worker_id)) (service_error forbidden 403)
    assets ← on_store (count_assets task_id)
    raise_if (nat_beq assets 0) (service_error no_assets 400)
    write_and_reply task_id (set_status submitted ∷ set_submitted_at reads.stamp ∷ [])

  unfoldable pub approve_task : Reads → String → String → Action (World B) Response
  approve_task reads task_id token = do
    (_, signer) ← lift (signed_request "poster_id" ("approve_task" ∷ []) task_id token)
    task ← load_task reads task_id
    must_be submitted task
    must_be_poster signer task
    release_escrow task.escrow_id task.worker_id
    write_and_reply task_id (set_status approved ∷ set_approved_at reads.stamp ∷ [])

  unfoldable pub dispute_task : Reads → String → String → Action (World B) Response
  dispute_task reads task_id token = do
    (payload, signer) ←
        lift (signed_request "poster_id" ("dispute_task" ∷ "file_dispute" ∷ []) task_id token)
    task ← load_task reads task_id
    must_be submitted task
    must_be_poster signer task
    reason ← or_raise (dispute_reason_of payload) (service_error invalid_reason 400)
    write_and_reply task_id
        (set_status disputed ∷ set_disputed_at reads.stamp ∷ set_dispute_reason reason ∷ [])

  -- The escrow as a ruling gives it: to the poster, to the worker, or to both.
  unfoldable pub distribute : Task → ℤ → Action (World B) (Unit {0})
  distribute task pct =
      if eqb_ℤ pct (pos 0)
      then release_escrow task.escrow_id (some task.poster_id)
      else if eqb_ℤ pct (pos 100)
      then release_escrow task.escrow_id task.worker_id
      else split_escrow task.escrow_id task.worker_id task.poster_id pct

  -- `record_ruling` does not evaluate deadlines.
  unfoldable pub record_ruling : String → Reads → String → String → Action (World B) Response
  record_ruling platform_agent_id reads task_id token = do
    (ruling_id, summary, pct_value) ←
        lift (ruling_request platform_agent_id reads.uuid task_id token)
    row ← on_store (get_task task_id)
    task ← or_raise row (service_error task_not_found 404)
    must_be disputed task
    pct ← or_raise (valid_worker_pct pct_value) (service_error invalid_worker_pct 400)
    distribute task pct
    write_and_reply task_id (
        set_status ruled
        ∷ set_ruled_at reads.stamp
        ∷ set_ruling_id ruling_id
        ∷ set_worker_pct pct
        ∷ set_ruling_summary summary
        ∷ [])
