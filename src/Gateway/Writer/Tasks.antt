-- ===== src/Gateway/Writer/Tasks.antt =====
-- Tasks, bids and assets in the gateway: `create_task`, `submit_bid`, `update_task_status` and
-- `record_asset`.
use agent_economy.Shared.{
  ℕ, String, Option, none, some, List, [], ◌∷◌, Bool, true, false, ◌&&◌, text_eq,
}
use agent_economy.Shared.Int.{ℤ, pos}
use agent_economy.Shared.Dict.{Dict, set}
use agent_economy.Shared.Action.{
  lift, Action, pure, handle, raise_if, ◌>>=◌, ◌>>◌, service_error, task_exists, bid_exists,
  asset_exists, invalid_field, task_not_found, database_error,
}
use agent_economy.Gateway.Sql.{Cell, int, text, Row, Connection}
use agent_economy.Gateway.Schema.{mentions}
use agent_economy.Gateway.Statements.{
  compile_constraints, Event, begin, commit, insert, update, insert_event, key_is, Constraints,
  update_where, merge, verify_cross_table_constraint, text_or_null,
}
use agent_economy.Gateway.Writer.Handlers.{on_conflict, keep_refusals, roll_back}
use agent_economy.Gateway.Writer.Accounts.{rolled_back_unless}
use agent_economy.Gateway.Writer.Agents.{Written}
use agent_economy.Gateway.Writer.Escrows.{explain}

-- `data.get(name, 0)`
abbrev or_zero : Option ℤ → ℤ
or_zero none = pos 0
or_zero (some z) = z

pub record NewTask : Type 0 where
  pub task_id : String
  pub poster_id : String
  pub title : String
  pub spec : String
  pub reward : ℤ
  pub status : String
  pub bidding_deadline_seconds : ℤ
  pub deadline_seconds : ℤ
  pub review_deadline_seconds : ℤ
  pub bidding_deadline : String
  pub bid_count : Option ℤ
  pub escrow_pending : Option ℤ
  pub escrow_id : String
  pub created_at : String
  pub event : Event

abbrev task_row : NewTask → Row
task_row request =
    ("task_id", text request.task_id)
    ∷ ("poster_id", text request.poster_id)
    ∷ ("title", text request.title)
    ∷ ("spec", text request.spec)
    ∷ ("reward", int request.reward)
    ∷ ("status", text request.status)
    ∷ ("bidding_deadline_seconds", int request.bidding_deadline_seconds)
    ∷ ("deadline_seconds", int request.deadline_seconds)
    ∷ ("review_deadline_seconds", int request.review_deadline_seconds)
    ∷ ("bidding_deadline", text request.bidding_deadline)
    ∷ ("bid_count", int (or_zero request.bid_count))
    ∷ ("escrow_pending", int (or_zero request.escrow_pending))
    ∷ ("escrow_id", text request.escrow_id)
    ∷ ("created_at", text request.created_at)
    ∷ []

-- `BEGIN`, one row, its event, `COMMIT`: what five methods do.
unfoldable pub write_row : String → Row → String → Event → Action Connection Written
write_row table row id event = do
  begin
  insert table row
  event_id ← insert_event event
  commit
  pure (record { id = id; event_id = event_id })

unfoldable pub create_task : NewTask → Action Connection Written
create_task request =
    handle (write_row "board_tasks" (task_row request) request.task_id request.event)
      (on_conflict task_exists)

pub record NewBid : Type 0 where
  pub bid_id : String
  pub task_id : String
  pub bidder_id : String
  pub proposal : String
  pub amount : Option ℤ
  pub submitted_at : String
  pub event : Event

abbrev bid_row : NewBid → Row
bid_row request =
    ("bid_id", text request.bid_id)
    ∷ ("task_id", text request.task_id)
    ∷ ("bidder_id", text request.bidder_id)
    ∷ ("proposal", text request.proposal)
    ∷ ("amount", int (or_zero request.amount))
    ∷ ("submitted_at", text request.submitted_at)
    ∷ []

pub record NewAsset : Type 0 where
  pub asset_id : String
  pub task_id : String
  pub uploader_id : String
  pub filename : String
  pub content_type : String
  pub size_bytes : ℤ
  pub storage_path : String
  pub content_hash : Option String
  pub uploaded_at : String
  pub event : Event

abbrev asset_row : NewAsset → Row
asset_row request =
    ("asset_id", text request.asset_id)
    ∷ ("task_id", text request.task_id)
    ∷ ("uploader_id", text request.uploader_id)
    ∷ ("filename", text request.filename)
    ∷ ("content_type", text request.content_type)
    ∷ ("size_bytes", int request.size_bytes)
    ∷ ("storage_path", text request.storage_path)
    ∷ ("content_hash", text_or_null request.content_hash)
    ∷ ("uploaded_at", text request.uploaded_at)
    ∷ []

pub record TaskUpdate : Type 0 where
  pub updates : Dict String Cell
  pub event : Event

abbrev task_update_columns : List String
task_update_columns =
    "status" ∷ "worker_id" ∷ "accepted_bid_id" ∷ "accepted_at" ∷ "execution_deadline"
    ∷ "submitted_at" ∷ "review_deadline" ∷ "approved_at" ∷ "cancelled_at" ∷ "dispute_reason"
    ∷ "disputed_at" ∷ "ruling_id" ∷ "worker_pct" ∷ "ruling_summary" ∷ "ruled_at" ∷ "expired_at"
    ∷ "escrow_pending" ∷ []

unfoldable pub all_allowed : Dict String Cell → Bool
all_allowed [] = true
all_allowed ((column, _) ∷ updates) = mentions column task_update_columns && all_allowed updates

unfoldable pub set_all : Dict String Cell → Row → Row
set_all [] row = row
set_all ((column, value) ∷ updates) row = set_all updates (set column value row)

-- `SET` with nothing to set is no SQL.
abbrev pub is_empty : Dict String Cell → Bool
is_empty [] = true
is_empty (_ ∷ _) = false

module _ (is_identifier : String → Bool) where
  -- A constraint on `task_id` takes the place of the request's own.
  unfoldable pub check_task : String → Option Constraints → Action Connection (Unit {0})
  check_task task_id none = pure tt
  check_task task_id (some constraints) = do
    verify_cross_table_constraint is_identifier "board_tasks"
        (merge (("task_id", text task_id) ∷ []) constraints)
    pure tt

  unfoldable pub write_checked :
      String → Option Constraints → String → Row → String → Event → Action Connection Written
  write_checked task_id constraints table row id event = do
    begin
    check_task task_id constraints
    insert table row
    event_id ← insert_event event
    commit
    pure (record { id = id; event_id = event_id })

  unfoldable pub submit_bid : NewBid → Option Constraints → Action Connection Written
  submit_bid request constraints =
      handle
        (write_checked request.task_id constraints "board_bids" (bid_row request) request.bid_id
          request.event)
        (on_conflict bid_exists)

  unfoldable pub record_asset : NewAsset → Option Constraints → Action Connection Written
  record_asset request constraints =
      handle
        (write_checked request.task_id constraints "board_assets" (asset_row request)
          request.asset_id request.event)
        (on_conflict asset_exists)

  unfoldable pub update_task :
      String → Dict String Cell → Option Constraints → Action Connection (Unit {0})
  update_task task_id updates none = do
    raise_if (is_empty updates) database_error
    found ← update "board_tasks" (set_all updates) (key_is "task_id" task_id)
    rolled_back_unless found (service_error task_not_found 404)
  update_task task_id updates (some constraints) = do
    lift (compile_constraints is_identifier constraints)
    raise_if (is_empty updates) database_error
    found ← update_where is_identifier "board_tasks" "task_id" task_id constraints (set_all updates)
    explain "board_tasks" "task_id" task_id constraints (service_error task_not_found 404) found

  abbrev pub change_task : String → TaskUpdate → Option Constraints → Action Connection ℕ
  change_task task_id request constraints = do
    begin
    rolled_back_unless (all_allowed request.updates) (service_error invalid_field 400)
    update_task task_id request.updates constraints
    event_id ← insert_event request.event
    commit
    pure event_id

  -- Of the answer, the number of the event.
  unfoldable pub update_task_status : String → TaskUpdate → Option Constraints → Action Connection ℕ
  update_task_status task_id request constraints =
      handle (change_task task_id request constraints) (keep_refusals roll_back)
