-- ===== src/Board/Types.antt =====
-- The rows of `InMemoryTaskStore`
-- (services/task-board/src/task_board_service/services/in_memory_task_store.py).
use agent_economy.Shared.{ℕ, String, Option, Bool, [], nat_beq}
use agent_economy.Shared.Int.{ℤ}
use agent_economy.Shared.Dict.{Dict}

-- `_VALID_STATUSES`; `opened` is the source's "open".
pub data Status : Type 0 where
  opened accepted submitted approved cancelled disputed ruled expired : Status

abbrev pub rank : Status → ℕ
rank opened = 0
rank accepted = 1
rank submitted = 2
rank approved = 3
rank cancelled = 4
rank disputed = 5
rank ruled = 6
rank expired = 7

-- Equality of the two status texts.
abbrev pub same_status : Status → Status → Bool
same_status s t = nat_beq (rank s) (rank t)

-- A row of `tasks`. Times are microseconds since the year 1, and `none` is the column's NULL.
pub record Task : Type 0 where
  pub task_id : String
  pub poster_id : String
  pub title : String
  pub spec : String
  pub reward : ℤ
  pub bidding_deadline_seconds : ℤ
  pub deadline_seconds : ℤ
  pub review_deadline_seconds : ℤ
  pub status : Status
  pub escrow_id : String
  pub bid_count : ℕ
  pub worker_id : Option String
  pub accepted_bid_id : Option String
  pub created_at : Option ℕ
  pub accepted_at : Option ℕ
  pub submitted_at : Option ℕ
  pub approved_at : Option ℕ
  pub cancelled_at : Option ℕ
  pub disputed_at : Option ℕ
  pub dispute_reason : Option String
  pub ruling_id : Option String
  pub ruled_at : Option ℕ
  pub worker_pct : Option ℤ
  pub ruling_summary : Option String
  pub expired_at : Option ℕ
  pub escrow_pending : Bool

pub record Bid : Type 0 where
  pub bid_id : String
  pub task_id : String
  pub bidder_id : String
  pub amount : ℤ
  pub submitted_at : ℕ

pub record Asset : Type 0 where
  pub asset_id : String
  pub task_id : String
  pub uploader_id : String
  pub filename : String
  pub content_type : String
  pub size_bytes : ℕ
  pub content_hash : String
  pub uploaded_at : ℕ

-- `_TaskDbState`, without its lock.
pub record TaskStore : Type 0 where
  pub tasks : Dict String Task
  pub bids : Dict String Bid
  pub bid_index : Dict (String × String) String
  pub assets : Dict String Asset

abbrev pub no_tasks : TaskStore
no_tasks = record { tasks = []; bids = []; bid_index = []; assets = [] }

-- A column and its new value, as an entry of the `updates` of `update_task`. The columns are the
-- ones that the callers write; another name would be refused there as unknown.
pub data Update : Type 0 where
  set_status : Status → Update
  set_worker_id set_accepted_bid_id set_dispute_reason set_ruling_id set_ruling_summary :
      String → Update
  set_accepted_at set_submitted_at set_approved_at set_cancelled_at : ℕ → Update
  set_disputed_at set_ruled_at set_expired_at : ℕ → Update
  set_worker_pct : ℤ → Update
  set_escrow_pending : Bool → Update
