-- ===== src/Board/Store.antt =====
-- The methods of `InMemoryTaskStore`
-- (services/task-board/src/task_board_service/services/in_memory_task_store.py).
pub mod Tallies
use mathlib.Core.Option.{get_or}
use agent_economy.Shared.{
  ℕ, ◌+◌, suc, zero, String, Option, none, some, List, [], ◌∷◌, Bool, true, length, leb, text_eq,
  pair_eq, ◌==◌, if◌then◌else◌,
}
use agent_economy.Shared.Dict.{Dict, get, set, contains, count_of}
use agent_economy.Shared.Rows.{
  select, keep, insert_asc, sort_asc, insert_desc, sort_desc, drop, take,
}
use agent_economy.Shared.Action.{
  Action, ok, pure, gets, raise_if, modify, ◌>>=◌, ◌>>◌, duplicate_task, duplicate_bid,
}
use agent_economy.Board.Types.{
  Status, same_status, Task, Bid, Asset, TaskStore, Update, set_status, set_worker_id,
  set_accepted_bid_id, set_dispute_reason, set_ruling_id, set_ruling_summary, set_accepted_at,
  set_submitted_at, set_approved_at, set_cancelled_at, set_disputed_at, set_ruled_at,
  set_expired_at, set_worker_pct, set_escrow_pending,
}

abbrev pub Db : Type 0 → Type 0
Db = Action TaskStore

-- `row[key] = value`
abbrev pub apply_update : Update → Task → Task
apply_update (set_status x) t = record t { status = x }
apply_update (set_worker_id x) t = record t { worker_id = some x }
apply_update (set_accepted_bid_id x) t = record t { accepted_bid_id = some x }
apply_update (set_dispute_reason x) t = record t { dispute_reason = some x }
apply_update (set_ruling_id x) t = record t { ruling_id = some x }
apply_update (set_ruling_summary x) t = record t { ruling_summary = some x }
apply_update (set_accepted_at x) t = record t { accepted_at = some x }
apply_update (set_submitted_at x) t = record t { submitted_at = some x }
apply_update (set_approved_at x) t = record t { approved_at = some x }
apply_update (set_cancelled_at x) t = record t { cancelled_at = some x }
apply_update (set_disputed_at x) t = record t { disputed_at = some x }
apply_update (set_ruled_at x) t = record t { ruled_at = some x }
apply_update (set_expired_at x) t = record t { expired_at = some x }
apply_update (set_worker_pct x) t = record t { worker_pct = some x }
apply_update (set_escrow_pending x) t = record t { escrow_pending = x }

abbrev pub apply_updates : List Update → Task → Task
apply_updates [] t = t
apply_updates (u ∷ us) t = apply_updates us (apply_update u t)

abbrev pub put_task : String → Task → TaskStore → TaskStore
put_task task_id row s = record s { tasks = set task_id row s.tasks }

unfoldable pub insert_task : Task → Db (Unit {0})
insert_task row = do
  raise_if (← gets (λ s. contains row.task_id s.tasks)) duplicate_task
  modify (put_task row.task_id row)

unfoldable pub get_task : String → Db (Option Task)
get_task task_id = gets (λ s. get task_id s.tasks)

-- `expected_status is None or row["status"] == expected_status`
abbrev pub expects : Option Status → Task → Bool
expects none row = true
expects (some status) row = same_status row.status status

abbrev pub write_row : String → List Update → Option Task → Option Status → Db ℕ
write_row task_id updates none expected s = (ok 0, s)
write_row task_id updates (some row) expected s =
    if expects expected row
    then (ok 1, put_task task_id (apply_updates updates row) s)
    else (ok 0, s)

-- `update_task`: the number of rows that were changed.
unfoldable pub update_task : String → List Update → Option Status → Db ℕ
update_task task_id [] expected_status = pure 0
update_task task_id (u ∷ us) expected_status = do
  row ← gets (λ s. get task_id s.tasks)
  write_row task_id (u ∷ us) row expected_status

-- The writes of `insert_bid` once its guards have passed.
abbrev pub add_bid : Bid → Task → TaskStore → TaskStore
add_bid bid task s = record s {
  tasks = set bid.task_id (record task { bid_count = task.bid_count + 1 }) s.tasks;
  bids = set bid.bid_id bid s.bids;
  bid_index = set (bid.task_id, bid.bidder_id) bid.bid_id s.bid_index;
}

abbrev pub new_bid : Bid → Option Task → Db (Unit {0})
new_bid bid none = pure tt
new_bid bid (some task) = do
  raise_if (← gets (λ s. contains (bid.task_id, bid.bidder_id) s.bid_index)) duplicate_bid
  modify (add_bid bid task)

-- A bid on a task that does not exist is dropped without an error.
unfoldable pub insert_bid : Bid → Db (Unit {0})
insert_bid bid = do row ← gets (λ s. get bid.task_id s.tasks); new_bid bid row

abbrev pub of_task : String → Option Bid → Option Bid
of_task task_id none = none
of_task task_id (some bid) = if bid.task_id == task_id then some bid else none

unfoldable pub get_bid : String → String → Db (Option Bid)
get_bid bid_id task_id = gets (λ s. of_task task_id (get bid_id s.bids))

abbrev matches_status : Option Status → Task → Bool
matches_status none row = true
matches_status (some status) row = same_status row.status status

abbrev matches_poster : Option String → Task → Bool
matches_poster none row = true
matches_poster (some poster) row = row.poster_id == poster

-- `str(row.get("worker_id")) == worker_id`: a row without a worker reads "None".
abbrev worker_text : Option String → String
worker_text none = "None"
worker_text (some worker) = worker

abbrev matches_worker : Option String → Task → Bool
matches_worker none row = true
matches_worker (some worker) row = worker_text row.worker_id == worker

abbrev created : Task → ℕ
created row = get_or row.created_at 0

abbrev skip : Option ℕ → List Task → List Task
skip none rows = rows
skip (some n) rows = drop n rows

abbrev limit_to : Option ℕ → List Task → List Task
limit_to none rows = rows
limit_to (some n) rows = take n rows

unfoldable pub list_tasks :
    Option Status → Option String → Option String → Option ℕ → Option ℕ → Db (List Task)
unfolding select keep sort_desc insert_desc drop take
list_tasks status poster_id worker_id limit offset = gets (λ s. limit_to limit (
    skip offset (
      sort_desc created (
        keep (matches_worker worker_id)
          (keep (matches_poster poster_id) (select (matches_status status) s.tasks))))))

unfoldable pub count_tasks : TaskStore → ℕ
count_tasks s = length s.tasks

-- `count_tasks_by_status`, read at a status: a status with no rows has no entry, which reads 0.
unfoldable pub count_with_status : Status → TaskStore → ℕ
count_with_status status s = count_of (λ row. same_status row.status status) s.tasks

unfoldable pub get_bids_for_task : String → Db (List Bid)
unfolding select sort_asc insert_asc
get_bids_for_task task_id =
    gets (λ s. sort_asc (λ bid. bid.submitted_at) (select (λ bid. bid.task_id == task_id) s.bids))

unfoldable pub insert_asset : Asset → Db (Unit {0})
insert_asset asset = modify (λ s. record s { assets = set asset.asset_id asset s.assets })

abbrev pub asset_of : String → Option Asset → Option Asset
asset_of task_id none = none
asset_of task_id (some asset) = if asset.task_id == task_id then some asset else none

unfoldable pub get_asset : String → String → Db (Option Asset)
get_asset asset_id task_id = gets (λ s. asset_of task_id (get asset_id s.assets))

unfoldable pub get_assets_for_task : String → Db (List Asset)
unfolding select sort_asc insert_asc
get_assets_for_task task_id = gets (λ s.
    sort_asc (λ asset. asset.uploaded_at) (select (λ asset. asset.task_id == task_id) s.assets))

unfoldable pub count_assets : String → Db ℕ
count_assets task_id = gets (λ s. count_of (λ asset. asset.task_id == task_id) s.assets)
