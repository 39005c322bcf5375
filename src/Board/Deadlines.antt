-- ===== src/Board/Deadlines.antt =====
-- `DeadlineEvaluator` (services/task-board/src/task_board_service/services/deadline_evaluator.py).
-- Times are microseconds since the year 1, where `datetime` begins, and a deadline is cut to whole
-- seconds.
pub mod Transitions
use agent_economy.Shared.{
  ℕ, ◌+◌, ◌-◌, ◌*◌, ◌/◌, String, Option, none, some, List, [], ◌∷◌, Bool, true, false, ◌&&◌, ◌||◌,
  leb, ltb, nat_beq, if◌then◌else◌,
}
use agent_economy.Shared.Int.{ℤ, pos_part, neg_part}
use agent_economy.Shared.Action.{
  Action, Result, ok, err, pure, lift, gets, other_exception, ◌>>=◌, ◌>>◌,
}
use agent_economy.Board.Types.{
  Status, opened, accepted, submitted, approved, cancelled, disputed, ruled, expired, rank,
  same_status, Task, TaskStore, Update, set_status, set_expired_at, set_approved_at,
  set_escrow_pending,
}
use agent_economy.Board.Store.{get_task, update_task}
use agent_economy.Board.Client.{
  BankClient, World, on_store, release_escrow, try_release_escrow, retry_pending_escrow,
}

abbrev pub second : ℕ
second = 1000000

-- The last whole second of a `datetime`, 9999-12-31T23:59:59.
abbrev pub last_second : ℕ
last_second = 315537897599

-- `base_dt + timedelta(seconds=seconds)` raises `OverflowError` outside the years 1 to 9999.
abbrev pub in_calendar : ℕ → ℤ → Bool
in_calendar base seconds =
    leb (neg_part seconds) (base + pos_part seconds)
    && leb (base + pos_part seconds) (last_second + neg_part seconds)

-- A base time of NULL has no deadline.
unfoldable pub compute_deadline : Option ℕ → ℤ → Result (Option ℕ)
compute_deadline none seconds = ok none
compute_deadline (some base) seconds =
    if in_calendar (base / second) seconds
    then ok (some ((base / second + pos_part seconds - neg_part seconds) * second))
    else err other_exception

-- The successive readings of the clock in one request, and the identifier that it draws.
pub record Reads : Type 0 where
  pub now : ℕ
  pub transition_at : ℕ
  pub bid_checked_at : ℕ
  pub stamp : ℕ
  pub uuid : String

-- `_TERMINAL_STATUSES`
abbrev pub is_terminal : Status → Bool
is_terminal approved = true
is_terminal cancelled = true
is_terminal ruled = true
is_terminal expired = true
is_terminal opened = false
is_terminal accepted = false
is_terminal submitted = false
is_terminal disputed = false

abbrev pub has_passed : ℕ → Option ℕ → Bool
has_passed now none = false
has_passed now (some deadline) = leb deadline now

abbrev pub or_row : Task → Option Task → Task
or_row task none = task
or_row task (some refreshed) = refreshed

module _ {B : Type 0} ⦃client : BankClient B⦄ where
  -- The writes of a transition that has happened: the release, and the row as it is then.
  abbrev pub settle : Task → Option String → Action (World B) Task
  settle task recipient_id = do
    try_release_escrow task.task_id task.escrow_id recipient_id
    refreshed ← on_store (get_task task.task_id)
    pure (or_row task refreshed)

  abbrev pub settle_if : Bool → Task → Task → Option String → Action (World B) Task
  settle_if true task moved recipient_id = settle moved recipient_id
  settle_if false task moved recipient_id = pure task

  unfoldable pub expire : Reads → Task → Action (World B) Task
  expire reads task = do
    changed ← on_store (
        update_task task.task_id
          (set_status expired ∷ set_expired_at reads.transition_at ∷ set_escrow_pending true ∷ [])
          (some task.status))
    settle_if (ltb 0 changed) task
        (record task {
          status = expired;
          expired_at = some reads.transition_at;
          escrow_pending = true;
        })
        (some task.poster_id)

  unfoldable pub auto_approve : Reads → Task → Action (World B) Task
  auto_approve reads task = do
    changed ← on_store (
        update_task task.task_id
          (set_status approved ∷ set_approved_at reads.transition_at ∷ set_escrow_pending true ∷ [])
          (some task.status))
    settle_if (ltb 0 changed) task
        (record task {
          status = approved;
          approved_at = some reads.transition_at;
          escrow_pending = true;
        })
        task.worker_id

  -- The branches by status, after the retry.
  abbrev pub transition : Reads → Status → Task → Action (World B) Task
  transition reads opened task = do
    deadline ← lift (compute_deadline task.created_at task.bidding_deadline_seconds)
    if has_passed reads.now deadline && nat_beq task.bid_count 0
        then expire reads task
        else pure task
  transition reads accepted task = do
    deadline ← lift (compute_deadline task.accepted_at task.deadline_seconds)
    if has_passed reads.now deadline then expire reads task else pure task
  transition reads submitted task = do
    deadline ← lift (compute_deadline task.submitted_at task.review_deadline_seconds)
    if has_passed reads.now deadline then auto_approve reads task else pure task
  transition reads approved task = pure task
  transition reads cancelled task = pure task
  transition reads disputed task = pure task
  transition reads ruled task = pure task
  transition reads expired task = pure task

  unfoldable pub evaluate_deadline : Reads → Task → Action (World B) Task
  evaluate_deadline reads task =
      if is_terminal task.status
      then pure task
      else do retried ← retry_pending_escrow task; transition reads retried.status retried

  unfoldable pub evaluate_deadlines_batch : (ℕ → Reads) → List Task → Action (World B) (List Task)
  evaluate_deadlines_batch reads [] = pure []
  evaluate_deadlines_batch reads (task ∷ tasks) = do
    evaluated ← evaluate_deadline (reads 0) task
    rest ← evaluate_deadlines_batch (λ n. reads (n + 1)) tasks
    pure (evaluated ∷ rest)
