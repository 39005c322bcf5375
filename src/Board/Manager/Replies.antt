-- ===== src/Board/Manager/Replies.antt =====
-- `_task_to_response` (services/task-board/src/task_board_service/services/task_manager.py).
use agent_economy.Shared.{ℕ, Option, List, [], ◌∷◌}
use agent_economy.Shared.Action.{Result, ok}
use agent_economy.Board.Types.{Task}
use agent_economy.Board.Tokens.{◌>>=◌}
use agent_economy.Board.Deadlines.{compute_deadline}

-- `_task_to_response`: the row and the three deadlines that follow from it.
pub record Response : Type 0 where
  pub row : Task
  pub bidding_deadline : Option ℕ
  pub execution_deadline : Option ℕ
  pub review_deadline : Option ℕ

-- A deadline that is out of range leaves no reply.
unfoldable pub task_to_response : Task → Result Response
task_to_response row = do
  bidding ← compute_deadline row.created_at row.bidding_deadline_seconds
  execution ← compute_deadline row.accepted_at row.deadline_seconds
  review ← compute_deadline row.submitted_at row.review_deadline_seconds
  ok (record {
    row = row;
    bidding_deadline = bidding;
    execution_deadline = execution;
    review_deadline = review;
  })

-- The rows of `list_tasks` as summaries, which have the same deadlines and fewer columns.
unfoldable pub summaries : List Task → Result (List Response)
summaries [] = ok []
summaries (row ∷ rows) = do reply ← task_to_response row; rest ← summaries rows; ok (reply ∷ rest)
