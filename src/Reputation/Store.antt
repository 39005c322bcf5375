-- ===== src/Reputation/Store.antt =====
-- `SqliteFeedbackStore` (services/reputation/src/reputation_service/services/sqlite_feedback_store.py).
-- A table is its rows in the order of insertion; rows of one time are read in that order.
use agent_economy.Shared.{
  ℕ, String, Option, none, some, List, [], ◌∷◌, ◌++◌, Bool, true, false, ◌&&◌, ◌||◌, length,
  text_eq, ◌==◌, if◌then◌else◌,
}
use agent_economy.Shared.Rows.{keep, sort_asc}
use agent_economy.Shared.Action.{
  Action, pure, gets, modify, raise_if, ◌>>=◌, ◌>>◌, duplicate_feedback,
}

-- `FeedbackRecord`, and the row that it is read from.
pub record Feedback : Type 0 where
  pub feedback_id : String
  pub task_id : String
  pub from_agent_id : String
  pub to_agent_id : String
  pub category : String
  pub rating : String
  pub comment : Option String
  pub submitted_at : ℕ
  pub visible : Bool

abbrev pub Table : Type 0
Table = List Feedback

-- The identifier and the time that an insertion draws.
pub record Draw : Type 0 where
  pub feedback_id : String
  pub now : ℕ

-- `WHERE task_id = ? AND from_agent_id = ? AND to_agent_id = ?`
abbrev pub is_pair : String → String → String → Feedback → Bool
is_pair task_id from_agent_id to_agent_id row =
    row.task_id == task_id && row.from_agent_id == from_agent_id && row.to_agent_id == to_agent_id

-- The first row that a test accepts: `fetchone`.
unfoldable pub find : (Feedback → Bool) → Table → Option Feedback
find test [] = none
find test (row ∷ rows) = let rest = find test rows in if test row then some row else rest

unfoldable pub any_row : (Feedback → Bool) → Table → Bool
any_row test [] = false
any_row test (row ∷ rows) = let rest = any_row test rows in test row || rest

-- The primary key and the index `ux_feedback_pair`; the text of both errors has "unique" in it.
abbrev pub clashes : Feedback → Table → Bool
clashes row rows =
    any_row (λ r. r.feedback_id == row.feedback_id) rows
    || any_row (is_pair row.task_id row.from_agent_id row.to_agent_id) rows

-- `UPDATE feedback SET visible = 1 WHERE feedback_id IN (?, ?)`
abbrev pub show : String → String → Feedback → Feedback
show a b row = record row {
  visible = row.visible || (row.feedback_id == a || row.feedback_id == b);
}

unfoldable pub reveal : String → String → Table → Table
reveal a b [] = []
reveal a b (row ∷ rows) = show a b row ∷ reveal a b rows

-- What follows the insertion of a row that is not visible at once.
abbrev pub reveal_pair : Feedback → Option Feedback → Action Table Feedback
reveal_pair row none = pure row
reveal_pair row (some reverse) = do
  modify (reveal row.feedback_id reverse.feedback_id)
  pure (record row { visible = true })

abbrev pub new_row :
    Draw → String → String → String → String → String → Option String → Bool → Feedback
new_row d task_id from_agent_id to_agent_id category rating comment force_visible = record {
  feedback_id = d.feedback_id;
  task_id = task_id;
  from_agent_id = from_agent_id;
  to_agent_id = to_agent_id;
  category = category;
  rating = rating;
  comment = comment;
  submitted_at = d.now;
  visible = force_visible;
}

-- The transaction of `insert_feedback`; only its first statement can fail.
unfoldable pub insert_row : Feedback → Action Table Feedback
insert_row row = do
  raise_if (← gets (clashes row)) duplicate_feedback
  modify (λ rows. rows ++ (row ∷ []))
  reverse ← gets (find (is_pair row.task_id row.to_agent_id row.from_agent_id))
  if row.visible then pure row else reveal_pair row reverse

unfoldable pub insert_feedback :
    Draw → String → String → String → String → String → Option String → Bool → Action Table Feedback
insert_feedback d task_id from_agent_id to_agent_id category rating comment force_visible =
    insert_row (new_row d task_id from_agent_id to_agent_id category rating comment force_visible)

unfoldable pub get_by_id : String → Table → Option Feedback
get_by_id feedback_id rows = find (λ row. row.feedback_id == feedback_id) rows

unfoldable pub get_by_task : String → Table → List Feedback
get_by_task task_id rows =
    sort_asc (λ row. row.submitted_at) (keep (λ row. row.task_id == task_id) rows)

unfoldable pub get_by_agent : String → Table → List Feedback
get_by_agent agent_id rows =
    sort_asc (λ row. row.submitted_at) (keep (λ row. row.to_agent_id == agent_id) rows)

unfoldable pub count : Table → ℕ
count rows = length rows
