-- ===== src/Gateway/Writer/Feedback.antt =====
-- Feedback in the gateway: `submit_feedback`.
use agent_economy.Shared.{
  String, Option, none, some, [], ◌∷◌, Bool, true, false, text_eq, if◌then◌else◌,
}
use agent_economy.Shared.Int.{pos}
use agent_economy.Shared.Dict.{set}
use agent_economy.Shared.Action.{Action, pure, handle, ◌>>=◌, ◌>>◌, feedback_exists}
use agent_economy.Gateway.Sql.{int, text, Row, Connection}
use agent_economy.Gateway.Statements.{
  Event, begin, commit, insert, update, insert_event, key_is, text_or_null,
}
use agent_economy.Gateway.Writer.Handlers.{on_conflict}
use agent_economy.Gateway.Writer.Agents.{Written}

pub record NewFeedback : Type 0 where
  pub feedback_id : String
  pub task_id : String
  pub from_agent_id : String
  pub to_agent_id : String
  pub role : String
  pub category : String
  pub rating : String
  pub comment : Option String
  pub submitted_at : String
  pub reveal_reverse : Bool
  pub reverse_feedback_id : Option String
  pub event : Event

abbrev feedback_row : NewFeedback → Row
feedback_row request =
    ("feedback_id", text request.feedback_id)
    ∷ ("task_id", text request.task_id)
    ∷ ("from_agent_id", text request.from_agent_id)
    ∷ ("to_agent_id", text request.to_agent_id)
    ∷ ("role", text request.role)
    ∷ ("category", text request.category)
    ∷ ("rating", text request.rating)
    ∷ ("comment", text_or_null request.comment)
    ∷ ("submitted_at", text request.submitted_at)
    ∷ ("visible", int (if request.reveal_reverse then pos 1 else pos 0))
    ∷ []

unfoldable pub reveal : Bool → Option String → Action Connection (Unit {0})
reveal false reverse_id = pure tt
reveal true none = pure tt
reveal true (some reverse_id) = do
  update "reputation_feedback" (set "visible" (int (pos 1))) (key_is "feedback_id" reverse_id)
  pure tt

abbrev pub write_feedback : NewFeedback → Action Connection Written
write_feedback request = do
  begin
  insert "reputation_feedback" (feedback_row request)
  reveal request.reveal_reverse request.reverse_feedback_id
  event_id ← insert_event request.event
  commit
  pure (record { id = request.feedback_id; event_id = event_id })

unfoldable pub submit_feedback : NewFeedback → Action Connection Written
submit_feedback request = handle (write_feedback request) (on_conflict feedback_exists)
