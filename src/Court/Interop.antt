-- ===== src/Court/Interop.antt =====
-- What the Court sends after a ruling, against the checks of the services that receive it: the Task
-- Board (services/task-board/src/task_board_service/services/task_manager.py) and the Reputation
-- service (services/reputation/src/reputation_service/services/feedback.py).
use agent_economy.Shared.{ℕ, ◌≡◌, String, none, some, text_eq}
use agent_economy.Shared.Int.{ℤ}
use agent_economy.Shared.Dict.{pop}
use agent_economy.Shared.Value.{int}
use agent_economy.Shared.Action.{ok}
use agent_economy.Board.Tokens.{Crypto}
use agent_economy.Board.Manager.Requests.{ruling_request, valid_worker_pct}
use agent_economy.Court.Types.{Dispute}
use agent_economy.Court.Ruling.{spec_feedback, delivery_feedback}
use agent_economy.Reputation.Rules.{validate_feedback}

-- What a ruling sends, and the Task Board's answer to its token.
pub record Passes ⦃crypto : Crypto⦄ (t : Dispute) (id platform : String) (pct : ℤ)
    (summary : String) (limit : ℕ) (fresh token : String) : Type 0 where
  pub about_spec :
      validate_feedback (pop "action" (spec_feedback platform t pct summary)) limit ≡ none
  pub about_delivery :
      validate_feedback (pop "action" (delivery_feedback platform t pct summary)) limit ≡ none
  pub recorded : ruling_request platform fresh t.task_id token ≡ ok (id, summary, int pct)
  pub percentage : valid_worker_pct (int pct) ≡ some pct
