-- ===== src/Gateway/Writer/Claims.antt =====
-- Claims in the gateway: `file_claim`, `update_claim_status`, `submit_rebuttal`, `record_ruling` and
-- `delete_ruling`.
use agent_economy.Shared.{ℕ, String, Option, none, some, [], ◌∷◌, Bool, text_eq}
use agent_economy.Shared.Int.{ℤ}
use agent_economy.Shared.Dict.{set}
use agent_economy.Shared.Action.{
  Action, Error, pure, handle, gets, modify, ◌>>=◌, ◌>>◌, service_error, claim_exists,
  claim_not_found, rebuttal_exists, ruling_exists,
}
use agent_economy.Gateway.Sql.{int, text, Row, Connection, any_row, remove_rows, write_table}
use agent_economy.Gateway.Statements.{
  Event, begin, commit, insert, update, insert_event, key_is, Constraints, update_where, merge,
  verify_cross_table_constraint, text_or_null,
}
use agent_economy.Gateway.Writer.Handlers.{on_conflict, keep_refusals, roll_back}
use agent_economy.Gateway.Writer.Accounts.{rolled_back_unless}
use agent_economy.Gateway.Writer.Agents.{Written}
use agent_economy.Gateway.Writer.Escrows.{explain}
use agent_economy.Gateway.Writer.Tasks.{write_row}

pub record NewClaim : Type 0 where
  pub claim_id : String
  pub task_id : String
  pub claimant_id : String
  pub respondent_id : String
  pub reason : String
  pub status : String
  pub rebuttal_deadline : Option String
  pub filed_at : String
  pub event : Event

abbrev claim_row : NewClaim → Row
claim_row request =
    ("claim_id", text request.claim_id)
    ∷ ("task_id", text request.task_id)
    ∷ ("claimant_id", text request.claimant_id)
    ∷ ("respondent_id", text request.respondent_id)
    ∷ ("reason", text request.reason)
    ∷ ("status", text request.status)
    ∷ ("rebuttal_deadline", text_or_null request.rebuttal_deadline)
    ∷ ("filed_at", text request.filed_at)
    ∷ []

unfoldable pub file_claim : NewClaim → Action Connection Written
file_claim request =
    handle (write_row "court_claims" (claim_row request) request.claim_id request.event)
      (on_conflict claim_exists)

abbrev not_there : Error
not_there = service_error claim_not_found 404

abbrev set_status : String → Row → Row
set_status status = set "status" (text status)

pub record ClaimUpdate : Type 0 where
  pub status : String
  pub event : Option Event

unfoldable pub insert_optional_event : Option Event → Action Connection ℕ
insert_optional_event none = pure 0
insert_optional_event (some event) = insert_event event

pub record NewRebuttal : Type 0 where
  pub rebuttal_id : String
  pub claim_id : String
  pub agent_id : String
  pub content : String
  pub submitted_at : String
  pub claim_status_update : Option String
  pub event : Event

abbrev rebuttal_row : NewRebuttal → Row
rebuttal_row request =
    ("rebuttal_id", text request.rebuttal_id)
    ∷ ("claim_id", text request.claim_id)
    ∷ ("agent_id", text request.agent_id)
    ∷ ("content", text request.content)
    ∷ ("submitted_at", text request.submitted_at)
    ∷ []

pub record NewRuling : Type 0 where
  pub ruling_id : String
  pub claim_id : String
  pub task_id : String
  pub worker_pct : ℤ
  pub summary : String
  pub judge_votes : String
  pub ruled_at : String
  pub claim_status_update : Option String
  pub event : Event

abbrev ruling_row : NewRuling → Row
ruling_row request =
    ("ruling_id", text request.ruling_id)
    ∷ ("claim_id", text request.claim_id)
    ∷ ("task_id", text request.task_id)
    ∷ ("worker_pct", int request.worker_pct)
    ∷ ("summary", text request.summary)
    ∷ ("judge_votes", text request.judge_votes)
    ∷ ("ruled_at", text request.ruled_at)
    ∷ []

module _ (is_identifier : String → Bool) where
  -- An `UPDATE` of a claim's status with constraints, and what follows if it changed no row.
  unfoldable pub set_claim_status : String → String → Constraints → Action Connection (Unit {0})
  set_claim_status claim_id status constraints = do
    found ←
        update_where is_identifier "court_claims" "claim_id" claim_id constraints
          (set_status status)
    explain "court_claims" "claim_id" claim_id constraints not_there found

  unfoldable pub update_claim : String → String → Option Constraints → Action Connection (Unit {0})
  update_claim claim_id status none = do
    found ← update "court_claims" (set_status status) (key_is "claim_id" claim_id)
    rolled_back_unless found not_there
  update_claim claim_id status (some constraints) = set_claim_status claim_id status constraints

  abbrev pub change_claim : String → ClaimUpdate → Option Constraints → Action Connection ℕ
  change_claim claim_id request constraints = do
    begin
    update_claim claim_id request.status constraints
    event_id ← insert_optional_event request.event
    commit
    pure event_id

  -- Of the answer, the number of the event.
  unfoldable pub update_claim_status :
      String → ClaimUpdate → Option Constraints → Action Connection ℕ
  update_claim_status claim_id request constraints =
      handle (change_claim claim_id request constraints) (keep_refusals roll_back)

  -- The claim of a rebuttal: its new status, or constraints on it alone.
  unfoldable pub touch_claim :
      String → Option String → Option Constraints → Action Connection (Unit {0})
  touch_claim claim_id none none = pure tt
  touch_claim claim_id none (some constraints) = do
    verify_cross_table_constraint is_identifier "court_claims"
        (merge (("claim_id", text claim_id) ∷ []) constraints)
    pure tt
  touch_claim claim_id (some status) none = do
    update "court_claims" (set_status status) (key_is "claim_id" claim_id)
    pure tt
  touch_claim claim_id (some status) (some constraints) =
      set_claim_status claim_id status constraints

  abbrev pub write_rebuttal : NewRebuttal → Option Constraints → Action Connection Written
  write_rebuttal request constraints = do
    begin
    insert "court_rebuttals" (rebuttal_row request)
    touch_claim request.claim_id request.claim_status_update constraints
    event_id ← insert_event request.event
    commit
    pure (record { id = request.rebuttal_id; event_id = event_id })

  unfoldable pub submit_rebuttal : NewRebuttal → Option Constraints → Action Connection Written
  submit_rebuttal request constraints =
      handle (write_rebuttal request constraints) (on_conflict rebuttal_exists)

unfoldable pub touch_ruled : String → Option String → Action Connection (Unit {0})
touch_ruled claim_id none = pure tt
touch_ruled claim_id (some status) = do
  update "court_claims" (set_status status) (key_is "claim_id" claim_id)
  pure tt

abbrev pub write_ruling : NewRuling → Action Connection Written
write_ruling request = do
  begin
  insert "court_rulings" (ruling_row request)
  touch_ruled request.claim_id request.claim_status_update
  event_id ← insert_event request.event
  commit
  pure (record { id = request.ruling_id; event_id = event_id })

unfoldable pub record_ruling : NewRuling → Action Connection Written
record_ruling request = handle (write_ruling request) (on_conflict ruling_exists)

-- With no `BEGIN`, and no event: whether a row was deleted.
unfoldable pub delete_ruling : String → Action Connection Bool
delete_ruling claim_id = do
  deleted ← gets (λ c. any_row (key_is "claim_id" claim_id) (c.current.rows "court_rulings"))
  modify (λ c.
      write_table "court_rulings"
        (remove_rows (key_is "claim_id" claim_id) (c.current.rows "court_rulings")) c)
  commit
  pure deleted
