-- ===== src/Gateway/Quiet.antt =====
-- The writes that record no event: a claim's status change without one, and the deletion of a ruling
-- (services/db-gateway/src/db_gateway_service/services/db_writer.py).
use agent_economy.Shared.{ℕ, ◌≡◌, refl, ap, String, Option, none, Bool, true, text_eq}
use agent_economy.Shared.Action.{
  Action, Result, ok, err, Error, handle, service_error, unique_failed,
}
use agent_economy.Gateway.Sql.{Database, Connection, settled}
use agent_economy.Gateway.Statements.{Constraints, begin, commit, rollback}
use agent_economy.Gateway.Writer.Handlers.{keep_refusals, roll_back}
use agent_economy.Gateway.Writer.Claims.{
  update_claim_status, update_claim, change_claim, insert_optional_event, delete_ruling,
}
use agent_economy.Gateway.Steps.Clauses.{Named}
use agent_economy.Gateway.Steps.Changes.{update_claim-Working}
use agent_economy.Gateway.Tried.{Tried, Fails, EndsIn, try_bind, begin-Working}

-- No transaction is open, and the file has the events that it had.
pub record IsQuiet (d : Database) (v : Connection) : Type 0 where
  pub file : Database
  pub closed : v ≡ settled file
  pub events : file.rows "events" ≡ d.rows "events"
  pub last : file.last_event ≡ d.last_event

unchanged : (d : Database) (v : Connection) → v ≡ settled d → IsQuiet d v
unchanged d v same = record { file = d; closed = same; events = refl; last = refl }

refused :
    {d : Database} (e : Error) (v : Connection)
    → Fails true d e v
    → (keep_refusals {A = ℕ} roll_back e v).1 ≡ settled d
unfolding keep_refusals roll_back rollback
refused (service_error code status) v fails = fails.clean refl refl
refused (unique_failed names) v fails = ap settled fails.kept
refused other v fails = ap settled fails.kept

module _ (d : Database) where
  handled :
      (m : Action Connection ℕ)
      → Tried true d (settled d) m (λ _ v. IsQuiet d v)
      → IsQuiet d (handle m (keep_refusals roll_back) (settled d)).1
  handled m tried = go (m (settled d)) tried.ends
    where
      go :
          (o : Result ℕ × Connection)
          → EndsIn true d (λ _ v. IsQuiet d v) o
          → IsQuiet d (handle (λ _. o) (keep_refusals roll_back) (settled d)).1
      go (err e, v) fails = unchanged d _ (refused e v fails)
      go (ok a, v) quiet = quiet

  pub update_claim_status-IsQuiet :
      (is_identifier : String → Bool) (claim_id status : String) (constraints : Option Constraints)
      → Named is_identifier constraints
      → IsQuiet d
          (update_claim_status is_identifier claim_id
            (record { status = status; event = none })
            constraints
            (settled d)).1
  unfolding update_claim_status insert_optional_event commit
  update_claim_status-IsQuiet is_identifier claim_id status constraints named =
      handled
        (change_claim is_identifier claim_id (record { status = status; event = none }) constraints)
        (try_bind begin _ begin-Working (λ _ v now.
          try_bind (update_claim is_identifier claim_id status constraints) _
            (update_claim-Working now is_identifier claim_id status constraints (λ _. named))
            (λ _ u at_last. record {
              ends = record {
                file = u.current;
                closed = refl;
                events = at_last.events;
                last = at_last.last;
              };
            })))

  pub delete_ruling-IsQuiet : (claim_id : String) → IsQuiet d (delete_ruling claim_id (settled d)).1
  unfolding delete_ruling commit
  delete_ruling-IsQuiet claim_id = record { file = _; closed = refl; events = refl; last = refl }
