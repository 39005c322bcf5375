-- ===== src/Gateway/Writer/Handlers.antt =====
-- The `except` clauses of the methods of `DbWriter`. Each rolls back, but for an error that
-- `except ServiceError: raise` passes on.
use agent_economy.Shared.{String, List}
use agent_economy.Shared.Action.{
  Action, Error, raise, ◌>>◌, Code, service_error, unique_failed, foreign_failed,
  foreign_key_violation,
}
use agent_economy.Gateway.Sql.{Connection}
use agent_economy.Gateway.Statements.{rollback}

module _ {A : Type 0} where
  -- `except sqlite3.IntegrityError` with its cases, then `except Exception`.
  unfoldable pub on_integrity :
      (List String → Action Connection A) → Action Connection A → Error → Action Connection A
  on_integrity unique_case foreign_case e = elim e [
    | unique_failed names ↦ rollback >> unique_case names
    | foreign_failed ↦ rollback >> foreign_case
    | other ↦ rollback >> raise other
  ]

  unfoldable pub keep_refusals : (Error → Action Connection A) → Error → Action Connection A
  keep_refusals f e = elim e [
    | service_error code status ↦ raise (service_error code status)
    | other ↦ f other
  ]

  abbrev pub refuse_foreign : Action Connection A
  refuse_foreign = raise (service_error foreign_key_violation 409)

  -- A row that is there already is a conflict.
  unfoldable pub on_conflict : Code → Error → Action Connection A
  unfolding on_integrity
  on_conflict code = on_integrity (λ _. raise (service_error code 409)) refuse_foreign

  -- `except Exception`
  unfoldable pub roll_back : Error → Action Connection A
  roll_back e = rollback >> raise e
