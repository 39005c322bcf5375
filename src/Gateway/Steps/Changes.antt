-- ===== src/Gateway/Steps/Changes.antt =====
-- Changes of rows in a transaction keep the file and add no event.
use agent_economy.Shared.{◌≡◌, refl, String, Option, none, some, Bool, true, false, text_eq}
use agent_economy.Shared.Dict.{Dict}
use agent_economy.Shared.Action.{
  lift, raise_if, database_error, escrow_not_found, task_not_found, claim_not_found,
}
use agent_economy.Gateway.Sql.{Cell, Database, Connection}
use agent_economy.Gateway.Statements.{
  update, Constraints, compile_constraints, update_where, verify_cross_table_constraint,
}
use agent_economy.Gateway.Writer.Escrows.{resolve}
use agent_economy.Gateway.Writer.Tasks.{is_empty, check_task, update_task}
use agent_economy.Gateway.Writer.Feedback.{reveal}
use agent_economy.Gateway.Writer.Claims.{touch_claim, touch_ruled, set_claim_status, update_claim}
use agent_economy.Gateway.Tried.{Working, Tried, try_bind, try_pure, update-Working, unless-Working}
use agent_economy.Gateway.Steps.Clauses.{
  compile-Working, Named, explain-Working, update_where-Working, cross-Working, AllIdentifiers,
  sql_error-Working,
}

module _ {strict : Bool} {d : Database} {w : Connection} (working : Working d w) where
  pub resolve-Working :
      (is_identifier : String → Bool) (status resolved_at escrow_id : String)
      (constraints : Option Constraints)
      → (strict ≡ true → Named is_identifier constraints)
      → Tried strict d w
          (resolve is_identifier status resolved_at escrow_id constraints)
          (λ _ v. Working d v)
  unfolding resolve
  resolve-Working is_identifier status resolved_at escrow_id none named =
      try_bind (update "bank_escrow" _ _) _ (update-Working working "bank_escrow" _ _ refl)
        (λ _ v now. try_pure tt now)
  resolve-Working is_identifier status resolved_at escrow_id (some cs) named =
      try_bind (update_where is_identifier "bank_escrow" "escrow_id" escrow_id cs _) _
        (update_where-Working working is_identifier "bank_escrow" "escrow_id" escrow_id cs _ refl
          named)
        (λ found v now.
          explain-Working now "bank_escrow" "escrow_id" escrow_id cs escrow_not_found 404 found)

  pub update_task-Working :
      (is_identifier : String → Bool) (task_id : String) (updates : Dict String Cell)
      (constraints : Option Constraints)
      → (strict ≡ true → Named is_identifier constraints)
      → Tried strict d w
          (update_task is_identifier task_id updates constraints)
          (λ _ v. Working d v)
  unfolding update_task
  update_task-Working is_identifier task_id updates none named =
      try_bind (raise_if (is_empty updates) database_error) _
        (sql_error-Working (is_empty updates) working)
        (λ _ v now.
          try_bind (update "board_tasks" _ _) _ (update-Working now "board_tasks" _ _ refl)
            (λ found u then_on. unless-Working then_on found task_not_found 404))
  update_task-Working is_identifier task_id updates (some cs) named =
      try_bind (lift (compile_constraints is_identifier cs)) _
        (compile-Working strict is_identifier cs working named)
        (λ _ v compiled.
          try_bind (raise_if (is_empty updates) database_error) _
            (sql_error-Working (is_empty updates) compiled)
            (λ _ u then_on.
              try_bind (update_where is_identifier "board_tasks" "task_id" task_id cs _) _
                (update_where-Working then_on is_identifier "board_tasks" "task_id" task_id cs _
                  refl named)
                (λ found v now.
                  explain-Working now "board_tasks" "task_id" task_id cs task_not_found 404 found)))

  pub set_claim_status-Working :
      (is_identifier : String → Bool) (claim_id status : String) (cs : Constraints)
      → (strict ≡ true → AllIdentifiers is_identifier cs)
      → Tried strict d w (set_claim_status is_identifier claim_id status cs) (λ _ v. Working d v)
  unfolding set_claim_status
  set_claim_status-Working is_identifier claim_id status cs named =
      try_bind (update_where is_identifier "court_claims" "claim_id" claim_id cs _) _
        (update_where-Working working is_identifier "court_claims" "claim_id" claim_id cs _ refl
          named)
        (λ found v now.
          explain-Working now "court_claims" "claim_id" claim_id cs claim_not_found 404 found)

  pub reveal-Working :
      (reverse : Bool) (reverse_id : Option String)
      → Tried strict d w (reveal reverse reverse_id) (λ _ v. Working d v)
  unfolding reveal
  reveal-Working false reverse_id = try_pure tt working
  reveal-Working true none = try_pure tt working
  reveal-Working true (some reverse_id) =
      try_bind (update "reputation_feedback" _ _) _
        (update-Working working "reputation_feedback" _ _ refl) (λ _ v now. try_pure tt now)

  pub touch_ruled-Working :
      (claim_id : String) (status : Option String)
      → Tried strict d w (touch_ruled claim_id status) (λ _ v. Working d v)
  unfolding touch_ruled
  touch_ruled-Working claim_id none = try_pure tt working
  touch_ruled-Working claim_id (some status) =
      try_bind (update "court_claims" _ _) _ (update-Working working "court_claims" _ _ refl)
        (λ _ v now. try_pure tt now)

module _ {strict : Bool} {d : Database} {w : Connection} (working : Working d w) where
  pub update_claim-Working :
      (is_identifier : String → Bool) (claim_id status : String) (constraints : Option Constraints)
      → (strict ≡ true → Named is_identifier constraints)
      → Tried strict d w
          (update_claim is_identifier claim_id status constraints)
          (λ _ v. Working d v)
  unfolding update_claim
  update_claim-Working is_identifier claim_id status none named =
      try_bind (update "court_claims" _ _) _ (update-Working working "court_claims" _ _ refl)
        (λ found v now. unless-Working now found claim_not_found 404)
  update_claim-Working is_identifier claim_id status (some cs) named =
      set_claim_status-Working working is_identifier claim_id status cs named

module _ {d : Database} {w : Connection} (working : Working d w) where
  pub check_task-Working :
      (is_identifier : String → Bool) (task_id : String) (constraints : Option Constraints)
      → Tried false d w (check_task is_identifier task_id constraints) (λ _ v. Working d v)
  unfolding check_task
  check_task-Working is_identifier task_id none = try_pure tt working
  check_task-Working is_identifier task_id (some cs) =
      try_bind (verify_cross_table_constraint is_identifier "board_tasks" _) _
        (cross-Working working is_identifier "board_tasks" _) (λ _ v now. try_pure tt now)

  pub touch_claim-Working :
      (is_identifier : String → Bool) (claim_id : String) (status : Option String)
      (constraints : Option Constraints)
      → Tried false d w (touch_claim is_identifier claim_id status constraints) (λ _ v. Working d v)
  unfolding touch_claim
  touch_claim-Working is_identifier claim_id none none = try_pure tt working
  touch_claim-Working is_identifier claim_id none (some cs) =
      try_bind (verify_cross_table_constraint is_identifier "court_claims" _) _
        (cross-Working working is_identifier "court_claims" _) (λ _ v now. try_pure tt now)
  touch_claim-Working is_identifier claim_id (some status) none =
      try_bind (update "court_claims" _ _) _ (update-Working working "court_claims" _ _ refl)
        (λ _ v now. try_pure tt now)
  touch_claim-Working is_identifier claim_id (some status) (some cs) =
      set_claim_status-Working working is_identifier claim_id status cs (λ is. cc)
