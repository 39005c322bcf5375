-- ===== src/Gateway/Methods/Others.antt =====
-- The gateway's methods on tasks, feedback and claims: each commits with its event, or leaves the file
-- as it was.
use agent_economy.Shared.{ℕ, ◌≡◌, refl, String, Option, some, Bool, true, false, text_eq, ◌==◌}
use agent_economy.Shared.Action.{
  task_exists, bid_exists, asset_exists, feedback_exists, claim_exists, rebuttal_exists,
  ruling_exists, invalid_field,
}
use agent_economy.Gateway.Sql.{Row, Database, settled}
use agent_economy.Gateway.Statements.{Event, begin, insert, Constraints}
use agent_economy.Gateway.Writer.Agents.{Written}
use agent_economy.Gateway.Writer.Tasks.{
  NewTask, NewBid, NewAsset, TaskUpdate, create_task, submit_bid, record_asset, update_task_status,
  write_row, write_checked, check_task, change_task, update_task, all_allowed,
}
use agent_economy.Gateway.Writer.Feedback.{NewFeedback, submit_feedback, write_feedback, reveal}
use agent_economy.Gateway.Writer.Claims.{
  NewClaim, NewRebuttal, NewRuling, file_claim, update_claim_status, submit_rebuttal, record_ruling,
  touch_claim, touch_ruled, update_claim, change_claim, write_rebuttal, write_ruling,
  insert_optional_event,
}
use agent_economy.Gateway.Tried.{Tried, try_bind, begin-Working, insert-Working, try_unless}
use agent_economy.Gateway.Steps.Clauses.{Named}
use agent_economy.Gateway.Steps.Changes.{
  update_task-Working, update_claim-Working, reveal-Working, touch_ruled-Working,
  check_task-Working, touch_claim-Working,
}
use agent_economy.Gateway.Saved.{
  Saved, Concludes, finish, on_conflict-Concludes, roll_back-Concludes, keep_refusals-Concludes,
  handle-Concludes,
}

module _ (d : Database) where
  write_row-Saved :
      (table : String) (row : Row) (id : String) (event : Event)
      → (table == "events") ≡ false
      → Tried true d (settled d) (write_row table row id event) (Saved (λ w. w.event_id) d event)
  unfolding write_row
  write_row-Saved table row id event other = try_bind begin _ begin-Working (λ _ v now.
      try_bind (insert table row) _ (insert-Working now table row other)
        (λ _ u then_on. finish then_on event (λ (w : Written). w.event_id) _ (λ _. refl)))

  write_checked-Saved :
      (is_identifier : String → Bool) (task_id : String) (constraints : Option Constraints)
      (table : String) (row : Row) (id : String) (event : Event)
      → (table == "events") ≡ false
      → Tried false d
          (settled d)
          (write_checked is_identifier task_id constraints table row id event)
          (Saved (λ w. w.event_id) d event)
  unfolding write_checked
  write_checked-Saved is_identifier task_id constraints table row id event other =
      try_bind begin _ begin-Working (λ _ v now.
        try_bind (check_task is_identifier task_id constraints) _
          (check_task-Working now is_identifier task_id constraints)
          (λ _ t checked.
            try_bind (insert table row) _ (insert-Working checked table row other)
              (λ _ u then_on. finish then_on event (λ (w : Written). w.event_id) _ (λ _. refl))))

  pub create_task-Concludes :
      (request : NewTask)
      → Concludes (λ w. w.event_id) d request.event (create_task request (settled d))
  unfolding create_task
  create_task-Concludes request =
      handle-Concludes _ d request.event {strict = true} (write_row "board_tasks" _ _ request.event)
        _ (write_row-Saved "board_tasks" _ _ request.event refl)
        (λ e v fails. on_conflict-Concludes _ d request.event task_exists e v fails.kept)

  pub file_claim-Concludes :
      (request : NewClaim)
      → Concludes (λ w. w.event_id) d request.event (file_claim request (settled d))
  unfolding file_claim
  file_claim-Concludes request =
      handle-Concludes _ d request.event {strict = true}
        (write_row "court_claims" _ _ request.event) _
        (write_row-Saved "court_claims" _ _ request.event refl)
        (λ e v fails. on_conflict-Concludes _ d request.event claim_exists e v fails.kept)

  pub submit_bid-Concludes :
      (is_identifier : String → Bool) (request : NewBid) (constraints : Option Constraints)
      → Concludes
          (λ w. w.event_id)
          d
          request.event
          (submit_bid is_identifier request constraints (settled d))
  unfolding submit_bid
  submit_bid-Concludes is_identifier request constraints =
      handle-Concludes _ d request.event {strict = false}
        (write_checked is_identifier request.task_id constraints "board_bids" _ _ request.event) _
        (write_checked-Saved is_identifier request.task_id constraints "board_bids" _ _
          request.event refl)
        (λ e v fails. on_conflict-Concludes _ d request.event bid_exists e v fails.kept)

  pub record_asset-Concludes :
      (is_identifier : String → Bool) (request : NewAsset) (constraints : Option Constraints)
      → Concludes
          (λ w. w.event_id)
          d
          request.event
          (record_asset is_identifier request constraints (settled d))
  unfolding record_asset
  record_asset-Concludes is_identifier request constraints =
      handle-Concludes _ d request.event {strict = false}
        (write_checked is_identifier request.task_id constraints "board_assets" _ _ request.event) _
        (write_checked-Saved is_identifier request.task_id constraints "board_assets" _ _
          request.event refl)
        (λ e v fails. on_conflict-Concludes _ d request.event asset_exists e v fails.kept)

  pub update_task_status-Concludes :
      (is_identifier : String → Bool) (task_id : String) (request : TaskUpdate)
      (constraints : Option Constraints)
      → Named is_identifier constraints
      → Concludes
          (λ id. id)
          d
          request.event
          (update_task_status is_identifier task_id request constraints (settled d))
  unfolding update_task_status
  update_task_status-Concludes is_identifier task_id request constraints named =
      handle-Concludes _ d request.event {strict = true}
        (change_task is_identifier task_id request constraints) _
        (try_bind begin _ begin-Working (λ _ v now.
          try_unless now (all_allowed request.updates) invalid_field 400 _ (λ _.
            try_bind (update_task is_identifier task_id request.updates constraints) _
              (update_task-Working now is_identifier task_id request.updates constraints
                (λ _. named))
              (λ _ u at_last. finish at_last request.event (λ (id : ℕ). id) _ (λ _. refl)))))
        (λ e v fails.
          keep_refusals-Concludes _ d request.event _ e v fails
            (λ e'. roll_back-Concludes _ d request.event e' v fails.kept))

  pub submit_feedback-Concludes :
      (request : NewFeedback)
      → Concludes (λ w. w.event_id) d request.event (submit_feedback request (settled d))
  unfolding submit_feedback
  submit_feedback-Concludes request =
      handle-Concludes _ d request.event {strict = true} (write_feedback request) _
        (try_bind begin _ begin-Working (λ _ v now.
          try_bind (insert "reputation_feedback" _) _
            (insert-Working now "reputation_feedback" _ refl)
            (λ _ u then_on.
              try_bind (reveal request.reveal_reverse request.reverse_feedback_id) _
                (reveal-Working then_on request.reveal_reverse request.reverse_feedback_id)
                (λ _ t at_last.
                  finish at_last request.event (λ (w : Written). w.event_id) _ (λ _. refl)))))
        (λ e v fails. on_conflict-Concludes _ d request.event feedback_exists e v fails.kept)

  -- With an event; the gateway's court router may leave it out.
  pub update_claim_status-Concludes :
      (is_identifier : String → Bool) (claim_id status : String) (event : Event)
      (constraints : Option Constraints)
      → Named is_identifier constraints
      → Concludes
          (λ id. id)
          d
          event
          (update_claim_status is_identifier claim_id
            (record { status = status; event = some event })
            constraints
            (settled d))
  unfolding update_claim_status insert_optional_event
  update_claim_status-Concludes is_identifier claim_id status event constraints named =
      handle-Concludes _ d event {strict = true}
        (change_claim is_identifier claim_id (record { status = status; event = some event })
          constraints)
        _
        (try_bind begin _ begin-Working (λ _ v now.
          try_bind (update_claim is_identifier claim_id status constraints) _
            (update_claim-Working now is_identifier claim_id status constraints (λ _. named))
            (λ _ u at_last. finish at_last event (λ (id : ℕ). id) _ (λ _. refl))))
        (λ e v fails.
          keep_refusals-Concludes _ d event _ e v fails
            (λ e'. roll_back-Concludes _ d event e' v fails.kept))

  pub submit_rebuttal-Concludes :
      (is_identifier : String → Bool) (request : NewRebuttal) (constraints : Option Constraints)
      → Concludes
          (λ w. w.event_id)
          d
          request.event
          (submit_rebuttal is_identifier request constraints (settled d))
  unfolding submit_rebuttal
  submit_rebuttal-Concludes is_identifier request constraints =
      handle-Concludes _ d request.event {strict = false}
        (write_rebuttal is_identifier request constraints) _
        (try_bind begin _ begin-Working (λ _ v now.
          try_bind (insert "court_rebuttals" _) _ (insert-Working now "court_rebuttals" _ refl)
            (λ _ u then_on.
              try_bind
                (touch_claim is_identifier request.claim_id request.claim_status_update constraints)
                _
                (touch_claim-Working then_on is_identifier request.claim_id
                  request.claim_status_update constraints)
                (λ _ t at_last.
                  finish at_last request.event (λ (w : Written). w.event_id) _ (λ _. refl)))))
        (λ e v fails. on_conflict-Concludes _ d request.event rebuttal_exists e v fails.kept)

  pub record_ruling-Concludes :
      (request : NewRuling)
      → Concludes (λ w. w.event_id) d request.event (record_ruling request (settled d))
  unfolding record_ruling
  record_ruling-Concludes request =
      handle-Concludes _ d request.event {strict = true} (write_ruling request) _
        (try_bind begin _ begin-Working (λ _ v now.
          try_bind (insert "court_rulings" _) _ (insert-Working now "court_rulings" _ refl)
            (λ _ u then_on.
              try_bind (touch_ruled request.claim_id request.claim_status_update) _
                (touch_ruled-Working then_on request.claim_id request.claim_status_update)
                (λ _ t at_last.
                  finish at_last request.event (λ (w : Written). w.event_id) _ (λ _. refl)))))
        (λ e v fails. on_conflict-Concludes _ d request.event ruling_exists e v fails.kept)
