-- ===== src/Court/Service.antt =====
-- `DisputeService` (services/court/src/court_service/services/dispute_service.py), on top of
-- `InMemoryDisputeStore` and `RulingOrchestrator`.
use agent_economy.Shared.{ℕ, ◌+◌, ◌*◌, String, is_some, not}
use agent_economy.Shared.Action.{
  Error, raise, or_raise, raise_if, handle, ◌>>=◌, ◌>>◌, service_error, duplicate_task,
  duplicate_bid, key_error, runtime_error, other_exception, unique_failed, foreign_failed,
  database_error, funds_exception, duplicate_dispute, duplicate_feedback, duplicate_agent,
  not_found_response, dispute_already_exists, dispute_not_found, invalid_dispute_status,
  rebuttal_already_submitted,
}
use agent_economy.Court.Types.{rebuttal_pending, same_dispute_status}
use agent_economy.Court.Store as DisputeDb
use agent_economy.Court.Store.{CourtDb, Details, Draws}

-- `except DuplicateDisputeError`; any other error passes.
abbrev as_filing_error : Error → Error
as_filing_error duplicate_dispute = service_error dispute_already_exists 409
as_filing_error (service_error code status) = service_error code status
as_filing_error duplicate_task = duplicate_task
as_filing_error duplicate_bid = duplicate_bid
as_filing_error key_error = key_error
as_filing_error runtime_error = runtime_error
as_filing_error other_exception = other_exception
as_filing_error (unique_failed names) = unique_failed names
as_filing_error foreign_failed = foreign_failed
as_filing_error database_error = database_error
as_filing_error funds_exception = funds_exception
as_filing_error duplicate_feedback = duplicate_feedback
as_filing_error duplicate_agent = duplicate_agent
as_filing_error not_found_response = not_found_response

-- `file_dispute`, at a time.
unfoldable pub file_dispute :
    Draws → ℕ → String → String → String → String → String → ℕ → CourtDb Details
file_dispute d now task_id claimant_id respondent_id claim escrow_id rebuttal_deadline_seconds =
    handle
      (DisputeDb.insert_dispute d task_id claimant_id respondent_id claim escrow_id
        (now + rebuttal_deadline_seconds * 1000000))
      (λ e. raise (as_filing_error e))

unfoldable pub submit_rebuttal : ℕ → String → String → CourtDb Details
submit_rebuttal now dispute_id rebuttal = do
  found ← DisputeDb.get_dispute dispute_id
  (dispute, votes) ← or_raise found (service_error dispute_not_found 404)
  raise_if (not (same_dispute_status dispute.status rebuttal_pending))
      (service_error invalid_dispute_status 409)
  raise_if (is_some dispute.rebuttal) (service_error rebuttal_already_submitted 409)
  DisputeDb.update_rebuttal now dispute_id rebuttal
  updated ← DisputeDb.get_dispute dispute_id
  or_raise updated runtime_error
