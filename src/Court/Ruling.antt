-- ===== src/Court/Ruling.antt =====
-- `RulingOrchestrator` (services/court/src/court_service/services/ruling_orchestrator.py): a ruling and
-- what it tells the other services.
pub mod Outcome
pub mod Progress
use Prim.Native.String.{◌++◌ as text_append}
use agent_economy.Shared.{
  ℕ, zero, suc, ◌+◌, ◌/◌, String, Option, none, some, is_some, List, [], ◌∷◌, map, Bool, true,
  false, not, ◌||◌, text_eq, ◌==◌, length, if◌then◌else◌,
}
use agent_economy.Shared.Int.{ℤ, pos, ltb_ℤ, leb_ℤ}
use agent_economy.Shared.Dict.{get}
use agent_economy.Shared.Value.{Value, null, bool, int, float, str, other, Object, as_text}
use agent_economy.Shared.Text.{is_blank, take_text, join, decimal}
use agent_economy.Shared.Action.{
  Action, Result, ok, err, Error, pure, raise, gets, or_raise, raise_if, handle, lift, ◌>>=◌, ◌>>◌,
  service_error, duplicate_task, duplicate_bid, key_error, runtime_error, other_exception,
  funds_exception, duplicate_dispute, duplicate_feedback, duplicate_agent, not_found_response,
  dispute_not_found, dispute_already_ruled, dispute_not_ready, judge_unavailable,
  reputation_service_unavailable, task_board_unavailable,
}
use agent_economy.Court.Types.{
  DisputeStatus, rebuttal_pending, rebuttal_submitted, judging, ruled, same_dispute_status, Dispute,
  JudgeVote, RawVote, vote, fields, unsupported, DisputeStore,
}
use agent_economy.Court.Store.{
  CourtDb, Details, Draws, get_dispute, set_status, revert_to_rebuttal_pending, persist_ruling,
}
use agent_economy.Court.Panel.{
  Deliverables, normalize_deliverables, TaskData, DisputeContext, build_context, Judge,
  no_reasoning, text_or, pct_or_half, read_vote, clamp_pct, unless_blank, fill_vote, normalize_vote,
  Rating, rating_text, delivery_rating, spec_rating, insert_pct, sort_pcts, get_elem?, count_pcts,
  median, pcts_of, reasons_of, compute_ruling, unless_service_error, no_judge, votes_from,
  evaluate_judges, items, single, absent, dissatisfied, satisfied, extremely_satisfied,
}

-- The platform agent, which signs what it sends: the calls may change the other services, whose
-- state is `C`, and may raise.
pub record Platform (C : Type 0) : Type 0 where
  pub agent_id : String
  pub record_ruling : String → Object → Action C (Unit {0})
  pub submit_platform_feedback : Object → Action C (Unit {0})
  pub get_task : String → Action C TaskData

-- The dispute store, and the other services.
pub record CourtWorld (C : Type 0) : Type 0 where
  pub store : DisputeStore
  pub outside : C

module _ {C : Type 0} where
  abbrev pub on_court : {A : Type 0} → CourtDb A → Action (CourtWorld C) A
  on_court m w = let (r, s) = m w.store in (r, record w { store = s })

  abbrev pub on_outside : {A : Type 0} → Action C A → Action (CourtWorld C) A
  on_outside m w = let (r, c) = m w.outside in (r, record w { outside = c })

abbrev pub feedback_payload : String → String → String → String → Rating → String → Object
feedback_payload task_id from_agent_id to_agent_id category rating comment =
    ("action", str "submit_feedback")
    ∷ ("task_id", str task_id)
    ∷ ("from_agent_id", str from_agent_id)
    ∷ ("to_agent_id", str to_agent_id)
    ∷ ("category", str category)
    ∷ ("rating", str (rating_text rating))
    ∷ ("comment", str comment)
    ∷ []

-- `_MAX_FEEDBACK_COMMENT_LENGTH`
abbrev pub max_comment : ℕ
max_comment = 256

unfoldable pub spec_feedback : String → Dispute → ℤ → String → Object
spec_feedback agent_id dispute pct summary =
    feedback_payload dispute.task_id agent_id dispute.claimant_id "spec_quality" (spec_rating pct)
      (take_text max_comment summary)

unfoldable pub delivery_feedback : String → Dispute → ℤ → String → Object
delivery_feedback agent_id dispute pct summary =
    feedback_payload dispute.task_id agent_id dispute.respondent_id "delivery_quality"
      (delivery_rating pct) (take_text max_comment summary)

unfoldable pub ruling_payload : Dispute → String → ℤ → String → Object
ruling_payload dispute dispute_id pct summary =
    ("action", str "record_ruling")
    ∷ ("task_id", str dispute.task_id)
    ∷ ("ruling_id", str dispute_id)
    ∷ ("worker_pct", int pct)
    ∷ ("ruling_summary", str summary)
    ∷ []

-- A dispute can be ruled while it waits for a rebuttal or has one.
abbrev pub is_ready : DisputeStatus → Bool
is_ready rebuttal_pending = true
is_ready rebuttal_submitted = true
is_ready judging = false
is_ready ruled = false

module _ {C : Type 0} ⦃platform : Platform C⦄ where
  unfoldable pub record_feedback : Dispute → ℤ → String → Action (CourtWorld C) (Unit {0})
  record_feedback dispute pct summary =
      handle
        (do
          on_outside (
              platform.submit_platform_feedback
                (spec_feedback platform.agent_id dispute pct summary))
          on_outside (
              platform.submit_platform_feedback
                (delivery_feedback platform.agent_id dispute pct summary)))
        (λ e. raise (unless_service_error (service_error reputation_service_unavailable 502) e))

  unfoldable pub record_task_ruling :
      Dispute → String → ℤ → String → Action (CourtWorld C) (Unit {0})
  record_task_ruling dispute dispute_id pct summary =
      handle
        (on_outside
          (platform.record_ruling dispute.task_id (ruling_payload dispute dispute_id pct summary)))
        (λ e. raise (unless_service_error (service_error task_board_unavailable 502) e))

  -- `_validate_ruling_preconditions`
  unfoldable pub ruling_preconditions : String → Action (CourtWorld C) Dispute
  ruling_preconditions dispute_id = do
    found ← on_court (get_dispute dispute_id)
    (dispute, votes) ← or_raise found (service_error dispute_not_found 404)
    raise_if (same_dispute_status dispute.status ruled || is_some dispute.ruled_at)
        (service_error dispute_already_ruled 409)
    raise_if (not (is_ready dispute.status)) (service_error dispute_not_ready 409)
    pure dispute

  -- What `execute_ruling` does inside its `try`.
  unfoldable pub judge_and_commit :
      Draws → String → String → Dispute → List Judge → TaskData → Action (CourtWorld C) (Unit {0})
  judge_and_commit d now dispute_id dispute judges task_data = do
    votes ← lift (evaluate_judges now (build_context dispute task_data) judges)
    (pct, summary) ← lift (compute_ruling votes)
    record_task_ruling dispute dispute_id pct summary
    record_feedback dispute pct summary
    on_court (persist_ruling d dispute_id pct summary votes)

  -- `execute_ruling`
  unfoldable pub execute_ruling :
      Draws → String → String → List Judge → TaskData → Action (CourtWorld C) Details
  execute_ruling d now dispute_id judges task_data = do
    dispute ← ruling_preconditions dispute_id
    on_court (set_status dispute_id judging)
    handle (judge_and_commit d now dispute_id dispute judges task_data) (λ e.
        on_court (revert_to_rebuttal_pending dispute_id) >> raise (unless_service_error no_judge e))
    found ← on_court (get_dispute dispute_id)
    or_raise found runtime_error
