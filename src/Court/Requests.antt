-- ===== src/Court/Requests.antt =====
-- The endpoints of the Court (services/court/src/court_service/routers/disputes.py) and the checks
-- that they share (services/court/src/court_service/routers/validation.py).
use Prim.Native.String.{count}
use agent_economy.Shared.{
  ℕ, String, Option, none, some, List, Bool, false, not, text_eq, ◌==◌, ltb, nat_beq, length,
  if◌then◌else◌,
}
use agent_economy.Shared.Dict.{get}
use agent_economy.Shared.Value.{Value, Object, as_text, equals_text}
use agent_economy.Shared.Text.{is_blank}
use agent_economy.Shared.Action.{
  Action, Result, ok, err, Error, pure, raise, or_raise, raise_if, handle, lift, ◌>>=◌, ◌>>◌,
  service_error, duplicate_task, duplicate_bid, key_error, runtime_error, other_exception,
  unique_failed, foreign_failed, database_error, funds_exception, duplicate_dispute,
  duplicate_feedback, duplicate_agent, not_found_response, service_not_ready, invalid_json,
  invalid_jws, invalid_payload, forbidden, identity_service_unavailable, task_board_unavailable,
  task_not_found, dispute_not_found,
}
use agent_economy.Board.Tokens.{Certificate, certified, bad_signature, failed, split_dots}
use agent_economy.Court.Types.{Dispute}
use agent_economy.Court.Store as DisputeDb
use agent_economy.Court.Store.{Details, Draws}
use agent_economy.Court.Service as Disputes
use agent_economy.Court.Panel.{Judge, TaskData}
use agent_economy.Court.Ruling.{Platform, CourtWorld, on_court, on_outside, execute_ruling}

-- `parse_json_body`, after the decoding: a body that is no JSON object is `none`.
unfoldable pub parse_json_body : Option Object → Result Object
parse_json_body none = err (service_error invalid_json 400)
parse_json_body (some values) = ok values

-- A text in three parts; an empty one has one part.
abbrev three_part : String → Result String
three_part token =
    if token == ""
    then err (service_error invalid_jws 400)
    else if not (nat_beq (length (split_dots token)) 3)
    then err (service_error invalid_jws 400)
    else ok token

abbrev token_text : Option String → Result String
token_text none = err (service_error invalid_jws 400)
token_text (some token) = three_part token

-- NULL is refused like any other value that is no text.
unfoldable pub extract_jws_token : Object → String → Result String
extract_jws_token values field = elim (get field values) [
  | none ↦ err (service_error invalid_jws 400)
  | some value ↦ token_text (as_text value)
]

-- What `validate_certificate` ends with, as an answer to the caller.
unfoldable pub verify_platform_token : Certificate → Result Object
verify_platform_token (certified (some payload)) = ok payload
verify_platform_token (certified none) = err (service_error invalid_payload 400)
verify_platform_token bad_signature = err (service_error forbidden 403)
verify_platform_token failed = err (service_error identity_service_unavailable 502)

abbrev is_action : Option Value → String → Bool
is_action none expected = false
is_action (some action) expected = equals_text action expected

unfoldable pub require_action : Object → String → Result (Unit {0})
require_action payload expected =
    if is_action (get "action" payload) expected
    then ok tt
    else err (service_error invalid_payload 400)

abbrev unless_empty : Option String → Result String
unless_empty none = err (service_error invalid_payload 400)
unless_empty (some s) = if is_blank s then err (service_error invalid_payload 400) else ok s

unfoldable pub require_non_empty_string : Object → String → Result String
require_non_empty_string values field = elim (get field values) [
  | none ↦ err (service_error invalid_payload 400)
  | some value ↦ unless_empty (as_text value)
]

-- `AppState`: whether the services are there, the limits, and the judges. The signature check of
-- the platform agent is external code.
pub record CourtState : Type 0 where
  pub has_service : Bool
  pub has_platform : Bool
  pub validate_certificate : String → Certificate
  pub max_claim_length : ℕ
  pub max_rebuttal_length : ℕ
  pub rebuttal_deadline_seconds : ℕ
  pub judges : List Judge

abbrev pub not_ready : Error
not_ready = service_error service_not_ready 503

-- The handlers of `_fetch_task`, in their order.
unfoldable pub as_task_error : Error → Error
as_task_error not_found_response = service_error task_not_found 404
as_task_error (service_error code status) = service_error code status
as_task_error duplicate_task = service_error task_board_unavailable 502
as_task_error duplicate_bid = service_error task_board_unavailable 502
as_task_error key_error = service_error task_board_unavailable 502
as_task_error runtime_error = service_error task_board_unavailable 502
as_task_error other_exception = service_error task_board_unavailable 502
as_task_error (unique_failed names) = service_error task_board_unavailable 502
as_task_error foreign_failed = service_error task_board_unavailable 502
as_task_error database_error = service_error task_board_unavailable 502
as_task_error funds_exception = service_error task_board_unavailable 502
as_task_error duplicate_dispute = service_error task_board_unavailable 502
as_task_error duplicate_feedback = service_error task_board_unavailable 502
as_task_error duplicate_agent = service_error task_board_unavailable 502

module _ {C : Type 0} ⦃platform : Platform C⦄ where
  unfoldable pub fetch_task : CourtState → String → Action (CourtWorld C) TaskData
  fetch_task state task_id = do
    raise_if (not state.has_platform) not_ready
    handle (on_outside (platform.get_task task_id)) (λ e. raise (as_task_error e))

  -- What the three writing endpoints do first.
  unfoldable pub signed_payload : CourtState → String → Option Object → Action (CourtWorld C) Object
  signed_payload state action body = do
    raise_if (not state.has_service) not_ready
    raise_if (not state.has_platform) not_ready
    values ← lift (parse_json_body body)
    token ← lift (extract_jws_token values "token")
    payload ← lift (verify_platform_token (state.validate_certificate token))
    lift (require_action payload action)
    pure payload

  -- `POST /disputes/file`
  unfoldable pub file_request :
      CourtState → Draws → ℕ → Option Object → Action (CourtWorld C) Details
  file_request state d now body = do
    payload ← signed_payload state "file_dispute" body
    task_id ← lift (require_non_empty_string payload "task_id")
    claimant_id ← lift (require_non_empty_string payload "claimant_id")
    respondent_id ← lift (require_non_empty_string payload "respondent_id")
    claim ← lift (require_non_empty_string payload "claim")
    escrow_id ← lift (require_non_empty_string payload "escrow_id")
    raise_if (ltb state.max_claim_length (count claim)) (service_error invalid_payload 400)
    fetch_task state task_id
    on_court (
        Disputes.file_dispute d now task_id claimant_id respondent_id claim escrow_id
          state.rebuttal_deadline_seconds)

  -- `POST /disputes/{dispute_id}/rebuttal`
  unfoldable pub rebuttal_request :
      CourtState → ℕ → String → Option Object → Action (CourtWorld C) Details
  rebuttal_request state now dispute_id body = do
    payload ← signed_payload state "submit_rebuttal" body
    payload_dispute_id ← lift (require_non_empty_string payload "dispute_id")
    raise_if (not (payload_dispute_id == dispute_id)) (service_error invalid_payload 400)
    rebuttal ← lift (require_non_empty_string payload "rebuttal")
    raise_if (ltb state.max_rebuttal_length (count rebuttal)) (service_error invalid_payload 400)
    on_court (Disputes.submit_rebuttal now dispute_id rebuttal)

  -- `POST /disputes/{dispute_id}/rule`
  unfoldable pub trigger_ruling :
      CourtState → Draws → String → String → Option Object → Action (CourtWorld C) Details
  trigger_ruling state d now dispute_id body = do
    payload ← signed_payload state "trigger_ruling" body
    payload_dispute_id ← lift (require_non_empty_string payload "dispute_id")
    raise_if (not (payload_dispute_id == dispute_id)) (service_error invalid_payload 400)
    found ← on_court (DisputeDb.get_dispute dispute_id)
    (dispute, votes) ← or_raise found (service_error dispute_not_found 404)
    task_data ← fetch_task state dispute.task_id
    execute_ruling d now dispute_id state.judges task_data

  -- `GET /disputes/{dispute_id}` and `GET /disputes`
  unfoldable pub get_request : CourtState → String → Action (CourtWorld C) Details
  get_request state dispute_id = do
    raise_if (not state.has_service) not_ready
    found ← on_court (DisputeDb.get_dispute dispute_id)
    or_raise found (service_error dispute_not_found 404)

  unfoldable pub list_request :
      CourtState → Option String → Option String → Action (CourtWorld C) (List Dispute)
  list_request state task_id status = do
    raise_if (not state.has_service) not_ready
    on_court (DisputeDb.list_disputes task_id status)
