-- ===== src/Reputation/Requests.antt =====
-- The endpoints of the Reputation service
-- (services/reputation/src/reputation_service/routers/feedback.py).
use agent_economy.Shared.{
  ℕ, String, Option, none, some, List, Bool, false, not, text_eq, ◌==◌, nat_beq, length,
  if◌then◌else◌,
}
use agent_economy.Shared.Dict.{get, pop}
use agent_economy.Shared.Value.{Value, Object, as_text, equals_text}
use agent_economy.Shared.Action.{
  Action, Result, ok, err, Error, gets, or_raise, raise_if, lift, ◌>>=◌, ◌>>◌, service_error,
  service_not_ready, invalid_json, invalid_jws, invalid_payload, forbidden, feedback_not_found,
}
use agent_economy.Board.Tokens.{split_dots}
use agent_economy.Reputation.Store.{Feedback, Table, Draw}
use agent_economy.Reputation.Rules.{
  submit_feedback, get_feedback_by_id, get_feedback_for_task, get_feedback_for_agent,
}

-- What `verify_jws` of the Identity client answers: `valid`, the payload if it is an object, and
-- `agent_id` as text, empty if it is absent.
pub record Verified : Type 0 where
  pub valid : Bool
  pub payload : Option Object
  pub agent_id : String

-- `AppState`: the Identity client, if there is one, whether the store is there, the platform
-- agent's identifier, if there is one, and the limits.
pub record ReputationState : Type 0 where
  pub verify_jws : Option (String → Result Verified)
  pub has_store : Bool
  pub platform_agent_id : Option String
  pub feedback_max_comment_length : ℕ
  pub feedback_reveal_timeout_seconds : ℕ

abbrev invalid_token : Error
invalid_token = service_error invalid_jws 400

abbrev checked_token : Option String → Result String
checked_token none = err invalid_token
checked_token (some token) =
    if token == ""
    then err invalid_token
    else if not (nat_beq (length (split_dots token)) 3)
    then err invalid_token
    else ok token

-- `_extract_jws_token`
unfoldable pub extract_token : Object → Result String
extract_token body = elim (get "token" body) [
  | none ↦ err invalid_token
  | some value ↦ checked_token (as_text value)
]

abbrev pub is_action : Option Value → String → Bool
is_action none expected = false
is_action (some action) expected = equals_text action expected

abbrev pub text_field : String → Object → Option String
text_field name payload = elim (get name payload) [ none ↦ none | some value ↦ as_text value ]

abbrev pub nonempty : Option String → Option String
nonempty none = none
nonempty (some s) = if s == "" then none else some s

abbrev pub is_platform : Option String → String → Bool
is_platform none signer = false
is_platform (some agent_id) signer = signer == agent_id

abbrev pub not_ready : Error
not_ready = service_error service_not_ready 503

-- `POST /feedback`; a body that is no JSON object is `none`.
unfoldable pub submit_request : ReputationState → Draw → Option Object → Action Table Feedback
submit_request state d body = do
  request ← or_raise body (service_error invalid_json 400)
  token ← lift (extract_token request)
  verify ← or_raise state.verify_jws not_ready
  raise_if (not state.has_store) not_ready
  verdict ← lift (verify token)
  raise_if (not verdict.valid) (service_error forbidden 403)
  payload ← or_raise verdict.payload (service_error invalid_payload 400)
  raise_if (verdict.agent_id == "") (service_error invalid_jws 400)
  raise_if (not (is_action (get "action" payload) "submit_feedback"))
      (service_error invalid_payload 400)
  from_agent_id ←
      or_raise (nonempty (text_field "from_agent_id" payload)) (service_error invalid_payload 400)
  raise_if (not (verdict.agent_id == from_agent_id)) (service_error forbidden 403)
  submit_feedback d (pop "action" payload) state.feedback_max_comment_length
      (is_platform state.platform_agent_id verdict.agent_id)

-- `GET /feedback/task/{task_id}`, `GET /feedback/agent/{agent_id}`, `GET /feedback/{feedback_id}`
unfoldable pub task_feedback_request : ReputationState → ℕ → String → Action Table (List Feedback)
task_feedback_request state now task_id = do
  raise_if (not state.has_store) not_ready
  gets (get_feedback_for_task now task_id state.feedback_reveal_timeout_seconds)

unfoldable pub agent_feedback_request : ReputationState → ℕ → String → Action Table (List Feedback)
agent_feedback_request state now agent_id = do
  raise_if (not state.has_store) not_ready
  gets (get_feedback_for_agent now agent_id state.feedback_reveal_timeout_seconds)

unfoldable pub feedback_request : ReputationState → ℕ → String → Action Table Feedback
feedback_request state now feedback_id = do
  raise_if (not state.has_store) not_ready
  found ← gets (get_feedback_by_id now feedback_id state.feedback_reveal_timeout_seconds)
  or_raise found (service_error feedback_not_found 404)
