-- ===== src/Identity/Requests.antt =====
-- The endpoints of the Identity service (services/identity/src/identity_service/routers/agents.py).
use agent_economy.Shared.{
  String, Option, none, some, List, [], ◌∷◌, Bool, true, false, not, text_eq,
}
use agent_economy.Shared.Dict.{get}
use agent_economy.Shared.Value.{Value, null, bool, int, float, str, other, Object}
use agent_economy.Shared.Action.{
  Action, pure, gets, or_raise, raise_if, ◌>>=◌, ◌>>◌, service_error, service_not_ready,
  invalid_json, missing_field, invalid_field_type, agent_not_found,
}
use agent_economy.Identity.Store as Agents
use agent_economy.Identity.Store.{Agent, AgentStore, AgentSummary, NewAgent}
use agent_economy.Identity.Registry.{
  Library, Settings, Verification, register_agent, verify_signature, verify_jws, text_at,
}

-- Absent or NULL.
abbrev pub is_null : Option Value → Bool
is_null none = true
is_null (some null) = true
is_null (some (bool b)) = false
is_null (some (int z)) = false
is_null (some (float w)) = false
is_null (some (str s)) = false
is_null (some other) = false

abbrev pub no_text : Option String → Bool
no_text none = true
no_text (some s) = false

-- The loops of `_validate_required_fields` and `_validate_string_fields`.
unfoldable pub validate_required_fields : Object → List String → Action AgentStore (Unit {0})
validate_required_fields fields [] = pure tt
validate_required_fields fields (name ∷ names) =
    raise_if (is_null (get name fields)) (service_error missing_field 400)
    >> validate_required_fields fields names

unfoldable pub validate_string_fields : Object → List String → Action AgentStore (Unit {0})
validate_string_fields fields [] = pure tt
validate_string_fields fields (name ∷ names) =
    raise_if (no_text (text_at name fields)) (service_error invalid_field_type 400)
    >> validate_string_fields fields names

-- A field that has been checked.
abbrev pub text_of : String → Object → String
text_of name fields = elim (text_at name fields) [ none ↦ "" | some s ↦ s ]

module _ ⦃library : Library⦄ (settings : Settings) (has_registry : Bool) where
  -- What the three endpoints with a body do first; a body that is no JSON object is `none`.
  unfoldable pub checked_body : Option Object → List String → Action AgentStore Object
  checked_body body names = do
    fields ← or_raise body (service_error invalid_json 400)
    validate_required_fields fields names
    validate_string_fields fields names
    raise_if (not has_registry) (service_error service_not_ready 503)
    pure fields

  -- `POST /agents/register`
  unfoldable pub register_request : NewAgent → Option Object → Action AgentStore Agent
  register_request d body = do
    fields ← checked_body body ("name" ∷ "public_key" ∷ [])
    register_agent settings d (text_of "name" fields) (text_of "public_key" fields)

  -- `POST /agents/verify` and `POST /agents/verify-jws`
  unfoldable pub verify_request : Option Object → Action AgentStore Verification
  verify_request body = do
    fields ← checked_body body ("agent_id" ∷ "payload" ∷ "signature" ∷ [])
    verify_signature settings (text_of "agent_id" fields) (text_of "payload" fields)
        (text_of "signature" fields)

  unfoldable pub verify_jws_request : Option Object → Action AgentStore Verification
  verify_jws_request body = do
    fields ← checked_body body ("token" ∷ [])
    verify_jws settings (text_of "token" fields)

  -- `GET /agents` and `GET /agents/{agent_id}`
  unfoldable pub list_request : Action AgentStore (List AgentSummary)
  list_request = do
    raise_if (not has_registry) (service_error service_not_ready 503)
    gets Agents.list_all

  unfoldable pub agent_request : String → Action AgentStore Agent
  agent_request agent_id = do
    raise_if (not has_registry) (service_error service_not_ready 503)
    found ← gets (Agents.get_by_id agent_id)
    or_raise found (service_error agent_not_found 404)
