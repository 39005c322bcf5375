-- ===== src/Identity/Registry.antt =====
-- `AgentRegistry` (services/identity/src/identity_service/services/agent_registry.py).
use Prim.Native.Char.{code}
use agent_economy.Shared.{
  ℕ, String, Option, none, some, List, [], ◌∷◌, Bool, true, false, not, ◌&&◌, text_eq, ◌==◌,
  nat_beq, length, if◌then◌else◌,
}
use agent_economy.Shared.Dict.{get}
use agent_economy.Shared.Value.{Value, Object, as_text, equals_text}
use agent_economy.Shared.Text.{is_blank}
use agent_economy.Shared.Action.{
  Action, Result, ok, err, Error, pure, raise, gets, or_raise, raise_if, handle, lift, ◌>>=◌, ◌>>◌,
  service_error, duplicate_task, duplicate_bid, key_error, runtime_error, other_exception,
  unique_failed, foreign_failed, database_error, funds_exception, duplicate_dispute,
  duplicate_feedback, duplicate_agent, not_found_response, invalid_name, invalid_public_key,
  public_key_exists, agent_not_found, invalid_base64, invalid_signature_length, invalid_jws,
}
use agent_economy.Board.Tokens.{Parts, three, three_parts, split_dots}
use agent_economy.Identity.Store as Agents
use agent_economy.Identity.Store.{Agent, AgentStore, NewAgent}

abbrev pub Bytes : Type 0
Bytes = List ℕ

-- What `deserialize_compact` ends with, and the decoding of its payload: an object, JSON that is no
-- object, or no JSON; a signature that does not match, or any other failure.
pub data Deserialized : Type 0 where
  payload : Object → Deserialized
  not_object not_json mismatch broken : Deserialized

-- The libraries: base64, strict and lenient; the keys that Ed25519 knows; its signatures; the header
-- of a token as a JSON object, if it is one, unless the decoding fails; and the tokens.
pub record Library : Type 0 where
  pub decode_strict : String → Option Bytes
  pub decode_lenient : String → Result Bytes
  pub is_key : Bytes → Bool
  pub verify : Bytes → Bytes → Bytes → Result Bool
  pub decode_header : String → Option (Option Object)
  pub deserialize_compact : String → Bytes → Result Deserialized

pub record Settings : Type 0 where
  pub public_key_prefix : String
  pub public_key_bytes : ℕ
  pub signature_bytes : ℕ

-- `public_key[len(prefix):]`, if the text starts with the prefix.
unfoldable pub strip_prefix : String → String → Option String
strip_prefix String.[] s = some s
strip_prefix (String.◌∷◌ p ps) String.[] = none
strip_prefix (String.◌∷◌ p ps) (String.◌∷◌ c s) =
    let rest = strip_prefix ps s in if nat_beq (code p) (code c) then rest else none

-- `public_key_str.split(":", 1)[1]`, or an `IndexError`.
unfoldable pub after_colon : String → Option String
after_colon String.[] = none
after_colon (String.◌∷◌ c s) =
    let rest = after_colon s in if nat_beq (code c) b':' then some s else rest

unfoldable pub all_zero : Bytes → Bool
all_zero [] = true
all_zero (b ∷ bs) = nat_beq b 0 && all_zero bs

abbrev bad_key : Error
bad_key = service_error invalid_public_key 400

abbrev bad_jws : Error
bad_jws = service_error invalid_jws 400

-- `except DuplicateAgentError`; any other error passes.
abbrev pub as_registration_error : Error → Error
as_registration_error duplicate_agent = service_error public_key_exists 409
as_registration_error (service_error c status) = service_error c status
as_registration_error duplicate_task = duplicate_task
as_registration_error duplicate_bid = duplicate_bid
as_registration_error key_error = key_error
as_registration_error runtime_error = runtime_error
as_registration_error other_exception = other_exception
as_registration_error (unique_failed names) = unique_failed names
as_registration_error foreign_failed = foreign_failed
as_registration_error database_error = database_error
as_registration_error funds_exception = funds_exception
as_registration_error duplicate_dispute = duplicate_dispute
as_registration_error duplicate_feedback = duplicate_feedback
as_registration_error not_found_response = not_found_response

-- What a verification answers: the agent and, of a token, its payload; or no match.
pub data Verification : Type 0 where
  signed_by : String → Verification
  token_by : String → Object → Verification
  no_match : Verification

-- `not kid or not isinstance(kid, str)`
abbrev pub kid_text : Option String → Option String
kid_text none = none
kid_text (some s) = if s == "" then none else some s

abbrev pub text_at : String → Object → Option String
text_at name fields = elim (get name fields) [ none ↦ none | some v ↦ as_text v ]

abbrev pub is_eddsa : Option Value → Bool
is_eddsa none = false
is_eddsa (some alg) = equals_text alg "EdDSA"

abbrev pub first_part : Parts → String
first_part (three header _ _) = header

abbrev pub to_verification : String → Deserialized → Result Verification
to_verification kid (payload fields) = ok (token_by kid fields)
to_verification kid not_object = err (service_error invalid_jws 400)
to_verification kid not_json = err (service_error invalid_jws 400)
to_verification kid mismatch = ok no_match
to_verification kid broken = err (service_error invalid_jws 400)

module _ ⦃library : Library⦄ (settings : Settings) where
  -- `_validate_name`
  unfoldable pub validate_name : String → Action AgentStore (Unit {0})
  validate_name name = raise_if (is_blank name) (service_error invalid_name 400)

  -- `_validate_public_key`
  unfoldable pub validate_public_key : String → Action AgentStore (Unit {0})
  validate_public_key public_key = do
    key ← or_raise (strip_prefix settings.public_key_prefix public_key) bad_key
    key_bytes ← or_raise (library.decode_strict key) bad_key
    raise_if (not (nat_beq (length key_bytes) settings.public_key_bytes)) bad_key
    raise_if (all_zero key_bytes) bad_key
    raise_if (not (library.is_key key_bytes)) bad_key

  unfoldable pub register_agent : NewAgent → String → String → Action AgentStore Agent
  register_agent d name public_key = do
    validate_name name
    validate_public_key public_key
    handle (Agents.insert d name public_key) (λ e. raise (as_registration_error e))

  -- The key of an agent, from its text.
  unfoldable pub stored_key : Agent → Action AgentStore Bytes
  stored_key agent = do
    key ← or_raise (after_colon agent.public_key) other_exception
    lift (library.decode_lenient key)

  unfoldable pub verify_signature : String → String → String → Action AgentStore Verification
  verify_signature agent_id payload_text signature_text = do
    found ← gets (Agents.get_by_id agent_id)
    agent ← or_raise found (service_error agent_not_found 404)
    payload_bytes ← or_raise (library.decode_strict payload_text) (service_error invalid_base64 400)
    signature ← or_raise (library.decode_strict signature_text) (service_error invalid_base64 400)
    raise_if (not (nat_beq (length signature) settings.signature_bytes))
        (service_error invalid_signature_length 400)
    key ← stored_key agent
    valid ← lift (library.verify key signature payload_bytes)
    pure (if valid then signed_by agent_id else no_match)

  -- A header that is no object has no `get`, which is an `AttributeError`.
  unfoldable pub verify_jws : String → Action AgentStore Verification
  verify_jws token = do
    parts ← or_raise (three_parts (split_dots token)) bad_jws
    decoded ← or_raise (library.decode_header (first_part parts)) bad_jws
    header ← or_raise decoded other_exception
    raise_if (not (is_eddsa (get "alg" header))) bad_jws
    kid ← or_raise (kid_text (text_at "kid" header)) bad_jws
    found ← gets (Agents.get_by_id kid)
    agent ← or_raise found (service_error agent_not_found 404)
    key ← stored_key agent
    answer ← lift (library.deserialize_compact token key)
    lift (to_verification kid answer)
