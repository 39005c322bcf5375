-- ===== src/Board/Tokens.antt =====
-- `TokenValidator` (services/task-board/src/task_board_service/services/token_validator.py).
use Prim.Native.Char.{Char, code}
use Prim.Native.String.{count}
use agent_economy.Shared.{
  String, Option, none, some, List, [], ◌∷◌, Bool, true, false, not, ◌||◌, text_eq, ◌==◌, ltb,
  nat_beq, if◌then◌else◌,
}
use agent_economy.Shared.Dict.{get}
use agent_economy.Shared.Value.{
  Value, null, bool, int, float, str, other, Object, equals_text, as_text,
}
use agent_economy.Shared.Action.{
  Result, ok, err, Error, service_error, other_exception, invalid_jws, invalid_payload, forbidden,
  identity_service_unavailable,
}

infixl 5 ◌>>=◌ ◌>>◌
abbrev pub ◌>>=◌ : {P Q : Type 0} → Result P → (P → Result Q) → Result Q
err e >>= next = err e
ok p >>= next = next p

abbrev pub ◌>>◌ : {B : Type 0} → Result (Unit {0}) → Result B → Result B
m >> k = m >>= λ _. k

abbrev pub refuse_if : Bool → Error → Result (Unit {0})
refuse_if true e = err e
refuse_if false e = ok tt

abbrev pub require : {A : Type 0} → Option A → Error → Result A
require none e = err e
require (some a) e = ok a

-- What the Identity service answers: `result.get("valid")` as a truth value, the payload if it is
-- an object, and `result.get("agent_id", "")`.
pub record Verdict : Type 0 where
  pub valid : Bool
  pub payload : Option Object
  pub agent_id : Value

-- What `validate_certificate` of the platform agent ends with.
pub data Certificate : Type 0 where
  certified : Option Object → Certificate
  bad_signature failed : Certificate

-- The code that the validator calls: the Identity service, if it is configured, the local platform
-- agent, and the decoding of one base64url part of a token into a JSON object.
pub record Crypto : Type 0 where
  pub verify_jws : Option (String → Result Verdict)
  pub validate_certificate : String → Certificate
  pub decode_part : String → Result Object

-- `token.split(".")`
abbrev onto_first : Char → List String → List String
onto_first c [] = (String.◌∷◌ c String.[]) ∷ []
onto_first c (part ∷ parts) = (String.◌∷◌ c part) ∷ parts

unfoldable pub split_dots : String → List String
split_dots String.[] = String.[] ∷ []
split_dots (String.◌∷◌ c s) =
    let parts = split_dots s in
    if nat_beq (code c) b'.' then String.[] ∷ parts else onto_first c parts

pub data Parts : Type 0 where
  three : String → String → String → Parts

-- Exactly three parts.
unfoldable pub three_parts : List String → Option Parts
three_parts [] = none
three_parts (a ∷ []) = none
three_parts (a ∷ b ∷ []) = none
three_parts (a ∷ b ∷ c ∷ []) = some (three a b c)
three_parts (a ∷ b ∷ c ∷ _ ∷ _) = none

-- `isinstance(value, str) and len(value) >= 1`
abbrev pub nonempty_text : Value → Option String
nonempty_text v = elim (as_text v) [
  | none ↦ none
  | some s ↦ if ltb 0 (count s) then some s else none
]

abbrev pub is_true : Option Value → Bool
is_true (some (bool true)) = true
is_true _ = false

-- A missing key reads as NULL.
abbrev pub field_or_null : String → Object → Value
field_or_null key payload = elim (get key payload) [ none ↦ null | some v ↦ v ]

-- `_verify_via_identity_service`
unfoldable pub verify_via_identity : (String → Result Verdict) → String → Result (Object × String)
verify_via_identity verify token = do
  verdict ← verify token
  refuse_if (not verdict.valid) (service_error forbidden 403)
  payload ← require verdict.payload (service_error invalid_jws 400)
  agent_id ← require (nonempty_text verdict.agent_id) (service_error invalid_jws 400)
  refuse_if (is_true (get "_tampered" payload)) (service_error forbidden 403)
  ok (payload, agent_id)

pub certificate_payload : Certificate → Result Object
certificate_payload (certified none) = err (service_error invalid_jws 400)
certificate_payload (certified (some payload)) = ok payload
certificate_payload bad_signature = err (service_error forbidden 403)
certificate_payload failed = err (service_error identity_service_unavailable 502)

-- `action in allowed_actions`
abbrev is_one_of : Value → List String → Bool
is_one_of action [] = false
is_one_of action (name ∷ names) = equals_text action name || is_one_of action names

-- A list or an object is not hashable, so that the test raises a `TypeError`.
abbrev pub check_action : Value → List String → Result (Unit {0})
check_action other allowed = err other_exception
check_action null allowed = err (service_error invalid_payload 400)
check_action (bool b) allowed = err (service_error invalid_payload 400)
check_action (int z) allowed = err (service_error invalid_payload 400)
check_action (float w) allowed = err (service_error invalid_payload 400)
check_action (str s) allowed =
    refuse_if (not (is_one_of (str s) allowed)) (service_error invalid_payload 400)

abbrev middle : Parts → String
middle (three _ payload _) = payload

abbrev first_part : List String → String
first_part [] = ""
first_part (part ∷ _) = part

module _ ⦃crypto : Crypto⦄ where
  -- `_verify_via_platform_agent`
  pub verify_via_platform : String → Parts → Result (Object × String)
  verify_via_platform token (three header _ _) = do
    payload ← certificate_payload (crypto.validate_certificate token)
    fields ← crypto.decode_part header
    agent_id ← require (nonempty_text (field_or_null "kid" fields)) (service_error invalid_jws 400)
    refuse_if (is_true (get "_tampered" payload)) (service_error forbidden 403)
    ok (payload, agent_id)

  unfoldable pub verify : String → Parts → Result (Object × String)
  verify token parts = elim crypto.verify_jws [
    | some verify_jws ↦ verify_via_identity verify_jws token
    | none ↦ verify_via_platform token parts
  ]

  -- The payload and the signer's `agent_id`, which the source stores as `_signer_id`.
  unfoldable pub validate_jws_token : String → List String → Result (Object × String)
  validate_jws_token token allowed_actions = do
    refuse_if (token == "") (service_error invalid_jws 400)
    parts ← require (three_parts (split_dots token)) (service_error invalid_jws 400)
    verified ← verify token parts
    action ← require (get "action" verified.0) (service_error invalid_payload 400)
    check_action action allowed_actions
    ok verified

  -- The middle part, decoded without a look at the signature.
  unfoldable pub decode_escrow_token_payload : String → Result Object
  decode_escrow_token_payload escrow_token = do
    parts ← require (three_parts (split_dots escrow_token)) (service_error invalid_jws 400)
    crypto.decode_part (middle parts)

  -- `decode_base64url_json(escrow_token.split(".", maxsplit=1)[0], "header")`
  unfoldable pub decode_escrow_token_header : String → Result Object
  decode_escrow_token_header escrow_token =
      crypto.decode_part (first_part (split_dots escrow_token))
