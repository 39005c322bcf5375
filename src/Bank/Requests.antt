-- ===== src/Bank/Requests.antt =====
-- The escrow endpoints of the Central Bank
-- (services/central-bank/src/central_bank_service/routers/escrow.py) and the checks that they share
-- (services/central-bank/src/central_bank_service/routers/helpers.py).
pub mod Signers
mod Tests
use agent_economy.Shared.{
  ℕ, String, Option, none, some, is_some, List, [], ◌∷◌, Bool, true, false, not, ◌&&◌, ◌||◌,
  text_eq, ◌==◌, if◌then◌else◌,
}
use agent_economy.Shared.Int.{ℤ, pos, leb_ℤ}
use agent_economy.Shared.Dict.{get}
use agent_economy.Shared.Value.{
  Value, null, bool, int, float, str, other, Object, as_text, equals_text,
}
use agent_economy.Shared.Action.{
  Action, Result, ok, err, Error, pure, or_raise, raise_if, lift, ◌>>=◌, ◌>>◌, service_error,
  other_exception, invalid_json, invalid_jws, invalid_payload, invalid_amount, payload_mismatch,
  forbidden, service_not_ready,
}
use agent_economy.Bank.Types.{Ledger, Draws, LockReceipt, ReleaseReceipt, SplitReceipt}
use agent_economy.Bank.Ledger.{escrow_lock, escrow_release, escrow_split}

-- What `verify_jws` of the Identity client answers: `valid`, the agent, and the payload if it is an
-- object.
record Signed : Type 0 where
  valid : Bool
  agent_id : String
  payload : Option Object

-- `AppState`: the Identity client, if there is one, whether the ledger is there, the platform agent's
-- own identifier, if it has one, and the configured one.
record BankState : Type 0 where
  verify_jws : Option (String → Result Signed)
  has_ledger : Bool
  live_platform_id : Option String
  platform_agent_id : String

abbrev not_ready : Error
not_ready = service_error service_not_ready 503

-- Absent, NULL and other values that are no text are all refused as `invalid_jws`.
abbrev token_of : Object → Option String
token_of fields = elim (get "token" fields) [ none ↦ none | some v ↦ as_text v ]

-- `not value or not isinstance(value, str)`
abbrev nonempty : Option String → Option String
nonempty none = none
nonempty (some s) = if s == "" then none else some s

abbrev text_field : String → Object → Option String
text_field name payload = elim (get name payload) [ none ↦ none | some v ↦ nonempty (as_text v) ]

-- `isinstance(value, int)`; a Boolean is an integer.
abbrev as_python_int : Value → Option ℤ
as_python_int (int z) = some z
as_python_int (bool b) = some (if b then pos 1 else pos 0)
as_python_int null = none
as_python_int (float w) = none
as_python_int (str s) = none
as_python_int other = none

abbrev int_field : String → Object → Option ℤ
int_field name payload = elim (get name payload) [ none ↦ none | some v ↦ as_python_int v ]

abbrev is_action : String → Object → Bool
is_action action payload = elim (get "action" payload) [
  | none ↦ false
  | some v ↦ equals_text v action
]

-- `value is not None and value != text`
abbrev mismatches : Option Value → String → Bool
mismatches none text = false
mismatches (some null) text = false
mismatches (some (bool b)) text = true
mismatches (some (int z)) text = true
mismatches (some (float w)) text = true
mismatches (some (str s)) text = not (s == text)
mismatches (some other) text = true

unfoldable get_platform_agent_id : BankState → Result String
get_platform_agent_id state = elim state.live_platform_id [
  | some agent_id ↦ ok agent_id
  | none ↦ if state.platform_agent_id == "" then err not_ready else ok state.platform_agent_id
]

unfoldable verify_jws_token : BankState → String → Action Ledger Signed
verify_jws_token state token = do
  verify ← or_raise state.verify_jws not_ready
  result ← lift (verify token)
  raise_if (not result.valid) (service_error forbidden 403)
  pure result

-- What the endpoints do first; a body that is no JSON object is `none`.
unfoldable verified_token : BankState → Option Object → Action Ledger Signed
verified_token state body = do
  fields ← or_raise body (service_error invalid_json 400)
  token ← or_raise (token_of fields) (service_error invalid_jws 400)
  verify_jws_token state token

abbrev bad_payload : Error
bad_payload = service_error invalid_payload 400

-- `POST /escrow/lock`; a payload that is no object has no `get`.
unfoldable lock_request : BankState → Draws → Option Object → Action Ledger LockReceipt
lock_request state d body = do
  verified ← verified_token state body
  payload ← or_raise verified.payload other_exception
  raise_if (not (is_action "escrow_lock" payload)) bad_payload
  agent_id ← or_raise (text_field "agent_id" payload) bad_payload
  raise_if (not (verified.agent_id == agent_id)) (service_error forbidden 403)
  amount ← or_raise (int_field "amount" payload) (service_error invalid_amount 400)
  raise_if (leb_ℤ amount (pos 0)) (service_error invalid_amount 400)
  task_id ← or_raise (text_field "task_id" payload) bad_payload
  raise_if (not state.has_ledger) not_ready
  escrow_lock d agent_id amount task_id

-- The token of the platform agent, with its payload.
unfoldable platform_payload : BankState → String → Option Object → Action Ledger Object
platform_payload state action body = do
  verified ← verified_token state body
  platform_id ← lift (get_platform_agent_id state)
  raise_if (not (verified.agent_id == platform_id)) (service_error forbidden 403)
  payload ← or_raise verified.payload other_exception
  raise_if (not (is_action action payload)) bad_payload
  pure payload

-- `POST /escrow/{escrow_id}/release`
unfoldable release_request :
    BankState → Draws → String → Option Object → Action Ledger ReleaseReceipt
release_request state d escrow_id body = do
  payload ← platform_payload state "escrow_release" body
  recipient ← or_raise (text_field "recipient_account_id" payload) bad_payload
  raise_if (mismatches (get "escrow_id" payload) escrow_id) (service_error payload_mismatch 400)
  raise_if (not state.has_ledger) not_ready
  escrow_release d escrow_id recipient

-- `POST /escrow/{escrow_id}/split`
unfoldable split_request : BankState → Draws → String → Option Object → Action Ledger SplitReceipt
split_request state d escrow_id body = do
  payload ← platform_payload state "escrow_split" body
  worker ← or_raise (text_field "worker_account_id" payload) bad_payload
  poster ← or_raise (text_field "poster_account_id" payload) bad_payload
  pct ← or_raise (int_field "worker_pct" payload) bad_payload
  raise_if (mismatches (get "escrow_id" payload) escrow_id) (service_error payload_mismatch 400)
  raise_if (not state.has_ledger) not_ready
  escrow_split d escrow_id worker pct poster
