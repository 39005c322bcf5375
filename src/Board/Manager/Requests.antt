-- ===== src/Board/Manager/Requests.antt =====
-- The checks of each request of `TaskManager` that need its signed token alone: the signature, the
-- action, the fields of the payload, and who signed it.
use agent_economy.Shared.{
  String, Option, none, some, List, [], ◌∷◌, not, ◌&&◌, text_eq, ◌==◌, if◌then◌else◌,
}
use agent_economy.Shared.Int.{ℤ, pos, ltb_ℤ, leb_ℤ}
use agent_economy.Shared.Dict.{get}
use agent_economy.Shared.Value.{
  Value, null, bool, int, float, str, other, Object, equals_text, as_int,
}
use agent_economy.Shared.Action.{
  Result, ok, err, Error, service_error, invalid_payload, invalid_reward, invalid_jws, forbidden,
}
use agent_economy.Board.Tokens.{
  Crypto, validate_jws_token, ◌>>=◌, ◌>>◌, refuse_if, require, nonempty_text, field_or_null,
}

-- `_is_positive_int`: the number, if it is one and positive.
abbrev pub positive_int : Value → Option ℤ
positive_int v = elim (as_int v) [ none ↦ none | some z ↦ if ltb_ℤ (pos 0) z then some z else none ]

-- `_is_valid_worker_pct`
abbrev pub valid_worker_pct : Value → Option ℤ
valid_worker_pct v = elim (as_int v) [
  | none ↦ none
  | some z ↦ if leb_ℤ (pos 0) z && leb_ℤ z (pos 100) then some z else none
]

abbrev pub bad_payload : Error
bad_payload = service_error invalid_payload 400

-- `if name not in payload: raise …; payload[name]`
abbrev pub field : String → Object → Result Value
field name payload = require (get name payload) bad_payload

-- A field that has to be equal to a text, such as the identifier in the URL.
abbrev pub must_equal : Value → String → Error → Result (Unit {0})
must_equal v text e = refuse_if (not (equals_text v text)) e

-- `if key in payload and payload[key] != text: raise …`
abbrev pub agrees : Option Value → String → Error → Result (Unit {0})
agrees none text e = ok tt
agrees (some v) text e = must_equal v text e

-- `if not auth_token: raise …`
abbrev pub given : Option String → Option String
given none = none
given (some token) = if token == "" then none else some token

-- A `record_ruling` names its ruling; for a `submit_ruling` that does not, one is drawn.
abbrev pub ruling_id_of : String → Value → Option Value → Result String
ruling_id_of fresh_id action none =
    if equals_text action "record_ruling" then err bad_payload else ok fresh_id
ruling_id_of fresh_id action (some null) =
    if equals_text action "record_ruling" then err bad_payload else ok fresh_id
ruling_id_of fresh_id action (some (bool b)) = err bad_payload
ruling_id_of fresh_id action (some (int z)) = err bad_payload
ruling_id_of fresh_id action (some (float w)) = err bad_payload
ruling_id_of fresh_id action (some other) = err bad_payload
ruling_id_of fresh_id action (some (str s)) = require (nonempty_text (str s)) bad_payload

module _ ⦃crypto : Crypto⦄ where
  -- A request whose signer is named in the field `role`: the payload and the signer.
  unfoldable pub signed_request : String → List String → String → String → Result (Object × String)
  signed_request role actions task_id token = do
    verified ← validate_jws_token token actions
    claimed_task ← field "task_id" verified.0
    claimed_signer ← field role verified.0
    must_equal claimed_task task_id bad_payload
    must_equal claimed_signer verified.1 (service_error forbidden 403)
    ok verified

  -- `upload_asset` of the asset manager: the signer, who need not be named.
  unfoldable pub upload_request : String → String → Result String
  upload_request task_id token = do
    verified ← validate_jws_token token ("upload_asset" ∷ [])
    claimed_task ← field "task_id" verified.0
    must_equal claimed_task task_id bad_payload
    agrees (get "worker_id" verified.0) verified.1 (service_error forbidden 403)
    ok verified.1

  -- `submit_bid`: the bidder and the amount.
  unfoldable pub bid_request : String → String → Result (String × ℤ)
  bid_request task_id token = do
    verified ← validate_jws_token token ("submit_bid" ∷ [])
    claimed_task ← field "task_id" verified.0
    bidder ← field "bidder_id" verified.0
    must_equal claimed_task task_id bad_payload
    amount ← field "amount" verified.0
    amount_int ← require (positive_int amount) (service_error invalid_reward 400)
    must_equal bidder verified.1 (service_error forbidden 403)
    ok (verified.1, amount_int)

  -- `accept_bid`: the signer, who claims to be the poster.
  unfoldable pub accept_request : String → String → String → Result String
  accept_request task_id bid_id token = do
    verified ← validate_jws_token token ("accept_bid" ∷ [])
    claimed_task ← field "task_id" verified.0
    claimed_bid ← field "bid_id" verified.0
    claimed_signer ← field "poster_id" verified.0
    must_equal claimed_task task_id bad_payload
    must_equal claimed_bid bid_id bad_payload
    must_equal claimed_signer verified.1 (service_error forbidden 403)
    ok verified.1

  -- `list_bids` of an open task: the signer. The two fields are checked only if they are there.
  unfoldable pub list_request : String → Option String → Result String
  list_request task_id auth_token = do
    token ← require (given auth_token) (service_error invalid_jws 400)
    verified ← validate_jws_token token ("list_bids" ∷ [])
    agrees (get "task_id" verified.0) task_id bad_payload
    agrees (get "poster_id" verified.0) verified.1 (service_error forbidden 403)
    ok verified.1

  -- `record_ruling`: the identifier, the summary and the percentage that is still to be checked.
  unfoldable pub ruling_request :
      String → String → String → String → Result (String × String × Value)
  ruling_request platform_agent_id fresh_id task_id token = do
    verified ← validate_jws_token token ("record_ruling" ∷ "submit_ruling" ∷ [])
    claimed_task ← field "task_id" verified.0
    must_equal claimed_task task_id bad_payload
    ruling_id ←
        ruling_id_of fresh_id (field_or_null "action" verified.0) (get "ruling_id" verified.0)
    summary ← field "ruling_summary" verified.0
    summary_text ← require (nonempty_text summary) bad_payload
    pct ← field "worker_pct" verified.0
    refuse_if (not (verified.1 == platform_agent_id)) (service_error forbidden 403)
    ok (ruling_id, summary_text, pct)
