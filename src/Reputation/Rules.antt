-- ===== src/Reputation/Rules.antt =====
-- The rules of the Reputation service (services/reputation/src/reputation_service/services/feedback.py).
-- A `ValidationError` is raised, as the endpoint does with it.
use Prim.Native.String.{count as text_length}
use agent_economy.Shared.{
  ℕ, ◌+◌, ◌*◌, String, Option, none, some, List, [], ◌∷◌, Bool, true, false, not, ◌||◌, text_eq,
  ◌==◌, ltb, leb, if◌then◌else◌,
}
use agent_economy.Shared.Dict.{get}
use agent_economy.Shared.Value.{Value, null, bool, int, float, str, other, Object, as_text}
use agent_economy.Shared.Rows.{keep}
use agent_economy.Shared.Action.{
  Action, Result, ok, err, Error, Code, raise, handle, lift, ◌>>◌, service_error, duplicate_task,
  duplicate_bid, key_error, runtime_error, other_exception, unique_failed, foreign_failed,
  database_error, funds_exception, duplicate_dispute, duplicate_feedback, duplicate_agent,
  not_found_response, invalid_field_type, missing_field, self_feedback, invalid_category,
  invalid_rating, comment_too_long, feedback_exists,
}
use agent_economy.Reputation.Store.{
  Feedback, Table, Draw, insert_feedback, get_by_id, get_by_task, get_by_agent,
}

abbrev pub required_fields : List String
required_fields = "task_id" ∷ "from_agent_id" ∷ "to_agent_id" ∷ "category" ∷ "rating" ∷ []

-- Neither NULL nor text.
abbrev pub wrong_type : Option Value → Bool
wrong_type none = false
wrong_type (some null) = false
wrong_type (some (str s)) = false
wrong_type (some (bool b)) = true
wrong_type (some (int z)) = true
wrong_type (some (float w)) = true
wrong_type (some other) = true

-- Absent, NULL or the empty text.
abbrev pub is_missing : Option Value → Bool
is_missing none = true
is_missing (some null) = true
is_missing (some (str s)) = s == ""
is_missing (some (bool b)) = false
is_missing (some (int z)) = false
is_missing (some (float w)) = false
is_missing (some other) = false

-- Whether a loop over the required fields stops.
unfoldable pub any_field : (Option Value → Bool) → Object → List String → Bool
any_field test body [] = false
any_field test body (name ∷ names) =
    let rest = any_field test body names in test (get name body) || rest

abbrev bad_request : Code → Option Error
bad_request code = some (service_error code 400)

unfoldable pub validate_required_fields : Object → Option Error
validate_required_fields body =
    if any_field wrong_type body required_fields
    then bad_request invalid_field_type
    else if any_field is_missing body required_fields
    then bad_request missing_field
    else none

abbrev pub is_category : String → Bool
is_category s = s == "spec_quality" || s == "delivery_quality"

abbrev pub is_rating : String → Bool
is_rating s = s == "dissatisfied" || s == "satisfied" || s == "extremely_satisfied"

-- A required field that has been checked.
abbrev pub field_text : String → Object → String
field_text name body = elim (get name body) [
  | none ↦ ""
  | some v ↦ elim (as_text v) [ none ↦ "" | some s ↦ s ]
]

-- `comment`, where a value that is not text counts as absent.
abbrev pub comment_of : Object → Option String
comment_of body = elim (get "comment" body) [ none ↦ none | some v ↦ as_text v ]

abbrev pub is_longer : Option String → ℕ → Bool
is_longer none n = false
is_longer (some s) n = ltb n (text_length s)

-- The checks 3 to 6 of `validate_feedback`.
abbrev pub check_values : Object → ℕ → Option Error
check_values body max_comment_length =
    if field_text "from_agent_id" body == field_text "to_agent_id" body
    then bad_request self_feedback
    else if not (is_category (field_text "category" body))
    then bad_request invalid_category
    else if not (is_rating (field_text "rating" body))
    then bad_request invalid_rating
    else if is_longer (comment_of body) max_comment_length
    then bad_request comment_too_long
    else none

unfoldable pub validate_feedback : Object → ℕ → Option Error
validate_feedback body max_comment_length = elim (validate_required_fields body) [
  | some e ↦ some e
  | none ↦ check_values body max_comment_length
]

-- `except DuplicateFeedbackError`; any other error passes.
abbrev pub as_feedback_error : Error → Error
as_feedback_error duplicate_feedback = service_error feedback_exists 409
as_feedback_error (service_error code status) = service_error code status
as_feedback_error duplicate_task = duplicate_task
as_feedback_error duplicate_bid = duplicate_bid
as_feedback_error key_error = key_error
as_feedback_error runtime_error = runtime_error
as_feedback_error other_exception = other_exception
as_feedback_error (unique_failed names) = unique_failed names
as_feedback_error foreign_failed = foreign_failed
as_feedback_error database_error = database_error
as_feedback_error funds_exception = funds_exception
as_feedback_error duplicate_dispute = duplicate_dispute
as_feedback_error duplicate_agent = duplicate_agent
as_feedback_error not_found_response = not_found_response

abbrev pub refuse : Option Error → Result (Unit {0})
refuse none = ok tt
refuse (some e) = err e

unfoldable pub submit_feedback : Draw → Object → ℕ → Bool → Action Table Feedback
submit_feedback d body max_comment_length force_visible = do
  lift (refuse (validate_feedback body max_comment_length))
  handle
      (insert_feedback d (field_text "task_id" body) (field_text "from_agent_id" body)
        (field_text "to_agent_id" body) (field_text "category" body) (field_text "rating" body)
        (comment_of body) force_visible)
      (λ e. raise (as_feedback_error e))

-- Times are microseconds, the timeout is in seconds.
unfoldable pub is_visible : ℕ → ℕ → Feedback → Bool
is_visible now reveal_timeout_seconds row =
    row.visible || leb (row.submitted_at + reveal_timeout_seconds * 1000000) now

abbrev unless_sealed : ℕ → ℕ → Option Feedback → Option Feedback
unless_sealed now timeout none = none
unless_sealed now timeout (some row) = if is_visible now timeout row then some row else none

unfoldable pub get_feedback_by_id : ℕ → String → ℕ → Table → Option Feedback
get_feedback_by_id now feedback_id timeout rows =
    unless_sealed now timeout (get_by_id feedback_id rows)

unfoldable pub get_feedback_for_task : ℕ → String → ℕ → Table → List Feedback
get_feedback_for_task now task_id timeout rows =
    keep (is_visible now timeout) (get_by_task task_id rows)

unfoldable pub get_feedback_for_agent : ℕ → String → ℕ → Table → List Feedback
get_feedback_for_agent now agent_id timeout rows =
    keep (is_visible now timeout) (get_by_agent agent_id rows)
