-- ===== src/Board/Manager/NewTask.antt =====
-- `TaskManager.create_task`.
use Prim.Native.Char.{code}
use Prim.Native.String.{count}
use agent_economy.Shared.{
  ℕ, String, Option, none, some, List, [], ◌∷◌, ◌++◌, Bool, true, false, not, ◌&&◌, ◌||◌, ltb, leb,
  nat_beq, text_eq, ◌==◌, if◌then◌else◌,
}
use agent_economy.Shared.Int.{ℤ}
use agent_economy.Shared.Dict.{get}
use agent_economy.Shared.Value.{
  Value, null, bool, int, float, str, other, Object, equals_int, as_text,
}
use agent_economy.Shared.Action.{
  Result, ok, err, Error, service_error, invalid_task_id, title_too_long, invalid_reward,
  invalid_deadline, token_mismatch, forbidden,
}
use agent_economy.Board.Tokens.{
  Crypto, validate_jws_token, decode_escrow_token_payload, decode_escrow_token_header, ◌>>=◌, ◌>>◌,
  refuse_if, require, nonempty_text, field_or_null,
}
use agent_economy.Board.Manager.Requests.{positive_int, bad_payload, field, must_equal}

-- The pieces of `_TASK_ID_RE`: the letter, a dash, a hexadecimal digit, in either case.
pub data Piece : Type 0 where
  letter_t dash hex : Piece

abbrev pub is_hex : ℕ → Bool
is_hex c = (leb b'0' c && leb c b'9') || (leb b'a' c && leb c b'f') || (leb b'A' c && leb c b'F')

abbrev pub fits : Piece → ℕ → Bool
fits letter_t c = nat_beq c b't' || nat_beq c b'T'
fits dash c = nat_beq c b'-'
fits hex c = is_hex c

-- `$` matches at the end, and before a newline that ends the text.
abbrev pub at_end : String → Bool
at_end String.[] = true
at_end (String.◌∷◌ c String.[]) = nat_beq (code c) 10
at_end (String.◌∷◌ c (String.◌∷◌ _ _)) = false

pub matches : List Piece → String → Bool
matches [] s = at_end s
matches (p ∷ ps) String.[] = false
matches (p ∷ ps) (String.◌∷◌ c s) = fits p (code c) && matches ps s

abbrev pub four_hex : List Piece
four_hex = hex ∷ hex ∷ hex ∷ hex ∷ []

abbrev pub group : List Piece
group = dash ∷ four_hex

abbrev pub task_id_pattern : List Piece
task_id_pattern =
    letter_t
    ∷ dash
    ∷ (four_hex ++ (four_hex ++ (group ++ (group ++ (group ++ (group ++ (four_hex ++ four_hex)))))))

-- What `create_task` takes from its two tokens.
pub record NewTask : Type 0 where
  pub task_id : String
  pub poster_id : String
  pub title : String
  pub spec : String
  pub reward : ℤ
  pub bidding_deadline_seconds : ℤ
  pub deadline_seconds : ℤ
  pub review_deadline_seconds : ℤ

abbrev pub is_null : Value → Bool
is_null null = true
is_null (bool b) = false
is_null (int z) = false
is_null (float w) = false
is_null (str s) = false
is_null other = false

-- `deadline_seconds`, or else `execution_deadline_seconds`.
abbrev pub deadline_field : Option Value → Option Value → Result Value
deadline_field (some v) w = ok v
deadline_field none (some w) = ok w
deadline_field none none = err bad_payload

abbrev pub valid_task_id : Value → Option String
valid_task_id v = elim (as_text v) [
  | none ↦ none
  | some s ↦ if matches task_id_pattern s then some s else none
]

-- `isinstance(spec, str) and 1 <= len(spec) <= 10000`
abbrev pub valid_spec : Value → Option String
valid_spec v = elim (nonempty_text v) [
  | none ↦ none
  | some s ↦ if ltb 10000 (count s) then none else some s
]

-- An `agent_id` that is no text is not compared.
abbrev pub agent_differs : Option String → String → Bool
agent_differs none poster_id = false
agent_differs (some agent_id) poster_id = not (agent_id == poster_id)

mismatch : Error
mismatch = service_error token_mismatch 400

-- The cross-check of the escrow token against the new task.
pub check_escrow_token : Object → Object → NewTask → String → Result (Unit {0})
unfolding mismatch
check_escrow_token payload header task signer_id = do
  let escrow_task_id = field_or_null "task_id" payload
  let escrow_amount = field_or_null "amount" payload
  refuse_if (is_null escrow_task_id || is_null escrow_amount) mismatch
  must_equal escrow_task_id task.task_id mismatch
  refuse_if (not (equals_int escrow_amount task.reward)) mismatch
  must_equal (field_or_null "kid" header) signer_id mismatch
  refuse_if (agent_differs (as_text (field_or_null "agent_id" payload)) task.poster_id) mismatch

module _ ⦃crypto : Crypto⦄ where
  -- The task of a `create_task` token, whose signer is its poster.
  pub task_request : String → Result NewTask
  task_request task_token = do
    verified ← validate_jws_token task_token ("create_task" ∷ [])
    task_id_value ← field "task_id" verified.0
    poster_id ← field "poster_id" verified.0
    title_value ← field "title" verified.0
    spec_value ← field "spec" verified.0
    reward_value ← field "reward" verified.0
    bidding_value ← field "bidding_deadline_seconds" verified.0
    review_value ← field "review_deadline_seconds" verified.0
    deadline_value ←
        deadline_field (get "deadline_seconds" verified.0)
          (get "execution_deadline_seconds" verified.0)
    must_equal poster_id verified.1 (service_error forbidden 403)
    task_id ← require (valid_task_id task_id_value) (service_error invalid_task_id 400)
    title ← require (nonempty_text title_value) bad_payload
    refuse_if (ltb 200 (count title)) (service_error title_too_long 400)
    spec ← require (valid_spec spec_value) bad_payload
    reward ← require (positive_int reward_value) (service_error invalid_reward 400)
    bidding ← require (positive_int bidding_value) (service_error invalid_deadline 400)
    deadline ← require (positive_int deadline_value) (service_error invalid_deadline 400)
    review ← require (positive_int review_value) (service_error invalid_deadline 400)
    ok (record {
      task_id = task_id;
      poster_id = verified.1;
      title = title;
      spec = spec;
      reward = reward;
      bidding_deadline_seconds = bidding;
      deadline_seconds = deadline;
      review_deadline_seconds = review;
    })

  -- Both tokens of `create_task`.
  unfoldable pub create_request : String → String → Result NewTask
  create_request task_token escrow_token = do
    task ← task_request task_token
    payload ← decode_escrow_token_payload escrow_token
    header ← decode_escrow_token_header escrow_token
    check_escrow_token payload header task task.poster_id
    ok task
