-- ===== src/Shared/Action.antt =====
-- Methods that change an object and may raise. What was written before a raise stays written, so
-- the state comes back beside an error too.
use mathlib.Core.Bool.{Bool}
use mathlib.Core.Option.{Option, none, some}
use mathlib.Core.List.{List}
use Prim.Native.String.{String}
use mathlib.Core.Path.{◌≡◌, refl}
use mathlib.Core.Logic.{◌⊎◌, inl, inr}
use Prim.Native.Nat.{ℕ}
use agent_economy.Shared.Tests.{if◌then◌else◌}

-- The `error` field of a `ServiceError`.
pub data Code : Type 0 where
  invalid_amount invalid_payload invalid_jws invalid_status invalid_reason : Code
  invalid_task_id invalid_reward invalid_deadline invalid_worker_pct : Code
  account_exists account_not_found agent_not_found payload_mismatch : Code
  escrow_already_locked escrow_already_resolved escrow_not_found insufficient_funds : Code
  task_already_exists task_not_found title_too_long token_mismatch : Code
  self_bid bid_already_exists bid_not_found no_assets forbidden : Code
  service_not_ready central_bank_unavailable identity_service_unavailable : Code
  dispute_already_exists dispute_not_found dispute_already_ruled dispute_not_ready : Code
  invalid_dispute_status rebuttal_already_submitted judge_unavailable : Code
  reputation_service_unavailable task_board_unavailable : Code
  invalid_field_type missing_field self_feedback invalid_category invalid_rating : Code
  comment_too_long feedback_exists feedback_not_found : Code
  invalid_name invalid_public_key public_key_exists invalid_json : Code
  invalid_base64 invalid_signature_length : Code
  invalid_constraints not_found constraint_violation foreign_key_violation : Code
  reference_conflict amount_mismatch task_exists bid_exists invalid_field : Code
  file_too_large too_many_assets asset_not_found : Code
  asset_exists claim_exists claim_not_found rebuttal_exists ruling_exists : Code

-- What the code raises: a `ServiceError` with its code and HTTP status, the stores' own
-- exceptions, a missing key, and any other exception: of its text the model keeps whether it
-- mentions `insufficient_funds`, which is `funds_exception`, and whether it is an HTTP answer 404,
-- which is `not_found_response`. Of sqlite3's exceptions, `IntegrityError` is `unique_failed` with the
-- columns that its text names, or `foreign_failed`; any other is `database_error`.
pub data Error : Type 0 where
  service_error : Code → ℕ → Error
  duplicate_task duplicate_bid key_error runtime_error other_exception funds_exception : Error
  duplicate_dispute duplicate_feedback duplicate_agent not_found_response : Error
  unique_failed : List String → Error
  foreign_failed database_error : Error

pub data Result (T : Type 0) : Type 0 where
  err : Error → Result T
  ok : T → Result T

abbrev pub Action : Type 0 → Type 0 → Type 0
Action S A = S → Result A × S

module _ {S A : Type 0} where
  abbrev pub pure : A → Action S A
  pure a s = (ok a, s)

  abbrev pub raise : Error → Action S A
  raise e s = (err e, s)

  abbrev pub gets : (S → A) → Action S A
  gets f s = (ok (f s), s)

  -- A value that has to be there.
  abbrev pub or_raise : Option A → Error → Action S A
  or_raise none e = raise e
  or_raise (some a) e = pure a

  abbrev pub or_handle : Result A → (Error → Action S A) → Action S A
  or_handle (ok a) f = pure a
  or_handle (err e) f = f e

  -- `try: m except Exception as e: f(e)`
  abbrev pub handle : Action S A → (Error → Action S A) → Action S A
  handle m f s = let (r, t) = m s in or_handle r f t

module _ {S A B : Type 0} where
  -- What follows a step that ended with `r`.
  abbrev pub after : Result A → (A → Action S B) → Action S B
  after (ok a) f = f a
  after (err e) f = raise e

  infixl 5 ◌>>=◌ ◌>>◌
  abbrev pub ◌>>=◌ : Action S A → (A → Action S B) → Action S B
  ◌>>=◌ m f s = let (r, t) = m s in after r f t

  abbrev pub ◌>>◌ : Action S A → Action S B → Action S B
  m >> k = m >>= λ _. k

module _ {S : Type 0} where
  abbrev pub raise_if : Bool → Error → Action S (Unit {0})
  raise_if b e s = (if b then err e else ok tt, s)

  abbrev pub modify : (S → S) → Action S (Unit {0})
  modify f s = (ok tt, f s)

-- A computation that may raise and changes nothing.
abbrev pub lift : {S A : Type 0} → Result A → Action S A
lift r s = (r, s)

-- How a call has ended, to split on.
pub outcome_cases :
    {S A : Type 0} (o : Result A × S)
    → ((a : A) × (s : S) × (o ≡ (ok a, s))) ⊎ ((e : Error) × (s : S) × (o ≡ (err e, s)))
outcome_cases (ok a, s) = inl (a, s, refl)
outcome_cases (err e, s) = inr (e, s, refl)

pub result_cases :
    {A : Type 0} (r : Result A) → ((a : A) × (r ≡ ok a)) ⊎ ((e : Error) × (r ≡ err e))
result_cases (ok a) = inl (a, refl)
result_cases (err e) = inr (e, refl)
