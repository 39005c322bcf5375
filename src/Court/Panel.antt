-- ===== src/Court/Panel.antt =====
-- The judges of a dispute and what becomes of their votes: `_build_context`, `_normalize_vote`,
-- `_evaluate_judges`, `_compute_ruling` and the two ratings of `RulingOrchestrator`
-- (services/court/src/court_service/services/ruling_orchestrator.py).
pub mod Median
pub mod Votes
use Prim.Native.String.{◌++◌ as text_append}
use agent_economy.Shared.{
  ℕ, zero, suc, ◌+◌, ◌/◌, String, Option, none, some, is_some, List, [], ◌∷◌, map, Bool, true,
  false, not, ◌||◌, text_eq, ◌==◌, length, if◌then◌else◌,
}
use agent_economy.Shared.Int.{ℤ, pos, ltb_ℤ, leb_ℤ}
use agent_economy.Shared.Dict.{get}
use agent_economy.Shared.Value.{Value, null, bool, int, float, str, other, Object, as_text}
use agent_economy.Shared.Text.{is_blank, take_text, join, decimal}
use agent_economy.Shared.Action.{
  Action, Result, ok, err, Error, pure, raise, gets, or_raise, raise_if, handle, lift, ◌>>=◌, ◌>>◌,
  service_error, duplicate_task, duplicate_bid, key_error, runtime_error, other_exception,
  unique_failed, foreign_failed, database_error, funds_exception, duplicate_dispute,
  duplicate_feedback, duplicate_agent, not_found_response, dispute_not_found, dispute_already_ruled,
  dispute_not_ready, judge_unavailable, reputation_service_unavailable, task_board_unavailable,
}
use agent_economy.Court.Types.{
  DisputeStatus, rebuttal_pending, rebuttal_submitted, judging, ruled, same_dispute_status, Dispute,
  JudgeVote, Percentage, integer, no_number, RawVote, vote, fields, unsupported, DisputeStore,
}
use agent_economy.Court.Store.{
  CourtDb, Details, Draws, get_dispute, set_status, revert_to_rebuttal_pending, persist_ruling,
}

-- The `deliverables` of a task, and its text fields, as the Task Board returns them.
pub data Deliverables : Type 0 where
  items : List String → Deliverables
  single : String → Deliverables
  absent : Deliverables

unfoldable pub normalize_deliverables : Deliverables → List String
normalize_deliverables (items texts) = texts
normalize_deliverables (single text) = text ∷ []
normalize_deliverables absent = []

pub record TaskData : Type 0 where
  pub spec : String
  pub title : String
  pub reward : ℤ
  pub deliverables : Deliverables

-- `DisputeContext`
pub record DisputeContext : Type 0 where
  pub task_spec : String
  pub deliverables : List String
  pub claim : String
  pub rebuttal : Option String
  pub task_title : String
  pub reward : ℤ

unfoldable pub build_context : Dispute → TaskData → DisputeContext
build_context dispute task_data = record {
  task_spec = task_data.spec;
  deliverables = normalize_deliverables task_data.deliverables;
  claim = dispute.claim;
  rebuttal = dispute.rebuttal;
  task_title = task_data.title;
  reward = task_data.reward;
}

-- A judge is external: it returns a vote or raises.
abbrev pub Judge : Type 0
Judge = DisputeContext → Result RawVote

abbrev pub no_reasoning : String
no_reasoning = "No reasoning provided."

abbrev pub text_or : String → Option Value → String
text_or default none = default
text_or default (some v) = elim (as_text v) [ none ↦ default | some s ↦ s ]

-- `value if isinstance(value, int) else 50`
abbrev pub pct_or_half : Option Percentage → ℤ
pct_or_half none = pos 50
pct_or_half (some (integer z)) = z
pct_or_half (some no_number) = pos 50

-- The fields of a raw vote, not yet checked.
abbrev pub read_vote : RawVote → Result JudgeVote
read_vote (vote v) = ok v
read_vote (fields pct d) = ok (record {
  judge_id = text_or "" (get "judge_id" d);
  worker_pct = pct_or_half pct;
  reasoning = text_or no_reasoning (get "reasoning" d);
  voted_at = text_or "" (get "voted_at" d);
})
read_vote unsupported = err other_exception

unfoldable pub clamp_pct : ℤ → ℤ
clamp_pct z = if ltb_ℤ z (pos 0) then pos 0 else if ltb_ℤ (pos 100) z then pos 100 else z

abbrev pub unless_blank : String → String → String
unless_blank default s = if is_blank s then default else s

unfoldable pub fill_vote : String → ℕ → JudgeVote → JudgeVote
fill_vote now index v = record {
  judge_id = unless_blank (text_append "judge-" (decimal index)) v.judge_id;
  worker_pct = clamp_pct v.worker_pct;
  reasoning = unless_blank no_reasoning v.reasoning;
  voted_at = unless_blank now v.voted_at;
}

-- `_normalize_vote`, at a time as text.
unfoldable pub normalize_vote : String → ℕ → RawVote → Result JudgeVote
normalize_vote now index raw = elim (read_vote raw) [
  | err e ↦ err e
  | ok v ↦ ok (fill_vote now index v)
]

pub data Rating : Type 0 where
  dissatisfied satisfied extremely_satisfied : Rating

abbrev pub rating_text : Rating → String
rating_text dissatisfied = "dissatisfied"
rating_text satisfied = "satisfied"
rating_text extremely_satisfied = "extremely_satisfied"

unfoldable pub delivery_rating : ℤ → Rating
delivery_rating pct =
    if leb_ℤ (pos 80) pct
    then extremely_satisfied
    else if leb_ℤ (pos 40) pct
    then satisfied
    else dissatisfied

unfoldable pub spec_rating : ℤ → Rating
spec_rating pct =
    if leb_ℤ (pos 80) pct
    then dissatisfied
    else if leb_ℤ (pos 40) pct
    then satisfied
    else extremely_satisfied

-- `sorted` of integers.
unfoldable pub insert_pct : ℤ → List ℤ → List ℤ
insert_pct x [] = x ∷ []
insert_pct x (y ∷ ys) = if leb_ℤ x y then x ∷ y ∷ ys else y ∷ insert_pct x ys

unfoldable pub sort_pcts : List ℤ → List ℤ
sort_pcts [] = []
sort_pcts (x ∷ xs) = insert_pct x (sort_pcts xs)

unfoldable pub get_elem? : List ℤ → ℕ → Option ℤ
get_elem? [] i = none
get_elem? (x ∷ xs) zero = some x
get_elem? (x ∷ xs) (suc i) = get_elem? xs i

abbrev pub count_pcts : List ℤ → ℕ
count_pcts [] = 0
count_pcts (x ∷ xs) = suc (count_pcts xs)

-- The upper median, if there is a vote.
unfoldable pub median : List ℤ → Option ℤ
median pcts = let s = sort_pcts pcts in get_elem? s (count_pcts s / 2)

abbrev pub pcts_of : List JudgeVote → List ℤ
pcts_of [] = []
pcts_of (v ∷ vs) = v.worker_pct ∷ pcts_of vs

abbrev pub reasons_of : List JudgeVote → List String
reasons_of [] = []
reasons_of (v ∷ vs) = v.reasoning ∷ reasons_of vs

-- An index out of range raises an `IndexError`.
unfoldable pub compute_ruling : List JudgeVote → Result (ℤ × String)
compute_ruling votes = elim (median (pcts_of votes)) [
  | none ↦ err other_exception
  | some pct ↦ ok (pct, join "\n\n" (reasons_of votes))
]

-- `except ServiceError: raise` and `except Exception`.
abbrev pub unless_service_error : Error → Error → Error
unless_service_error e (service_error code status) = service_error code status
unless_service_error e duplicate_task = e
unless_service_error e duplicate_bid = e
unless_service_error e key_error = e
unless_service_error e runtime_error = e
unless_service_error e other_exception = e
unless_service_error e (unique_failed names) = e
unless_service_error e foreign_failed = e
unless_service_error e database_error = e
unless_service_error e funds_exception = e
unless_service_error e duplicate_dispute = e
unless_service_error e duplicate_feedback = e
unless_service_error e duplicate_agent = e
unless_service_error e not_found_response = e

abbrev pub no_judge : Error
no_judge = service_error judge_unavailable 502

-- The loop of `_evaluate_judges`, from an index on.
unfoldable pub votes_from : String → DisputeContext → ℕ → List Judge → Result (List JudgeVote)
votes_from now context index [] = ok []
votes_from now context index (judge ∷ judges) =
    let rest = votes_from now context (index + 1) judges in
    elim (judge context) [
      | err e ↦ err (unless_service_error no_judge e)
      | ok raw ↦ elim (normalize_vote now index raw) [
        | err e ↦ err e
        | ok v ↦ elim rest [ err e ↦ err e | ok vs ↦ ok (v ∷ vs) ]
      ]
    ]

unfoldable pub evaluate_judges : String → DisputeContext → List Judge → Result (List JudgeVote)
evaluate_judges now context [] = err no_judge
evaluate_judges now context (judge ∷ judges) = votes_from now context 0 (judge ∷ judges)
