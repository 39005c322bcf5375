-- ===== src/Court/Store.antt =====
-- The methods of `InMemoryDisputeStore`
-- (services/court/src/court_service/services/in_memory_dispute_store.py).
use mathlib.Core.Option.{get_or}
use agent_economy.Shared.{
  ℕ, ◌+◌, String, Option, none, some, List, [], ◌∷◌, Bool, true, not, length, text_eq, ◌==◌,
}
use agent_economy.Shared.Int.{ℤ}
use agent_economy.Shared.Dict.{get, set, contains, count_of}
use agent_economy.Shared.Rows.{select, keep, sort_asc}
use agent_economy.Shared.Action.{
  Action, pure, raise_if, gets, modify, ◌>>=◌, ◌>>◌, duplicate_dispute,
}
use agent_economy.Court.Types.{
  DisputeStatus, rebuttal_pending, ruled, dispute_text, same_dispute_status, Dispute, JudgeVote,
  StoredVote, DisputeStore,
}

abbrev pub CourtDb : Type 0 → Type 0
CourtDb = Action DisputeStore

-- A dispute with its votes, as `_build_dispute` returns it.
abbrev pub Details : Type 0
Details = Dispute × List StoredVote

-- The identifier and the time that a call draws, and one identifier for each vote.
pub record Draws : Type 0 where
  pub dispute_id : String
  pub now : ℕ
  pub vote_id : ℕ → String

-- The row of a new dispute.
abbrev pub new_dispute : Draws → String → String → String → String → String → ℕ → Dispute
new_dispute d task_id claimant_id respondent_id claim escrow_id rebuttal_deadline = record {
  dispute_id = d.dispute_id;
  task_id = task_id;
  claimant_id = claimant_id;
  respondent_id = respondent_id;
  claim = claim;
  rebuttal = none;
  status = rebuttal_pending;
  rebuttal_deadline = rebuttal_deadline;
  worker_pct = none;
  ruling_summary = none;
  escrow_id = escrow_id;
  filed_at = d.now;
  rebutted_at = none;
  ruled_at = none;
}

-- The writes of `insert_dispute` once its guard has passed.
abbrev pub add_dispute : Dispute → DisputeStore → DisputeStore
add_dispute row s = record {
  disputes = set row.dispute_id row s.disputes;
  dispute_id_by_task = set row.task_id row.dispute_id s.dispute_id_by_task;
  votes_by_dispute = set row.dispute_id [] s.votes_by_dispute;
}

unfoldable pub insert_dispute :
    Draws → String → String → String → String → String → ℕ → CourtDb Details
insert_dispute d task_id claimant_id respondent_id claim escrow_id rebuttal_deadline = do
  raise_if (← gets (λ s. contains task_id s.dispute_id_by_task)) duplicate_dispute
  let row = new_dispute d task_id claimant_id respondent_id claim escrow_id rebuttal_deadline
  modify (add_dispute row)
  pure (row, [])

unfoldable pub get_votes : String → DisputeStore → List StoredVote
get_votes dispute_id s = get_or (get dispute_id s.votes_by_dispute) []

unfoldable pub get_dispute_row : String → CourtDb (Option Dispute)
get_dispute_row dispute_id = gets (λ s. get dispute_id s.disputes)

abbrev pub with_votes : String → DisputeStore → Option Dispute → Option Details
with_votes dispute_id s none = none
with_votes dispute_id s (some row) = some (row, get_votes dispute_id s)

unfoldable pub get_dispute : String → CourtDb (Option Details)
get_dispute dispute_id = gets (λ s. with_votes dispute_id s (get dispute_id s.disputes))

-- `row[…] = …` on the row of a dispute, if it is there.
abbrev pub put_dispute : String → Dispute → DisputeStore → DisputeStore
put_dispute dispute_id row s = record s { disputes = set dispute_id row s.disputes }

abbrev pub change_row : String → (Dispute → Dispute) → Option Dispute → DisputeStore → DisputeStore
change_row dispute_id f none s = s
change_row dispute_id f (some row) s = put_dispute dispute_id (f row) s

abbrev pub rebutted : String → ℕ → Dispute → Dispute
rebutted rebuttal now row = record row { rebuttal = some rebuttal; rebutted_at = some now }

unfoldable pub update_rebuttal : ℕ → String → String → CourtDb (Unit {0})
update_rebuttal now dispute_id rebuttal =
    modify (λ s. change_row dispute_id (rebutted rebuttal now) (get dispute_id s.disputes) s)

unfoldable pub set_status : String → DisputeStatus → CourtDb (Unit {0})
set_status dispute_id status = modify (λ s.
    change_row dispute_id (λ row. record row { status = status }) (get dispute_id s.disputes) s)

abbrev pub reverted : Dispute → Dispute
reverted row = record row {
  status = rebuttal_pending;
  worker_pct = none;
  ruling_summary = none;
  ruled_at = none;
}

-- A row with the votes that belong to it.
abbrev pub put_ruling : String → Dispute → List StoredVote → DisputeStore → DisputeStore
put_ruling dispute_id row votes s = record s {
  disputes = set dispute_id row s.disputes;
  votes_by_dispute = set dispute_id votes s.votes_by_dispute;
}

abbrev pub revert_row : String → Option Dispute → DisputeStore → DisputeStore
revert_row dispute_id none s = s
revert_row dispute_id (some row) s = put_ruling dispute_id (reverted row) [] s

unfoldable pub revert_to_rebuttal_pending : String → CourtDb (Unit {0})
revert_to_rebuttal_pending dispute_id =
    modify (λ s. revert_row dispute_id (get dispute_id s.disputes) s)

abbrev pub stored_vote : String → String → JudgeVote → StoredVote
stored_vote vote_id dispute_id v = record { vote_id = vote_id; dispute_id = dispute_id; vote = v }

unfoldable pub stored_votes : (ℕ → String) → String → List JudgeVote → List StoredVote
stored_votes vote_id dispute_id [] = []
stored_votes vote_id dispute_id (v ∷ vs) =
    stored_vote (vote_id 0) dispute_id v ∷ stored_votes (λ n. vote_id (n + 1)) dispute_id vs

abbrev pub ruled_row : ℕ → ℤ → String → Dispute → Dispute
ruled_row now worker_pct ruling_summary row = record row {
  status = ruled;
  worker_pct = some worker_pct;
  ruling_summary = some ruling_summary;
  ruled_at = some now;
}

abbrev pub rule_row :
    Draws → String → ℤ → String → List JudgeVote → Option Dispute → DisputeStore → DisputeStore
rule_row d dispute_id worker_pct ruling_summary votes none s = s
rule_row d dispute_id worker_pct ruling_summary votes (some row) s =
    put_ruling dispute_id (ruled_row d.now worker_pct ruling_summary row)
      (stored_votes d.vote_id dispute_id votes) s

unfoldable pub persist_ruling : Draws → String → ℤ → String → List JudgeVote → CourtDb (Unit {0})
persist_ruling d dispute_id worker_pct ruling_summary votes =
    modify
      (λ s. rule_row d dispute_id worker_pct ruling_summary votes (get dispute_id s.disputes) s)

abbrev of_dispute_task : Option String → Dispute → Bool
of_dispute_task none row = true
of_dispute_task (some task_id) row = row.task_id == task_id

abbrev in_status : Option String → Dispute → Bool
in_status none row = true
in_status (some status) row = dispute_text row.status == status

-- `list_disputes`; a summary has fewer columns.
unfoldable pub list_disputes : Option String → Option String → CourtDb (List Dispute)
list_disputes task_id status = gets (λ s.
    sort_asc (λ row. row.filed_at)
      (keep (in_status status) (select (of_dispute_task task_id) s.disputes)))

unfoldable pub count_disputes : DisputeStore → ℕ
count_disputes s = length s.disputes

unfoldable pub count_active : DisputeStore → ℕ
count_active s = count_of (λ row. not (same_dispute_status row.status ruled)) s.disputes
