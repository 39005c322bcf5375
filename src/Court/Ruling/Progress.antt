-- ===== src/Court/Ruling/Progress.antt =====
-- A dispute that can be ruled is ruled by one call.
use agent_economy.Shared.{
  ◌≡◌, refl, String, some, is_some, List, [], ◌∷◌, true, false, ◌||◌, text_eq,
}
use agent_economy.Shared.Int.{ℤ}
use agent_economy.Shared.Text.{join}
use agent_economy.Shared.Dict.{get, get-set_self, set-set}
use agent_economy.Shared.Value.{Object}
use agent_economy.Shared.Action.{ok}
use agent_economy.Court.Types.{Dispute, JudgeVote, ruled, same_dispute_status}
use agent_economy.Court.Store.{
  Draws, get_dispute, get_votes, set_status, persist_ruling, put_ruling, ruled_row, stored_votes,
}
use agent_economy.Court.Panel.{
  Judge, TaskData, build_context, evaluate_judges, compute_ruling, pcts_of, reasons_of,
}
use agent_economy.Court.Panel.Median.{median_lem}
use agent_economy.Court.Texts.{HasReason, evaluate_judges-HasReason}
use agent_economy.Court.Ruling.{
  Platform, CourtWorld, spec_feedback, delivery_feedback, ruling_payload, record_feedback,
  record_task_ruling, is_ready, ruling_preconditions, judge_and_commit, execute_ruling,
}

-- Votes with reasons are votes, and they give a ruling.
compute_ruling_total :
    (votes : List JudgeVote)
    → HasReason (reasons_of votes)
    → (pct : ℤ) × (summary : String) × (compute_ruling votes ≡ ok (pct, summary))
unfolding compute_ruling
compute_ruling_total [] h = absurd h
compute_ruling_total (v ∷ vs) h =
    let (m, at, _, _) = median_lem v.worker_pct (pcts_of vs) in
    (m, join "\n\n" (reasons_of (v ∷ vs)), rw (compute_ruling, at) refl)

-- If the judges have voted and the other services accept what they are sent, one call of
-- `execute_ruling` on a dispute that waits returns it ruled, with its votes, and stores it.
pub execute_ruling_total :
    {C : Type 0} ⦃platform : Platform C⦄ (d : Draws) (now id : String) (judges : List Judge)
    (task_data : TaskData) (w : CourtWorld C) (t : Dispute) (votes : List JudgeVote)
    → get id w.store.disputes ≡ some t
    → (same_dispute_status t.status ruled || is_some t.ruled_at) ≡ false
    → is_ready t.status ≡ true
    → evaluate_judges now (build_context t task_data) judges ≡ ok votes
    → ((payload : Object) (c : C)
        → (c' : C) × (platform.record_ruling t.task_id payload c ≡ (ok tt, c')))
    → ((payload : Object) (c : C)
        → (c' : C) × (platform.submit_platform_feedback payload c ≡ (ok tt, c')))
    → (pct : ℤ) × (summary : String) × (c : C) × (execute_ruling d now id judges task_data w ≡ (
      ok (ruled_row d.now pct summary t, stored_votes d.vote_id id votes),
      record {
        store =
            put_ruling id (ruled_row d.now pct summary t) (stored_votes d.vote_id id votes) w.store;
        outside = c;
      },
    ))
unfolding execute_ruling ruling_preconditions get_dispute get_votes set_status judge_and_commit
    record_task_ruling record_feedback persist_ruling
execute_ruling_total ⦃platform = platform⦄ d now id judges task_data w t votes found open_yet ready
      judged told rated =
    let (pct, summary, computed) =
      compute_ruling_total votes
        (evaluate_judges-HasReason now (build_context t task_data) judges votes judged) in
    let (c1, first) = told (ruling_payload t id pct summary) w.outside in
    let (c2, second) = rated (spec_feedback platform.agent_id t pct summary) c1 in
    let (c3, third) = rated (delivery_feedback platform.agent_id t pct summary) c2 in
    (
      pct,
      summary,
      c3,
      rw
          (
            found, open_yet, ready, found, judged, computed, first, second, third, get-set_self,
            get-set_self, get-set_self, set-set,
          )
          refl,
    )
