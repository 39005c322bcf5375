-- ===== src/Court/Ruling/Outcome.antt =====
-- What `execute_ruling` does on every branch.
use agent_economy.Shared.{
  ◌≡◌, refl, String, Option, none, some, is_some, List, [], Bool, true, false, not, ◌||◌, arith,
  Bool-cases, Option-cases, ◌⊎◌, inl, inr, text_eq,
}
use agent_economy.Shared.Int.{ℤ}
use agent_economy.Shared.Dict.{get, get-set_self, set-set}
use agent_economy.Shared.Action.{
  Action, Result, ok, err, ◌>>=◌, ◌>>◌, or_raise, raise, handle, outcome_cases, runtime_error,
}
use agent_economy.Shared.Runs.{Ends, Runs, run_lift}
use agent_economy.Court.Types.{
  judging, ruled, same_dispute_status, Dispute, JudgeVote, DisputeStore,
}
use agent_economy.Court.Store.{
  Details, Draws, get_votes, get_dispute, set_status, revert_to_rebuttal_pending, persist_ruling,
  reverted, ruled_row, put_ruling, put_dispute, stored_votes,
}
use agent_economy.Court.Panel.{
  Judge, TaskData, build_context, evaluate_judges, compute_ruling, unless_service_error, no_judge,
}
use agent_economy.Court.Ruling.{
  Platform, CourtWorld, on_court, spec_feedback, delivery_feedback, ruling_payload, record_feedback,
  record_task_ruling, is_ready, ruling_preconditions, judge_and_commit, execute_ruling,
}

is_some-none : {A : Type 0} (b : Bool) (o : Option A) → (b || is_some o) ≡ false → o ≡ none
is_some-none b none h = refl
is_some-none true (some x) h = cc
is_some-none false (some x) h = cc

module _ {C : Type 0} ⦃platform : Platform C⦄ where
  -- The ruling was recorded at the Task Board, and then both feedbacks were, in this order.
  abbrev pub Told : Dispute → String → ℤ → String → C → C → Type 0
  Told t id pct summary before after =
      (one : C) × (two : C) × (platform.record_ruling t.task_id (ruling_payload t id pct summary)
          before
        ≡ (ok tt, one))
      × (platform.submit_platform_feedback (spec_feedback platform.agent_id t pct summary) one
          ≡ (ok tt, two))
      × (platform.submit_platform_feedback (delivery_feedback platform.agent_id t pct summary) two
          ≡ (ok tt, after))

  -- What is done with a dispute that has been judged.
  abbrev pub Commits :
      Draws
      → String
      → String
      → Dispute
      → List Judge
      → TaskData
      → C
      → C
      → (ℤ → String → List JudgeVote → Type 0)
      → Type 0
  Commits d now id t judges task_data before after Written =
      (votes : List JudgeVote) × (pct : ℤ) × (summary : String) × (evaluate_judges now
          (build_context t task_data) judges
        ≡ ok votes)
      × (compute_ruling votes ≡ ok (pct, summary))
      × Told t id pct summary before after
      × Written pct summary votes

  run_outside :
      {A : Type 0} {s : DisputeStore} {w : CourtWorld C} {Done : A → CourtWorld C → Type 0}
      (t : Dispute) (id : String) (pct : ℤ) (summary : String) (k : Action (CourtWorld C) A)
      → w.store ≡ s
      → ((c : C)
          → Told t id pct summary w.outside c
          → Runs (λ v. v.store ≡ s) (record w { outside = c }) k Done)
      → Runs
          (λ v. v.store ≡ s)
          w
          (record_task_ruling t id pct summary >> (record_feedback t pct summary >> k))
          Done
  unfolding record_task_ruling record_feedback
  run_outside {w} t id pct summary k same h =
      elim (outcome_cases
        (platform.record_ruling t.task_id (ruling_payload t id pct summary) w.outside)) [
          | inr (e, one, a) ↦ record { ends = rw a same }
          | inl (x, one, a) ↦
              elim (outcome_cases (
                platform.submit_platform_feedback (spec_feedback platform.agent_id t pct summary)
                  one)) [
                    | inr (e, two, b) ↦ record { ends = rw (a, b) same }
                    | inl (y, two, b) ↦
                        elim (outcome_cases (
                          platform.submit_platform_feedback
                            (delivery_feedback platform.agent_id t pct summary) two)) [
                              | inr (e, three, c) ↦ record { ends = rw (a, b, c) same }
                              | inl (z, three, c) ↦ record {
                                ends = rw (a, b, c) (h three (one, two, a, b, c)).ends;
                              }
                            ]
                  ]
        ]

  run_judge_and_commit :
      (d : Draws) (now id : String) (t row : Dispute) (judges : List Judge) (task_data : TaskData)
      (w : CourtWorld C)
      → get id w.store.disputes ≡ some row
      → Runs
          (λ v. v.store ≡ w.store)
          w
          (judge_and_commit d now id t judges task_data)
          (λ _ v. Commits d now id t judges task_data w.outside v.outside (λ pct summary votes.
            v.store
            ≡ put_ruling id
                (ruled_row d.now pct summary row)
                (stored_votes d.vote_id id votes)
                w.store))
  unfolding judge_and_commit persist_ruling
  run_judge_and_commit d now id t row judges task_data w found =
      run_lift (evaluate_judges now (build_context t task_data) judges) _ refl (λ votes judged.
        run_lift (compute_ruling votes) _ refl (λ (pct, summary) computed.
          run_outside t id pct summary _ refl (λ c told. record {
            ends = rw found (votes, pct, summary, judged, computed, told, refl);
          })))

  abbrev pub Reverts : String → CourtWorld C → CourtWorld C → Type 0
  Reverts id w v =
      (v ≡ w)
      ⊎ ((t : Dispute) × (get id w.store.disputes ≡ some t)
          × (is_ready t.status ≡ true)
          × (v.store ≡ put_ruling id (reverted t) [] w.store))

  abbrev pub RulesOn :
      Draws
      → String
      → String
      → List Judge
      → TaskData
      → CourtWorld C
      → Details
      → CourtWorld C
      → Type 0
  RulesOn d now id judges task_data w a v =
      (t : Dispute) × (get id w.store.disputes ≡ some t)
      × (is_ready t.status ≡ true)
      × (t.ruled_at ≡ none)
      × Commits d now id t judges task_data w.outside v.outside (λ pct summary votes.
        (a ≡ (ruled_row d.now pct summary t, stored_votes d.vote_id id votes))
        × (v.store
            ≡ put_ruling id (ruled_row d.now pct summary t) (stored_votes d.vote_id id votes)
                w.store))

  -- The dispute, marked as judged for the time of the evaluation.
  abbrev marked : String → Dispute → CourtWorld C → CourtWorld C
  marked id t w = record w { store = put_dispute id (record t { status = judging }) w.store }

  run_settle :
      (d : Draws) (now id : String) (judges : List Judge) (task_data : TaskData) (w : CourtWorld C)
      (t : Dispute) (o : Result (Unit {0}) × CourtWorld C)
      → get id w.store.disputes ≡ some t
      → is_ready t.status ≡ true
      → t.ruled_at ≡ none
      → Ends
          (λ v. v.store ≡ (marked id t w).store)
          (λ _ v. Commits d now id t judges task_data w.outside v.outside (λ pct summary votes.
            v.store
            ≡ put_ruling id
                (ruled_row d.now pct summary (record t { status = judging }))
                (stored_votes d.vote_id id votes)
                (marked id t w).store))
          o
      → Ends (Reverts id w) (RulesOn d now id judges task_data w) (
          (handle
                (λ _. o)
                (λ e.
                  on_court (revert_to_rebuttal_pending id)
                  >> raise (unless_service_error no_judge e))
              >> (on_court (get_dispute id) >>= λ found. or_raise found runtime_error))
            w)
  unfolding revert_to_rebuttal_pending get_dispute get_votes
  run_settle d now id judges task_data w t (err e, v) found ready unruled kept =
      inr (t, found, ready, rw (kept, get-set_self, set-set) refl)
  run_settle d now id judges task_data w t (ok x, v) found ready unruled
        (votes, pct, summary, judged, computed, told, written) =
      rw (written, get-set_self)
        (
          t,
          found,
          ready,
          unruled,
          (votes, pct, summary, judged, computed, told, (rw get-set_self refl, rw set-set refl)),
        )

  -- `execute_ruling` fails and leaves all as it was; or it fails and takes the dispute back to
  -- `rebuttal_pending`, without votes; or it succeeds on a dispute that waited for a ruling, once every
  -- judge has voted and the Task Board and then both feedbacks have been written, and stores the
  -- median, the reasons and the votes.
  pub execute_ruling-Ends :
      (d : Draws) (now id : String) (judges : List Judge) (task_data : TaskData) (w : CourtWorld C)
      → Ends
          (Reverts id w)
          (RulesOn d now id judges task_data w)
          (execute_ruling d now id judges task_data w)
  unfolding execute_ruling ruling_preconditions get_dispute set_status revert_to_rebuttal_pending
      get_votes
  execute_ruling-Ends d now id judges task_data w = elim (Option-cases (get id w.store.disputes)) [
    | inl missing ↦ rw missing (inl refl)
    | inr (t, found) ↦
        elim (Bool-cases (same_dispute_status t.status ruled || is_some t.ruled_at)) [
          | inl over ↦ rw (found, over) (inl refl)
          | inr open_yet ↦ elim (Bool-cases (not (is_ready t.status))) [
            | inl early ↦ rw (found, open_yet, early) (inl refl)
            | inr waits ↦
                rw (found, open_yet, waits, found)
                  (run_settle d now id judges task_data w t
                    (judge_and_commit d now id t judges task_data (marked id t w)) found
                    (ground arith)
                    (is_some-none (same_dispute_status t.status ruled) t.ruled_at open_yet)
                    (run_judge_and_commit d now id t (record t { status = judging }) judges
                      task_data (marked id t w)
                      (get-set_self id (record t { status = judging }) w.store.disputes)).ends)
          ]
        ]
  ]
