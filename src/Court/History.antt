-- ===== src/Court/History.antt =====
-- Requests to the Court, one after the other.
use agent_economy.Shared.{ℕ, ◌≡◌, refl, String, Option, List, [], false, inl, inr, text_eq}
use agent_economy.Shared.Dict.{contains}
use agent_economy.Shared.Value.{Object}
use agent_economy.Shared.Action.{Result, ok, err}
use agent_economy.Shared.Runs.{Ends, Ends-map}
use agent_economy.Court.Store.{Details, Draws, reverted, ruled_row, stored_votes}
use agent_economy.Court.Panel.{TaskData, build_context, Judge}
use agent_economy.Court.Ruling.{Platform, CourtWorld, execute_ruling}
use agent_economy.Court.Panel.Votes.{compute_ruling_bounds}
use agent_economy.Court.Ruling.Outcome.{Reverts, RulesOn, execute_ruling-Ends}
use agent_economy.Court.Requests.{CourtState, file_request, rebuttal_request, trigger_ruling}
use agent_economy.Court.Sound.{Sound, put_ruling-Sound, rebutted-Sound, add_dispute-Sound}
use agent_economy.Court.Types.{no_disputes}
use agent_economy.Court.Sound.{no_disputes-Sound}
use agent_economy.Court.Outcomes.{file_dispute-Ends, submit_rebuttal-Ends}
use agent_economy.Court.Served.{run_file_request, run_rebuttal_request, run_trigger_ruling}

module _ {C : Type 0} ⦃platform : Platform C⦄ where
  execute_ruling-Sound :
      (d : Draws) (now id : String) (judges : List Judge) (task_data : TaskData) (w : CourtWorld C)
      → Sound w.store
      → Ends
          (λ v. Sound v.store)
          (λ _ v. Sound v.store)
          (execute_ruling d now id judges task_data w)
  execute_ruling-Sound d now id judges task_data w sound =
      Ends-map (execute_ruling d now id judges task_data w) reverts rules
        (execute_ruling-Ends d now id judges task_data w)
    where
      reverts : (v : CourtWorld C) → Reverts id w v → Sound v.store
      reverts v (inl same) = rw same sound
      reverts v (inr (t, found, _, written)) =
          let (own, task, _) = sound.row_sound id t found in
          rw written (
            put_ruling-Sound id (reverted t) [] w.store sound own task
              (inl (refl, refl, refl, refl, refl)))

      rules :
          (a : Details) (v : CourtWorld C) → RulesOn d now id judges task_data w a v → Sound v.store
      rules a v (t, found, _, _, (votes, pct, summary, judged, computed, _, (_, written))) =
          let (own, task, _) = sound.row_sound id t found in
          let (lo, hi, _) =
            compute_ruling_bounds now (build_context t task_data) judges votes pct summary judged
              computed in
          rw written (
            put_ruling-Sound id (ruled_row d.now pct summary t) (stored_votes d.vote_id id votes)
              w.store sound own task (inr (refl, (pct, refl, lo, hi), refl, refl)))

  -- The writing endpoints, one after the other; every filing draws a new identifier.
  pub data Requests : CourtWorld C → Type 0 where
    start : (c : C) → Requests (record { store = no_disputes; outside = c })
    file_next :
        (state : CourtState) (d : Draws) (now : ℕ) (body : Option Object) (w : CourtWorld C)
        → Requests w
        → contains d.dispute_id w.store.disputes ≡ false
        → Requests (file_request state d now body w).1
    rebuttal_next :
        (state : CourtState) (now : ℕ) (id : String) (body : Option Object) (w : CourtWorld C)
        → Requests w
        → Requests (rebuttal_request state now id body w).1
    ruling_next :
        (state : CourtState) (d : Draws) (now id : String) (body : Option Object) (w : CourtWorld C)
        → Requests w
        → Requests (trigger_ruling state d now id body w).1

  ending :
      {A : Type 0} (o : Result A × CourtWorld C)
      → Ends (λ v. Sound v.store) (λ _ v. Sound v.store) o
      → Sound o.1.store
  ending (err e, v) h = h
  ending (ok x, v) h = h

  -- After any requests to file a dispute, to answer one or to rule on one, whether they succeed or
  -- fail and whatever the judges, the Task Board and the Reputation service do, a dispute stands
  -- under its own identifier and is the only one of its task; it waits in `rebuttal_pending` with no
  -- trace of a ruling, or it is ruled with a percentage from 0 to 100, a summary and a time. The
  -- identifiers that filings draw are new.
  pub Requests-Sound : (w : CourtWorld C) → Requests w → Sound w.store
  Requests-Sound _ (start c) = no_disputes-Sound
  Requests-Sound _ (file_next state d now body w before new_id) =
      let sound = Requests-Sound w before in
      ending _
        (run_file_request Sound state d now body w sound (λ task claimant respondent claim escrow.
          file_dispute-Ends Sound d now task claimant respondent claim escrow
            state.rebuttal_deadline_seconds w.store sound
            (λ free.
              add_dispute-Sound _ w.store sound new_id free (refl, refl, refl, refl, refl)))).ends
  Requests-Sound _ (rebuttal_next state now id body w before) =
      let sound = Requests-Sound w before in
      ending _
        (run_rebuttal_request Sound state now id body w sound (λ rebuttal.
          submit_rebuttal-Ends Sound now id rebuttal w.store sound
            (λ row found _ _. rebutted-Sound now rebuttal id row w.store sound found))).ends
  Requests-Sound _ (ruling_next state d now id body w before) =
      let sound = Requests-Sound w before in
      ending _
        (run_trigger_ruling Sound state d now id body w sound (λ task_data u same.
          execute_ruling-Sound d now id state.judges task_data u (rw same sound))).ends
