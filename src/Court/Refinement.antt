-- ===== src/Court/Refinement.antt =====
-- The dispute store as an implementation of one dispute for each identifier.
use agent_economy.Shared.{
  ℕ, ◌≡◌, refl, String, Option, none, some, is_some, List, [], true, false, not, arith, text_eq,
  ◌==◌, Bool-cases, Option-cases, inl, inr, if◌then◌else◌,
}
use agent_economy.Shared.Int.{ℤ, pos, ◌≤ℤ◌}
use agent_economy.Shared.Dict.{Dict, get, set, contains, get-set}
use agent_economy.Shared.Value.{Object}
use agent_economy.Shared.Action.{Result, ok, err}
use agent_economy.Shared.Runs.{Ends, Ends-map}
use agent_economy.Court.Types.{
  DisputeStatus, rebuttal_pending, rebuttal_submitted, judging, ruled, same_dispute_status, Dispute,
  StoredVote, DisputeStore,
}
use agent_economy.Court.Store.{
  Details, Draws, add_dispute, rebutted, reverted, ruled_row, put_dispute, put_ruling, stored_votes,
}
use agent_economy.Court.Panel.{TaskData, Judge, build_context}
use agent_economy.Court.Panel.Votes.{compute_ruling_bounds}
use agent_economy.Court.Ruling.{Platform, CourtWorld, execute_ruling, is_ready}
use agent_economy.Court.Ruling.Outcome.{Reverts, RulesOn, execute_ruling-Ends}
use agent_economy.Court.Requests.{CourtState, file_request, rebuttal_request, trigger_ruling}
use agent_economy.Court.Outcomes.{file_dispute-Ends, submit_rebuttal-Ends}
use agent_economy.Court.Served.{run_file_request, run_rebuttal_request, run_trigger_ruling}

-- A dispute as its parties see it: not there, waiting with or without a rebuttal, or decided.
pub data Phase : Type 0 where
  absent : Phase
  waiting : Option String → Phase
  decided : Option ℤ → Phase

abbrev pub phase_of : Option Dispute → Phase
phase_of none = absent
phase_of (some row) =
    if same_dispute_status row.status ruled then decided row.worker_pct else waiting row.rebuttal

abbrev pub phase : String → DisputeStore → Phase
phase id s = phase_of (get id s.disputes)

-- What can happen to a dispute. A decision is final.
pub data Moves : Phase → Phase → Type 0 where
  stays : (p : Phase) → Moves p p
  files : Moves absent (waiting none)
  answers : (text : String) → Moves (waiting none) (waiting (some text))
  rules :
      (answer : Option String) (pct : ℤ)
      → pos 0 ≤ℤ pct
      → pct ≤ℤ pos 100
      → Moves (waiting answer) (decided (some pct))

abbrev Refines : DisputeStore → DisputeStore → Type 0
Refines s v = (id : String) → Moves (phase id s) (phase id v)

-- A write of one row is a move of that dispute, and the others stay.
write-Moves :
    (id j : String) (row : Dispute) (d : Dict String Dispute)
    → Moves (phase_of (get id d)) (phase_of (some row))
    → Moves (phase_of (get j d)) (phase_of (get j (set id row d)))
write-Moves id j row d move = elim (Bool-cases (id == j)) [
  | inl same ↦ let here : id ≡ j = (text_eq.same_iff id j).0 same in rw (get-set, same, ← here) move
  | inr other ↦ rw (get-set, other) (stays (phase_of (get j d)))
]

-- A dispute that may be answered or ruled is not ruled.
pending_open :
    (t : DisputeStatus)
    → not (same_dispute_status t rebuttal_pending) ≡ false
    → same_dispute_status t ruled ≡ false
pending_open rebuttal_pending h = refl
pending_open rebuttal_submitted h = refl
pending_open judging h = refl
pending_open ruled h = absurd (ground arith)

ready_open : (t : DisputeStatus) → is_ready t ≡ true → same_dispute_status t ruled ≡ false
ready_open rebuttal_pending h = refl
ready_open rebuttal_submitted h = refl
ready_open judging h = refl
ready_open ruled h = absurd (ground arith)

unanswered : (o : Option String) → is_some o ≡ false → o ≡ none
unanswered none h = refl
unanswered (some text) h = absurd (ground arith)

module _ (s : DisputeStore) where
  added-Moves :
      (row : Dispute)
      → contains row.dispute_id s.disputes ≡ false
      → row.status ≡ rebuttal_pending
      → row.rebuttal ≡ none
      → Refines s (add_dispute row s)
  added-Moves row new_id pending no_text j =
      write-Moves row.dispute_id j row s.disputes
        (elim (Option-cases (get row.dispute_id s.disputes)) [
          | inl missing ↦ rw (missing, pending, no_text) files
          | inr (x, there) ↦ absurd (ground arith)
        ])

  answered-Moves :
      (now : ℕ) (rebuttal id : String) (row : Dispute)
      → get id s.disputes ≡ some row
      → not (same_dispute_status row.status rebuttal_pending) ≡ false
      → is_some row.rebuttal ≡ false
      → Refines s (put_dispute id (rebutted rebuttal now row) s)
  answered-Moves now rebuttal id row found pending free j =
      write-Moves id j (rebutted rebuttal now row) s.disputes (
        rw (found, pending_open row.status pending, unanswered row.rebuttal free)
          (answers rebuttal))

  reverted-Moves :
      (id : String) (t : Dispute)
      → get id s.disputes ≡ some t
      → is_ready t.status ≡ true
      → Refines s (put_ruling id (reverted t) [] s)
  reverted-Moves id t found ready j =
      write-Moves id j (reverted t) s.disputes
        (rw (found, ready_open t.status ready) (stays (waiting t.rebuttal)))

  ruled-Moves :
      (now : ℕ) (id summary : String) (pct : ℤ) (votes : List StoredVote) (t : Dispute)
      → get id s.disputes ≡ some t
      → is_ready t.status ≡ true
      → pos 0 ≤ℤ pct
      → pct ≤ℤ pos 100
      → Refines s (put_ruling id (ruled_row now pct summary t) votes s)
  ruled-Moves now id summary pct votes t found ready lo hi j =
      write-Moves id j (ruled_row now pct summary t) s.disputes
        (rw (found, ready_open t.status ready) (rules t.rebuttal pct lo hi))

module _ {C : Type 0} ⦃platform : Platform C⦄ where
  execute_ruling-Moves :
      (d : Draws) (now id : String) (judges : List Judge) (task_data : TaskData) (w : CourtWorld C)
      → Ends
          (λ v. Refines w.store v.store)
          (λ _ v. Refines w.store v.store)
          (execute_ruling d now id judges task_data w)
  execute_ruling-Moves d now id judges task_data w =
      Ends-map (execute_ruling d now id judges task_data w) reverts rules_on
        (execute_ruling-Ends d now id judges task_data w)
    where
      reverts : (v : CourtWorld C) → Reverts id w v → Refines w.store v.store
      reverts v (inl same) = rw same (λ j. stays (phase j w.store))
      reverts v (inr (t, found, ready, written)) =
          rw written (reverted-Moves w.store id t found ready)

      rules_on :
          (a : Details) (v : CourtWorld C)
          → RulesOn d now id judges task_data w a v
          → Refines w.store v.store
      rules_on a v (t, found, ready, _, (votes, pct, summary, judged, computed, _, (_, written))) =
          let (lo, hi, _) =
            compute_ruling_bounds now (build_context t task_data) judges votes pct summary judged
              computed in
          rw written (
            ruled-Moves w.store d.now id summary pct (stored_votes d.vote_id id votes) t found ready
              lo hi)

  -- One request that writes; a filing draws a new identifier.
  pub data Serves (w : CourtWorld C) : CourtWorld C → Type 0 where
    file_step :
        (state : CourtState) (d : Draws) (now : ℕ) (body : Option Object)
        → contains d.dispute_id w.store.disputes ≡ false
        → Serves w (file_request state d now body w).1
    rebuttal_step :
        (state : CourtState) (now : ℕ) (id : String) (body : Option Object)
        → Serves w (rebuttal_request state now id body w).1
    ruling_step :
        (state : CourtState) (d : Draws) (now id : String) (body : Option Object)
        → Serves w (trigger_ruling state d now id body w).1

  left :
      (s : DisputeStore) (o : Result Details × CourtWorld C)
      → Ends (λ v. Refines s v.store) (λ _ v. Refines s v.store) o
      → Refines s o.1.store
  left s (err e, v) h = h
  left s (ok x, v) h = h

  -- Each request that files, answers or rules, successful or not, moves every dispute as its parties
  -- may expect, or leaves it: a dispute appears unanswered, is answered at most once, and is decided
  -- at most once, with a percentage from 0 to 100; a decided one stays as it is. A filing draws a new
  -- identifier.
  pub Serves-Moves :
      (w v : CourtWorld C)
      → Serves w v
      → (id : String) → Moves (phase id w.store) (phase id v.store)
  Serves-Moves w _ (file_step state d now body new_id) =
      left w.store _
        (run_file_request (Refines w.store) state d now body w (λ j. stays (phase j w.store))
          (λ task claimant respondent claim escrow.
            file_dispute-Ends (Refines w.store) d now task claimant respondent claim escrow
              state.rebuttal_deadline_seconds w.store (λ j. stays (phase j w.store))
              (λ free. added-Moves w.store _ new_id refl refl))).ends
  Serves-Moves w _ (rebuttal_step state now id body) =
      left w.store _
        (run_rebuttal_request (Refines w.store) state now id body w (λ j. stays (phase j w.store))
          (λ rebuttal.
            submit_rebuttal-Ends (Refines w.store) now id rebuttal w.store
              (λ j. stays (phase j w.store))
              (λ row found pending free.
                answered-Moves w.store now rebuttal id row found pending free))).ends
  Serves-Moves w _ (ruling_step state d now id body) =
      left w.store _
        (run_trigger_ruling (Refines w.store) state d now id body w (λ j. stays (phase j w.store))
          (λ task_data u same.
            let moves = execute_ruling-Moves d now id state.judges task_data u in
            rw (← same) moves)).ends
