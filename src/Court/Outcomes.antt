-- ===== src/Court/Outcomes.antt =====
-- How `file_dispute` and `submit_rebuttal` end.
use agent_economy.Shared.{
  ℕ, ◌+◌, ◌*◌, ◌≡◌, String, is_some, false, not, Bool-cases, Option-cases, inl, inr, text_eq,
}
use agent_economy.Shared.Dict.{get, contains, get-set_self}
use agent_economy.Shared.Runs.{Ends}
use agent_economy.Court.Types.{rebuttal_pending, same_dispute_status, DisputeStore}
use agent_economy.Court.Store.{Draws, insert_dispute, get_dispute, update_rebuttal}
use agent_economy.Court.Service.{file_dispute, submit_rebuttal}
use agent_economy.Shared.{some}
use agent_economy.Court.Types.{Dispute}
use agent_economy.Court.Store.{new_dispute, add_dispute, rebutted, put_dispute}

module _ (P : DisputeStore → Type 0) where
  -- A filing is refused and nothing changes, or the task had no dispute and has one now.
  pub file_dispute-Ends :
      (d : Draws) (now : ℕ) (task claimant respondent claim escrow : String) (seconds : ℕ)
      (s : DisputeStore)
      → P s
      → (contains task s.dispute_id_by_task ≡ false
          → P (
              add_dispute
                (new_dispute d task claimant respondent claim escrow (now + seconds * 1000000))
                s))
      → Ends P (λ _ v. P v) (file_dispute d now task claimant respondent claim escrow seconds s)
  unfolding file_dispute insert_dispute
  file_dispute-Ends d now task claimant respondent claim escrow seconds s kept added =
      elim (Bool-cases (contains task s.dispute_id_by_task)) [
        | inl there ↦ rw there kept
        | inr free ↦ rw free (added free)
      ]

  -- A rebuttal is refused and nothing changes, or the dispute waited without one and has it now.
  pub submit_rebuttal-Ends :
      (now : ℕ) (id rebuttal : String) (s : DisputeStore)
      → P s
      → ((row : Dispute)
          → get id s.disputes ≡ some row
          → not (same_dispute_status row.status rebuttal_pending) ≡ false
          → is_some row.rebuttal ≡ false
          → P (put_dispute id (rebutted rebuttal now row) s))
      → Ends P (λ _ v. P v) (submit_rebuttal now id rebuttal s)
  unfolding submit_rebuttal get_dispute update_rebuttal
  submit_rebuttal-Ends now id rebuttal s kept answered = elim (Option-cases (get id s.disputes)) [
    | inl missing ↦ rw missing kept
    | inr (row, found) ↦ elim (Bool-cases (not (same_dispute_status row.status rebuttal_pending))) [
      | inl over ↦ rw (found, over) kept
      | inr waits ↦ elim (Bool-cases (is_some row.rebuttal)) [
        | inl there ↦ rw (found, waits, there) kept
        | inr free ↦ rw (found, waits, free, found, get-set_self) (answered row found waits free)
      ]
    ]
  ]
