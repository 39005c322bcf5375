-- ===== src/Gateway/Methods/Bank.antt =====
-- The gateway's methods on agents, accounts and escrows: each commits with its event, or leaves the
-- file as it was.
use agent_economy.Shared.{ℕ, refl, String, Option, List, Bool, true, not, text_eq}
use agent_economy.Shared.Int.{◌+ℤ◌, eqb_ℤ}
use agent_economy.Shared.Runs.{run_raise_if}
use agent_economy.Shared.Action.{
  account_exists, account_not_found, amount_mismatch, foreign_key_violation, reference_conflict,
}
use agent_economy.Gateway.Schema.{mentions}
use agent_economy.Gateway.Sql.{Database, settled}
use agent_economy.Gateway.Statements.{begin, insert, Constraints}
use agent_economy.Gateway.Writer.Agents.{
  NewAgent, Written, register_agent, replay_registration, register, already_registered,
}
use agent_economy.Gateway.Writer.Accounts.{
  NewAccount, NewCredit, Credited, create_account, credit_account, open_account, credit,
  select_balance, insert_transaction, add_balance, insert_initial_credit,
}
use agent_economy.Gateway.Writer.Escrows.{
  NewLock, Locked, escrow_lock, lock, Release, Released, Split, escrow_release, escrow_split,
  release, split, debit, refuse_debit, load_escrow, pay, pay_share, resolve,
}
use agent_economy.Gateway.Tried.{
  try_bind, begin-Working, insert-Working, try_unless, balance-Working, transaction-Working,
}
use agent_economy.Gateway.Steps.Clauses.{Named}
use agent_economy.Gateway.Steps.Payments.{
  add_balance-Working, debit-Working, credit_row-Working, refuse_debit-Working, load_escrow-Working,
  pay-Working, pay_share-Working,
}
use agent_economy.Gateway.Steps.Changes.{resolve-Working}
use agent_economy.Gateway.Saved.{
  Concludes, finish, on_conflict-Concludes, on_integrity-Concludes, roll_back-Concludes,
  keep_refusals-Concludes, handle-Concludes, look_up-Concludes,
}

module _ (d : Database) where
  pub register_agent-Concludes :
      (request : NewAgent)
      → Concludes (λ w. w.event_id) d request.event (register_agent request (settled d))
  unfolding register_agent
  register_agent-Concludes request =
      handle-Concludes _ d request.event {strict = true} (register request) _
        (try_bind begin _ begin-Working (λ _ v now.
          try_bind (insert "identity_agents" _) _ (insert-Working now "identity_agents" _ refl)
            (λ _ u then_on.
              finish then_on request.event (λ (w : Written). w.event_id) _ (λ _. refl))))
        (λ e v fails.
          on_integrity-Concludes _ d request.event _ foreign_key_violation 409 e v fails.kept
            (λ names. replayed names))
    where
      replayed :
          (names : List String)
          → Concludes
              (λ (w : Written). w.event_id)
              d
              request.event
              (replay_registration request names (settled d))
      replayed names =
          (run_raise_if (not (mentions "public_key" names)) already_registered _ refl (λ _. record {
            ends = look_up-Concludes _ d request.event "identity_agents" _ _ _ _ _ (λ _. refl);
          })).ends

  pub create_account-Concludes :
      (request : NewAccount)
      → Concludes (λ w. w.event_id) d request.event (create_account request (settled d))
  unfolding create_account
  create_account-Concludes request =
      handle-Concludes _ d request.event {strict = true} (open_account request) _
        (try_bind begin _ begin-Working (λ _ v now.
          try_bind (insert "bank_accounts" _) _ (insert-Working now "bank_accounts" _ refl)
            (λ _ u then_on.
              try_bind (insert_initial_credit request request.initial_credit) _
                (credit_row-Working then_on request request.initial_credit)
                (λ _ t at_last.
                  finish at_last request.event (λ (w : Written). w.event_id) _ (λ _. refl)))))
        (λ e v fails. on_conflict-Concludes _ d request.event account_exists e v fails.kept)

  pub credit_account-Concludes :
      (request : NewCredit)
      → Concludes (λ w. w.event_id) d request.event (credit_account request (settled d))
  unfolding credit_account
  credit_account-Concludes request =
      handle-Concludes _ d request.event {strict = true} (credit request) _
        (try_bind begin _ begin-Working (λ _ v now.
          try_bind (add_balance request.account_id request.amount) _
            (add_balance-Working now request.account_id request.amount)
            (λ found u then_on. try_unless then_on found account_not_found 404 _ (λ _.
              try_bind
                (insert_transaction request.tx_id request.account_id "credit" request.amount
                  request.reference request.timestamp)
                _
                (transaction-Working then_on request.tx_id request.account_id "credit"
                  request.amount request.reference request.timestamp)
                (λ _ t later.
                  try_bind (select_balance request.account_id) _
                    (balance-Working later request.account_id)
                    (λ balance s at_last.
                      finish at_last request.event (λ (w : Credited). w.event_id) _
                        (λ _. refl)))))))
        (λ e v fails. keep_refusals-Concludes _ d request.event _ e v fails (λ e'.
          on_integrity-Concludes _ d request.event _ reference_conflict 409 e' v fails.kept
            (λ names.
              look_up-Concludes _ d request.event "bank_transactions" _ _ _ _ _ (λ _. refl))))

  pub escrow_lock-Concludes :
      (request : NewLock)
      → Concludes (λ w. w.event_id) d request.event (escrow_lock request (settled d))
  unfolding escrow_lock
  escrow_lock-Concludes request =
      handle-Concludes _ d request.event {strict = true} (lock request) _
        (try_bind begin _ begin-Working (λ _ v now.
          try_bind (debit request.payer_account_id request.amount) _
            (debit-Working now request.payer_account_id request.amount)
            (λ debited u then_on.
              try_bind (refuse_debit request.payer_account_id debited) _
                (refuse_debit-Working then_on request.payer_account_id debited)
                (λ _ t later.
                  try_bind (insert "bank_escrow" _) _ (insert-Working later "bank_escrow" _ refl)
                    (λ _ s inserted.
                      try_bind
                        (insert_transaction request.tx_id request.payer_account_id "escrow_lock"
                          request.amount request.task_id request.created_at)
                        _
                        (transaction-Working inserted request.tx_id request.payer_account_id
                          "escrow_lock" request.amount request.task_id request.created_at)
                        (λ _ r noted.
                          try_bind (select_balance request.payer_account_id) _
                            (balance-Working noted request.payer_account_id)
                            (λ balance q at_last.
                              finish at_last request.event (λ (w : Locked). w.event_id) _
                                (λ _. refl))))))))
        (λ e v fails. keep_refusals-Concludes _ d request.event _ e v fails (λ e'.
          on_integrity-Concludes _ d request.event _ foreign_key_violation 409 e' v fails.kept
            (λ names. look_up-Concludes _ d request.event "bank_escrow" _ _ _ _ _ (λ _. refl))))

  pub escrow_release-Concludes :
      (is_identifier : String → Bool) (request : Release) (constraints : Option Constraints)
      → Named is_identifier constraints
      → Concludes
          (λ w. w.event_id)
          d
          request.event
          (escrow_release is_identifier request constraints (settled d))
  unfolding escrow_release
  escrow_release-Concludes is_identifier request constraints named =
      handle-Concludes _ d request.event {strict = true} (release is_identifier request constraints)
        _
        (try_bind begin _ begin-Working (λ _ v now.
          try_bind (load_escrow request.escrow_id) _ (load_escrow-Working now request.escrow_id)
            (λ amount u then_on.
              try_bind
                (pay request.tx_id request.recipient_account_id amount request.escrow_id
                  request.resolved_at)
                _
                (pay-Working then_on request.tx_id request.recipient_account_id amount
                  request.escrow_id request.resolved_at)
                (λ _ t later.
                  try_bind
                    (resolve is_identifier "released" request.resolved_at request.escrow_id
                      constraints)
                    _
                    (resolve-Working later is_identifier "released" request.resolved_at
                      request.escrow_id constraints (λ _. named))
                    (λ _ s at_last.
                      finish at_last request.event (λ (w : Released). w.event_id) _ (λ _. refl))))))
        (λ e v fails.
          keep_refusals-Concludes _ d request.event _ e v fails
            (λ e'. roll_back-Concludes _ d request.event e' v fails.kept))

  pub escrow_split-Concludes :
      (is_identifier : String → Bool) (request : Split) (constraints : Option Constraints)
      → Named is_identifier constraints
      → Concludes
          (λ id. id)
          d
          request.event
          (escrow_split is_identifier request constraints (settled d))
  unfolding escrow_split
  escrow_split-Concludes is_identifier request constraints named =
      handle-Concludes _ d request.event {strict = true} (split is_identifier request constraints) _
        (try_bind begin _ begin-Working (λ _ v now.
          try_bind (load_escrow request.escrow_id) _ (load_escrow-Working now request.escrow_id)
            (λ amount u then_on.
              try_unless then_on (eqb_ℤ (request.worker_amount +ℤ request.poster_amount) amount)
                amount_mismatch 400 _
                (λ _.
                  try_bind
                    (pay_share request.worker_tx_id request.worker_account_id request.worker_amount
                      request.escrow_id request.resolved_at)
                    _
                    (pay_share-Working then_on request.worker_tx_id request.worker_account_id
                      request.worker_amount request.escrow_id request.resolved_at)
                    (λ _ t later.
                      try_bind
                        (pay_share request.poster_tx_id request.poster_account_id
                          request.poster_amount request.escrow_id request.resolved_at)
                        _
                        (pay_share-Working later request.poster_tx_id request.poster_account_id
                          request.poster_amount request.escrow_id request.resolved_at)
                        (λ _ s paid.
                          try_bind
                            (resolve is_identifier "split" request.resolved_at request.escrow_id
                              constraints)
                            _
                            (resolve-Working paid is_identifier "split" request.resolved_at
                              request.escrow_id constraints (λ _. named))
                            (λ _ r at_last.
                              finish at_last request.event (λ (id : ℕ). id) _ (λ _. refl))))))))
        (λ e v fails.
          keep_refusals-Concludes _ d request.event _ e v fails
            (λ e'. roll_back-Concludes _ d request.event e' v fails.kept))
