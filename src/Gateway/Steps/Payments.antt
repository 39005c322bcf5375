-- ===== src/Gateway/Steps/Payments.antt =====
-- Payments in a transaction keep the file and add no event.
use agent_economy.Shared.{
  refl, ap, String, Option, none, some, Bool, true, false, text_eq, Bool-cases, inl, inr,
}
use agent_economy.Shared.Int.{ℤ, pos, ltb_ℤ}
use agent_economy.Shared.Action.{account_not_found, escrow_already_resolved}
use agent_economy.Gateway.Sql.{Row, Database, Connection, settled, find_row}
use agent_economy.Gateway.Statements.{rollback, select_row, key_is}
use agent_economy.Gateway.Writer.Accounts.{
  add_balance, NewAccount, InitialCredit, insert_initial_credit,
}
use agent_economy.Gateway.Writer.Escrows.{
  debit, refuse_debit, must_be_locked, load_escrow, is_locked, pay, pay_share,
}
use agent_economy.Gateway.Tried.{
  Working, Tried, try_bind, try_pure, insert-Working, update-Working, try_unless,
  transaction-Working,
}

module _ {strict : Bool} {d : Database} {w : Connection} (working : Working d w) where
  pub add_balance-Working :
      (account_id : String) (amount : ℤ)
      → Tried strict d w (add_balance account_id amount) (λ _ v. Working d v)
  unfolding add_balance
  add_balance-Working account_id amount = update-Working working "bank_accounts" _ _ refl

  pub debit-Working :
      (account_id : String) (amount : ℤ)
      → Tried strict d w (debit account_id amount) (λ _ v. Working d v)
  unfolding debit
  debit-Working account_id amount = update-Working working "bank_accounts" _ _ refl

  pub credit_row-Working :
      (request : NewAccount) (credit : Option InitialCredit)
      → Tried strict d w (insert_initial_credit request credit) (λ _ v. Working d v)
  unfolding insert_initial_credit
  credit_row-Working request none = try_pure tt working
  credit_row-Working request (some credit) = insert-Working working "bank_transactions" _ refl

  pub refuse_debit-Working :
      (account_id : String) (debited : Bool)
      → Tried strict d w (refuse_debit account_id debited) (λ _ v. Working d v)
  unfolding refuse_debit rollback select_row
  refuse_debit-Working account_id true = try_pure tt working
  refuse_debit-Working account_id false = record {
    ends = record { kept = working.kept; clean = λ _ _. ap settled working.kept };
  }

  must_be_locked-Working :
      (found : Option Row) → Tried strict d w (must_be_locked found) (λ _ v. Working d v)
  unfolding must_be_locked rollback
  must_be_locked-Working none = record {
    ends = record { kept = working.kept; clean = λ _ _. ap settled working.kept };
  }
  must_be_locked-Working (some row) =
      try_unless working (is_locked row) escrow_already_resolved 409 _ (λ _. try_pure _ working)

module _ {strict : Bool} {d : Database} {w : Connection} (working : Working d w) where
  pub load_escrow-Working :
      (escrow_id : String) → Tried strict d w (load_escrow escrow_id) (λ _ v. Working d v)
  unfolding load_escrow select_row
  load_escrow-Working escrow_id = record {
    ends =
        (must_be_locked-Working {strict = strict} working
          (find_row (key_is "escrow_id" escrow_id) (w.current.rows "bank_escrow"))).ends;
  }

  pub pay-Working :
      (tx_id account_id : String) (amount : ℤ) (escrow_id resolved_at : String)
      → Tried strict d w (pay tx_id account_id amount escrow_id resolved_at) (λ _ v. Working d v)
  unfolding pay
  pay-Working tx_id account_id amount escrow_id resolved_at =
      try_bind (add_balance account_id amount) _ (add_balance-Working working account_id amount)
        (λ found v now. try_unless now found account_not_found 404 _ (λ _.
          transaction-Working now tx_id account_id "escrow_release" amount escrow_id resolved_at))

module _ {strict : Bool} {d : Database} {w : Connection} (working : Working d w) where
  pub pay_share-Working :
      (tx_id account_id : String) (amount : ℤ) (escrow_id resolved_at : String)
      → Tried strict d w
          (pay_share tx_id account_id amount escrow_id resolved_at)
          (λ _ v. Working d v)
  unfolding pay_share
  pay_share-Working tx_id account_id amount escrow_id resolved_at =
      elim (Bool-cases (ltb_ℤ (pos 0) amount)) [
        | inl some_amount ↦
            rw some_amount (pay-Working working tx_id account_id amount escrow_id resolved_at)
        | inr nothing ↦ rw nothing (try_pure tt working)
      ]
