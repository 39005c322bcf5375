-- ===== src/Bank/Ledger/Retries.antt =====
-- Retried calls of `credit` and `escrow_lock`.
use agent_economy.Shared.{String, ◌≡◌, ◌≢◌, arith, text_eq, pair_eq, inl, inr, Option-cases}
use agent_economy.Shared.Int.{ℤ, pos, ◌+ℤ◌, ◌-ℤ◌, ◌≤ℤ◌}
use agent_economy.Shared.Dict.{get, get-set_self}
use agent_economy.Shared.Action.{ok, err, service_error, payload_mismatch, escrow_already_locked}
use agent_economy.Bank.Types.{Ledger, Draws, CreditReceipt, LockReceipt, credit}
use agent_economy.Bank.Ledger.{
  append_tx, set_balance, new_tx, add_credit, lock_funds, get_account, credit_account, first_credit,
  repeated_credit, escrow_lock, new_lock, repeated_lock,
}
use agent_economy.Bank.Ledger.Invariant.{new_escrow}

-- A credit that succeeded, when it is sent again, returns the same receipt and changes nothing,
-- whatever identifier and time the second call draws; with another amount it is refused.
pub credit_account_retry :
    (d d' : Draws) (k : String) (amount other : ℤ) (r : String) (s t : Ledger)
    {receipt : CreditReceipt}
    → credit_account d k amount r s ≡ (ok receipt, t)
    → pos 1 ≤ℤ other
    → other ≢ amount
    → (credit_account d' k amount r t ≡ (ok receipt, t))
      × (credit_account d' k other r t ≡ (err (service_error payload_mismatch 400), t))
unfolding credit_account get_account first_credit repeated_credit add_credit append_tx set_balance
    new_tx
credit_account_retry d d' k amount other r s t h positive differs =
    elim (Option-cases (get k s.accounts)) [
      | inl unknown_account ↦ ground arith
      | inr (account, known) ↦
          let raised = account.balance +ℤ amount in
          let tx = new_tx d.tx_id credit amount raised r d.now in
          ground (
            arith,
            get-set_self k (record account { balance = raised }) s.accounts,
            get-set_self (k, r) tx s.credit_refs,
          )
    ]

-- A lock that succeeded, when it is sent again, returns the same receipt and changes nothing;
-- with another amount it is refused. No second escrow is made for the payer and the task.
pub escrow_lock_retry :
    (d d' : Draws) (p : String) (amount other : ℤ) (t : String) (s u : Ledger)
    {receipt : LockReceipt}
    → escrow_lock d p amount t s ≡ (ok receipt, u)
    → pos 1 ≤ℤ other
    → other ≢ amount
    → (escrow_lock d' p amount t u ≡ (ok receipt, u))
      × (escrow_lock d' p other t u ≡ (err (service_error escrow_already_locked 409), u))
unfolding escrow_lock get_account new_lock repeated_lock lock_funds append_tx set_balance new_tx
escrow_lock_retry d d' p amount other t s u h positive differs =
    elim (Option-cases (get p s.accounts)) [
      | inl unknown_account ↦ ground arith
      | inr (payer, known) ↦ ground (
        arith,
        get-set_self p (record payer { balance = payer.balance -ℤ amount }) s.accounts,
        get-set_self (p, t) d.escrow_id s.locked_escrow_by_task,
        get-set_self d.escrow_id (new_escrow d p amount t) s.escrows,
      )
    ]
