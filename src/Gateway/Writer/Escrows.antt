-- ===== src/Gateway/Writer/Escrows.antt =====
-- Escrows in the gateway: `escrow_lock`, `_lookup_active_escrow`, `escrow_release`, `_load_escrow` and
-- `escrow_split`.
use agent_economy.Shared.{
  ℕ, String, Option, none, some, List, [], ◌∷◌, Bool, true, false, not, ◌&&◌, text_eq, ◌==◌,
  if◌then◌else◌,
}
use agent_economy.Shared.Int.{ℤ, pos, ◌+ℤ◌, eqb_ℤ, ltb_ℤ, leb_ℤ}
use agent_economy.Shared.Dict.{set}
use agent_economy.Shared.Action.{
  Action, Error, pure, raise, handle, raise_if, or_raise, ◌>>=◌, ◌>>◌, service_error,
  account_not_found, insufficient_funds, escrow_already_locked, escrow_already_resolved,
  escrow_not_found, amount_mismatch,
}
use agent_economy.Gateway.Sql.{int, text, Row, Connection, cell, shown, take_from_cell}
use agent_economy.Gateway.Statements.{
  Event, begin, commit, rollback, insert, update, insert_event, select_row, key_is, Constraints,
  update_where, check_constraint_violation,
}
use agent_economy.Gateway.Writer.Handlers.{on_integrity, refuse_foreign, keep_refusals, roll_back}
use agent_economy.Gateway.Writer.Accounts.{
  add_balance, select_balance, insert_transaction, int_of, rolled_back_unless,
}

pub record NewLock : Type 0 where
  pub escrow_id : String
  pub payer_account_id : String
  pub amount : ℤ
  pub task_id : String
  pub tx_id : String
  pub created_at : String
  pub event : Event

pub record Locked : Type 0 where
  pub escrow_id : String
  pub balance_after : ℤ
  pub event_id : ℕ

abbrev escrow_row : NewLock → Row
escrow_row request =
    ("escrow_id", text request.escrow_id)
    ∷ ("payer_account_id", text request.payer_account_id)
    ∷ ("amount", int request.amount)
    ∷ ("task_id", text request.task_id)
    ∷ ("status", text "locked")
    ∷ ("created_at", text request.created_at)
    ∷ []

-- `WHERE account_id = ? AND balance >= ?`
abbrev can_pay : String → ℤ → Row → Bool
can_pay account_id amount row =
    key_is "account_id" account_id row && leb_ℤ amount (int_of (cell "balance" row))

unfoldable pub debit : String → ℤ → Action Connection Bool
unfolding cell
debit account_id amount =
    update "bank_accounts" (λ row. set "balance" (take_from_cell amount (cell "balance" row)) row)
      (can_pay account_id amount)

-- Why nothing could be debited, after a rollback.
abbrev why_not : Option Row → Error
why_not none = service_error account_not_found 404
why_not (some row) = service_error insufficient_funds 402

unfoldable pub refuse_debit : String → Bool → Action Connection (Unit {0})
refuse_debit account_id true = pure tt
refuse_debit account_id false = do
  account ← select_row "bank_accounts" (key_is "account_id" account_id)
  rollback
  raise (why_not account)

abbrev pub lock : NewLock → Action Connection Locked
lock request = do
  begin
  debited ← debit request.payer_account_id request.amount
  refuse_debit request.payer_account_id debited
  insert "bank_escrow" (escrow_row request)
  insert_transaction request.tx_id request.payer_account_id "escrow_lock" request.amount
      request.task_id request.created_at
  balance ← select_balance request.payer_account_id
  event_id ← insert_event request.event
  commit
  pure (record {
    escrow_id = request.escrow_id;
    balance_after = int_of balance;
    event_id = event_id;
  })

abbrev locked_already : Error
locked_already = service_error escrow_already_locked 409

abbrev is_active : String → String → Row → Bool
is_active payer_id task_id row =
    key_is "payer_account_id" payer_id row
    && key_is "task_id" task_id row
    && key_is "status" "locked" row

abbrev pub replay_lock : NewLock → List String → Action Connection Locked
replay_lock request _ = do
  found ← select_row "bank_escrow" (is_active request.payer_account_id request.task_id)
  row ← or_raise found locked_already
  raise_if (not (eqb_ℤ (int_of (cell "amount" row)) request.amount)) locked_already
  pure (record { escrow_id = shown (cell "escrow_id" row); balance_after = pos 0; event_id = 0 })

unfoldable pub escrow_lock : NewLock → Action Connection Locked
unfolding cell shown
escrow_lock request =
    handle (lock request) (keep_refusals (on_integrity (replay_lock request) refuse_foreign))

abbrev pub is_locked : Row → Bool
is_locked row = shown (cell "status" row) == "locked"

unfoldable pub must_be_locked : Option Row → Action Connection ℤ
unfolding cell shown
must_be_locked none = rollback >> raise (service_error escrow_not_found 404)
must_be_locked (some row) =
    rolled_back_unless (is_locked row) (service_error escrow_already_resolved 409)
    >> pure (int_of (cell "amount" row))

-- The amount of the escrow.
unfoldable pub load_escrow : String → Action Connection ℤ
load_escrow escrow_id = do
  found ← select_row "bank_escrow" (key_is "escrow_id" escrow_id)
  must_be_locked found

-- What follows an `UPDATE` that changed no row.
unfoldable pub explain :
    String → String → String → Constraints → Error → Bool → Action Connection (Unit {0})
explain name key_column key constraints e true = pure tt
explain name key_column key constraints e false = do
  handle (check_constraint_violation name key_column key constraints) roll_back
  rollback
  raise e

abbrev pub resolved : String → String → Row → Row
resolved status resolved_at row =
    set "status" (text status) (set "resolved_at" (text resolved_at) row)

module _ (is_identifier : String → Bool) where
  -- The escrow gets its status; with no constraints the number of rows is not looked at.
  unfoldable pub resolve :
      String → String → String → Option Constraints → Action Connection (Unit {0})
  resolve status resolved_at escrow_id none = do
    update "bank_escrow" (resolved status resolved_at) (key_is "escrow_id" escrow_id)
    pure tt
  resolve status resolved_at escrow_id (some constraints) = do
    found ←
        update_where is_identifier "bank_escrow" "escrow_id" escrow_id constraints
          (resolved status resolved_at)
    explain "bank_escrow" "escrow_id" escrow_id constraints (service_error escrow_not_found 404)
        found

-- The credit of a share, with its transaction.
unfoldable pub pay : String → String → ℤ → String → String → Action Connection (Unit {0})
pay tx_id account_id amount escrow_id resolved_at = do
  found ← add_balance account_id amount
  rolled_back_unless found (service_error account_not_found 404)
  insert_transaction tx_id account_id "escrow_release" amount escrow_id resolved_at

pub record Release : Type 0 where
  pub escrow_id : String
  pub recipient_account_id : String
  pub tx_id : String
  pub resolved_at : String
  pub event : Event

pub record Released : Type 0 where
  pub amount : ℤ
  pub event_id : ℕ

pub record Split : Type 0 where
  pub escrow_id : String
  pub worker_account_id : String
  pub poster_account_id : String
  pub worker_tx_id : String
  pub poster_tx_id : String
  pub worker_amount : ℤ
  pub poster_amount : ℤ
  pub resolved_at : String
  pub event : Event

-- A share of nothing is not paid.
unfoldable pub pay_share : String → String → ℤ → String → String → Action Connection (Unit {0})
pay_share tx_id account_id amount escrow_id resolved_at =
    if ltb_ℤ (pos 0) amount then pay tx_id account_id amount escrow_id resolved_at else pure tt

module _ (is_identifier : String → Bool) where
  abbrev pub release : Release → Option Constraints → Action Connection Released
  release request constraints = do
    begin
    amount ← load_escrow request.escrow_id
    pay request.tx_id request.recipient_account_id amount request.escrow_id request.resolved_at
    resolve is_identifier "released" request.resolved_at request.escrow_id constraints
    event_id ← insert_event request.event
    commit
    pure (record { amount = amount; event_id = event_id })

  -- Of the answer, what the request does not say.
  unfoldable pub escrow_release : Release → Option Constraints → Action Connection Released
  escrow_release request constraints =
      handle (release request constraints) (keep_refusals roll_back)

  abbrev pub split : Split → Option Constraints → Action Connection ℕ
  split request constraints = do
    begin
    amount ← load_escrow request.escrow_id
    rolled_back_unless (eqb_ℤ (request.worker_amount +ℤ request.poster_amount) amount)
        (service_error amount_mismatch 400)
    pay_share request.worker_tx_id request.worker_account_id request.worker_amount request.escrow_id
        request.resolved_at
    pay_share request.poster_tx_id request.poster_account_id request.poster_amount request.escrow_id
        request.resolved_at
    resolve is_identifier "split" request.resolved_at request.escrow_id constraints
    event_id ← insert_event request.event
    commit
    pure event_id

  unfoldable pub escrow_split : Split → Option Constraints → Action Connection ℕ
  escrow_split request constraints = handle (split request constraints) (keep_refusals roll_back)
