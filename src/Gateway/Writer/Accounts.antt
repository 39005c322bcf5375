-- ===== src/Gateway/Writer/Accounts.antt =====
-- Accounts in the gateway: `create_account`, `credit_account`, `_lookup_account` and
-- `_lookup_credit_tx`.
use agent_economy.Shared.{
  ℕ, String, Option, none, some, List, [], ◌∷◌, Bool, true, false, not, ◌&&◌, text_eq,
}
use agent_economy.Shared.Int.{ℤ, pos, eqb_ℤ}
use agent_economy.Shared.Dict.{set}
use agent_economy.Shared.Action.{
  Action, Error, pure, raise, handle, raise_if, or_raise, ◌>>=◌, ◌>>◌, service_error,
  account_exists, account_not_found, reference_conflict,
}
use agent_economy.Gateway.Sql.{
  Cell, null, real, int, text, Row, Connection, cell, shown, add_to_cell,
}
use agent_economy.Gateway.Statements.{
  Event, begin, commit, rollback, insert, update, insert_event, select_row, key_is,
}
use agent_economy.Gateway.Writer.Handlers.{on_integrity, on_conflict, keep_refusals}
use agent_economy.Gateway.Writer.Agents.{Written}

pub record InitialCredit : Type 0 where
  pub tx_id : String
  pub amount : ℤ
  pub reference : String
  pub timestamp : String

pub record NewAccount : Type 0 where
  pub account_id : String
  pub balance : ℤ
  pub created_at : String
  pub initial_credit : Option InitialCredit
  pub event : Event

pub record Transaction : Type 0 where
  pub tx_id : String
  pub account_id : String
  pub type : String
  pub amount : ℤ
  pub balance_after : Cell
  pub reference : String
  pub timestamp : String

abbrev pub transaction_row : Transaction → Row
transaction_row tx =
    ("tx_id", text tx.tx_id)
    ∷ ("account_id", text tx.account_id)
    ∷ ("type", text tx.type)
    ∷ ("amount", int tx.amount)
    ∷ ("balance_after", tx.balance_after)
    ∷ ("reference", text tx.reference)
    ∷ ("timestamp", text tx.timestamp)
    ∷ []

abbrev account_row : NewAccount → Row
account_row request =
    ("account_id", text request.account_id)
    ∷ ("balance", int request.balance)
    ∷ ("created_at", text request.created_at)
    ∷ []

abbrev initial_transaction : NewAccount → InitialCredit → Transaction
initial_transaction request credit = record {
  tx_id = credit.tx_id;
  account_id = request.account_id;
  type = "credit";
  amount = credit.amount;
  balance_after = int request.balance;
  reference = credit.reference;
  timestamp = credit.timestamp;
}

unfoldable pub insert_initial_credit :
    NewAccount → Option InitialCredit → Action Connection (Unit {0})
insert_initial_credit request none = pure tt
insert_initial_credit request (some credit) =
    insert "bank_transactions" (transaction_row (initial_transaction request credit))

abbrev pub open_account : NewAccount → Action Connection Written
open_account request = do
  begin
  insert "bank_accounts" (account_row request)
  insert_initial_credit request request.initial_credit
  event_id ← insert_event request.event
  commit
  pure (record { id = request.account_id; event_id = event_id })

unfoldable pub create_account : NewAccount → Action Connection Written
create_account request = handle (open_account request) (on_conflict account_exists)

-- `UPDATE bank_accounts SET balance = balance + ? WHERE account_id = ?`
unfoldable pub add_balance : String → ℤ → Action Connection Bool
unfolding cell
add_balance account_id amount =
    update "bank_accounts" (λ row. set "balance" (add_to_cell amount (cell "balance" row)) row)
      (key_is "account_id" account_id)

abbrev column_of : String → Option Row → Cell
column_of column none = null
column_of column (some row) = cell column row

-- `SELECT balance FROM bank_accounts WHERE account_id = ?`, within a statement or by itself.
unfoldable pub select_balance : String → Action Connection Cell
unfolding cell
select_balance account_id = do
  row ← select_row "bank_accounts" (key_is "account_id" account_id)
  pure (column_of "balance" row)

-- A balance is never NULL. A floating-point balance is at least 2 ** 63, above every amount.
abbrev pub int_of : Cell → ℤ
int_of null = pos 0
int_of real = pos 9223372036854775808
int_of (int z) = z
int_of (text s) = pos 0

-- An account's `INSERT INTO bank_transactions` with its balance.
unfoldable pub insert_transaction :
    String → String → String → ℤ → String → String → Action Connection (Unit {0})
insert_transaction tx_id account_id type amount reference timestamp = do
  balance ← select_balance account_id
  insert "bank_transactions" (
      transaction_row (record {
        tx_id = tx_id;
        account_id = account_id;
        type = type;
        amount = amount;
        balance_after = balance;
        reference = reference;
        timestamp = timestamp;
      }))

pub record NewCredit : Type 0 where
  pub tx_id : String
  pub account_id : String
  pub amount : ℤ
  pub reference : String
  pub timestamp : String
  pub event : Event

pub record Credited : Type 0 where
  pub tx_id : String
  pub balance_after : ℤ
  pub event_id : ℕ

abbrev conflict : Error
conflict = service_error reference_conflict 409

abbrev pub rolled_back_unless : Bool → Error → Action Connection (Unit {0})
rolled_back_unless true e = pure tt
rolled_back_unless false e = rollback >> raise e

abbrev pub credit : NewCredit → Action Connection Credited
credit request = do
  begin
  found ← add_balance request.account_id request.amount
  rolled_back_unless found (service_error account_not_found 404)
  insert_transaction request.tx_id request.account_id "credit" request.amount request.reference
      request.timestamp
  balance ← select_balance request.account_id
  event_id ← insert_event request.event
  commit
  pure (record { tx_id = request.tx_id; balance_after = int_of balance; event_id = event_id })

abbrev is_credit : String → String → Row → Bool
is_credit account_id reference row =
    key_is "account_id" account_id row
    && key_is "reference" reference row
    && key_is "type" "credit" row

abbrev pub replay_credit : NewCredit → List String → Action Connection Credited
replay_credit request _ = do
  found ← select_row "bank_transactions" (is_credit request.account_id request.reference)
  row ← or_raise found conflict
  raise_if (not (eqb_ℤ (int_of (cell "amount" row)) request.amount)) conflict
  pure (record {
    tx_id = shown (cell "tx_id" row);
    balance_after = int_of (cell "balance_after" row);
    event_id = 0;
  })

unfoldable pub credit_account : NewCredit → Action Connection Credited
unfolding cell shown
credit_account request =
    handle (credit request) (keep_refusals (on_integrity (replay_credit request) (raise conflict)))
