-- ===== src/Bank/Ledger.antt =====
-- The methods of `InMemoryLedgerStore`
-- (services/central-bank/src/central_bank_service/services/in_memory_ledger_store.py).
use Prim.Native.String.{◌++◌ as text_append}
pub mod Invariant
pub mod Share
pub mod Conservation
pub mod Outcomes
pub mod Effects
pub mod Retries
pub mod History
pub mod Resolution
pub mod Audit
mod Tests
use mathlib.Core.Option.{get_or}
use agent_economy.Shared.{
  ℕ, String, Option, none, some, List, [], ◌∷◌, ◌++◌, Bool, true, false, not, ◌||◌, length, text_eq,
  pair_eq, is_some, if◌then◌else◌,
}
use agent_economy.Shared.Int.{ℤ, pos, ◌+ℤ◌, ◌-ℤ◌, ◌*ℤ◌, floor_div, ltb_ℤ, leb_ℤ, eqb_ℤ}
use agent_economy.Shared.Dict.{Dict, get, set, pop, contains, sum_of}
use agent_economy.Shared.Action.{
  Action, pure, raise, gets, or_raise, raise_if, modify, ◌>>=◌, ◌>>◌, service_error, key_error,
  invalid_amount, invalid_payload, account_exists, account_not_found, payload_mismatch,
  escrow_already_locked, escrow_already_resolved, escrow_not_found, insufficient_funds,
}
use agent_economy.Bank.Types.{
  Account, Tx, TxType, Escrow, EscrowStatus, locked, released, split, credit, debit, Ledger, Draws,
  CreditReceipt, LockReceipt, ReleaseReceipt, SplitReceipt,
}

-- `setdefault(account_id, [])` on a dictionary of lists
pub with_default : String → Dict String (List Tx) → Dict String (List Tx)
with_default account_id d = elim (get account_id d) [ none ↦ set account_id [] d | some items ↦ d ]

pub append_tx : String → Tx → Ledger → Ledger
append_tx account_id tx s =
    let d = with_default account_id s.transactions in
    let items = get_or (get account_id d) [] in
    record s { transactions = set account_id (items ++ tx ∷ []) d }

-- `account["balance"] = balance`, on the record that `accounts` holds under the key.
pub set_balance : String → Account → ℤ → Ledger → Ledger
set_balance key account balance s = record s {
  accounts = set key (record account { balance = balance }) s.accounts;
}

pub new_tx : String → TxType → ℤ → ℤ → String → ℕ → Tx
new_tx tx_id tx_type amount balance_after reference timestamp = record {
  tx_id = tx_id;
  tx_type = tx_type;
  amount = amount;
  balance_after = balance_after;
  reference = reference;
  timestamp = timestamp;
}

pub new_account : String → ℤ → ℕ → Account
new_account account_id balance created_at = record {
  account_id = account_id;
  balance = balance;
  created_at = created_at;
}

-- The new record of `accounts`, and its list of transactions.
pub add_account : Draws → String → ℤ → Ledger → Ledger
add_account d account_id initial_balance s = record s {
  accounts = set account_id (new_account account_id initial_balance d.now) s.accounts;
  transactions = with_default account_id s.transactions;
}

-- The writes of `create_account` once its guards have passed.
pub open_account : Draws → String → ℤ → Ledger → Ledger
open_account d account_id initial_balance s =
    let s' = add_account d account_id initial_balance s in
    let tx = new_tx d.tx_id credit initial_balance initial_balance "initial_balance" d.now in
    if ltb_ℤ (pos 0) initial_balance then append_tx account_id tx s' else s'

pub create_account : Draws → String → ℤ → Action Ledger Account
create_account d account_id initial_balance = do
  raise_if (ltb_ℤ initial_balance (pos 0)) (service_error invalid_amount 400)
  raise_if (← gets (λ s. contains account_id s.accounts)) (service_error account_exists 409)
  modify (open_account d account_id initial_balance)
  pure (new_account account_id initial_balance d.now)

pub get_account : String → Ledger → Option Account
get_account account_id s = get account_id s.accounts

-- The writes of `credit` for a reference that was not used before.
pub add_credit : Draws → String → Account → ℤ → String → Ledger → Ledger
add_credit d account_id account amount reference s =
    let new_balance = account.balance +ℤ amount in
    let tx = new_tx d.tx_id credit amount new_balance reference d.now in
    let s' = append_tx account_id tx (set_balance account_id account new_balance s) in
    record s' { credit_refs = set (account_id, reference) tx s'.credit_refs }

pub first_credit : Draws → String → Account → ℤ → String → Action Ledger CreditReceipt
first_credit d account_id account amount reference = do
  modify (add_credit d account_id account amount reference)
  pure (record { tx_id = d.tx_id; balance_after = account.balance +ℤ amount })

pub repeated_credit : Tx → ℤ → Action Ledger CreditReceipt
repeated_credit existing amount = do
  raise_if (not (eqb_ℤ existing.amount amount)) (service_error payload_mismatch 400)
  pure (record { tx_id = existing.tx_id; balance_after = existing.balance_after })

-- `credit`
pub credit_account : Draws → String → ℤ → String → Action Ledger CreditReceipt
credit_account d account_id amount reference = do
  raise_if (leb_ℤ amount (pos 0)) (service_error invalid_amount 400)
  account ← or_raise (← gets (get_account account_id)) (service_error account_not_found 404)
  existing ← gets (λ s. get (account_id, reference) s.credit_refs)
  elim existing [
    | none ↦ first_credit d account_id account amount reference
    | some tx ↦ repeated_credit tx amount
  ]

pub get_transactions : String → Action Ledger (List Tx)
get_transactions account_id = do
  raise_if (not (← gets (λ s. contains account_id s.accounts)))
      (service_error account_not_found 404)
  gets (λ s. get_or (get account_id s.transactions) [])

-- The writes of `escrow_lock` once its guards have passed.
pub lock_funds : Draws → String → Account → ℤ → String → Ledger → Ledger
lock_funds d payer_id payer amount task_id s =
    let balance = payer.balance -ℤ amount in
    let escrow : Escrow = record {
      escrow_id = d.escrow_id;
      payer_account_id = payer_id;
      amount = amount;
      task_id = task_id;
      status = locked;
      created_at = d.now;
      resolved_at = none;
    } in
    let s' = set_balance payer_id payer balance s in
    let s'' = record s' {
      escrows = set d.escrow_id escrow s'.escrows;
      locked_escrow_by_task = set (payer_id, task_id) d.escrow_id s'.locked_escrow_by_task;
    } in
    append_tx payer_id
      (new_tx d.tx_id debit amount balance (text_append "escrow_lock:" task_id) d.now_again) s''

pub new_lock : Draws → String → Account → ℤ → String → Action Ledger LockReceipt
new_lock d payer_id payer amount task_id = do
  raise_if (ltb_ℤ payer.balance amount) (service_error insufficient_funds 402)
  modify (lock_funds d payer_id payer amount task_id)
  pure (record { escrow_id = d.escrow_id; amount = amount; task_id = task_id; status = locked })

pub repeated_lock : String → ℤ → Action Ledger LockReceipt
repeated_lock existing_escrow_id amount = do
  existing ← or_raise (← gets (λ s. get existing_escrow_id s.escrows)) key_error
  raise_if (not (eqb_ℤ existing.amount amount)) (service_error escrow_already_locked 409)
  pure (record {
    escrow_id = existing.escrow_id;
    amount = existing.amount;
    task_id = existing.task_id;
    status = existing.status;
  })

pub escrow_lock : Draws → String → ℤ → String → Action Ledger LockReceipt
escrow_lock d payer_account_id amount task_id = do
  raise_if (leb_ℤ amount (pos 0)) (service_error invalid_amount 400)
  payer ← or_raise (← gets (get_account payer_account_id)) (service_error account_not_found 404)
  existing ← gets (λ s. get (payer_account_id, task_id) s.locked_escrow_by_task)
  elim existing [
    | none ↦ new_lock d payer_account_id payer amount task_id
    | some existing_escrow_id ↦ repeated_lock existing_escrow_id amount
  ]

-- `escrow["status"] = …`, `escrow["resolved_at"] = …` and the `pop` of the locked index.
pub resolve : String → Escrow → EscrowStatus → ℕ → Ledger → Ledger
resolve escrow_id escrow status resolved_at s = record s {
  escrows =
      set escrow_id (record escrow { status = status; resolved_at = some resolved_at }) s.escrows;
  locked_escrow_by_task = pop (escrow.payer_account_id, escrow.task_id) s.locked_escrow_by_task;
}

abbrev pub is_locked : EscrowStatus → Bool
is_locked locked = true
is_locked released = false
is_locked split = false

-- The writes of `escrow_release` once its guards have passed.
pub pay_out : Draws → String → Escrow → String → Account → Ledger → Ledger
pay_out d escrow_id escrow recipient_id recipient s =
    let balance = recipient.balance +ℤ escrow.amount in
    let reference = text_append "escrow_release:" escrow_id in
    let tx = new_tx d.tx_id credit escrow.amount balance reference d.now in
    resolve escrow_id escrow released d.now_last
      (append_tx recipient_id tx (set_balance recipient_id recipient balance s))

pub escrow_release : Draws → String → String → Action Ledger ReleaseReceipt
escrow_release d escrow_id recipient_account_id = do
  escrow ← or_raise (← gets (λ s. get escrow_id s.escrows)) (service_error escrow_not_found 404)
  recipient ←
      or_raise (← gets (get_account recipient_account_id)) (service_error account_not_found 404)
  raise_if (not (is_locked escrow.status)) (service_error escrow_already_resolved 409)
  modify (pay_out d escrow_id escrow recipient_account_id recipient)
  pure (record {
    escrow_id = escrow_id;
    status = released;
    amount = escrow.amount;
    recipient = recipient_account_id;
  })

-- `amount * worker_pct // 100`
pub worker_share : ℤ → ℤ → ℤ
worker_share amount worker_pct = floor_div (amount *ℤ worker_pct) 100

-- The writes of `escrow_split` once its guards have passed. Both balances are read before either
-- is written, and one account that plays both parts is one record: the second write wins.
pub split_out :
    Draws → String → Escrow → String → Account → ℤ → String → Account → ℤ → Ledger → Ledger
split_out d escrow_id escrow worker_id worker worker_amount poster_id poster poster_amount s =
    let worker_balance = worker.balance +ℤ worker_amount in
    let poster_balance = poster.balance +ℤ poster_amount in
    let worker_ref = text_append "escrow_split_worker:" escrow_id in
    let poster_ref = text_append "escrow_split_poster:" escrow_id in
    let worker_tx = new_tx d.tx_id credit worker_amount worker_balance worker_ref d.now in
    let poster_tx =
      new_tx d.poster_tx_id credit poster_amount poster_balance poster_ref d.now_again in
    let s' =
      set_balance poster_id poster poster_balance (set_balance worker_id worker worker_balance s) in
    resolve escrow_id escrow split d.now_last
      (append_tx poster_id poster_tx (append_tx worker_id worker_tx s'))

pub escrow_split : Draws → String → String → ℤ → String → Action Ledger SplitReceipt
escrow_split d escrow_id worker_account_id worker_pct poster_account_id = do
  raise_if (ltb_ℤ worker_pct (pos 0) || ltb_ℤ (pos 100) worker_pct)
      (service_error invalid_payload 400)
  escrow ← or_raise (← gets (λ s. get escrow_id s.escrows)) (service_error escrow_not_found 404)
  raise_if (not (is_locked escrow.status)) (service_error escrow_already_resolved 409)
  worker ← or_raise (← gets (get_account worker_account_id)) (service_error account_not_found 404)
  poster ← or_raise (← gets (get_account poster_account_id)) (service_error account_not_found 404)
  let worker_amount = worker_share escrow.amount worker_pct
  let poster_amount = escrow.amount -ℤ worker_amount
  modify (
      split_out d escrow_id escrow worker_account_id worker worker_amount poster_account_id poster
        poster_amount)
  pure (record {
    escrow_id = escrow_id;
    status = split;
    worker_amount = worker_amount;
    poster_amount = poster_amount;
    worker_pct = worker_pct;
  })

pub count_accounts : Ledger → ℕ
count_accounts s = length s.accounts

-- What an escrow adds to `total_escrowed`.
abbrev pub held : Escrow → ℤ
held escrow = if is_locked escrow.status then escrow.amount else pos 0

pub total_escrowed : Ledger → ℤ
total_escrowed s = sum_of held s.escrows
