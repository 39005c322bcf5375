-- ===== src/Gateway/Tests.antt =====
-- Runs of the gateway on small inputs, and the theorems about it at such inputs.
use agent_economy.Shared.{
  Option, String, ◌≡◌, refl, some, none, if◌then◌else◌, List, [], ◌∷◌, Bool, not, text_eq, ◌==◌,
}
use agent_economy.Shared.Int.{pos}
use agent_economy.Shared.Dict.{get, set}
use agent_economy.Shared.Action.{escrow_already_resolved, ok, err, service_error}
use agent_economy.Gateway.Sql.{
  int, text, Row, Table, Database, Connection, settled, cell, find_row, change_rows, any_row,
  sql_equal, sql_sum, shown,
}
use agent_economy.Gateway.Schema.{mentions, schema_of, violated, all_refer, conflicts, refers}
use agent_economy.Gateway.Statements.{
  Constraints, begin, commit, update_where, compile_constraints, names_columns, meets, insert_event,
  Event, update, all_changed_refer, insert, check_insert, select_row,
}
use agent_economy.Gateway.Writer.Agents.{NewAgent}
use agent_economy.Gateway.Writer.Accounts.{
  add_balance, insert_transaction, select_balance, NewAccount,
}
use agent_economy.Gateway.Writer.Escrows.{
  load_escrow, must_be_locked, resolve, explain, NewLock, Release, Released, Split, pay,
  escrow_release, escrow_split,
}
use agent_economy.Gateway.Saved.{Concludes}
use agent_economy.Gateway.Writes.{agent, account, lock, release, perform, perform-Concludes}
use agent_economy.Gateway.Stream.{
  Request, recorded, marked, withdrawn, serve_all, Extends, serve_all-Extends,
}
use agent_economy.Gateway.Released.{PaysOut, escrow_release-PaysOut}
use agent_economy.Gateway.PaidOnce.{paid_once}

abbrev event : Event
event = record {
  event_source = "bank";
  event_type = "escrow.locked";
  timestamp = "t";
  task_id = none;
  agent_id = some "alice";
  summary = "s";
  payload = "{}";
}

abbrev alice : NewAgent
alice = record {
  agent_id = "alice";
  name = "Alice";
  public_key = "key";
  registered_at = "t";
  event = event;
}

abbrev purse : NewAccount
purse = record {
  account_id = "alice";
  balance = pos 9;
  created_at = "t";
  initial_credit = none;
  event = event;
}

abbrev stake : NewLock
stake = record {
  escrow_id = "esc-1";
  payer_account_id = "alice";
  amount = pos 4;
  task_id = "task";
  tx_id = "tx-1";
  created_at = "t";
  event = event;
}

abbrev payout : Release
payout = record {
  escrow_id = "esc-1";
  recipient_account_id = "alice";
  tx_id = "tx-2";
  resolved_at = "t";
  event = event;
}

abbrev no_spaces : String → Bool
no_spaces s = not (s == "an amount")

abbrev empty : Database
empty = record { rows = λ _. []; last_event = 0 }

abbrev requests : List Request
requests =
    recorded (agent alice)
    ∷ recorded (account purse)
    ∷ marked "claim-1" "ruled" none
    ∷ recorded (lock stake)
    ∷ recorded (release payout none)
    ∷ withdrawn "claim-1"
    ∷ recorded (release payout none)
    ∷ []

serve_all-Extends_example : Extends empty requests (serve_all no_spaces requests (settled empty))
serve_all-Extends_example =
    serve_all-Extends no_spaces requests empty (tt, (tt, (tt, (tt, (tt, (tt, (tt, tt)))))))

-- The book of a bank with one account and one locked escrow.
abbrev agent_line : Row
agent_line =
    ("agent_id", text "alice")
    ∷ ("name", text "Alice")
    ∷ ("public_key", text "key")
    ∷ ("registered_at", text "t")
    ∷ []

abbrev account_line : Row
account_line =
    ("account_id", text "alice") ∷ ("balance", int (pos 5)) ∷ ("created_at", text "t") ∷ []

abbrev escrow_line : Row
escrow_line =
    ("escrow_id", text "esc-1")
    ∷ ("payer_account_id", text "alice")
    ∷ ("amount", int (pos 4))
    ∷ ("task_id", text "task")
    ∷ ("status", text "locked")
    ∷ ("created_at", text "t")
    ∷ []

abbrev lines : String → Table
lines name =
    if name == "identity_agents"
    then agent_line ∷ []
    else if name == "bank_accounts"
    then account_line ∷ []
    else if name == "bank_escrow"
    then escrow_line ∷ []
    else []

abbrev book : Database
book = record { rows = lines; last_event = 3 }

perform-Concludes_example :
    Concludes
      (λ id. id)
      book
      event
      (perform no_spaces (release payout (some (("amount", int (pos 4)) ∷ []))) (settled book))
perform-Concludes_example =
    perform-Concludes no_spaces book (release payout (some (("amount", int (pos 4)) ∷ [])))
      (refl, tt)

-- The condition that the bank's client sends.
abbrev if_locked : Option Constraints
if_locked = some (("status", text "locked") ∷ [])

abbrev answer : Released
answer = record { amount = pos 4; event_id = 4 }

abbrev after_release : Connection
after_release = (escrow_release no_spaces payout if_locked (settled book)).1

payout_succeeds :
    escrow_release no_spaces payout if_locked (settled book) ≡ (ok answer, after_release)
unfolding begin commit load_escrow must_be_locked resolve update_where compile_constraints
    names_columns mentions meets explain insert_event escrow_release pay add_balance sql_sum update
    all_changed_refer all_refer refers insert_transaction select_balance select_row insert
    check_insert violated schema_of any_row conflicts find_row sql_equal shown cell get set
    change_rows
payout_succeeds = refl

escrow_release-PaysOut_example : PaysOut book payout if_locked answer after_release
escrow_release-PaysOut_example =
    escrow_release-PaysOut no_spaces book payout if_locked answer after_release payout_succeeds

abbrev division : Split
division = record {
  escrow_id = "esc-1";
  worker_account_id = "alice";
  poster_account_id = "alice";
  worker_tx_id = "tx-3";
  poster_tx_id = "tx-4";
  worker_amount = pos 1;
  poster_amount = pos 3;
  resolved_at = "t";
  event = event;
}

paid_once_example :
    (escrow_release no_spaces payout none (settled after_release.stored)
      ≡ (err (service_error escrow_already_resolved 409), settled after_release.stored))
    × (escrow_split no_spaces division none (settled after_release.stored)
        ≡ (err (service_error escrow_already_resolved 409), settled after_release.stored))
paid_once_example =
    paid_once no_spaces book payout if_locked refl answer after_release payout_succeeds payout
      division none refl refl
