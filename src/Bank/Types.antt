-- ===== src/Bank/Types.antt =====
-- The state of `InMemoryLedgerStore` and the values that its methods return.
use agent_economy.Shared.{ℕ, String, Option, List, []}
use agent_economy.Shared.Int.{ℤ}
use agent_economy.Shared.Dict.{Dict}

pub record Account : Type 0 where
  pub account_id : String
  pub balance : ℤ
  pub created_at : ℕ

pub data TxType : Type 0 where
  credit debit : TxType

pub record Tx : Type 0 where
  pub tx_id : String
  pub tx_type : TxType
  pub amount : ℤ
  pub balance_after : ℤ
  pub reference : String
  pub timestamp : ℕ

pub data EscrowStatus : Type 0 where
  locked released split : EscrowStatus

pub record Escrow : Type 0 where
  pub escrow_id : String
  pub payer_account_id : String
  pub amount : ℤ
  pub task_id : String
  pub status : EscrowStatus
  pub created_at : ℕ
  pub resolved_at : Option ℕ

-- `_DatabaseState`, without its lock: a method holds the lock from its first read to its end.
pub record Ledger : Type 0 where
  pub accounts : Dict String Account
  pub transactions : Dict String (List Tx)
  pub credit_refs : Dict (String × String) Tx
  pub escrows : Dict String Escrow
  pub locked_escrow_by_task : Dict (String × String) String

abbrev pub empty : Ledger
empty = record {
  accounts = [];
  transactions = [];
  credit_refs = [];
  escrows = [];
  locked_escrow_by_task = [];
}

-- What one call draws from the system: fresh identifiers and successive readings of the clock.
pub record Draws : Type 0 where
  pub escrow_id : String
  pub tx_id : String
  pub poster_tx_id : String
  pub now : ℕ
  pub now_again : ℕ
  pub now_last : ℕ

pub record CreditReceipt : Type 0 where
  pub tx_id : String
  pub balance_after : ℤ

pub record LockReceipt : Type 0 where
  pub escrow_id : String
  pub amount : ℤ
  pub task_id : String
  pub status : EscrowStatus

pub record ReleaseReceipt : Type 0 where
  pub escrow_id : String
  pub status : EscrowStatus
  pub amount : ℤ
  pub recipient : String

pub record SplitReceipt : Type 0 where
  pub escrow_id : String
  pub status : EscrowStatus
  pub worker_amount : ℤ
  pub poster_amount : ℤ
  pub worker_pct : ℤ
