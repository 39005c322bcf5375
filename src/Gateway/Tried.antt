-- ===== src/Gateway/Tried.antt =====
-- How the statements of a transaction run: what they leave in the file, and how an error finds it.
use agent_economy.Shared.{
  ℕ, suc, ◌≡◌, refl, ap, String, [], ◌∷◌, ◌++◌, Bool, true, false, text_eq, ◌==◌, arith, Bool-cases,
  inl, inr,
}
use agent_economy.Shared.Action.{
  Action, Result, ok, err, Error, pure, raise, gets, modify, lift, after, ◌>>=◌, ◌>>◌, Code,
  service_error,
}
use agent_economy.Gateway.Sql.{Row, Table, Database, Connection, settled, write_table, change_rows}
use agent_economy.Gateway.Writer.Accounts.{rolled_back_unless, select_balance, insert_transaction}
use agent_economy.Shared.Int.{ℤ}
use agent_economy.Gateway.Statements.{
  select_row, begin, rollback, insert, check_insert, update, all_changed_refer, Event, event_row,
}

-- Within a transaction: the file is as before, and no event is added.
pub record Working (d : Database) (v : Connection) : Type 0 where
  pub kept : v.stored ≡ d
  pub events : v.current.rows "events" ≡ d.rows "events"
  pub last : v.current.last_event ≡ d.last_event

-- A database with one event more.
pub record Records (d : Database) (event : Event) (id : ℕ) (after : Database) : Type 0 where
  pub fresh : id ≡ suc d.last_event
  pub last : after.last_event ≡ id
  pub events : after.rows "events" ≡ d.rows "events" ++ event_row id event ∷ []

abbrev pub is_refusal : Error → Bool
is_refusal e = elim e [ service_error _ _ ↦ true | _ ↦ false ]

abbrev pub refuses : {A : Type 0} → Result A → Bool
refuses (err e) = is_refusal e
refuses (ok _) = false

-- An error finds the file as before. Where the transaction is `strict`, a `ServiceError` comes after a
-- rollback.
pub record Fails (strict : Bool) (d : Database) (e : Error) (v : Connection) : Type 0 where
  pub kept : v.stored ≡ d
  pub clean : strict ≡ true → is_refusal e ≡ true → v ≡ settled d

abbrev pub EndsIn :
    {A : Type 0} → Bool → Database → (A → Connection → Type 0) → Result A × Connection → Type 0
EndsIn strict d Done (err e, v) = Fails strict d e v
EndsIn strict d Done (ok a, v) = Done a v

pub record Tried {A : Type 0} (strict : Bool) (d : Database) (w : Connection)
    (m : Action Connection A) (Done : A → Connection → Type 0) : Type 0 where
  pub ends : EndsIn strict d Done (m w)

module _ {strict : Bool} {d : Database} {w : Connection} where
  pub try_bind :
      {A B : Type 0} {Between : A → Connection → Type 0} {Done : B → Connection → Type 0}
      (m : Action Connection A) (f : A → Action Connection B)
      → Tried strict d w m Between
      → ((a : A) (v : Connection) → Between a v → Tried strict d v (f a) Done)
      → Tried strict d w (m >>= f) Done
  try_bind {A} {B} {Between} {Done} m f r h = record { ends = go (m w) r.ends }
    where
      go :
          (o : Result A × Connection)
          → EndsIn strict d Between o
          → EndsIn strict d Done (let (r, v) = o in after r f v)
      go (err e, v) b = b
      go (ok a, v) b = (h a v b).ends

  pub try_pure :
      {A : Type 0} {Done : A → Connection → Type 0} (a : A)
      → Done a w
      → Tried strict d w (pure a) Done
  try_pure a h = record { ends = h }

  pub try_gets :
      {A B : Type 0} {Done : B → Connection → Type 0} (g : Connection → A)
      (f : A → Action Connection B)
      → Tried strict d w (f (g w)) Done
      → Tried strict d w (gets g >>= f) Done
  try_gets g f h = record { ends = h.ends }

  -- An error that is no refusal.
  pub try_fail :
      {A : Type 0} {Done : A → Connection → Type 0} (e : Error)
      → is_refusal e ≡ false
      → w.stored ≡ d
      → Tried strict d w (raise e) Done
  try_fail e other kept = record { ends = record { kept = kept; clean = λ _ h. cc } }

  pub try_lift :
      {A : Type 0} {Done : A → Connection → Type 0} (r : Result A)
      → w.stored ≡ d
      → refuses r ≡ false
      → ((a : A) → r ≡ ok a → Done a w)
      → Tried strict d w (lift r) Done
  try_lift (err e) kept other h = record { ends = record { kept = kept; clean = λ _ is. cc } }
  try_lift (ok a) kept other h = record { ends = h a refl }

pub write_table-Working :
    {d : Database} {w : Connection} (name : String) (t : Table)
    → (name == "events") ≡ false
    → Working d w
    → Working d (write_table name t w)
write_table-Working name t other working = record {
  kept = working.kept;
  events = rw other working.events;
  last = working.last;
}

-- SQLite's own errors are no refusals.
pub check_insert-refuses :
    (name : String) (row : Row) (d : Database) → refuses (check_insert name row d) ≡ false
unfolding check_insert
check_insert-refuses name row d = ground arith

-- Statements within a transaction.
module _ {strict : Bool} {d : Database} {w : Connection} (working : Working d w) where
  store-Working :
      (name : String) (row : Row)
      → (name == "events") ≡ false
      → (r : Result (Unit {0})) → refuses r ≡ false
      → Tried strict d w
          (lift r >> modify (λ c. write_table name (c.current.rows name ++ row ∷ []) c))
          (λ _ v. Working d v)
  store-Working name row other (err e) passes = record {
    ends = record { kept = working.kept; clean = λ _ is. cc };
  }
  store-Working name row other (ok _) passes = record {
    ends = write_table-Working name (w.current.rows name ++ row ∷ []) other working;
  }

  pub insert-Working :
      (name : String) (row : Row)
      → (name == "events") ≡ false
      → Tried strict d w (insert name row) (λ _ v. Working d v)
  unfolding insert
  insert-Working name row other = record {
    ends =
        (store-Working name row other (check_insert name row w.current)
          (check_insert-refuses name row w.current)).ends;
  }

  pub update-Working :
      (name : String) (change : Row → Row) (test : Row → Bool)
      → (name == "events") ≡ false
      → Tried strict d w (update name change test) (λ _ v. Working d v)
  unfolding update
  update-Working name change test other =
      elim (Bool-cases (all_changed_refer name change test (w.current.rows name) w.current)) [
        | inl refer ↦ record {
          ends = rw refer (
              write_table-Working name (change_rows change test (w.current.rows name)) other
                working);
        }
        | inr dangles ↦ record {
          ends = rw dangles (record { kept = working.kept; clean = λ _ h. cc });
        }
      ]

  -- A check that rolls back.
  pub try_unless :
      {A : Type 0} {Done : A → Connection → Type 0} (b : Bool) (code : Code) (status : ℕ)
      (f : Unit {0} → Action Connection A)
      → (b ≡ true → Tried strict d w (f tt) Done)
      → Tried strict d w (rolled_back_unless b (service_error code status) >>= f) Done
  unfolding rollback
  try_unless true code status f h = record { ends = (h refl).ends }
  try_unless false code status f h = record {
    ends = record { kept = working.kept; clean = λ _ _. ap settled working.kept };
  }

  pub unless-Working :
      (b : Bool) (code : Code) (status : ℕ)
      → Tried strict d w (rolled_back_unless b (service_error code status)) (λ _ v. Working d v)
  unfolding rollback
  unless-Working true code status = try_pure tt working
  unless-Working false code status = record {
    ends = record { kept = working.kept; clean = λ _ _. ap settled working.kept };
  }

  pub balance-Working :
      (account_id : String) → Tried strict d w (select_balance account_id) (λ _ v. Working d v)
  unfolding select_balance select_row
  balance-Working account_id = record { ends = working }

pub begin-Working :
    {strict : Bool} {d : Database} → Tried strict d (settled d) begin (λ _ v. Working d v)
unfolding begin
begin-Working = record { ends = record { kept = refl; events = refl; last = refl } }

module _ {strict : Bool} {d : Database} {w : Connection} (working : Working d w) where
  pub transaction-Working :
      (tx_id account_id type : String) (amount : ℤ) (reference timestamp : String)
      → Tried strict d w
          (insert_transaction tx_id account_id type amount reference timestamp)
          (λ _ v. Working d v)
  unfolding insert_transaction
  transaction-Working tx_id account_id type amount reference timestamp =
      try_bind (select_balance account_id) _ (balance-Working working account_id)
        (λ balance v now. insert-Working now "bank_transactions" _ refl)
