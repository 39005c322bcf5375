-- ===== src/Gateway/Inversions.antt =====
-- What a statement or a payment has done where it succeeded.
use agent_economy.Shared.{
  ◌≡◌, refl, sym, ap, String, [], ◌∷◌, ◌++◌, ◌∙◌, Bool, true, false, inl, inr, arith, Bool-cases,
  text_eq,
}
use agent_economy.Shared.Int.{ℤ}
use agent_economy.Shared.Dict.{set}
use agent_economy.Shared.Action.{
  Action, Result, ok, err, Error, modify, lift, after, ◌>>=◌, ◌>>◌, service_error,
  account_not_found,
}
use agent_economy.Gateway.Sql.{
  Row, Table, Database, Connection, settled, cell, add_to_cell, change_rows, write_table,
}
use agent_economy.Gateway.Statements.{
  rollback, insert, check_insert, update, all_changed_refer, select_row, key_is,
}
use agent_economy.Gateway.Writer.Accounts.{
  add_balance, insert_transaction, select_balance, rolled_back_unless,
}
use agent_economy.Gateway.Writer.Escrows.{Release, pay}

pub >>=-inv :
    {S A B : Type 0} (m : Action S A) (f : A → Action S B) (s : S) (b : B) (t : S)
    → (m >>= f) s ≡ (ok b, t)
    → (a : A) × (u : S) × (m s ≡ (ok a, u)) × (f a u ≡ (ok b, t))
>>=-inv {S} {A} {B} m f s b t = go (m s) refl
  where
    go :
        (o : Result A × S)
        → m s ≡ o
        → (let (r, u) = o in after r f u) ≡ (ok b, t)
        → (a : A) × (u : S) × (m s ≡ (ok a, u)) × (f a u ≡ (ok b, t))
    go (err e, u) is h = absurd (ground arith)
    go (ok a, u) is h = (a, u, is, h)

-- A table that a call does not write, and the balances that a payment leaves.
pub record Pays (account_id : String) (amount : ℤ) (before v : Connection) : Type 0 where
  pub accounts :
      v.current.rows "bank_accounts"
      ≡ change_rows
          (λ row. set "balance" (add_to_cell amount (cell "balance" row)) row)
          (key_is "account_id" account_id)
          (before.current.rows "bank_accounts")
  pub escrows : v.current.rows "bank_escrow" ≡ before.current.rows "bank_escrow"
  pub stored : v.stored ≡ before.stored

pub insert-ok :
    (name : String) (row : Row) (c v : Connection)
    → insert name row c ≡ (ok tt, v)
    → v ≡ write_table name (c.current.rows name ++ row ∷ []) c
unfolding insert
insert-ok name row c v = go (check_insert name row c.current)
  where
    go :
        (r : Result (Unit {0}))
        → (lift r >> modify (λ u. write_table name (u.current.rows name ++ row ∷ []) u)) c
          ≡ (ok tt, v)
        → v ≡ write_table name (c.current.rows name ++ row ∷ []) c
    go (err e) h = absurd (ground arith)
    go (ok _) h = sym (ap (λ (o : Result (Unit {0}) × Connection). o.1) h)

pub update-ok :
    (name : String) (change : Row → Row) (test : Row → Bool) (c v : Connection) (found : Bool)
    → update name change test c ≡ (ok found, v)
    → v ≡ write_table name (change_rows change test (c.current.rows name)) c
unfolding update
update-ok name change test c v found h =
    elim (Bool-cases (all_changed_refer name change test (c.current.rows name) c.current)) [
      | inl refer ↦ sym (ap (λ (o : Result Bool × Connection). o.1) (rw refer at h))
      | inr dangles ↦ absurd (ground (arith, rw dangles at h))
    ]

pub add_balance-ok :
    (account_id : String) (amount : ℤ) (c v : Connection) (found : Bool)
    → add_balance account_id amount c ≡ (ok found, v)
    → Pays account_id amount c v
unfolding add_balance
add_balance-ok account_id amount c v found h =
    rw (update-ok "bank_accounts" _ _ c v found h)
      (record { accounts = refl; escrows = refl; stored = refl })

pub went_on-ok :
    (found : Bool) (e : Error) (c v : Connection) (done : Unit {0})
    → rolled_back_unless found e c ≡ (ok done, v)
    → v ≡ c
unfolding rollback
went_on-ok true e c v done h = sym (ap (λ (o : Result (Unit {0}) × Connection). o.1) h)
went_on-ok false e c v done h = absurd (ground arith)

pub transaction-ok :
    (tx_id account_id type : String) (amount : ℤ) (reference timestamp : String) (c v : Connection)
    → insert_transaction tx_id account_id type amount reference timestamp c ≡ (ok tt, v)
    → (v.current.rows "bank_accounts" ≡ c.current.rows "bank_accounts")
      × (v.current.rows "bank_escrow" ≡ c.current.rows "bank_escrow")
      × (v.stored ≡ c.stored)
unfolding insert_transaction select_balance select_row
transaction-ok tx_id account_id type amount reference timestamp c v h =
    let wrote = insert-ok "bank_transactions" _ c v h in rw wrote (refl, refl, refl)

pub pay-ok :
    (tx_id account_id : String) (amount : ℤ) (escrow_id resolved_at : String) (c v : Connection)
    → pay tx_id account_id amount escrow_id resolved_at c ≡ (ok tt, v)
    → Pays account_id amount c v
unfolding pay
pay-ok tx_id account_id amount escrow_id resolved_at c v h =
    let (found, u, added, then_on) = >>=-inv (add_balance account_id amount) _ c tt v h in
    let (done, t, went_on, noted) =
      >>=-inv (rolled_back_unless found (service_error account_not_found 404)) _ u tt v then_on in
    let paid = add_balance-ok account_id amount c u found added in
    let same = went_on-ok found (service_error account_not_found 404) u t done went_on in
    let left =
      transaction-ok tx_id account_id "escrow_release" amount escrow_id resolved_at t v noted in
    record {
      accounts =
          left.0 ∙ ap (λ (x : Connection). x.current.rows "bank_accounts") same ∙ paid.accounts;
      escrows = left.1 ∙ ap (λ (x : Connection). x.current.rows "bank_escrow") same ∙ paid.escrows;
      stored = left.2 ∙ ap (λ (x : Connection). x.stored) same ∙ paid.stored;
    }

-- The connection after `BEGIN IMMEDIATE`.
abbrev pub opened : Database → Connection
opened d = record (settled d) { in_transaction = true }

abbrev pub credited : Release → ℤ → Table → Table
credited request amount =
    change_rows (λ row. set "balance" (add_to_cell amount (cell "balance" row)) row)
      (key_is "account_id" request.recipient_account_id)
