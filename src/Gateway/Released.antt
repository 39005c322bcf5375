-- ===== src/Gateway/Released.antt =====
-- What a release through the gateway has done, and that no other follows it.
pub mod Parts
use agent_economy.Shared.{
  ℕ, suc, ◌≡◌, refl, sym, ap, String, Option, none, some, ◌∙◌, Bool, true, false, not, ◌&&◌, inl,
  inr, arith, Bool-cases, text_eq,
}
use agent_economy.Shared.Int.{ℤ}
use agent_economy.Shared.Action.{
  Action, Result, ok, err, Error, raise, lift, raise_if, ◌>>◌, handle, service_error, unique_failed,
  database_error,
}
use agent_economy.Gateway.Sql.{
  Row, Table, Database, Connection, settled, cell, change_rows, find_row, write_table,
}
use agent_economy.Gateway.Statements.{
  begin, rollback, commit, insert, insert_event, Event, event_row, update, select_row, key_is,
  meets, Constraints, compile_constraints, names_columns, update_where, check_constraint_violation,
}
use agent_economy.Gateway.Writer.Handlers.{keep_refusals, roll_back}
use agent_economy.Gateway.Writer.Accounts.{int_of}
use agent_economy.Gateway.Writer.Escrows.{
  Release, Released, escrow_release, release, load_escrow, must_be_locked, is_locked, pay, resolve,
  resolved, explain,
}
use agent_economy.Shared.Runs.{Runs, run_call, Ends-ok}
use agent_economy.Gateway.Inversions.{>>=-inv, insert-ok, update-ok, pay-ok, opened, credited}
use agent_economy.Gateway.Released.Parts.{
  handled-ok, chosen, resolved_rows, load_escrow-ok, resolve-ok, event-ok,
}

-- A release that has paid out.
pub record PaysOut (d : Database) (request : Release) (constraints : Option Constraints)
    (answer : Released) (v : Connection) : Type 0 where
  pub escrow : Row
  pub found : find_row (key_is "escrow_id" request.escrow_id) (d.rows "bank_escrow") ≡ some escrow
  pub locked : is_locked escrow ≡ true
  pub amount : answer.amount ≡ int_of (cell "amount" escrow)
  pub accounts :
      v.stored.rows "bank_accounts" ≡ credited request answer.amount (d.rows "bank_accounts")
  pub escrows :
      v.stored.rows "bank_escrow"
      ≡ resolved_rows "released" request.resolved_at request.escrow_id constraints
          (d.rows "bank_escrow")

module _ (is_identifier : String → Bool) (d : Database) (request : Release)
    (constraints : Option Constraints) where
  run_release :
      Runs
        (λ _. Unit {0})
        (settled d)
        (release is_identifier request constraints)
        (λ answer v. PaysOut d request constraints answer v)
  unfolding begin commit
  run_release =
      run_call begin _ (λ _ _ _. tt)
        (λ _ c1 began.
          run_call (load_escrow request.escrow_id) _ (λ _ _ _. tt)
            (λ amount c2 loaded.
              run_call
                (pay request.tx_id request.recipient_account_id amount request.escrow_id
                  request.resolved_at)
                _ (λ _ _ _. tt)
                (λ _ c3 paid.
                  run_call
                    (resolve is_identifier "released" request.resolved_at request.escrow_id
                      constraints)
                    _ (λ _ _ _. tt)
                    (λ _ c4 marked.
                      run_call (insert_event request.event) _ (λ _ _ _. tt)
                        (λ id c5 logged.
                          let opens : c1 ≡ opened d =
                            sym (ap (λ (o : Result (Unit {0}) × Connection). o.1) began) in
                          let held = load_escrow-ok request.escrow_id c1 c2 amount loaded in
                          let pays =
                            pay-ok request.tx_id request.recipient_account_id amount
                              request.escrow_id request.resolved_at c2 c3 paid in
                          let marks =
                            resolve-ok is_identifier "released" request.resolved_at
                              request.escrow_id constraints c3 c4 marked in
                          let logs = event-ok request.event c4 c5 id logged in
                          let reads : c2 ≡ opened d = held.0 ∙ opens in
                          record {
                            ends = record {
                              escrow = held.1.0;
                              found =
                                  ap
                                    (λ (c : Connection).
                                      find_row (key_is "escrow_id" request.escrow_id)
                                        (c.current.rows "bank_escrow"))
                                    (sym opens)
                                  ∙ held.1.1;
                              locked = held.1.2;
                              amount = held.1.3;
                              accounts =
                                  logs.0
                                  ∙ ap (λ (c : Connection). c.current.rows "bank_accounts") marks
                                  ∙ pays.accounts
                                  ∙ ap
                                      (λ (c : Connection).
                                        credited request amount (c.current.rows "bank_accounts"))
                                      reads;
                              escrows =
                                  logs.1
                                  ∙ ap (λ (c : Connection). c.current.rows "bank_escrow") marks
                                  ∙ ap
                                      (resolved_rows "released" request.resolved_at
                                        request.escrow_id constraints)
                                      (pays.escrows
                                        ∙ ap (λ (c : Connection). c.current.rows "bank_escrow")
                                            reads);
                            };
                          })))))

  -- A release through the gateway that succeeds found its escrow locked; the file then has the
  -- escrow's amount credited to the recipient, as a floating-point balance if the sum leaves 64 bits, and
  -- no other change in the accounts, and the rows of the
  -- escrow that met the constraints marked as released and no other change in the escrows.
  pub escrow_release-PaysOut :
      (answer : Released) (v : Connection)
      → escrow_release is_identifier request constraints (settled d) ≡ (ok answer, v)
      → PaysOut d request constraints answer v
  unfolding escrow_release
  escrow_release-PaysOut answer v h =
      Ends-ok (λ _. Unit {0}) (λ a u. PaysOut d request constraints a u)
        (release is_identifier request constraints (settled d)) answer v run_release.ends
        (handled-ok (release is_identifier request constraints) (settled d) v answer h)
