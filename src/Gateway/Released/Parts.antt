-- ===== src/Gateway/Released/Parts.antt =====
-- What each part of a release has done where it succeeded.
use agent_economy.Shared.{
  ℕ, suc, ◌≡◌, refl, sym, ap, String, Option, none, some, ◌∙◌, Bool, true, false, not, ◌&&◌, inl,
  inr, arith, Bool-cases, text_eq,
}
use agent_economy.Shared.Int.{ℤ}
use agent_economy.Shared.Action.{
  Action, Result, ok, err, Error, raise, lift, raise_if, ◌>>◌, handle, service_error, unique_failed,
  database_error,
}
use agent_economy.Gateway.Sql.{Row, Table, Connection, cell, change_rows, find_row, write_table}
use agent_economy.Gateway.Statements.{
  rollback, insert, insert_event, Event, event_row, update, select_row, key_is, meets, Constraints,
  compile_constraints, names_columns, update_where, check_constraint_violation,
}
use agent_economy.Gateway.Writer.Handlers.{keep_refusals, roll_back}
use agent_economy.Gateway.Writer.Accounts.{int_of}
use agent_economy.Gateway.Writer.Escrows.{
  load_escrow, must_be_locked, is_locked, resolve, resolved, explain,
}
use agent_economy.Gateway.Inversions.{>>=-inv, insert-ok, update-ok}

module _ {A : Type 0} where
  fails : (e : Error) (u v : Connection) (a : A) → keep_refusals roll_back e u ≡ (ok a, v) → ⊥
  unfolding keep_refusals roll_back
  fails (service_error code status) u v a h = ground arith
  fails (unique_failed names) u v a h = ground arith
  fails e u v a h = ground arith

  pub handled-ok :
      (m : Action Connection A) (w v : Connection) (a : A)
      → handle m (keep_refusals roll_back) w ≡ (ok a, v)
      → m w ≡ (ok a, v)
  handled-ok m w v a = go (m w)
    where
      go :
          (o : Result A × Connection)
          → handle (λ _. o) (keep_refusals roll_back) w ≡ (ok a, v)
          → o ≡ (ok a, v)
      go (err e, u) h = absurd (fails e u v a h)
      go (ok b, u) h = h

-- The rows of the escrow that an `UPDATE` with its constraints changes.
abbrev pub chosen : String → Option Constraints → Row → Bool
chosen escrow_id none row = key_is "escrow_id" escrow_id row
chosen escrow_id (some cs) row = key_is "escrow_id" escrow_id row && meets cs row

abbrev pub resolved_rows : String → String → String → Option Constraints → Table → Table
resolved_rows status at escrow_id constraints =
    change_rows (resolved status at) (chosen escrow_id constraints)

must_be_locked-ok :
    (found : Option Row) (c u : Connection) (amount : ℤ)
    → must_be_locked found c ≡ (ok amount, u)
    → (u ≡ c)
      × ((row : Row) × (found ≡ some row)
          × (is_locked row ≡ true)
          × (amount ≡ int_of (cell "amount" row)))
unfolding must_be_locked rollback
must_be_locked-ok none c u amount h = absurd (ground arith)
must_be_locked-ok (some row) c u amount h = elim (Bool-cases (is_locked row)) [
  | inl held ↦
      let h' = rw held at h in
      (sym (ap (λ (o : Result ℤ × Connection). o.1) h'), (row, refl, held, ground arith))
  | inr gone ↦ absurd (ground (arith, rw gone at h))
]

pub load_escrow-ok :
    (escrow_id : String) (c u : Connection) (amount : ℤ)
    → load_escrow escrow_id c ≡ (ok amount, u)
    → (u ≡ c)
      × ((row : Row) × (find_row (key_is "escrow_id" escrow_id) (c.current.rows "bank_escrow")
            ≡ some row)
          × (is_locked row ≡ true)
          × (amount ≡ int_of (cell "amount" row)))
unfolding load_escrow select_row
load_escrow-ok escrow_id c u amount h =
    must_be_locked-ok (find_row (key_is "escrow_id" escrow_id) (c.current.rows "bank_escrow")) c u
      amount h

explain-ok :
    (name key_column key : String) (cs : Constraints) (e : Error) (found : Bool) (c u : Connection)
    → explain name key_column key cs e found c ≡ (ok tt, u)
    → u ≡ c
unfolding explain rollback roll_back
explain-ok name key_column key cs e true c u h =
    sym (ap (λ (o : Result (Unit {0}) × Connection). o.1) h)
explain-ok name key_column key cs e false c u h =
    absurd (go (check_constraint_violation name key_column key cs c) h)
  where
    go :
        (o : Result (Unit {0}) × Connection)
        → (handle (λ _. o) roll_back >> (rollback >> raise e)) c ≡ (ok tt, u)
        → ⊥
    go (err e', v) h = ground arith
    go (ok _, v) h = ground arith

pub resolve-ok :
    (is_identifier : String → Bool) (status at escrow_id : String)
    (constraints : Option Constraints) (c u : Connection)
    → resolve is_identifier status at escrow_id constraints c ≡ (ok tt, u)
    → u
      ≡ write_table "bank_escrow"
          (resolved_rows status at escrow_id constraints (c.current.rows "bank_escrow"))
          c
unfolding resolve update_where
resolve-ok is_identifier status at escrow_id none c u h =
    let (found, t, changed, done) = >>=-inv (update "bank_escrow" _ _) _ c tt u h in
    sym (ap (λ (o : Result (Unit {0}) × Connection). o.1) done)
    ∙ update-ok "bank_escrow" _ _ c t found changed
resolve-ok is_identifier status at escrow_id (some cs) c u h =
    let (found, t, changed, said) =
      >>=-inv
        (update_where is_identifier "bank_escrow" "escrow_id" escrow_id cs (resolved status at)) _ c
        tt u h in
    let (_, c1, compiled, k1) =
      >>=-inv (lift (compile_constraints is_identifier cs)) _ c found t changed in
    let (_, c2, known, k2) =
      >>=-inv (raise_if (not (names_columns "bank_escrow" cs)) database_error) _ c1 found t k1 in
    let same : c2 ≡ c =
      sym (ap (λ (o : Result (Unit {0}) × Connection). o.1) known)
      ∙ sym (ap (λ (o : Result (Unit {0}) × Connection). o.1) compiled) in
    explain-ok "bank_escrow" "escrow_id" escrow_id cs _ found t u said
    ∙ update-ok "bank_escrow" _ _ c2 t found k2
    ∙ ap
        (λ (x : Connection).
          write_table "bank_escrow"
            (resolved_rows status at escrow_id (some cs) (x.current.rows "bank_escrow")) x)
        same

pub event-ok :
    (event : Event) (c u : Connection) (id : ℕ)
    → insert_event event c ≡ (ok id, u)
    → (u.current.rows "bank_accounts" ≡ c.current.rows "bank_accounts")
      × (u.current.rows "bank_escrow" ≡ c.current.rows "bank_escrow")
unfolding insert_event
event-ok event c u id h =
    let (_, t, stored, done) =
      >>=-inv (insert "events" (event_row (suc c.current.last_event) event)) _ c id u h in
    let wrote = insert-ok "events" (event_row (suc c.current.last_event) event) c t stored in
    let counted = sym (ap (λ (o : Result ℕ × Connection). o.1) done) in
    rw (counted, wrote) (refl, refl)
