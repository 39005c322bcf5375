-- ===== src/Gateway/Steps/Clauses.antt =====
-- Constraints in a transaction: their names, the rows that meet them, and what is said if none does.
use agent_economy.Shared.{
  ℕ, ◌≡◌, refl, ap, String, Option, none, some, [], ◌∷◌, Bool, true, false, not, text_eq, ◌==◌,
  Option-cases, inl, inr,
}
use agent_economy.Shared.Action.{
  Result, ok, err, Error, raise, lift, raise_if, or_raise, ◌>>◌, handle, Code, service_error,
  database_error, constraint_violation,
}
use agent_economy.Gateway.Sql.{Row, Database, Connection, settled, find_row}
use agent_economy.Gateway.Statements.{
  rollback, select_row, Constraints, compile_constraints, update_where, names_columns,
  check_constraint_violation, key_is, meets, verify_cross_table_constraint,
}
use agent_economy.Gateway.Writer.Handlers.{roll_back}
use agent_economy.Gateway.Writer.Escrows.{explain}
use agent_economy.Gateway.Tried.{Working, Tried, Fails, EndsIn, try_bind, try_pure, update-Working}

-- Each name of a constraint is an identifier.
abbrev pub AllIdentifiers : (String → Bool) → Constraints → Type 0
AllIdentifiers is_identifier [] = Unit {0}
AllIdentifiers is_identifier ((column, _) ∷ cs) =
    (is_identifier column ≡ true) × AllIdentifiers is_identifier cs

abbrev pub Named : (String → Bool) → Option Constraints → Type 0
Named is_identifier none = Unit {0}
Named is_identifier (some cs) = AllIdentifiers is_identifier cs

compile_constraints-named :
    (is_identifier : String → Bool) (cs : Constraints)
    → AllIdentifiers is_identifier cs
    → compile_constraints is_identifier cs ≡ ok tt
unfolding compile_constraints
compile_constraints-named is_identifier [] named = refl
compile_constraints-named is_identifier ((column, _) ∷ cs) named =
    rw (named.0) (compile_constraints-named is_identifier cs named.1)

-- A transaction that is not strict may be refused with no rollback.
may_fail :
    {A : Type 0} {d : Database} {w : Connection} {Done : A → Connection → Type 0} (r : Result A)
    → w.stored ≡ d
    → ((a : A) → Done a w)
    → Tried false d w (lift r) Done
may_fail (err e) kept h = record { ends = record { kept = kept; clean = λ is _. cc } }
may_fail (ok a) kept h = record { ends = h a }

pub compile-Working :
    (strict : Bool) (is_identifier : String → Bool) (cs : Constraints) {d : Database}
    {w : Connection}
    → Working d w
    → (strict ≡ true → AllIdentifiers is_identifier cs)
    → Tried strict d w (lift (compile_constraints is_identifier cs)) (λ _ v. Working d v)
compile-Working false is_identifier cs working named = may_fail _ working.kept (λ _. working)
compile-Working true is_identifier cs working named =
    rw (compile_constraints-named is_identifier cs (named refl)) (try_pure tt working)

check-kept :
    (name key_column key : String) (cs : Constraints) (w : Connection)
    → (check_constraint_violation name key_column key cs w).1 ≡ w
unfolding check_constraint_violation select_row
check-kept name key_column key cs w =
    elim (Option-cases (find_row (key_is key_column key) (w.current.rows name))) [
      | inl gone ↦ rw gone refl
      | inr (row, found) ↦ rw found refl
    ]

pub sql_error-Working :
    {strict : Bool} {d : Database} {w : Connection} (b : Bool)
    → Working d w
    → Tried strict d w (raise_if b database_error) (λ _ v. Working d v)
sql_error-Working false working = try_pure tt working
sql_error-Working true working = record {
  ends = record { kept = working.kept; clean = λ _ is. cc };
}

module _ {strict : Bool} {d : Database} {w : Connection} (working : Working d w) where
  pub explain-Working :
      (name key_column key : String) (cs : Constraints) (code : Code) (status : ℕ) (found : Bool)
      → Tried strict d w
          (explain name key_column key cs (service_error code status) found)
          (λ _ v. Working d v)
  unfolding explain rollback roll_back
  explain-Working name key_column key cs code status true = try_pure tt working
  explain-Working name key_column key cs code status false = record {
    ends =
        go (check_constraint_violation name key_column key cs w)
          (check-kept name key_column key cs w);
  }
    where
      back : (v : Connection) → v ≡ w → (e : Error) → Fails strict d e (settled v.stored)
      back v same e =
          rw same (record { kept = working.kept; clean = λ _ _. ap settled working.kept })

      go :
          (o : Result (Unit {0}) × Connection)
          → o.1 ≡ w
          → EndsIn {A = Unit {0}} strict d
              (λ _ v. Working d v)
              ((handle (λ _. o) roll_back >> (rollback >> raise (service_error code status))) w)
      go (err e, v) same = back v same e
      go (ok _, v) same = back v same (service_error code status)

  pub update_where-Working :
      (is_identifier : String → Bool) (name key_column key : String) (cs : Constraints)
      (change : Row → Row)
      → (name == "events") ≡ false
      → (strict ≡ true → AllIdentifiers is_identifier cs)
      → Tried strict d w
          (update_where is_identifier name key_column key cs change)
          (λ _ v. Working d v)
  unfolding update_where
  update_where-Working is_identifier name key_column key cs change other named =
      try_bind (lift (compile_constraints is_identifier cs)) _
        (compile-Working strict is_identifier cs working named)
        (λ _ v now.
          try_bind (raise_if (not (names_columns name cs)) database_error) _
            (sql_error-Working (not (names_columns name cs)) now)
            (λ _ u then_on. update-Working then_on name change _ other))

module _ {d : Database} {w : Connection} (working : Working d w) where
  found-Working :
      (found : Option Row) (code : Code) (status : ℕ)
      → Tried false d w (or_raise found (service_error code status)) (λ _ v. Working d v)
  found-Working none code status = record {
    ends = record { kept = working.kept; clean = λ is _. cc };
  }
  found-Working (some row) code status = try_pure row working

module _ {d : Database} {w : Connection} (working : Working d w) where
  pub cross-Working :
      (is_identifier : String → Bool) (name : String) (cs : Constraints)
      → Tried false d w (verify_cross_table_constraint is_identifier name cs) (λ _ v. Working d v)
  unfolding verify_cross_table_constraint select_row
  cross-Working is_identifier name [] = record {
    ends = record { kept = working.kept; clean = λ is _. cc };
  }
  cross-Working is_identifier name (c ∷ cs) =
      try_bind (lift (compile_constraints is_identifier (c ∷ cs))) _
        (may_fail {Done = λ _ v. Working d v} (compile_constraints is_identifier (c ∷ cs))
          working.kept (λ _. working))
        (λ _ v now.
          try_bind (raise_if (not (names_columns name (c ∷ cs))) database_error) _
            (sql_error-Working (not (names_columns name (c ∷ cs))) now)
            (λ _ u then_on. record {
              ends =
                  (found-Working then_on (find_row (meets (c ∷ cs)) (u.current.rows name))
                    constraint_violation 409).ends;
            }))
