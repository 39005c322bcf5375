-- ===== src/Gateway/Statements.antt =====
-- Statements of a connection, and the helpers of `DbWriter`
-- (services/db-gateway/src/db_gateway_service/services/db_writer.py) that the methods share.
use agent_economy.Shared.{
  ℕ, suc, String, Option, none, some, [], ◌∷◌, ◌++◌, Bool, true, not, ◌&&◌, ◌||◌, text_eq, ◌==◌,
  if◌then◌else◌,
}
use agent_economy.Shared.Int.{pos}
use agent_economy.Shared.Dict.{Dict, set}
use agent_economy.Shared.Action.{
  Action, Result, ok, err, pure, raise, gets, modify, lift, raise_if, or_raise, ◌>>=◌, ◌>>◌,
  service_error, unique_failed, foreign_failed, database_error, invalid_constraints, not_found,
  constraint_violation,
}
use agent_economy.Gateway.Sql.{
  Cell, null, int, text, Row, Table, Database, Connection, settled, cell, shown, sql_equal, any_row,
  find_row, change_rows, write_table,
}
use agent_economy.Gateway.Schema.{schema_of, mentions, violated, all_refer}

-- `BEGIN IMMEDIATE` fails within a transaction.
unfoldable pub begin : Action Connection (Unit {0})
begin c =
    (if c.in_transaction then err database_error else ok tt, record c { in_transaction = true })

unfoldable pub commit : Action Connection (Unit {0})
commit c = (ok tt, settled c.current)

unfoldable pub rollback : Action Connection (Unit {0})
rollback c = (ok tt, settled c.stored)

unfoldable pub check_insert : String → Row → Database → Result (Unit {0})
check_insert name row d = elim (violated (schema_of name).uniques row (d.rows name)) [
  | some names ↦ err (unique_failed names)
  | none ↦ if all_refer (schema_of name).foreigns row d then ok tt else err foreign_failed
]

-- `INSERT INTO name …`
unfoldable pub insert : String → Row → Action Connection (Unit {0})
insert name row = do
  lift (← gets (λ c. check_insert name row c.current))
  modify (λ c. write_table name (c.current.rows name ++ row ∷ []) c)

unfoldable pub all_changed_refer : String → (Row → Row) → (Row → Bool) → Table → Database → Bool
all_changed_refer name change test [] d = true
all_changed_refer name change test (row ∷ t) d =
    (not (test row) || all_refer (schema_of name).foreigns (change row) d)
    && all_changed_refer name change test t d

-- `UPDATE name SET … WHERE …`, which answers whether a row was there to change. The writer changes no
-- column that is unique or that another table refers to.
unfoldable pub update : String → (Row → Row) → (Row → Bool) → Action Connection Bool
update name change test = do
  refer ← gets (λ c. all_changed_refer name change test (c.current.rows name) c.current)
  raise_if (not refer) foreign_failed
  found ← gets (λ c. any_row test (c.current.rows name))
  modify (λ c. write_table name (change_rows change test (c.current.rows name)) c)
  pure found

-- `SELECT * FROM name WHERE …`, and `fetchone`
unfoldable pub select_row : String → (Row → Bool) → Action Connection (Option Row)
select_row name test = gets (λ c. find_row test (c.current.rows name))

abbrev pub key_is : String → String → Row → Bool
key_is column value row = sql_equal (cell column row) (text value)

pub record Event : Type 0 where
  pub event_source : String
  pub event_type : String
  pub timestamp : String
  pub task_id : Option String
  pub agent_id : Option String
  pub summary : String
  pub payload : String

abbrev pub text_or_null : Option String → Cell
text_or_null none = null
text_or_null (some s) = text s

abbrev pub event_row : ℕ → Event → Row
event_row id event =
    ("event_id", int (pos id))
    ∷ ("event_source", text event.event_source)
    ∷ ("event_type", text event.event_type)
    ∷ ("timestamp", text event.timestamp)
    ∷ ("task_id", text_or_null event.task_id)
    ∷ ("agent_id", text_or_null event.agent_id)
    ∷ ("summary", text event.summary)
    ∷ ("payload", text event.payload)
    ∷ []

abbrev pub count_event : Connection → Connection
count_event c = record c { current = record c.current { last_event = suc c.current.last_event } }

unfoldable pub insert_event : Event → Action Connection ℕ
insert_event event = do
  id ← gets (λ c. suc c.current.last_event)
  insert "events" (event_row id event)
  modify count_event
  pure id

-- Constraints in the order of the request; `str.isidentifier` is a parameter.
abbrev pub Constraints : Type 0
Constraints = Dict String Cell

unfoldable pub meets : Constraints → Row → Bool
meets [] row = true
meets ((column, expected) ∷ cs) row = sql_equal (cell column row) expected && meets cs row

unfoldable pub names_columns : String → Constraints → Bool
names_columns name [] = true
names_columns name ((column, _) ∷ cs) =
    mentions column (schema_of name).columns && names_columns name cs

-- The column that the details of a violation name is left out.
unfoldable pub first_difference : Constraints → Row → Result (Unit {0})
first_difference [] row = ok tt
first_difference ((column, expected) ∷ cs) row =
    if shown (cell column row) == shown expected
    then first_difference cs row
    else err (service_error constraint_violation 409)

unfoldable pub check_constraint_violation :
    String → String → String → Constraints → Action Connection (Unit {0})
unfolding first_difference
check_constraint_violation name key_column key constraints = do
  found ← select_row name (key_is key_column key)
  row ← or_raise found (service_error not_found 404)
  lift (first_difference constraints row)

unfoldable pub merge : Constraints → Constraints → Constraints
merge conditions [] = conditions
merge conditions ((column, expected) ∷ cs) = merge (set column expected conditions) cs

module _ (is_identifier : String → Bool) where
  -- `_compile_constraints`; the clause itself is `meets`.
  unfoldable pub compile_constraints : Constraints → Result (Unit {0})
  compile_constraints [] = ok tt
  compile_constraints ((column, _) ∷ cs) =
      if is_identifier column
      then compile_constraints cs
      else err (service_error invalid_constraints 400)

  -- An `UPDATE` with a compiled clause; SQLite refuses a name that is no column.
  unfoldable pub update_where :
      String → String → String → Constraints → (Row → Row) → Action Connection Bool
  update_where name key_column key constraints change = do
    lift (compile_constraints constraints)
    raise_if (not (names_columns name constraints)) database_error
    update name change (λ row. key_is key_column key row && meets constraints row)

  unfoldable pub verify_cross_table_constraint : String → Constraints → Action Connection Row
  verify_cross_table_constraint name [] = raise (service_error invalid_constraints 400)
  verify_cross_table_constraint name (condition ∷ conditions) = do
    lift (compile_constraints (condition ∷ conditions))
    raise_if (not (names_columns name (condition ∷ conditions))) database_error
    found ← select_row name (meets (condition ∷ conditions))
    or_raise found (service_error constraint_violation 409)
