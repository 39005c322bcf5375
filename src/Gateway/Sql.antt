-- ===== src/Gateway/Sql.antt =====
-- Tables of SQLite, as far as the gateway uses them, and a connection of Python's sqlite3 to them.
use agent_economy.Shared.{
  ℕ, ◌+◌, String, Option, none, some, List, [], ◌∷◌, Bool, true, false, not, ◌&&◌, ◌||◌, text_eq,
  ◌==◌, if◌then◌else◌,
}
use Prim.Native.String.{◌++◌ as text_append}
use agent_economy.Shared.Int.{ℤ, pos, negsuc, ◌+ℤ◌, ◌-ℤ◌, leb_ℤ}
use agent_economy.Shared.Dict.{Dict, get}
use agent_economy.Shared.Text.{decimal}

-- What a column holds. A constraint's value is one of these, too. A sum that leaves the 64 bits of an
-- integer becomes a floating-point number; that it has become one is kept, its digits are not.
pub data Cell : Type 0 where
  null real : Cell
  int : ℤ → Cell
  text : String → Cell

-- Columns by name; one that is not there is NULL.
abbrev pub Row : Type 0
Row = Dict String Cell

abbrev pub Table : Type 0
Table = List Row

-- Rows stand in the order of insertion. `last_event` is the counter of `AUTOINCREMENT`.
pub record Database : Type 0 where
  pub rows : String → Table
  pub last_event : ℕ

-- `current` is what the connection sees, `stored` what the file has.
pub record Connection : Type 0 where
  pub stored : Database
  pub current : Database
  pub in_transaction : Bool

-- A connection with no transaction open.
abbrev pub settled : Database → Connection
settled d = record { stored = d; current = d; in_transaction = false }

abbrev pub or_null : Option Cell → Cell
or_null none = null
or_null (some c) = c

unfoldable pub cell : String → Row → Cell
cell column row = or_null (get column row)

-- `str(value)`
unfoldable pub shown_int : ℤ → String
shown_int (pos n) = decimal n
shown_int (negsuc n) = text_append "-" (decimal (n + 1))

unfoldable pub shown : Cell → String
unfolding shown_int
shown null = "None"
shown real = "9.223372036854775807e+18"
shown (int z) = shown_int z
shown (text s) = s

abbrev pub is_null : Cell → Bool
is_null null = true
is_null real = false
is_null (int z) = false
is_null (text s) = false

-- `column = ?`: NULL equals nothing, and the affinity of a column makes a number equal to its
-- decimal text (to SQLite also with leading zeros or as a decimal fraction).
unfoldable pub sql_equal : Cell → Cell → Bool
unfolding shown shown_int
sql_equal a b = not (is_null a) && not (is_null b) && (shown a == shown b)

abbrev pub int64_max : ℕ
int64_max = 9223372036854775807

-- The sum of two integers of SQLite.
unfoldable pub sql_sum : ℤ → Cell
sql_sum z = if leb_ℤ z (pos int64_max) && leb_ℤ (negsuc int64_max) z then int z else real

-- `balance + ?` and `balance - ?`
abbrev pub add_to_cell : ℤ → Cell → Cell
add_to_cell z (int y) = sql_sum (y +ℤ z)
add_to_cell z null = null
add_to_cell z real = real
add_to_cell z (text s) = text s

abbrev pub take_from_cell : ℤ → Cell → Cell
take_from_cell z (int y) = sql_sum (y -ℤ z)
take_from_cell z null = null
take_from_cell z real = real
take_from_cell z (text s) = text s

unfoldable pub any_row : (Row → Bool) → Table → Bool
any_row test [] = false
any_row test (row ∷ t) = test row || any_row test t

-- `SELECT * … WHERE test`, and its first row.
unfoldable pub find_row : (Row → Bool) → Table → Option Row
find_row test [] = none
find_row test (row ∷ t) = if test row then some row else find_row test t

-- `UPDATE … SET change WHERE test`, and `DELETE … WHERE test`.
unfoldable pub change_rows : (Row → Row) → (Row → Bool) → Table → Table
change_rows change test [] = []
change_rows change test (row ∷ t) =
    (if test row then change row else row) ∷ change_rows change test t

unfoldable pub remove_rows : (Row → Bool) → Table → Table
remove_rows test [] = []
remove_rows test (row ∷ t) = let rest = remove_rows test t in if test row then rest else row ∷ rest

-- The database with another table under a name.
abbrev pub put_table : String → Table → Database → Database
put_table name t d = record d { rows = λ other. if name == other then t else d.rows other }

-- A statement that writes opens a transaction if none is open.
abbrev pub write_table : String → Table → Connection → Connection
write_table name t c = record c { current = put_table name t c.current; in_transaction = true }
