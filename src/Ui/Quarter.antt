-- ===== src/Ui/Quarter.antt =====
-- The quarters of `quarterly.py` (services/ui/src/ui_service/services/quarterly.py).
pub mod Labels
use Prim.Native.Char.{code}
use Prim.Native.String.{◌++◌ as text_append}
use agent_economy.Shared.{
  ℕ, zero, suc, ◌+◌, ◌-◌, ◌*◌, ◌/◌, ◌%◌, String, Option, none, some, Bool, true, false, ◌&&◌, leb,
  nat_beq, if◌then◌else◌,
}
use agent_economy.Shared.Text.{digit, decimal}

-- `\d` and `int` on one character, which know the digits of all scripts, and `monthrange`.
pub record Calendar : Type 0 where
  pub digit_value : ℕ → Option ℕ
  pub last_day : ℕ → ℕ → ℕ

-- `$` also matches before a newline that ends the text.
abbrev at_end : String → Bool
at_end String.[] = true
at_end (String.◌∷◌ c String.[]) = nat_beq (code c) 10
at_end (String.◌∷◌ c (String.◌∷◌ d s)) = false

-- `([1-4])$`
abbrev quarter_of : String → Option ℕ
quarter_of String.[] = none
quarter_of (String.◌∷◌ c s) =
    if (leb 49 (code c) && leb (code c) 52) && at_end s then some (code c - 48) else none

-- `-Q([1-4])$`
abbrev after_year : String → Option ℕ
after_year String.[] = none
after_year (String.◌∷◌ c String.[]) = none
after_year (String.◌∷◌ c (String.◌∷◌ d s)) =
    if nat_beq (code c) b'-' && nat_beq (code d) b'Q' then quarter_of s else none

abbrev with_year : ℕ → Option ℕ → Option (ℕ × ℕ)
with_year year none = none
with_year year (some q) = some (year, q)

abbrev pub two_digits : ℕ → String
two_digits n = text_append (digit (n / 10)) (digit (n % 10))

-- `f"{year}-Q{q}"`
unfoldable pub quarter_label : ℕ → ℕ → String
quarter_label year q = text_append (decimal year) (text_append "-Q" (decimal q))

-- `current_quarter_label`, in a year and a month.
unfoldable pub current_quarter_label : ℕ → ℕ → String
current_quarter_label year month = quarter_label year ((month - 1) / 3 + 1)

-- `_previous_quarter`
unfoldable pub previous_quarter : ℕ → ℕ → ℕ × ℕ
previous_quarter year q = if nat_beq q 1 then (year - 1, 4) else (year, q - 1)

module _ ⦃calendar : Calendar⦄ where
  -- `^(\d{4})` and what follows: so many digits are still to come.
  unfoldable pub read_label : ℕ → ℕ → String → Option (ℕ × ℕ)
  read_label zero year s = with_year year (after_year s)
  read_label (suc n) year String.[] = none
  read_label (suc n) year (String.◌∷◌ c s) = elim (calendar.digit_value (code c)) [
    | none ↦ none
    | some d ↦ read_label n (10 * year + d) s
  ]

  -- `validate_quarter`, where a `ValueError` is `none`.
  unfoldable pub validate_quarter : String → Option (ℕ × ℕ)
  validate_quarter quarter = read_label 4 0 quarter

  -- `_quarter_period`
  unfoldable pub quarter_period : ℕ → ℕ → String × String
  quarter_period year q =
      let start =
        text_append (decimal year)
          (text_append "-" (text_append (two_digits (3 * q - 2)) "-01T00:00:00Z")) in
      if nat_beq (3 * q) 12 then (start, text_append (decimal year) "-12-31T23:59:59Z") else (
        start,
        text_append (decimal year) (
            text_append "-" (
              text_append (two_digits (3 * q)) (
                text_append "-"
                  (text_append (two_digits (calendar.last_day year (3 * q))) "T23:59:59Z")))),
      )
