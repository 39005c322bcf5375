-- ===== src/Ui/Tests.antt =====
-- A quarter and its label.
use agent_economy.Shared.{
  ℕ, ◌+◌, ◌-◌, ◌<◌, ◌≡◌, refl, none, some, true, ◌&&◌, leb, arith, if◌then◌else◌,
}
use agent_economy.Ui.Quarter.{Calendar, current_quarter_label, validate_quarter}
use agent_economy.Ui.Quarter.Labels.{validate_quarter-current_quarter_label}

-- The digits of one script, and months of the same length.
abbrev calendar : Calendar
calendar = record {
  digit_value = λ c. if leb 48 c && leb c 57 then some (c - 48) else none;
  last_day = λ year month. 30;
}

digits : (n : ℕ) → n < 10 → calendar.digit_value (48 + n) ≡ some n
digits n h =
    let low : leb 48 (48 + n) ≡ true = ground arith in
    let high : leb (48 + n) 57 ≡ true = ground arith in
    let back : 48 + n - 48 ≡ n = omega arith in rw (low, high, back) refl

validate_quarter-current_quarter_label_example :
    validate_quarter ⦃calendar = calendar⦄ (current_quarter_label 2026 5) ≡ some (2026, 2)
validate_quarter-current_quarter_label_example =
    validate_quarter-current_quarter_label ⦃calendar = calendar⦄ 2026 5 digits (omega arith)
      (omega arith) (omega arith) (omega arith)
