-- ===== src/Ui/Quarter/Labels.antt =====
-- A label is read as the quarter that it was written for.
use Prim.Native.Char.{Char, char, code}
use Prim.Native.String.{◌++◌ as text_append}
use text.Mathlib.TextLemmas.{nil-append, cons-append}
use agent_economy.Shared.{
  ℕ, zero, suc, ◌+◌, ◌-◌, ◌*◌, ◌/◌, ◌%◌, ◌≤◌, ◌<◌, ◌≡◌, refl, ap, ◌∙◌, String, some, true, false,
  arith, ltb, leb,
}
use agent_economy.Shared.Text.{digit, decimal_of, decimal}
use agent_economy.Ui.Quarter.{
  Calendar, quarter_label, current_quarter_label, read_label, validate_quarter,
}

-- A digit is one character.
digit-char : (n : ℕ) → n < 10 → (c : Char) × (digit n ≡ String.◌∷◌ c String.[]) × (code c ≡ 48 + n)
digit-char zero h = (char 48 tt, refl, refl)
digit-char (suc zero) h = (char 49 tt, refl, refl)
digit-char (suc (suc zero)) h = (char 50 tt, refl, refl)
digit-char (suc (suc (suc zero))) h = (char 51 tt, refl, refl)
digit-char (suc (suc (suc (suc zero)))) h = (char 52 tt, refl, refl)
digit-char (suc (suc (suc (suc (suc zero))))) h = (char 53 tt, refl, refl)
digit-char (suc (suc (suc (suc (suc (suc zero)))))) h = (char 54 tt, refl, refl)
digit-char (suc (suc (suc (suc (suc (suc (suc zero))))))) h = (char 55 tt, refl, refl)
digit-char (suc (suc (suc (suc (suc (suc (suc (suc zero)))))))) h = (char 56 tt, refl, refl)
digit-char (suc (suc (suc (suc (suc (suc (suc (suc (suc zero))))))))) h = (char 57 tt, refl, refl)
digit-char (suc (suc (suc (suc (suc (suc (suc (suc (suc (suc n)))))))))) h = absurd (ground arith)

decimal_of-digit : (fuel n : ℕ) → n < 10 → decimal_of fuel n ≡ digit n
unfolding decimal_of
decimal_of-digit zero n h = refl
decimal_of-digit (suc fuel) n h = let e : ltb n 10 ≡ true = ground arith in rw e refl

decimal_of_more :
    (fuel n : ℕ)
    → 10 ≤ n
    → decimal_of (suc fuel) n ≡ text_append (decimal_of fuel (n / 10)) (digit (n % 10))
unfolding decimal_of
decimal_of_more fuel n h = let e : ltb n 10 ≡ false = ground arith in rw e refl

decimal_of_year :
    (fuel y : ℕ)
    → 1000 ≤ y
    → y ≤ 9999
    → decimal_of (suc (suc (suc fuel))) y
      ≡ text_append
          (text_append
            (text_append (digit (y / 10 / 10 / 10)) (digit (y / 10 / 10 % 10)))
            (digit (y / 10 % 10)))
          (digit (y % 10))
decimal_of_year fuel y lo hi =
    rw
      (
        decimal_of_more (suc (suc fuel)) y (omega arith),
        decimal_of_more (suc fuel) (y / 10) (omega arith),
        decimal_of_more fuel (y / 10 / 10) (omega arith),
        decimal_of-digit fuel (y / 10 / 10 / 10) (omega arith),
      )
      refl

decimal_of_four :
    (y : ℕ)
    → 1000 ≤ y
    → y ≤ 9999
    → decimal y
      ≡ text_append
          (text_append
            (text_append (digit (y / 10 / 10 / 10)) (digit (y / 10 / 10 % 10)))
            (digit (y / 10 % 10)))
          (digit (y % 10))
unfolding decimal
decimal_of_four y lo hi =
    let e : y ≡ suc (suc (suc (y - 3))) = omega arith in
    ap (λ fuel. decimal_of fuel y) e ∙ decimal_of_year (y - 3) y lo hi

-- Four characters before a text.
four_chars :
    (a b c d : Char) (s : String)
    → text_append
        (text_append
          (text_append
            (text_append (String.◌∷◌ a String.[]) (String.◌∷◌ b String.[]))
            (String.◌∷◌ c String.[]))
          (String.◌∷◌ d String.[]))
        s
      ≡ String.◌∷◌ a (String.◌∷◌ b (String.◌∷◌ c (String.◌∷◌ d s)))
four_chars a b c d s = simp (cons-append, nil-append)

dash_q : (s : String) → text_append "-Q" s ≡ String.◌∷◌ (char 45 tt) (String.◌∷◌ (char 81 tt) s)
dash_q s =
    cons-append (char 45 tt) (String.◌∷◌ (char 81 tt) String.[]) s
    ∙ ap (String.◌∷◌ (char 45 tt))
        (cons-append (char 81 tt) String.[] s ∙ ap (String.◌∷◌ (char 81 tt)) (nil-append s))

module _ ⦃calendar : Calendar⦄ where
  read_digit :
      (n y d : ℕ) (c : Char) (s : String)
      → code c ≡ 48 + d
      → calendar.digit_value (48 + d) ≡ some d
      → read_label (suc n) y (String.◌∷◌ c s) ≡ read_label n (10 * y + d) s
  unfolding read_label
  read_digit n y d c s number value =
      let h : calendar.digit_value (code c) ≡ some d = rw number value in rw (read_label, h) refl

  read_quarter :
      (y q : ℕ) (c : Char)
      → 1 ≤ q
      → q ≤ 4
      → code c ≡ 48 + q
      → read_label 0 y (text_append "-Q" (String.◌∷◌ c String.[])) ≡ some (y, q)
  unfolding read_label
  read_quarter y q c lo hi number =
      let low : leb 49 (48 + q) ≡ true = ground arith in
      let high : leb (48 + q) 52 ≡ true = ground arith in
      let back : 48 + q - 48 ≡ q = omega arith in
      rw (dash_q, read_label, number, low, high, back) refl

  -- In every month of the years 1000 to 9999, `validate_quarter` accepts the label that
  -- `current_quarter_label` writes, and gives the year and the quarter back. The digits 0 to 9 are
  -- digits.
  pub validate_quarter-current_quarter_label :
      (year month : ℕ)
      → ((n : ℕ) → n < 10 → calendar.digit_value (48 + n) ≡ some n)
      → 1000 ≤ year
      → year ≤ 9999
      → 1 ≤ month
      → month ≤ 12
      → validate_quarter (current_quarter_label year month) ≡ some (year, (month - 1) / 3 + 1)
  unfolding validate_quarter current_quarter_label quarter_label decimal
  validate_quarter-current_quarter_label year month digits lo hi from to =
      let q : ℕ = (month - 1) / 3 + 1 in
      let (a, a_is, a_code) = digit-char (year / 10 / 10 / 10) (omega arith) in
      let (b, b_is, b_code) = digit-char (year / 10 / 10 % 10) (omega arith) in
      let (c, c_is, c_code) = digit-char (year / 10 % 10) (omega arith) in
      let (d, d_is, d_code) = digit-char (year % 10) (omega arith) in
      let (e, e_is, e_code) = digit-char ((month - 1) / 3 + 1) (omega arith) in
      let text : current_quarter_label year month
          ≡ String.◌∷◌ a (
              String.◌∷◌ b
                (String.◌∷◌ c (String.◌∷◌ d (text_append "-Q" (String.◌∷◌ e String.[]))))) =
        rw
          (
            decimal_of_four year lo hi,
            a_is,
            b_is,
            c_is,
            d_is,
            decimal_of-digit q q (omega arith),
            e_is,
            four_chars,
          )
          refl in
      let number : 10
              * (10 * (10 * (10 * 0 + year / 10 / 10 / 10) + year / 10 / 10 % 10) + year / 10 % 10)
            + year % 10
          ≡ year =
        omega arith in
      ap validate_quarter text
      ∙ read_digit 3 0 _ a _ a_code (digits _ (omega arith))
      ∙ read_digit 2 _ _ b _ b_code (digits _ (omega arith))
      ∙ read_digit 1 _ _ c _ c_code (digits _ (omega arith))
      ∙ read_digit 0 _ _ d _ d_code (digits _ (omega arith))
      ∙ ap (λ y. read_label 0 y (text_append "-Q" (String.◌∷◌ e String.[]))) number
      ∙ read_quarter year q e (omega arith) (omega arith) e_code
