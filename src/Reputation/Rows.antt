-- ===== src/Reputation/Rows.antt =====
-- What lookups find in a table after an insertion and after a reveal.
use agent_economy.Shared.{
  ℕ, suc, ◌+◌, ◌≡◌, refl, String, Option, none, some, [], ◌∷◌, ◌++◌, Bool, true, false, arith,
  text_eq, if◌then◌else◌,
}
use agent_economy.Reputation.Store.{Feedback, Table, find, any_row, show, reveal}

abbrev pub first : Option Feedback → Option Feedback → Option Feedback
first none b = b
first (some r) b = some r

abbrev pub shown : String → String → Option Feedback → Option Feedback
shown a b none = none
shown a b (some r) = some (show a b r)

-- How many rows pass a test.
unfoldable pub count_rows : (Feedback → Bool) → Table → ℕ
count_rows test [] = 0
count_rows test (row ∷ rows) =
    let rest = count_rows test rows in if test row then suc rest else rest

module _ (test : Feedback → Bool) where
  pub find-append :
      (row : Feedback) (rows : Table)
      → find test (rows ++ (row ∷ []))
        ≡ first (find test rows) (if test row then some row else none)
  unfolding find
  find-append row [] = ground arith
  find-append row (r ∷ rows) = ground (arith, find-append row rows)

  pub count_rows-append :
      (row : Feedback) (rows : Table)
      → count_rows test (rows ++ (row ∷ [])) ≡ count_rows test rows + (if test row then 1 else 0)
  unfolding count_rows
  count_rows-append row [] = ground arith
  count_rows-append row (r ∷ rows) = ground (arith, count_rows-append row rows)

  -- A test that does not look at `visible`.
  pub find-reveal :
      (a b : String) (rows : Table)
      → ((r : Feedback) → test (show a b r) ≡ test r)
      → find test (reveal a b rows) ≡ shown a b (find test rows)
  unfolding find reveal
  find-reveal a b [] same = refl
  find-reveal a b (r ∷ rows) same = ground (arith, find-reveal a b rows same, same r)

  pub count_rows-reveal :
      (a b : String) (rows : Table)
      → ((r : Feedback) → test (show a b r) ≡ test r)
      → count_rows test (reveal a b rows) ≡ count_rows test rows
  unfolding count_rows reveal
  count_rows-reveal a b [] same = refl
  count_rows-reveal a b (r ∷ rows) same = ground (arith, count_rows-reveal a b rows same, same r)

  pub any_row-count :
      (rows : Table)
      → any_row test rows ≡ false
      → (count_rows test rows ≡ 0) × (find test rows ≡ none)
  unfolding any_row count_rows find
  any_row-count [] h = (refl, refl)
  any_row-count (r ∷ rows) h = ground (arith, any_row-count rows)

  pub find-test : (rows : Table) (r : Feedback) → find test rows ≡ some r → test r ≡ true
  unfolding find
  find-test [] r h = ground arith
  find-test (x ∷ rows) r h = ground (arith, find-test rows r)

-- A row that is found passes any test that is passed somewhere.
pub find-any_row :
    (test other : Feedback → Bool) (rows : Table) (r : Feedback)
    → find test rows ≡ some r
    → other r ≡ true
    → any_row other rows ≡ true
unfolding find any_row
find-any_row test other [] r h k = ground arith
find-any_row test other (x ∷ rows) r h k = ground (arith, find-any_row test other rows r)
