-- ===== src/Shared/Rows.antt =====
-- Python's operations on rows: comprehensions with a test, stable sorts, and slices.
use Prim.Native.Nat.{ℕ, zero, suc}
use Prim.Native.String.{String}
use mathlib.Core.Bool.{Bool}
use mathlib.Core.List.{List, [], ◌∷◌}
use agent_economy.Shared.Tests.{leb, if◌then◌else◌}
use agent_economy.Shared.Dict.{Dict}

module _ {V : Type 0} where
  -- `[row for row in d.values() if test(row)]`
  unfoldable pub select : (V → Bool) → Dict String V → List V
  select test [] = []
  select test ((_, v) ∷ d) = let rest = select test d in if test v then v ∷ rest else rest

  -- `[row for row in rows if test(row)]`
  unfoldable pub keep : (V → Bool) → List V → List V
  keep test [] = []
  keep test (v ∷ vs) = let rest = keep test vs in if test v then v ∷ rest else rest

  -- Python's sorts are stable, also with `reverse=True`: of equal keys the earlier stays first.
  unfoldable pub insert_asc : (V → ℕ) → V → List V → List V
  insert_asc key v [] = v ∷ []
  insert_asc key v (w ∷ ws) = if leb (key v) (key w) then v ∷ w ∷ ws else w ∷ insert_asc key v ws

  unfoldable pub sort_asc : (V → ℕ) → List V → List V
  sort_asc key [] = []
  sort_asc key (v ∷ vs) = insert_asc key v (sort_asc key vs)

  unfoldable pub insert_desc : (V → ℕ) → V → List V → List V
  insert_desc key v [] = v ∷ []
  insert_desc key v (w ∷ ws) = if leb (key w) (key v) then v ∷ w ∷ ws else w ∷ insert_desc key v ws

  unfoldable pub sort_desc : (V → ℕ) → List V → List V
  sort_desc key [] = []
  sort_desc key (v ∷ vs) = insert_desc key v (sort_desc key vs)

  -- `rows[n:]` and `rows[:n]`
  unfoldable pub drop : ℕ → List V → List V
  drop zero vs = vs
  drop (suc n) [] = []
  drop (suc n) (v ∷ vs) = drop n vs

  unfoldable pub take : ℕ → List V → List V
  take zero vs = []
  take (suc n) [] = []
  take (suc n) (v ∷ vs) = v ∷ take n vs
