-- ===== src/Shared/Dict.antt =====
-- Python's `dict`: entries in insertion order, where a write to a present key stays in its place.
use mathlib.Core.Path.{◌≡◌, refl}
use mathlib.Core.Bool.{Bool}
use mathlib.Core.Option.{Option, none, some}
use mathlib.Core.List.{List, [], ◌∷◌}
use Prim.Native.Nat.{ℕ, ◌+◌}
use native.Mathlib.Omega.{arith}
use agent_economy.Shared.Tests.{Eq, ◌==◌, ==_refl, is_some, if◌then◌else◌}
use agent_economy.Shared.Int.{ℤ, pos, ◌+ℤ◌, int_laws}

abbrev pub Dict {ℓ κ} : Type ℓ → Type κ → Type (ℓ ⊔ κ)
Dict K V = List (K × V)

module _ {ℓ κ} {K : Type ℓ} {V : Type κ} ⦃e : Eq K⦄ where
  -- `d.get(k)`
  unfoldable pub get : K → Dict K V → Option V
  get k [] = none
  get k ((j, v) ∷ d) = if j == k then some v else get k d

  -- `k in d`
  abbrev pub contains : K → Dict K V → Bool
  contains k d = is_some (get k d)

  -- `d[k] = v`
  unfoldable pub set : K → V → Dict K V → Dict K V
  set k v [] = (k, v) ∷ []
  set k v ((j, w) ∷ d) = if j == k then (j, v) ∷ d else (j, w) ∷ set k v d

  -- `d.pop(k, None)`; a dictionary has a key at most once.
  unfoldable pub pop : K → Dict K V → Dict K V
  pop k [] = []
  pop k ((j, v) ∷ d) = let rest = pop k d in if j == k then rest else (j, v) ∷ rest

  pub get-set :
      (k j : K) (v : V) (d : Dict K V) → get j (set k v d) ≡ (if k == j then some v else get j d)
  unfolding get set
  get-set k j v [] = refl
  get-set k j v ((i, w) ∷ d) =
      ground (arith, e.same_iff i k, e.same_iff i j, e.same_iff k j, get-set k j v d)

  pub get-set_self : (k : K) (v : V) (d : Dict K V) → get k (set k v d) ≡ some v
  get-set_self k v d = simp (get-set, ==_refl)

  pub set-set : (k : K) (v w : V) (d : Dict K V) → set k v (set k w d) ≡ set k v d
  unfolding set
  set-set k v w [] = ground (arith, ==_refl k)
  set-set k v w ((j, x) ∷ d) = ground (arith, set-set k v w d)

  pub get-pop : (k j : K) (d : Dict K V) → get j (pop k d) ≡ (if k == j then none else get j d)
  unfolding get pop
  get-pop k j [] = ground arith
  get-pop k j ((i, w) ∷ d) =
      ground (arith, e.same_iff i k, e.same_iff i j, e.same_iff k j, get-pop k j d)

  -- The sum of a measure over `d.values()`.
  unfoldable pub sum_of : (V → ℤ) → Dict K V → ℤ
  sum_of f [] = pos 0
  sum_of f ((_, v) ∷ d) = f v +ℤ sum_of f d

  pub sum_of-set :
      (f : V → ℤ) (k : K) (v old : V) (d : Dict K V)
      → get k d ≡ some old
      → sum_of f (set k v d) +ℤ f old ≡ sum_of f d +ℤ f v
  unfolding get set sum_of
  sum_of-set f k v old [] h = cc
  sum_of-set f k v old ((j, w) ∷ d) h = grind (int_laws, sum_of-set f k v old d)

  pub sum_of-set_new :
      (f : V → ℤ) (k : K) (v : V) (d : Dict K V)
      → get k d ≡ none
      → sum_of f (set k v d) ≡ sum_of f d +ℤ f v
  unfolding get set sum_of
  sum_of-set_new f k v [] h = omega int_laws
  sum_of-set_new f k v ((j, w) ∷ d) h = grind (int_laws, sum_of-set_new f k v d)

  -- How many of `d.values()` pass a test.
  unfoldable pub count_of : (V → Bool) → Dict K V → ℕ
  count_of p [] = 0
  count_of p ((_, v) ∷ d) = (if p v then 1 else 0) + count_of p d

  pub count_of-set_new :
      (p : V → Bool) (k : K) (v : V) (d : Dict K V)
      → get k d ≡ none
      → count_of p (set k v d) ≡ count_of p d + (if p v then 1 else 0)
  unfolding get set count_of
  count_of-set_new p k v [] h = ground arith
  count_of-set_new p k v ((j, w) ∷ d) h = ground (arith, count_of-set_new p k v d)
