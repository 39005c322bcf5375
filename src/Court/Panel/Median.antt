-- ===== src/Court/Panel/Median.antt =====
-- The median of the judges' percentages.
use agent_economy.Shared.{
  ℕ, zero, suc, ◌+◌, ◌*◌, ◌/◌, ◌≤◌, ◌<◌, ◌≡◌, refl, some, List, [], ◌∷◌, Bool, arith, if◌then◌else◌,
  Bool-cases, inl, inr,
}
use mathlib.Core.Path.{subst}
use agent_economy.Shared.Int.{ℤ, leb_ℤ, ltb_ℤ, ◌≤ℤ◌}
use agent_economy.Court.Panel.{insert_pct, sort_pcts, get_elem?, count_pcts, median}

-- How many percentages pass a test.
abbrev pub number : (ℤ → Bool) → List ℤ → ℕ
number p [] = 0
number p (x ∷ xs) = (if p x then 1 else 0) + number p xs

abbrev pub All : (ℤ → Type 0) → List ℤ → Type 0
All P [] = Unit
All P (x ∷ xs) = P x × All P xs

abbrev IsAscending : List ℤ → Type 0
IsAscending [] = Unit
IsAscending (x ∷ xs) = All (λ y. x ≤ℤ y) xs × IsAscending xs

number-insert :
    (p : ℤ → Bool) (x : ℤ) (xs : List ℤ) → number p (insert_pct x xs) ≡ number p (x ∷ xs)
unfolding insert_pct
number-insert p x [] = refl
number-insert p x (y ∷ ys) = ground (arith, number-insert p x ys)

number-sort : (p : ℤ → Bool) (xs : List ℤ) → number p (sort_pcts xs) ≡ number p xs
unfolding sort_pcts
number-sort p [] = refl
number-sort p (x ∷ xs) = omega (arith, number-insert p x (sort_pcts xs), number-sort p xs)

count-insert : (x : ℤ) (xs : List ℤ) → count_pcts (insert_pct x xs) ≡ suc (count_pcts xs)
unfolding insert_pct
count-insert x [] = refl
count-insert x (y ∷ ys) = ground (arith, count-insert x ys)

count-sort : (xs : List ℤ) → count_pcts (sort_pcts xs) ≡ count_pcts xs
unfolding sort_pcts
count-sort [] = refl
count-sort (x ∷ xs) = omega (arith, count-insert x (sort_pcts xs), count-sort xs)

All-insert : (P : ℤ → Type 0) (x : ℤ) (xs : List ℤ) → P x → All P xs → All P (insert_pct x xs)
unfolding insert_pct
All-insert P x [] h a = (h, tt)
All-insert P x (y ∷ ys) h (k, a) = elim (Bool-cases (leb_ℤ x y)) [
  | inl le ↦ rw le (h, (k, a))
  | inr gt ↦ rw gt (k, All-insert P x ys h a)
]

pub All-sort : (P : ℤ → Type 0) (xs : List ℤ) → All P xs → All P (sort_pcts xs)
unfolding sort_pcts
All-sort P [] a = tt
All-sort P (x ∷ xs) (h, a) = All-insert P x (sort_pcts xs) h (All-sort P xs a)

All-le_trans : (x y : ℤ) (ys : List ℤ) → x ≤ℤ y → All (λ z. y ≤ℤ z) ys → All (λ z. x ≤ℤ z) ys
All-le_trans x y [] h a = tt
All-le_trans x y (z ∷ zs) h (k, a) = (omega arith, All-le_trans x y zs h a)

insert-IsAscending : (x : ℤ) (xs : List ℤ) → IsAscending xs → IsAscending (insert_pct x xs)
unfolding insert_pct
insert-IsAscending x [] h = (tt, tt)
insert-IsAscending x (y ∷ ys) (a, h) = elim (Bool-cases (leb_ℤ x y)) [
  | inl le ↦ rw le ((ground arith, All-le_trans x y ys (ground arith) a), (a, h))
  | inr gt ↦ rw gt (All-insert (λ z. y ≤ℤ z) x ys (ground arith) a, insert-IsAscending x ys h)
]

sort-IsAscending : (xs : List ℤ) → IsAscending (sort_pcts xs)
unfolding sort_pcts
sort-IsAscending [] = tt
sort-IsAscending (x ∷ xs) = insert-IsAscending x (sort_pcts xs) (sort-IsAscending xs)

pub All-get_elem? :
    (P : ℤ → Type 0) (xs : List ℤ) (i : ℕ) (m : ℤ) → All P xs → get_elem? xs i ≡ some m → P m
unfolding get_elem?
All-get_elem? P [] i m a h = cc
All-get_elem? P (x ∷ xs) zero m (k, a) h = let e : m ≡ x = cc in rw e k
All-get_elem? P (x ∷ xs) (suc i) m (k, a) h = All-get_elem? P xs i m a h

-- None of these is smaller.
number_below : (m : ℤ) (xs : List ℤ) → All (λ y. m ≤ℤ y) xs → number (λ y. ltb_ℤ y m) xs ≡ 0
number_below m [] a = refl
number_below m (x ∷ xs) (h, a) = ground (arith, number_below m xs a)

number-le-count : (p : ℤ → Bool) (xs : List ℤ) → number p xs ≤ count_pcts xs
number-le-count p [] = omega arith
number-le-count p (x ∷ xs) = ground (arith, number-le-count p xs)

first_place :
    (x : ℤ) (xs : List ℤ)
    → All (λ y. x ≤ℤ y) xs
    → (number (λ y. ltb_ℤ y x) (x ∷ xs) ≤ 0)
      × (number (λ y. ltb_ℤ x y) (x ∷ xs) + 0 + 1 ≤ count_pcts (x ∷ xs))
first_place x xs a =
    (ground (arith, number_below x xs a), ground (arith, number-le-count (λ y. ltb_ℤ x y) xs))

get_elem?-lt : (xs : List ℤ) (i : ℕ) → i < count_pcts xs → (m : ℤ) × (get_elem? xs i ≡ some m)
unfolding get_elem?
get_elem?-lt [] i h = absurd (omega arith)
get_elem?-lt (x ∷ xs) zero h = (x, refl)
get_elem?-lt (x ∷ xs) (suc i) h = get_elem?-lt xs i (omega arith)

-- In an ascending list at most `i` entries are below the one at place `i`, and at most those after
-- it are above.
ascending_place :
    (xs : List ℤ) (i : ℕ) (m : ℤ)
    → IsAscending xs
    → get_elem? xs i ≡ some m
    → (number (λ y. ltb_ℤ y m) xs ≤ i) × (number (λ y. ltb_ℤ m y) xs + i + 1 ≤ count_pcts xs)
unfolding get_elem?
ascending_place [] i m h e = cc
ascending_place (x ∷ xs) zero m (a, h) e =
    subst
      (λ (z : ℤ).
        (number (λ y. ltb_ℤ y z) (x ∷ xs) ≤ 0)
        × (number (λ y. ltb_ℤ z y) (x ∷ xs) + 0 + 1 ≤ count_pcts (x ∷ xs)))
      (cc) (first_place x xs a)
ascending_place (x ∷ xs) (suc i) m (a, h) e =
    let lt = ascending_place xs i m h e in
    let le = All-get_elem? (λ y. x ≤ℤ y) xs i m a e in (ground arith, ground arith)

-- Where there is a vote there is a median; at most half of the votes are below it, and fewer than
-- half are above it.
pub median_lem :
    (x : ℤ) (xs : List ℤ)
    → (m : ℤ) × (median (x ∷ xs) ≡ some m)
      × (2 * number (λ y. ltb_ℤ y m) (x ∷ xs) ≤ count_pcts (x ∷ xs))
      × (2 * number (λ y. ltb_ℤ m y) (x ∷ xs) < count_pcts (x ∷ xs))
unfolding median
median_lem x xs =
    let votes = x ∷ xs in
    let s = sort_pcts votes in
    let n = count-sort votes in
    let (m, at) = get_elem?-lt s (count_pcts s / 2) (omega arith) in
    let (below, above) = ascending_place s (count_pcts s / 2) m (sort-IsAscending votes) at in
    let b = number-sort (λ y. ltb_ℤ y m) votes in
    let a = number-sort (λ y. ltb_ℤ m y) votes in (m, at, omega arith, omega arith)

-- What holds of all votes holds of their median.
pub All-median : (P : ℤ → Type 0) (xs : List ℤ) (m : ℤ) → All P xs → median xs ≡ some m → P m
unfolding median
All-median P xs m a h =
    All-get_elem? P (sort_pcts xs) (count_pcts (sort_pcts xs) / 2) m (All-sort P xs a) h
