-- ===== src/Bank/Ledger/Share.antt =====
-- The rounding of `amount * worker_pct // 100` in `escrow_split`.
use Prim.Native.Nat.{◌*◌}
use agent_economy.Shared.{ℕ, ◌/◌, ◌≤◌, ◌≡◌, ap, arith}
use agent_economy.Shared.Int.{
  ℤ, pos, negsuc, ◌+ℤ◌, ◌*ℤ◌, ◌≤ℤ◌, floor_div, *ℤ-pos, +ℤ_parts, int_laws,
}
use agent_economy.Bank.Ledger.{worker_share}

pub worker_share-pos : (a p : ℕ) → worker_share (pos a) (pos p) ≡ pos (a * p / 100)
unfolding worker_share floor_div
worker_share-pos a p = rw *ℤ-pos

mul_mono : (a p q : ℕ) → p ≤ q → a * p ≤ a * q
mul_mono a p q h = grind arith

-- The worker's share is the exact share of the amount, rounded down: it is neither negative nor
-- more than the amount, and it misses the exact share by less than one unit.
pub worker_share_bounds :
    (amount pct : ℤ)
    → pos 0 ≤ℤ amount
    → pos 0 ≤ℤ pct
    → pct ≤ℤ pos 100
    → (pos 0 ≤ℤ worker_share amount pct)
      × (worker_share amount pct ≤ℤ amount)
      × (worker_share amount pct *ℤ pos 100 ≤ℤ amount *ℤ pct)
      × (amount *ℤ pct +ℤ pos 1 ≤ℤ worker_share amount pct *ℤ pos 100 +ℤ pos 100)
worker_share_bounds (pos a) (pos p) _ _ h =
    let small : a * p ≤ a * 100 = mul_mono a p 100 (omega arith) in
    simp (worker_share-pos, *ℤ-pos)
      (omega arith, omega arith, omega arith, omega (int_laws, +ℤ_parts (pos (a * p)) (pos 1)))
worker_share_bounds (negsuc a) pct h _ _ = absurd (omega arith)
worker_share_bounds (pos a) (negsuc p) _ h _ = absurd (omega arith)

-- At the ends the whole amount goes to one side.
pub worker_share_ends :
    (amount : ℤ)
    → pos 0 ≤ℤ amount
    → (worker_share amount (pos 0) ≡ pos 0) × (worker_share amount (pos 100) ≡ amount)
worker_share_ends (pos a) _ =
    (rw worker_share-pos (ap pos (omega arith)), rw worker_share-pos (ap pos (omega arith)))
worker_share_ends (negsuc a) h = absurd (omega arith)

-- A larger percentage never gives the worker less.
pub worker_share_mono :
    (amount p q : ℤ)
    → pos 0 ≤ℤ amount
    → pos 0 ≤ℤ p
    → p ≤ℤ q
    → worker_share amount p ≤ℤ worker_share amount q
worker_share_mono (pos a) (pos p) (pos q) _ _ h =
    let small : a * p ≤ a * q = mul_mono a p q (omega arith) in simp worker_share-pos (omega arith)
worker_share_mono _ _ _ hp hq h = absurd (omega arith)
