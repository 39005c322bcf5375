-- ===== src/Bank/Ledger/Resolution.antt =====
-- An escrow is paid out once, whatever is called before and after.
use agent_economy.Shared.{
  String, ◌≡◌, refl, Option, none, some, List, [], ◌∷◌, false, arith, text_eq, pair_eq, eq_iff, inl,
  inr, Option-cases,
}
use agent_economy.Shared.Int.{ℤ}
use agent_economy.Shared.Dict.{get, get-set, get-set_self}
use agent_economy.Shared.Action.{Result, ok, err}
use agent_economy.Bank.Types.{Account, Escrow, Ledger, Draws, released, split}
use agent_economy.Bank.Ledger.{
  append_tx, set_balance, add_account, open_account, create_account, get_account, credit_account,
  first_credit, repeated_credit, add_credit, escrow_lock, new_lock, repeated_lock, lock_funds,
  resolve, pay_out, split_out, escrow_release, escrow_split, is_locked,
}
use agent_economy.Bank.Ledger.Invariant.{new_escrow}
use agent_economy.Bank.Ledger.History.{
  Call, create, credit, lock, release, divide, perform, run, IsFresh, AllFresh,
}

open_account-escrows :
    (d : Draws) (a : String) (b : ℤ) (s : Ledger) → (open_account d a b s).escrows ≡ s.escrows
unfolding open_account add_account append_tx
open_account-escrows d a b s = ground arith

add_credit-escrows :
    (d : Draws) (k : String) (account : Account) (x : ℤ) (r : String) (s : Ledger)
    → (add_credit d k account x r s).escrows ≡ s.escrows
unfolding add_credit append_tx set_balance
add_credit-escrows d k account x r s = refl

-- A resolved escrow stays as it is: no call changes it.
pub perform-resolved :
    (c : Call) (k : String) (e : Escrow) (s : Ledger)
    → IsFresh c s
    → get k s.escrows ≡ some e
    → is_locked e.status ≡ false
    → get k (perform c s).escrows ≡ some e
unfolding create_account credit_account first_credit repeated_credit escrow_lock new_lock
    repeated_lock lock_funds append_tx set_balance escrow_release escrow_split pay_out split_out
    resolve get_account
perform-resolved (create d a b) k e s h found done = ground (arith, open_account-escrows d a b s)
perform-resolved (credit d a x r) k e s h found done = elim (Option-cases (get a s.accounts)) [
  | inl no_account ↦ ground arith
  | inr (account, known) ↦ ground (arith, add_credit-escrows d a account x r s)
]
perform-resolved (lock d p x t) k e s h found done =
    ground (arith, get-set d.escrow_id k (new_escrow d p x t) s.escrows, eq_iff d.escrow_id k)
perform-resolved (release d j r) k e s h found done = elim (Option-cases (get j s.escrows)) [
  | inl no_escrow ↦ ground arith
  | inr (x, other) ↦ ground (
    arith,
    get-set j k (record x { status = released; resolved_at = some d.now_last }) s.escrows,
    eq_iff j k,
  )
]
perform-resolved (divide d j w pct p) k e s h found done = elim (Option-cases (get j s.escrows)) [
  | inl no_escrow ↦ ground arith
  | inr (x, other) ↦ ground (
    arith,
    get-set j k (record x { status = split; resolved_at = some d.now_last }) s.escrows,
    eq_iff j k,
  )
]

pub run-resolved :
    (cs : List Call) (k : String) (e : Escrow) (s : Ledger)
    → AllFresh cs s
    → get k s.escrows ≡ some e
    → is_locked e.status ≡ false
    → get k (run cs s).escrows ≡ some e
unfolding run
run-resolved [] k e s h found done = found
run-resolved (c ∷ cs) k e s (now, later) found done =
    run-resolved cs k e (perform c s) later (perform-resolved c k e s now found done) done

abbrev pub Succeeds : {A : Type 0} → Result A × Ledger → Type 0
Succeeds (ok _, _) = Unit
Succeeds (err _, _) = ⊥

-- A call that pays out the escrow `k`.
abbrev pub PaysFrom : String → Call → Ledger → Type 0
PaysFrom k (release d j r) s = (j ≡ k) × Succeeds (escrow_release d j r s)
PaysFrom k (divide d j w pct p) s = (j ≡ k) × Succeeds (escrow_split d j w pct p s)
PaysFrom k (create d a b) s = ⊥
PaysFrom k (credit d a x r) s = ⊥
PaysFrom k (lock d p x t) s = ⊥

abbrev IsResolved : Option Escrow → Type 0
IsResolved none = ⊥
IsResolved (some e) = is_locked e.status ≡ false

pays-IsResolved :
    (k : String) (c : Call) (s : Ledger) → PaysFrom k c s → IsResolved (get k (perform c s).escrows)
unfolding escrow_release escrow_split pay_out split_out resolve get_account append_tx set_balance
pays-IsResolved k (release d j r) s (same, paid) = elim (Option-cases (get j s.escrows)) [
  | inl no_escrow ↦ ground arith
  | inr (x, other) ↦ ground (
    arith,
    get-set_self j (record x { status = released; resolved_at = some d.now_last }) s.escrows,
  )
]
pays-IsResolved k (divide d j w pct p) s (same, paid) = elim (Option-cases (get j s.escrows)) [
  | inl no_escrow ↦ ground arith
  | inr (x, other) ↦
      ground (
        arith,
        get-set_self j (record x { status = split; resolved_at = some d.now_last }) s.escrows,
      )
]
pays-IsResolved k (create d a b) s h = elim h [ ]
pays-IsResolved k (credit d a x r) s h = elim h [ ]
pays-IsResolved k (lock d p x t) s h = elim h [ ]

resolved_unpaid :
    (k : String) (c : Call) (e : Escrow) (s : Ledger)
    → get k s.escrows ≡ some e
    → is_locked e.status ≡ false
    → ¬ PaysFrom k c s
unfolding escrow_release escrow_split get_account
resolved_unpaid k (release d j r) e s found done (same, paid) = ground arith
resolved_unpaid k (divide d j w pct p) e s found done (same, paid) = ground arith
resolved_unpaid k (create d a b) e s found done h = h
resolved_unpaid k (credit d a x r) e s found done h = h
resolved_unpaid k (lock d p x t) e s found done h = h

-- An escrow is paid out at most once: after a call that released or split it, and any calls
-- after that whose new escrows draw unused identifiers, no call releases or splits it again.
pub escrow_paid_once :
    (k : String) (c later : Call) (cs : List Call) (s : Ledger)
    → PaysFrom k c s
    → AllFresh cs (perform c s)
    → ¬ PaysFrom k later (run cs (perform c s))
escrow_paid_once k c later cs s paid fresh =
    go (get k (perform c s).escrows) refl (pays-IsResolved k c s paid)
  where
    go :
        (o : Option Escrow)
        → get k (perform c s).escrows ≡ o
        → IsResolved o
        → ¬ PaysFrom k later (run cs (perform c s))
    go none found done = absurd done
    go (some e) found done =
        resolved_unpaid k later e (run cs (perform c s))
          (run-resolved cs k e (perform c s) fresh found done) done
