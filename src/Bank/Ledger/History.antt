-- ===== src/Bank/Ledger/History.antt =====
-- Sequences of calls of the ledger, as the routers make them.
use agent_economy.Shared.{String, ◌≡◌, ◌≢◌, none, List, [], ◌∷◌, text_eq, pair_eq, if◌then◌else◌}
use agent_economy.Shared.Int.{ℤ, pos, ◌+ℤ◌, int_laws}
use agent_economy.Shared.Dict.{get, contains}
use agent_economy.Shared.Action.{Result, ok, err}
use agent_economy.Bank.Types.{Ledger, Draws, empty}
use agent_economy.Bank.Ledger.{
  create_account, credit_account, escrow_lock, escrow_release, escrow_split,
}
use agent_economy.Bank.Ledger.Invariant.{IsValid}
use agent_economy.Bank.Ledger.Conservation.{total_money}
use agent_economy.Bank.Ledger.Outcomes.{
  Settles, create_account-Settles, credit_account-Settles, escrow_lock-Settles,
  escrow_release-Settles, escrow_split-Settles,
}

pub data Call : Type 0 where
  create : Draws → String → ℤ → Call
  credit : Draws → String → ℤ → String → Call
  lock : Draws → String → ℤ → String → Call
  release : Draws → String → String → Call
  divide : Draws → String → String → ℤ → String → Call

-- The ledger after a call, whether it returned or raised.
abbrev pub perform : Call → Ledger → Ledger
perform (create d a b) s = (create_account d a b s).1
perform (credit d k x r) s = (credit_account d k x r s).1
perform (lock d p x t) s = (escrow_lock d p x t s).1
perform (release d k r) s = (escrow_release d k r s).1
perform (divide d k w x p) s = (escrow_split d k w x p s).1

-- The identifier that a call draws for a new escrow is not in use.
abbrev pub IsFresh : Call → Ledger → Type 0
IsFresh (lock d p x t) s = get d.escrow_id s.escrows ≡ none
IsFresh (create d a b) s = Unit
IsFresh (credit d k x r) s = Unit
IsFresh (release d k r) s = Unit
IsFresh (divide d k w x p) s = Unit

-- A split names two different accounts.
abbrev pub IsApart : Call → Type 0
IsApart (divide d k w x p) = w ≢ p
IsApart (create d a b) = Unit
IsApart (credit d k x r) = Unit
IsApart (lock d p x t) = Unit
IsApart (release d k r) = Unit

abbrev pub received : {A : Type 0} → Result A × Ledger → ℤ → ℤ
received (ok _, _) cash = cash
received (err _, _) cash = pos 0

-- The money that a call brings in from outside.
abbrev pub cash_of : Call → Ledger → ℤ
cash_of (create d a b) s = received (create_account d a b s) b
cash_of (credit d k x r) s =
    received (credit_account d k x r s) (if contains (k, r) s.credit_refs then pos 0 else x)
cash_of (lock d p x t) s = pos 0
cash_of (release d k r) s = pos 0
cash_of (divide d k w x p) s = pos 0

Settles-perform :
    {A : Type 0} (cash : ℤ) (s : Ledger) (o : Result A × Ledger)
    → IsValid s
    → Settles s cash o
    → IsValid o.1 × (total_money o.1 ≡ total_money s +ℤ received o cash)
Settles-perform cash s (ok a, t) v h = h
Settles-perform cash s (err e, t) v h = rw h (v, grind int_laws)

Settles-perform_free :
    {A : Type 0} (s : Ledger) (o : Result A × Ledger)
    → IsValid s
    → Settles s (pos 0) o
    → IsValid o.1 × (total_money o.1 ≡ total_money s +ℤ pos 0)
Settles-perform_free s (ok a, t) v h = h
Settles-perform_free s (err e, t) v h = rw h (v, grind int_laws)

pub perform-total :
    (c : Call) (s : Ledger)
    → IsValid s
    → IsFresh c s
    → IsApart c
    → IsValid (perform c s) × (total_money (perform c s) ≡ total_money s +ℤ cash_of c s)
perform-total (create d a b) s v h apart =
    Settles-perform b s _ v (create_account-Settles d a b s v)
perform-total (credit d k x r) s v h apart =
    Settles-perform _ s _ v (credit_account-Settles d k x r s v)
perform-total (lock d p x t) s v h apart =
    Settles-perform_free s _ v (escrow_lock-Settles d p x t s v h)
perform-total (release d k r) s v h apart =
    Settles-perform_free s _ v (escrow_release-Settles d k r s v)
perform-total (divide d k w x p) s v h apart =
    Settles-perform_free s _ v (escrow_split-Settles d k w x p s v apart)

unfoldable pub run : List Call → Ledger → Ledger
run [] s = s
run (c ∷ cs) s = run cs (perform c s)

abbrev pub AllFresh : List Call → Ledger → Type 0
AllFresh [] s = Unit
AllFresh (c ∷ cs) s = IsFresh c s × AllFresh cs (perform c s)

abbrev pub AllApart : List Call → Type 0
AllApart [] = Unit
AllApart (c ∷ cs) = IsApart c × AllApart cs

abbrev pub total_cash : List Call → Ledger → ℤ
total_cash [] s = pos 0
total_cash (c ∷ cs) s = cash_of c s +ℤ total_cash cs (perform c s)

-- From a ledger where the invariant holds, after any sequence of calls whose new escrows draw
-- unused identifiers and whose splits name two different accounts, the invariant holds, so that
-- no account is overdrawn, and the money has grown by exactly what initial balances and first
-- credits have brought in.
pub run-total :
    (cs : List Call) (s : Ledger)
    → IsValid s
    → AllFresh cs s
    → AllApart cs
    → IsValid (run cs s) × (total_money (run cs s) ≡ total_money s +ℤ total_cash cs s)
unfolding run
run-total [] s v h a = (v, grind int_laws)
run-total (c ∷ cs) s v (now, later) (apart, all_apart) =
    let (v', moved) = perform-total c s v now apart in
    let (v'', rest) = run-total cs (perform c s) v' later all_apart in
    (v'', grind (int_laws, moved, rest))

pub empty-IsValid : IsValid empty
unfolding get
empty-IsValid = record {
  solvent = λ k a h. cc;
  funded = λ k e h. cc;
  indexed = λ p t k h. cc;
  listed = λ k e h l. cc;
}
