-- ===== src/Bank/Ledger/Audit.antt =====
-- The transaction log accounts for every balance.
use mathlib.Core.Option.{get_or}
use agent_economy.Shared.{
  ℕ, String, ◌≡◌, refl, ◌≢◌, Option, none, some, List, [], ◌∷◌, ◌++◌, arith, text_eq, pair_eq, ◌==◌,
  if◌then◌else◌, eq_iff, Bool-cases, inl, inr, Option-cases,
}
use agent_economy.Shared.Int.{ℤ, pos, ◌+ℤ◌, ◌-ℤ◌, ◌≤ℤ◌, int_laws, ltb_ℤ}
use agent_economy.Shared.Dict.{Dict, get, get-set}
use agent_economy.Bank.Types.{
  Account, Tx, Escrow, EscrowStatus, Ledger, Draws, credit, debit, released, split, empty,
}
use agent_economy.Bank.Ledger.{
  with_default, append_tx, set_balance, new_tx, new_account, add_account, open_account, add_credit,
  lock_funds, resolve, pay_out, split_out, create_account, credit_account, first_credit,
  repeated_credit, escrow_lock, new_lock, repeated_lock, escrow_release, escrow_split, get_account,
  worker_share,
}
use agent_economy.Bank.Ledger.History.{
  Call, create, lock, release, divide, perform, run, IsApart, AllApart,
}

-- What a transaction adds to the balance of its account.
abbrev pub effect : Tx → ℤ
effect tx = elim tx.tx_type [ credit ↦ tx.amount | debit ↦ pos 0 -ℤ tx.amount ]

pub log_sum : List Tx → ℤ
log_sum [] = pos 0
log_sum (tx ∷ log) = effect tx +ℤ log_sum log

abbrev pub log_of : String → Ledger → List Tx
log_of k s = get_or (get k s.transactions) []

abbrev pub balance_or_zero : Option Account → ℤ
balance_or_zero none = pos 0
balance_or_zero (some a) = a.balance

-- The balance of each account is the sum of its logged transactions, and an account that does not
-- exist has none that count.
pub record IsAudited (s : Ledger) : Type 0 where
  pub accounted : (k : String) → balance_or_zero (get k s.accounts) ≡ log_sum (log_of k s)

log_sum-append : (log : List Tx) (tx : Tx) → log_sum (log ++ tx ∷ []) ≡ log_sum log +ℤ effect tx
unfolding log_sum
log_sum-append [] tx = grind int_laws
log_sum-append (x ∷ log) tx = grind (int_laws, log_sum-append log tx)

with_default-log :
    (k j : String) (d : Dict String (List Tx))
    → get_or (get j (with_default k d)) [] ≡ get_or (get j d) []
unfolding with_default
with_default-log k j d = ground (arith, get-set k j [] d, eq_iff k j)

append_tx-log :
    (k j : String) (tx : Tx) (s : Ledger)
    → log_of j (append_tx k tx s) ≡ (if k == j then log_of k s ++ tx ∷ [] else log_of j s)
unfolding append_tx
append_tx-log k j tx s =
    let d = with_default k s.transactions in
    ground (
      arith,
      get-set k j (get_or (get k d) [] ++ tx ∷ []) d,
      with_default-log k k s.transactions,
      with_default-log k j s.transactions,
    )

-- A balance that is written together with its transaction stays accounted for.
credited-IsAudited :
    (k : String) (account : Account) (balance : ℤ) (tx : Tx) (s : Ledger)
    → IsAudited s
    → get k s.accounts ≡ some account
    → balance ≡ account.balance +ℤ effect tx
    → IsAudited (append_tx k tx (set_balance k account balance s))
credited-IsAudited k account balance tx s audited known logged = record {
  accounted = λ j. rw append_tx-log (
      unfold append_tx set_balance in
      (elim (Bool-cases (k == j)) [
        | inl same ↦ grind (
          int_laws,
          get-set k j (record account { balance = balance }) s.accounts,
          log_sum-append (log_of k s) tx,
          audited.accounted k,
        )
        | inr other ↦ ground (
          arith,
          get-set k j (record account { balance = balance }) s.accounts,
          audited.accounted j,
        )
      ]));
}

-- The other dictionaries do not bear on the audit.
resolve-IsAudited :
    (k : String) (e : Escrow) (status : EscrowStatus) (n : ℕ) (s : Ledger)
    → IsAudited s
    → IsAudited (resolve k e status n s)
unfolding resolve
resolve-IsAudited k e status n s audited = record { accounted = audited.accounted }

-- The log of an account that is opened without money.
add_account-log :
    (d : Draws) (a j : String) (b : ℤ) (s : Ledger) → log_of j (add_account d a b s) ≡ log_of j s
unfolding add_account
add_account-log d a j b s = with_default-log a j s.transactions

open_account-IsAudited :
    (d : Draws) (a : String) (b : ℤ) (s : Ledger)
    → IsAudited s
    → get a s.accounts ≡ none
    → pos 0 ≤ℤ b
    → IsAudited (open_account d a b s)
unfolding open_account
open_account-IsAudited d a b s audited unknown_account positive =
    elim (Bool-cases (ltb_ℤ (pos 0) b)) [
      | inl more ↦ rw more (record {
        accounted = λ j. rw append_tx-log (
            unfold append_tx add_account new_account new_tx in
            grind (
              int_laws,
              get-set a j (new_account a b d.now) s.accounts,
              log_sum-append (log_of a (add_account d a b s)) tx,
              add_account-log d a a b s,
              add_account-log d a j b s,
              audited.accounted a,
              audited.accounted j,
            ));
      })
      | inr zero_balance ↦ rw zero_balance (record {
        accounted = λ j. rw add_account-log (
            unfold add_account new_account in
            grind (
              int_laws,
              get-set a j (new_account a b d.now) s.accounts,
              audited.accounted a,
              audited.accounted j,
              eq_iff a j,
            ));
      })
    ]
  where
    tx : Tx
    tx = new_tx d.tx_id credit b b "initial_balance" d.now

add_credit-IsAudited :
    (d : Draws) (k : String) (account : Account) (amount : ℤ) (r : String) (s : Ledger)
    → IsAudited s
    → get k s.accounts ≡ some account
    → IsAudited (add_credit d k account amount r s)
unfolding add_credit new_tx
add_credit-IsAudited d k account amount r s audited known = record {
  accounted =
      (credited-IsAudited k account (account.balance +ℤ amount)
        (new_tx d.tx_id credit amount (account.balance +ℤ amount) r d.now) s audited known
        refl).accounted;
}

lock_funds-IsAudited :
    (d : Draws) (p : String) (payer : Account) (amount : ℤ) (t : String) (s : Ledger)
    → IsAudited s
    → get p s.accounts ≡ some payer
    → IsAudited (lock_funds d p payer amount t s)
unfolding lock_funds new_tx append_tx set_balance
lock_funds-IsAudited d p payer amount t s audited known = record {
  accounted =
      (credited-IsAudited p payer (payer.balance -ℤ amount) _ s audited known
        (grind int_laws)).accounted;
}

pay_out-IsAudited :
    (d : Draws) (k : String) (e : Escrow) (r : String) (recipient : Account) (s : Ledger)
    → IsAudited s
    → get r s.accounts ≡ some recipient
    → IsAudited (pay_out d k e r recipient s)
unfolding pay_out new_tx
pay_out-IsAudited d k e r recipient s audited known =
    resolve-IsAudited k e released d.now_last _
      (credited-IsAudited r recipient (recipient.balance +ℤ e.amount) _ s audited known refl)

split_out-IsAudited :
    (d : Draws) (k : String) (e : Escrow) (w : String) (worker : Account) (x : ℤ) (p : String)
    (poster : Account) (y : ℤ) (s : Ledger)
    → IsAudited s
    → get w s.accounts ≡ some worker
    → get p s.accounts ≡ some poster
    → w ≢ p
    → IsAudited (split_out d k e w worker x p poster y s)
unfolding split_out new_tx append_tx set_balance
split_out-IsAudited d k e w worker x p poster y s audited w_known p_known apart =
    resolve-IsAudited k e split d.now_last _ (
      credited-IsAudited p poster (poster.balance +ℤ y) _ _
        (credited-IsAudited w worker (worker.balance +ℤ x) _ s audited w_known refl)
        (ground (
          arith,
          get-set w p (record worker { balance = worker.balance +ℤ x }) s.accounts,
          eq_iff w p,
        ))
        refl)

perform-IsAudited : (c : Call) (s : Ledger) → IsAudited s → IsApart c → IsAudited (perform c s)
unfolding create_account credit_account first_credit repeated_credit escrow_lock new_lock
    repeated_lock escrow_release escrow_split get_account
perform-IsAudited (create d a b) s audited apart =
    ground (arith, open_account-IsAudited d a b s audited)
perform-IsAudited (Call.credit d k x r) s audited apart = elim (Option-cases (get k s.accounts)) [
  | inl no_account ↦ ground arith
  | inr (account, known) ↦ ground (arith, add_credit-IsAudited d k account x r s audited known)
]
perform-IsAudited (lock d p x t) s audited apart = elim (Option-cases (get p s.accounts)) [
  | inl no_account ↦ ground arith
  | inr (payer, known) ↦ ground (arith, lock_funds-IsAudited d p payer x t s audited known)
]
perform-IsAudited (release d k r) s audited apart = elim (Option-cases (get k s.escrows)) [
  | inl no_escrow ↦ ground arith
  | inr (e, found) ↦ elim (Option-cases (get r s.accounts)) [
    | inl no_account ↦ ground arith
    | inr (recipient, known) ↦ ground (arith, pay_out-IsAudited d k e r recipient s audited known)
  ]
]
perform-IsAudited (divide d k w pct p) s audited apart = elim (Option-cases (get k s.escrows)) [
  | inl no_escrow ↦ ground arith
  | inr (e, found) ↦ elim (Option-cases (get w s.accounts)) [
    | inl no_worker ↦ ground arith
    | inr (worker, w_known) ↦ elim (Option-cases (get p s.accounts)) [
      | inl no_poster ↦ ground arith
      | inr (poster, p_known) ↦
          let x = worker_share e.amount pct in
          ground (
            arith,
            split_out-IsAudited d k e w worker x p poster (e.amount -ℤ x) s audited w_known p_known
                apart,
          )
    ]
  ]
]

pub empty-IsAudited : IsAudited empty
unfolding log_sum get
empty-IsAudited = record { accounted = λ k. refl }

-- From a ledger where the balance of every account is the sum of its logged transactions, the
-- same holds after any sequence of calls whose splits name two different accounts.
pub run-IsAudited : (cs : List Call) (s : Ledger) → IsAudited s → AllApart cs → IsAudited (run cs s)
unfolding run
run-IsAudited [] s audited apart = audited
run-IsAudited (c ∷ cs) s audited (apart, all_apart) =
    run-IsAudited cs (perform c s) (perform-IsAudited c s audited apart) all_apart
