-- ===== src/Bank/Ledger/Conservation.antt =====
-- Money in accounts and in locked escrows: how much each ledger method moves.
use agent_economy.Shared.{
  ℕ, String, ◌≡◌, refl, ap, ◌∙◌, ◌≢◌, none, some, true, false, text_eq, pair_eq, eq_iff, Bool-cases,
  inl, inr,
}
use agent_economy.Shared.Int.{ℤ, pos, ◌+ℤ◌, ◌-ℤ◌, ltb_ℤ, int_laws}
use agent_economy.Shared.Dict.{get, get-set, get-set_self, sum_of, sum_of-set, sum_of-set_new}
use agent_economy.Bank.Types.{Account, Tx, Escrow, EscrowStatus, Ledger, Draws, released, split}
use agent_economy.Bank.Ledger.{
  append_tx, set_balance, new_account, add_account, open_account, add_credit, lock_funds, resolve,
  pay_out, split_out, held, is_locked, total_escrowed,
}
use agent_economy.Bank.Ledger.Invariant.{new_escrow}

abbrev pub balance_of : Account → ℤ
balance_of a = a.balance

-- The money that the bank holds: every balance, and every locked escrow.
pub total_money : Ledger → ℤ
total_money s = sum_of balance_of s.accounts +ℤ total_escrowed s

pub append_tx-total :
    (k : String) (tx : Tx) (s : Ledger) → total_money (append_tx k tx s) ≡ total_money s
unfolding append_tx total_money total_escrowed
append_tx-total k tx s = refl

pub set_balance-total :
    (k : String) (account old : Account) (balance : ℤ) (s : Ledger)
    → get k s.accounts ≡ some old
    → total_money (set_balance k account balance s) +ℤ old.balance ≡ total_money s +ℤ balance
unfolding set_balance total_money total_escrowed
set_balance-total k account old balance s known =
    grind (
      int_laws,
      sum_of-set balance_of k (record account { balance = balance }) old s.accounts known,
    )

pub resolve-total :
    (k : String) (e : Escrow) (status : EscrowStatus) (n : ℕ) (s : Ledger)
    → get k s.escrows ≡ some e
    → is_locked e.status ≡ true
    → is_locked status ≡ false
    → total_money (resolve k e status n s) +ℤ e.amount ≡ total_money s
unfolding resolve total_money total_escrowed
resolve-total k e status n s found is_open done = grind (
  int_laws,
  sum_of-set held k (record e { status = status; resolved_at = some n }) e s.escrows found,
)

pub add_account-total :
    (d : Draws) (a : String) (b : ℤ) (s : Ledger)
    → get a s.accounts ≡ none
    → total_money (add_account d a b s) ≡ total_money s +ℤ b
unfolding add_account total_money total_escrowed new_account
add_account-total d a b s unknown_account =
    grind (int_laws, sum_of-set_new balance_of a (new_account a b d.now) s.accounts unknown_account)

pub open_account-total :
    (d : Draws) (a : String) (b : ℤ) (s : Ledger)
    → get a s.accounts ≡ none
    → total_money (open_account d a b s) ≡ total_money s +ℤ b
unfolding open_account
open_account-total d a b s unknown_account =
    let base = add_account-total d a b s unknown_account in
    elim (Bool-cases (ltb_ℤ (pos 0) b)) [
      | inl more ↦ rw (more, append_tx-total) base
      | inr zero_balance ↦ rw zero_balance base
    ]

pub add_credit-total :
    (d : Draws) (k : String) (account : Account) (amount : ℤ) (r : String) (s : Ledger)
    → get k s.accounts ≡ some account
    → total_money (add_credit d k account amount r s) ≡ total_money s +ℤ amount
unfolding add_credit total_money total_escrowed append_tx
add_credit-total d k account amount r s known =
    grind (int_laws, set_balance-total k account account (account.balance +ℤ amount) s known)

pub lock_funds-total :
    (d : Draws) (p : String) (payer : Account) (amount : ℤ) (t : String) (s : Ledger)
    → get p s.accounts ≡ some payer
    → get d.escrow_id s.escrows ≡ none
    → total_money (lock_funds d p payer amount t s) ≡ total_money s
unfolding lock_funds total_money total_escrowed append_tx set_balance
lock_funds-total d p payer amount t s known fresh = grind (
  int_laws,
  sum_of-set balance_of p (record payer { balance = payer.balance -ℤ amount }) payer s.accounts
      known,
  sum_of-set_new held d.escrow_id (new_escrow d p amount t) s.escrows fresh,
)

-- A resolution conserves what its payments have added, but for `z`.
resolve-total_short :
    (k : String) (e : Escrow) (status : EscrowStatus) (n : ℕ) (z : ℤ) (s t : Ledger)
    → get k t.escrows ≡ some e
    → is_locked e.status ≡ true
    → is_locked status ≡ false
    → total_money t +ℤ z ≡ total_money s +ℤ e.amount
    → total_money (resolve k e status n t) +ℤ z ≡ total_money s
resolve-total_short k e status n z s t found is_open done paid =
    grind (int_laws, resolve-total k e status n t found is_open done)

resolve-total_paid :
    (k : String) (e : Escrow) (status : EscrowStatus) (n : ℕ) (s t : Ledger)
    → get k t.escrows ≡ some e
    → is_locked e.status ≡ true
    → is_locked status ≡ false
    → total_money t ≡ total_money s +ℤ e.amount
    → total_money (resolve k e status n t) ≡ total_money s
resolve-total_paid k e status n s t found is_open done paid =
    grind (int_laws, resolve-total k e status n t found is_open done)

append_tx-total_paid :
    (k : String) (tx : Tx) (t : Ledger) (x : ℤ)
    → total_money t ≡ x
    → total_money (append_tx k tx t) ≡ x
append_tx-total_paid k tx t x h = append_tx-total k tx t ∙ h

pub pay_out-total :
    (d : Draws) (k : String) (e : Escrow) (recipient_id : String) (recipient : Account) (s : Ledger)
    → get k s.escrows ≡ some e
    → is_locked e.status ≡ true
    → get recipient_id s.accounts ≡ some recipient
    → total_money (pay_out d k e recipient_id recipient s) ≡ total_money s
unfolding pay_out append_tx set_balance
pay_out-total d k e recipient_id recipient s found is_open known =
    resolve-total_paid k e released d.now_last s _ found is_open refl (
      append_tx-total_paid recipient_id _ _ _ (
        grind (
          int_laws,
          set_balance-total recipient_id recipient recipient (recipient.balance +ℤ e.amount) s
              known,
        )))

pub split_out-total :
    (d : Draws) (k : String) (e : Escrow) (w : String) (worker : Account) (x : ℤ) (p : String)
    (poster : Account) (y : ℤ) (s : Ledger)
    → get k s.escrows ≡ some e
    → is_locked e.status ≡ true
    → get w s.accounts ≡ some worker
    → get p s.accounts ≡ some poster
    → w ≢ p
    → x +ℤ y ≡ e.amount
    → total_money (split_out d k e w worker x p poster y s) ≡ total_money s
unfolding split_out append_tx set_balance
split_out-total d k e w worker x p poster y s found is_open w_known p_known apart shares =
    let paid = set_balance w worker (worker.balance +ℤ x) s in
    resolve-total_paid k e split d.now_last s _ found is_open refl (
      append_tx-total_paid p _ _ _ (
        append_tx-total_paid w _ _ _ (
          grind (
            int_laws,
            set_balance-total w worker worker (worker.balance +ℤ x) s w_known,
            set_balance-total p poster poster (poster.balance +ℤ y) paid,
            get-set w p (record worker { balance = worker.balance +ℤ x }) s.accounts,
            eq_iff w p,
          ))))

-- One account that plays both parts is paid the poster's share alone.
pub split_out-total_same :
    (d : Draws) (k : String) (e : Escrow) (w : String) (worker : Account) (x : ℤ) (y : ℤ)
    (s : Ledger)
    → get k s.escrows ≡ some e
    → is_locked e.status ≡ true
    → get w s.accounts ≡ some worker
    → x +ℤ y ≡ e.amount
    → total_money (split_out d k e w worker x w worker y s) +ℤ x ≡ total_money s
unfolding split_out append_tx set_balance
split_out-total_same d k e w worker x y s found is_open known shares =
    let paid = set_balance w worker (worker.balance +ℤ x) s in
    let half_paid = record worker { balance = worker.balance +ℤ x } in
    resolve-total_short k e split d.now_last x s _ found is_open refl (
      ap (λ m. m +ℤ x) (append_tx-total_paid w _ _ _ (append_tx-total_paid w _ _ _ refl))
      ∙ grind (
        int_laws,
        set_balance-total w worker worker (worker.balance +ℤ x) s known,
        set_balance-total w worker half_paid (worker.balance +ℤ y) paid
            (get-set_self w half_paid s.accounts),
      ))
