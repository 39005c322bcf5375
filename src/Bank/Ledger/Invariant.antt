-- ===== src/Bank/Ledger/Invariant.antt =====
-- What holds of every ledger between two calls.
use agent_economy.Shared.{
  ℕ, String, ◌≡◌, ◌≢◌, Option, none, some, arith, text_eq, pair_eq, ◌==◌, if◌then◌else◌, eq_iff,
  Bool-cases, inl, inr,
}
use agent_economy.Shared.Int.{ℤ, pos, ◌+ℤ◌, ◌-ℤ◌, ◌≤ℤ◌, ltb_ℤ, int_laws}
use agent_economy.Shared.Dict.{get, set, get-set, get-pop}
use agent_economy.Bank.Types.{
  Account, Tx, Escrow, EscrowStatus, Ledger, Draws, credit, locked, released, split,
}
use agent_economy.Bank.Ledger.{
  append_tx, set_balance, new_account, new_tx, add_account, open_account, add_credit, lock_funds,
  resolve, pay_out, split_out,
}

-- The escrow is there, locked, and of this payer and task.
abbrev pub Holds : String → String → Option Escrow → Type 0
Holds p t none = ⊥
Holds p t (some e) = (e.status ≡ locked) × (e.payer_account_id ≡ p) × (e.task_id ≡ t)

pub record IsValid (s : Ledger) : Type 0 where
  -- No account is overdrawn.
  pub solvent : (k : String) (a : Account) → get k s.accounts ≡ some a → pos 0 ≤ℤ a.balance
  -- An escrow holds a positive amount.
  pub funded : (k : String) (e : Escrow) → get k s.escrows ≡ some e → pos 1 ≤ℤ e.amount
  -- The index leads to a locked escrow of that payer and task.
  pub indexed :
      (p t k : String) → get (p, t) s.locked_escrow_by_task ≡ some k → Holds p t (get k s.escrows)
  -- Every locked escrow is in the index, so a payer and a task have at most one.
  pub listed :
      (k : String) (e : Escrow)
      → get k s.escrows ≡ some e
      → e.status ≡ locked
      → get (e.payer_account_id, e.task_id) s.locked_escrow_by_task ≡ some k

-- What `escrow_lock` writes under its new identifier.
abbrev pub new_escrow : Draws → String → ℤ → String → Escrow
new_escrow d p amount t = record {
  escrow_id = d.escrow_id;
  payer_account_id = p;
  amount = amount;
  task_id = t;
  status = locked;
  created_at = d.now;
  resolved_at = none;
}

pub lock_funds-IsValid :
    (d : Draws) (p : String) (payer : Account) (amount : ℤ) (t : String) (s : Ledger)
    → IsValid s
    → get d.escrow_id s.escrows ≡ none
    → get (p, t) s.locked_escrow_by_task ≡ none
    → pos 1 ≤ℤ amount
    → amount ≤ℤ payer.balance
    → IsValid (lock_funds d p payer amount t s)
unfolding lock_funds append_tx set_balance
lock_funds-IsValid d p payer amount t s v fresh unlocked positive cover = record {
  solvent = λ k a h. grind (
    int_laws,
    get-set p k (record payer { balance = payer.balance -ℤ amount }) s.accounts,
    v.solvent k a,
  );
  funded = λ k e h. ground (arith, at_escrow k, v.funded k e);
  indexed = λ q u k h. ground (
    arith,
    at_escrow k,
    get-set (p, t) (q, u) d.escrow_id s.locked_escrow_by_task,
    v.indexed q u k,
    eq_iff d.escrow_id k,
    eq_iff p q,
    eq_iff t u,
  );
  listed = λ k e h l. ground (
    arith,
    at_escrow k,
    get-set (p, t) (e.payer_account_id, e.task_id) d.escrow_id s.locked_escrow_by_task,
    v.listed k e,
    eq_iff d.escrow_id k,
    eq_iff p e.payer_account_id,
    eq_iff t e.task_id,
  );
}
  where
    at_escrow :
        (k : String)
        → get k (set d.escrow_id (new_escrow d p amount t) s.escrows)
          ≡ (if d.escrow_id == k then some (new_escrow d p amount t) else get k s.escrows)
    at_escrow k = get-set d.escrow_id k (new_escrow d p amount t) s.escrows

pub append_tx-IsValid : (k : String) (tx : Tx) (s : Ledger) → IsValid s → IsValid (append_tx k tx s)
unfolding append_tx
append_tx-IsValid k tx s v = record {
  solvent = v.solvent;
  funded = v.funded;
  indexed = v.indexed;
  listed = v.listed;
}

pub set_balance-IsValid :
    (k : String) (account : Account) (balance : ℤ) (s : Ledger)
    → IsValid s
    → pos 0 ≤ℤ balance
    → IsValid (set_balance k account balance s)
unfolding set_balance
set_balance-IsValid k account balance s v positive = record {
  solvent = λ j a h.
      ground (arith, get-set k j (record account { balance = balance }) s.accounts, v.solvent j a);
  funded = v.funded;
  indexed = v.indexed;
  listed = v.listed;
}

pub resolve-IsValid :
    (k : String) (e : Escrow) (status : EscrowStatus) (n : ℕ) (s : Ledger)
    → IsValid s
    → get k s.escrows ≡ some e
    → e.status ≡ locked
    → status ≢ locked
    → IsValid (resolve k e status n s)
unfolding resolve
resolve-IsValid k e status n s v found open_one done = record {
  solvent = v.solvent;
  funded = λ j x h. ground (arith, at_escrow j, v.funded j x, v.funded k e);
  indexed = λ q u j h. ground (
    arith,
    at_escrow j,
    get-pop (e.payer_account_id, e.task_id) (q, u) s.locked_escrow_by_task,
    v.indexed q u j,
    eq_iff k j,
    eq_iff e.payer_account_id q,
    eq_iff e.task_id u,
  );
  listed = λ j x h l. ground (
    arith,
    at_escrow j,
    get-pop (e.payer_account_id, e.task_id) (x.payer_account_id, x.task_id) s.locked_escrow_by_task,
    v.listed j x,
    v.listed k e,
    eq_iff k j,
    eq_iff e.payer_account_id x.payer_account_id,
    eq_iff e.task_id x.task_id,
  );
}
  where
    resolved : Escrow
    resolved = record e { status = status; resolved_at = some n }

    at_escrow :
        (j : String)
        → get j (set k resolved s.escrows) ≡ (if k == j then some resolved else get j s.escrows)
    at_escrow j = get-set k j resolved s.escrows

pub add_account-IsValid :
    (d : Draws) (a : String) (b : ℤ) (s : Ledger)
    → IsValid s
    → pos 0 ≤ℤ b
    → IsValid (add_account d a b s)
unfolding add_account new_account
add_account-IsValid d a b s v positive = record {
  solvent = λ j x h. ground (arith, get-set a j (new_account a b d.now) s.accounts, v.solvent j x);
  funded = v.funded;
  indexed = v.indexed;
  listed = v.listed;
}

pub open_account-IsValid :
    (d : Draws) (a : String) (b : ℤ) (s : Ledger)
    → IsValid s
    → pos 0 ≤ℤ b
    → IsValid (open_account d a b s)
unfolding open_account
open_account-IsValid d a b s v positive =
    let base = add_account-IsValid d a b s v positive in
    elim (Bool-cases (ltb_ℤ (pos 0) b)) [
      | inl more ↦ rw more (append_tx-IsValid a _ _ base)
      | inr zero_balance ↦ rw zero_balance base
    ]

pub add_credit-IsValid :
    (d : Draws) (k : String) (account : Account) (amount : ℤ) (r : String) (s : Ledger)
    → IsValid s
    → get k s.accounts ≡ some account
    → pos 1 ≤ℤ amount
    → IsValid (add_credit d k account amount r s)
unfolding add_credit
add_credit-IsValid d k account amount r s v found positive =
    let raised =
      set_balance-IsValid k account (account.balance +ℤ amount) s v
        (omega (int_laws, v.solvent k account found)) in
    let logged =
      append_tx-IsValid k (new_tx d.tx_id credit amount (account.balance +ℤ amount) r d.now) _
        raised in
    record {
      solvent = logged.solvent;
      funded = logged.funded;
      indexed = logged.indexed;
      listed = logged.listed;
    }

pub pay_out-IsValid :
    (d : Draws) (k : String) (e : Escrow) (recipient_id : String) (recipient : Account) (s : Ledger)
    → IsValid s
    → get k s.escrows ≡ some e
    → e.status ≡ locked
    → get recipient_id s.accounts ≡ some recipient
    → IsValid (pay_out d k e recipient_id recipient s)
unfolding pay_out set_balance append_tx
pay_out-IsValid d k e recipient_id recipient s v found is_open known =
    resolve-IsValid k e released d.now_last _
      (append_tx-IsValid recipient_id _ _ (
        set_balance-IsValid recipient_id recipient (recipient.balance +ℤ e.amount) s v
          (omega (int_laws, v.solvent recipient_id recipient known, v.funded k e found))))
      found is_open (λ p. cc)

pub split_out-IsValid :
    (d : Draws) (k : String) (e : Escrow) (w : String) (worker : Account) (x : ℤ) (p : String)
    (poster : Account) (y : ℤ) (s : Ledger)
    → IsValid s
    → get k s.escrows ≡ some e
    → e.status ≡ locked
    → get w s.accounts ≡ some worker
    → get p s.accounts ≡ some poster
    → pos 0 ≤ℤ x
    → pos 0 ≤ℤ y
    → IsValid (split_out d k e w worker x p poster y s)
unfolding split_out set_balance append_tx
split_out-IsValid d k e w worker x p poster y s v found is_open w_known p_known x_pos y_pos =
    resolve-IsValid k e split d.now_last _
      (append_tx-IsValid p _ _ (
        append_tx-IsValid w _ _ (
          set_balance-IsValid p poster (poster.balance +ℤ y) _
            (set_balance-IsValid w worker (worker.balance +ℤ x) s v
              (omega (int_laws, v.solvent w worker w_known)))
            (omega (int_laws, v.solvent p poster p_known)))))
      found is_open (λ q. cc)
