-- ===== src/Bank/Ledger/Outcomes.antt =====
-- Every ledger method either raises and changes nothing, or keeps the invariant and moves a known
-- amount of money in or out of the bank.
use agent_economy.Shared.{
  String, ◌≡◌, ◌≢◌, none, some, true, arith, text_eq, pair_eq, if◌then◌else◌, inl, inr,
  Option-cases,
}
use agent_economy.Shared.Int.{ℤ, pos, ◌+ℤ◌, ◌-ℤ◌, ◌≤ℤ◌, -ℤ_parts, int_laws}
use agent_economy.Shared.Dict.{get, set, contains, get-set_self}
use agent_economy.Shared.Action.{Error, Result, ok, err}
use agent_economy.Bank.Types.{Account, Escrow, EscrowStatus, Ledger, Draws, locked, split}
use agent_economy.Bank.Ledger.{
  create_account, get_account, credit_account, first_credit, repeated_credit, escrow_lock, new_lock,
  repeated_lock, escrow_release, escrow_split, worker_share, is_locked, pay_out, split_out,
  append_tx, set_balance, resolve,
}
use agent_economy.Bank.Ledger.Invariant.{
  IsValid, open_account-IsValid, add_credit-IsValid, lock_funds-IsValid, pay_out-IsValid,
  split_out-IsValid,
}
use agent_economy.Bank.Ledger.Share.{worker_share_bounds}
use agent_economy.Bank.Ledger.Conservation.{
  total_money, open_account-total, add_credit-total, lock_funds-total, pay_out-total,
  split_out-total, split_out-total_same,
}

-- What a call that began at `s` has done, by how it ended: `cash` came into the bank.
abbrev pub Settles : {A : Type 0} → Ledger → ℤ → Result A × Ledger → Type 0
Settles s cash (ok _, t) = IsValid t × (total_money t ≡ total_money s +ℤ cash)
Settles s cash (err _, t) = t ≡ s

no_cash : (x y : ℤ) → x ≡ y → x ≡ y +ℤ pos 0
no_cash x y h = grind int_laws

-- Opening an account raises and changes nothing, or brings in the initial balance.
pub create_account-Settles :
    (d : Draws) (a : String) (b : ℤ) (s : Ledger) → IsValid s → Settles s b (create_account d a b s)
unfolding create_account
create_account-Settles d a b s v =
    ground (arith, open_account-IsValid d a b s v, open_account-total d a b s)

-- A credit raises and changes nothing, or brings in its amount; a repeated reference brings in none.
pub credit_account-Settles :
    (d : Draws) (k : String) (amount : ℤ) (r : String) (s : Ledger)
    → IsValid s
    → Settles s
        (if contains (k, r) s.credit_refs then pos 0 else amount)
        (credit_account d k amount r s)
unfolding credit_account get_account first_credit repeated_credit
credit_account-Settles d k amount r s v = elim (Option-cases (get k s.accounts)) [
  | inl unknown_account ↦ ground arith
  | inr (account, known) ↦ ground (
    arith,
    add_credit-IsValid d k account amount r s v known,
    add_credit-total d k account amount r s known,
    no_cash (total_money s) (total_money s),
  )
]

-- Locking funds raises and changes nothing, or moves them into an escrow within the bank.
pub escrow_lock-Settles :
    (d : Draws) (p : String) (amount : ℤ) (t : String) (s : Ledger)
    → IsValid s
    → get d.escrow_id s.escrows ≡ none
    → Settles s (pos 0) (escrow_lock d p amount t s)
unfolding escrow_lock get_account new_lock repeated_lock
escrow_lock-Settles d p amount t s v fresh = elim (Option-cases (get p s.accounts)) [
  | inl unknown_account ↦ ground arith
  | inr (payer, known) ↦ ground (
    arith,
    lock_funds-IsValid d p payer amount t s v fresh,
    no_cash _ _ (lock_funds-total d p payer amount t s known fresh),
    no_cash (total_money s) (total_money s),
  )
]

is_locked_eq : (e : EscrowStatus) → is_locked e ≡ true → e ≡ locked
is_locked_eq e h = ground arith

-- A release raises and changes nothing, or moves the escrow to its recipient within the bank.
pub escrow_release-Settles :
    (d : Draws) (k r : String) (s : Ledger) → IsValid s → Settles s (pos 0) (escrow_release d k r s)
unfolding escrow_release get_account
escrow_release-Settles d k r s v = elim (Option-cases (get k s.escrows)) [
  | inl no_escrow ↦ ground arith
  | inr (e, found) ↦ elim (Option-cases (get r s.accounts)) [
    | inl unknown_account ↦ ground arith
    | inr (recipient, known) ↦ ground (
      arith,
      is_locked_eq e.status,
      pay_out-IsValid d k e r recipient s v found,
      pay_out-total d k e r recipient s found,
      no_cash (total_money (pay_out d k e r recipient s)) (total_money s),
    )
  ]
]

-- What `escrow_split` pays out adds up to the escrow.
split_shares :
    (amount pct : ℤ) → worker_share amount pct +ℤ (amount -ℤ worker_share amount pct) ≡ amount
split_shares amount pct = grind int_laws

-- A split between two accounts raises and changes nothing, or moves the escrow to the two of them.
pub escrow_split-Settles :
    (d : Draws) (k w : String) (pct : ℤ) (p : String) (s : Ledger)
    → IsValid s
    → w ≢ p
    → Settles s (pos 0) (escrow_split d k w pct p s)
unfolding escrow_split get_account
escrow_split-Settles d k w pct p s v apart = elim (Option-cases (get k s.escrows)) [
  | inl no_escrow ↦ ground arith
  | inr (e, found) ↦ elim (Option-cases (get w s.accounts)) [
    | inl no_worker ↦ ground arith
    | inr (worker, w_known) ↦ elim (Option-cases (get p s.accounts)) [
      | inl no_poster ↦ ground arith
      | inr (poster, p_known) ↦
          let x = worker_share e.amount pct in
          let y = e.amount -ℤ x in
          ground (
            arith,
            is_locked_eq e.status,
            v.funded k e found,
            worker_share_bounds e.amount pct,
            -ℤ_parts e.amount x,
            split_out-IsValid d k e w worker x p poster y s v found,
            split_out-total d k e w worker x p poster y s found,
            split_shares e.amount pct,
            no_cash (total_money (split_out d k e w worker x p poster y s)) (total_money s),
          )
    ]
  ]
]

-- A split that names one account for both parts succeeds, and the worker's share is lost: the
-- account is paid the poster's share alone, while the escrow is marked as split and the receipt names
-- both shares. The escrow is locked, the account exists, and the percentage lies between 0 and 100.
pub escrow_split_same :
    (d : Draws) (k w : String) (pct : ℤ) (s : Ledger) (e : Escrow) (account : Account)
    → get k s.escrows ≡ some e
    → e.status ≡ locked
    → get w s.accounts ≡ some account
    → pos 0 ≤ℤ pct
    → pct ≤ℤ pos 100
    → let (r, t) = escrow_split d k w pct w s in
      (r
        ≡ ok (record {
          escrow_id = k;
          status = split;
          worker_amount = worker_share e.amount pct;
          poster_amount = e.amount -ℤ worker_share e.amount pct;
          worker_pct = pct;
        }))
      × (get w t.accounts
          ≡ some (record account {
            balance = account.balance +ℤ (e.amount -ℤ worker_share e.amount pct);
          }))
      × (get k t.escrows ≡ some (record e { status = split; resolved_at = some d.now_last }))
      × (total_money t +ℤ worker_share e.amount pct ≡ total_money s)
unfolding escrow_split get_account split_out resolve append_tx set_balance
escrow_split_same d k w pct s e account found is_open known low high =
    let x = worker_share e.amount pct in
    let y = e.amount -ℤ x in
    let poorer = record account { balance = account.balance +ℤ x } in
    ground (
      arith,
      split_out-total_same d k e w account x y s found,
      split_shares e.amount pct,
      get-set_self w (record account { balance = account.balance +ℤ y }) (set w poorer s.accounts),
      get-set_self k (record e { status = split; resolved_at = some d.now_last }) s.escrows,
    )

-- A refused lock changes nothing, whatever the ledger.
pub escrow_lock-keeps :
    (d : Draws) (payer : String) (amount : ℤ) (task_id : String) (s t : Ledger) (e : Error)
    → escrow_lock d payer amount task_id s ≡ (err e, t)
    → t ≡ s
unfolding escrow_lock get_account new_lock repeated_lock
escrow_lock-keeps d payer amount task_id s t e h = elim (Option-cases (get payer s.accounts)) [
  | inl unknown_account ↦ ground arith
  | inr (account, known) ↦ ground arith
]

pub escrow_release-keeps :
    (d : Draws) (escrow_id recipient : String) (s t : Ledger) (e : Error)
    → escrow_release d escrow_id recipient s ≡ (err e, t)
    → t ≡ s
unfolding escrow_release get_account
escrow_release-keeps d escrow_id recipient s t e h = elim (Option-cases (get escrow_id s.escrows)) [
  | inl unknown_escrow ↦ ground arith
  | inr (escrow, known) ↦ elim (Option-cases (get recipient s.accounts)) [
    | inl unknown_account ↦ ground arith
    | inr (account, there) ↦ ground arith
  ]
]
