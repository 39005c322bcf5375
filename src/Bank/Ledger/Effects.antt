-- ===== src/Bank/Ledger/Effects.antt =====
-- What `escrow_lock`, `escrow_release` and `escrow_split` write where they succeed.
use agent_economy.Shared.{
  String, ◌≡◌, refl, ◌≢◌, ◌⊎◌, none, some, arith, text_eq, pair_eq, inl, inr, Option-cases,
}
use agent_economy.Shared.Int.{ℤ, pos, ◌+ℤ◌, ◌-ℤ◌, ◌*ℤ◌, ◌≤ℤ◌}
use agent_economy.Shared.Dict.{get, set, pop}
use agent_economy.Shared.Action.{Result, ok, err}
use agent_economy.Bank.Types.{
  Account, Escrow, Ledger, Draws, LockReceipt, ReleaseReceipt, SplitReceipt, locked, released,
  split,
}
use agent_economy.Bank.Ledger.{
  append_tx, set_balance, get_account, escrow_lock, new_lock, repeated_lock, lock_funds,
  escrow_release, escrow_split, worker_share, pay_out, split_out, resolve,
}
use agent_economy.Bank.Ledger.Invariant.{IsValid, new_escrow}
use agent_economy.Bank.Ledger.Share.{worker_share_bounds}
use agent_economy.Bank.Ledger.Conservation.{total_money}
use agent_economy.Bank.Ledger.Outcomes.{
  Settles, escrow_lock-Settles, escrow_release-Settles, escrow_split-Settles,
}

-- A release that has paid the escrow to its recipient.
pub record Released (d : Draws) (k r : String) (s : Ledger) (receipt : ReleaseReceipt) (t : Ledger)
    : Type 0 where
  pub escrow : Escrow
  pub found : get k s.escrows ≡ some escrow
  pub was_locked : escrow.status ≡ locked
  pub recipient : Account
  pub known : get r s.accounts ≡ some recipient
  pub accounts :
      t.accounts
      ≡ set r (record recipient { balance = recipient.balance +ℤ escrow.amount }) s.accounts
  pub escrows :
      t.escrows
      ≡ set k (record escrow { status = released; resolved_at = some d.now_last }) s.escrows
  pub index :
      t.locked_escrow_by_task
      ≡ pop (escrow.payer_account_id, escrow.task_id) s.locked_escrow_by_task
  pub answer :
      receipt ≡ record { escrow_id = k; status = released; amount = escrow.amount; recipient = r }

-- A split that has paid the two shares.
pub record Divided (d : Draws) (k w : String) (pct : ℤ) (p : String) (s : Ledger)
    (receipt : SplitReceipt) (t : Ledger) : Type 0 where
  pub escrow : Escrow
  pub found : get k s.escrows ≡ some escrow
  pub was_locked : escrow.status ≡ locked
  pub at_least : pos 0 ≤ℤ pct
  pub at_most : pct ≤ℤ pos 100
  pub worker : Account
  pub worker_known : get w s.accounts ≡ some worker
  pub poster : Account
  pub poster_known : get p s.accounts ≡ some poster
  pub answer : receipt ≡ record {
    escrow_id = k;
    status = split;
    worker_amount = worker_share escrow.amount pct;
    poster_amount = escrow.amount -ℤ worker_share escrow.amount pct;
    worker_pct = pct;
  }
  -- The worker's share is the percentage of the amount, rounded down.
  pub at_most_exact : receipt.worker_amount *ℤ pos 100 ≤ℤ escrow.amount *ℤ pct
  pub above_exact : escrow.amount *ℤ pct +ℤ pos 1 ≤ℤ receipt.worker_amount *ℤ pos 100 +ℤ pos 100
  pub accounts :
      t.accounts
      ≡ set p
          (record poster { balance = poster.balance +ℤ receipt.poster_amount })
          (set w (record worker { balance = worker.balance +ℤ receipt.worker_amount }) s.accounts)
  pub escrows :
      t.escrows ≡ set k (record escrow { status = split; resolved_at = some d.now_last }) s.escrows
  pub index :
      t.locked_escrow_by_task
      ≡ pop (escrow.payer_account_id, escrow.task_id) s.locked_escrow_by_task

-- A lock that has debited the payer and stored the escrow.
pub record Locked (d : Draws) (p : String) (amount : ℤ) (task : String) (s : Ledger)
    (receipt : LockReceipt) (t : Ledger) : Type 0 where
  pub payer : Account
  pub known : get p s.accounts ≡ some payer
  pub positive : pos 1 ≤ℤ amount
  pub covered : amount ≤ℤ payer.balance
  pub unlocked : get (p, task) s.locked_escrow_by_task ≡ none
  pub accounts : t.accounts ≡ set p (record payer { balance = payer.balance -ℤ amount }) s.accounts
  pub escrows : t.escrows ≡ set d.escrow_id (new_escrow d p amount task) s.escrows
  pub index : t.locked_escrow_by_task ≡ set (p, task) d.escrow_id s.locked_escrow_by_task
  pub answer :
      receipt ≡ record { escrow_id = d.escrow_id; amount = amount; task_id = task; status = locked }

-- The same lock again: the receipt of the escrow that is there, and nothing is written.
pub record LockedBefore (p : String) (amount : ℤ) (task : String) (s : Ledger)
    (receipt : LockReceipt) (t : Ledger) : Type 0 where
  pub escrow_id : String
  pub indexed : get (p, task) s.locked_escrow_by_task ≡ some escrow_id
  pub escrow : Escrow
  pub found : get escrow_id s.escrows ≡ some escrow
  pub same_amount : receipt.amount ≡ escrow.amount
  pub same_id : receipt.escrow_id ≡ escrow.escrow_id
  pub asked : escrow.amount ≡ amount
  pub unchanged : t ≡ s

-- A call that raises leaves the ledger as it was; one that returns has made its writes, and it leaves
-- a valid ledger with the same money in it.
abbrev pub Does : {A : Type 0} → Ledger → (A → Ledger → Type 0) → Result A × Ledger → Type 0
Does s Writes (err _, t) = t ≡ s
Does s Writes (ok receipt, t) =
    IsValid t × (total_money t ≡ total_money s +ℤ pos 0) × Writes receipt t

does :
    {A : Type 0} (s : Ledger) (Writes : A → Ledger → Type 0) (o : Result A × Ledger)
    → ((receipt : A) (t : Ledger) → o ≡ (ok receipt, t) → Writes receipt t)
    → Settles s (pos 0) o
    → Does s Writes o
does s Writes (err e, t) h same = same
does s Writes (ok receipt, t) h (valid, total) = (valid, total, h receipt t refl)

escrow_release-ok :
    (d : Draws) (k r : String) (s : Ledger) (receipt : ReleaseReceipt) (t : Ledger)
    → escrow_release d k r s ≡ (ok receipt, t)
    → Released d k r s receipt t
unfolding escrow_release get_account pay_out resolve append_tx set_balance
escrow_release-ok d k r s receipt t h = elim (Option-cases (get k s.escrows)) [
  | inl no_escrow ↦ absurd (ground arith)
  | inr (e, found) ↦ elim (Option-cases (get r s.accounts)) [
    | inl unknown ↦ absurd (ground arith)
    | inr (recipient, known) ↦ record {
      escrow = e;
      found = found;
      was_locked = ground arith;
      recipient = recipient;
      known = known;
      accounts = ground arith;
      escrows = ground arith;
      index = ground arith;
      answer = ground arith;
    }
  ]
]

-- A release raises and leaves the ledger as it was; or the escrow was locked, and its whole amount is
-- added to the balance of the recipient, the escrow is marked as released and leaves the index, the
-- receipt says so, no other account and no other escrow has changed, and the ledger is valid with the
-- same money in it. The ledger was valid before.
pub escrow_release_effect :
    (d : Draws) (k r : String) (s : Ledger)
    → IsValid s
    → Does s (Released d k r s) (escrow_release d k r s)
escrow_release_effect d k r s v =
    does s (Released d k r s) (escrow_release d k r s) (escrow_release-ok d k r s)
      (escrow_release-Settles d k r s v)

escrow_split-ok :
    (d : Draws) (k w : String) (pct : ℤ) (p : String) (s : Ledger) (receipt : SplitReceipt)
    (t : Ledger)
    → IsValid s
    → escrow_split d k w pct p s ≡ (ok receipt, t)
    → Divided d k w pct p s receipt t
unfolding escrow_split get_account split_out resolve append_tx set_balance
escrow_split-ok d k w pct p s receipt t v h = elim (Option-cases (get k s.escrows)) [
  | inl no_escrow ↦ absurd (ground arith)
  | inr (e, found) ↦ elim (Option-cases (get w s.accounts)) [
    | inl no_worker ↦ absurd (ground arith)
    | inr (worker, w_known) ↦ elim (Option-cases (get p s.accounts)) [
      | inl no_poster ↦ absurd (ground arith)
      | inr (poster, p_known) ↦
          let low : pos 0 ≤ℤ pct = ground arith in
          let high : pct ≤ℤ pos 100 = ground arith in
          let positive = v.funded k e found in
          let bounds = worker_share_bounds e.amount pct (omega arith) low high in
          let share : receipt.worker_amount ≡ worker_share e.amount pct = ground arith in
          record {
            escrow = e;
            found = found;
            was_locked = ground arith;
            at_least = low;
            at_most = high;
            at_most_exact = rw share (bounds.2);
            above_exact = rw share (bounds.3);
            worker = worker;
            worker_known = w_known;
            poster = poster;
            poster_known = p_known;
            answer = ground arith;
            accounts = ground arith;
            escrows = ground arith;
            index = ground arith;
          }
    ]
  ]
]

-- A split between two accounts raises and leaves the ledger as it was; or the escrow was locked and
-- the percentage between 0 and 100, the worker's balance has gained that percentage of the amount,
-- rounded down, and the poster's the rest, the escrow is marked as split and leaves the index, the receipt says so, no other account
-- and no other escrow has changed, and the ledger is valid with the same money in it. The ledger was
-- valid before.
pub escrow_split_effect :
    (d : Draws) (k w : String) (pct : ℤ) (p : String) (s : Ledger)
    → IsValid s
    → w ≢ p
    → Does s (Divided d k w pct p s) (escrow_split d k w pct p s)
escrow_split_effect d k w pct p s v apart =
    does s (Divided d k w pct p s) (escrow_split d k w pct p s)
      (λ receipt t h. escrow_split-ok d k w pct p s receipt t v h)
      (escrow_split-Settles d k w pct p s v apart)

-- The receipt of a lock, by whether the task's escrow was there before.
abbrev pub Locks : Draws → String → ℤ → String → Ledger → LockReceipt → Ledger → Type 0
Locks d p amount task s receipt t =
    Locked d p amount task s receipt t ⊎ LockedBefore p amount task s receipt t

escrow_lock-ok :
    (d : Draws) (p : String) (amount : ℤ) (task : String) (s : Ledger) (receipt : LockReceipt)
    (t : Ledger)
    → escrow_lock d p amount task s ≡ (ok receipt, t)
    → Locks d p amount task s receipt t
unfolding escrow_lock get_account new_lock repeated_lock lock_funds append_tx set_balance
escrow_lock-ok d p amount task s receipt t h = elim (Option-cases (get p s.accounts)) [
  | inl unknown ↦ absurd (ground arith)
  | inr (payer, known) ↦ elim (Option-cases (get (p, task) s.locked_escrow_by_task)) [
    | inl unlocked ↦ inl (record {
      payer = payer;
      known = known;
      positive = ground arith;
      covered = ground arith;
      unlocked = unlocked;
      accounts = ground arith;
      escrows = ground arith;
      index = ground arith;
      answer = ground arith;
    })
    | inr (id, there) ↦ elim (Option-cases (get id s.escrows)) [
      | inl missing ↦ absurd (ground arith)
      | inr (e, found) ↦ inr (record {
        escrow_id = id;
        indexed = there;
        escrow = e;
        found = found;
        same_amount = ground arith;
        same_id = ground arith;
        asked = ground arith;
        unchanged = ground arith;
      })
    ]
  ]
]

-- Locking funds raises and leaves the ledger as it was; or the amount is positive and the payer's
-- balance covers it, the balance has lost it, a locked escrow with that payer, amount and task is
-- stored and indexed under the identifier of the receipt, and no other account or escrow has changed;
-- or the payer's task had a locked escrow of that amount, the receipt names it, and nothing has
-- changed. The ledger is valid with the same money in it. It was valid before, and the identifier drawn
-- for the escrow was unused.
pub escrow_lock_effect :
    (d : Draws) (p : String) (amount : ℤ) (task : String) (s : Ledger)
    → IsValid s
    → get d.escrow_id s.escrows ≡ none
    → Does s (Locks d p amount task s) (escrow_lock d p amount task s)
escrow_lock_effect d p amount task s v fresh =
    does s (Locks d p amount task s) (escrow_lock d p amount task s)
      (escrow_lock-ok d p amount task s) (escrow_lock-Settles d p amount task s v fresh)
