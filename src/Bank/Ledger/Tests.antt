-- ===== src/Bank/Ledger/Tests.antt =====
-- Runs of the ledger on small inputs, and the theorems about it at such inputs.
use mathlib.Core.Bool.{false≢true}
use agent_economy.Shared.{
  String, ◌≡◌, refl, ◌≢◌, ap, Option, some, none, List, [], ◌∷◌, arith, text_eq, pair_eq, eq_iff,
}
use agent_economy.Shared.Int.{pos, ◌+ℤ◌, ◌-ℤ◌, ◌*ℤ◌, floor_div}
use agent_economy.Shared.Dict.{get, set, sum_of}
use agent_economy.Shared.Action.{ok}
use agent_economy.Bank.Types.{
  Account, Escrow, Ledger, Draws, CreditReceipt, LockReceipt, locked, split, empty,
}
use agent_economy.Bank.Ledger.{
  with_default, append_tx, set_balance, new_tx, new_account, add_account, open_account, add_credit,
  first_credit, repeated_credit, lock_funds, new_lock, repeated_lock, create_account, get_account,
  credit_account, escrow_lock, escrow_release, escrow_split, worker_share, total_escrowed,
}
use agent_economy.Bank.Ledger.Invariant.{IsValid, new_escrow}
use agent_economy.Bank.Ledger.Conservation.{total_money}
use agent_economy.Bank.Ledger.Effects.{
  Does, Locks, Released, Divided, escrow_lock_effect, escrow_release_effect, escrow_split_effect,
}
use agent_economy.Bank.Ledger.Outcomes.{escrow_split_same}
use agent_economy.Bank.Ledger.History.{
  Call, create, credit, lock, release, perform, run, AllFresh, total_cash, run-total, empty-IsValid,
}
use agent_economy.Bank.Ledger.Resolution.{PaysFrom, escrow_paid_once}
use agent_economy.Bank.Ledger.Audit.{IsAudited, run-IsAudited, empty-IsAudited}

abbrev draws : Draws
draws = record {
  escrow_id = "esc-1";
  tx_id = "tx-1";
  poster_tx_id = "tx-2";
  now = 10;
  now_again = 11;
  now_last = 12;
}

abbrev later_draws : Draws
later_draws = record draws { escrow_id = "esc-2"; tx_id = "tx-3"; now = 20 }

abbrev opening : List Call
opening =
    create draws "alice" (pos 100)
    ∷ create draws "bob" (pos 0)
    ∷ credit draws "bob" (pos 5) "salary"
    ∷ lock draws "alice" (pos 31) "task"
    ∷ []

bob_is_not_alice : ◌≢◌ {A = String} "bob" "alice"
bob_is_not_alice p = false≢true ((eq_iff "bob" "alice").1 p)

abbrev book : Ledger
book = run opening empty

opening-AllFresh : AllFresh opening empty
unfolding create_account open_account add_account credit_account first_credit add_credit append_tx
    set_balance with_default new_account get_account get set
opening-AllFresh = (tt, (tt, (tt, (refl, tt))))

run-total_example :
    IsValid (run opening empty)
    × (total_money (run opening empty) ≡ total_money empty +ℤ total_cash opening empty)
run-total_example =
    run-total opening empty empty-IsValid opening-AllFresh (tt, (tt, (tt, (tt, tt))))

book-IsValid : IsValid book
book-IsValid = run-total_example.0

run-IsAudited_example : IsAudited (run opening empty)
run-IsAudited_example = run-IsAudited opening empty empty-IsAudited (tt, (tt, (tt, (tt, tt))))

-- Everything a call computes with.
abbrev lookups : Ledger → String → String → Option Account × Option Escrow
lookups s a k = (get a s.accounts, get k s.escrows)

abbrev alice : Account
alice = record { account_id = "alice"; balance = pos 69; created_at = 10 }

abbrev bob : Account
bob = record { account_id = "bob"; balance = pos 5; created_at = 10 }

abbrev held_escrow : Escrow
held_escrow = new_escrow draws "alice" (pos 31) "task"

book-lookups :
    (lookups book "alice" "esc-1" ≡ (some alice, some held_escrow))
    × (get "bob" book.accounts ≡ some bob)
    × (total_escrowed book ≡ pos 31)
unfolding run create_account open_account add_account credit_account first_credit add_credit
    append_tx set_balance with_default new_account get_account escrow_lock new_lock lock_funds ◌+ℤ◌
    ◌-ℤ◌ get set total_escrowed sum_of
book-lookups = (refl, refl, refl)

later-fresh : get "esc-2" book.escrows ≡ none
unfolding run create_account open_account add_account credit_account first_credit add_credit
    append_tx set_balance with_default new_account get_account escrow_lock new_lock lock_funds ◌+ℤ◌
    ◌-ℤ◌ get set
later-fresh = refl

escrow_lock_effect_example :
    Does book
      (Locks later_draws "alice" (pos 69) "other task" book)
      (escrow_lock later_draws "alice" (pos 69) "other task" book)
escrow_lock_effect_example =
    escrow_lock_effect later_draws "alice" (pos 69) "other task" book book-IsValid later-fresh

escrow_release_effect_example :
    Does book
      (Released later_draws "esc-1" "bob" book)
      (escrow_release later_draws "esc-1" "bob" book)
escrow_release_effect_example = escrow_release_effect later_draws "esc-1" "bob" book book-IsValid

escrow_split_effect_example :
    Does book
      (Divided later_draws "esc-1" "bob" (pos 33) "alice" book)
      (escrow_split later_draws "esc-1" "bob" (pos 33) "alice" book)
escrow_split_effect_example =
    escrow_split_effect later_draws "esc-1" "bob" (pos 33) "alice" book book-IsValid
      bob_is_not_alice

escrow_split_same_example :
    let (r, t) = escrow_split later_draws "esc-1" "bob" (pos 33) "bob" book in
    (r
      ≡ ok (record {
        escrow_id = "esc-1";
        status = split;
        worker_amount = worker_share (pos 31) (pos 33);
        poster_amount = pos 31 -ℤ worker_share (pos 31) (pos 33);
        worker_pct = pos 33;
      }))
    × (get "bob" t.accounts
        ≡ some (record bob { balance = bob.balance +ℤ (pos 31 -ℤ worker_share (pos 31) (pos 33)) }))
    × (get "esc-1" t.escrows
        ≡ some (record held_escrow { status = split; resolved_at = some later_draws.now_last }))
    × (total_money t +ℤ worker_share (pos 31) (pos 33) ≡ total_money book)
escrow_split_same_example =
    escrow_split_same later_draws "esc-1" "bob" (pos 33) book held_escrow bob
      (ap (λ (o : Option Account × Option Escrow). o.1) book-lookups.0) refl book-lookups.1
      (omega arith) (omega arith)

worker_share_at_33 : worker_share (pos 31) (pos 33) ≡ pos 10
unfolding worker_share floor_div ◌*ℤ◌
worker_share_at_33 = refl

abbrev salary_receipt : CreditReceipt
salary_receipt = record { tx_id = "tx-3"; balance_after = pos 12 }

abbrev after_bonus : Ledger
after_bonus = (credit_account later_draws "bob" (pos 7) "bonus" book).1

bonus-ok : credit_account later_draws "bob" (pos 7) "bonus" book ≡ (ok salary_receipt, after_bonus)
unfolding run create_account open_account add_account credit_account first_credit add_credit
    append_tx set_balance with_default new_account get_account escrow_lock new_lock lock_funds ◌+ℤ◌
    ◌-ℤ◌ get set new_tx repeated_credit
bonus-ok = refl

abbrev task_receipt : LockReceipt
task_receipt = record {
  escrow_id = "esc-2";
  amount = pos 60;
  task_id = "other task";
  status = locked;
}

abbrev after_lock : Ledger
after_lock = (escrow_lock later_draws "alice" (pos 60) "other task" book).1

lock-ok : escrow_lock later_draws "alice" (pos 60) "other task" book ≡ (ok task_receipt, after_lock)
unfolding run create_account open_account add_account credit_account first_credit add_credit
    append_tx set_balance with_default new_account get_account escrow_lock new_lock lock_funds ◌+ℤ◌
    ◌-ℤ◌ get set new_tx repeated_lock
lock-ok = refl

abbrev payout : Call
payout = release later_draws "esc-1" "bob"

payout-paid : PaysFrom "esc-1" payout book
unfolding run create_account open_account add_account credit_account first_credit add_credit
    append_tx set_balance with_default new_account get_account escrow_lock new_lock lock_funds ◌+ℤ◌
    ◌-ℤ◌ get set escrow_release
payout-paid = (refl, tt)

escrow_paid_once_example :
    ¬ PaysFrom "esc-1" payout
      (run (credit later_draws "bob" (pos 7) "bonus" ∷ []) (perform payout book))
escrow_paid_once_example =
    escrow_paid_once "esc-1" payout payout (credit later_draws "bob" (pos 7) "bonus" ∷ []) book
      payout-paid (tt, tt)
