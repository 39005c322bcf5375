-- ===== src/Bank/Requests/Tests.antt =====
-- Requests to lock funds at the Central Bank, run on small inputs.
use agent_economy.Shared.{String, ◌≡◌, refl, some, none, [], ◌∷◌, true, text_eq}
use agent_economy.Shared.Int.{pos}
use agent_economy.Shared.Dict.{get}
use agent_economy.Shared.Value.{str, int, Object}
use agent_economy.Shared.Action.{Result, ok, err, service_error, forbidden, invalid_amount}
use agent_economy.Bank.Types.{Ledger, Draws, empty}
use agent_economy.Shared.Runs.{Ends}
use agent_economy.Bank.Requests.Signers.{
  Locks, lock_request-Locks, Releases, release_request-Releases,
}
use agent_economy.Bank.Requests.{
  BankState, Signed, not_ready, lock_request, release_request, verified_token, verify_jws_token,
}

abbrev draws : Draws
draws = record {
  escrow_id = "esc-1";
  tx_id = "tx-1";
  poster_tx_id = "tx-2";
  now = 10;
  now_again = 11;
  now_last = 12;
}

abbrev payload : Object
payload = ("action", str "escrow_lock") ∷ ("agent_id", str "alice") ∷ ("amount", int (pos 0)) ∷ []

abbrev signed_by : String → String → Result Signed
signed_by agent_id token = ok (record { valid = true; agent_id = agent_id; payload = some payload })

abbrev bank : BankState
bank = record {
  verify_jws = some (signed_by "alice");
  has_ledger = true;
  live_platform_id = none;
  platform_agent_id = "platform";
}

abbrev bank_with_bob : BankState
bank_with_bob = record bank { verify_jws = some (signed_by "bob") }

abbrev bank_alone : BankState
bank_alone = record bank { verify_jws = none }

abbrev body : Object
body = ("token", str "a.b.c") ∷ []

zero_amount :
    lock_request bank draws (some body) empty ≡ (err (service_error invalid_amount 400), empty)
unfolding lock_request verified_token verify_jws_token get
zero_amount = refl

another_signer :
    lock_request bank_with_bob draws (some body) empty ≡ (err (service_error forbidden 403), empty)
unfolding lock_request verified_token verify_jws_token get
another_signer = refl

no_identity_client : lock_request bank_alone draws (some body) empty ≡ (err not_ready, empty)
unfolding lock_request verified_token verify_jws_token get
no_identity_client = refl

abbrev stake : Object
stake =
    ("action", str "escrow_lock")
    ∷ ("agent_id", str "alice")
    ∷ ("amount", int (pos 4))
    ∷ ("task_id", str "task")
    ∷ []

abbrev bank_with_stake : BankState
bank_with_stake = record bank {
  verify_jws =
      some (λ token. ok (record { valid = true; agent_id = "alice"; payload = some stake }));
}

abbrev purse : Ledger
purse = record empty {
  accounts = ("alice", record { account_id = "alice"; balance = pos 9; created_at = 1 }) ∷ [];
}

lock_request-Locks_example :
    Ends
      (λ t. t ≡ purse)
      (λ receipt t. Locks bank_with_stake draws (some body) purse receipt t)
      (lock_request bank_with_stake draws (some body) purse)
lock_request-Locks_example = lock_request-Locks bank_with_stake draws (some body) purse

abbrev payout : Object
payout = ("action", str "escrow_release") ∷ ("recipient_account_id", str "alice") ∷ []

abbrev bank_with_payout : BankState
bank_with_payout = record bank {
  verify_jws =
      some (λ token. ok (record { valid = true; agent_id = "platform"; payload = some payout }));
}

release_request-Releases_example :
    Ends
      (λ t. t ≡ purse)
      (λ receipt t. Releases bank_with_payout draws "esc-1" (some body) purse receipt t)
      (release_request bank_with_payout draws "esc-1" (some body) purse)
release_request-Releases_example =
    release_request-Releases bank_with_payout draws "esc-1" (some body) purse
