-- ===== src/Bank/Requests/Signers.antt =====
-- Whose money a request to lock funds moves.
use agent_economy.Shared.{
  String, ◌≡◌, refl, Option, some, true, false, not, not-true, text_eq, ◌==◌,
}
use text.Mathlib.TextEquality.{eq_iff}
use agent_economy.Shared.Int.{ℤ, pos, leb_ℤ}
use agent_economy.Shared.Dict.{get}
use agent_economy.Shared.Value.{Object}
use agent_economy.Shared.Action.{
  Result, ok, service_error, forbidden, invalid_amount, other_exception, invalid_json, invalid_jws,
  payload_mismatch,
}
use agent_economy.Shared.Runs.{Runs, run_raise_if, run_or_raise, run_lift, run_bind, run_last, Ends}
use agent_economy.Bank.Types.{Ledger, Draws, LockReceipt, ReleaseReceipt}
use agent_economy.Bank.Ledger.{escrow_lock, escrow_release}
use agent_economy.Bank.Ledger.Outcomes.{escrow_lock-keeps, escrow_release-keeps}
use agent_economy.Bank.Requests.{
  BankState, Signed, not_ready, bad_payload, token_of, text_field, int_field, is_action,
  verify_jws_token, verified_token, lock_request, get_platform_agent_id, platform_payload,
  release_request, mismatches,
}

-- The token of a request, with the answer of the Identity service.
pub record Verified (state : BankState) (body : Option Object) (signed : Signed) : Type 0 where
  pub fields : Object
  pub token : String
  pub verify : String → Result Signed
  pub body_of : body ≡ some fields
  pub token_in : token_of fields ≡ some token
  pub client : state.verify_jws ≡ some verify
  pub answer : verify token ≡ ok signed
  pub valid : signed.valid ≡ true

run_verified :
    (state : BankState) (body : Option Object) (s : Ledger)
    → Runs
        (λ t. t ≡ s)
        s
        (verified_token state body)
        (λ signed t. (t ≡ s) × Verified state body signed)
unfolding verified_token verify_jws_token
run_verified state body s =
    run_or_raise body (service_error invalid_json 400) _ refl (λ fields body_of.
      run_or_raise (token_of fields) (service_error invalid_jws 400) _ refl (λ token token_in.
        run_or_raise state.verify_jws not_ready _ refl (λ verify client.
          run_lift (verify token) _ refl (λ signed answer.
            run_raise_if (not signed.valid) (service_error forbidden 403) _ refl (λ valid. record {
              ends = (
                refl,
                record {
                  fields = fields;
                  token = token;
                  verify = verify;
                  body_of = body_of;
                  token_in = token_in;
                  client = client;
                  answer = answer;
                  valid = not-true signed.valid valid;
                },
              );
            })))))

-- A lock on the account of whoever signed the token.
pub record Locks (state : BankState) (d : Draws) (body : Option Object) (s : Ledger)
    (receipt : LockReceipt) (t : Ledger) : Type 0 where
  pub signed : Signed
  pub payload : Object
  pub amount : ℤ
  pub task_id : String
  pub verified : Verified state body signed
  pub payload_of : signed.payload ≡ some payload
  pub action : is_action "escrow_lock" payload ≡ true
  pub positive : leb_ℤ amount (pos 0) ≡ false
  pub amount_in : int_field "amount" payload ≡ some amount
  pub task_in : text_field "task_id" payload ≡ some task_id
  pub locked : escrow_lock d signed.agent_id amount task_id s ≡ (ok receipt, t)

-- `POST /escrow/lock` either raises and leaves the ledger as it was, or the Identity service has
-- found the request's token valid, and it has done what `escrow_lock` does for a positive amount on the
-- account of the agent that signed the token, with the amount and the task of the signed payload.
pub lock_request-Locks :
    (state : BankState) (d : Draws) (body : Option Object) (s : Ledger)
    → Ends (λ t. t ≡ s) (λ receipt t. Locks state d body s receipt t) (lock_request state d body s)
unfolding lock_request
lock_request-Locks state d body s =
    (run_bind (verified_token state body) _ (run_verified state body s) (λ t same. same)
      (λ signed t seen. rw (seen.0) (
        run_or_raise signed.payload other_exception _ refl (λ payload payload_of.
          run_raise_if (not (is_action "escrow_lock" payload)) bad_payload _ refl (λ acts.
            run_or_raise (text_field "agent_id" payload) bad_payload _ refl (λ agent_id agent_in.
              run_raise_if (not (signed.agent_id == agent_id)) (service_error forbidden 403) _ refl
                (λ own.
                  run_or_raise (int_field "amount" payload) (service_error invalid_amount 400) _
                    refl
                    (λ amount amount_in.
                      run_raise_if (leb_ℤ amount (pos 0)) (service_error invalid_amount 400) _ refl
                        (λ positive.
                          run_or_raise (text_field "task_id" payload) bad_payload _ refl
                            (λ task_id task_in.
                              run_raise_if (not state.has_ledger) not_ready _ refl (λ _.
                                run_last (escrow_lock d agent_id amount task_id)
                                  (λ e u refused.
                                    escrow_lock-keeps d agent_id amount task_id s u e refused)
                                  (λ receipt u done. record {
                                    signed = signed;
                                    payload = payload;
                                    amount = amount;
                                    task_id = task_id;
                                    verified = seen.1;
                                    payload_of = payload_of;
                                    action = not-true _ acts;
                                    positive = positive;
                                    amount_in = amount_in;
                                    task_in = task_in;
                                    locked =
                                        rw ((eq_iff signed.agent_id agent_id).0 (not-true _ own))
                                          done;
                                  })))))))))))).ends

-- A token that the platform's own agent has signed, with a payload for an action.
pub record FromPlatform (state : BankState) (action : String) (body : Option Object)
    (payload : Object) : Type 0 where
  pub signed : Signed
  pub verified : Verified state body signed
  pub platform : get_platform_agent_id state ≡ ok signed.agent_id
  pub payload_of : signed.payload ≡ some payload
  pub action_in : is_action action payload ≡ true

run_platform :
    (state : BankState) (action : String) (body : Option Object) (s : Ledger)
    → Runs
        (λ t. t ≡ s)
        s
        (platform_payload state action body)
        (λ payload t. (t ≡ s) × FromPlatform state action body payload)
unfolding platform_payload
run_platform state action body s =
    run_bind (verified_token state body) _ (run_verified state body s) (λ t same. same)
      (λ signed t seen. rw (seen.0) (
        run_lift (get_platform_agent_id state) _ refl (λ platform_id platform_of.
          run_raise_if (not (signed.agent_id == platform_id)) (service_error forbidden 403) _ refl
            (λ own. run_or_raise signed.payload other_exception _ refl (λ payload payload_of.
              run_raise_if (not (is_action action payload)) bad_payload _ refl (λ acts. record {
                ends = (
                  refl,
                  record {
                    signed = signed;
                    verified = seen.1;
                    platform =
                        rw ((eq_iff signed.agent_id platform_id).0 (not-true _ own)) platform_of;
                    payload_of = payload_of;
                    action_in = not-true _ acts;
                  },
                );
              }))))))

-- A release that the platform has signed.
pub record Releases (state : BankState) (d : Draws) (escrow_id : String) (body : Option Object)
    (s : Ledger) (receipt : ReleaseReceipt) (t : Ledger) : Type 0 where
  pub payload : Object
  pub recipient : String
  pub from_platform : FromPlatform state "escrow_release" body payload
  pub recipient_in : text_field "recipient_account_id" payload ≡ some recipient
  pub matches : mismatches (get "escrow_id" payload) escrow_id ≡ false
  pub released : escrow_release d escrow_id recipient s ≡ (ok receipt, t)

-- `POST /escrow/{escrow_id}/release` either raises and leaves the ledger as it was, or the Identity
-- service has found the request's token valid and signed by the platform's agent, its payload names the
-- action and no other escrow, and it has done what `escrow_release` does for that escrow and the
-- recipient in the payload.
pub release_request-Releases :
    (state : BankState) (d : Draws) (escrow_id : String) (body : Option Object) (s : Ledger)
    → Ends
        (λ t. t ≡ s)
        (λ receipt t. Releases state d escrow_id body s receipt t)
        (release_request state d escrow_id body s)
unfolding release_request
release_request-Releases state d escrow_id body s =
    (run_bind (platform_payload state "escrow_release" body) _
      (run_platform state "escrow_release" body s) (λ t same. same)
      (λ payload t seen. rw (seen.0) (
        run_or_raise (text_field "recipient_account_id" payload) bad_payload _ refl
          (λ recipient recipient_in.
            run_raise_if (mismatches (get "escrow_id" payload) escrow_id)
              (service_error payload_mismatch 400) _ refl
              (λ matches. run_raise_if (not state.has_ledger) not_ready _ refl (λ _.
                run_last (escrow_release d escrow_id recipient)
                  (λ e u refused. escrow_release-keeps d escrow_id recipient s u e refused)
                  (λ receipt u done. record {
                    payload = payload;
                    recipient = recipient;
                    from_platform = seen.1;
                    recipient_in = recipient_in;
                    matches = matches;
                    released = done;
                  }))))))).ends
