-- ===== src/Board/Manager/Effects/Creations.antt =====
-- The effect of `create_task`.
use agent_economy.Shared.{
  String, ◌≡◌, refl, Option, none, some, is_some, text_eq, false, arith, inl, inr,
}
use agent_economy.Shared.Dict.{get, get-set_self}
use agent_economy.Shared.Action.{ok, result_cases}
use agent_economy.Board.Store.{get_task, insert_task, put_task}
use agent_economy.Board.Client.{BankClient, World}
use agent_economy.Board.Tokens.{Crypto}
use agent_economy.Board.Deadlines.{Reads}
use agent_economy.Board.Manager.NewTask.{NewTask, create_request}
use agent_economy.Board.Manager.Replies.{task_to_response}
use agent_economy.Board.Manager.Creation.{new_row, store_task, create_task}
use agent_economy.Board.Manager.Effects.{Finishes, Unanswered, run_read_guard, run_bank_value}

is_none : {A : Type 0} (o : Option A) → is_some o ≡ false → o ≡ none
is_none none h = refl
is_none (some a) h = ground arith

module _ {B : Type 0} ⦃client : BankClient B⦄ ⦃crypto : Crypto⦄ where
  -- What a request that creates a task has done where it succeeds.
  abbrev pub Creates : Reads → String → String → World B → World B → Type 0
  Creates reads task_token escrow_token w v =
      (t : NewTask) × (escrow_id : String) × (create_request task_token escrow_token ≡ ok t)
      × (get t.task_id w.store.tasks ≡ none)
      × (client.lock escrow_token w.bank ≡ (ok escrow_id, v.bank))
      × (v.store ≡ put_task t.task_id (new_row t escrow_id reads.stamp) w.store)

  pub create_task_effect :
      (reads : Reads) (task_token escrow_token : String) (w : World B)
      → Finishes w.store
          (λ e v. (id : String) × Unanswered id e v)
          (Creates reads task_token escrow_token w)
          (create_task reads task_token escrow_token w)
  unfolding create_task store_task get_task insert_task
  create_task_effect reads task_token escrow_token w =
      elim (result_cases (create_request task_token escrow_token)) [
        | inr (x, e) ↦ rw e (inl refl)
        | inl (t, e) ↦
            rw e
              (run_read_guard (λ s. get t.task_id s.tasks) is_some _ _
                (λ fresh.
                  let absent = is_none _ fresh in
                  run_bank_value (client.lock escrow_token) _ _ (λ escrow_id b locked. record {
                    finishes =
                        let made = new_row t escrow_id reads.stamp in
                        let there = get-set_self t.task_id made w.store.tasks in
                        rw (absent, there)
                          (elim (result_cases (task_to_response made)) [
                            | inl (reply, f) ↦ rw f (t, escrow_id, e, absent, locked, refl)
                            | inr (x, f) ↦ rw f (
                                inr (
                                  (t, escrow_id, e, absent, locked, refl),
                                  (t.task_id, (made, there, f)),
                                ))
                          ]);
                  }))).finishes
      ]
