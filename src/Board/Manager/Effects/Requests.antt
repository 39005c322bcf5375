-- ===== src/Board/Manager/Effects/Requests.antt =====
-- The effect of each lifecycle request: who may make it, from which status, and what it writes.
use agent_economy.Shared.{
  ℕ, String, ◌≡◌, refl, ap, ◌∙◌, ◌≢◌, Option, none, some, List, [], ◌∷◌, false, not, nat_beq, arith,
  text_eq, pair_eq, ◌==◌, inl, inr, eq_iff,
}
use agent_economy.Shared.Dict.{count_of, get, get-set_self}
use agent_economy.Shared.Value.{Object}
use agent_economy.Shared.Action.{ok, result_cases}
use agent_economy.Board.Types.{
  opened, accepted, submitted, approved, cancelled, disputed, Task, TaskStore, Update,
}
use agent_economy.Board.Store.{
  get_task, update_task, put_task, count_assets, apply_update, apply_updates,
}
use agent_economy.Board.Client.{BankClient, World, release_escrow}
use agent_economy.Board.Tokens.{Crypto}
use agent_economy.Board.Deadlines.{Reads}
use agent_economy.Board.Manager.Requests.{signed_request}
use agent_economy.Board.Manager.Replies.{task_to_response}
use agent_economy.Board.Manager.Lifecycle.{
  dispute_reason_of, is_worker, write_and_reply, cancel_task, submit_deliverable, approve_task,
  dispute_task,
}
use agent_economy.Board.Manager.Effects.{
  IsKeyed, Replied, Unanswered, Finishes, Runs, run_raise_if, run_signer, run_or_raise, run_bank,
  run_read_guard, load_and_reply,
}

module _ {B : Type 0} ⦃client : BankClient B⦄ where
  -- The update of a row that is there.
  pub write_and_reply_lem :
      (id : String) (u : Update) (us : List Update) (t : Task) (w : World B)
      → get id w.store.tasks ≡ some t
      → write_and_reply id (u ∷ us) w ≡ (
        task_to_response (apply_updates (u ∷ us) t),
        record w { store = put_task id (apply_updates (u ∷ us) t) w.store },
      )
  unfolding write_and_reply update_task get_task
  write_and_reply_lem id u us t w found =
      ground (arith, get-set_self id (apply_updates us (apply_update u t)) w.store.tasks)

  -- The reply with the row `u`, once it is stored.
  pub reply_Finishes :
      (s : TaskStore) (Done : World B → Type 0) (id : String) (u : Task) (v : World B)
      → get id v.store.tasks ≡ some u
      → Done v
      → Finishes s (Unanswered id) Done (task_to_response u, v)
  reply_Finishes s Done id u v there h = elim (result_cases (task_to_response u)) [
    | inl (reply, e) ↦ rw e h
    | inr (x, e) ↦ rw e (inr (h, (u, there, e)))
  ]

  -- The last step of a request.
  pub run_write_and_reply :
      {s : TaskStore} {w : World B} {Done : World B → Type 0} (id : String) (u : Update)
      (us : List Update) (t : Task)
      → get id w.store.tasks ≡ some t
      → Done (record w { store = put_task id (apply_updates (u ∷ us) t) w.store })
      → Runs s w (write_and_reply id (u ∷ us)) (Unanswered id) Done
  run_write_and_reply {w} id u us t found h =
      let row = apply_updates (u ∷ us) t in
      record {
        finishes = rw (write_and_reply_lem id u us t w found) (
            reply_Finishes _ _ id row (record w { store = put_task id row w.store })
              (get-set_self id row w.store.tasks) h);
      }

pub worker_is :
    (signer : String) (worker : Option String)
    → not (is_worker signer worker) ≡ false
    → worker ≡ some signer
worker_is signer none h = cc
worker_is signer (some worker) h =
    ap some (ground (arith, eq_iff worker signer, eq_iff signer worker))

not_zero : (n : ℕ) → nat_beq n 0 ≡ false → ◌≢◌ {A = ℕ} n 0
not_zero n h = ground arith

-- The checks of a request have passed, and its signer is `who`.
abbrev pub IsSigned : ⦃crypto : Crypto⦄ → String → List String → String → String → String → Type 0
IsSigned role actions id token who =
    (payload : Object) × (signed_request role actions id token ≡ ok (payload, who))

module _ {B : Type 0} ⦃client : BankClient B⦄ ⦃crypto : Crypto⦄ where
  -- What a request that cancels a task has done where it succeeds.
  abbrev pub Cancels : Reads → String → String → World B → Task → World B → Type 0
  Cancels reads id token w t v =
      (t.status ≡ opened)
      × IsSigned "poster_id" ("cancel_task" ∷ []) id token t.poster_id
      × (client.release t.escrow_id (some t.poster_id) w.bank ≡ (ok tt, v.bank))
      × (v.store
          ≡ put_task id (record t { status = cancelled; cancelled_at = some reads.stamp }) w.store)

  -- Where every row stands under its identifier, `cancel_task` succeeds only for the poster of
  -- an open task whose escrow the bank has released to the poster; it marks the row as cancelled
  -- and changes no other row. An error leaves the store as it was, but for the task's own move
  -- where a deadline had passed, or comes after all of this, where a
  -- deadline of the row is outside the calendar and no reply can be computed.
  pub cancel_task-Effect :
      (reads : Reads) (id token : String) (w : World B)
      → IsKeyed w.store
      → Replied id w (Cancels reads id token w) (cancel_task reads id token w)
  unfolding cancel_task release_escrow
  cancel_task-Effect reads id token w keys =
      elim (result_cases (signed_request "poster_id" ("cancel_task" ∷ []) id token)) [
        | inr (x, e) ↦ rw e (inl (inl refl))
        | inl ((payload, signer), e) ↦ rw e (
            load_and_reply reads id opened w _ _ keys refl (λ t found s.
              run_signer _ _ _ _ (λ poster.
                run_bank (client.release t.escrow_id (some t.poster_id)) _ _ (λ b r.
                  run_write_and_reply id _ _ t found
                    (s, (payload, e ∙ ap (λ (x : String). ok (payload, x)) poster), r, refl)))))
      ]

  -- What a request that approves a task has done where it succeeds.
  abbrev pub Approves : Reads → String → String → World B → Task → World B → Type 0
  Approves reads id token w t v =
      (t.status ≡ submitted)
      × IsSigned "poster_id" ("approve_task" ∷ []) id token t.poster_id
      × (client.release t.escrow_id t.worker_id w.bank ≡ (ok tt, v.bank))
      × (v.store
          ≡ put_task id (record t { status = approved; approved_at = some reads.stamp }) w.store)

  -- Where every row stands under its identifier, `approve_task` succeeds only for the poster of
  -- a submitted task whose escrow the bank has released to the worker; it marks the row as
  -- approved and changes no other row. An error leaves the store as it was, but for the task's
  -- own move where a deadline had passed, or comes after all of this, where a
  -- deadline of the row is outside the calendar and no reply can be computed.
  pub approve_task-Effect :
      (reads : Reads) (id token : String) (w : World B)
      → IsKeyed w.store
      → Replied id w (Approves reads id token w) (approve_task reads id token w)
  unfolding approve_task release_escrow
  approve_task-Effect reads id token w keys =
      elim (result_cases (signed_request "poster_id" ("approve_task" ∷ []) id token)) [
        | inr (x, e) ↦ rw e (inl (inl refl))
        | inl ((payload, signer), e) ↦ rw e (
            load_and_reply reads id submitted w _ _ keys refl (λ t found s.
              run_signer _ _ _ _ (λ poster.
                run_bank (client.release t.escrow_id t.worker_id) _ _ (λ b r.
                  run_write_and_reply id _ _ t found
                    (s, (payload, e ∙ ap (λ (x : String). ok (payload, x)) poster), r, refl)))))
      ]

  -- What a request that disputes a task has done where it succeeds.
  abbrev pub Disputes : Reads → String → String → World B → Task → World B → Type 0
  Disputes reads id token w t v =
      (t.status ≡ submitted)
      × (payload : Object) × (reason : String) × (signed_request "poster_id"
            ("dispute_task" ∷ "file_dispute" ∷ []) id token
          ≡ ok (payload, t.poster_id))
      × (dispute_reason_of payload ≡ some reason)
      × (v.bank ≡ w.bank)
      × (v.store
          ≡ put_task id
              (record t {
                status = disputed;
                disputed_at = some reads.stamp;
                dispute_reason = some reason;
              })
              w.store)

  -- Where every row stands under its identifier, `dispute_task` succeeds only for the poster of
  -- a submitted task with a reason that is valid; it writes the reason, and the bank is as it
  -- was. An error leaves the store as it was, but for the task's own move where a deadline had
  -- passed, or comes after all of this, where a
  -- deadline of the row is outside the calendar and no reply can be computed.
  pub dispute_task-Effect :
      (reads : Reads) (id token : String) (w : World B)
      → IsKeyed w.store
      → Replied id w (Disputes reads id token w) (dispute_task reads id token w)
  unfolding dispute_task
  dispute_task-Effect reads id token w keys =
      elim (result_cases
        (signed_request "poster_id" ("dispute_task" ∷ "file_dispute" ∷ []) id token)) [
          | inr (x, e) ↦ rw e (inl (inl refl))
          | inl ((payload, signer), e) ↦ rw e (
              load_and_reply reads id submitted w _ _ keys refl (λ t found s.
                run_signer _ _ _ _ (λ poster. run_or_raise _ _ _ (λ reason valid.
                  run_write_and_reply id _ _ t found (
                    s,
                    payload,
                    reason,
                    e ∙ ap (λ (x : String). ok (payload, x)) poster,
                    valid,
                    refl,
                    refl,
                  )))))
        ]

  -- What a request that submits a deliverable has done where it succeeds.
  abbrev pub Delivers : Reads → String → String → World B → Task → World B → Type 0
  Delivers reads id token w t v =
      (t.status ≡ accepted)
      × (worker : String) × (t.worker_id ≡ some worker)
      × IsSigned "worker_id" ("submit_deliverable" ∷ []) id token worker
      × ◌≢◌ {A = ℕ} (count_of (λ asset. asset.task_id == id) w.store.assets) 0
      × (v.bank ≡ w.bank)
      × (v.store
          ≡ put_task id (record t { status = submitted; submitted_at = some reads.stamp }) w.store)

  -- Where every row stands under its identifier, `submit_deliverable` succeeds only for the
  -- worker of an accepted task that has an asset; it marks the row as submitted, and the bank is
  -- as it was. An error leaves the store as it was, but for the task's own move where a deadline
  -- had passed, or comes after all of this, where a
  -- deadline of the row is outside the calendar and no reply can be computed.
  pub submit_deliverable-Effect :
      (reads : Reads) (id token : String) (w : World B)
      → IsKeyed w.store
      → Replied id w (Delivers reads id token w) (submit_deliverable reads id token w)
  unfolding submit_deliverable count_assets
  submit_deliverable-Effect reads id token w keys =
      elim (result_cases (signed_request "worker_id" ("submit_deliverable" ∷ []) id token)) [
        | inr (x, e) ↦ rw e (inl (inl refl))
        | inl ((payload, signer), e) ↦ rw e (
            load_and_reply reads id accepted w _ _ keys refl (λ t found s.
              run_raise_if _ _ _ (λ is_his.
                run_read_guard (λ st. count_of (λ asset. asset.task_id == id) st.assets)
                  (λ n. nat_beq n 0) _ _
                  (λ some_assets. run_write_and_reply id _ _ t found (
                    s,
                    signer,
                    worker_is signer t.worker_id is_his,
                    (payload, e),
                    not_zero _ some_assets,
                    refl,
                    refl,
                  )))))
      ]
