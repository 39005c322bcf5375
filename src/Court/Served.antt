-- ===== src/Court/Served.antt =====
-- The writing endpoints of the Court: what holds of the dispute store after the service's part holds
-- after the request, since the checks and the calls of other services leave the store alone.
use Prim.Native.String.{count}
use agent_economy.Shared.{ltb, ℕ, ◌≡◌, refl, ◌∙◌, String, Option, not, inl, inr, text_eq, ◌==◌}
use agent_economy.Shared.Dict.{get}
use agent_economy.Shared.Value.{Object}
use agent_economy.Shared.Action.{
  Result, ok, err, handle, raise, service_error, invalid_payload, dispute_not_found, outcome_cases,
}
use agent_economy.Shared.Runs.{Ends, Runs, run_find, run_raise_if, run_lift, run_bind}
use agent_economy.Court.Types.{DisputeStore}
use agent_economy.Court.Store.{CourtDb, Draws, get_dispute, with_votes}
use agent_economy.Court.Service.{file_dispute, submit_rebuttal}
use agent_economy.Court.Panel.{TaskData}
use agent_economy.Court.Ruling.{Platform, CourtWorld, on_court, on_outside, execute_ruling}
use agent_economy.Court.Requests.{
  CourtState, not_ready, parse_json_body, extract_jws_token, verify_platform_token, require_action,
  as_task_error, require_non_empty_string, fetch_task, signed_payload, file_request,
  rebuttal_request, trigger_ruling,
}

module _ {C : Type 0} ⦃platform : Platform C⦄ where
  run_on_court :
      {A : Type 0} (Kept : DisputeStore → Type 0) (Done : A → DisputeStore → Type 0)
      (w : CourtWorld C) (m : CourtDb A)
      → Ends Kept Done (m w.store)
      → Runs (λ v. Kept v.store) w (on_court m) (λ x v. Done x v.store)
  run_on_court {A} Kept Done w m h = record { ends = go (m w.store) h }
    where
      go :
          (o : Result A × DisputeStore)
          → Ends Kept Done o
          → Ends
              (λ v. Kept v.store)
              (λ x v. Done x v.store)
              (let (r, s) = o in (r, record w { store = s }))
      go (err e, s) k = k
      go (ok x, s) k = k

  run_signed_payload :
      (state : CourtState) (action : String) (body : Option Object) (w : CourtWorld C)
      → Runs
          (λ v. v.store ≡ w.store)
          w
          (signed_payload state action body)
          (λ _ v. v.store ≡ w.store)
  unfolding signed_payload
  run_signed_payload state action body w =
      run_raise_if (not state.has_service) not_ready _ refl (λ _.
        run_raise_if (not state.has_platform) not_ready _ refl (λ _.
          run_lift (parse_json_body body) _ refl (λ values _.
            run_lift (extract_jws_token values "token") _ refl (λ token _.
              run_lift (verify_platform_token (state.validate_certificate token)) _ refl
                (λ payload _.
                  run_lift (require_action payload action) _ refl
                    (λ _ _. record { ends = refl }))))))

  run_fetch_task :
      (state : CourtState) (task_id : String) (w : CourtWorld C)
      → Runs (λ v. v.store ≡ w.store) w (fetch_task state task_id) (λ _ v. v.store ≡ w.store)
  unfolding fetch_task
  run_fetch_task state task_id w =
      run_raise_if (not state.has_platform) not_ready
        (handle (on_outside (platform.get_task task_id)) (λ e. raise (as_task_error e))) refl
        (λ _. elim (outcome_cases (platform.get_task task_id w.outside)) [
          | inl (x, c, e) ↦ record { ends = rw e refl }
          | inr (x, c, e) ↦ record { ends = rw e refl }
        ])

  module _ (P : DisputeStore → Type 0) where
    pub run_file_request :
        (state : CourtState) (d : Draws) (now : ℕ) (body : Option Object) (w : CourtWorld C)
        → P w.store
        → ((task claimant respondent claim escrow : String)
            → Ends P
                (λ _ v. P v)
                (file_dispute d now task claimant respondent claim escrow
                  state.rebuttal_deadline_seconds w.store))
        → Runs (λ v. P v.store) w (file_request state d now body) (λ _ v. P v.store)
    unfolding file_request
    run_file_request state d now body w before files =
        run_bind (signed_payload state "file_dispute" body) _
          (run_signed_payload state "file_dispute" body w) (λ v same. rw same before)
          (λ payload v same.
            let kept : P v.store = rw same before in
            run_lift (require_non_empty_string payload "task_id") _ kept (λ task _.
              run_lift (require_non_empty_string payload "claimant_id") _ kept (λ claimant _.
                run_lift (require_non_empty_string payload "respondent_id") _ kept (λ respondent _.
                  run_lift (require_non_empty_string payload "claim") _ kept (λ claim _.
                    run_lift (require_non_empty_string payload "escrow_id") _ kept (λ escrow _.
                      run_raise_if (ltb state.max_claim_length (count claim))
                        (service_error invalid_payload 400) _ kept
                        (λ _.
                          run_bind (fetch_task state task) _ (run_fetch_task state task v)
                            (λ u kept_u. rw kept_u kept)
                            (λ _ u kept_u.
                              run_on_court P (λ _ s. P s) u _
                                (rw (kept_u, same)
                                  (files task claimant respondent claim escrow))))))))))

    pub run_rebuttal_request :
        (state : CourtState) (now : ℕ) (id : String) (body : Option Object) (w : CourtWorld C)
        → P w.store
        → ((rebuttal : String) → Ends P (λ _ v. P v) (submit_rebuttal now id rebuttal w.store))
        → Runs (λ v. P v.store) w (rebuttal_request state now id body) (λ _ v. P v.store)
    unfolding rebuttal_request
    run_rebuttal_request state now id body w before answers =
        run_bind (signed_payload state "submit_rebuttal" body) _
          (run_signed_payload state "submit_rebuttal" body w) (λ v same. rw same before)
          (λ payload v same.
            let kept : P v.store = rw same before in
            run_lift (require_non_empty_string payload "dispute_id") _ kept (λ payload_id _.
              run_raise_if (not (payload_id == id)) (service_error invalid_payload 400) _ kept (λ _.
                run_lift (require_non_empty_string payload "rebuttal") _ kept (λ rebuttal _.
                  run_raise_if (ltb state.max_rebuttal_length (count rebuttal))
                    (service_error invalid_payload 400) _ kept
                    (λ _. run_on_court P (λ _ s. P s) v _ (rw same (answers rebuttal)))))))

    pub run_trigger_ruling :
        (state : CourtState) (d : Draws) (now id : String) (body : Option Object) (w : CourtWorld C)
        → P w.store
        → ((task_data : TaskData) (u : CourtWorld C)
            → u.store ≡ w.store
            → Ends
                (λ v. P v.store)
                (λ _ v. P v.store)
                (execute_ruling d now id state.judges task_data u))
        → Runs (λ v. P v.store) w (trigger_ruling state d now id body) (λ _ v. P v.store)
    unfolding trigger_ruling get_dispute
    run_trigger_ruling state d now id body w before rules =
        run_bind (signed_payload state "trigger_ruling" body) _
          (run_signed_payload state "trigger_ruling" body w) (λ v same. rw same before)
          (λ payload v same.
            let kept : P v.store = rw same before in
            run_lift (require_non_empty_string payload "dispute_id") _ kept (λ payload_id _.
              run_raise_if (not (payload_id == id)) (service_error invalid_payload 400) _ kept (λ _.
                run_find (λ (x : CourtWorld C). with_votes id x.store (get id x.store.disputes))
                  (service_error dispute_not_found 404) _ kept
                  (λ (dispute, votes) _.
                    run_bind (fetch_task state dispute.task_id) _
                      (run_fetch_task state dispute.task_id v) (λ u kept_u. rw kept_u kept)
                      (λ task_data u kept_u. record {
                        ends = rules task_data u (kept_u ∙ same);
                      })))))
