-- ===== src/Identity/History.antt =====
-- Registrations, one after the other.
use agent_economy.Shared.{
  ◌≡◌, refl, ap, ◌∙◌, String, Option, some, List, [], ◌∷◌, Bool, false, not, arith, text_eq, ◌==◌,
  Bool-cases, inl, inr,
}
use agent_economy.Shared.Dict.{get, set, contains, get-set, get-set_self}
use agent_economy.Shared.Value.{Object}
use agent_economy.Shared.Text.{is_blank}
use agent_economy.Shared.Action.{
  Result, ok, err, service_error, invalid_json, missing_field, invalid_field_type,
  service_not_ready,
}
use agent_economy.Shared.Runs.{Ends, Ends-map, Runs, run_raise_if, run_or_raise, run_bind}
use agent_economy.Identity.Store.{Agent, AgentStore, no_agents, NewAgent, add_agent}
use agent_economy.Identity.Registry.{Library, Settings, text_at, register_agent}
use agent_economy.Identity.Requests.{
  is_null, no_text, text_of, validate_required_fields, validate_string_fields, checked_body,
  register_request,
}
use agent_economy.Identity.Agents.{GoodKey, register_agent-Ends}

module _ ⦃library : Library⦄ (settings : Settings) where
  -- An agent stands under its own identifier, its key leads to it, and both its name and its key
  -- have passed the checks.
  pub record SoundAgents (s : AgentStore) : Type 0 where
    pub agent_sound :
        (id : String) (a : Agent)
        → get id s.agents_by_id ≡ some a
        → (a.agent_id ≡ id)
          × (get a.public_key s.agent_id_by_public_key ≡ some id)
          × (is_blank a.name ≡ false)
          × GoodKey settings a.public_key
    pub key_sound :
        (key id : String)
        → get key s.agent_id_by_public_key ≡ some id
        → (a : Agent) × (get id s.agents_by_id ≡ some a) × (a.public_key ≡ key)

  no_agents-SoundAgents : SoundAgents no_agents
  unfolding get
  no_agents-SoundAgents = record {
    agent_sound = λ id a h. absurd (ground arith);
    key_sound = λ key id h. absurd (ground arith);
  }

  add_agent-SoundAgents :
      (a : Agent) (s : AgentStore)
      → SoundAgents s
      → contains a.agent_id s.agents_by_id ≡ false
      → contains a.public_key s.agent_id_by_public_key ≡ false
      → is_blank a.name ≡ false
      → GoodKey settings a.public_key
      → SoundAgents (add_agent a s)
  add_agent-SoundAgents a s sound new_id new_key named good = record {
    agent_sound = agents;
    key_sound = keys;
  }
    where
      agents :
          (id : String) (x : Agent)
          → get id (set a.agent_id a s.agents_by_id) ≡ some x
          → (x.agent_id ≡ id)
            × (get x.public_key (set a.public_key a.agent_id s.agent_id_by_public_key) ≡ some id)
            × (is_blank x.name ≡ false)
            × GoodKey settings x.public_key
      agents id x h = elim (Bool-cases (a.agent_id == id)) [
        | inl same ↦
            let here : a.agent_id ≡ id = (text_eq.same_iff a.agent_id id).0 same in
            let x_is : a ≡ x = ground (arith, get-set a.agent_id id a s.agents_by_id) in
            rw (← here, ← x_is)
              (refl, get-set_self a.public_key a.agent_id s.agent_id_by_public_key, named, good)
        | inr other ↦
            let before : get id s.agents_by_id ≡ some x =
              ground (arith, get-set a.agent_id id a s.agents_by_id) in
            let (own, key, x_named, x_good) = sound.agent_sound id x before in
            elim (Bool-cases (a.public_key == x.public_key)) [
              | inl same ↦
                  let here : a.public_key ≡ x.public_key =
                    (text_eq.same_iff a.public_key x.public_key).0 same in
                  absurd (ground (arith, ap (λ k. contains k s.agent_id_by_public_key) here))
              | inr differs ↦ (own, rw (get-set, differs) key, x_named, x_good)
            ]
      ]

      keys :
          (key id : String)
          → get key (set a.public_key a.agent_id s.agent_id_by_public_key) ≡ some id
          → (x : Agent) × (get id (set a.agent_id a s.agents_by_id) ≡ some x) × (x.public_key ≡ key)
      keys key id h = elim (Bool-cases (a.public_key == key)) [
        | inl same ↦
            let here : a.public_key ≡ key = (text_eq.same_iff a.public_key key).0 same in
            let id_is : a.agent_id ≡ id =
              ground (arith, get-set a.public_key key a.agent_id s.agent_id_by_public_key) in
            rw (← id_is) (a, get-set_self a.agent_id a s.agents_by_id, here)
        | inr other ↦
            let before : get key s.agent_id_by_public_key ≡ some id =
              ground (arith, get-set a.public_key key a.agent_id s.agent_id_by_public_key) in
            let (x, there, x_key) = sound.key_sound key id before in
            elim (Bool-cases (a.agent_id == id)) [
              | inl same ↦
                  let here : a.agent_id ≡ id = (text_eq.same_iff a.agent_id id).0 same in
                  absurd (ground (arith, ap (λ k. contains k s.agents_by_id) here))
              | inr differs ↦ (x, rw (get-set, differs) there, x_key)
            ]
      ]

  run_required :
      (fields : Object) (names : List String) (s : AgentStore)
      → Runs (λ v. v ≡ s) s (validate_required_fields fields names) (λ _ v. v ≡ s)
  unfolding validate_required_fields
  run_required fields [] s = record { ends = refl }
  run_required fields (name ∷ names) s =
      run_raise_if (is_null (get name fields)) (service_error missing_field 400) _ refl
        (λ _. run_required fields names s)

  run_strings :
      (fields : Object) (names : List String) (s : AgentStore)
      → Runs (λ v. v ≡ s) s (validate_string_fields fields names) (λ _ v. v ≡ s)
  unfolding validate_string_fields
  run_strings fields [] s = record { ends = refl }
  run_strings fields (name ∷ names) s =
      run_raise_if (no_text (text_at name fields)) (service_error invalid_field_type 400) _ refl
        (λ _. run_strings fields names s)

  run_checked_body :
      (ready : Bool) (body : Option Object) (names : List String) (s : AgentStore)
      → Runs (λ v. v ≡ s) s (checked_body settings ready body names) (λ _ v. v ≡ s)
  unfolding checked_body
  run_checked_body ready body names s =
      run_or_raise body (service_error invalid_json 400) _ refl (λ fields _.
        run_bind (validate_required_fields fields names) _ (run_required fields names s)
          (λ v same. same)
          (λ _ v same.
            run_bind (validate_string_fields fields names) _ (run_strings fields names v)
              (λ u as_v. as_v ∙ same)
              (λ _ u as_v.
                run_raise_if (not ready) (service_error service_not_ready 503) _ (as_v ∙ same)
                  (λ _. record { ends = as_v ∙ same }))))

  register_request-SoundAgents :
      (ready : Bool) (d : NewAgent) (body : Option Object) (s : AgentStore)
      → contains d.agent_id s.agents_by_id ≡ false
      → SoundAgents s
      → Runs SoundAgents s (register_request settings ready d body) (λ _ v. SoundAgents v)
  unfolding register_request
  register_request-SoundAgents ready d body s new_id sound =
      run_bind (checked_body settings ready body ("name" ∷ "public_key" ∷ [])) _
        (run_checked_body ready body ("name" ∷ "public_key" ∷ []) s) (λ v same. rw same sound)
        (λ fields v same. record {
          ends = rw same (
              Ends-map
                (register_agent settings d (text_of "name" fields) (text_of "public_key" fields) s)
                (λ u kept. rw kept sound)
                (λ a u (named, good, free, _, u_is).
                  rw u_is (add_agent-SoundAgents _ s sound new_id free named good))
                (register_agent-Ends settings d (text_of "name" fields)
                  (text_of "public_key" fields) s));
        })

  -- Registrations, each with a new identifier.
  pub data Registrations : AgentStore → Type 0 where
    start : Registrations no_agents
    next :
        (ready : Bool) (d : NewAgent) (body : Option Object) (s : AgentStore)
        → contains d.agent_id s.agents_by_id ≡ false
        → Registrations s
        → Registrations (register_request settings ready d body s).1

  ending :
      (o : Result Agent × AgentStore) → Ends SoundAgents (λ _ v. SoundAgents v) o → SoundAgents o.1
  ending (err e, v) h = h
  ending (ok x, v) h = h

  -- After any registrations, accepted or refused, an agent stands under its own identifier, has a
  -- name that is not blank and a key that has passed every check, and keys and agents belong to each
  -- other one to one. The identifiers that registrations draw are new.
  pub Registrations-SoundAgents : (s : AgentStore) → Registrations s → SoundAgents s
  Registrations-SoundAgents _ start = no_agents-SoundAgents
  Registrations-SoundAgents _ (next ready d body s new_id before) =
      ending _
        (register_request-SoundAgents ready d body s new_id
          (Registrations-SoundAgents s before)).ends
