-- ===== src/Identity/Agents.antt =====
-- The registered agents: their keys, and that each key has one agent.
use agent_economy.Shared.{
  not-true, ◌≡◌, refl, String, some, true, false, not, text_eq, ◌==◌, nat_beq, length, Bool-cases,
  inl, inr,
}
use agent_economy.Shared.Dict.{contains, get-set, get-set_self}
use agent_economy.Shared.Text.{is_blank}
use agent_economy.Shared.Action.{
  ok, err, service_error, invalid_name, invalid_public_key, public_key_exists,
}
use agent_economy.Shared.Runs.{
  Ends, Ends-map, Runs, run_raise_if, run_or_raise, run_bind, run_handle, run_check, Ends-ok,
}
use agent_economy.Identity.Store.{
  Agent, AgentStore, NewAgent, agent_record, add_agent, insert, get_by_id,
}
use agent_economy.Identity.Registry.{
  Library, Settings, Bytes, strip_prefix, all_zero, as_registration_error, validate_name,
  validate_public_key, register_agent,
}

module _ ⦃library : Library⦄ (settings : Settings) where
  -- A key that registration accepts.
  pub record GoodKey (public_key : String) : Type 0 where
    pub key : String
    pub prefixed : strip_prefix settings.public_key_prefix public_key ≡ some key
    pub key_bytes : Bytes
    pub decoded : library.decode_strict key ≡ some key_bytes
    pub sized : nat_beq (length key_bytes) settings.public_key_bytes ≡ true
    pub not_zero : all_zero key_bytes ≡ false
    pub known : library.is_key key_bytes ≡ true

  -- What a registration does.
  abbrev pub Registers : NewAgent → String → String → AgentStore → Agent → AgentStore → Type 0
  Registers d name public_key s a v =
      (is_blank name ≡ false)
      × GoodKey public_key
      × (contains public_key s.agent_id_by_public_key ≡ false)
      × (a ≡ agent_record d name public_key)
      × (v ≡ add_agent (agent_record d name public_key) s)

  run_insert :
      (d : NewAgent) (name public_key : String) (s : AgentStore)
      → Runs
          (λ v. v ≡ s)
          s
          (insert d name public_key)
          (λ a v.
            (contains public_key s.agent_id_by_public_key ≡ false)
            × (a ≡ agent_record d name public_key)
            × (v ≡ add_agent (agent_record d name public_key) s))
  unfolding insert
  run_insert d name public_key s =
      elim (Bool-cases (contains public_key s.agent_id_by_public_key)) [
        | inl taken ↦ record { ends = rw taken refl }
        | inr free ↦ record { ends = rw free (refl, refl, refl) }
      ]

  run_validate_public_key :
      (public_key : String) (s : AgentStore)
      → Runs
          (λ v. v ≡ s)
          s
          (validate_public_key settings public_key)
          (λ _ v. GoodKey public_key × (v ≡ s))
  unfolding validate_public_key
  run_validate_public_key public_key s =
      run_or_raise (strip_prefix settings.public_key_prefix public_key)
        (service_error invalid_public_key 400) _ refl
        (λ key prefixed.
          run_or_raise (library.decode_strict key) (service_error invalid_public_key 400) _ refl
            (λ key_bytes decoded.
              run_raise_if (not (nat_beq (length key_bytes) settings.public_key_bytes))
                (service_error invalid_public_key 400) _ refl
                (λ sized.
                  run_raise_if (all_zero key_bytes) (service_error invalid_public_key 400) _ refl
                    (λ not_zero.
                      run_check (not (library.is_key key_bytes))
                        (service_error invalid_public_key 400) refl
                        (λ known. (
                          record {
                            key = key;
                            prefixed = prefixed;
                            key_bytes = key_bytes;
                            decoded = decoded;
                            sized = not-true _ sized;
                            not_zero = not_zero;
                            known = not-true _ known;
                          },
                          refl,
                        ))))))

  -- A registration fails and changes nothing, or the name and the key pass every check, no agent
  -- has the key, and the agent is added.
  pub register_agent-Ends :
      (d : NewAgent) (name public_key : String) (s : AgentStore)
      → Ends
          (λ v. v ≡ s)
          (Registers d name public_key s)
          (register_agent settings d name public_key s)
  unfolding register_agent validate_name
  register_agent-Ends d name public_key s =
      (run_raise_if (is_blank name) (service_error invalid_name 400) _ refl (λ named.
        run_bind (validate_public_key settings public_key) _ (run_validate_public_key public_key s)
          (λ v same. same)
          (λ _ v (good, same). run_handle (insert d name public_key) as_registration_error (record {
            ends = rw same (
                Ends-map (insert d name public_key s) (λ u k. k)
                  (λ a u (free, a_is, u_is). (named, good, free, a_is, u_is))
                  (run_insert d name public_key s).ends);
          })))).ends

  -- A registered agent can be looked up by its identifier, with the name and the key that were
  -- given; the other agents are as before; and a second registration of the key is refused.
  pub register_agent-get_by_id :
      (d : NewAgent) (name public_key : String) (s : AgentStore) (a : Agent) (v : AgentStore)
      (j : String) (d' : NewAgent) (name' : String)
      → register_agent settings d name public_key s ≡ (ok a, v)
      → (d.agent_id == j) ≡ false
      → is_blank name' ≡ false
      → (get_by_id d.agent_id v ≡ some (agent_record d name public_key))
        × (a ≡ agent_record d name public_key)
        × (get_by_id j v ≡ get_by_id j s)
        × (register_agent settings d' name' public_key v
            ≡ (err (service_error public_key_exists 409), v))
  unfolding get_by_id register_agent validate_name validate_public_key insert
  register_agent-get_by_id d name public_key s a v j d' name' done other named' =
      let (named, good, free, a_is, v_is) =
        Ends-ok (λ u. u ≡ s) (Registers d name public_key s)
          (register_agent settings d name public_key s) a v
          (register_agent-Ends d name public_key s) done in
      let taken : contains public_key v.agent_id_by_public_key ≡ true =
        rw (v_is, get-set_self) refl in
      (
        rw (v_is, get-set_self) refl,
        a_is,
        rw (v_is, get-set, other) refl,
        rw (named', good.prefixed, good.decoded, good.sized, good.not_zero, good.known, taken) refl,
      )
