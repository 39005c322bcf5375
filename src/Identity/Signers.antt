-- ===== src/Identity/Signers.antt =====
-- Whom a verified token is from.
use agent_economy.Shared.{not-true, ◌∙◌, ◌≡◌, refl, ap, String, some, true, not, arith, text_eq}
use agent_economy.Shared.Dict.{get}
use agent_economy.Shared.Value.{Object}
use agent_economy.Shared.Action.{ok, service_error, invalid_jws, agent_not_found, other_exception}
use agent_economy.Shared.Runs.{
  Ends-ok, Runs, run_raise_if, run_or_raise, run_lift, run_find, run_bind, run_result,
}
use agent_economy.Board.Tokens.{Parts, three_parts, split_dots}
use agent_economy.Identity.Store.{Agent, AgentStore, get_by_id}
use agent_economy.Identity.Registry.{
  Library, Settings, Bytes, Deserialized, payload, not_object, not_json, mismatch, broken, token_by,
  after_colon, is_eddsa, kid_text, text_at, first_part, to_verification, stored_key, verify_jws,
}

module _ ⦃library : Library⦄ (settings : Settings) where
  -- The key of an agent, as it is stored.
  abbrev KeyOf : Agent → Bytes → Type 0
  KeyOf agent key =
      (text : String) × (after_colon agent.public_key ≡ some text)
      × (library.decode_lenient text ≡ ok key)

  -- A token whose header names a registered agent and the algorithm, with the answer that the
  -- check against that agent's key has given.
  pub record Checked (token : String) (s : AgentStore) (kid : String) (answer : Deserialized)
      : Type 0 where
    pub parts : Parts
    pub header : Object
    pub agent : Agent
    pub key : Bytes
    pub parts_of : three_parts (split_dots token) ≡ some parts
    pub header_of : library.decode_header (first_part parts) ≡ some (some header)
    pub eddsa : is_eddsa (get "alg" header) ≡ true
    pub kid_of : kid_text (text_at "kid" header) ≡ some kid
    pub agent_of : get kid s.agents_by_id ≡ some agent
    pub key_of : KeyOf agent key
    pub answer_of : library.deserialize_compact token key ≡ ok answer

  run_stored_key :
      (agent : Agent) (s : AgentStore)
      → Runs (λ v. v ≡ s) s (stored_key settings agent) (λ key v. KeyOf agent key × (v ≡ s))
  unfolding stored_key
  run_stored_key agent s =
      run_or_raise (after_colon agent.public_key) other_exception _ refl (λ text text_of.
        run_result (library.decode_lenient text) refl
          (λ key key_of. ((text, text_of, key_of), refl)))

  run_verify_jws :
      (token : String) (s : AgentStore)
      → Runs
          (λ v. v ≡ s)
          s
          (verify_jws settings token)
          (λ answer v.
            (v ≡ s)
            × ((kid : String) × (d : Deserialized) × Checked token s kid d
                × (to_verification kid d ≡ ok answer)))
  unfolding verify_jws get_by_id
  run_verify_jws token s =
      run_or_raise (three_parts (split_dots token)) (service_error invalid_jws 400) _ refl
        (λ parts parts_of.
          run_or_raise (library.decode_header (first_part parts)) (service_error invalid_jws 400) _
            refl
            (λ decoded header_of. run_or_raise decoded other_exception _ refl (λ header is_object.
              run_raise_if (not (is_eddsa (get "alg" header))) (service_error invalid_jws 400) _
                refl
                (λ eddsa.
                  run_or_raise (kid_text (text_at "kid" header)) (service_error invalid_jws 400) _
                    refl
                    (λ kid kid_of.
                      run_find (λ (x : AgentStore). get kid x.agents_by_id)
                        (service_error agent_not_found 404) _ refl
                        (λ agent agent_of.
                          run_bind (stored_key settings agent) _ (run_stored_key agent s)
                            (λ v same. same)
                            (λ key v (key_of, same).
                              run_lift (library.deserialize_compact token key) _ same
                                (λ answer answer_of.
                                  run_result (to_verification kid answer) same
                                    (λ verdict verdict_of. (
                                      same,
                                      (
                                        kid,
                                        answer,
                                        record {
                                          parts = parts;
                                          header = header;
                                          agent = agent;
                                          key = key;
                                          parts_of = parts_of;
                                          header_of = header_of ∙ ap some is_object;
                                          eddsa = not-true _ eddsa;
                                          kid_of = kid_of;
                                          agent_of = agent_of;
                                          key_of = key_of;
                                          answer_of = answer_of;
                                        },
                                        verdict_of,
                                      ),
                                    ))))))))))

  token_of :
      (kid : String) (d : Deserialized) (signer : String) (fields : Object)
      → to_verification kid d ≡ ok (token_by signer fields)
      → (kid ≡ signer) × (d ≡ payload fields)
  token_of kid (payload f) signer fields h = (ground arith, ap payload (ground arith))
  token_of kid not_object signer fields h = absurd (ground arith)
  token_of kid not_json signer fields h = absurd (ground arith)
  token_of kid mismatch signer fields h = absurd (ground arith)
  token_of kid broken signer fields h = absurd (ground arith)

  -- When `verify_jws` answers that a token is valid and from an agent, the store is unchanged, the
  -- token's own header names that agent and EdDSA, the agent is registered, and the token has been
  -- accepted under that agent's stored key, with the payload of the answer.
  pub verify_jws-Checked :
      (token signer : String) (fields : Object) (s v : AgentStore)
      → verify_jws settings token s ≡ (ok (token_by signer fields), v)
      → (v ≡ s) × Checked token s signer (payload fields)
  verify_jws-Checked token signer fields s v done =
      let (same, (kid, d, checked, answered)) =
        Ends-ok _
          (λ answer u.
            (u ≡ s)
            × ((kid : String) × (d : Deserialized) × Checked token s kid d
                × (to_verification kid d ≡ ok answer)))
          (verify_jws settings token s) (token_by signer fields) v (run_verify_jws token s).ends
          done in
      let (kid_is, d_is) = token_of kid d signer fields answered in
      (same, rw (← kid_is, ← d_is) checked)
