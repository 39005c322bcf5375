-- ===== src/Identity/Tests.antt =====
-- An agent that registers and signs, and the theorems at it.
use agent_economy.Shared.{◌≡◌, refl, String, Option, some, [], ◌∷◌, true, text_eq}
use agent_economy.Shared.Dict.{get, set}
use agent_economy.Shared.Text.{is_blank}
use agent_economy.Shared.Value.{str, Object}
use agent_economy.Shared.Action.{ok, err, service_error, public_key_exists}
use agent_economy.Board.Tokens.{three_parts, split_dots}
use agent_economy.Identity.Store.{
  Agent, AgentStore, NewAgent, no_agents, agent_record, add_agent, get_by_id, insert,
}
use agent_economy.Identity.Registry.{
  Library, Settings, payload, strip_prefix, after_colon, all_zero, validate_name,
  validate_public_key, register_agent, stored_key, verify_jws,
}
use agent_economy.Identity.Requests.{register_request}
use agent_economy.Identity.Agents.{register_agent-get_by_id}
use agent_economy.Identity.Signers.{Checked, verify_jws-Checked}
use agent_economy.Identity.History.{SoundAgents, start, next, Registrations-SoundAgents}

-- Keys of two bytes, and tokens that hold one object.
abbrev library : Library
library = record {
  decode_strict = λ text. some (1 ∷ 2 ∷ []);
  decode_lenient = λ text. ok (1 ∷ 2 ∷ []);
  is_key = λ key. true;
  verify = λ key signature message. ok true;
  decode_header = λ text. some (some (("alg", str "EdDSA") ∷ ("kid", str "a-1") ∷ []));
  deserialize_compact = λ token key. ok (payload (("action", str "submit_bid") ∷ []));
}

abbrev settings : Settings
settings = record { public_key_prefix = "ed25519:"; public_key_bytes = 2; signature_bytes = 4 }

abbrev new_agent : String → NewAgent
new_agent id = record { agent_id = id; now = 5 }

abbrev alice : Agent
alice = agent_record (new_agent "a-1") "Alice" "ed25519:AQI="

abbrev with_alice : AgentStore
with_alice = add_agent alice no_agents

register_agent-get_by_id_example :
    (get_by_id "a-1" with_alice ≡ some alice)
    × (alice ≡ alice)
    × (get_by_id "a-2" with_alice ≡ get_by_id "a-2" no_agents)
    × (register_agent ⦃library = library⦄ settings (new_agent "a-2") "Bob" "ed25519:AQI=" with_alice
        ≡ (err (service_error public_key_exists 409), with_alice))
unfolding register_agent validate_name is_blank validate_public_key strip_prefix all_zero insert get
register_agent-get_by_id_example =
    register_agent-get_by_id ⦃library = library⦄ settings (new_agent "a-1") "Alice" "ed25519:AQI="
      no_agents alice with_alice "a-2" (new_agent "a-2") "Bob" refl refl refl

abbrev body : Option Object
body = some (("name", str "Alice") ∷ ("public_key", str "ed25519:AQI=") ∷ [])

abbrev registered : AgentStore
registered = (register_request ⦃library = library⦄ settings true (new_agent "a-1") body no_agents).1

Registrations-SoundAgents_example : SoundAgents ⦃library = library⦄ settings registered
unfolding get
Registrations-SoundAgents_example =
    Registrations-SoundAgents ⦃library = library⦄ settings registered
      (next true (new_agent "a-1") body no_agents refl start)

verify_jws-Checked_example :
    (with_alice ≡ with_alice)
    × Checked ⦃library = library⦄ settings "h.p.s" with_alice "a-1"
        (payload (("action", str "submit_bid") ∷ []))
unfolding verify_jws three_parts split_dots get get_by_id set stored_key after_colon
verify_jws-Checked_example =
    verify_jws-Checked ⦃library = library⦄ settings "h.p.s" "a-1"
      (("action", str "submit_bid") ∷ []) with_alice with_alice refl
