-- ===== src/Identity/Store.antt =====
-- `InMemoryAgentStore` (services/identity/src/identity_service/services/agent_store.py).
use agent_economy.Shared.{ℕ, String, Option, List, [], ◌∷◌, true, length, text_eq}
use agent_economy.Shared.Dict.{Dict, get, set, contains}
use agent_economy.Shared.Rows.{select, sort_asc}
use agent_economy.Shared.Action.{Action, pure, gets, modify, raise_if, ◌>>=◌, ◌>>◌, duplicate_agent}

-- Times are seconds since the epoch.
pub record Agent : Type 0 where
  pub agent_id : String
  pub name : String
  pub public_key : String
  pub registered_at : ℕ

pub record AgentStore : Type 0 where
  pub agents_by_id : Dict String Agent
  pub agent_id_by_public_key : Dict String String

abbrev pub no_agents : AgentStore
no_agents = record { agents_by_id = []; agent_id_by_public_key = [] }

-- The identifier and the time that an insertion draws.
pub record NewAgent : Type 0 where
  pub agent_id : String
  pub now : ℕ

abbrev pub agent_record : NewAgent → String → String → Agent
agent_record d name public_key = record {
  agent_id = d.agent_id;
  name = name;
  public_key = public_key;
  registered_at = d.now;
}

abbrev pub add_agent : Agent → AgentStore → AgentStore
add_agent a s = record {
  agents_by_id = set a.agent_id a s.agents_by_id;
  agent_id_by_public_key = set a.public_key a.agent_id s.agent_id_by_public_key;
}

unfoldable pub insert : NewAgent → String → String → Action AgentStore Agent
insert d name public_key = do
  raise_if (← gets (λ s. contains public_key s.agent_id_by_public_key)) duplicate_agent
  modify (add_agent (agent_record d name public_key))
  pure (agent_record d name public_key)

unfoldable pub get_by_id : String → AgentStore → Option Agent
get_by_id agent_id s = get agent_id s.agents_by_id

-- A summary has no public key.
pub record AgentSummary : Type 0 where
  pub agent_id : String
  pub name : String
  pub registered_at : ℕ

unfoldable pub summaries : List Agent → List AgentSummary
summaries [] = []
summaries (a ∷ rest) =
    record { agent_id = a.agent_id; name = a.name; registered_at = a.registered_at }
    ∷ summaries rest

unfoldable pub list_all : AgentStore → List AgentSummary
list_all s = summaries (sort_asc (λ a. a.registered_at) (select (λ a. true) s.agents_by_id))

unfoldable pub count : AgentStore → ℕ
count s = length s.agents_by_id
