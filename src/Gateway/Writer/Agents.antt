-- ===== src/Gateway/Writer/Agents.antt =====
-- Agents in the gateway: `register_agent`, `_lookup_agent_by_public_key` and `_agent_matches`.
use agent_economy.Shared.{ℕ, String, List, [], ◌∷◌, Bool, not, ◌&&◌, text_eq, ◌==◌}
use agent_economy.Shared.Action.{
  Action, Error, pure, handle, raise_if, or_raise, ◌>>=◌, ◌>>◌, service_error, public_key_exists,
}
use agent_economy.Gateway.Sql.{text, Row, Connection, cell, shown}
use agent_economy.Gateway.Schema.{mentions}
use agent_economy.Gateway.Statements.{
  Event, begin, commit, insert, insert_event, select_row, key_is,
}
use agent_economy.Gateway.Writer.Handlers.{on_integrity, refuse_foreign}

pub record NewAgent : Type 0 where
  pub agent_id : String
  pub name : String
  pub public_key : String
  pub registered_at : String
  pub event : Event

-- An identifier, and the number of the event; 0 for a row that was there.
pub record Written : Type 0 where
  pub id : String
  pub event_id : ℕ

abbrev agent_row : NewAgent → Row
agent_row request =
    ("agent_id", text request.agent_id)
    ∷ ("name", text request.name)
    ∷ ("public_key", text request.public_key)
    ∷ ("registered_at", text request.registered_at)
    ∷ []

abbrev agent_matches : Row → NewAgent → Bool
agent_matches row request =
    (shown (cell "name" row) == request.name)
    && (shown (cell "registered_at" row) == request.registered_at)

abbrev pub already_registered : Error
already_registered = service_error public_key_exists 409

abbrev pub register : NewAgent → Action Connection Written
register request = do
  begin
  insert "identity_agents" (agent_row request)
  event_id ← insert_event request.event
  commit
  pure (record { id = request.agent_id; event_id = event_id })

abbrev pub replay_registration : NewAgent → List String → Action Connection Written
replay_registration request names = do
  raise_if (not (mentions "public_key" names)) already_registered
  found ← select_row "identity_agents" (key_is "public_key" request.public_key)
  row ← or_raise found already_registered
  raise_if (not (agent_matches row request)) already_registered
  pure (record { id = shown (cell "agent_id" row); event_id = 0 })

unfoldable pub register_agent : NewAgent → Action Connection Written
unfolding cell shown mentions
register_agent request =
    handle (register request) (on_integrity (replay_registration request) refuse_foreign)
