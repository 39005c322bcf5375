-- ===== src/Reputation/Tests.antt =====
-- Two agents that rate each other, and the theorems at them.
use agent_economy.Shared.{◌≡◌, ◌↔◌, refl, String, Option, none, some, [], ◌∷◌, true, text_eq}
use agent_economy.Shared.Value.{str, Object}
use agent_economy.Shared.Action.{ok}
use agent_economy.Reputation.Store.{Table, Draw}
use agent_economy.Reputation.Rules.{validate_feedback}
use agent_economy.Reputation.Requests.{ReputationState, submit_request}
use agent_economy.Reputation.Validation.{Accepted, validate_feedback-Accepted}
use agent_economy.Reputation.Sealed.{Sealed}
use agent_economy.Reputation.History.{start, next, Submissions-Sealed}

abbrev rating_from : String → String → Object
rating_from a b =
    ("action", str "submit_feedback")
    ∷ ("task_id", str "t-1")
    ∷ ("from_agent_id", str a)
    ∷ ("to_agent_id", str b)
    ∷ ("category", str "spec_quality")
    ∷ ("rating", str "satisfied")
    ∷ []

-- A service to which one agent has signed.
abbrev state : String → String → ReputationState
state a b = record {
  verify_jws =
      some (λ token. ok (record { valid = true; payload = some (rating_from a b); agent_id = a }));
  has_store = true;
  platform_agent_id = some "platform";
  feedback_max_comment_length = 256;
  feedback_reveal_timeout_seconds = 86400;
}

abbrev draw : String → Draw
draw id = record { feedback_id = id; now = 7 }

abbrev body : Option Object
body = some (("token", str "h.p.s") ∷ [])

abbrev one : Table
one = (submit_request (state "alice" "bob") (draw "fb-1") body []).1

abbrev two : Table
two = (submit_request (state "bob" "alice") (draw "fb-2") body one).1

Submissions-Sealed_example : Sealed (some "platform") two
Submissions-Sealed_example = Submissions-Sealed (some "platform") two (
    next (state "bob" "alice") (draw "fb-2") body one refl
      (next (state "alice" "bob") (draw "fb-1") body [] refl start))

validate_feedback-Accepted_example :
    (validate_feedback (rating_from "alice" "bob") 256 ≡ none)
    ↔ Accepted (rating_from "alice" "bob") 256
validate_feedback-Accepted_example = validate_feedback-Accepted (rating_from "alice" "bob") 256
