-- ===== src/Court/Tests.antt =====
-- A dispute that is filed, answered and ruled, and the theorems at it.
use agent_economy.Shared.{
  ℕ, ◌+◌, ◌*◌, ◌≤◌, ◌<◌, ◌≡◌, refl, String, Option, none, some, List, [], ◌∷◌, true, text_eq,
}
use agent_economy.Shared.Int.{ℤ, pos, negsuc, ltb_ℤ}
use agent_economy.Shared.Dict.{get, set}
use agent_economy.Shared.Value.{str, Object}
use agent_economy.Shared.Text.{is_blank, decimal}
use agent_economy.Shared.Action.{ok, err, other_exception}
use agent_economy.Shared.Runs.{Ends}
use agent_economy.Board.Tokens.{Certificate, certified, Crypto}
use agent_economy.Court.Types.{Dispute, JudgeVote, integer, vote, fields, no_disputes}
use agent_economy.Court.Store.{Draws, add_dispute, new_dispute, put_ruling}
use agent_economy.Court.Panel.{
  items, TaskData, Judge, build_context, evaluate_judges, median, get_elem?, sort_pcts, insert_pct,
  votes_from, normalize_vote, fill_vote, clamp_pct, count_pcts,
}
use agent_economy.Court.Ruling.{Platform, CourtWorld, ruling_payload, execute_ruling}
use agent_economy.Court.Panel.Median.{number, median_lem}
use agent_economy.Court.Ruling.Outcome.{Reverts, RulesOn, execute_ruling-Ends}
use agent_economy.Court.Requests.{CourtState, file_request, trigger_ruling}
use agent_economy.Court.Sound.{Sound}
use agent_economy.Court.History.{start, file_next, ruling_next, Requests-Sound}
use agent_economy.Court.Store.{ruled_row, stored_votes}
use agent_economy.Court.Ruling.Progress.{execute_ruling_total}
use agent_economy.Court.Refinement.{Moves, phase, ruling_step, Serves-Moves}

abbrev votes_given : List ℤ
votes_given = pos 70 ∷ pos 20 ∷ negsuc 4 ∷ pos 90 ∷ []

median_test : median votes_given ≡ some (pos 70)
unfolding median get_elem? sort_pcts insert_pct
median_test = refl

median_lem_example :
    (m : ℤ) × (median votes_given ≡ some m)
    × (2 * number (λ y. ltb_ℤ y m) votes_given ≤ count_pcts votes_given)
    × (2 * number (λ y. ltb_ℤ m y) votes_given < count_pcts votes_given)
median_lem_example = median_lem (pos 70) (pos 20 ∷ negsuc 4 ∷ pos 90 ∷ [])

abbrev draws : Draws
draws = record { dispute_id = "disp-1"; now = 50; vote_id = λ n. "vote" }

abbrev dispute : Dispute
dispute = new_dispute draws "t-1" "alice" "bob" "not as specified" "esc-1" 900

abbrev task_data : TaskData
task_data = record {
  spec = "add";
  title = "Sum";
  reward = pos 10;
  deliverables = items ("sum.py" ∷ []);
}

-- One judge gives too much, and one gives no reason.
abbrev judges : List Judge
judges =
    (λ c. ok (
      fields (some (integer (pos 150))) (("judge_id", str "j-1") ∷ ("reasoning", str "done") ∷ [])))
    ∷ (λ c.
        ok (
          vote (record { judge_id = ""; worker_pct = pos 40; reasoning = " "; voted_at = "then" })))
    ∷ (λ c. ok (
        vote (record {
          judge_id = "j-3";
          worker_pct = pos 60;
          reasoning = "partly";
          voted_at = "then";
        })))
    ∷ []

abbrev vote_row : String → ℤ → String → String → JudgeVote
vote_row judge_id pct reasoning voted_at = record {
  judge_id = judge_id;
  worker_pct = pct;
  reasoning = reasoning;
  voted_at = voted_at;
}

abbrev votes : List JudgeVote
votes =
    vote_row "j-1" (pos 100) "done" "now"
    ∷ vote_row "judge-1" (pos 40) "No reasoning provided." "then"
    ∷ vote_row "j-3" (pos 60) "partly" "then"
    ∷ []

abbrev summary : String
summary = "done\n\nNo reasoning provided.\n\npartly"

judged : evaluate_judges "now" (build_context dispute task_data) judges ≡ ok votes
unfolding evaluate_judges votes_from normalize_vote fill_vote is_blank clamp_pct get decimal
judged = refl

-- The other services count the calls that they have accepted.
abbrev platform : Platform ℕ
platform = record {
  agent_id = "platform";
  record_ruling = λ task payload n. (ok tt, n + 1);
  submit_platform_feedback = λ payload n. (ok tt, n + 1);
  get_task = λ task n. (ok task_data, n);
}

-- The Reputation service is down.
abbrev filed : CourtWorld ℕ
filed = record { store = add_dispute dispute no_disputes; outside = 0 }

execute_ruling-Ends_example :
    Ends
      (Reverts ⦃platform = platform⦄ "disp-1" filed)
      (RulesOn ⦃platform = platform⦄ draws "now" "disp-1" judges task_data filed)
      (execute_ruling ⦃platform = platform⦄ draws "now" "disp-1" judges task_data filed)
execute_ruling-Ends_example =
    execute_ruling-Ends ⦃platform = platform⦄ draws "now" "disp-1" judges task_data filed

abbrev signed : String → Certificate
signed token = certified (
    some (
      ("action", str "file_dispute")
      ∷ ("task_id", str "t-1")
      ∷ ("claimant_id", str "alice")
      ∷ ("respondent_id", str "bob")
      ∷ ("claim", str "not as specified")
      ∷ ("escrow_id", str "esc-1")
      ∷ []))

abbrev state : CourtState
state = record {
  has_service = true;
  has_platform = true;
  validate_certificate = signed;
  max_claim_length = 1000;
  max_rebuttal_length = 1000;
  rebuttal_deadline_seconds = 900;
  judges = judges;
}

abbrev signed_ruling : String → Certificate
signed_ruling token =
    certified (some (("action", str "trigger_ruling") ∷ ("dispute_id", str "disp-1") ∷ []))

abbrev body : Option Object
body = some (("token", str "h.p.s") ∷ [])

abbrev empty : CourtWorld ℕ
empty = record { store = no_disputes; outside = 0 }

abbrev after_filing : CourtWorld ℕ
after_filing = (file_request ⦃platform = platform⦄ state draws 3 body empty).1

abbrev ruling_state : CourtState
ruling_state = record state { validate_certificate = signed_ruling }

abbrev after_ruling : CourtWorld ℕ
after_ruling =
    (trigger_ruling ⦃platform = platform⦄ ruling_state draws "now" "disp-1" body after_filing).1

Requests-Sound_example : Sound after_ruling.store
unfolding get
Requests-Sound_example = Requests-Sound ⦃platform = platform⦄ after_ruling (
    ruling_next ruling_state draws "now" "disp-1" body after_filing
      (file_next state draws 3 body empty (start 0) refl))

abbrev crypto : Crypto
crypto = record {
  verify_jws = some (λ token. ok (record {
    valid = true;
    payload = some (ruling_payload dispute "disp-1" (pos 60) summary);
    agent_id = str "platform";
  }));
  validate_certificate = λ token. certified none;
  decode_part = λ part. err other_exception;
}

Serves-Moves_example : Moves (phase "disp-1" after_filing.store) (phase "disp-1" after_ruling.store)
Serves-Moves_example =
    Serves-Moves ⦃platform = platform⦄ after_filing after_ruling
      (ruling_step ruling_state draws "now" "disp-1" body) "disp-1"

execute_ruling_total_example :
    (pct : ℤ) × (summary : String) × (c : ℕ) × (execute_ruling ⦃platform = platform⦄ draws "now"
        "disp-1" judges task_data filed
      ≡ (
        ok (ruled_row 50 pct summary dispute, stored_votes (λ n. "vote") "disp-1" votes),
        record {
          store =
              put_ruling "disp-1"
                (ruled_row 50 pct summary dispute)
                (stored_votes (λ n. "vote") "disp-1" votes)
                filed.store;
          outside = c;
        },
      ))
unfolding get set
execute_ruling_total_example =
    execute_ruling_total ⦃platform = platform⦄ draws "now" "disp-1" judges task_data filed dispute
      votes refl refl refl judged (λ payload n. (n + 1, refl)) (λ payload n. (n + 1, refl))
