-- ===== src/Court/Types.antt =====
-- The rows of `InMemoryDisputeStore`
-- (services/court/src/court_service/services/in_memory_dispute_store.py) and what judges are given
-- and return.
use agent_economy.Shared.{ℕ, String, Option, Bool, List, [], nat_beq}
use agent_economy.Shared.Int.{ℤ}
use agent_economy.Shared.Dict.{Dict}
use agent_economy.Shared.Value.{Object}

pub data DisputeStatus : Type 0 where
  rebuttal_pending rebuttal_submitted judging ruled : DisputeStatus

abbrev pub dispute_rank : DisputeStatus → ℕ
dispute_rank rebuttal_pending = 0
dispute_rank rebuttal_submitted = 1
dispute_rank judging = 2
dispute_rank ruled = 3

abbrev pub dispute_text : DisputeStatus → String
dispute_text rebuttal_pending = "rebuttal_pending"
dispute_text rebuttal_submitted = "rebuttal_submitted"
dispute_text judging = "judging"
dispute_text ruled = "ruled"

-- Equality of the two status texts.
abbrev pub same_dispute_status : DisputeStatus → DisputeStatus → Bool
same_dispute_status s t = nat_beq (dispute_rank s) (dispute_rank t)

-- Times are microseconds since the epoch.
pub record Dispute : Type 0 where
  pub dispute_id : String
  pub task_id : String
  pub claimant_id : String
  pub respondent_id : String
  pub claim : String
  pub rebuttal : Option String
  pub status : DisputeStatus
  pub rebuttal_deadline : ℕ
  pub worker_pct : Option ℤ
  pub ruling_summary : Option String
  pub escrow_id : String
  pub filed_at : ℕ
  pub rebutted_at : Option ℕ
  pub ruled_at : Option ℕ

-- `JudgeVote`, and the row that is stored for it.
pub record JudgeVote : Type 0 where
  pub judge_id : String
  pub worker_pct : ℤ
  pub reasoning : String
  pub voted_at : String

pub record StoredVote : Type 0 where
  pub vote_id : String
  pub dispute_id : String
  pub vote : JudgeVote

-- What a judge's dictionary has under `worker_pct`: an integer, or something else. A Boolean, which
-- Python takes for an integer and which the ruling would send on as it is, is not in the model.
pub data Percentage : Type 0 where
  integer : ℤ → Percentage
  no_number : Percentage

-- What a judge returns: a `JudgeVote`, a dict (its percentage apart), or something else.
pub data RawVote : Type 0 where
  vote : JudgeVote → RawVote
  fields : Option Percentage → Object → RawVote
  unsupported : RawVote

-- `_DisputeDbState`, without its lock.
pub record DisputeStore : Type 0 where
  pub disputes : Dict String Dispute
  pub dispute_id_by_task : Dict String String
  pub votes_by_dispute : Dict String (List StoredVote)

abbrev pub no_disputes : DisputeStore
no_disputes = record { disputes = []; dispute_id_by_task = []; votes_by_dispute = [] }
