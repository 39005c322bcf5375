-- ===== src/Court/Panel/Votes.antt =====
-- The votes that a ruling is made of, and the range of its percentage.
use agent_economy.Shared.{
  ℕ, ◌+◌, ◌≡◌, String, some, List, [], ◌∷◌, arith, Option-cases, inl, inr, text_eq,
}
use agent_economy.Shared.Int.{ℤ, pos, ◌≤ℤ◌}
use agent_economy.Shared.Value.{int}
use agent_economy.Shared.Action.{ok, result_cases}
use agent_economy.Board.Manager.Requests.{valid_worker_pct}
use agent_economy.Court.Types.{JudgeVote, RawVote}
use agent_economy.Court.Panel.{
  DisputeContext, Judge, clamp_pct, fill_vote, read_vote, normalize_vote, votes_from,
  evaluate_judges, pcts_of, median, compute_ruling,
}
use agent_economy.Court.Panel.Median.{All, All-median}

abbrev pub IsPct : ℤ → Type 0
IsPct z = (pos 0 ≤ℤ z) × (z ≤ℤ pos 100)

clamp_pct-IsPct : (z : ℤ) → IsPct (clamp_pct z)
unfolding clamp_pct
clamp_pct-IsPct z = ground arith

clamp_pct_of_IsPct : (z : ℤ) → IsPct z → clamp_pct z ≡ z
unfolding clamp_pct
clamp_pct_of_IsPct z h = ground arith

normalize_vote-IsPct :
    (now : String) (index : ℕ) (raw : RawVote) (v : JudgeVote)
    → normalize_vote now index raw ≡ ok v
    → IsPct v.worker_pct
unfolding normalize_vote fill_vote
normalize_vote-IsPct now index raw v h = elim (result_cases (read_vote raw)) [
  | inl (u, e) ↦
      let e' : clamp_pct u.worker_pct ≡ v.worker_pct = ground arith in
      rw (← e') (clamp_pct-IsPct u.worker_pct)
  | inr (x, e) ↦ absurd (ground arith)
]

votes_from-IsPct :
    (now : String) (context : DisputeContext) (index : ℕ) (judges : List Judge)
    (votes : List JudgeVote)
    → votes_from now context index judges ≡ ok votes
    → All IsPct (pcts_of votes)
unfolding votes_from
votes_from-IsPct now context index [] votes h = let e : [] ≡ votes = ground arith in rw (← e) tt
votes_from-IsPct now context index (judge ∷ judges) votes h = elim (result_cases (judge context)) [
  | inr (x, e) ↦ absurd (ground arith)
  | inl (raw, e) ↦ elim (result_cases (normalize_vote now index raw)) [
    | inr (x, f) ↦ absurd (ground arith)
    | inl (v, f) ↦ elim (result_cases (votes_from now context (index + 1) judges)) [
      | inr (x, g) ↦ absurd (ground arith)
      | inl (vs, g) ↦
          let e' : v ∷ vs ≡ votes = ground arith in
          rw (← e') (
            normalize_vote-IsPct now index raw v f,
            votes_from-IsPct now context (index + 1) judges vs g,
          )
    ]
  ]
]

-- Whatever the judges answer, a ruling that is made gives a percentage from 0 to 100, which the
-- Task Board's own check accepts unchanged.
pub compute_ruling_bounds :
    (now : String) (context : DisputeContext) (judges : List Judge) (votes : List JudgeVote)
    (pct : ℤ) (summary : String)
    → evaluate_judges now context judges ≡ ok votes
    → compute_ruling votes ≡ ok (pct, summary)
    → (pos 0 ≤ℤ pct) × (pct ≤ℤ pos 100) × (valid_worker_pct (int pct) ≡ some pct)
unfolding evaluate_judges compute_ruling
compute_ruling_bounds now context [] votes pct summary h k = absurd (ground arith)
compute_ruling_bounds now context (judge ∷ judges) votes pct summary h k =
    elim (Option-cases (median (pcts_of votes))) [
      | inl e ↦ absurd (ground arith)
      | inr (m, e) ↦
          let same : m ≡ pct = ground arith in
          let (lo, hi) =
            All-median IsPct (pcts_of votes) m
              (votes_from-IsPct now context 0 (judge ∷ judges) votes h) e in
          rw (← same) (lo, hi, ground arith)
    ]
