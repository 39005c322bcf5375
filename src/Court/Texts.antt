-- ===== src/Court/Texts.antt =====
-- The texts that the Court sends: a summary that is cut, and reasons that are joined.
use Prim.Native.String.{count, ◌++◌ as text_append}
use text.Mathlib.TextLemmas.{length-nil, length-cons, length-append}
use agent_economy.Shared.{
  ℕ, zero, suc, ◌+◌, ◌≤◌, ◌≡◌, refl, String, List, [], ◌∷◌, false, arith, Bool-cases, inl, inr,
  text_eq,
}
use agent_economy.Shared.Text.{is_blank, take_text, join}
use agent_economy.Shared.Action.{ok, result_cases}
use agent_economy.Court.Types.{JudgeVote, RawVote}
use agent_economy.Court.Panel.{
  DisputeContext, Judge, no_reasoning, fill_vote, read_vote, normalize_vote, votes_from,
  evaluate_judges, reasons_of, unless_blank,
}

pub count-take_text : (n : ℕ) (s : String) → count (take_text n s) ≤ n
unfolding take_text
count-take_text zero s = ground (arith, length-nil)
count-take_text (suc n) String.[] = ground (arith, length-nil)
count-take_text (suc n) (String.◌∷◌ c s) =
    ground (arith, length-cons c (take_text n s), count-take_text n s)

count_of_text : (s : String) → is_blank s ≡ false → 1 ≤ count s
unfolding is_blank
count_of_text String.[] h = absurd (ground arith)
count_of_text (String.◌∷◌ c s) h = ground (arith, length-cons c s)

-- Reasons are joined to a text that is not empty.
abbrev pub HasReason : List String → Type 0
HasReason [] = ⊥
HasReason (s ∷ ss) = is_blank s ≡ false

pub count-join :
    (separator : String) (texts : List String) → HasReason texts → 1 ≤ count (join separator texts)
unfolding join
count-join separator [] h = absurd h
count-join separator (s ∷ []) h = count_of_text s h
count-join separator (s ∷ t ∷ ts) h =
    let first = count_of_text s h in
    ground (arith, length-append s (text_append separator (join separator (t ∷ ts))))

unless_blank-is_blank : (s : String) → is_blank (unless_blank no_reasoning s) ≡ false
unfolding is_blank
unless_blank-is_blank s = elim (Bool-cases (is_blank s)) [
  | inl e ↦ rw e refl
  | inr e ↦ rw (e, e) refl
]

normalize_vote-reasoning :
    (now : String) (index : ℕ) (raw : RawVote) (v : JudgeVote)
    → normalize_vote now index raw ≡ ok v
    → is_blank v.reasoning ≡ false
unfolding normalize_vote fill_vote
normalize_vote-reasoning now index raw v h = elim (result_cases (read_vote raw)) [
  | inl (u, e) ↦
      let e' : unless_blank no_reasoning u.reasoning ≡ v.reasoning = ground arith in
      rw (← e') (unless_blank-is_blank u.reasoning)
  | inr (x, e) ↦ absurd (ground arith)
]

-- Votes have a reason each, so that the first one has.
pub evaluate_judges-HasReason :
    (now : String) (context : DisputeContext) (judges : List Judge) (votes : List JudgeVote)
    → evaluate_judges now context judges ≡ ok votes
    → HasReason (reasons_of votes)
unfolding evaluate_judges votes_from
evaluate_judges-HasReason now context [] votes h = absurd (ground arith)
evaluate_judges-HasReason now context (judge ∷ judges) votes h =
    elim (result_cases (judge context)) [
      | inr (x, e) ↦ absurd (ground arith)
      | inl (raw, e) ↦ elim (result_cases (normalize_vote now 0 raw)) [
        | inr (x, f) ↦ absurd (ground arith)
        | inl (v, f) ↦ elim (result_cases (votes_from now context (0 + 1) judges)) [
          | inr (x, g) ↦ absurd (ground arith)
          | inl (vs, g) ↦
              let e' : v ∷ vs ≡ votes = ground arith in
              rw (← e') (normalize_vote-reasoning now 0 raw v f)
        ]
      ]
    ]
