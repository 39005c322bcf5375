-- ===== src/Reputation/Sealed.antt =====
-- What every table of the Reputation service satisfies: sealed feedback and the mutual reveal.
use agent_economy.Shared.{
  ◌≤◌, ◌≡◌, refl, sym, ap, ◌∙◌, inl, inr, String, Option, some, is_some, true, false, ◌||◌, arith,
  text_eq, ◌==◌, Bool-cases, Option-cases,
}
use agent_economy.Reputation.Store.{Feedback, Table, is_pair, find, show, reveal}
use agent_economy.Reputation.Requests.{is_platform}
use agent_economy.Reputation.Rows.{count_rows, find-reveal, count_rows-reveal, find-test}

-- The feedback of one agent on another for a task.
abbrev pub feedback_on : String → String → String → Table → Option Feedback
feedback_on t a b rows = find (is_pair t a b) rows

pub pair_is :
    (t a b : String) (row : Feedback)
    → is_pair t a b row ≡ true
    → (row.task_id ≡ t) × (row.from_agent_id ≡ a) × (row.to_agent_id ≡ b)
pair_is t a b row h = (
  (text_eq.same_iff row.task_id t).0 (ground arith),
  (text_eq.same_iff row.from_agent_id a).0 (ground arith),
  (text_eq.same_iff row.to_agent_id b).0 (ground arith),
)

abbrev pub OwnId : Table → Type 0
OwnId rows =
    (t a b t' a' b' : String) (r q : Feedback)
    → feedback_on t a b rows ≡ some r
    → feedback_on t' a' b' rows ≡ some q
    → r.feedback_id ≡ q.feedback_id
    → r ≡ q

abbrev pub OneOpen : Table → Type 0
OneOpen rows =
    (t a b : String) (r q : Feedback)
    → feedback_on t a b rows ≡ some r
    → feedback_on t b a rows ≡ some q
    → (r.visible || q.visible) ≡ true

abbrev pub Answered : Option String → Table → Type 0
Answered p rows =
    (t a b : String) (r : Feedback)
    → feedback_on t a b rows ≡ some r
    → r.visible ≡ true
    → is_platform p a ≡ false
    → is_some (feedback_on t b a rows) ≡ true

-- Two agents, neither of them the platform's, that have rated each other can read each other's rating.
abbrev pub Mutual : Option String → Table → Type 0
Mutual p rows =
    (t a b : String) (r q : Feedback)
    → feedback_on t a b rows ≡ some r
    → feedback_on t b a rows ≡ some q
    → is_platform p a ≡ false
    → is_platform p b ≡ false
    → r.visible ≡ true

-- An agent rates another at most once for a task; a feedback has its own identifier; of a pair that
-- rates each other at least one is visible, and both are if neither is from the platform agent; and
-- what is visible, and not from the platform agent, has its answer.
pub record Sealed (p : Option String) (rows : Table) : Type 0 where
  pub once : (t a b : String) → count_rows (is_pair t a b) rows ≤ 1
  pub own_id : OwnId rows
  pub one_open : OneOpen rows
  pub both_read : Mutual p rows
  pub answered : Answered p rows

-- A row that is found after a reveal was there before it.
pub reveal_cases :
    (rows : Table) (t a b i j : String) (r : Feedback)
    → feedback_on t a b (reveal i j rows) ≡ some r
    → (x : Feedback) × (feedback_on t a b rows ≡ some x) × (show i j x ≡ r)
reveal_cases rows t a b i j r h = elim (Option-cases (feedback_on t a b rows)) [
  | inl missing ↦ absurd (ground (arith, find-reveal (is_pair t a b) i j rows (λ f. refl)))
  | inr (x, there) ↦ (x, there, ground (arith, find-reveal (is_pair t a b) i j rows (λ f. refl)))
]

pub OwnId-reveal : (rows : Table) (i j : String) → OwnId rows → OwnId (reveal i j rows)
OwnId-reveal rows i j own t a b t' a' b' r q h k same =
    let (x, x_there, x_is) = reveal_cases rows t a b i j r h in
    let (y, y_there, y_is) = reveal_cases rows t' a' b' i j q k in
    let ids : x.feedback_id ≡ y.feedback_id =
      ap (λ (f : Feedback). f.feedback_id) x_is
      ∙ same
      ∙ ap (λ (f : Feedback). f.feedback_id) (sym y_is) in
    sym x_is ∙ ap (show i j) (own t a b t' a' b' x y x_there y_there ids) ∙ y_is

pub once-reveal :
    (rows : Table) (i j : String)
    → ((t a b : String) → count_rows (is_pair t a b) rows ≤ 1)
    → (t a b : String) → count_rows (is_pair t a b) (reveal i j rows) ≤ 1
once-reveal rows i j once t a b =
    rw (count_rows-reveal (is_pair t a b) i j rows (λ f. refl)) (once t a b)

-- A row that has an answer, under whichever names it is found.
answer_of :
    (rows : Table) (t a b t' a' b' : String) (r q x : Feedback)
    → feedback_on t a b rows ≡ some r
    → feedback_on t b a rows ≡ some q
    → feedback_on t' a' b' rows ≡ some x
    → x ≡ r
    → is_some (feedback_on t' b' a' rows) ≡ true
answer_of rows t a b t' a' b' r q x h k there same =
    let (task, from, to) = pair_is t a b r (find-test (is_pair t a b) rows r h) in
    let (task', from', to') = pair_is t' a' b' x (find-test (is_pair t' a' b') rows x there) in
    let task_is : t ≡ t' = sym task ∙ ap (λ (f : Feedback). f.task_id) (sym same) ∙ task' in
    let from_is : a ≡ a' = sym from ∙ ap (λ (f : Feedback). f.from_agent_id) (sym same) ∙ from' in
    let to_is : b ≡ b' = sym to ∙ ap (λ (f : Feedback). f.to_agent_id) (sym same) ∙ to' in
    rw (← task_is, ← from_is, ← to_is, k) refl

is_some-reveal :
    (rows : Table) (t a b i j : String)
    → is_some (feedback_on t a b rows) ≡ true
    → is_some (feedback_on t a b (reveal i j rows)) ≡ true
is_some-reveal rows t a b i j h = ground (arith, find-reveal (is_pair t a b) i j rows (λ f. refl))

-- Two rows that answer each other are revealed.
pub Answered-reveal :
    (p : Option String) (rows : Table) (t a b : String) (r q : Feedback)
    → feedback_on t a b rows ≡ some r
    → feedback_on t b a rows ≡ some q
    → OwnId rows
    → Answered p rows
    → Answered p (reveal r.feedback_id q.feedback_id rows)
Answered-reveal p rows t a b r q h k own answered t' a' b' s there seen plain =
    let (x, x_there, x_is) = reveal_cases rows t' a' b' r.feedback_id q.feedback_id s there in
    let seen_x : (show r.feedback_id q.feedback_id x).visible ≡ true =
      ap (λ (f : Feedback). f.visible) x_is ∙ seen in
    is_some-reveal rows t' b' a' r.feedback_id q.feedback_id (elim (Bool-cases x.visible) [
      | inl before ↦ answered t' a' b' x x_there before plain
      | inr hidden ↦ elim (Bool-cases (x.feedback_id == r.feedback_id)) [
        | inl id ↦
            answer_of rows t a b t' a' b' r q x h k x_there (
              own t' a' b' t a b x r x_there h
                ((text_eq.same_iff x.feedback_id r.feedback_id).0 id))
        | inr other ↦
            let id : (x.feedback_id == q.feedback_id) ≡ true = ground arith in
            answer_of rows t b a t' a' b' q r x k h x_there (
              own t' a' b' t b a x q x_there k
                ((text_eq.same_iff x.feedback_id q.feedback_id).0 id))
      ]
    ])
