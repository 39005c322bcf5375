-- ===== src/Reputation/Validation.antt =====
-- `validate_feedback` against a description of the feedback that is accepted.
use Prim.Native.String.{count as text_length}
use agent_economy.Shared.{
  ℕ, ◌≤◌, ◌≡◌, refl, ◌≢◌, ◌↔◌, inl, inr, String, Option, none, some, Bool, true, false, not, arith,
  text_eq, ◌==◌, Bool-cases, if◌then◌else◌,
}
use agent_economy.Shared.Dict.{get}
use agent_economy.Shared.Value.{Value, null, bool, int, float, str, other, Object, as_text}
use agent_economy.Shared.Action.{Error}
use agent_economy.Reputation.Rules.{
  required_fields, any_field, validate_required_fields, is_category, is_rating, wrong_type,
  is_missing, is_longer, check_values, field_text, comment_of, validate_feedback,
}

-- A required field is text and not empty.
abbrev HasText : Object → String → Type 0
HasText body name = (s : String) × (get name body ≡ some (str s)) × (s ≢ "")

-- A comment is absent, or no text, or short enough.
abbrev ShortComment : Object → ℕ → Type 0
ShortComment body n = (s : String) → get "comment" body ≡ some (str s) → text_length s ≤ n

pub record Accepted (body : Object) (max_comment_length : ℕ) : Type 0 where
  pub task : HasText body "task_id"
  pub sender : HasText body "from_agent_id"
  pub receiver : HasText body "to_agent_id"
  pub category : HasText body "category"
  pub rating : HasText body "rating"
  pub two_agents : sender.0 ≢ receiver.0
  pub known_category : is_category category.0 ≡ true
  pub known_rating : is_rating rating.0 ≡ true
  pub short : ShortComment body max_comment_length

==_false : (s t : String) → s ≢ t → (s == t) ≡ false
==_false s t h = elim (Bool-cases (s == t)) [
  | inl e ↦ absurd (h ((text_eq.same_iff s t).0 e))
  | inr e ↦ e
]

pub not_same : (s t : String) → (s == t) ≡ false → s ≢ t
not_same s t h same = ground (arith, (text_eq.same_iff s t).1 same)

text_value :
    (o : Option Value)
    → wrong_type o ≡ false
    → is_missing o ≡ false
    → (s : String) × (o ≡ some (str s)) × (s ≢ "")
text_value none h k = absurd (ground arith)
text_value (some null) h k = absurd (ground arith)
text_value (some (str s)) h k = (s, refl, not_same s "" k)
text_value (some (bool b)) h k = absurd (ground arith)
text_value (some (int z)) h k = absurd (ground arith)
text_value (some (float w)) h k = absurd (ground arith)
text_value (some other) h k = absurd (ground arith)

-- Each test is false on each field.
no_field :
    (test : Option Value → Bool) (body : Object)
    → any_field test body required_fields ≡ false
    → (test (get "task_id" body) ≡ false)
      × (test (get "from_agent_id" body) ≡ false)
      × (test (get "to_agent_id" body) ≡ false)
      × (test (get "category" body) ≡ false)
      × (test (get "rating" body) ≡ false)
unfolding any_field
no_field test body h = (ground arith, ground arith, ground arith, ground arith, ground arith)

fields_pass :
    (body : Object)
    → validate_required_fields body ≡ none
    → (any_field wrong_type body required_fields ≡ false)
      × (any_field is_missing body required_fields ≡ false)
unfolding validate_required_fields
fields_pass body h = elim (Bool-cases (any_field wrong_type body required_fields)) [
  | inl e ↦ absurd (ground arith)
  | inr e ↦ elim (Bool-cases (any_field is_missing body required_fields)) [
    | inl f ↦ absurd (ground arith)
    | inr f ↦ (e, f)
  ]
]

-- Four checks in a row.
all_pass :
    (x y z u : Error) (a b c d : Bool)
    → (if a
        then some x
        else if not b
        then some y
        else if not c
        then some z
        else if d
        then some u
        else none)
      ≡ none
    → (a ≡ false) × (b ≡ true) × (c ≡ true) × (d ≡ false)
all_pass x y z u true b c d h = absurd (ground arith)
all_pass x y z u false false c d h = absurd (ground arith)
all_pass x y z u false true false d h = absurd (ground arith)
all_pass x y z u false true true true h = absurd (ground arith)
all_pass x y z u false true true false h = (refl, refl, refl, refl)

values_pass :
    (body : Object) (n : ℕ)
    → check_values body n ≡ none
    → ((field_text "from_agent_id" body == field_text "to_agent_id" body) ≡ false)
      × (is_category (field_text "category" body) ≡ true)
      × (is_rating (field_text "rating" body) ≡ true)
      × (is_longer (comment_of body) n ≡ false)
values_pass body n h =
    all_pass _ _ _ _ (field_text "from_agent_id" body == field_text "to_agent_id" body)
      (is_category (field_text "category" body)) (is_rating (field_text "rating" body))
      (is_longer (comment_of body) n) h

field_text-str :
    (name : String) (body : Object) (s : String)
    → get name body ≡ some (str s)
    → field_text name body ≡ s
field_text-str name body s there = rw (field_text, there) refl

both_pass :
    (o c : Option Error) → (elim o [ some e ↦ some e | none ↦ c ]) ≡ none → (o ≡ none) × (c ≡ none)
both_pass none c h = (refl, h)
both_pass (some e) c h = absurd (ground arith)

is_longer-≤ :
    (o : Option String) (n : ℕ) (s : String)
    → is_longer o n ≡ false
    → o ≡ some s
    → text_length s ≤ n
is_longer-≤ none n s h k = absurd (ground arith)
is_longer-≤ (some t) n s h k = ground arith

ShortComment-is_longer :
    (body : Object) (n : ℕ) → ShortComment body n → is_longer (comment_of body) n ≡ false
ShortComment-is_longer body n short = go (get "comment" body) short
  where
    go :
        (o : Option Value)
        → ((s : String) → o ≡ some (str s) → text_length s ≤ n)
        → is_longer (elim o [ none ↦ none | some v ↦ as_text v ]) n ≡ false
    go none h = refl
    go (some null) h = refl
    go (some (bool b)) h = refl
    go (some (int z)) h = refl
    go (some (float w)) h = refl
    go (some other) h = refl
    go (some (str s)) h = let k : text_length s ≤ n = h s refl in ground arith

Accepted-required : (body : Object) (n : ℕ) → Accepted body n → validate_required_fields body ≡ none
unfolding validate_required_fields any_field
Accepted-required body n r =
    let (t, t_is, t_some) = r.task in
    let (f, f_is, f_some) = r.sender in
    let (g, g_is, g_some) = r.receiver in
    let (c, c_is, c_some) = r.category in
    let (q, q_is, q_some) = r.rating in
    rw
      (
        t_is,
        f_is,
        g_is,
        c_is,
        q_is,
        ==_false t "" t_some,
        ==_false f "" f_some,
        ==_false g "" g_some,
        ==_false c "" c_some,
        ==_false q "" q_some,
      )
      refl

Accepted-values : (body : Object) (n : ℕ) → Accepted body n → check_values body n ≡ none
Accepted-values body n r =
    rw
      (
        check_values,
        field_text-str "from_agent_id" body r.sender.0 r.sender.1,
        field_text-str "to_agent_id" body r.receiver.0 r.receiver.1,
        field_text-str "category" body r.category.0 r.category.1,
        field_text-str "rating" body r.rating.0 r.rating.1,
        ==_false r.sender.0 r.receiver.0 r.two_agents,
        r.known_category,
        r.known_rating,
        ShortComment-is_longer body n r.short,
      )
      refl

-- `validate_feedback` accepts a body exactly if the five required fields are text and not empty,
-- the two agents differ, the category and the rating are known ones, and a comment that is text is
-- not too long.
pub validate_feedback-Accepted :
    (body : Object) (n : ℕ) → (validate_feedback body n ≡ none) ↔ Accepted body n
unfolding validate_feedback
validate_feedback-Accepted body n =
    (accepted, λ r. rw (validate_feedback, Accepted-required body n r) (Accepted-values body n r))
  where
    accepted : validate_feedback body n ≡ none → Accepted body n
    accepted h =
        let (fields_ok, values_ok) =
          both_pass (validate_required_fields body) (check_values body n) h in
        let (typed, present) = fields_pass body fields_ok in
        let (t, f, g, c, q) = no_field wrong_type body typed in
        let (t', f', g', c', q') = no_field is_missing body present in
        let task = text_value (get "task_id" body) t t' in
        let sender = text_value (get "from_agent_id" body) f f' in
        let receiver = text_value (get "to_agent_id" body) g g' in
        let category = text_value (get "category" body) c c' in
        let rating = text_value (get "rating" body) q q' in
        let (differ, known, rated, short) = values_pass body n values_ok in
        record {
          task = task;
          sender = sender;
          receiver = receiver;
          category = category;
          rating = rating;
          two_agents = not_same sender.0 receiver.0 (
              rw
                (
                  field_text-str "from_agent_id" body sender.0 sender.1,
                  field_text-str "to_agent_id" body receiver.0 receiver.1,
                )
                at differ);
          known_category = rw (field_text-str "category" body category.0 category.1) at known;
          known_rating = rw (field_text-str "rating" body rating.0 rating.1) at rated;
          short = λ s there. is_longer-≤ (comment_of body) n s short (rw (comment_of, there) refl);
        }
