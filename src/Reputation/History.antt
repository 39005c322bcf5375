-- ===== src/Reputation/History.antt =====
-- Submissions to the Reputation service, one after the other.
use agent_economy.Shared.{
  not, ℕ, ◌≡◌, refl, inl, inr, String, Option, none, some, [], Bool, true, false, arith, text_eq,
  ◌==◌, ==_refl, Bool-cases, if◌then◌else◌,
}
use agent_economy.Shared.Action.{ok, err}
use agent_economy.Shared.Runs.{Ends}
use agent_economy.Reputation.Store.{
  Feedback, Table, is_pair, find, any_row, clashes, reveal, reveal_pair, insert_row,
}
use agent_economy.Reputation.Requests.{is_platform}
use agent_economy.Reputation.Rows.{count_rows, any_row-count}
use agent_economy.Shared.Dict.{get, pop, get-pop}
use agent_economy.Shared.Value.{Value, null, bool, int, float, str, other, Object, as_text}
use agent_economy.Shared.Action.{
  Result, pure, invalid_json, invalid_payload, invalid_jws, forbidden, service_error,
}
use agent_economy.Shared.Runs.{Runs, run_handle, run_raise_if, run_or_raise, run_lift}
use agent_economy.Reputation.Store.{Draw, insert_feedback, new_row}
use agent_economy.Reputation.Rules.{
  submit_feedback, validate_feedback, field_text, comment_of, refuse, as_feedback_error,
}
use agent_economy.Reputation.Requests.{
  ReputationState, submit_request, extract_token, not_ready, is_action, nonempty, text_field,
}
use agent_economy.Reputation.Sealed.{
  feedback_on, Sealed, OwnId-reveal, once-reveal, Answered-reveal,
}
use agent_economy.Reputation.Added.{
  Settled, added, feedback_on-added, OwnId-added, Answered-added, once-added, OneOpen-added,
  OneOpen-revealed, Mutual-added, Mutual-revealed,
}

-- How an insertion ends, by whether the row is visible and by its answer.
reveal_pair-Ends :
    (P : Table → Type 0) (row : Feedback) (table : Table) (seen : Bool) (answer : Option Feedback)
    → (seen ≡ true → P table)
    → (seen ≡ false → answer ≡ none → P table)
    → ((q : Feedback)
        → seen ≡ false
        → answer ≡ some q
        → P (reveal row.feedback_id q.feedback_id table))
    → Ends P (λ _ v. P v) ((if seen then pure row else reveal_pair row answer) table)
reveal_pair-Ends P row table true answer h k l = h refl
reveal_pair-Ends P row table false none h k l = k refl refl
reveal_pair-Ends P row table false (some q) h k l = l q refl refl

row_added :
    (row : Feedback) (rows : Table)
    → any_row (is_pair row.task_id row.from_agent_id row.to_agent_id) rows ≡ false
    → feedback_on row.task_id row.from_agent_id row.to_agent_id (added row rows) ≡ some row
row_added row rows free =
    let (_, missing) =
      any_row-count (is_pair row.task_id row.from_agent_id row.to_agent_id) rows free in
    ground (
      arith,
      feedback_on-added row rows row.task_id row.from_agent_id row.to_agent_id,
      ==_refl row.task_id,
      ==_refl row.from_agent_id,
      ==_refl row.to_agent_id,
    )

insert_row-Sealed :
    (p : Option String) (row : Feedback) (rows : Table)
    → (row.visible ≡ true → is_platform p row.from_agent_id ≡ true)
    → Sealed p rows
    → Ends (Sealed p) (λ _ v. Sealed p v) (insert_row row rows)
unfolding insert_row
insert_row-Sealed p row rows forced sealed = elim (Bool-cases (clashes row rows)) [
  | inl clash ↦ rw clash sealed
  | inr free ↦
      let new_id : any_row (λ r. r.feedback_id == row.feedback_id) rows ≡ false = ground arith in
      let new_pair : any_row (is_pair row.task_id row.from_agent_id row.to_agent_id) rows ≡ false =
        ground arith in
      let once = once-added row rows new_pair sealed.once in
      let own = OwnId-added row rows new_id sealed.own_id in
      let answered = Answered-added row rows p forced sealed.answered in
      let settled : Settled row rows → Sealed p (added row rows) = λ h. record {
        once = once;
        own_id = own;
        one_open = OneOpen-added row rows h sealed.one_open;
        both_read = Mutual-added row rows p forced h sealed.both_read;
        answered = answered;
      } in
      rw free (
        reveal_pair-Ends (Sealed p) row (added row rows) row.visible
          (feedback_on row.task_id row.to_agent_id row.from_agent_id (added row rows))
          (λ seen. settled (inl seen)) (λ _ alone. settled (inr alone))
          (λ q _ there. record {
            once = once-reveal (added row rows) row.feedback_id q.feedback_id once;
            own_id = OwnId-reveal (added row rows) row.feedback_id q.feedback_id own;
            one_open = OneOpen-revealed row rows q.feedback_id sealed.one_open;
            both_read = Mutual-revealed row rows p q there sealed.both_read;
            answered =
                Answered-reveal p (added row rows) row.task_id row.from_agent_id row.to_agent_id row
                  q (row_added row rows new_pair) there own answered;
          }))
]

submit_feedback-Sealed :
    (p : Option String) (d : Draw) (body : Object) (n : ℕ) (forced : Bool) (rows : Table)
    → (forced ≡ true → is_platform p (field_text "from_agent_id" body) ≡ true)
    → Sealed p rows
    → Ends (Sealed p) (λ _ v. Sealed p v) (submit_feedback d body n forced rows)
unfolding submit_feedback insert_feedback
submit_feedback-Sealed p d body n forced rows h sealed =
    (run_lift (refuse (validate_feedback body n)) _ sealed (λ _ _.
      run_handle
        (insert_row (
          new_row d (field_text "task_id" body) (field_text "from_agent_id" body)
            (field_text "to_agent_id" body) (field_text "category" body) (field_text "rating" body)
            (comment_of body) forced))
        as_feedback_error (record { ends = insert_row-Sealed p _ rows h sealed }))).ends

-- The text that has been compared with the signer is the one that is stored.
sender_text :
    (payload : Object) (sender : String)
    → nonempty (text_field "from_agent_id" payload) ≡ some sender
    → field_text "from_agent_id" (pop "action" payload) ≡ sender
sender_text payload sender h =
    rw (field_text, get-pop "action" "from_agent_id" payload) (go (get "from_agent_id" payload) h)
  where
    go :
        (o : Option Value)
        → nonempty (elim o [ none ↦ none | some v ↦ as_text v ]) ≡ some sender
        → (elim o [ none ↦ "" | some v ↦ elim (as_text v) [ none ↦ "" | some s ↦ s ] ]) ≡ sender
    go none k = absurd (ground arith)
    go (some null) k = absurd (ground arith)
    go (some (bool b)) k = absurd (ground arith)
    go (some (int z)) k = absurd (ground arith)
    go (some (float w)) k = absurd (ground arith)
    go (some other) k = absurd (ground arith)
    go (some (str s)) k = ground arith

signer : (s t : String) → not (s == t) ≡ false → s ≡ t
signer s t h = (text_eq.same_iff s t).0 (ground arith)

submit_request-Sealed :
    (state : ReputationState) (d : Draw) (body : Option Object) (rows : Table)
    → Sealed state.platform_agent_id rows
    → Runs
        (Sealed state.platform_agent_id)
        rows
        (submit_request state d body)
        (λ _ v. Sealed state.platform_agent_id v)
unfolding submit_request
submit_request-Sealed state d body rows sealed =
    run_or_raise body (service_error invalid_json 400) _ sealed (λ request _.
      run_lift (extract_token request) _ sealed (λ token _.
        run_or_raise state.verify_jws not_ready _ sealed (λ verify _.
          run_raise_if (not state.has_store) not_ready _ sealed (λ _.
            run_lift (verify token) _ sealed (λ verdict _.
              run_raise_if (not verdict.valid) (service_error forbidden 403) _ sealed (λ _.
                run_or_raise verdict.payload (service_error invalid_payload 400) _ sealed
                  (λ payload _.
                    run_raise_if (verdict.agent_id == "") (service_error invalid_jws 400) _ sealed
                      (λ _.
                        run_raise_if (not (is_action (get "action" payload) "submit_feedback"))
                          (service_error invalid_payload 400) _ sealed
                          (λ _.
                            run_or_raise (nonempty (text_field "from_agent_id" payload))
                              (service_error invalid_payload 400) _ sealed
                              (λ sender sender_is.
                                run_raise_if (not (verdict.agent_id == sender))
                                  (service_error forbidden 403) _ sealed
                                  (λ same. record {
                                    ends =
                                        submit_feedback-Sealed state.platform_agent_id d
                                          (pop "action" payload) state.feedback_max_comment_length
                                          (is_platform state.platform_agent_id verdict.agent_id)
                                          rows
                                          (λ h.
                                            rw
                                              (
                                                sender_text payload sender sender_is,
                                                ← signer verdict.agent_id sender same,
                                              )
                                              h)
                                          sealed;
                                  })))))))))))

-- Any submissions to one service with a platform agent or none; identifiers may even repeat.
pub data Submissions (p : Option String) : Table → Type 0 where
  start : Submissions p []
  next :
      (state : ReputationState) (d : Draw) (body : Option Object) (rows : Table)
      → state.platform_agent_id ≡ p
      → Submissions p rows
      → Submissions p (submit_request state d body rows).1

ending :
    (p : Option String) (o : Result Feedback × Table)
    → Ends (Sealed p) (λ _ v. Sealed p v) o
    → Sealed p o.1
ending p (err e, v) h = h
ending p (ok x, v) h = h

no_feedback-Sealed : (p : Option String) → Sealed p []
unfolding count_rows find
no_feedback-Sealed p = record {
  once = λ t a b. omega arith;
  own_id = λ t a b t' a' b' r q h k same. absurd (ground arith);
  one_open = λ t a b r q h k. absurd (ground arith);
  both_read = λ t a b r q h k plain other. absurd (ground arith);
  answered = λ t a b r h seen plain. absurd (ground arith);
}

-- After any submissions, accepted or refused, an agent rates another at most once for a task, and
-- an identifier belongs to one feedback. Of two agents that rate each other for a task at least one
-- rating is marked as visible, and both are if neither agent is the platform's. A rating that is
-- marked as visible is answered or comes from the platform agent: until then it is sealed. (The mark is
-- the table's column; that a reader is shown an unanswered rating once its time is out is apart.)
pub Submissions-Sealed : (p : Option String) (rows : Table) → Submissions p rows → Sealed p rows
Submissions-Sealed p _ start = no_feedback-Sealed p
Submissions-Sealed p _ (next state d body rows same before) =
    ending p _ (submissions-step (Submissions-Sealed p rows before))
  where
    submissions-step :
        Sealed p rows → Ends (Sealed p) (λ _ v. Sealed p v) (submit_request state d body rows)
    submissions-step sealed =
        rw (← same) (submit_request-Sealed state d body rows (rw same sealed)).ends
