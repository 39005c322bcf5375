-- ===== src/Reputation/Added.antt =====
-- What the insertion of a row keeps, before and after the reveal that may follow.
use agent_economy.Shared.{
  ◌≤◌, ◌≡◌, sym, ap, ◌∙◌, ◌⊎◌, inl, inr, String, Option, none, some, [], ◌∷◌, ◌++◌, true, false,
  arith, text_eq, ◌==◌, Bool-cases, Option-cases, if◌then◌else◌,
}
use agent_economy.Reputation.Store.{Feedback, Table, is_pair, any_row, show, reveal}
use agent_economy.Reputation.Requests.{is_platform}
use agent_economy.Reputation.Rows.{
  first, count_rows, find-append, count_rows-append, any_row-count, find-any_row,
}
use agent_economy.Reputation.Sealed.{
  feedback_on, pair_is, OwnId, OneOpen, Answered, Mutual, reveal_cases,
}

module _ (row : Feedback) (rows : Table) where
  abbrev pub added : Table
  added = rows ++ (row ∷ [])

  pub feedback_on-added :
      (t a b : String)
      → feedback_on t a b added
        ≡ first (feedback_on t a b rows) (if is_pair t a b row then some row else none)
  feedback_on-added t a b = find-append (is_pair t a b) row rows

  -- A row that is found afterwards was there, or is the new one.
  added_cases :
      (t a b : String) (r : Feedback)
      → feedback_on t a b added ≡ some r
      → (feedback_on t a b rows ≡ some r)
        ⊎ ((r ≡ row) × (is_pair t a b row ≡ true) × (feedback_on t a b rows ≡ none))
  added_cases t a b r h = elim (Option-cases (feedback_on t a b rows)) [
    | inr (x, there) ↦ inl (ground (arith, feedback_on-added t a b))
    | inl missing ↦ elim (Bool-cases (is_pair t a b row)) [
      | inl new ↦ inr (ground (arith, feedback_on-added t a b), new, missing)
      | inr other ↦ absurd (ground (arith, feedback_on-added t a b))
    ]
  ]

  is_new :
      any_row (λ r. r.feedback_id == row.feedback_id) rows ≡ false
      → (t a b : String) (r : Feedback) → feedback_on t a b rows ≡ some r
      → r.feedback_id ≡ row.feedback_id
      → false ≡ true
  is_new fresh t a b r h same =
      sym fresh
      ∙ find-any_row (is_pair t a b) (λ r. r.feedback_id == row.feedback_id) rows r h
          ((text_eq.same_iff r.feedback_id row.feedback_id).1 same)

  pub OwnId-added :
      any_row (λ r. r.feedback_id == row.feedback_id) rows ≡ false → OwnId rows → OwnId added
  OwnId-added fresh own t a b t' a' b' r q h k same = elim (added_cases t a b r h) [
    | inl x ↦ elim (added_cases t' a' b' q k) [
      | inl y ↦ own t a b t' a' b' r q x y same
      | inr (y, _, _) ↦
          absurd
            (ground (arith, is_new fresh t a b r x (same ∙ ap (λ (f : Feedback). f.feedback_id) y)))
    ]
    | inr (x, _, _) ↦ elim (added_cases t' a' b' q k) [
      | inl y ↦ absurd (
          ground
            (arith, is_new fresh t' a' b' q y (sym same ∙ ap (λ (f : Feedback). f.feedback_id) x)))
      | inr (y, _, _) ↦ x ∙ sym y
    ]
  ]

  pub Answered-added :
      (p : Option String)
      → (row.visible ≡ true → is_platform p row.from_agent_id ≡ true)
      → Answered p rows
      → Answered p added
  Answered-added p forced answered t a b r h seen plain = elim (added_cases t a b r h) [
    | inl x ↦ ground (arith, feedback_on-added t b a, answered t a b r x seen plain)
    | inr (x, new, _) ↦
        let platform = forced (ap (λ (f : Feedback). f.visible) (sym x) ∙ seen) in
        let from = (pair_is t a b row new).1 in absurd (ground (arith, ap (is_platform p) from))
  ]

  pub once-added :
      any_row (is_pair row.task_id row.from_agent_id row.to_agent_id) rows ≡ false
      → ((t a b : String) → count_rows (is_pair t a b) rows ≤ 1)
      → (t a b : String) → count_rows (is_pair t a b) added ≤ 1
  once-added free once t a b = elim (Bool-cases (is_pair t a b row)) [
    | inr other ↦ ground (arith, count_rows-append (is_pair t a b) row rows, once t a b)
    | inl new ↦
        let (task, from, to) = pair_is t a b row new in
        let here : any_row (is_pair t a b) rows ≡ false = rw (← task, ← from, ← to) free in
        ground (
          arith,
          count_rows-append (is_pair t a b) row rows,
          any_row-count (is_pair t a b) rows here,
        )
  ]

  -- No reveal is needed: the new row is visible, or it has no answer.
  abbrev pub Settled : Type 0
  Settled =
      (row.visible ≡ true)
      ⊎ (feedback_on row.task_id row.to_agent_id row.from_agent_id added ≡ none)

  new_is_seen :
      Settled
      → (t a b : String) (r q : Feedback) → r ≡ row
      → is_pair t a b row ≡ true
      → feedback_on t b a added ≡ some q
      → r.visible ≡ true
  new_is_seen (inl seen) t a b r q same new k = ap (λ (f : Feedback). f.visible) same ∙ seen
  new_is_seen (inr alone) t a b r q same new k =
      let (task, from, to) = pair_is t a b row new in
      let none_here : feedback_on t b a added ≡ none = rw (← task, ← from, ← to) alone in
      absurd (ground arith)

  pub OneOpen-added : Settled → OneOpen rows → OneOpen added
  OneOpen-added settled one_open t a b r q h k = elim (added_cases t a b r h) [
    | inl x ↦ elim (added_cases t b a q k) [
      | inl y ↦ one_open t a b r q x y
      | inr (y, new, _) ↦ let seen = new_is_seen settled t b a q r y new h in ground arith
    ]
    | inr (x, new, _) ↦ let seen = new_is_seen settled t a b r q x new k in ground arith
  ]

  -- After a reveal of the new row and another.
  pub OneOpen-revealed : (j : String) → OneOpen rows → OneOpen (reveal row.feedback_id j added)
  OneOpen-revealed j one_open t a b r q h k =
      let (x, x_there, x_is) = reveal_cases added t a b row.feedback_id j r h in
      let (y, y_there, y_is) = reveal_cases added t b a row.feedback_id j q k in
      let r_seen : (show row.feedback_id j x).visible ≡ r.visible =
        ap (λ (f : Feedback). f.visible) x_is in
      let q_seen : (show row.feedback_id j y).visible ≡ q.visible =
        ap (λ (f : Feedback). f.visible) y_is in
      elim (added_cases t a b x x_there) [
        | inl u ↦ elim (added_cases t b a y y_there) [
          | inl v ↦ let before = one_open t a b x y u v in ground arith
          | inr (v, _, _) ↦
              let id : y.feedback_id ≡ row.feedback_id = ap (λ (f : Feedback). f.feedback_id) v in
              ground (arith, text_eq.same_iff y.feedback_id row.feedback_id)
        ]
        | inr (u, _, _) ↦
            let id : x.feedback_id ≡ row.feedback_id = ap (λ (f : Feedback). f.feedback_id) u in
            ground (arith, text_eq.same_iff x.feedback_id row.feedback_id)
      ]

  -- The answer to the new row, under whichever names it is found.
  answer_is :
      (t a b : String) (x q : Feedback)
      → feedback_on row.task_id row.to_agent_id row.from_agent_id added ≡ some q
      → is_pair t b a row ≡ true
      → feedback_on t a b added ≡ some x
      → x ≡ q
  answer_is t a b x q there new h =
      let (task, from, to) = pair_is t b a row new in
      let here : feedback_on t a b added ≡ some q = rw (← task, ← from, ← to) there in
      ground (arith, h, here)

  from_other :
      (p : Option String) (t a b : String)
      → (row.visible ≡ true → is_platform p row.from_agent_id ≡ true)
      → is_pair t b a row ≡ true
      → is_platform p b ≡ false
      → row.visible ≡ true
      → false ≡ true
  from_other p t a b forced new plain seen =
      sym plain ∙ ap (is_platform p) (sym (pair_is t b a row new).1) ∙ forced seen

  pub Mutual-added :
      (p : Option String)
      → (row.visible ≡ true → is_platform p row.from_agent_id ≡ true)
      → Settled
      → Mutual p rows
      → Mutual p added
  Mutual-added p forced settled both_read t a b r q h k plain other = elim (added_cases t a b r h) [
    | inr (x, new, _) ↦ new_is_seen settled t a b r q x new k
    | inl x ↦ elim (added_cases t b a q k) [
      | inl y ↦ both_read t a b r q x y plain other
      | inr (y, new, _) ↦
          let seen = new_is_seen settled t b a q r y new h in
          let shut =
            from_other p t a b forced new other (ap (λ (f : Feedback). f.visible) (sym y) ∙ seen) in
          absurd (ground arith)
    ]
  ]

  shown_new : (i j : String) (x : Feedback) → x.visible ≡ true → (show i j x).visible ≡ true
  shown_new i j x h = ground arith

  pub Mutual-revealed :
      (p : Option String) (z : Feedback)
      → feedback_on row.task_id row.to_agent_id row.from_agent_id added ≡ some z
      → Mutual p rows
      → Mutual p (reveal row.feedback_id z.feedback_id added)
  Mutual-revealed p z there both_read t a b r q h k plain other =
      let (x, x_there, x_is) = reveal_cases added t a b row.feedback_id z.feedback_id r h in
      let (y, y_there, y_is) = reveal_cases added t b a row.feedback_id z.feedback_id q k in
      sym (ap (λ (f : Feedback). f.visible) x_is) ∙ (elim (added_cases t a b x x_there) [
        | inr (u, _, _) ↦
            let id : x.feedback_id ≡ row.feedback_id = ap (λ (f : Feedback). f.feedback_id) u in
            ground (arith, text_eq.same_iff x.feedback_id row.feedback_id)
        | inl u ↦ elim (added_cases t b a y y_there) [
          | inl v ↦ shown_new row.feedback_id z.feedback_id x (both_read t a b x y u v plain other)
          | inr (v, new, _) ↦
              let id : x.feedback_id ≡ z.feedback_id =
                ap (λ (f : Feedback). f.feedback_id) (answer_is t a b x z there new x_there) in
              ground (arith, text_eq.same_iff x.feedback_id z.feedback_id)
        ]
      ])
