-- ===== src/Court/Sound.antt =====
-- What the rows of the dispute store satisfy between requests, and that each write keeps it.
use agent_economy.Shared.{
  ℕ, ◌≡◌, refl, ap, String, none, some, is_some, List, [], true, false, arith, Bool-cases, ◌⊎◌, inl,
  inr, text_eq, ◌==◌,
}
use agent_economy.Shared.Int.{ℤ, pos, ◌≤ℤ◌}
use agent_economy.Shared.Dict.{get, set, contains, get-set, get-set_self}
use agent_economy.Court.Types.{
  rebuttal_pending, ruled, Dispute, StoredVote, DisputeStore, no_disputes,
}
use agent_economy.Court.Store.{add_dispute, get_votes, put_dispute, put_ruling, rebutted}

-- A dispute without a ruling, or with one.
abbrev pub Waits : Dispute → List StoredVote → Type 0
Waits row votes =
    (row.status ≡ rebuttal_pending)
    × (row.worker_pct ≡ none)
    × (row.ruling_summary ≡ none)
    × (row.ruled_at ≡ none)
    × (votes ≡ [])

abbrev pub Ruled : Dispute → List StoredVote → Type 0
Ruled row votes =
    (row.status ≡ ruled)
    × ((pct : ℤ) × (row.worker_pct ≡ some pct) × (pos 0 ≤ℤ pct) × (pct ≤ℤ pos 100))
    × (is_some row.ruling_summary ≡ true)
    × (is_some row.ruled_at ≡ true)

-- A row stands under its own identifier, is the only one of its task, and waits or is ruled.
abbrev pub SoundRow : DisputeStore → String → Dispute → Type 0
SoundRow s id row =
    (row.dispute_id ≡ id)
    × (get row.task_id s.dispute_id_by_task ≡ some id)
    × (Waits row (get_votes id s) ⊎ Ruled row (get_votes id s))

pub record Sound (s : DisputeStore) : Type 0 where
  pub row_sound : (id : String) (row : Dispute) → get id s.disputes ≡ some row → SoundRow s id row

pub no_disputes-Sound : Sound no_disputes
unfolding get
no_disputes-Sound = record { row_sound = λ id row found. absurd (ground arith) }

-- A write of one row and its votes.
pub put_ruling-Sound :
    (id : String) (row : Dispute) (votes : List StoredVote) (s : DisputeStore)
    → Sound s
    → row.dispute_id ≡ id
    → get row.task_id s.dispute_id_by_task ≡ some id
    → Waits row votes ⊎ Ruled row votes
    → Sound (put_ruling id row votes s)
unfolding get_votes
put_ruling-Sound id row votes s sound own task state = record { row_sound = at }
  where
    at :
        (j : String) (x : Dispute)
        → get j (set id row s.disputes) ≡ some x
        → SoundRow (put_ruling id row votes s) j x
    at j x found = elim (Bool-cases (id == j)) [
      | inl same ↦
          let here : id ≡ j = (text_eq.same_iff id j).0 same in
          let row_is : row ≡ x = ground (arith, get-set id j row s.disputes) in
          rw (← here, ← row_is) (own, task, rw get-set_self state)
      | inr differs ↦
          let before : get j s.disputes ≡ some x = ground (arith, get-set id j row s.disputes) in
          rw (get-set, differs) (sound.row_sound j x before)
    ]

-- The text of a rebuttal is written.
pub rebutted-Sound :
    (now : ℕ) (rebuttal id : String) (row : Dispute) (s : DisputeStore)
    → Sound s
    → get id s.disputes ≡ some row
    → Sound (put_dispute id (rebutted rebuttal now row) s)
unfolding get_votes
rebutted-Sound now rebuttal id row s sound found = record { row_sound = at }
  where
    at :
        (j : String) (x : Dispute)
        → get j (set id (rebutted rebuttal now row) s.disputes) ≡ some x
        → SoundRow (put_dispute id (rebutted rebuttal now row) s) j x
    at j x after = elim (Bool-cases (id == j)) [
      | inl same ↦
          let here : id ≡ j = (text_eq.same_iff id j).0 same in
          let row_is : rebutted rebuttal now row ≡ x =
            ground (arith, get-set id j (rebutted rebuttal now row) s.disputes) in
          rw (← here, ← row_is) (sound.row_sound id row found)
      | inr differs ↦
          sound.row_sound j x (ground (arith, get-set id j (rebutted rebuttal now row) s.disputes))
    ]

-- A new dispute, under a new identifier and for a task that has none.
pub add_dispute-Sound :
    (row : Dispute) (s : DisputeStore)
    → Sound s
    → contains row.dispute_id s.disputes ≡ false
    → contains row.task_id s.dispute_id_by_task ≡ false
    → Waits row []
    → Sound (add_dispute row s)
unfolding get_votes
add_dispute-Sound row s sound new_id new_task waits = record { row_sound = at }
  where
    other_task :
        (j : String) (x : Dispute)
        → get x.task_id s.dispute_id_by_task ≡ some j
        → get x.task_id (set row.task_id row.dispute_id s.dispute_id_by_task) ≡ some j
    other_task j x task = elim (Bool-cases (row.task_id == x.task_id)) [
      | inl same ↦
          let here : row.task_id ≡ x.task_id = (text_eq.same_iff row.task_id x.task_id).0 same in
          absurd (ground (arith, ap (λ k. contains k s.dispute_id_by_task) here))
      | inr differs ↦ rw (get-set, differs) task
    ]

    at :
        (j : String) (x : Dispute)
        → get j (set row.dispute_id row s.disputes) ≡ some x
        → SoundRow (add_dispute row s) j x
    at j x found = elim (Bool-cases (row.dispute_id == j)) [
      | inl same ↦
          let here : row.dispute_id ≡ j = (text_eq.same_iff row.dispute_id j).0 same in
          let row_is : row ≡ x = ground (arith, get-set row.dispute_id j row s.disputes) in
          rw (← here, ← row_is)
            (
              refl,
              get-set_self row.task_id row.dispute_id s.dispute_id_by_task,
              inl (rw get-set_self waits),
            )
      | inr differs ↦
          let before : get j s.disputes ≡ some x =
            ground (arith, get-set row.dispute_id j row s.disputes) in
          let (own, task, state) = sound.row_sound j x before in
          (own, other_task j x task, rw (get-set, differs) state)
    ]
