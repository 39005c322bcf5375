-- ===== src/Board/Deadlines/Transitions.antt =====
-- What `evaluate_deadline` does, in one equation for each case.
use agent_economy.Shared.{
  ℕ, String, ◌≡◌, refl, Option, none, some, Bool, true, false, ◌&&◌, nat_beq, arith, text_eq,
  if◌then◌else◌, not, leb, ◌+◌, ◌-◌, ◌/◌, ◌*◌, ◌⊎◌, inl, inr, Bool-cases,
}
use agent_economy.Shared.Int.{ℤ, pos, pos_part, neg_part, leb_ℤ, ◌+ℤ◌}
use agent_economy.Shared.Dict.{Dict, get, set, get-set_self, set-set}
use agent_economy.Shared.Action.{Result, Error, ok, err, other_exception, outcome_cases}
use agent_economy.Board.Types.{
  Status, opened, accepted, submitted, approved, cancelled, disputed, ruled, expired, Task,
  TaskStore,
}
use agent_economy.Board.Store.{get_task, update_task, put_task}
use agent_economy.Board.Client.{
  BankClient, World, release_escrow, try_release_escrow, retry_as, retry_pending_escrow,
}
use agent_economy.Board.Deadlines.{
  Reads, second, last_second, in_calendar, compute_deadline, has_passed, expire, auto_approve,
  evaluate_deadline,
}

abbrev pub failed : {A : Type 0} → Result A → Bool
failed (ok _) = false
failed (err _) = true

abbrev pub expired_row : ℕ → Bool → Task → Task
expired_row at pending t = record t {
  status = expired;
  expired_at = some at;
  escrow_pending = pending;
}

abbrev pub approved_row : ℕ → Bool → Task → Task
approved_row at pending t = record t {
  status = approved;
  approved_at = some at;
  escrow_pending = pending;
}

-- A row that is written twice, with a read after each write.
written_twice :
    (k : String) (t u : Task) (d : Dict String Task)
    → (get k (set k t d) ≡ some t)
      × (set k u (set k t d) ≡ set k u d)
      × (get k (set k u d) ≡ some u)
written_twice k t u d = (get-set_self k t d, set-set k u t d, get-set_self k u d)

-- A stored row stands under its own identifier.
abbrev pub IsStored : Task → TaskStore → Type 0
IsStored t s = get t.task_id s.tasks ≡ some t

module _ {B : Type 0} ⦃client : BankClient B⦄ where
  -- The world after a row has been moved and its escrow's release has been tried.
  abbrev pub moved : (Bool → Task) → Task → Option String → World B → Result Task × World B
  moved row t recipient w =
      let (r, b) = client.release t.escrow_id recipient w.bank in
      (
        ok (row (failed r)),
        record { store = put_task t.task_id (row (failed r)) w.store; bank = b },
      )

  pub expire_lem :
      (reads : Reads) (t : Task) (w : World B)
      → IsStored t w.store
      → expire reads t w ≡ moved (λ p. expired_row reads.transition_at p t) t (some t.poster_id) w
  unfolding expire update_task get_task try_release_escrow release_escrow
  expire_lem reads t w stored =
      elim (outcome_cases (client.release t.escrow_id (some t.poster_id) w.bank)) [
        | inl (_, b, e) ↦ ground (
          arith,
          written_twice t.task_id (expired_row reads.transition_at true t)
              (expired_row reads.transition_at false t) w.store.tasks,
        )
        | inr (x, b, e) ↦ ground (
          arith,
          written_twice t.task_id (expired_row reads.transition_at true t)
              (expired_row reads.transition_at true t) w.store.tasks,
        )
      ]

  pub auto_approve_lem :
      (reads : Reads) (t : Task) (w : World B)
      → IsStored t w.store
      → auto_approve reads t w ≡ moved (λ p. approved_row reads.transition_at p t) t t.worker_id w
  unfolding auto_approve update_task get_task try_release_escrow release_escrow
  auto_approve_lem reads t w stored =
      elim (outcome_cases (client.release t.escrow_id t.worker_id w.bank)) [
        | inl (_, b, e) ↦ ground (
          arith,
          written_twice t.task_id (approved_row reads.transition_at true t)
              (approved_row reads.transition_at false t) w.store.tasks,
        )
        | inr (x, b, e) ↦ ground (
          arith,
          written_twice t.task_id (approved_row reads.transition_at true t)
              (approved_row reads.transition_at true t) w.store.tasks,
        )
      ]

-- The lifecycle moves that a deadline makes.
pub data AutoMove (t : Task) : Task → Type 0 where
  expires :
      (at : ℕ) (pending : Bool)
      → (t.status ≡ opened) ⊎ (t.status ≡ accepted)
      → AutoMove t (expired_row at pending t)
  approves :
      (at : ℕ) (pending : Bool) → t.status ≡ submitted → AutoMove t (approved_row at pending t)

-- The deadline `seconds` after the whole second of `base` has been reached; it raises where it lies
-- outside the calendar.
abbrev pub is_over : ℕ → Option ℕ → ℤ → Result Bool
is_over now none seconds = ok false
is_over now (some base) seconds =
    let since = pos (base / second) +ℤ seconds in
    if leb_ℤ (pos 0) since && leb_ℤ since (pos last_second)
    then ok (leb (pos_part since * second) now)
    else err other_exception

-- Whether the computed deadline has passed.
over_cases :
    (now : ℕ) (base : Option ℕ) (seconds : ℤ)
    → ((d : Option ℕ) × (compute_deadline base seconds ≡ ok d)
        × (is_over now base seconds ≡ ok (has_passed now d)))
      ⊎ ((compute_deadline base seconds ≡ err other_exception)
          × (is_over now base seconds ≡ err other_exception))
unfolding compute_deadline ◌+ℤ◌
over_cases now none seconds = inl (none, refl, refl)
over_cases now (some base) seconds = elim (Bool-cases (in_calendar (base / second) seconds)) [
  | inl c ↦ inl (
    some ((base / second + pos_part seconds - neg_part seconds) * second),
    ground arith,
    ground arith,
  )
  | inr c ↦ inr (ground arith, ground arith)
]

-- The deadline of a row's status has passed. A task that is neither open, accepted nor submitted
-- has no deadline.
abbrev pub is_due : ℕ → Task → Status → Result Bool
is_due now t opened = is_over now t.created_at t.bidding_deadline_seconds
is_due now t accepted = is_over now t.accepted_at t.deadline_seconds
is_due now t submitted = is_over now t.submitted_at t.review_deadline_seconds
is_due now t approved = ok false
is_due now t cancelled = ok false
is_due now t disputed = ok false
is_due now t ruled = ok false
is_due now t expired = ok false

-- An open task with bids is kept open past its deadline.
abbrev pub is_kept : Task → Status → Bool
is_kept t opened = not (nat_beq t.bid_count 0)
is_kept t _ = false

module _ {B : Type 0} ⦃client : BankClient B⦄ where
  -- What is to happen to a row whose deadline has passed: it is approved in favour of its worker if
  -- it was submitted, and expires in favour of its poster if not.
  abbrev pub due_move : Reads → Task → Status → World B → Result Task × World B
  due_move reads t submitted w = moved (λ p. approved_row reads.transition_at p t) t t.worker_id w
  due_move reads t _ w = moved (λ p. expired_row reads.transition_at p t) t (some t.poster_id) w

  -- What follows from whether the deadline has passed.
  abbrev pub when_due : Reads → Task → Result Bool → World B → Result Task × World B
  when_due reads t (err e) w = (err e, w)
  when_due reads t (ok due) w =
      if due && not (is_kept t t.status) then due_move reads t t.status w else (ok t, w)

  -- A stored row is left alone until its deadline has been reached, and an open one with bids also
  -- after that. Then it expires or is approved, its escrow's release is tried once, and
  -- `escrow_pending` says whether that failed. A deadline outside the calendar raises and changes
  -- nothing.
  pub evaluate_deadline_lem :
      (reads : Reads) (t : Task) (w : World B)
      → IsStored t w.store
      → evaluate_deadline reads t w ≡ when_due reads t (is_due reads.now t t.status) w
  unfolding evaluate_deadline retry_pending_escrow retry_as
  evaluate_deadline_lem reads t w stored = by_status t.status refl
    where
      by_status :
          (s : Status)
          → t.status ≡ s
          → evaluate_deadline reads t w ≡ when_due reads t (is_due reads.now t t.status) w
      by_status opened is_it = elim (over_cases reads.now t.created_at t.bidding_deadline_seconds) [
        | inl (deadline, e, f) ↦ ground (arith, expire_lem reads t w stored)
        | inr (e, f) ↦ ground arith
      ]
      by_status accepted is_it = elim (over_cases reads.now t.accepted_at t.deadline_seconds) [
        | inl (deadline, e, f) ↦ ground (arith, expire_lem reads t w stored)
        | inr (e, f) ↦ ground arith
      ]
      by_status submitted is_it =
          elim (over_cases reads.now t.submitted_at t.review_deadline_seconds) [
            | inl (deadline, e, f) ↦ ground (arith, auto_approve_lem reads t w stored)
            | inr (e, f) ↦ ground arith
          ]
      by_status approved is_it = ground arith
      by_status cancelled is_it = ground arith
      by_status disputed is_it = ground arith
      by_status ruled is_it = ground arith
      by_status expired is_it = ground arith

  -- The deadline cannot be computed, or nothing has happened, or the row has made the move that
  -- was due.
  abbrev pub Evaluated : Task → World B → Result Task × World B → Type 0
  Evaluated t w o =
      ((e : Error) × (o ≡ (err e, w)))
      ⊎ ((o ≡ (ok t, w))
          ⊎ ((u : Task) × (b : B) × AutoMove t u
              × (o ≡ (ok u, record { store = put_task t.task_id u w.store; bank = b }))))

  module _ (reads : Reads) (t : Task) (w : World B) where
    due_cases :
        (s : Status)
        → t.status ≡ s
        → is_due reads.now t s ≡ ok true
        → Evaluated t w (due_move reads t s w)
    due_cases opened e due =
        let r = client.release t.escrow_id (some t.poster_id) w.bank in
        inr (inr (_, r.1, expires reads.transition_at (failed r.0) (inl e), refl))
    due_cases accepted e due =
        let r = client.release t.escrow_id (some t.poster_id) w.bank in
        inr (inr (_, r.1, expires reads.transition_at (failed r.0) (inr e), refl))
    due_cases submitted e due =
        let r = client.release t.escrow_id t.worker_id w.bank in
        inr (inr (_, r.1, approves reads.transition_at (failed r.0) e, refl))
    due_cases approved e due = cc
    due_cases cancelled e due = cc
    due_cases disputed e due = cc
    due_cases ruled e due = cc
    due_cases expired e due = cc

    when_due_cases :
        (r : Result Bool) → is_due reads.now t t.status ≡ r → Evaluated t w (when_due reads t r w)
    when_due_cases (err x) e = inl (x, refl)
    when_due_cases (ok due) e = elim (Bool-cases (due && not (is_kept t t.status))) [
      | inl c ↦ rw c (due_cases t.status refl (ground arith))
      | inr c ↦ rw c (inr (inl refl))
    ]

    pub evaluate_deadline_cases : IsStored t w.store → Evaluated t w (evaluate_deadline reads t w)
    evaluate_deadline_cases stored =
        rw (evaluate_deadline_lem reads t w stored)
          (when_due_cases (is_due reads.now t t.status) refl)
