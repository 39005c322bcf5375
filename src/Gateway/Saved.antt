-- ===== src/Gateway/Saved.antt =====
-- How a transaction ends: committed with one event more, or rolled back.
use agent_economy.Shared.{
  ℕ, suc, ◌≡◌, refl, ap, String, List, [], ◌∷◌, ◌++◌, Bool, true, false, ◌⊎◌, inl, inr, Bool-cases,
  Option-cases, text_eq,
}
use agent_economy.Shared.Action.{
  Action, Result, ok, err, Error, pure, raise, raise_if, or_raise, modify, lift, ◌>>=◌, ◌>>◌,
  handle, Code, service_error, unique_failed, foreign_failed,
}
use agent_economy.Shared.Runs.{Ends}
use agent_economy.Gateway.Sql.{Row, Database, Connection, settled, write_table, find_row}
use agent_economy.Gateway.Statements.{
  select_row, commit, rollback, insert, check_insert, insert_event, Event, event_row, count_event,
}
use agent_economy.Gateway.Writer.Handlers.{on_integrity, on_conflict, keep_refusals, roll_back}
use agent_economy.Gateway.Tried.{
  Working, Records, Fails, EndsIn, Tried, refuses, check_insert-refuses, try_bind,
}

-- The file has one event more, whose number is in the answer, and no transaction is open.
abbrev pub Saved : {A : Type 0} → (A → ℕ) → Database → Event → A → Connection → Type 0
Saved number d event a v = (d' : Database) × (v ≡ settled d') × Records d event (number a) d'

-- An error leaves everything as it was, and so does an answer with event 0.
abbrev pub Concludes : {A : Type 0} → (A → ℕ) → Database → Event → Result A × Connection → Type 0
Concludes number d event =
    Ends (λ v. v ≡ settled d) (λ a v. ((number a ≡ 0) × (v ≡ settled d)) ⊎ Saved number d event a v)

pub record Logged (d : Database) (event : Event) (id : ℕ) (v : Connection) : Type 0 where
  pub kept : v.stored ≡ d
  pub records : Records d event id v.current

module _ {d : Database} {w : Connection} (working : Working d w) (event : Event) where
  record_event :
      (id : ℕ)
      → id ≡ suc w.current.last_event
      → Records d event id
          (count_event
            (write_table "events" (w.current.rows "events" ++ event_row id event ∷ []) w)).current
  record_event id next = record {
    fresh = rw (next, working.last) refl;
    last = rw next refl;
    events = rw working.events refl;
  }

module _ {strict : Bool} {d : Database} {w : Connection} (working : Working d w)
    (event : Event) where
  log_checked :
      (id : ℕ) (r : Result (Unit {0}))
      → refuses r ≡ false
      → id ≡ suc w.current.last_event
      → Tried strict d w
          ((lift r
              >> modify (λ c.
                write_table "events" (c.current.rows "events" ++ event_row id event ∷ []) c))
            >> (modify count_event >> pure id))
          (Logged d event)
  log_checked id (err e) passes next = record {
    ends = record { kept = working.kept; clean = λ _ is. cc };
  }
  log_checked id (ok _) passes next = record {
    ends = record { kept = working.kept; records = record_event working event id next };
  }

module _ {strict : Bool} {d : Database} {w : Connection} (working : Working d w)
    (event : Event) where
  pub insert_event-Logged : Tried strict d w (insert_event event) (Logged d event)
  unfolding insert_event insert
  insert_event-Logged =
      let id : ℕ = suc w.current.last_event in
      record {
        ends =
            (log_checked {strict = strict} working event id
              (check_insert "events" (event_row id event) w.current)
              (check_insert-refuses "events" (event_row id event) w.current) refl).ends;
      }

  pub finish :
      {A : Type 0} (number : A → ℕ) (f : ℕ → A)
      → ((id : ℕ) → number (f id) ≡ id)
      → Tried strict d w (insert_event event >>= λ id. commit >> pure (f id)) (Saved number d event)
  unfolding commit
  finish number f same =
      try_bind (insert_event event) _ insert_event-Logged
        (λ id v logged. record { ends = (v.current, refl, rw (same id) logged.records) })

module _ {A : Type 0} (number : A → ℕ) (d : Database) (event : Event) where
  pub on_conflict-Concludes :
      (code : Code) (e : Error) (v : Connection)
      → v.stored ≡ d
      → Concludes {A = A} number d event (on_conflict code e v)
  unfolding on_conflict rollback
  on_conflict-Concludes code (unique_failed names) v kept = ap settled kept
  on_conflict-Concludes code foreign_failed v kept = ap settled kept
  on_conflict-Concludes code _ v kept = ap settled kept

  -- A replay only reads.
  pub on_integrity-Concludes :
      (replay : List String → Action Connection A) (foreign_code : Code) (status : ℕ) (e : Error)
      (v : Connection)
      → v.stored ≡ d
      → ((names : List String) → Concludes number d event (replay names (settled d)))
      → Concludes number d event
          (on_integrity replay (raise (service_error foreign_code status)) e v)
  unfolding on_integrity rollback
  on_integrity-Concludes replay c n (unique_failed names) v kept h = rw kept (h names)
  on_integrity-Concludes replay c n foreign_failed v kept h = ap settled kept
  on_integrity-Concludes replay c n _ v kept h = ap settled kept

  pub roll_back-Concludes :
      (e : Error) (v : Connection) → v.stored ≡ d → Concludes {A = A} number d event (roll_back e v)
  unfolding roll_back rollback
  roll_back-Concludes e v kept = ap settled kept

  -- A refusal passes as it is; a strict transaction was rolled back before it.
  pub keep_refusals-Concludes :
      (f : Error → Action Connection A) (e : Error) (v : Connection)
      → Fails true d e v
      → ((e' : Error) → Concludes number d event (f e' v))
      → Concludes number d event (keep_refusals f e v)
  unfolding keep_refusals
  keep_refusals-Concludes f (service_error code status) v fails h = fails.clean refl refl
  keep_refusals-Concludes f (unique_failed names) v fails h = h (unique_failed names)
  keep_refusals-Concludes f other v fails h = h other

  pub handle-Concludes :
      {strict : Bool} {w : Connection} (m : Action Connection A) (h : Error → Action Connection A)
      → Tried strict d w m (Saved number d event)
      → ((e : Error) (v : Connection) → Fails strict d e v → Concludes number d event (h e v))
      → Concludes number d event (handle m h w)
  handle-Concludes {strict} {w} m h tried rescued = go (m w) tried.ends
    where
      go :
          (o : Result A × Connection)
          → EndsIn strict d (Saved number d event) o
          → Concludes number d event (handle (λ _. o) h w)
      go (err e, v) fails = rescued e v fails
      go (ok a, v) saved = inr saved

  -- The row of an earlier request, which is the answer if it agrees.
  pub look_up-Concludes :
      (name : String) (test bad : Row → Bool) (missing other : Error) (f : Row → A)
      → ((row : Row) → number (f row) ≡ 0)
      → Concludes number d event (
          (select_row name test >>= λ found.
          or_raise found missing >>= λ row. raise_if (bad row) other >> pure (f row))
            (settled d))
  unfolding select_row
  look_up-Concludes name test bad missing other f zero_event =
      elim (Option-cases (find_row test (d.rows name))) [
        | inl gone ↦ rw gone refl
        | inr (row, found) ↦ elim (Bool-cases (bad row)) [
          | inl differs ↦ rw (found, differs) refl
          | inr agrees ↦ rw (found, agrees) (inl (zero_event row, refl))
        ]
      ]
