-- ===== src/Gateway/PaidOnce.antt =====
-- An escrow that the gateway has released is not released or split again.
use agent_economy.Shared.{
  ◌≡◌, refl, ap, String, Option, none, some, [], ◌∷◌, ◌∙◌, Bool, true, false, inl, inr, arith,
  Bool-cases, text_eq, ◌==◌,
}
use agent_economy.Shared.Dict.{set, get-set, get-set_self}
use agent_economy.Shared.Action.{ok, err, service_error, escrow_already_resolved}
use agent_economy.Gateway.Sql.{
  real, Cell, null, int, text, Row, Table, Database, Connection, settled, cell, change_rows,
  find_row, sql_equal, shown,
}
use agent_economy.Gateway.Statements.{begin, rollback, select_row, key_is, meets, Constraints}
use agent_economy.Gateway.Writer.Handlers.{keep_refusals}
use agent_economy.Gateway.Writer.Escrows.{
  Release, Released, Split, escrow_release, escrow_split, load_escrow, must_be_locked, is_locked,
  resolved,
}
use agent_economy.Gateway.Released.Parts.{chosen}
use agent_economy.Gateway.Released.{escrow_release-PaysOut}

same_row : (r row : Row) → some r ≡ some row → r ≡ row
same_row r row h = cc

module _ (key test : Row → Bool) (change : Row → Row)
    (same_key : (row : Row) → key (change row) ≡ key row)
    (within : (row : Row) → key row ≡ false → test row ≡ false) where
  find_row-change_rows :
      (t : Table) (row : Row)
      → find_row key t ≡ some row
      → test row ≡ true
      → find_row key (change_rows change test t) ≡ some (change row)
  unfolding find_row change_rows
  find_row-change_rows [] row found h = absurd (ground arith)
  find_row-change_rows (r ∷ t) row found h = elim (Bool-cases (key r)) [
    | inl hit ↦
        let same = same_row r row (rw hit at found) in
        rw (ap test same ∙ h, same_key r, hit) (ap (λ x. some (change x)) same)
    | inr miss ↦ rw (within r miss, miss) (find_row-change_rows t row (rw miss at found) h)
  ]

find_row-key :
    (key : Row → Bool) (t : Table) (row : Row) → find_row key t ≡ some row → key row ≡ true
unfolding find_row
find_row-key key [] row h = absurd (ground arith)
find_row-key key (r ∷ t) row h = elim (Bool-cases (key r)) [
  | inl hit ↦ rw (← same_row r row (rw hit at h)) hit
  | inr miss ↦ find_row-key key t row (rw miss at h)
]

locked_equal : (c : Cell) → (shown c == "locked") ≡ true → sql_equal c (text "locked") ≡ true
unfolding sql_equal
locked_equal null h = absurd (ground arith)
locked_equal real h = absurd (ground arith)
locked_equal (int z) h = h
locked_equal (text s) h = h

-- The condition that the bank's client sends with a release and a split, or none.
abbrev pub Guarding : Option Constraints → Type 0
Guarding none = Unit {0}
Guarding (some cs) = cs ≡ ("status", text "locked") ∷ []

guarded :
    (escrow_id : String) (constraints : Option Constraints) (row : Row)
    → Guarding constraints
    → key_is "escrow_id" escrow_id row ≡ true
    → is_locked row ≡ true
    → chosen escrow_id constraints row ≡ true
unfolding meets
guarded escrow_id none row g hit held = hit
guarded escrow_id (some cs) row g hit held = rw (g, hit, locked_equal (cell "status" row) held) refl

chosen-within :
    (escrow_id : String) (constraints : Option Constraints) (row : Row)
    → key_is "escrow_id" escrow_id row ≡ false
    → chosen escrow_id constraints row ≡ false
chosen-within escrow_id none row miss = miss
chosen-within escrow_id (some cs) row miss = rw miss refl

resolved-key :
    (escrow_id status at : String) (row : Row)
    → key_is "escrow_id" escrow_id (resolved status at row) ≡ key_is "escrow_id" escrow_id row
unfolding cell
resolved-key escrow_id status at row = simp get-set

resolved-not_locked :
    (status at : String) (row : Row)
    → (status == "locked") ≡ false
    → is_locked (resolved status at row) ≡ false
unfolding cell shown
resolved-not_locked status at row other =
    rw (get-set_self "status" (text status) (set "resolved_at" (text at) row)) other

refuses_release :
    (is_identifier : String → Bool) (request : Release) (constraints : Option Constraints)
    (d : Database) (row : Row)
    → find_row (key_is "escrow_id" request.escrow_id) (d.rows "bank_escrow") ≡ some row
    → is_locked row ≡ false
    → escrow_release is_identifier request constraints (settled d)
      ≡ (err (service_error escrow_already_resolved 409), settled d)
unfolding escrow_release begin load_escrow select_row must_be_locked rollback keep_refusals
refuses_release is_identifier request constraints d row found gone = rw (found, gone) refl

refuses_split :
    (is_identifier : String → Bool) (request : Split) (constraints : Option Constraints)
    (d : Database) (row : Row)
    → find_row (key_is "escrow_id" request.escrow_id) (d.rows "bank_escrow") ≡ some row
    → is_locked row ≡ false
    → escrow_split is_identifier request constraints (settled d)
      ≡ (err (service_error escrow_already_resolved 409), settled d)
unfolding escrow_split begin load_escrow select_row must_be_locked rollback keep_refusals
refuses_split is_identifier request constraints d row found gone = rw (found, gone) refl

module _ (is_identifier : String → Bool) (d : Database) (request : Release)
    (constraints : Option Constraints) (guarding : Guarding constraints) (answer : Released)
    (v : Connection)
    (released : escrow_release is_identifier request constraints (settled d) ≡ (ok answer, v)) where
  row_after :
      (row : Row) × (find_row (key_is "escrow_id" request.escrow_id) (v.stored.rows "bank_escrow")
        ≡ some row)
      × (is_locked row ≡ false)
  row_after =
      let done = escrow_release-PaysOut is_identifier d request constraints answer v released in
      let key = key_is "escrow_id" request.escrow_id in
      let hit = find_row-key key (d.rows "bank_escrow") done.escrow done.found in
      (
        resolved "released" request.resolved_at done.escrow,
        ap (find_row key) done.escrows
            ∙ find_row-change_rows key (chosen request.escrow_id constraints)
                (resolved "released" request.resolved_at)
                (resolved-key request.escrow_id "released" request.resolved_at)
                (chosen-within request.escrow_id constraints) (d.rows "bank_escrow") done.escrow
                done.found
                (guarded request.escrow_id constraints done.escrow guarding hit done.locked),
        resolved-not_locked "released" request.resolved_at done.escrow refl,
      )

  -- After a release through the gateway that succeeded, with no constraints or with those that the
  -- bank's client sends, on the file that it left: any release and any split of the same escrow is
  -- answered 409 `escrow_already_resolved` and changes nothing.
  pub paid_once :
      (again : Release) (share : Split) (cs : Option Constraints)
      → again.escrow_id ≡ request.escrow_id
      → share.escrow_id ≡ request.escrow_id
      → (escrow_release is_identifier again cs (settled v.stored)
          ≡ (err (service_error escrow_already_resolved 409), settled v.stored))
        × (escrow_split is_identifier share cs (settled v.stored)
            ≡ (err (service_error escrow_already_resolved 409), settled v.stored))
  paid_once again share cs same same' =
      let (row, found, gone) = row_after in
      let at = λ (id : String). find_row (key_is "escrow_id" id) (v.stored.rows "bank_escrow") in
      (
        refuses_release is_identifier again cs v.stored row (ap at same ∙ found) gone,
        refuses_split is_identifier share cs v.stored row (ap at same' ∙ found) gone,
      )
