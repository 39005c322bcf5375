-- ===== src/Board/Manager/Advances.antt =====
-- How a task may change: the lifecycle of its status, and the columns that stay.
use agent_economy.Shared.{
  String, ◌≡◌, refl, ap, ◌∙◌, none, some, true, Bool-cases, inl, inr, arith, text_eq, pair_eq, ◌==◌,
  eq_iff, if◌then◌else◌,
}
use agent_economy.Shared.Dict.{Dict, get, set, get-set}
use agent_economy.Shared.Action.{Error, Result, ok, err}
use agent_economy.Board.Types.{
  Status, opened, accepted, submitted, approved, cancelled, disputed, ruled, expired, Task,
  TaskStore,
}
use agent_economy.Board.Store.{put_task}
use agent_economy.Board.Client.{BankClient, World}
use agent_economy.Board.Deadlines.{is_terminal}
use agent_economy.Board.Deadlines.Transitions.{AutoMove, expires, approves}
use agent_economy.Board.Manager.Effects.{IsKeyed, Untouched, Effect, Replied, Finishes}

-- The lifecycle of a task.
pub data Next : Status → Status → Type 0 where
  accepts : Next opened accepted
  cancels : Next opened cancelled
  lapses : Next opened expired
  delivers : Next accepted submitted
  overruns : Next accepted expired
  is_approved : Next submitted approved
  is_disputed : Next submitted disputed
  is_ruled : Next disputed ruled

pub data Leads : Status → Status → Type 0 where
  stays : {s : Status} → Leads s s
  moves : {s t u : Status} → Next s t → Leads t u → Leads s u

Leads-trans : {s t u : Status} → Leads s t → Leads t u → Leads s u
Leads-trans stays k = k
Leads-trans (moves n l) k = moves n (Leads-trans l k)

pub Leads-terminal : {s t : Status} → is_terminal s ≡ true → Leads s t → t ≡ s
Leads-terminal h stays = refl
Leads-terminal h (moves accepts l) = ground arith
Leads-terminal h (moves cancels l) = ground arith
Leads-terminal h (moves lapses l) = ground arith
Leads-terminal h (moves delivers l) = ground arith
Leads-terminal h (moves overruns l) = ground arith
Leads-terminal h (moves is_approved l) = ground arith
Leads-terminal h (moves is_disputed l) = ground arith
Leads-terminal h (moves is_ruled l) = ground arith

-- What becomes of a row: its status goes along the lifecycle, and these columns do not change.
pub record Later (t u : Task) : Type 0 where
  pub leads : Leads t.status u.status
  pub same_id : u.task_id ≡ t.task_id
  pub same_poster : u.poster_id ≡ t.poster_id
  pub same_reward : u.reward ≡ t.reward
  pub same_escrow : u.escrow_id ≡ t.escrow_id

pub Later-refl : (t : Task) → Later t t
Later-refl t = record {
  leads = stays;
  same_id = refl;
  same_poster = refl;
  same_reward = refl;
  same_escrow = refl;
}

pub Later-trans : {t u v : Task} → Later t u → Later u v → Later t v
Later-trans a b = record {
  leads = Leads-trans a.leads b.leads;
  same_id = b.same_id ∙ a.same_id;
  same_poster = b.same_poster ∙ a.same_poster;
  same_reward = b.same_reward ∙ a.same_reward;
  same_escrow = b.same_escrow ∙ a.same_escrow;
}

pub step_Later :
    {t u : Task} {s : Status}
    → t.status ≡ s
    → Next s u.status
    → u.task_id ≡ t.task_id
    → u.poster_id ≡ t.poster_id
    → u.reward ≡ t.reward
    → u.escrow_id ≡ t.escrow_id
    → Later t u
step_Later {t} {u} at n i p r e = record {
  leads = rw at (moves n stays);
  same_id = i;
  same_poster = p;
  same_reward = r;
  same_escrow = e;
}

pub AutoMove-Later : (t u : Task) → AutoMove t u → Later t u
AutoMove-Later t _ (expires at p (inl s)) = step_Later s lapses refl refl refl refl
AutoMove-Later t _ (expires at p (inr s)) = step_Later s overruns refl refl refl refl
AutoMove-Later t _ (approves at p s) = step_Later s is_approved refl refl refl refl

-- Each row that was there is there, later in its life.
pub record Advances (s s' : TaskStore) : Type 0 where
  pub keyed : IsKeyed s'
  pub later :
      (k : String) (t : Task)
      → get k s.tasks ≡ some t
      → (u : Task) × (get k s'.tasks ≡ some u) × Later t u

pub Advances-refl : {s : TaskStore} → IsKeyed s → Advances s s
Advances-refl keys = record { keyed = keys; later = λ k t found. (t, found, Later-refl t) }

pub Advances-trans : {r s t : TaskStore} → Advances r s → Advances s t → Advances r t
Advances-trans a b = record {
  keyed = b.keyed;
  later = λ k t found.
      let (u, there, l) = a.later k t found in
      let (v, still, m) = b.later k u there in (v, still, Later-trans l m);
}

same_row :
    (i k : String) (d : Dict String Task) {t v : Task}
    → (i == k) ≡ true
    → get i d ≡ some t
    → get k d ≡ some v
    → v ≡ t
same_row i k d {t} {v} same p q = ground (arith, eq_iff i k)

-- A row that is written anew.
pub put_Advances :
    {s s' : TaskStore} {t u : Task} (id : String)
    → IsKeyed s
    → get id s.tasks ≡ some t
    → s'.tasks ≡ set id u s.tasks
    → Later t u
    → Advances s s'
put_Advances {s} {s'} {t} {u} id keys found e l = record {
  keyed = record { keyed = λ k v p. keyed k v p };
  later = later;
}
  where
    at_id : (k : String) → get k s'.tasks ≡ (if id == k then some u else get k s.tasks)
    at_id k = rw e (get-set id k u s.tasks)

    keyed : (k : String) (v : Task) → get k s'.tasks ≡ some v → v.task_id ≡ k
    keyed k v p = elim (Bool-cases (id == k)) [
      | inl same ↦ ground (arith, at_id k, eq_iff id k, l.same_id, keys.keyed id t found)
      | inr other ↦ keys.keyed k v (ground (arith, at_id k))
    ]

    later :
        (k : String) (v : Task)
        → get k s.tasks ≡ some v
        → (w : Task) × (get k s'.tasks ≡ some w) × Later v w
    later k v p = elim (Bool-cases (id == k)) [
      | inl same ↦ (u, ground (arith, at_id k), rw (same_row id k s.tasks same found p) l)
      | inr other ↦ (v, ground (arith, at_id k), Later-refl v)
    ]

-- A row under a new identifier.
pub add_Advances :
    {s s' : TaskStore} (id : String) (u : Task)
    → IsKeyed s
    → get id s.tasks ≡ none
    → s'.tasks ≡ set id u s.tasks
    → u.task_id ≡ id
    → Advances s s'
add_Advances {s} {s'} id u keys absent e named = record {
  keyed = record { keyed = λ k v p. keyed k v p };
  later = later;
}
  where
    at_id : (k : String) → get k s'.tasks ≡ (if id == k then some u else get k s.tasks)
    at_id k = rw e (get-set id k u s.tasks)

    keyed : (k : String) (v : Task) → get k s'.tasks ≡ some v → v.task_id ≡ k
    keyed k v p = elim (Bool-cases (id == k)) [
      | inl same ↦ ground (arith, at_id k, eq_iff id k)
      | inr other ↦ keys.keyed k v (ground (arith, at_id k))
    ]

    later :
        (k : String) (v : Task)
        → get k s.tasks ≡ some v
        → (w : Task) × (get k s'.tasks ≡ some w) × Later v w
    later k v p = elim (Bool-cases (id == k)) [
      | inl same ↦ ground (arith, eq_iff id k)
      | inr other ↦ (v, ground (arith, at_id k), Later-refl v)
    ]

pub put_Done :
    {s s' : TaskStore} {t u : Task} (id : String)
    → IsKeyed s
    → get id s.tasks ≡ some t
    → s' ≡ put_task id u s
    → Later t u
    → Advances s s'
put_Done id keys found e l = put_Advances id keys found (ap (λ (x : TaskStore). x.tasks) e) l

pub Untouched-Advances :
    (id : String) {s s' : TaskStore} → IsKeyed s → Untouched id s s' → Advances s s'
Untouched-Advances id {s} keys (inl e) = rw e (Advances-refl keys)
Untouched-Advances id {s} keys (inr (row, u, found, move, e)) =
    put_Advances id keys found (ap (λ (x : TaskStore). x.tasks) e) (AutoMove-Later row u move)

module _ {B : Type 0} ⦃client : BankClient B⦄ where
  pub Effect-Advances :
      {A : Type 0} (id : String) (w : World B) (Done : Task → World B → Type 0)
      (o : Result A × World B)
      → IsKeyed w.store
      → ((t : Task) (v : World B)
          → get id w.store.tasks ≡ some t
          → Done t v
          → Advances w.store v.store)
      → Effect id w Done o
      → Advances w.store o.1.store
  Effect-Advances id w Done (err e, v) keys h untouched = Untouched-Advances id keys untouched
  Effect-Advances id w Done (ok a, v) keys h (t, found, done) = h t v found done

  pub Replied-Advances :
      {A : Type 0} (id : String) (w : World B) (Done : Task → World B → Type 0)
      (o : Result A × World B)
      → IsKeyed w.store
      → ((t : Task) (v : World B)
          → get id w.store.tasks ≡ some t
          → Done t v
          → Advances w.store v.store)
      → Replied id w Done o
      → Advances w.store o.1.store
  Replied-Advances id w Done (err e, v) keys h (inl untouched) =
      Untouched-Advances id keys untouched
  Replied-Advances id w Done (err e, v) keys h (inr (t, found, done, late)) = h t v found done
  Replied-Advances id w Done (ok a, v) keys h (t, found, done) = h t v found done

  pub Finishes-Advances :
      {A : Type 0} {s : TaskStore} (Late : Error → World B → Type 0) (Done : World B → Type 0)
      (o : Result A × World B)
      → IsKeyed s
      → ((v : World B) → Done v → Advances s v.store)
      → Finishes s Late Done o
      → Advances s o.1.store
  Finishes-Advances Late Done (err e, v) keys h (inl same) = rw same (Advances-refl keys)
  Finishes-Advances Late Done (err e, v) keys h (inr (done, late)) = h v done
  Finishes-Advances Late Done (ok a, v) keys h done = h v done
