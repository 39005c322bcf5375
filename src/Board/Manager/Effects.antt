-- ===== src/Board/Manager/Effects.antt =====
-- What each request does to the task store, on every branch.
pub mod Requests
pub mod Bids
pub mod Rulings
pub mod Creations
use agent_economy.Shared.{
  ℕ, ◌+◌, String, ◌≡◌, refl, ap, ◌∙◌, ◌≢◌, Option, none, some, List, [], ◌∷◌, Bool, true, false,
  ◌&&◌, not, nat_beq, arith, text_eq, pair_eq, ◌==◌, if◌then◌else◌, ◌⊎◌, inl, inr, Bool-cases,
  Option-cases, eq_iff,
}
use agent_economy.Shared.Int.{ℤ}
use agent_economy.Shared.Dict.{get, set, contains, get-set_self, get-set}
use agent_economy.Shared.Value.{Object}
use agent_economy.Shared.Action.{
  Action, Result, Error, ok, err, raise, gets, raise_if, or_raise, handle, lift, after, ◌>>=◌, ◌>>◌,
}
use agent_economy.Board.Types.{
  Status, opened, accepted, submitted, approved, cancelled, disputed, ruled, expired, rank,
  same_status, Task, Bid, TaskStore, Update,
}
use agent_economy.Board.Store.{
  get_task, update_task, put_task, insert_bid, add_bid, get_bid, count_assets, get_bids_for_task,
  apply_updates,
}
use agent_economy.Board.Client.{BankClient, World, on_bank, on_store}
use agent_economy.Board.Tokens.{Crypto}
use agent_economy.Board.Deadlines.{Reads, is_terminal, evaluate_deadline}
use agent_economy.Board.Deadlines.Transitions.{AutoMove, expires, approves, evaluate_deadline_cases}
use agent_economy.Board.Manager.Replies.{task_to_response}
use agent_economy.Board.Manager.Requests.{
  signed_request, bid_request, accept_request, list_request, ruling_request, valid_worker_pct,
}
use agent_economy.Board.Manager.Lifecycle.{
  must_be, load_task, write_and_reply, cancel_task, submit_bid, accept_bid, submit_deliverable,
  approve_task, dispute_task, distribute, record_ruling,
}

-- Every row stands under its own identifier.
pub record IsKeyed (s : TaskStore) : Type 0 where
  pub keyed : (k : String) (t : Task) → get k s.tasks ≡ some t → t.task_id ≡ k

-- What an error leaves: the store as it was, or with the one move that a deadline has made.
abbrev pub Untouched : String → TaskStore → TaskStore → Type 0
Untouched id s s' =
    (s' ≡ s)
    ⊎ ((row : Task) × (u : Task) × (get id s.tasks ≡ some row)
        × AutoMove row u
        × (s' ≡ put_task id u s))

AutoMove-terminal : (row u : Task) → AutoMove row u → is_terminal u.status ≡ true
AutoMove-terminal row _ (expires at p s) = refl
AutoMove-terminal row _ (approves at p s) = refl

terminal_differs :
    (s t : Status) → is_terminal s ≡ true → is_terminal t ≡ false → same_status s t ≡ false
terminal_differs s t h k = ground arith

pub same_status_eq : (s t : Status) → not (same_status s t) ≡ false → s ≡ t
same_status_eq s t h = ground arith

module _ {B : Type 0} ⦃client : BankClient B⦄ where
  -- How a task was loaded: it cannot be, or it is returned as it stands, or a deadline has moved it.
  abbrev pub Loaded : String → World B → Result Task × World B → Type 0
  Loaded id w (err e, v) = v ≡ w
  Loaded id w (ok t, v) =
      ((v ≡ w) × (get id w.store.tasks ≡ some t))
      ⊎ ((row : Task) × (get id w.store.tasks ≡ some row)
          × AutoMove row t
          × (v.store ≡ put_task id t w.store))

  pub load_task-Loaded :
      (reads : Reads) (id : String) (w : World B)
      → IsKeyed w.store
      → Loaded id w (load_task reads id w)
  unfolding load_task get_task
  load_task-Loaded reads id w keys = elim (Option-cases (get id w.store.tasks)) [
    | inl missing ↦ rw missing refl
    | inr (row, found) ↦
        let same = keys.keyed id row found in
        elim (evaluate_deadline_cases reads row w (ap (λ k. get k w.store.tasks) same ∙ found)) [
          | inl (x, e) ↦ rw (found, e) refl
          | inr (inl e) ↦ rw (found, e) (inl (refl, found))
          | inr (inr (u, b, move, e)) ↦
              rw (found, e) (inr (row, found, move, ap (λ k. put_task k u w.store) same))
        ]
  ]

  -- The reply to a request cannot be computed: a deadline of the row as it is now is out of range.
  abbrev pub Unanswered : String → Error → World B → Type 0
  Unanswered id e v = (u : Task) × (get id v.store.tasks ≡ some u) × (task_to_response u ≡ err e)

  abbrev Never : Error → World B → Type 0
  Never e v = ⊥

  module _ {A : Type 0} where
    -- A request on a task: an error leaves the store untouched, and a success is `Done` from the
    -- row that was stored.
    abbrev pub Effect : String → World B → (Task → World B → Type 0) → Result A × World B → Type 0
    Effect id w Done (err e, v) = Untouched id w.store v.store
    Effect id w Done (ok a, v) = (t : Task) × (get id w.store.tasks ≡ some t) × Done t v

    -- A request that is answered with the task: after `Done`, a reply that cannot be computed is an
    -- error as well.
    abbrev pub Replied : String → World B → (Task → World B → Type 0) → Result A × World B → Type 0
    Replied id w Done (err e, v) =
        Untouched id w.store v.store
        ⊎ ((t : Task) × (get id w.store.tasks ≡ some t) × Done t v × Unanswered id e v)
    Replied id w Done (ok a, v) = (t : Task) × (get id w.store.tasks ≡ some t) × Done t v

    -- `Late` says of which errors the request has been carried out.
    abbrev pub Finishes :
        TaskStore → (Error → World B → Type 0) → (World B → Type 0) → Result A × World B → Type 0
    Finishes s Late Done (err e, v) = (v.store ≡ s) ⊎ (Done v × Late e v)
    Finishes s Late Done (ok a, v) = Done v

    -- The rest of a request, from a row that no deadline has moved: an error leaves the store `s`.
    pub record Runs (s : TaskStore) (w : World B) (m : Action (World B) A)
        (Late : Error → World B → Type 0) (Done : World B → Type 0) : Type 0 where
      pub finishes : Finishes s Late Done (m w)

    Finishes-Effect :
        (id : String) (w : World B) (t : Task) (Done : Task → World B → Type 0)
        (o : Result A × World B)
        → get id w.store.tasks ≡ some t
        → Finishes w.store Never (Done t) o
        → Effect id w Done o
    Finishes-Effect id w t Done (err e, v) found (inl h) = inl h
    Finishes-Effect id w t Done (err e, v) found (inr (_, h)) = absurd h
    Finishes-Effect id w t Done (ok a, v) found h = (t, found, h)

    Finishes-Replied :
        (id : String) (w : World B) (t : Task) (Done : Task → World B → Type 0)
        (o : Result A × World B)
        → get id w.store.tasks ≡ some t
        → Finishes w.store (Unanswered id) (Done t) o
        → Replied id w Done o
    Finishes-Replied id w t Done (err e, v) found (inl h) = inl (inl h)
    Finishes-Replied id w t Done (err e, v) found (inr (done, late)) = inr (t, found, done, late)
    Finishes-Replied id w t Done (ok a, v) found h = (t, found, h)

    pub run_raise_if :
        {w : World B} {Late : Error → World B → Type 0} {Done : World B → Type 0} (c : Bool)
        (e : Error) (m : Action (World B) A)
        → (c ≡ false → Runs w.store w m Late Done)
        → Runs w.store w (raise_if c e >> m) Late Done
    run_raise_if true e m h = record { finishes = inl refl }
    run_raise_if false e m h = record { finishes = (h refl).finishes }

    pub run_signer :
        {w : World B} {Late : Error → World B → Type 0} {Done : World B → Type 0} (x y : String)
        (e : Error) (m : Action (World B) A)
        → (x ≡ y → Runs w.store w m Late Done)
        → Runs w.store w (raise_if (not (x == y)) e >> m) Late Done
    run_signer x y e m h = run_raise_if _ e m (λ same. h (ground (arith, eq_iff x y)))

    pub run_or_raise :
        {C : Type 0} {w : World B} {Late : Error → World B → Type 0} {Done : World B → Type 0}
        (o : Option C) (e : Error) (f : C → Action (World B) A)
        → ((c : C) → o ≡ some c → Runs w.store w (f c) Late Done)
        → Runs w.store w (or_raise o e >>= f) Late Done
    run_or_raise none e f h = record { finishes = inl refl }
    run_or_raise (some c) e f h = record { finishes = (h c refl).finishes }

    pub run_lift :
        {C : Type 0} {w : World B} {Late : Error → World B → Type 0} {Done : World B → Type 0}
        (r : Result C) (f : C → Action (World B) A)
        → ((c : C) → r ≡ ok c → Runs w.store w (f c) Late Done)
        → Runs w.store w (lift r >>= f) Late Done
    run_lift (err e) f h = record { finishes = inl refl }
    run_lift (ok c) f h = record { finishes = (h c refl).finishes }

    -- A call of the bank whose errors are raised, in some form.
    pub run_bank_value :
        {C : Type 0} {w : World B} {Late : Error → World B → Type 0} {Done : World B → Type 0}
        (m : Action B C) (f : Error → Error) (k : C → Action (World B) A)
        → ((c : C) (b : B)
            → m w.bank ≡ (ok c, b)
            → Runs w.store (record w { bank = b }) (k c) Late Done)
        → Runs w.store w (handle (on_bank m) (λ e. raise (f e)) >>= k) Late Done
    run_bank_value {C} {w} {Late} {Done} m f k h = record { finishes = go (m w.bank) refl }
      where
        go :
            (o : Result C × B)
            → m w.bank ≡ o
            → Finishes w.store Late Done ((handle (on_bank (λ b. o)) (λ e. raise (f e)) >>= k) w)
        go (err e, b) eq = inl refl
        go (ok c, b) eq = (h c b eq).finishes

    pub run_bank :
        {w : World B} {Late : Error → World B → Type 0} {Done : World B → Type 0}
        (m : Action B (Unit {0})) (f : Error → Error) (k : Action (World B) A)
        → ((b : B) → m w.bank ≡ (ok tt, b) → Runs w.store (record w { bank = b }) k Late Done)
        → Runs w.store w (handle (on_bank m) (λ e. raise (f e)) >> k) Late Done
    run_bank m f k h = run_bank_value m f (λ _. k) (λ _ b r. h b r)

    -- A read of the store, with a guard on what was read or a value that has to be there.
    pub run_read_guard :
        {C : Type 0} {w : World B} {Late : Error → World B → Type 0} {Done : World B → Type 0}
        (g : TaskStore → C) (c : C → Bool) (e : Error) (m : Action (World B) A)
        → (c (g w.store) ≡ false → Runs w.store w m Late Done)
        → Runs w.store w (on_store (gets g) >>= λ x. raise_if (c x) e >> m) Late Done
    run_read_guard {w} g c e m h = record {
      finishes = (run_raise_if (c (g w.store)) e m h).finishes;
    }

    pub run_find :
        {C : Type 0} {w : World B} {Late : Error → World B → Type 0} {Done : World B → Type 0}
        (g : TaskStore → Option C) (e : Error) (f : C → Action (World B) A)
        → ((c : C) → g w.store ≡ some c → Runs w.store w (f c) Late Done)
        → Runs w.store w (on_store (gets g) >>= λ x. or_raise x e >>= f) Late Done
    run_find {w} g e f h = record { finishes = (run_or_raise (g w.store) e f h).finishes }

    -- The insertion of a bid on a task that is there.
    pub run_insert_bid :
        {w : World B} {Late : Error → World B → Type 0} {Done : World B → Type 0} (bid : Bid)
        (t : Task) (f : Error → Error) (k : Action (World B) A)
        → get bid.task_id w.store.tasks ≡ some t
        → (contains (bid.task_id, bid.bidder_id) w.store.bid_index ≡ false
            → Runs w.store (record w { store = add_bid bid t w.store }) k Late Done)
        → Runs w.store w (handle (on_store (insert_bid bid)) (λ e. raise (f e)) >> k) Late Done
    unfolding insert_bid
    run_insert_bid {w} {Late} {Done} bid t f k found h =
        elim (Bool-cases (contains (bid.task_id, bid.bidder_id) w.store.bid_index)) [
          | inl dup ↦ record { finishes = rw (found, dup) (inl refl) }
          | inr new ↦ record { finishes = rw (found, new) (h new).finishes }
        ]

    -- A request that loads its task and asks for a status that no deadline leads to: what an error
    -- leaves, and what the rest of it does from the row as it stands.
    after_load :
        (id : String) (status : Status) (w : World B) (g : Task → Action (World B) A)
        (P : Result A × World B → Type 0) (o : Result Task × World B)
        → is_terminal status ≡ false
        → ((e : Error) (v : World B) → Untouched id w.store v.store → P (err e, v))
        → ((t : Task) → get id w.store.tasks ≡ some t → P ((must_be status t >> g t) w))
        → Loaded id w o
        → P (let (r, v) = o in after r (λ t. must_be status t >> g t) v)
    after_load id status w g P (err e, v) live untouched goes_on same =
        untouched e v (inl (ap (λ (x : World B). x.store) same))
    after_load id status w g P (ok t, v) live untouched goes_on (inl (same, found)) =
        rw same (goes_on t found)
    after_load id status w g P (ok t, v) live untouched goes_on (inr (row, found, move, moved)) =
        rw (terminal_differs t.status status (AutoMove-terminal row t move) live)
          (untouched _ v (inr (row, t, found, move, moved)))

    pub load_then :
        (reads : Reads) (id : String) (status : Status) (w : World B)
        (g : Task → Action (World B) A) (Done : Task → World B → Type 0)
        → IsKeyed w.store
        → is_terminal status ≡ false
        → ((t : Task)
            → get id w.store.tasks ≡ some t
            → t.status ≡ status
            → Runs w.store w (g t) Never (Done t))
        → Effect id w Done ((load_task reads id >>= λ t. must_be status t >> g t) w)
    load_then reads id status w g Done keys live goes_on =
        after_load id status w g (Effect id w Done) (load_task reads id w) live (λ e v h. h)
          (λ t found.
            Finishes-Effect id w t Done _ found
              (run_raise_if _ _ (g t)
                (λ is_it. goes_on t found (same_status_eq t.status status is_it))).finishes)
          (load_task-Loaded reads id w keys)

    pub load_and_reply :
        (reads : Reads) (id : String) (status : Status) (w : World B)
        (g : Task → Action (World B) A) (Done : Task → World B → Type 0)
        → IsKeyed w.store
        → is_terminal status ≡ false
        → ((t : Task)
            → get id w.store.tasks ≡ some t
            → t.status ≡ status
            → Runs w.store w (g t) (Unanswered id) (Done t))
        → Replied id w Done ((load_task reads id >>= λ t. must_be status t >> g t) w)
    load_and_reply reads id status w g Done keys live goes_on =
        after_load id status w g (Replied id w Done) (load_task reads id w) live (λ e v h. inl h)
          (λ t found.
            Finishes-Replied id w t Done _ found
              (run_raise_if _ _ (g t)
                (λ is_it. goes_on t found (same_status_eq t.status status is_it))).finishes)
          (load_task-Loaded reads id w keys)
