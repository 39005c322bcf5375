-- ===== src/Board/Manager/History.antt =====
-- Sequences of requests of `TaskManager`, and where they can lead a task.
use agent_economy.Shared.{
  Option, not, ◌==◌, Bool-cases, ◌+◌, String, ◌≡◌, refl, ap, some, List, [], ◌∷◌, true, inl, inr,
  text_eq, pair_eq,
}
use agent_economy.Shared.Dict.{get}
use agent_economy.Shared.Action.{Result, ok, err, after}
use agent_economy.Board.Types.{Task, TaskStore}
use agent_economy.Board.Client.{BankClient, World}
use agent_economy.Board.Tokens.{Crypto}
use agent_economy.Board.Deadlines.{Reads, is_terminal}
use agent_economy.Board.Manager.Creation.{new_row, create_task}
use agent_economy.Board.Store.{get_bids_for_task}
use agent_economy.Board.Manager.Requests.{list_request}
use agent_economy.Board.Client.{on_store}
use agent_economy.Shared.Action.{result_cases, lift, ◌>>◌}
use agent_economy.Board.Types.{
  Status, accepted, submitted, approved, cancelled, disputed, ruled, expired, opened,
}
use agent_economy.Board.Manager.Lifecycle.{
  authorize_list, list_bids, load_task, show_task, cancel_task, submit_bid, accept_bid,
  submit_deliverable, approve_task, dispute_task, record_ruling,
}
use agent_economy.Board.Manager.Replies.{task_to_response}
use agent_economy.Board.Manager.Effects.{IsKeyed, Loaded, load_task-Loaded}
use agent_economy.Board.Manager.Effects.Requests.{
  Cancels, Approves, Disputes, Delivers, cancel_task-Effect, approve_task-Effect,
  dispute_task-Effect, submit_deliverable-Effect,
}
use agent_economy.Board.Manager.Effects.Bids.{Bids, Accepts, submit_bid-Effect, accept_bid-Effect}
use agent_economy.Board.Manager.Effects.Rulings.{Rules, record_ruling_effect}
use agent_economy.Board.Manager.Effects.Creations.{Creates, create_task_effect}
use agent_economy.Board.Manager.Advances.{
  stays, accepts, cancels, delivers, is_approved, is_disputed, is_ruled, Leads-terminal, Later,
  step_Later, AutoMove-Later, Advances, Advances-refl, Advances-trans, put_Advances, add_Advances,
  put_Done, Effect-Advances, Replied-Advances, Finishes-Advances,
}

pub data Request : Type 0 where
  create : Reads → String → String → Request
  show : Reads → String → Request
  list_for : Reads → String → Option String → Request
  cancel : Reads → String → String → Request
  bid : Reads → String → String → Request
  accept : Reads → String → String → String → Request
  deliver : Reads → String → String → Request
  approve : Reads → String → String → Request
  dispute : Reads → String → String → Request
  rule : String → Reads → String → String → Request

module _ {B : Type 0} ⦃client : BankClient B⦄ ⦃crypto : Crypto⦄ where
  -- The world after a request, whether it returned or raised.
  abbrev pub serve : Request → World B → World B
  serve (create reads token escrow) w = (create_task reads token escrow w).1
  serve (show reads id) w = (show_task reads id w).1
  serve (list_for reads id auth_token) w = (list_bids reads id auth_token w).1
  serve (cancel reads id token) w = (cancel_task reads id token w).1
  serve (bid reads id token) w = (submit_bid reads id token w).1
  serve (accept reads id bid_id token) w = (accept_bid reads id bid_id token w).1
  serve (deliver reads id token) w = (submit_deliverable reads id token w).1
  serve (approve reads id token) w = (approve_task reads id token w).1
  serve (dispute reads id token) w = (dispute_task reads id token w).1
  serve (rule platform reads id token) w = (record_ruling platform reads id token w).1

  abbrev pub serve_all : List Request → World B → World B
  serve_all [] w = w
  serve_all (r ∷ rs) w = serve_all rs (serve r w)

  shown :
      (w : World B) (id : String) (o : Result Task × World B)
      → IsKeyed w.store
      → Loaded id w o
      → Advances w.store (let (r, v) = o in after r (λ t. lift (task_to_response t)) v).1.store
  shown w id (err e, v) keys same = rw same (Advances-refl keys)
  shown w id (ok t, v) keys (inl (same, found)) = rw same (Advances-refl keys)
  shown w id (ok t, v) keys (inr (row, found, move, e)) =
      put_Done id keys found e (AutoMove-Later row t move)

  authorize_list-store :
      (id : String) (auth_token : Option String) (status : Status) (t : Task) (v : World B)
      → ((authorize_list id auth_token status t >> on_store (get_bids_for_task id)) v).1 ≡ v
  unfolding get_bids_for_task
  authorize_list-store id auth_token opened t v = elim (result_cases (list_request id auth_token)) [
    | inr (x, e) ↦ rw e refl
    | inl (signer, e) ↦ elim (Bool-cases (not (signer == t.poster_id))) [
      | inl other ↦ rw (e, other) refl
      | inr poster ↦ rw (e, poster) refl
    ]
  ]
  authorize_list-store id auth_token accepted t v = refl
  authorize_list-store id auth_token submitted t v = refl
  authorize_list-store id auth_token approved t v = refl
  authorize_list-store id auth_token cancelled t v = refl
  authorize_list-store id auth_token disputed t v = refl
  authorize_list-store id auth_token ruled t v = refl
  authorize_list-store id auth_token expired t v = refl

  listed :
      (w : World B) (id : String) (auth_token : Option String) (o : Result Task × World B)
      → IsKeyed w.store
      → Loaded id w o
      → Advances w.store
          (let (r, v) = o in
            after r
              (λ t. authorize_list id auth_token t.status t >> on_store (get_bids_for_task id))
              v).1.store
  listed w id auth_token (err e, v) keys l = shown w id (err e, v) keys l
  listed w id auth_token (ok t, v) keys l =
      rw (authorize_list-store id auth_token t.status t v) (shown w id (ok t, v) keys l)

  serve-Advances :
      (r : Request) (w : World B) → IsKeyed w.store → Advances w.store (serve r w).store
  unfolding show_task list_bids
  serve-Advances (cancel reads id token) w keys =
      Replied-Advances id w (Cancels reads id token w) (cancel_task reads id token w) keys
        (λ t v found (s, signed, paid, e).
          put_Done id keys found e (step_Later s cancels refl refl refl refl))
        (cancel_task-Effect reads id token w keys)
  serve-Advances (approve reads id token) w keys =
      Replied-Advances id w (Approves reads id token w) (approve_task reads id token w) keys
        (λ t v found (s, signed, paid, e).
          put_Done id keys found e (step_Later s is_approved refl refl refl refl))
        (approve_task-Effect reads id token w keys)
  serve-Advances (dispute reads id token) w keys =
      Replied-Advances id w (Disputes reads id token w) (dispute_task reads id token w) keys
        (λ t v found (s, payload, reason, signed, valid, b, e).
          put_Done id keys found e (step_Later s is_disputed refl refl refl refl))
        (dispute_task-Effect reads id token w keys)
  serve-Advances (deliver reads id token) w keys =
      Replied-Advances id w (Delivers reads id token w) (submit_deliverable reads id token w) keys
        (λ t v found (s, worker, his, signed, some_asset, b, e).
          put_Done id keys found e (step_Later s delivers refl refl refl refl))
        (submit_deliverable-Effect reads id token w keys)
  serve-Advances (accept reads id bid_id token) w keys =
      Replied-Advances id w (Accepts reads id bid_id token w) (accept_bid reads id bid_id token w)
        keys
        (λ t v found (s, signed, offer, is_offer, b, e).
          put_Done id keys found e (step_Later s accepts refl refl refl refl))
        (accept_bid-Effect reads id bid_id token w keys)
  serve-Advances (bid reads id token) w keys =
      Effect-Advances id w (Bids reads id token w) (submit_bid reads id token w) keys
        (λ t v found (s, bidder, amount, signed, deadline, is_it, early, other, new, b, e).
          put_Advances id keys found (ap (λ (x : TaskStore). x.tasks) e) (counted t))
        (submit_bid-Effect reads id token w keys)
    where
      counted : (t : Task) → Later t (record t { bid_count = t.bid_count + 1 })
      counted t = record {
        leads = stays;
        same_id = refl;
        same_poster = refl;
        same_reward = refl;
        same_escrow = refl;
      }
  serve-Advances (rule platform reads id token) w keys =
      Finishes-Advances _ (Rules platform reads id token w)
        (record_ruling platform reads id token w) keys
        (λ v
            (
              t, found, s, ruling_id, summary, v_pct, pct, signed, by_platform, valid, lo, hi, paid,
              e,
            ).
          put_Done id keys found e (step_Later s is_ruled refl refl refl refl))
        (record_ruling_effect platform reads id token w)
  serve-Advances (create reads token escrow) w keys =
      Finishes-Advances _ (Creates reads token escrow w) (create_task reads token escrow w) keys
        (λ v (t, escrow_id, valid, absent, locked, e).
          add_Advances t.task_id (new_row t escrow_id reads.stamp) keys absent
            (ap (λ (x : TaskStore). x.tasks) e) refl)
        (create_task_effect reads token escrow w)
  serve-Advances (list_for reads id auth_token) w keys =
      listed w id auth_token (load_task reads id w) keys (load_task-Loaded reads id w keys)
  serve-Advances (show reads id) w keys =
      shown w id (load_task reads id w) keys (load_task-Loaded reads id w keys)

  -- From a store whose rows stand under their identifiers, after any requests other than
  -- `list_tasks`, each row that was there is there, its poster, reward and escrow unchanged,
  -- with a status that the lifecycle leads to; one that had ended has its status still.
  pub serve_all-Later :
      (rs : List Request) (w : World B) (id : String) (t : Task)
      → IsKeyed w.store
      → get id w.store.tasks ≡ some t
      → (u : Task) × (get id (serve_all rs w).store.tasks ≡ some u)
        × Later t u
        × (is_terminal t.status ≡ true → u.status ≡ t.status)
  serve_all-Later rs w id t keys found =
      let (u, there, l) = (all_Advances rs w keys).later id t found in
      (u, there, l, λ ended. Leads-terminal ended l.leads)
    where
      all_Advances :
          (rs : List Request) (w : World B)
          → IsKeyed w.store
          → Advances w.store (serve_all rs w).store
      all_Advances [] w keys = Advances-refl keys
      all_Advances (r ∷ rs) w keys =
          let one = serve-Advances r w keys in
          Advances-trans one (all_Advances rs (serve r w) one.keyed)
