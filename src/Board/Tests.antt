-- ===== src/Board/Tests.antt =====
-- The Task Board on a small store, with a bank that counts its payments and two agents, and the
-- theorems about it there.
mod Writes
use agent_economy.Shared.{
  List, ℕ, ◌+◌, String, ◌≡◌, refl, Option, none, some, [], ◌∷◌, true, false, if◌then◌else◌, text_eq,
  pair_eq, ◌==◌, arith, eq_iff, inr,
}
use agent_economy.Shared.Int.{pos}
use agent_economy.Shared.Dict.{get, set}
use agent_economy.Shared.Value.{str, int, Object}
use agent_economy.Shared.Action.{Result, ok, err, other_exception}
use agent_economy.Board.Types.{
  set_status, Bid, Status, opened, accepted, submitted, approved, cancelled, disputed, Task,
  no_tasks,
}
use agent_economy.Board.Store.{insert_task, insert_bid, get_task, put_task, update_task}
use agent_economy.Board.Store.Tallies.{
  Write, add_task, place_bid, change, write_all, AllProper, IsTallied, write_all-IsTallied,
  one_bid_each, no_tasks-IsTallied,
}
use agent_economy.Board.Client.{BankClient, World, retry_pending_escrow, retry_as, release_escrow}
use agent_economy.Board.Tokens.{
  Crypto, failed, validate_jws_token, split_dots, three_parts, verify, verify_via_identity,
}
use agent_economy.Board.Deadlines.{Reads, is_terminal, evaluate_deadline, compute_deadline}
use agent_economy.Board.Deadlines.Transitions.{IsStored, is_due, when_due, evaluate_deadline_lem}
use agent_economy.Board.Manager.Replies.{task_to_response}
use agent_economy.Board.Manager.Requests.{signed_request}
use agent_economy.Board.Manager.Creation.{new_row}
use agent_economy.Board.Manager.Lifecycle.{
  load_task, write_and_reply, cancel_task, submit_bid, accept_bid, submit_deliverable, approve_task,
  dispute_task, record_ruling,
}
use agent_economy.Board.Manager.Effects.{IsKeyed, Effect, Replied, Unanswered, Finishes}
use agent_economy.Board.Manager.Effects.Requests.{
  Cancels, Approves, Disputes, Delivers, cancel_task-Effect, approve_task-Effect,
  dispute_task-Effect, submit_deliverable-Effect,
}
use agent_economy.Board.Assets.{Limits, Upload, upload_asset}
use agent_economy.Board.Assets.Uploads.{Uploads, upload_asset-Effect}
use agent_economy.Board.Manager.Effects.Bids.{Bids, Accepts, submit_bid-Effect, accept_bid-Effect}
use agent_economy.Board.Manager.Effects.Rulings.{Rules, record_ruling_effect}
use agent_economy.Board.Manager.Advances.{Later}
use agent_economy.Board.Manager.History.{
  Request, cancel, accept, deliver, show, serve_all, serve_all-Later,
}

-- A bank that pays and counts.
instance abbrev paying : BankClient ℕ
paying = record {
  lock = λ token b. (ok "esc-1", b + 1);
  release = λ escrow_id recipient b. (ok tt, b + 1);
  divide = λ escrow_id worker poster pct b. (ok tt, b + 1);
}

abbrev pub task_id : String
task_id = "t-00000000-0000-0000-0000-00000000000a"

-- A token names its action, and "w" signs as the worker.
abbrev action_of : String → String
action_of token =
    if token == "cancel.p.s"
    then "cancel_task"
    else if token == "approve.p.s"
    then "approve_task"
    else if token == "dispute.p.s"
    then "dispute_task"
    else if token == "deliver.w.s"
    then "submit_deliverable"
    else if token == "upload.w.s"
    then "upload_asset"
    else if token == "bid.w.s"
    then "submit_bid"
    else if token == "accept.p.s"
    then "accept_bid"
    else if token == "create.p.s"
    then "create_task"
    else "record_ruling"

abbrev signer_of : String → String
signer_of token =
    if token == "deliver.w.s"
    then "bob"
    else if token == "upload.w.s"
    then "bob"
    else if token == "bid.w.s"
    then "bob"
    else if token == "rule.j.s"
    then "court"
    else "alice"

abbrev claims : String → Object
claims token =
    ("action", str (action_of token))
    ∷ ("task_id", str task_id)
    ∷ ("poster_id", str "alice")
    ∷ ("worker_id", str "bob")
    ∷ ("bidder_id", str "bob")
    ∷ ("bid_id", str "bid-1")
    ∷ ("amount", int (pos 10))
    ∷ ("reason", str "late")
    ∷ ("ruling_id", str "rule-1")
    ∷ ("ruling_summary", str "half each")
    ∷ ("worker_pct", int (pos 50))
    ∷ ("title", str "a title")
    ∷ ("spec", str "a spec")
    ∷ ("reward", int (pos 10))
    ∷ ("bidding_deadline_seconds", int (pos 60))
    ∷ ("deadline_seconds", int (pos 60))
    ∷ ("review_deadline_seconds", int (pos 60))
    ∷ ("kid", str "alice")
    ∷ []

instance abbrev signing : Crypto
signing = record {
  verify_jws = some (λ token.
      ok
        (record { valid = true; payload = some (claims token); agent_id = str (signer_of token) }));
  validate_certificate = λ token. failed;
  decode_part = λ part. ok (claims part);
}

abbrev pub row : Status → Task
row status =
    record (new_row
      (record {
        task_id = task_id;
        poster_id = "alice";
        title = "a title";
        spec = "a spec";
        reward = pos 10;
        bidding_deadline_seconds = pos 60;
        deadline_seconds = pos 60;
        review_deadline_seconds = pos 60;
      })
      "esc-1" 1000000) { status = status; worker_id = some "bob"; submitted_at = some 2000000 }

abbrev world : Status → World ℕ
world status = record {
  store = record {
    tasks = (task_id, row status) ∷ [];
    bids =
        (
          "bid-1",
          record {
            bid_id = "bid-1";
            task_id = task_id;
            bidder_id = "carol";
            amount = pos 9;
            submitted_at = 5;
          },
        )
        ∷ [];
    bid_index = ((task_id, "carol"), "bid-1") ∷ [];
    assets =
        (
          "asset-1",
          record {
            asset_id = "asset-1";
            task_id = task_id;
            uploader_id = "bob";
            filename = "f";
            content_type = "text/plain";
            size_bytes = 3;
            content_hash = "h";
            uploaded_at = 6;
          },
        )
        ∷ [];
  };
  bank = 0;
}

abbrev reads : Reads
reads = record {
  now = 3000000;
  transition_at = 3000001;
  bid_checked_at = 3000002;
  stamp = 3000003;
  uuid = "u-1";
}

abbrev late : Reads
late = record reads { now = 100000000 }

world-IsKeyed : (status : Status) → IsKeyed (world status).store
unfolding get
world-IsKeyed status = record {
  keyed = λ k t p. ground (arith, eq_iff task_id k, eq_iff k task_id);
}

-- The status of the row after a request, and how often the bank was called.
abbrev ended : {A : Type 0} → Result A × World ℕ → Option Status × ℕ
ended (_, w) = (elim (get task_id w.store.tasks) [ none ↦ none | some t ↦ some t.status ], w.bank)

cancel_test : ended (cancel_task reads task_id "cancel.p.s" (world opened)) ≡ (some cancelled, 1)
unfolding cancel_task get set signed_request validate_jws_token split_dots three_parts verify
    verify_via_identity load_task get_task evaluate_deadline retry_pending_escrow retry_as
    release_escrow write_and_reply task_to_response update_task compute_deadline
cancel_test = refl

cancel_task-Effect_example :
    Replied task_id
      (world opened)
      (Cancels reads task_id "cancel.p.s" (world opened))
      (cancel_task reads task_id "cancel.p.s" (world opened))
cancel_task-Effect_example =
    cancel_task-Effect reads task_id "cancel.p.s" (world opened) (world-IsKeyed opened)

approve_task-Effect_example :
    Replied task_id
      (world submitted)
      (Approves reads task_id "approve.p.s" (world submitted))
      (approve_task reads task_id "approve.p.s" (world submitted))
approve_task-Effect_example =
    approve_task-Effect reads task_id "approve.p.s" (world submitted) (world-IsKeyed submitted)

submit_deliverable-Effect_example :
    Replied task_id
      (world accepted)
      (Delivers reads task_id "deliver.w.s" (world accepted))
      (submit_deliverable reads task_id "deliver.w.s" (world accepted))
submit_deliverable-Effect_example =
    submit_deliverable-Effect reads task_id "deliver.w.s" (world accepted) (world-IsKeyed accepted)

submit_bid-Effect_example :
    Effect task_id
      (world opened)
      (Bids reads task_id "bid.w.s" (world opened))
      (submit_bid reads task_id "bid.w.s" (world opened))
submit_bid-Effect_example =
    submit_bid-Effect reads task_id "bid.w.s" (world opened) (world-IsKeyed opened)

accept_bid-Effect_example :
    Replied task_id
      (world opened)
      (Accepts reads task_id "bid-1" "accept.p.s" (world opened))
      (accept_bid reads task_id "bid-1" "accept.p.s" (world opened))
accept_bid-Effect_example =
    accept_bid-Effect reads task_id "bid-1" "accept.p.s" (world opened) (world-IsKeyed opened)

record_ruling_effect_example :
    Finishes
      (world disputed).store
      (Unanswered task_id)
      (Rules "court" reads task_id "rule.j.s" (world disputed))
      (record_ruling "court" reads task_id "rule.j.s" (world disputed))
record_ruling_effect_example =
    record_ruling_effect "court" reads task_id "rule.j.s" (world disputed)

abbrev empty_world : World ℕ
empty_world = record { store = no_tasks; bank = 0 }

row_IsStored : (status : Status) → IsStored (row status) (world status).store
unfolding get
row_IsStored status = refl

evaluate_deadline_lem_example :
    evaluate_deadline late (row submitted) (world submitted)
    ≡ when_due late (row submitted) (is_due late.now (row submitted) submitted) (world submitted)
evaluate_deadline_lem_example =
    evaluate_deadline_lem late (row submitted) (world submitted) (row_IsStored submitted)

-- A deadline that lies after the year 9999.
deadline_test : compute_deadline (some 5) (pos 1000000000000) ≡ err other_exception
unfolding compute_deadline
deadline_test = refl

abbrev requests : List Request
requests =
    accept reads task_id "bid-1" "accept.p.s"
    ∷ cancel reads task_id "cancel.p.s"
    ∷ deliver reads task_id "deliver.w.s"
    ∷ show late task_id
    ∷ []

serve_all-Later_example :
    (u : Task) × (get task_id (serve_all requests (world opened)).store.tasks ≡ some u)
    × Later (row opened) u
    × (is_terminal opened ≡ true → u.status ≡ opened)
serve_all-Later_example =
    serve_all-Later requests (world opened) task_id (row opened) (world-IsKeyed opened)
      (row_IsStored opened)

abbrev limits : Limits
limits = record { max_file_size = 10; max_files_per_task = 2 }

abbrev report : Upload
report = record {
  asset_id = "asset-9";
  uploaded_at = 3000000;
  filename = "report.txt";
  content_type = "text/plain";
  size_bytes = 7;
  content_hash = "hash";
  saved = ok tt;
}

report_is_new : get "asset-9" (world accepted).store.assets ≡ none
unfolding get
report_is_new = refl

upload_asset-Effect_example :
    Effect task_id
      (world accepted)
      (Uploads limits task_id "upload.w.s" report (world accepted))
      (upload_asset limits reads task_id "upload.w.s" report (world accepted))
upload_asset-Effect_example =
    upload_asset-Effect limits reads task_id "upload.w.s" report (world accepted)
      (world-IsKeyed accepted) report_is_new
