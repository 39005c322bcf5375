-- ===== src/Gateway/Schema.antt =====
-- The tables of docs/specifications/schema.sql: their columns, what is unique in them, and what a
-- column refers to.
use agent_economy.Shared.{
  String, Option, none, some, List, [], ◌∷◌, Bool, true, false, ◌&&◌, ◌||◌, text_eq, ◌==◌,
  if◌then◌else◌,
}
use agent_economy.Shared.Dict.{get}
use agent_economy.Gateway.Sql.{text, Row, Table, Database, cell, is_null, sql_equal, any_row}

-- A key or a unique index, perhaps one `WHERE column = value`.
pub record Unique : Type 0 where
  pub columns : List String
  pub only_if : Option (String × String)

-- `FOREIGN KEY (column) REFERENCES table (key)`
pub record Foreign : Type 0 where
  pub column : String
  pub target : String
  pub key : String

-- Of the indices that a row violates, SQLite reports the one that was made last: it stands first.
pub record Schema : Type 0 where
  pub columns : List String
  pub uniques : List Unique
  pub foreigns : List Foreign

abbrev unique_on : String → Unique
unique_on column = record { columns = column ∷ []; only_if = none }

abbrev foreign : String → String → String → Foreign
foreign column target key = record { column = column; target = target; key = key }

abbrev to_agent : String → Foreign
to_agent column = foreign column "identity_agents" "agent_id"

abbrev agents_schema : Schema
agents_schema = record {
  columns = "agent_id" ∷ "name" ∷ "public_key" ∷ "registered_at" ∷ [];
  uniques = unique_on "public_key" ∷ unique_on "agent_id" ∷ [];
  foreigns = [];
}

abbrev accounts_schema : Schema
accounts_schema = record {
  columns = "account_id" ∷ "balance" ∷ "created_at" ∷ [];
  uniques = unique_on "account_id" ∷ [];
  foreigns = to_agent "account_id" ∷ [];
}

abbrev transactions_schema : Schema
transactions_schema = record {
  columns =
      "tx_id" ∷ "account_id" ∷ "type" ∷ "amount" ∷ "balance_after" ∷ "reference" ∷ "timestamp" ∷ [];
  uniques =
      record { columns = "account_id" ∷ "reference" ∷ []; only_if = some ("type", "credit") }
      ∷ unique_on "tx_id"
      ∷ [];
  foreigns = foreign "account_id" "bank_accounts" "account_id" ∷ [];
}

abbrev escrow_schema : Schema
escrow_schema = record {
  columns =
      "escrow_id" ∷ "payer_account_id" ∷ "amount" ∷ "task_id" ∷ "status" ∷ "created_at"
      ∷ "resolved_at" ∷ [];
  uniques =
      record { columns = "payer_account_id" ∷ "task_id" ∷ []; only_if = some ("status", "locked") }
      ∷ unique_on "escrow_id"
      ∷ [];
  foreigns = foreign "payer_account_id" "bank_accounts" "account_id" ∷ [];
}

abbrev tasks_schema : Schema
tasks_schema = record {
  columns =
      "task_id" ∷ "poster_id" ∷ "title" ∷ "spec" ∷ "reward" ∷ "status" ∷ "bidding_deadline_seconds"
      ∷ "deadline_seconds" ∷ "review_deadline_seconds" ∷ "bidding_deadline" ∷ "execution_deadline"
      ∷ "review_deadline" ∷ "bid_count" ∷ "escrow_pending" ∷ "escrow_id" ∷ "worker_id"
      ∷ "accepted_bid_id" ∷ "dispute_reason" ∷ "ruling_id" ∷ "worker_pct" ∷ "ruling_summary"
      ∷ "created_at" ∷ "accepted_at" ∷ "submitted_at" ∷ "approved_at" ∷ "cancelled_at"
      ∷ "disputed_at" ∷ "ruled_at" ∷ "expired_at" ∷ [];
  uniques = unique_on "task_id" ∷ [];
  foreigns =
      to_agent "poster_id"
      ∷ to_agent "worker_id"
      ∷ foreign "escrow_id" "bank_escrow" "escrow_id"
      ∷ [];
}

abbrev to_task : Foreign
to_task = foreign "task_id" "board_tasks" "task_id"

abbrev bids_schema : Schema
bids_schema = record {
  columns = "bid_id" ∷ "task_id" ∷ "bidder_id" ∷ "proposal" ∷ "amount" ∷ "submitted_at" ∷ [];
  uniques =
      record { columns = "task_id" ∷ "bidder_id" ∷ []; only_if = none } ∷ unique_on "bid_id" ∷ [];
  foreigns = to_task ∷ to_agent "bidder_id" ∷ [];
}

abbrev assets_schema : Schema
assets_schema = record {
  columns =
      "asset_id" ∷ "task_id" ∷ "uploader_id" ∷ "filename" ∷ "content_type" ∷ "size_bytes"
      ∷ "storage_path" ∷ "content_hash" ∷ "uploaded_at" ∷ [];
  uniques = unique_on "asset_id" ∷ [];
  foreigns = to_task ∷ to_agent "uploader_id" ∷ [];
}

abbrev feedback_schema : Schema
feedback_schema = record {
  columns =
      "feedback_id" ∷ "task_id" ∷ "from_agent_id" ∷ "to_agent_id" ∷ "role" ∷ "category" ∷ "rating"
      ∷ "comment" ∷ "submitted_at" ∷ "visible" ∷ [];
  uniques =
      record { columns = "task_id" ∷ "from_agent_id" ∷ "to_agent_id" ∷ []; only_if = none }
      ∷ unique_on "feedback_id"
      ∷ [];
  foreigns = to_task ∷ to_agent "from_agent_id" ∷ to_agent "to_agent_id" ∷ [];
}

abbrev claims_schema : Schema
claims_schema = record {
  columns =
      "claim_id" ∷ "task_id" ∷ "claimant_id" ∷ "respondent_id" ∷ "reason" ∷ "status"
      ∷ "rebuttal_deadline" ∷ "filed_at" ∷ [];
  uniques = unique_on "task_id" ∷ unique_on "claim_id" ∷ [];
  foreigns = to_task ∷ to_agent "claimant_id" ∷ to_agent "respondent_id" ∷ [];
}

abbrev to_claim : Foreign
to_claim = foreign "claim_id" "court_claims" "claim_id"

abbrev rebuttals_schema : Schema
rebuttals_schema = record {
  columns = "rebuttal_id" ∷ "claim_id" ∷ "agent_id" ∷ "content" ∷ "submitted_at" ∷ [];
  uniques = unique_on "rebuttal_id" ∷ [];
  foreigns = to_claim ∷ to_agent "agent_id" ∷ [];
}

abbrev rulings_schema : Schema
rulings_schema = record {
  columns =
      "ruling_id" ∷ "claim_id" ∷ "task_id" ∷ "worker_pct" ∷ "summary" ∷ "judge_votes" ∷ "ruled_at"
      ∷ [];
  uniques = unique_on "ruling_id" ∷ [];
  foreigns = to_claim ∷ to_task ∷ [];
}

abbrev events_schema : Schema
events_schema = record {
  columns =
      "event_id" ∷ "event_source" ∷ "event_type" ∷ "timestamp" ∷ "task_id" ∷ "agent_id" ∷ "summary"
      ∷ "payload" ∷ [];
  uniques = unique_on "event_id" ∷ [];
  foreigns = to_agent "agent_id" ∷ [];
}

abbrev no_schema : Schema
no_schema = record { columns = []; uniques = []; foreigns = [] }

abbrev or_empty : Option Schema → Schema
or_empty none = no_schema
or_empty (some s) = s

unfoldable pub schema_of : String → Schema
schema_of name = or_empty (
    get name (
      ("identity_agents", agents_schema)
      ∷ ("bank_accounts", accounts_schema)
      ∷ ("bank_transactions", transactions_schema)
      ∷ ("bank_escrow", escrow_schema)
      ∷ ("board_tasks", tasks_schema)
      ∷ ("board_bids", bids_schema)
      ∷ ("board_assets", assets_schema)
      ∷ ("reputation_feedback", feedback_schema)
      ∷ ("court_claims", claims_schema)
      ∷ ("court_rebuttals", rebuttals_schema)
      ∷ ("court_rulings", rulings_schema)
      ∷ ("events", events_schema)
      ∷ []))

unfoldable pub mentions : String → List String → Bool
mentions name [] = false
mentions name (other ∷ names) = (other == name) || mentions name names

-- Whether an index holds a row, and whether two rows agree on its columns.
abbrev is_held : Option (String × String) → Row → Bool
is_held none row = true
is_held (some (column, value)) row = sql_equal (cell column row) (text value)

unfoldable pub agree_on : List String → Row → Row → Bool
agree_on [] row other = true
agree_on (column ∷ columns) row other =
    sql_equal (cell column row) (cell column other) && agree_on columns row other

unfoldable pub conflicts : Unique → Row → Row → Bool
unfolding agree_on
conflicts u row other =
    is_held u.only_if row && is_held u.only_if other && agree_on u.columns row other

-- The columns of the index that a new row violates.
unfoldable pub violated : List Unique → Row → Table → Option (List String)
violated [] row t = none
violated (u ∷ us) row t = if any_row (conflicts u row) t then some u.columns else violated us row t

unfoldable pub refers : Foreign → Row → Database → Bool
refers f row d =
    is_null (cell f.column row)
    || any_row (λ target. sql_equal (cell f.key target) (cell f.column row)) (d.rows f.target)

unfoldable pub all_refer : List Foreign → Row → Database → Bool
all_refer [] row d = true
all_refer (f ∷ fs) row d = refers f row d && all_refer fs row d
