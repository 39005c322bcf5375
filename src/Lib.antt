-- ===== src/Lib.antt =====
-- The agent economy: agents post tasks, bid on them, deliver, and are paid through escrows. This
-- library models the services that decide about money, work, disputes, reputation and identity, and
-- proves what they do.
--
-- The Central Bank's ledger
-- (services/central-bank/src/central_bank_service/services/in_memory_ledger_store.py) keeps
-- accounts, their transactions and escrows. Bank/Types.antt has its rows, Bank/Ledger.antt one
-- function for each method of `InMemoryLedgerStore`: create_account, get_account, credit
-- (`credit_account`), get_transactions, escrow_lock, escrow_release, escrow_split, count_accounts
-- and total_escrowed. Identifiers and clock readings that a call draws are its argument `Draws`.
-- Below Bank/Ledger: Invariant (well-formedness), Conservation (the money in the ledger), Outcomes
-- (each call keeps the invariant), Effects (what locks, releases and splits write), Retries, Share
-- (the division of a split), History (sequences of calls), Resolution (an escrow is paid once),
-- Audit (accounts against transactions), Tests. Bank/Requests.antt has the escrow endpoints
-- (central_bank_service/routers/escrow.py and helpers.py).
--
-- The Task Board (services/task-board/src/task_board_service/services) keeps tasks, bids and
-- assets. Board/Types.antt has its rows, Board/Store.antt the methods of `InMemoryTaskStore`,
-- Board/Client.antt `EscrowCoordinator` over an interface `BankClient` of the bank's HTTP client,
-- Board/Tokens.antt `TokenValidator` over an interface `Crypto` of signature checks and of base64
-- and JSON decoding, Board/Deadlines.antt `DeadlineEvaluator`, and Board/Manager the requests of
-- `TaskManager`: Requests (the checks of the signed token), Replies (the row with its deadlines),
-- NewTask and Creation (create_task), Lifecycle (all others). A request runs on a `World`: the task
-- store and the state of the bank behind the client. It calls the validator, loads the row,
-- evaluates its deadlines, checks status and signer, calls the bank, and updates the row.
-- Board/Deadlines/Transitions.antt has the rule of deadlines, Board/Manager/Effects the effect of
-- each request, Board/Manager/Advances.antt and History.antt sequences of them, and
-- Board/Tests.antt and Board/Tests/Writes.antt runs. Board/Store/Tallies.antt has the bids of the
-- store, their index and their number. Board/Assets.antt has the upload, list and download of
-- `AssetManager`, over the disk as a parameter, and Board/Assets/Uploads.antt what an upload does.
--
-- The Court (services/court/src/court_service) rules on disputed tasks. Court/Types.antt has its
-- rows, Court/Store.antt the methods of `InMemoryDisputeStore`, Court/Service.antt
-- `DisputeService`, Court/Panel.antt and Court/Ruling.antt `RulingOrchestrator`, and
-- Court/Requests.antt the endpoints with their checks (routers/disputes.py and
-- routers/validation.py). Judges return a vote or raise (a dictionary's percentage that is a
-- Boolean is left out), and the platform agent's calls go to an interface `Platform`, with the
-- state of the other services. A ruling reads the dispute, marks it, asks the judges, tells the
-- Task Board, sends two feedbacks, and stores the ruling; on any error it takes the dispute back.
-- Below Court/Panel: Median, Votes (what judges may answer); below Court/Ruling: Outcome (a ruling
-- on every branch), Progress (one that nothing hinders). Court/Sound.antt has the rows between
-- requests, Outcomes.antt, Served.antt and History.antt sequences of requests, Refinement.antt a
-- dispute as its parties see it, Texts.antt and Interop.antt what the Court sends against the
-- checks of those who receive it, Tests.antt a run.
--
-- The Reputation service (services/reputation/src/reputation_service) keeps feedback, which is
-- sealed until it is answered. Reputation/Store.antt has `SqliteFeedbackStore` as a table of rows
-- in the order of insertion, with its primary key and its unique index, Rules.antt
-- services/feedback.py, Requests.antt the endpoints. Validation.antt is about the checks, Rows.antt
-- about lookups, Sealed.antt, Added.antt and History.antt about the tables that submissions lead
-- to.
--
-- The Identity service (services/identity/src/identity_service) keeps agents and their keys.
-- Identity/Store.antt has `InMemoryAgentStore`, Registry.antt `AgentRegistry` over an interface
-- `Library` of base64, JSON, Ed25519 and token checks, Requests.antt the endpoints. Agents.antt is
-- about registrations, Signers.antt about verified tokens, History.antt about sequences of
-- registrations.
--
-- Of the user interface (services/ui/src/ui_service), Ui/Quarter.antt has the quarters of
-- services/quarterly.py: labels, their validation, periods and predecessors; Ui/Quarter/Labels.antt
-- is about their labels. The digits of all scripts and the lengths of months are an interface
-- `Calendar`.
--
-- The Database Gateway (services/db-gateway/src/db_gateway_service) keeps the tables of all
-- services in one SQLite file. Gateway/Sql.antt has rows and a connection of sqlite3, with what it
-- sees and what the file has, Gateway/Schema.antt the tables of docs/specifications/schema.sql,
-- Statements.antt the statements and the helpers of `DbWriter` (services/db_writer.py), and
-- Gateway/Writer its methods, by the service that calls them: Handlers (the `except` clauses),
-- Agents, Accounts, Escrows, Tasks, Feedback and Claims. A method begins a transaction, writes,
-- inserts its event and commits; an error rolls back where the code does. Tried.antt, Steps.antt,
-- Saved.antt and Methods follow the methods statement by statement, Writes.antt, Quiet.antt and
-- Stream.antt are about any request and sequences of requests, Inversions.antt, Released.antt and
-- PaidOnce.antt about a release that succeeds. A table is a list of rows; of two indices that a row
-- violates the one that was made last is reported; which texts are Python identifiers is a
-- parameter. A balance that leaves 64 bits becomes a floating-point number, whose digits are not
-- kept. `Write` in Writes.antt is a request that records an event; Quiet.antt has the two that
-- record none, a change of a claim's status and the deletion of a ruling.
--
-- Shared has what all use: Tests (Boolean tests and equality), Int (Python's integers), Dict (a
-- dict as an association list in insertion order), Value (JSON values), Text (operations on text),
-- Rows (comprehensions, sorts and slices), Action (state with errors; what was written before a
-- raise stays written) and Runs (rules that follow an action step by step). All functions recurse
-- on their data; only `decimal`, which writes a number, has fuel: the number itself, which is more
-- than its digits. Times are microseconds, at the Task Board since the year 1, where Python's
-- datetime begins, and elsewhere since the epoch; the Identity service registers in seconds; a
-- deadline after the year 9999 raises, as `timedelta` does; a deadline of a task is cut to whole
-- seconds, as `isoformat` with timespec="seconds" does. Integers are unbounded, as in Python; an
-- integer of more than 64 bits as the argument of an SQL statement, which sqlite3 refuses, is not
-- modelled.
--
-- Not modelled: locks (each store method is one step), and requests that interleave while one
-- awaits another service; the stores that go through the database gateway, and the gateway's reads
-- and routes; the account routes of the bank and the routes of the Task Board; logging, statistics,
-- start-up; the language-model judges; the agents, and the queries and pages of the user interface.
pub mod Shared
pub mod Bank
pub mod Board
pub mod Court
pub mod Reputation
pub mod Identity
pub mod Gateway
pub mod Ui
