-- ===== src/Gateway/Stream.antt =====
-- The events that readers poll for: what a sequence of write requests adds to them.
use agent_economy.Shared.{
  ℕ, suc, ◌+◌, ◌≡◌, refl, sym, ap, String, Option, none, List, [], ◌∷◌, ◌++◌, ◌∙◌, Bool, inl, inr,
  arith, length,
}
use mathlib.Core.List.{append_assoc, append-nil}
use agent_economy.Shared.Action.{Result, ok, err}
use agent_economy.Gateway.Sql.{Table, Database, Connection, settled}
use agent_economy.Gateway.Statements.{Event, event_row, Constraints}
use agent_economy.Gateway.Writer.Claims.{update_claim_status, delete_ruling}
use agent_economy.Gateway.Steps.Clauses.{Named}
use agent_economy.Gateway.Quiet.{IsQuiet, update_claim_status-IsQuiet, delete_ruling-IsQuiet}
use agent_economy.Gateway.Tried.{Records}
use agent_economy.Gateway.Saved.{Concludes}
use agent_economy.Gateway.Writes.{Write, event_of, perform, WellNamed, perform-Concludes}

-- The rows of events with consecutive numbers.
abbrev pub rows_from : ℕ → List Event → Table
rows_from n [] = []
rows_from n (event ∷ log) = event_row (suc n) event ∷ rows_from (suc n) log

-- What the services ask the gateway to write: with an event, or a claim's status or the deletion of a
-- claim's ruling without one.
pub data Request : Type 0 where
  recorded : Write → Request
  marked : String → String → Option Constraints → Request
  withdrawn : String → Request

-- The events of some of the requests, in their order.
pub data Picks : List Event → List Request → Type 0 where
  nothing : Picks [] []
  skip : {log : List Event} {rs : List Request} (r : Request) → Picks log rs → Picks log (r ∷ rs)
  pick :
      {log : List Event} {rs : List Request} (w : Write)
      → Picks log rs
      → Picks (event_of w ∷ log) (recorded w ∷ rs)

pub record Extends (d : Database) (rs : List Request) (v : Connection) : Type 0 where
  pub log : List Event
  pub file : Database
  pub closed : v ≡ settled file
  pub picked : Picks log rs
  pub events : file.rows "events" ≡ d.rows "events" ++ rows_from d.last_event log
  pub last : file.last_event ≡ d.last_event + length log

module _ (is_identifier : String → Bool) where
  -- The connection after a request; an error ends it.
  abbrev pub serve : Request → Connection → Connection
  serve (recorded w) c = (perform is_identifier w c).1
  serve (marked claim_id status constraints) c =
      (update_claim_status is_identifier claim_id (record { status = status; event = none })
        constraints c).1
  serve (withdrawn claim_id) c = (delete_ruling claim_id c).1

  -- The connection after requests that come one after the other; an error ends its request only.
  unfoldable pub serve_all : List Request → Connection → Connection
  serve_all [] c = c
  serve_all (r ∷ rs) c = serve_all rs (serve r c)

  abbrev pub IsWellNamed : Request → Type 0
  IsWellNamed (recorded w) = WellNamed is_identifier w
  IsWellNamed (marked claim_id status constraints) = Named is_identifier constraints
  IsWellNamed (withdrawn claim_id) = Unit {0}

  abbrev pub AllWellNamed : List Request → Type 0
  AllWellNamed [] = Unit {0}
  AllWellNamed (r ∷ rs) = IsWellNamed r × AllWellNamed rs

skipped :
    {d : Database} {rs : List Request} {v : Connection} (r : Request)
    → Extends d rs v
    → Extends d (r ∷ rs) v
skipped r e = record {
  log = e.log;
  file = e.file;
  closed = e.closed;
  picked = skip r e.picked;
  events = e.events;
  last = e.last;
}

kept :
    {d d' : Database} {rs : List Request} {v : Connection} (w : Write) (id : ℕ)
    → Records d (event_of w) id d'
    → Extends d' rs v
    → Extends d (recorded w ∷ rs) v
kept {d} {d'} w id records e = record {
  log = event_of w ∷ e.log;
  file = e.file;
  closed = e.closed;
  picked = pick w e.picked;
  events =
      e.events
      ∙ ap (λ (t : Table). t ++ rows_from d'.last_event e.log) records.events
      ∙ append_assoc (d.rows "events") (event_row id (event_of w) ∷ [])
          (rows_from d'.last_event e.log)
      ∙ (λ i.
          d.rows "events"
          ++ event_row (records.fresh i) (event_of w)
            ∷ rows_from ((records.last ∙ records.fresh) i) e.log);
  last = omega (arith, e.last, records.last, records.fresh);
}

quietly :
    {d : Database} {rs : List Request} {v w : Connection} (r : Request) (q : IsQuiet d v)
    → Extends q.file rs w
    → Extends d (r ∷ rs) w
quietly r q e = record {
  log = e.log;
  file = e.file;
  closed = e.closed;
  picked = skip r e.picked;
  events = e.events ∙ (λ i. q.events i ++ rows_from (q.last i) e.log);
  last = omega (arith, e.last, q.last);
}

module _ (is_identifier : String → Bool) where
  -- A request with an event, by how it ends, and then the others.
  one_more :
      (w : Write) (rs : List Request) (d : Database) (o : Result ℕ × Connection)
      → Concludes (λ id. id) d (event_of w) o
      → ((d' : Database) → Extends d' rs (serve_all is_identifier rs (settled d')))
      → Extends d (recorded w ∷ rs) (serve_all is_identifier rs o.1)
  one_more w rs d (err e, v) same rest = rw same (skipped (recorded w) (rest d))
  one_more w rs d (ok id, v) (inl (_, same)) rest = rw same (skipped (recorded w) (rest d))
  one_more w rs d (ok id, v) (inr (d', same, records)) rest = rw same (kept w id records (rest d'))

  one_quiet :
      (r : Request) (rs : List Request) (d : Database) (v : Connection)
      → IsQuiet d v
      → ((d' : Database) → Extends d' rs (serve_all is_identifier rs (settled d')))
      → Extends d (r ∷ rs) (serve_all is_identifier rs v)
  one_quiet r rs d v q rest = rw (q.closed) (quietly r q (rest q.file))

  one_of_them :
      (r : Request) (rs : List Request) (d : Database)
      → IsWellNamed is_identifier r
      → ((d' : Database) → Extends d' rs (serve_all is_identifier rs (settled d')))
      → Extends d (r ∷ rs) (serve_all is_identifier rs (serve is_identifier r (settled d)))
  one_of_them (recorded w) rs d named rest =
      one_more w rs d (perform is_identifier w (settled d))
        (perform-Concludes is_identifier d w named) rest
  one_of_them (marked claim_id status constraints) rs d named rest =
      one_quiet (marked claim_id status constraints) rs d _
        (update_claim_status-IsQuiet d is_identifier claim_id status constraints named) rest
  one_of_them (withdrawn claim_id) rs d named rest =
      one_quiet (withdrawn claim_id) rs d _ (delete_ruling-IsQuiet d claim_id) rest

  -- After any write requests from a connection with no open transaction, whose constraints' names are
  -- identifiers where the method does not roll back for them, no transaction is open, and the file's
  -- events are those from before and then the events of some of the requests in the order of the
  -- requests, numbered on from the last event with no gap.
  pub serve_all-Extends :
      (rs : List Request) (d : Database)
      → AllWellNamed is_identifier rs
      → Extends d rs (serve_all is_identifier rs (settled d))
  unfolding serve_all
  serve_all-Extends [] d named = record {
    log = [];
    file = d;
    closed = refl;
    picked = nothing;
    events = sym (append-nil (d.rows "events"));
    last = omega arith;
  }
  serve_all-Extends (r ∷ rs) d named =
      one_of_them r rs d (named.0) (λ d'. serve_all-Extends rs d' (named.1))
