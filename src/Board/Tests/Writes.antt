-- ===== src/Board/Tests/Writes.antt =====
-- Writes of the task store with several bids, and the theorems about them.
use agent_economy.Shared.{List, String, ◌≡◌, refl, none, [], ◌∷◌, text_eq, pair_eq}
use agent_economy.Shared.Int.{pos}
use agent_economy.Shared.Dict.{get, set}
use agent_economy.Board.Types.{set_status, Bid, opened, accepted, no_tasks}
use agent_economy.Board.Store.{insert_task, insert_bid, update_task}
use agent_economy.Board.Store.Tallies.{
  Write, add_task, place_bid, change, write_all, AllProper, IsTallied, write_all-IsTallied,
  one_bid_each, no_tasks-IsTallied,
}
use agent_economy.Board.Tests.{task_id, row}

abbrev offer : String → String → Bid
offer bid_id bidder_id = record {
  bid_id = bid_id;
  task_id = task_id;
  bidder_id = bidder_id;
  amount = pos 7;
  submitted_at = 9;
}

abbrev writes : List Write
writes =
    add_task (row opened)
    ∷ place_bid (offer "bid-1" "bob")
    ∷ place_bid (offer "bid-2" "carol")
    ∷ place_bid (offer "bid-3" "bob")
    ∷ change task_id (set_status accepted ∷ []) none
    ∷ []

writes-AllProper : AllProper writes no_tasks
unfolding insert_task insert_bid get set update_task
writes-AllProper = (refl, (refl, (refl, (refl, (tt, tt)))))

write_all-IsTallied_example : IsTallied (write_all writes no_tasks)
write_all-IsTallied_example =
    write_all-IsTallied writes no_tasks no_tasks-IsTallied writes-AllProper

one_bid_each_example : ◌≡◌ {A = String} "bid-1" "bid-1"
unfolding insert_task insert_bid get set update_task
one_bid_each_example =
    one_bid_each writes no_tasks "bid-1" "bid-1" (offer "bid-1" "bob") (offer "bid-1" "bob")
      no_tasks-IsTallied writes-AllProper refl refl refl refl
