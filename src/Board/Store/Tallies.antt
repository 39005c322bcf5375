-- ===== src/Board/Store/Tallies.antt =====
-- The bids of the task store: their number in each row, and the index that admits one per bidder.
use agent_economy.Shared.{
  ℕ, ◌+◌, String, ◌≡◌, refl, ap, ◌∙◌, Option, none, some, List, [], ◌∷◌, false, Bool-cases,
  Option-cases, inl, inr, arith, text_eq, pair_eq, ◌==◌, eq_iff,
}
use agent_economy.Shared.Dict.{
  get, set, contains, count_of, get-set, get-set_self, count_of-set_new,
}
use agent_economy.Board.Types.{Status, Task, Bid, TaskStore, Update, no_tasks}
use agent_economy.Board.Store.{
  insert_task, update_task, insert_bid, apply_update, apply_updates, expects, put_task, add_bid,
}

-- The number of bids that a row claims; a task that is not there has none.
abbrev pub claimed : Option Task → ℕ
claimed none = 0
claimed (some t) = t.bid_count

abbrev pub bids_on : String → TaskStore → ℕ
bids_on id s = count_of (λ bid. bid.task_id == id) s.bids

-- Each row counts its bids, and each bid is the one that the index has for its task and bidder.
pub record IsTallied (s : TaskStore) : Type 0 where
  pub tallied : (id : String) → claimed (get id s.tasks) ≡ bids_on id s
  pub indexed :
      (k : String) (bid : Bid)
      → get k s.bids ≡ some bid
      → get (bid.task_id, bid.bidder_id) s.bid_index ≡ some k

apply_update-bid_count : (u : Update) (t : Task) → (apply_update u t).bid_count ≡ t.bid_count
apply_update-bid_count u t = ground arith

apply_updates-bid_count :
    (us : List Update) (t : Task) → (apply_updates us t).bid_count ≡ t.bid_count
apply_updates-bid_count [] t = refl
apply_updates-bid_count (u ∷ us) t =
    apply_updates-bid_count us (apply_update u t) ∙ apply_update-bid_count u t

-- A row that is written with the count that its task had.
put_task-IsTallied :
    (id : String) (t : Task) (s : TaskStore)
    → IsTallied s
    → t.bid_count ≡ claimed (get id s.tasks)
    → IsTallied (put_task id t s)
put_task-IsTallied id t s v same = record {
  tallied = λ k. elim (Bool-cases (id == k)) [
    | inl it ↦
        rw (get-set id k t s.tasks, it)
          (same ∙ ap (λ i. claimed (get i s.tasks)) ((eq_iff id k).0 it) ∙ v.tallied k)
    | inr other ↦ rw (get-set id k t s.tasks, other) (v.tallied k)
  ];
  indexed = v.indexed;
}

add_bid-IsTallied :
    (bid : Bid) (t : Task) (s : TaskStore)
    → IsTallied s
    → get bid.bid_id s.bids ≡ none
    → get bid.task_id s.tasks ≡ some t
    → contains (bid.task_id, bid.bidder_id) s.bid_index ≡ false
    → IsTallied (add_bid bid t s)
add_bid-IsTallied bid t s v fresh found new = record { tallied = tallied; indexed = indexed }
  where
    tallied : (k : String) → claimed (get k (add_bid bid t s).tasks) ≡ bids_on k (add_bid bid t s)
    tallied k = ground (
      arith,
      get-set bid.task_id k (record t { bid_count = t.bid_count + 1 }) s.tasks,
      count_of-set_new (λ b. b.task_id == k) bid.bid_id bid s.bids fresh,
      v.tallied k,
      eq_iff bid.task_id k,
    )

    indexed :
        (k : String) (b : Bid)
        → get k (set bid.bid_id bid s.bids) ≡ some b
        → get (b.task_id, b.bidder_id) (add_bid bid t s).bid_index ≡ some k
    indexed k b p = elim (Bool-cases (bid.bid_id == k)) [
      | inl it ↦ ground (
        arith,
        get-set bid.bid_id k bid s.bids,
        get-set_self (bid.task_id, bid.bidder_id) bid.bid_id s.bid_index,
        eq_iff bid.bid_id k,
      )
      | inr other ↦
          let old : get k s.bids ≡ some b = ground (arith, get-set bid.bid_id k bid s.bids) in
          ground (
            arith,
            v.indexed k b old,
            eq_iff bid.task_id b.task_id,
            eq_iff bid.bidder_id b.bidder_id,
            get-set (bid.task_id, bid.bidder_id) (b.task_id, b.bidder_id) bid.bid_id s.bid_index,
          )
    ]

insert_task-IsTallied :
    (row : Task) (s : TaskStore) → IsTallied s → row.bid_count ≡ 0 → IsTallied (insert_task row s).1
unfolding insert_task
insert_task-IsTallied row s v zero = elim (Option-cases (get row.task_id s.tasks)) [
  | inl absent ↦ rw absent (put_task-IsTallied row.task_id row s v (rw absent zero))
  | inr (t, there) ↦ rw there v
]

update_task-IsTallied :
    (id : String) (us : List Update) (expected : Option Status) (s : TaskStore)
    → IsTallied s
    → IsTallied (update_task id us expected s).1
unfolding update_task
update_task-IsTallied id [] expected s v = v
update_task-IsTallied id (u ∷ us) expected s v = elim (Option-cases (get id s.tasks)) [
  | inl absent ↦ rw absent v
  | inr (t, there) ↦ elim (Bool-cases (expects expected t)) [
    | inl fits ↦
        rw (there, fits)
          (put_task-IsTallied id (apply_updates (u ∷ us) t) s v
            (rw there (apply_updates-bid_count (u ∷ us) t)))
    | inr differs ↦ rw (there, differs) v
  ]
]

insert_bid-IsTallied :
    (bid : Bid) (s : TaskStore)
    → IsTallied s
    → get bid.bid_id s.bids ≡ none
    → IsTallied (insert_bid bid s).1
unfolding insert_bid
insert_bid-IsTallied bid s v fresh = elim (Option-cases (get bid.task_id s.tasks)) [
  | inl absent ↦ rw absent v
  | inr (t, there) ↦ elim (Bool-cases (contains (bid.task_id, bid.bidder_id) s.bid_index)) [
    | inl dup ↦ rw (there, dup) v
    | inr new ↦ rw (there, new) (add_bid-IsTallied bid t s v fresh there new)
  ]
]

-- The writes of the store that concern tasks and bids.
pub data Write : Type 0 where
  add_task : Task → Write
  change : String → List Update → Option Status → Write
  place_bid : Bid → Write

abbrev pub write : Write → TaskStore → TaskStore
write (add_task row) s = (insert_task row s).1
write (change id us expected) s = (update_task id us expected s).1
write (place_bid bid) s = (insert_bid bid s).1

abbrev pub write_all : List Write → TaskStore → TaskStore
write_all [] s = s
write_all (x ∷ xs) s = write_all xs (write x s)

-- New rows have no bids yet, and new bids draw unused identifiers.
abbrev pub IsProper : Write → TaskStore → Type 0
IsProper (add_task row) s = row.bid_count ≡ 0
IsProper (change id us expected) s = Unit
IsProper (place_bid bid) s = get bid.bid_id s.bids ≡ none

abbrev pub AllProper : List Write → TaskStore → Type 0
AllProper [] s = Unit
AllProper (x ∷ xs) s = IsProper x s × AllProper xs (write x s)

write-IsTallied : (x : Write) (s : TaskStore) → IsTallied s → IsProper x s → IsTallied (write x s)
write-IsTallied (add_task row) s v zero = insert_task-IsTallied row s v zero
write-IsTallied (change id us expected) s v proper = update_task-IsTallied id us expected s v
write-IsTallied (place_bid bid) s v fresh = insert_bid-IsTallied bid s v fresh

-- From a store whose rows count their bids and whose index knows every bid, after any writes whose
-- new rows have no bids yet and whose new bids draw unused identifiers, the same holds.
pub write_all-IsTallied :
    (xs : List Write) (s : TaskStore) → IsTallied s → AllProper xs s → IsTallied (write_all xs s)
write_all-IsTallied [] s v proper = v
write_all-IsTallied (x ∷ xs) s v (now, later) =
    write_all-IsTallied xs (write x s) (write-IsTallied x s v now) later

-- After any such writes, two bids of the same bidder on the same task are one bid.
pub one_bid_each :
    (xs : List Write) (s : TaskStore) (j k : String) (b c : Bid)
    → IsTallied s
    → AllProper xs s
    → get j (write_all xs s).bids ≡ some b
    → get k (write_all xs s).bids ≡ some c
    → b.task_id ≡ c.task_id
    → b.bidder_id ≡ c.bidder_id
    → j ≡ k
one_bid_each xs s j k b c v proper at_j at_k task bidder =
    let v' = write_all-IsTallied xs s v proper in
    ground (arith, v'.indexed j b at_j, v'.indexed k c at_k)

pub no_tasks-IsTallied : IsTallied no_tasks
unfolding get count_of
no_tasks-IsTallied = record { tallied = λ id. refl; indexed = λ k bid p. ground arith }
