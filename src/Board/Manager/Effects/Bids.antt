-- ===== src/Board/Manager/Effects/Bids.antt =====
-- The effect of `submit_bid` and `accept_bid`.
use agent_economy.Shared.{
  String, ◌≡◌, refl, ap, ◌∙◌, ◌≢◌, ℕ, Option, some, false, arith, text_eq, pair_eq, ◌==◌, inl, inr,
  eq_iff,
}
use agent_economy.Shared.Int.{ℤ}
use agent_economy.Shared.Dict.{contains, get}
use agent_economy.Shared.Action.{pure, ok, result_cases}
use agent_economy.Board.Types.{opened, accepted, Task, Bid}
use agent_economy.Board.Store.{put_task, add_bid, get_bid, of_task}
use agent_economy.Board.Client.{BankClient, World}
use agent_economy.Board.Tokens.{Crypto}
use agent_economy.Board.Deadlines.{Reads, has_passed, compute_deadline}
use agent_economy.Board.Manager.Requests.{bid_request, accept_request}
use agent_economy.Board.Manager.Lifecycle.{bid_row, submit_bid, accept_bid}
use agent_economy.Board.Manager.Effects.Requests.{run_write_and_reply}
use agent_economy.Board.Manager.Effects.{
  IsKeyed, Effect, Replied, run_raise_if, run_signer, run_find, run_insert_bid, load_then,
  load_and_reply, run_lift,
}

differ : (x y : String) → (x == y) ≡ false → ◌≢◌ {A = String} x y
differ x y h p = ground (arith, eq_iff x y)

module _ {B : Type 0} ⦃client : BankClient B⦄ ⦃crypto : Crypto⦄ where
  -- What a request that accepts a bid has done where it succeeds.
  abbrev pub Accepts : Reads → String → String → String → World B → Task → World B → Type 0
  Accepts reads id bid_id token w t v =
      (t.status ≡ opened)
      × (accept_request id bid_id token ≡ ok t.poster_id)
      × (bid : Bid) × (of_task id (get bid_id w.store.bids) ≡ some bid)
      × (v.bank ≡ w.bank)
      × (v.store
          ≡ put_task id
              (record t {
                status = accepted;
                worker_id = some bid.bidder_id;
                accepted_bid_id = some bid_id;
                accepted_at = some reads.stamp;
              })
              w.store)

  -- Where every row stands under its identifier, `accept_bid` succeeds only for the poster of an
  -- open task with that bid; it writes the bidder as the worker, and the bank is as it was. An
  -- error leaves the store as it was, but for the task's own move where a deadline had passed, or comes after all of this, where a
  -- deadline of the row is outside the calendar and no reply can be computed.
  pub accept_bid-Effect :
      (reads : Reads) (id bid_id token : String) (w : World B)
      → IsKeyed w.store
      → Replied id w (Accepts reads id bid_id token w) (accept_bid reads id bid_id token w)
  unfolding accept_bid get_bid
  accept_bid-Effect reads id bid_id token w keys =
      elim (result_cases (accept_request id bid_id token)) [
        | inr (x, e) ↦ rw e (inl (inl refl))
        | inl (signer, e) ↦ rw e (
            load_and_reply reads id opened w _ _ keys refl (λ t found s.
              run_signer _ _ _ _ (λ poster.
                run_find (λ st. of_task id (get bid_id st.bids)) _ _
                  (λ bid is_bid.
                    run_write_and_reply id _ _ t found
                      (s, e ∙ ap ok poster, bid, is_bid, refl, refl)))))
      ]

  -- What a request that submits a bid has done where it succeeds.
  abbrev pub Bids : Reads → String → String → World B → Task → World B → Type 0
  Bids reads id token w t v =
      (t.status ≡ opened)
      × (bidder : String) × (amount : ℤ) × (bid_request id token ≡ ok (bidder, amount))
      × (deadline : Option ℕ) × (compute_deadline t.created_at t.bidding_deadline_seconds
          ≡ ok deadline)
      × (has_passed reads.bid_checked_at deadline ≡ false)
      × ◌≢◌ {A = String} bidder t.poster_id
      × (contains (id, bidder) w.store.bid_index ≡ false)
      × (v.bank ≡ w.bank)
      × (v.store ≡ add_bid (bid_row reads id bidder amount) t w.store)

  -- Where every row stands under its identifier, `submit_bid` succeeds only on an open task
  -- before its bidding deadline, for a bidder who is not the poster and has no bid on it; it
  -- adds the bid, and the bank is as it was. An error leaves the store as it was, but for the
  -- task's own move where a deadline had passed.
  pub submit_bid-Effect :
      (reads : Reads) (id token : String) (w : World B)
      → IsKeyed w.store
      → Effect id w (Bids reads id token w) (submit_bid reads id token w)
  unfolding submit_bid
  submit_bid-Effect reads id token w keys = elim (result_cases (bid_request id token)) [
    | inr (x, e) ↦ rw e (inl refl)
    | inl ((bidder, amount), e) ↦ rw e (
        load_then reads id opened w _ _ keys refl (λ t found s. run_lift _ _ (λ deadline is_it.
          run_raise_if _ _ _ (λ early. run_raise_if _ _ _ (λ other.
            run_insert_bid (bid_row reads id bidder amount) t _
              (pure (bid_row reads id bidder amount)) found
              (λ new. record {
                finishes = (
                  s,
                  bidder,
                  amount,
                  e,
                  deadline,
                  is_it,
                  early,
                  differ _ _ other,
                  new,
                  refl,
                  refl,
                );
              }))))))
  ]
