-- ===== src/Board/Manager/Effects/Rulings.antt =====
-- The effect of `record_ruling`, which does not evaluate deadlines.
use agent_economy.Shared.{
  String, List, [], ◌∷◌, ◌≡◌, refl, ap, ◌∙◌, eq_iff, ◌≢◌, some, false, arith, text_eq, pair_eq, inl,
  inr, Bool-cases, Option-cases,
}
use agent_economy.Shared.Int.{ℤ, pos, eqb_ℤ, eqb_ℤ_eq, ◌≤ℤ◌}
use agent_economy.Shared.Dict.{get}
use agent_economy.Shared.Value.{Value, Object, as_int}
use agent_economy.Shared.Action.{Error, ◌>>◌, Action, ok, result_cases}
use agent_economy.Board.Types.{disputed, ruled, Task}
use agent_economy.Board.Store.{get_task, put_task}
use agent_economy.Board.Client.{BankClient, World, release_escrow, split_escrow}
use agent_economy.Board.Tokens.{Crypto, validate_jws_token}
use agent_economy.Board.Deadlines.{Reads}
use agent_economy.Board.Manager.Requests.{ruling_request, valid_worker_pct}
use agent_economy.Board.Manager.Lifecycle.{distribute, record_ruling}
use agent_economy.Board.Manager.Effects.Requests.{run_write_and_reply}
use agent_economy.Board.Manager.Effects.{
  Finishes, Unanswered, Runs, run_raise_if, run_or_raise, run_bank, run_find, same_status_eq,
}

-- How a ruling of `pct` percent has been paid.
pub data Paid {B : Type 0} ⦃client : BankClient B⦄ (t : Task) (pct : ℤ) (b c : B) : Type 0 where
  to_poster :
      pct ≡ pos 0 → client.release t.escrow_id (some t.poster_id) b ≡ (ok tt, c) → Paid t pct b c
  to_worker : pct ≡ pos 100 → client.release t.escrow_id t.worker_id b ≡ (ok tt, c) → Paid t pct b c
  to_both :
      ◌≢◌ {A = ℤ} pct (pos 0)
      → ◌≢◌ {A = ℤ} pct (pos 100)
      → client.divide t.escrow_id t.worker_id t.poster_id pct b ≡ (ok tt, c)
      → Paid t pct b c

valid_worker_pct_lem :
    (v : Value) (pct : ℤ) → valid_worker_pct v ≡ some pct → (pos 0 ≤ℤ pct) × (pct ≤ℤ pos 100)
valid_worker_pct_lem v pct h = elim (Option-cases (as_int v)) [
  | inl e ↦ ground arith
  | inr (z, e) ↦ ground arith
]

eqb_ℤ-ne : (x y : ℤ) → eqb_ℤ x y ≡ false → ◌≢◌ {A = ℤ} x y
eqb_ℤ-ne x y h p = ground arith

-- The token is one that the Identity service accepts, for one of the actions, signed by `who`.
abbrev pub IsSignedBy : ⦃crypto : Crypto⦄ → String → List String → String → Type 0
IsSignedBy who actions token =
    (payload : Object) × (validate_jws_token token actions ≡ ok (payload, who))

module _ ⦃crypto : Crypto⦄ where
  ruling_request-IsSignedBy :
      (platform_agent_id fresh_id id token : String) (r : String × String × Value)
      → ruling_request platform_agent_id fresh_id id token ≡ ok r
      → IsSignedBy platform_agent_id ("record_ruling" ∷ "submit_ruling" ∷ []) token
  unfolding ruling_request
  ruling_request-IsSignedBy platform_agent_id fresh_id id token r h =
      elim (result_cases (validate_jws_token token ("record_ruling" ∷ "submit_ruling" ∷ []))) [
        | inr (x, e) ↦ ground arith
        | inl ((payload, signer), e) ↦
            (payload, e ∙ ap (λ (x : String). ok (payload, x)) (by_platform payload signer e))
      ]
    where
      by_platform :
          (payload : Object) (signer : String)
          → validate_jws_token token ("record_ruling" ∷ "submit_ruling" ∷ []) ≡ ok (payload, signer)
          → signer ≡ platform_agent_id
      by_platform payload signer e = ground (arith, eq_iff signer platform_agent_id)

module _ {B : Type 0} ⦃client : BankClient B⦄ ⦃crypto : Crypto⦄ where
  run_distribute :
      {A : Type 0} {w : World B} {Late : Error → World B → Type 0} {Done : World B → Type 0}
      (t : Task) (pct : ℤ) (k : Action (World B) A)
      → ((b : B) → Paid t pct w.bank b → Runs w.store (record w { bank = b }) k Late Done)
      → Runs w.store w (distribute t pct >> k) Late Done
  unfolding distribute release_escrow split_escrow
  run_distribute {w} t pct k h = elim (Bool-cases (eqb_ℤ pct (pos 0))) [
    | inl zero ↦ rw zero (
        run_bank (client.release t.escrow_id (some t.poster_id)) _ k
          (λ b r. h b (to_poster (eqb_ℤ_eq _ _ zero) r)))
    | inr some_pct ↦ elim (Bool-cases (eqb_ℤ pct (pos 100))) [
      | inl all ↦
          rw (some_pct, all)
            (run_bank (client.release t.escrow_id t.worker_id) _ k
              (λ b r. h b (to_worker (eqb_ℤ_eq _ _ all) r)))
      | inr part ↦
          rw (some_pct, part)
            (run_bank (client.divide t.escrow_id t.worker_id t.poster_id pct) _ k
              (λ b r. h b (to_both (eqb_ℤ-ne _ _ some_pct) (eqb_ℤ-ne _ _ part) r)))
    ]
  ]

  -- What a request that records a ruling has done where it succeeds.
  abbrev pub Rules : String → Reads → String → String → World B → World B → Type 0
  Rules platform_agent_id reads id token w v =
      (t : Task) × (get id w.store.tasks ≡ some t)
      × (t.status ≡ disputed)
      × (ruling_id : String) × (summary : String) × (v_pct : Value) × (pct : ℤ) × (ruling_request
            platform_agent_id reads.uuid id token
          ≡ ok (ruling_id, summary, v_pct))
      × IsSignedBy platform_agent_id ("record_ruling" ∷ "submit_ruling" ∷ []) token
      × (valid_worker_pct v_pct ≡ some pct)
      × (pos 0 ≤ℤ pct)
      × (pct ≤ℤ pos 100)
      × Paid t pct w.bank v.bank
      × (v.store
          ≡ put_task id
              (record t {
                status = ruled;
                ruled_at = some reads.stamp;
                ruling_id = some ruling_id;
                worker_pct = some pct;
                ruling_summary = some summary;
              })
              w.store)

  -- `record_ruling` succeeds only on a disputed task, for a ruling that the platform's agent has
  -- signed and whose percentage lies between 0 and 100, once the bank has paid the escrow that
  -- way: to the poster at 0, to the worker at 100, and split between. It writes the ruling and
  -- changes no other row. An error leaves the store as it was, or comes after all of this, where a
  -- deadline of the row is outside the calendar and no reply can be computed.
  pub record_ruling_effect :
      (platform_agent_id : String) (reads : Reads) (id token : String) (w : World B)
      → Finishes w.store
          (Unanswered id)
          (Rules platform_agent_id reads id token w)
          (record_ruling platform_agent_id reads id token w)
  unfolding record_ruling get_task
  record_ruling_effect platform_agent_id reads id token w =
      elim (result_cases (ruling_request platform_agent_id reads.uuid id token)) [
        | inr (x, e) ↦ rw e (inl refl)
        | inl ((ruling_id, summary, v_pct), e) ↦
            rw e
              (run_find (λ s. get id s.tasks) _ _
                (λ t found. run_raise_if _ _ _ (λ is_it. run_or_raise _ _ _ (λ pct valid.
                  run_distribute t pct _ (λ b paid.
                    let bounds = valid_worker_pct_lem v_pct pct valid in
                    run_write_and_reply id _ _ t found (
                      t,
                      found,
                      same_status_eq _ _ is_it,
                      ruling_id,
                      summary,
                      v_pct,
                      pct,
                      e,
                      ruling_request-IsSignedBy platform_agent_id reads.uuid id token _ e,
                      valid,
                      bounds.0,
                      bounds.1,
                      paid,
                      refl,
                    )))))).finishes
      ]
