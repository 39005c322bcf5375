-- ===== src/Board/Assets/Uploads.antt =====
-- Who uploads an asset, and how many a task can have.
use agent_economy.Shared.{
  ℕ, ◌≤◌, ◌≡◌, refl, String, none, some, false, leb, ltb, arith, text_eq, ◌==◌, inl, inr,
}
use agent_economy.Shared.Dict.{get, set, count_of, count_of-set_new}
use agent_economy.Shared.Action.{Error, lift, pure, ◌>>◌, ok, err, Result, result_cases}
use agent_economy.Board.Types.{accepted, Asset, Task, TaskStore}
use agent_economy.Board.Store.{count_assets, insert_asset}
use agent_economy.Board.Client.{BankClient, World, on_store}
use agent_economy.Board.Tokens.{Crypto}
use agent_economy.Board.Deadlines.{Reads}
use agent_economy.Board.Manager.Requests.{upload_request}
use agent_economy.Board.Manager.Effects.{
  IsKeyed, Effect, Runs, run_raise_if, run_read_guard, load_then,
}
use agent_economy.Board.Manager.Effects.Requests.{worker_is}
use agent_economy.Board.Assets.{Limits, Upload, asset_row, upload_asset}

abbrev pub assets_of : String → TaskStore → ℕ
assets_of task_id s = count_of (λ asset. asset.task_id == task_id) s.assets

within : (n limit : ℕ) → ltb limit n ≡ false → n ≤ limit
within n limit h = ground arith

one_more :
    (limits : Limits) (file : Upload) (id signer : String) (s : TaskStore)
    → get file.asset_id s.assets ≡ none
    → leb limits.max_files_per_task (assets_of id s) ≡ false
    → count_of
        (λ asset. asset.task_id == id)
        (set file.asset_id (asset_row file id signer) s.assets)
      ≤ limits.max_files_per_task
one_more limits file id signer s fresh room = ground (
  arith,
  count_of-set_new (λ (asset : Asset). asset.task_id == id) file.asset_id (asset_row file id signer)
      s.assets fresh,
)

module _ {B : Type 0} ⦃client : BankClient B⦄ where
  -- The last steps: the disk takes the file, and its row is stored.
  run_save :
      {w : World B} {Late : Error → World B → Type 0} {Done : World B → Type 0}
      (r : Result (Unit {0})) (asset : Asset)
      → Done
          (record w { store = record w.store { assets = set asset.asset_id asset w.store.assets } })
      → Runs w.store w (lift r >> (on_store (insert_asset asset) >> pure asset)) Late Done
  unfolding insert_asset
  run_save (err e) asset h = record { finishes = inl refl }
  run_save (ok _) asset h = record { finishes = h }

module _ {B : Type 0} ⦃client : BankClient B⦄ ⦃crypto : Crypto⦄ where
  -- What an upload has done where it succeeds.
  abbrev pub Uploads : Limits → String → String → Upload → World B → Task → World B → Type 0
  Uploads limits id token file w t v =
      (t.status ≡ accepted)
      × (worker : String) × (t.worker_id ≡ some worker)
      × (upload_request id token ≡ ok worker)
      × (file.size_bytes ≤ limits.max_file_size)
      × (v.bank ≡ w.bank)
      × (v.store
          ≡ record w.store { assets = set file.asset_id (asset_row file id worker) w.store.assets })
      × (assets_of id v.store ≤ limits.max_files_per_task)

  -- Where every row stands under its identifier and the upload's identifier is unused, `upload_asset`
  -- succeeds only for the worker of an accepted task and a file of at most the allowed size; it adds the
  -- asset's row and changes nothing else, and the task has no more assets than it is allowed. An error
  -- leaves the store as it was, but for the task's own move where a deadline had passed.
  pub upload_asset-Effect :
      (limits : Limits) (reads : Reads) (id token : String) (file : Upload) (w : World B)
      → IsKeyed w.store
      → get file.asset_id w.store.assets ≡ none
      → Effect id w (Uploads limits id token file w) (upload_asset limits reads id token file w)
  unfolding upload_asset count_assets insert_asset
  upload_asset-Effect limits reads id token file w keys fresh =
      elim (result_cases (upload_request id token)) [
        | inr (x, e) ↦ rw e (inl refl)
        | inl (signer, e) ↦ rw e (
            load_then reads id accepted w _ _ keys refl (λ t found s. run_raise_if _ _ _ (λ is_his.
              run_raise_if _ _ _ (λ fits.
                run_read_guard (assets_of id) (λ n. leb limits.max_files_per_task n) _ _
                  (λ room. run_save file.saved (asset_row file id signer) (
                    s,
                    signer,
                    worker_is signer t.worker_id is_his,
                    e,
                    within file.size_bytes limits.max_file_size fits,
                    refl,
                    refl,
                    one_more limits file id signer w.store fresh room,
                  ))))))
      ]
