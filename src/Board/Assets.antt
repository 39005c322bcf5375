-- ===== src/Board/Assets.antt =====
-- `AssetManager` (services/task-board/src/task_board_service/services/asset_manager.py).
pub mod Uploads
use Prim.Native.Char.{code}
use agent_economy.Shared.{
  ℕ, String, Option, none, some, List, [], ◌∷◌, Bool, true, false, not, ◌&&◌, nat_beq, leb, ltb,
  text_eq, ◌==◌, if◌then◌else◌,
}
use agent_economy.Shared.Dict.{get, count_of}
use agent_economy.Shared.Value.{Object}
use agent_economy.Shared.Action.{
  Action, Error, Result, ok, err, pure, gets, lift, raise_if, or_raise, ◌>>=◌, ◌>>◌, service_error,
  forbidden, task_not_found, file_too_large, too_many_assets, asset_not_found,
}
use agent_economy.Board.Types.{Asset, Task, accepted}
use agent_economy.Board.Store.{get_task, insert_asset, get_asset, get_assets_for_task, count_assets}
use agent_economy.Board.Client.{BankClient, World, on_store}
use agent_economy.Board.Tokens.{Crypto}
use agent_economy.Board.Deadlines.{Reads}
use agent_economy.Board.Manager.Requests.{upload_request}
use agent_economy.Board.Manager.Lifecycle.{load_task, must_be, is_worker}

pub record Limits : Type 0 where
  pub max_file_size : ℕ
  pub max_files_per_task : ℕ

-- A file with what its upload draws: the identifier, the time, the SHA-256 of its bytes, and whether
-- the disk takes them. Of its bytes the request itself looks at the number.
pub record Upload : Type 0 where
  pub asset_id : String
  pub uploaded_at : ℕ
  pub filename : String
  pub content_type : String
  pub size_bytes : ℕ
  pub content_hash : String
  pub saved : Result (Unit {0})

abbrev pub asset_row : Upload → String → String → Asset
asset_row file task_id signer = record {
  asset_id = file.asset_id;
  task_id = task_id;
  uploader_id = signer;
  filename = file.filename;
  content_type = file.content_type;
  size_bytes = file.size_bytes;
  content_hash = file.content_hash;
  uploaded_at = file.uploaded_at;
}

module _ {B : Type 0} ⦃client : BankClient B⦄ where
  unfoldable pub upload_asset :
      ⦃crypto : Crypto⦄ → Limits → Reads → String → String → Upload → Action (World B) Asset
  upload_asset limits reads task_id token file = do
    signer ← lift (upload_request task_id token)
    task ← load_task reads task_id
    must_be accepted task
    raise_if (not (is_worker signer task.worker_id)) (service_error forbidden 403)
    raise_if (ltb limits.max_file_size file.size_bytes) (service_error file_too_large 413)
    assets ← on_store (count_assets task_id)
    raise_if (leb limits.max_files_per_task assets) (service_error too_many_assets 409)
    lift file.saved
    on_store (insert_asset (asset_row file task_id signer))
    pure (asset_row file task_id signer)

  -- The row of a task that is there.
  unfoldable pub find_task : String → Action (World B) Task
  find_task task_id = do
    row ← on_store (get_task task_id)
    or_raise row (service_error task_not_found 404)

  unfoldable pub list_assets : String → Action (World B) (List Asset)
  list_assets task_id = do find_task task_id; on_store (get_assets_for_task task_id)

-- The disk: the resolved root of the storage, the resolved path of an asset's file, and what a path
-- holds.
pub record Disk : Type 0 where
  pub storage_root : String
  pub path_of : String → String → String → String
  pub contents : String → Option (List ℕ)

unfoldable pub starts_with : String → String → Bool
starts_with String.[] text = true
starts_with (String.◌∷◌ c prefix) String.[] = false
starts_with (String.◌∷◌ c prefix) (String.◌∷◌ d text) =
    nat_beq (code c) (code d) && starts_with prefix text

abbrev missing : Error
missing = service_error asset_not_found 404

module _ {B : Type 0} ⦃client : BankClient B⦄ where
  -- The file with its row, which has the content type and the name of the answer.
  unfoldable pub download_asset : Disk → String → String → Action (World B) (List ℕ × Asset)
  download_asset disk task_id asset_id = do
    find_task task_id
    row ← on_store (get_asset asset_id task_id)
    asset ← or_raise row missing
    let path = disk.path_of task_id asset_id asset.filename
    raise_if (not (starts_with disk.storage_root path)) missing
    content ← or_raise (disk.contents path) missing
    pure (content, asset)
