-- ===== src/Protocol/Lock/RepairKeeps.antt =====
-- protocol/lock.py: what a repair of the lock leaves alone.
use civ4_turn_relay.Prelude.{◌≡◌, ◌≢◌, Bool, not, Option, none, some, List, [], ◌∷◌, Text}
use civ4_turn_relay.Domain.Libraries.{Libraries}
use civ4_turn_relay.Storage.Port.{
  Storage, StorageEntry, StorageError, Reply, ok, err, not_found, not_empty, wrong_kind,
}
use civ4_turn_relay.Storage.Laws.{StorageLaws}
use civ4_turn_relay.Protocol.Paths.{upload_lock_dir, upload_lock_json}
use civ4_turn_relay.Protocol.Action.{World}
use civ4_turn_relay.Protocol.Action.Keeps.{
  Keeps, of_storage, Keeps-pure, Keeps-bind, Keeps-call, Keeps-if,
}
use civ4_turn_relay.Protocol.Lock.Inspect
use civ4_turn_relay.Protocol.Lock.Inspect.{
  LockInspection, LockInspectionKind, missing_lock_json, wrong_kind_lock, LockWrongKindTarget,
  upload_lock, lock_json,
}
use civ4_turn_relay.Protocol.Lock.Observes.{inspect-Keeps}
use civ4_turn_relay.Protocol.Lock.Repair.{
  LockRepairPreview, LockRepairOutcome, refuse, changed_since, wrong_kind_failed, after_lock_dir,
  after_json_dir, repair_lock_json, repair_wrong_kind_structure, after_dir, remove_dir_of,
  after_json, repair_matched, repair_current, repair_absent, repair_confirmed,
  repair_abandoned_upload_lock,
}

module _ {S X : Type 0} (storage : Storage S) (lib : Libraries) (see : S → X)
    (on_read : (p : Text) (s : S) → see (storage.read_file p s).1 ≡ see s)
    (on_list : (p : Text) (s : S) → see (storage.list_dir p s).1 ≡ see s)
    (on_remove_dir : (p : Text) (s : S) → see (storage.remove_dir p s).1 ≡ see s)
    (preview : LockRepairPreview) (confirmed : Bool)
    (on_json : (s : S) → see (storage.remove_file (upload_lock_json preview.game_id) s).1 ≡ see s)
    (on_dir : (s : S)
      → see (storage.remove_file (upload_lock_dir preview.game_id) s).1 ≡ see s) where
  refuse-Keeps :
      (o : LockRepairOutcome) (reason : Text) (i : LockInspection)
      → Keeps (of_storage see) (refuse storage lib preview confirmed o reason i)
  unfolding refuse
  refuse-Keeps o reason i = Keeps-pure _

  changed_since-Keeps :
      (reason : Text) → Keeps (of_storage see) (changed_since storage lib preview confirmed reason)
  unfolding changed_since
  changed_since-Keeps reason =
      Keeps-bind _ _ (inspect-Keeps storage lib see on_read on_list preview.game_id)
        (refuse-Keeps _ reason)

  wrong_kind_failed-Keeps :
      (i : LockInspection) (e : StorageError)
      → Keeps (of_storage see) (wrong_kind_failed storage lib preview confirmed i e)
  unfolding wrong_kind_failed
  wrong_kind_failed-Keeps i not_empty = refuse-Keeps _ _ i
  wrong_kind_failed-Keeps i wrong_kind = changed_since-Keeps _
  wrong_kind_failed-Keeps i _ = refuse-Keeps _ _ i

  after_lock_dir-Keeps :
      (i : LockInspection) (reason : Text) (r : Reply (Unit {0}))
      → Keeps (of_storage see) (after_lock_dir storage lib preview confirmed i reason r)
  unfolding after_lock_dir
  after_lock_dir-Keeps i reason (ok u) = Keeps-pure _
  after_lock_dir-Keeps i reason (err e) = wrong_kind_failed-Keeps i e

  after_json_dir-Keeps :
      (i : LockInspection) (r : Reply (Unit {0}))
      → Keeps (of_storage see) (after_json_dir storage lib preview confirmed i r)
  unfolding after_json_dir
  after_json_dir-Keeps i (ok u) = Keeps-call see _ _ (on_remove_dir _) (after_lock_dir-Keeps i _)
  after_json_dir-Keeps i (err e) = wrong_kind_failed-Keeps i e

  repair_lock_json-Keeps :
      (i : LockInspection) (l : Option (List StorageEntry))
      → Keeps (of_storage see) (repair_lock_json storage lib preview confirmed i l)
  unfolding repair_lock_json
  repair_lock_json-Keeps i none = refuse-Keeps _ _ i
  repair_lock_json-Keeps i (some (_ ∷ _)) = refuse-Keeps _ _ i
  repair_lock_json-Keeps i (some []) = Keeps-call see _ _ (on_remove_dir _) (after_json_dir-Keeps i)

  structure-Keeps :
      (i : LockInspection) (t : Option LockWrongKindTarget)
      → Keeps (of_storage see) (repair_wrong_kind_structure storage lib preview confirmed i t)
  unfolding repair_wrong_kind_structure
  structure-Keeps i (some upload_lock) = Keeps-call see _ _ on_dir (after_lock_dir-Keeps i _)
  structure-Keeps i (some lock_json) = repair_lock_json-Keeps i i.wrong_kind_dir_listing
  structure-Keeps i none = refuse-Keeps _ _ i

  after_dir-Keeps :
      (i : LockInspection) (r : Reply (Unit {0}))
      → Keeps (of_storage see) (after_dir storage lib preview confirmed i r)
  unfolding after_dir
  after_dir-Keeps i (ok u) = Keeps-pure _
  after_dir-Keeps i (err e) = refuse-Keeps _ _ i

  remove_dir_of-Keeps :
      (i : LockInspection) → Keeps (of_storage see) (remove_dir_of storage lib preview confirmed i)
  unfolding remove_dir_of
  remove_dir_of-Keeps i = Keeps-call see _ _ (on_remove_dir _) (after_dir-Keeps i)

  after_json-Keeps :
      (i : LockInspection) (r : Reply (Unit {0}))
      → Keeps (of_storage see) (after_json storage lib preview confirmed i r)
  unfolding after_json
  after_json-Keeps i (ok u) = remove_dir_of-Keeps i
  after_json-Keeps i (err not_found) = changed_since-Keeps _
  after_json-Keeps i (err _) = refuse-Keeps _ _ i

  matched-Keeps :
      (i : LockInspection) (k : LockInspectionKind)
      → Keeps (of_storage see) (repair_matched storage lib preview confirmed i k)
  unfolding repair_matched
  matched-Keeps i wrong_kind_lock = structure-Keeps i i.wrong_kind_target
  matched-Keeps i missing_lock_json = remove_dir_of-Keeps i
  matched-Keeps i _ = Keeps-call see _ _ on_json (after_json-Keeps i)

  current-Keeps :
      (i : LockInspection) (k : LockInspectionKind)
      → Keeps (of_storage see) (repair_current storage lib preview confirmed i k)
  unfolding repair_current
  current-Keeps i Inspect.transport_failure = refuse-Keeps _ _ i
  current-Keeps i k = Keeps-if _ _ _ (matched-Keeps i k) (refuse-Keeps _ _ i)

  absent-Keeps :
      (i : LockInspection) (k : LockInspectionKind)
      → Keeps (of_storage see) (repair_absent storage lib preview confirmed i k)
  unfolding repair_absent
  absent-Keeps i Inspect.absent = refuse-Keeps _ _ i
  absent-Keeps i _ = refuse-Keeps _ _ i

  confirmed-Keeps :
      (k : LockInspectionKind)
      → Keeps (of_storage see) (repair_confirmed storage lib preview confirmed k)
  unfolding repair_confirmed
  confirmed-Keeps Inspect.transport_failure = refuse-Keeps _ _ _
  confirmed-Keeps Inspect.absent =
      Keeps-bind _ _ (inspect-Keeps storage lib see on_read on_list preview.game_id)
        (λ i. absent-Keeps i i.kind)
  confirmed-Keeps _ =
      Keeps-bind _ _ (inspect-Keeps storage lib see on_read on_list preview.game_id)
        (λ i. current-Keeps i i.kind)

  pub repair-Keeps :
      Keeps (of_storage see) (repair_abandoned_upload_lock storage lib preview confirmed)
  unfolding repair_abandoned_upload_lock
  repair-Keeps = Keeps-if (not confirmed) _ _ (refuse-Keeps _ _ _) (confirmed-Keeps _)

-- Over any adapter with the storage laws, a repair of an abandoned lock leaves every file as it was,
-- save lock.json of the game and a file that stands where the lock's directory should be.
pub repair-file :
    {S : Type 0} (storage : Storage S) (laws : StorageLaws storage) (lib : Libraries)
    (preview : LockRepairPreview) (confirmed : Bool) (p : Text) (w : World S)
    → upload_lock_json preview.game_id ≢ p
    → upload_lock_dir preview.game_id ≢ p
    → laws.file (repair_abandoned_upload_lock storage lib preview confirmed w).1.storage p
      ≡ laws.file w.storage p
repair-file storage laws lib preview confirmed p w json dir =
    (repair-Keeps storage lib (λ s. laws.file s p) (λ r s. laws.file-read r p s)
        (λ r s. laws.file-list r p s) (λ r s. laws.file-remove_dir r p s) preview confirmed
        (λ s. laws.file-remove_file_ne (upload_lock_json preview.game_id) p s json)
        (λ s. laws.file-remove_file_ne (upload_lock_dir preview.game_id) p s dir)).same
      w
