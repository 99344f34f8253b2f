-- ===== src/Protocol/Lock/Observes.antt =====
-- protocol/lock.py and protocol/manifest_access.py: observing the lock, and reading the manifest,
-- leaves every view of the storage as it was that reads and listings leave so.
use civ4_turn_relay.Prelude.{◌≡◌, Text, Bytes, List}
use civ4_turn_relay.Domain.Libraries.{Libraries}
use civ4_turn_relay.Storage.Port.{Storage, StorageEntry, Reply, ok, err, wrong_kind}
use civ4_turn_relay.Protocol.Action.Keeps.{
  Keeps, of_storage, Keeps-pure, Keeps-bind, Keeps-call, Keeps-ensure, Keeps-lift,
}
use civ4_turn_relay.Protocol.ManifestAccess.{read_authoritative_manifest}
use civ4_turn_relay.Protocol.Lock.Document.{Owner}
use civ4_turn_relay.Protocol.Lock.Inspect.{
  LockInspection, observed, after_read, after_list, inspect_upload_lock,
}
use civ4_turn_relay.Protocol.Lock.Release.{check_lock_ownership}

module _ {S X : Type 0} (storage : Storage S) (lib : Libraries) (see : S → X)
    (on_read : (p : Text) (s : S) → see (storage.read_file p s).1 ≡ see s)
    (on_list : (p : Text) (s : S) → see (storage.list_dir p s).1 ≡ see s) (game_id : Text) where
  observed-Keeps : (i : LockInspection) → Keeps (of_storage see) (observed storage lib game_id i)
  unfolding observed
  observed-Keeps i = Keeps-bind _ _ (Keeps-ensure _) (λ _. Keeps-pure i)

  after_read-Keeps : (r : Reply Bytes) → Keeps (of_storage see) (after_read storage lib game_id r)
  unfolding after_read
  after_read-Keeps (ok raw) = Keeps-bind _ _ (Keeps-ensure _) (λ _. observed-Keeps _)
  after_read-Keeps (err wrong_kind) = Keeps-call see _ _ (on_list _) (λ r. observed-Keeps _)
  after_read-Keeps (err _) = observed-Keeps _

  after_list-Keeps :
      (r : Reply (List StorageEntry)) → Keeps (of_storage see) (after_list storage lib game_id r)
  unfolding after_list
  after_list-Keeps (ok _) = Keeps-call see _ _ (on_read _) after_read-Keeps
  after_list-Keeps (err wrong_kind) = Keeps-call see _ _ (on_read _) (λ r. observed-Keeps _)
  after_list-Keeps (err _) = observed-Keeps _

  pub inspect-Keeps : Keeps (of_storage see) (inspect_upload_lock storage lib game_id)
  unfolding inspect_upload_lock
  inspect-Keeps =
      Keeps-bind _ _ (Keeps-ensure _) (λ _. Keeps-call see _ _ (on_list _) after_list-Keeps)

  pub check-Keeps :
      (o : Owner) → Keeps (of_storage see) (check_lock_ownership storage lib game_id o)
  unfolding check_lock_ownership
  check-Keeps o = Keeps-bind _ _ inspect-Keeps (λ i. Keeps-lift _)

  pub read_manifest-Keeps : Keeps (of_storage see) (read_authoritative_manifest storage lib game_id)
  unfolding read_authoritative_manifest
  read_manifest-Keeps = Keeps-bind _ _ (Keeps-ensure _) (λ _.
      Keeps-call see _ _ (on_read _) (λ r. Keeps-bind _ _ (Keeps-ensure _) (λ _. Keeps-pure _)))
