-- ===== src/Protocol/Lock/Keeps.antt =====
-- protocol/lock.py: acquiring and releasing the lock leave alone what reads, listings and the lock's
-- own operations leave alone.
use civ4_turn_relay.Prelude.{◌≡◌, false, Option, none, some, Text, Bytes}
use civ4_turn_relay.Domain.Libraries.{Libraries}
use civ4_turn_relay.Storage.Port.{
  Storage, Reply, ok, err, not_found, already_exists, wrong_kind, capability,
}
use civ4_turn_relay.Protocol.Paths.{upload_lock_dir, upload_lock_json}
use civ4_turn_relay.Protocol.Action.Keeps.{
  Keeps, of_storage, Keeps-pure, Keeps-bind, Keeps-call, Keeps-ensure, Keeps-lift, Keeps-if,
  Keeps-read_storage, Keeps-read_journal, Keeps-write_journal,
}
use civ4_turn_relay.Protocol.Lock.Document.{LockDocument, Owner}
use civ4_turn_relay.Protocol.Lock.Inspect
use civ4_turn_relay.Protocol.Lock.Inspect.{LockInspectionKind}
use civ4_turn_relay.Protocol.Lock.Observes.{check-Keeps, inspect-Keeps}
use civ4_turn_relay.Protocol.Lock.Release.{
  LockOwnershipStatus, owned, foreign, absent, unreadable, transport_failure, after_remove_dir,
  remove_lock_dir, after_remove_json, release_checked, release_owned_upload_lock,
}
use civ4_turn_relay.Protocol.Lock.Acquire.{
  LockRequest, resume_readable, resume_kind, resume_inspected, resume_existing_lock, after_write,
  after_mkdir, make_lock, acquire_or_resume_upload_lock,
}

module _ {S X : Type 0} (storage : Storage S) (lib : Libraries) (see : S → X)
    (on_read : (p : Text) (s : S) → see (storage.read_file p s).1 ≡ see s)
    (on_list : (p : Text) (s : S) → see (storage.list_dir p s).1 ≡ see s) (game_id : Text) where
  module _ (on_remove : (s : S) → see (storage.remove_file (upload_lock_json game_id) s).1 ≡ see s)
      (on_remove_dir : (s : S) → see (storage.remove_dir (upload_lock_dir game_id) s).1 ≡ see s)
      (o : Owner) where
    after_remove_dir-Keeps :
        (r : Reply (Unit {0})) → Keeps (of_storage see) (after_remove_dir storage lib game_id o r)
    unfolding after_remove_dir
    after_remove_dir-Keeps (ok u) = Keeps-pure _
    after_remove_dir-Keeps (err not_found) = Keeps-pure _
    after_remove_dir-Keeps (err _) = Keeps-pure _

    remove_lock_dir-Keeps : Keeps (of_storage see) (remove_lock_dir storage lib game_id o)
    unfolding remove_lock_dir
    remove_lock_dir-Keeps = Keeps-call see _ _ on_remove_dir after_remove_dir-Keeps

    after_remove_json-Keeps :
        (r : Reply (Unit {0})) → Keeps (of_storage see) (after_remove_json storage lib game_id o r)
    unfolding after_remove_json
    after_remove_json-Keeps (ok u) = remove_lock_dir-Keeps
    after_remove_json-Keeps (err not_found) = remove_lock_dir-Keeps
    after_remove_json-Keeps (err _) = Keeps-pure _

    release_checked-Keeps :
        (c : LockOwnershipStatus) → Keeps (of_storage see) (release_checked storage lib game_id o c)
    unfolding release_checked
    release_checked-Keeps transport_failure = Keeps-pure _
    release_checked-Keeps absent = Keeps-pure _
    release_checked-Keeps unreadable = Keeps-pure _
    release_checked-Keeps foreign = Keeps-pure _
    release_checked-Keeps owned = Keeps-call see _ _ on_remove after_remove_json-Keeps

    pub release-Keeps : Keeps (of_storage see) (release_owned_upload_lock storage lib game_id o)
    unfolding release_owned_upload_lock
    release-Keeps =
        Keeps-bind _ _ (check-Keeps storage lib see on_read on_list game_id o)
          (λ c. release_checked-Keeps c.status)

module _ {S X : Type 0} (storage : Storage S) (lib : Libraries) (see : S → X)
    (on_read : (p : Text) (s : S) → see (storage.read_file p s).1 ≡ see s)
    (on_list : (p : Text) (s : S) → see (storage.list_dir p s).1 ≡ see s) (q : LockRequest)
    (on_mkdir : (s : S) → see (storage.mkdir (upload_lock_dir q.game_id) s).1 ≡ see s)
    (on_write : (b : Bytes) (s : S)
      → see (storage.write_file (upload_lock_json q.game_id) b false s).1 ≡ see s) where
  resume_readable-Keeps :
      (d : Option LockDocument) → Keeps (of_storage see) (resume_readable storage lib q d)
  unfolding resume_readable
  resume_readable-Keeps none = Keeps-pure _
  resume_readable-Keeps (some d) = Keeps-bind _ _ (Keeps-read_journal _) (λ p. Keeps-lift _)

  resume_kind-Keeps :
      (d : Option LockDocument) (k : LockInspectionKind)
      → Keeps (of_storage see) (resume_kind storage lib q d k)
  unfolding resume_kind
  resume_kind-Keeps d Inspect.transport_failure = Keeps-pure _
  resume_kind-Keeps d Inspect.readable = resume_readable-Keeps d
  resume_kind-Keeps d _ = Keeps-pure _

  resume-Keeps : Keeps (of_storage see) (resume_existing_lock storage lib q)
  unfolding resume_existing_lock resume_inspected
  resume-Keeps =
      Keeps-bind _ _ (inspect-Keeps storage lib see on_read on_list q.game_id)
        (λ i. resume_kind-Keeps i.document i.kind)

  after_write-Keeps :
      (d : LockDocument) (r : Reply (Unit {0}))
      → Keeps (of_storage see) (after_write storage lib q d r)
  unfolding after_write
  after_write-Keeps d (ok u) = Keeps-bind _ _ (Keeps-write_journal see _) (λ _. Keeps-pure _)
  after_write-Keeps d (err e) = Keeps-bind _ _ (Keeps-write_journal see _) (λ _. Keeps-pure _)

  after_mkdir-Keeps :
      (d : LockDocument) (r : Reply (Unit {0}))
      → Keeps (of_storage see) (after_mkdir storage lib q d r)
  unfolding after_mkdir
  after_mkdir-Keeps d (ok u) = Keeps-call see _ _ (on_write _) (after_write-Keeps d)
  after_mkdir-Keeps d (err capability) = Keeps-pure _
  after_mkdir-Keeps d (err already_exists) = resume-Keeps
  after_mkdir-Keeps d (err wrong_kind) = Keeps-pure _
  after_mkdir-Keeps d (err _) = Keeps-pure _

  make_lock-Keeps : Keeps (of_storage see) (make_lock storage lib q)
  unfolding make_lock
  make_lock-Keeps =
      Keeps-bind _ _ (Keeps-lift _) (λ d. Keeps-call see _ _ on_mkdir (after_mkdir-Keeps d))

  pub acquire-Keeps : Keeps (of_storage see) (acquire_or_resume_upload_lock storage lib q)
  unfolding acquire_or_resume_upload_lock
  acquire-Keeps = Keeps-bind _ _ (Keeps-ensure _) (λ _.
      Keeps-bind _ _ (Keeps-read_storage _) (λ b. Keeps-if b _ _ make_lock-Keeps (Keeps-pure _)))
