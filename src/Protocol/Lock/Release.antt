-- ===== src/Protocol/Lock/Release.antt =====
-- protocol/lock.py: `check_lock_ownership` and `release_owned_upload_lock`.
use civ4_turn_relay.Prelude.{if◌then◌else◌, Bool, true, false, Option, none, some, Text}
use civ4_turn_relay.Domain.Libraries.{Libraries}
use civ4_turn_relay.Storage.Port.{Storage, Reply, ok, err, not_found}
use civ4_turn_relay.Protocol.Action.{Action, pure, lift, call, ◌>>=◌}
use civ4_turn_relay.Protocol.Paths.{upload_lock_dir, upload_lock_json}
use civ4_turn_relay.Protocol.Lock.Document.{LockDocument, Owner, matches_owner}
use civ4_turn_relay.Protocol.Lock.Inspect.{LockInspection, inspect_upload_lock}
use civ4_turn_relay.Protocol.Lock.Inspect

pub data LockOwnershipStatus : Type 0 where
  owned foreign absent unreadable transport_failure : LockOwnershipStatus

pub record LockOwnershipCheck : Type 0 where
  pub status : LockOwnershipStatus
  pub document : Option LockDocument

-- `LockOwnershipCheck(status)`
abbrev pub unseen : LockOwnershipStatus → LockOwnershipCheck
unseen status = record { status = status; document = none }

-- An inspection's document, held against the owner.
unfoldable pub owner_check : Owner → Option LockDocument → Option LockOwnershipCheck
owner_check o none = some (unseen unreadable)
owner_check o (some document) = elim (matches_owner document o) [
  | none ↦ none
  | some mine ↦ some (record { status = if mine then owned else foreign; document = some document })
]

unfoldable pub classify_ownership : Owner → LockInspection → Option LockOwnershipCheck
classify_ownership o i = elim i.kind [
  | Inspect.transport_failure ↦ some (unseen transport_failure)
  | Inspect.absent ↦ some (unseen absent)
  | Inspect.readable ↦ owner_check o i.document
  | _ ↦ some (unseen unreadable)
]

pub data LockReleaseOutcome : Type 0 where
  released absent_lock not_owned unreadable_lock transport_failed : LockReleaseOutcome

-- `LockReleaseResult.ambiguous`
unfoldable pub is_ambiguous : LockReleaseOutcome → Bool
is_ambiguous transport_failed = true
is_ambiguous _ = false

module _ {S : Type 0} (storage : Storage S) (lib : Libraries) (game_id : Text) (o : Owner) where
  unfoldable pub check_lock_ownership : Action S LockOwnershipCheck
  check_lock_ownership =
      inspect_upload_lock storage lib game_id >>= λ i. lift (classify_ownership o i)

  unfoldable pub after_remove_dir : Reply (Unit {0}) → Action S LockReleaseOutcome
  after_remove_dir (ok _) = pure released
  after_remove_dir (err not_found) = pure absent_lock
  after_remove_dir (err _) = pure transport_failed

  unfoldable pub remove_lock_dir : Action S LockReleaseOutcome
  remove_lock_dir = call (storage.remove_dir (upload_lock_dir game_id)) after_remove_dir

  unfoldable pub after_remove_json : Reply (Unit {0}) → Action S LockReleaseOutcome
  after_remove_json (ok _) = remove_lock_dir
  after_remove_json (err not_found) = remove_lock_dir
  after_remove_json (err _) = pure transport_failed

  unfoldable pub release_checked : LockOwnershipStatus → Action S LockReleaseOutcome
  release_checked transport_failure = pure transport_failed
  release_checked absent = pure absent_lock
  release_checked unreadable = pure unreadable_lock
  release_checked foreign = pure not_owned
  release_checked owned = call (storage.remove_file (upload_lock_json game_id)) after_remove_json

  unfoldable pub release_owned_upload_lock : Action S LockReleaseOutcome
  release_owned_upload_lock = check_lock_ownership >>= λ c. release_checked c.status
