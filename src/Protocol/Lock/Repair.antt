-- ===== src/Protocol/Lock/Repair.antt =====
-- protocol/lock.py: `preview_lock_repair` and `repair_abandoned_upload_lock`. A preview is the game and
-- an inspection; an audit event is the flags, the observation and the reason, where the source copies
-- the members of the observed document.
use civ4_turn_relay.Prelude.{
  ℕ, ◌==◌, if◌then◌else◌, Bool, true, false, not, ◌&&◌, Option, none, some, List, [], ◌∷◌, Text,
  Bytes, codes, text_eq,
}
use civ4_turn_relay.Domain.Libraries.{Libraries}
use civ4_turn_relay.Domain.Ids.{validate_game_id}
use civ4_turn_relay.Storage.Port.{
  Storage, StorageEntry, StorageError, Reply, ok, err, not_found, not_empty, wrong_kind,
}
use civ4_turn_relay.Protocol.Action.{Action, pure, call, ensure, ◌>>=◌, ◌>>◌}
use civ4_turn_relay.Protocol.Paths.{upload_lock_dir, upload_lock_json}
use civ4_turn_relay.Protocol.Lock.Document.{LockDocument}
use civ4_turn_relay.Protocol.Lock.Inspect.{
  LockInspection, LockInspectionKind, readable, missing_lock_json, malformed, wrong_kind_lock,
  LockWrongKindTarget, upload_lock, lock_json, same_listing, inspection_valid, inspect_upload_lock,
}
use civ4_turn_relay.Protocol.Lock.Inspect

pub record LockRepairPreview : Type 0 where
  pub game_id : Text
  pub seen : LockInspection

pub data LockRepairOutcome : Type 0 where
  removed not_confirmed absent changed unreadable transport_failure not_repairable
        manual_repair_required :
      LockRepairOutcome

pub record LockRepairAuditEvent : Type 0 where
  pub game_id : Text
  pub confirmed : Bool
  pub removed_lock : Bool
  pub observation : LockInspection
  pub reason : Text

pub record LockRepairResult : Type 0 where
  pub outcome : LockRepairOutcome
  pub audit : LockRepairAuditEvent

-- `a == b` of optional documents, bytes and listings.
same_document : Option LockDocument → Option LockDocument → Bool
same_document none none = true
same_document (some a) (some b) =
    text_eq a.operation_id b.operation_id
    && text_eq a.client_id b.client_id
    && text_eq a.player_id b.player_id
    && text_eq a.created_at b.created_at
    && text_eq a.expires_at b.expires_at
same_document _ _ = false

same_bytes : Option Bytes → Option Bytes → Bool
same_bytes none none = true
same_bytes (some a) (some b) = text_eq a b
same_bytes _ _ = false

same_listings : Option (List StorageEntry) → Option (List StorageEntry) → Bool
same_listings none none = true
same_listings (some a) (some b) = same_listing a b
same_listings _ _ = false

same_target : Option LockWrongKindTarget → Option LockWrongKindTarget → Bool
same_target none none = true
same_target (some upload_lock) (some upload_lock) = true
same_target (some lock_json) (some lock_json) = true
same_target _ _ = false

abbrev kind_index : LockInspectionKind → ℕ
kind_index Inspect.absent = 0
kind_index readable = 1
kind_index missing_lock_json = 2
kind_index malformed = 3
kind_index wrong_kind_lock = 4
kind_index Inspect.transport_failure = 5

-- What must agree beside the kind.
unfoldable pub same_evidence : LockInspectionKind → LockInspection → LockInspection → Bool
unfolding same_document same_bytes same_listings same_target
same_evidence readable p c =
    same_document p.document c.document && same_bytes p.raw_bytes c.raw_bytes
same_evidence malformed p c = same_bytes p.raw_bytes c.raw_bytes
same_evidence missing_lock_json p c = true
same_evidence wrong_kind_lock p c =
    same_target p.wrong_kind_target c.wrong_kind_target && elim p.wrong_kind_target [
      | some upload_lock ↦ same_bytes p.raw_bytes c.raw_bytes
      | _ ↦ same_listings p.wrong_kind_dir_listing c.wrong_kind_dir_listing
    ]
same_evidence _ p c = false

-- `_preview_matches_inspection`
unfoldable pub preview_matches_inspection : LockInspection → LockInspection → Bool
preview_matches_inspection p c = kind_index p.kind == kind_index c.kind && same_evidence p.kind p c

module _ {S : Type 0} (storage : Storage S) (lib : Libraries) where
  unfoldable pub preview_lock_repair : Text → Action S LockRepairPreview
  preview_lock_repair game_id = do
    i ← inspect_upload_lock storage lib game_id
    ensure (validate_game_id game_id && inspection_valid i)
    pure (record { game_id = game_id; seen = i })

  module _ (preview : LockRepairPreview) (confirmed : Bool) where
    -- `LockRepairResult(outcome, _audit(removed=…, reason=…, observation=…))`
    abbrev pub repair_result : LockRepairOutcome → Bool → Text → LockInspection → LockRepairResult
    repair_result outcome flag reason observation = record {
      outcome = outcome;
      audit = record {
        game_id = preview.game_id;
        confirmed = confirmed;
        removed_lock = flag;
        observation = observation;
        reason = reason;
      };
    }

    unfoldable pub refuse : LockRepairOutcome → Text → LockInspection → Action S LockRepairResult
    refuse outcome reason observation = pure (repair_result outcome false reason observation)

    -- The lock is inspected once more for the audit.
    unfoldable pub changed_since : Text → Action S LockRepairResult
    changed_since reason = inspect_upload_lock storage lib preview.game_id >>= refuse changed reason

    -- The handlers of `_repair_wrong_kind_structure`.
    unfoldable pub wrong_kind_failed : LockInspection → StorageError → Action S LockRepairResult
    wrong_kind_failed current not_empty =
        refuse manual_repair_required (codes "wrong_kind_not_empty") current
    wrong_kind_failed current wrong_kind = changed_since (codes "wrong_kind_structure_changed")
    wrong_kind_failed current _ = refuse transport_failure (codes "removal_failed") current

    unfoldable pub after_lock_dir :
        LockInspection → Text → Reply (Unit {0}) → Action S LockRepairResult
    after_lock_dir current reason (ok _) = pure (repair_result removed true reason current)
    after_lock_dir current reason (err e) = wrong_kind_failed current e

    unfoldable pub after_json_dir : LockInspection → Reply (Unit {0}) → Action S LockRepairResult
    after_json_dir current (ok _) =
        call (storage.remove_dir (upload_lock_dir preview.game_id))
          (after_lock_dir current (codes "removed_wrong_kind_lock_json_directory"))
    after_json_dir current (err e) = wrong_kind_failed current e

    unfoldable pub repair_lock_json :
        LockInspection → Option (List StorageEntry) → Action S LockRepairResult
    repair_lock_json current none =
        refuse manual_repair_required (codes "wrong_kind_listing_missing") current
    repair_lock_json current (some (_ ∷ _)) =
        refuse manual_repair_required (codes "lock_json_directory_not_empty") current
    repair_lock_json current (some []) =
        call (storage.remove_dir (upload_lock_json preview.game_id)) (after_json_dir current)

    unfoldable pub repair_wrong_kind_structure :
        LockInspection → Option LockWrongKindTarget → Action S LockRepairResult
    repair_wrong_kind_structure current (some upload_lock) =
        call (storage.remove_file (upload_lock_dir preview.game_id))
          (after_lock_dir current (codes "removed_wrong_kind_upload_lock_file"))
    repair_wrong_kind_structure current (some lock_json) =
        repair_lock_json current current.wrong_kind_dir_listing
    repair_wrong_kind_structure current none =
        refuse manual_repair_required (codes "wrong_kind_not_safely_repairable") current

    unfoldable pub after_dir : LockInspection → Reply (Unit {0}) → Action S LockRepairResult
    after_dir current (ok _) = pure (repair_result removed true (codes "removed") current)
    after_dir current (err _) = refuse transport_failure (codes "removal_failed") current

    unfoldable pub remove_dir_of : LockInspection → Action S LockRepairResult
    remove_dir_of current =
        call (storage.remove_dir (upload_lock_dir preview.game_id)) (after_dir current)

    -- The kinds of the preview and of the inspection agree here, so a file that is not found is a
    -- change.
    unfoldable pub after_json : LockInspection → Reply (Unit {0}) → Action S LockRepairResult
    after_json current (ok _) = remove_dir_of current
    after_json current (err not_found) = changed_since (codes "lock_json_disappeared")
    after_json current (err _) = refuse transport_failure (codes "removal_failed") current

    -- The last argument of the next four is the kind of the observation.
    unfoldable pub repair_matched : LockInspection → LockInspectionKind → Action S LockRepairResult
    repair_matched current wrong_kind_lock =
        repair_wrong_kind_structure current current.wrong_kind_target
    repair_matched current missing_lock_json = remove_dir_of current
    repair_matched current _ =
        call (storage.remove_file (upload_lock_json preview.game_id)) (after_json current)

    unfoldable pub repair_current : LockInspection → LockInspectionKind → Action S LockRepairResult
    repair_current current Inspect.transport_failure =
        refuse transport_failure (codes "transport_failure") current
    repair_current current kind =
        if preview_matches_inspection preview.seen current
        then repair_matched current kind
        else refuse changed (codes "lock_observation_changed") current

    unfoldable pub repair_absent : LockInspection → LockInspectionKind → Action S LockRepairResult
    repair_absent current Inspect.absent = refuse absent (codes "lock_absent") current
    repair_absent current _ = refuse changed (codes "lock_appeared") current

    unfoldable pub repair_confirmed : LockInspectionKind → Action S LockRepairResult
    repair_confirmed Inspect.transport_failure =
        refuse not_repairable (codes "transport_failure_not_repairable") preview.seen
    repair_confirmed Inspect.absent = do
      current ← inspect_upload_lock storage lib preview.game_id
      repair_absent current current.kind
    repair_confirmed _ = do
      current ← inspect_upload_lock storage lib preview.game_id
      repair_current current current.kind

    unfoldable pub repair_abandoned_upload_lock : Action S LockRepairResult
    repair_abandoned_upload_lock =
        if not confirmed
        then refuse not_confirmed (codes "confirmation_required") preview.seen
        else repair_confirmed preview.seen.kind
