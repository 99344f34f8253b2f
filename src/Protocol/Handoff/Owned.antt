-- ===== src/Protocol/Handoff/Owned.antt =====
-- protocol/handoff.py: `_run_owned_handoff` and `_reconcile_uncertain_commit`. Each function is what
-- the source does from one storage call up to the next.
use civ4_turn_relay.Prelude.{length, if◌then◌else◌, true, Option, none, some, Text, Bytes, text_eq}
use civ4_turn_relay.Domain.Libraries.{Libraries}
use civ4_turn_relay.Domain.Manifest.{Manifest}
use civ4_turn_relay.Domain.Manifest.Codec.{to_json_bytes}
use civ4_turn_relay.Storage.Port.{Storage, Reply, ok, err, capability, transport}
use civ4_turn_relay.Storage.Verification.{
  ObjectComparisonResult, exact_match, mismatch, compare_stored_object,
}
use civ4_turn_relay.Protocol.Action.{
  Action, pure, lift, call, read_journal, write_journal, ◌>>=◌, ◌>>◌,
}
use civ4_turn_relay.Protocol.Classify
use civ4_turn_relay.Protocol.Classify.{HashClassification, classify_candidate_hash}
use civ4_turn_relay.Protocol.Journal.{evidence_for_hash, record_historical_acceptance}
use civ4_turn_relay.Protocol.Paths.{manifest, temporary_manifest}
use civ4_turn_relay.Protocol.ManifestAccess
use civ4_turn_relay.Protocol.ManifestAccess.{
  ManifestReadOutcome, ManifestReadResult, read_authoritative_manifest,
}
use civ4_turn_relay.Protocol.Lock.Release
use civ4_turn_relay.Protocol.Lock.Release.{LockOwnershipStatus, check_lock_ownership}
use civ4_turn_relay.Protocol.Handoff.Request.{
  HandoffRequest, HandoffResult, HandoffOutcome, CleanupAction, retain, terminal_release,
  success_release, committed, idempotent_ack, journal_only_ack, not_current_owner, reject_incoming,
  stale_replay, lock_ownership_lost, hard_integrity_failure, capability_failure, transport_failure,
  invalid_manifest, missing_manifest, fail, cleanup_for_result, owner_of,
}
use civ4_turn_relay.Protocol.Handoff.Plan.{
  UploadPlan, HistoryPlan, digest, upload_plan, history_plan, new_manifest,
}
use civ4_turn_relay.Protocol.Handoff.Stage.{
  read_failure, write_failure, stage_and_verify_upload, publish_or_reuse_final,
}
use civ4_turn_relay.Protocol.Handoff.Archive.{archive_or_reuse_history}

-- A result with the cleanup that it asks for.
abbrev pub Run : Type 0
Run = HandoffResult × CleanupAction

module _ {S : Type 0} (storage : Storage S) (lib : Libraries) (q : HandoffRequest) where
  -- A result that leaves the manifest alone.
  unfoldable pub stop : HandoffOutcome → Option Manifest → CleanupAction → Run
  stop outcome m cleanup = (fail outcome (digest lib q) m, cleanup)

  -- The handler after a failed call: an ambiguous failure keeps the lock.
  unfoldable pub stop_failed : HandoffOutcome → Manifest → Run
  stop_failed outcome m = stop outcome (some m) (cleanup_for_result outcome)

  -- The result of a commit.
  unfoldable pub commit_of : Manifest → Run
  commit_of new = (
    record {
      outcome = committed;
      manifest_changed = true;
      sha256 = digest lib q;
      manifest = some new;
    },
    success_release,
  )

  unfoldable pub same_game : Option Manifest → Option Manifest
  same_game none = none
  same_game (some m) = if text_eq m.game_id q.game_id then some m else none

  unfoldable pub recovered_is : Bytes → ManifestReadResult → Option Manifest
  recovered_is payload read = elim read.outcome [
    | ManifestAccess.ok ↦ elim read.raw_bytes [
      | some raw ↦ if text_eq raw payload then same_game read.manifest else none
      | none ↦ none
    ]
    | _ ↦ none
  ]

  unfoldable pub credit : ManifestReadResult → Option Manifest → Action S Run
  credit read (some m) = do
    write_journal (record_historical_acceptance q.game_id (digest lib q))
    pure (fail idempotent_ack (digest lib q) (some m), success_release)
  credit read none = pure (stop transport_failure read.manifest retain)

  -- The manifest is credited to this operation only on exact bytes.
  unfoldable pub after_recovery : Bytes → ManifestReadResult → Action S Run
  after_recovery payload read = credit read (recovered_is payload read)

  unfoldable pub reconcile_uncertain_commit : Bytes → Action S Run
  reconcile_uncertain_commit payload =
      read_authoritative_manifest storage lib q.game_id >>= after_recovery payload

  module _ (m : Manifest) where
    unfoldable pub after_replace : Manifest → Reply (Unit {0}) → Action S Run
    after_replace new (ok _) = do
      write_journal (record_historical_acceptance q.game_id (digest lib q))
      pure (commit_of new)
    after_replace new (err capability) = pure (stop capability_failure (some m) terminal_release)
    after_replace new (err transport) = reconcile_uncertain_commit (to_json_bytes lib new)
    after_replace new (err _) = pure (stop transport_failure (some m) retain)

    unfoldable pub after_ownership : Manifest → Text → LockOwnershipStatus → Action S Run
    after_ownership new temp Release.owned =
        call (storage.atomic_replace temp (manifest q.game_id)) (after_replace new)
    after_ownership new temp Release.transport_failure =
        pure (stop transport_failure (some m) retain)
    after_ownership new temp _ = pure (stop lock_ownership_lost (some m) terminal_release)

    unfoldable pub after_manifest_write : Manifest → Text → Reply (Unit {0}) → Action S Run
    after_manifest_write new temp (ok _) = do
      ownership ← check_lock_ownership storage lib q.game_id (owner_of q)
      after_ownership new temp ownership.status
    after_manifest_write new temp (err e) = pure (stop_failed (write_failure e) m)

    unfoldable pub commit_manifest : UploadPlan → HistoryPlan → Action S Run
    commit_manifest p h = do
      new ← lift (new_manifest lib q m p h.history_relative)
      temp ← lift (temporary_manifest q.game_id q.operation_id)
      call (storage.write_file temp (to_json_bytes lib new) true) (after_manifest_write new temp)

    -- A stage that failed ends the handoff.
    unfoldable pub unless_failed : Option HandoffResult → Action S Run → Action S Run
    unless_failed none next = next
    unless_failed (some r) next = pure (r, cleanup_for_result r.outcome)

    unfoldable pub archive : UploadPlan → Bytes → Action S Run
    archive p raw = do
      h ← lift (history_plan lib q m raw)
      archived ←
          archive_or_reuse_history storage lib (digest lib q) m raw h.temp_history h.history_storage
      unless_failed archived (commit_manifest p h)

    unfoldable pub after_final_check :
        UploadPlan → Bytes → Reply ObjectComparisonResult → Action S Run
    after_final_check p raw (ok exact_match) = archive p raw
    after_final_check p raw (ok mismatch) = pure (stop_failed hard_integrity_failure m)
    after_final_check p raw (err e) = pure (stop_failed (read_failure e) m)

    unfoldable pub final_check : UploadPlan → Bytes → Action S Run
    final_check p raw =
        call
          (compare_stored_object storage lib p.save_storage (length q.outgoing_bytes)
            (digest lib q))
          (after_final_check p raw)

    unfoldable pub publish : UploadPlan → Bytes → Action S Run
    publish p raw = do
      published ←
          publish_or_reuse_final storage lib (digest lib q) (length q.outgoing_bytes) p.temp_upload
            p.save_storage
      unless_failed published (final_check p raw)

    unfoldable pub upload : Text → Bytes → Action S Run
    upload extension raw = do
      p ← lift (upload_plan lib q extension m)
      staged ←
          stage_and_verify_upload storage lib (digest lib q) (length q.outgoing_bytes) p.temp_upload
            q.outgoing_bytes
      unless_failed staged (publish p raw)

    unfoldable pub after_classification : Text → Bytes → HashClassification → Action S Run
    after_classification extension raw Classify.reject_incoming =
        pure (stop reject_incoming (some m) terminal_release)
    after_classification extension raw Classify.idempotent_ack = do
      write_journal (record_historical_acceptance q.game_id (digest lib q))
      pure (stop idempotent_ack (some m) success_release)
    after_classification extension raw Classify.journal_only_ack =
        pure (stop journal_only_ack (some m) terminal_release)
    after_classification extension raw Classify.stale_replay =
        pure (stop stale_replay (some m) terminal_release)
    after_classification extension raw Classify.new_handoff_candidate =
        if text_eq m.current_player_id q.local_player_id
        then upload extension raw
        else pure (stop not_current_owner (some m) terminal_release)

    unfoldable pub classify_outgoing : Text → Bytes → Action S Run
    classify_outgoing extension raw = do
      evidence ← read_journal (evidence_for_hash q.game_id (digest lib q))
      classification ← lift (
          classify_candidate_hash (digest lib q) m.accepted_save_hashes q.local_player_id
            m.current_player_id m.last_sender_id evidence)
      after_classification extension raw classification

  unfoldable pub after_ok : Text → Option Manifest → Option Bytes → Action S Run
  after_ok extension (some m) (some raw) = classify_outgoing m extension raw
  after_ok extension _ _ = pure (stop transport_failure none retain)

  unfoldable pub after_outcome :
      Text → Option Manifest → Option Bytes → ManifestReadOutcome → Action S Run
  after_outcome extension om raw ManifestAccess.missing =
      pure (stop missing_manifest none terminal_release)
  after_outcome extension om raw ManifestAccess.invalid =
      pure (stop invalid_manifest none terminal_release)
  after_outcome extension om raw ManifestAccess.game_id_mismatch =
      pure (stop invalid_manifest none terminal_release)
  after_outcome extension om raw ManifestAccess.transport_failure =
      pure (stop transport_failure none retain)
  after_outcome extension om raw ManifestAccess.ok = after_ok extension om raw

  unfoldable pub after_manifest_read : Text → ManifestReadResult → Action S Run
  after_manifest_read extension read =
      after_outcome extension read.manifest read.raw_bytes read.outcome

  unfoldable pub run_owned_handoff : Text → Action S Run
  run_owned_handoff extension =
      read_authoritative_manifest storage lib q.game_id >>= after_manifest_read extension
