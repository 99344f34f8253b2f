-- ===== src/Protocol/Handoff/Effect/Upload.antt =====
-- protocol/handoff.py: the effect on the manifest from the upload on, stage by stage, from the last
-- one to the first.
use civ4_turn_relay.Prelude.{◌≡◌, ◌≢◌, refl, Option, none, some, Text, Bytes, arith, length}
use civ4_turn_relay.Domain.Libraries.{Libraries}
use civ4_turn_relay.Domain.Manifest.{Manifest}
use civ4_turn_relay.Storage.Port.{Storage, Reply, ok, err}
use civ4_turn_relay.Storage.Verification.{ObjectComparisonResult, exact_match, mismatch}
use civ4_turn_relay.Storage.Laws.{StorageLaws}
use civ4_turn_relay.Protocol.Action.{Action, pure}
use civ4_turn_relay.Protocol.Action.Ensures.{
  Ensures, Ensures-pure, Ensures-bind_such, Ensures-lift, Ensures-call,
}
use civ4_turn_relay.Protocol.Paths.{manifest}
use civ4_turn_relay.Protocol.Paths.Distinct.{Begins-ne, temporary_manifest-Begins, manifest-Begins}
use civ4_turn_relay.Protocol.Handoff.Request
use civ4_turn_relay.Protocol.Handoff.Request.{HandoffRequest, HandoffResult, cleanup_for_result}
use civ4_turn_relay.Protocol.Handoff.Plan.{
  digest, UploadPlan, HistoryPlan, upload_plan, history_plan,
}
use civ4_turn_relay.Protocol.Handoff.Stage.{stage_and_verify_upload, publish_or_reuse_final}
use civ4_turn_relay.Protocol.Handoff.Archive.{archive_or_reuse_history}
use civ4_turn_relay.Protocol.Handoff.Keeps.{compare-same, stage-Keeps, publish-Keeps, archive-Keeps}
use civ4_turn_relay.Protocol.Handoff.Failures.{
  read_failure-ne, IsHarmless, harmless, stage-FailsSafe, publish-FailsSafe, archive-FailsSafe,
}
use civ4_turn_relay.Protocol.Handoff.Owned.{
  Run, stop_failed, commit_manifest, unless_failed, archive, after_final_check, final_check,
  publish, upload,
}
use civ4_turn_relay.Protocol.Handoff.Effect.{untouched, unchanged}
use civ4_turn_relay.Protocol.Handoff.Effect.Replace.{RunEffect, on_read}
use civ4_turn_relay.Protocol.Handoff.Effect.Owned.{view, stop-Ensures, written-Ensures}
use civ4_turn_relay.Protocol.Handoff.Effect.Step.{
  IsTurn, planned-IsStep, upload_plan-apart, history_plan-apart,
}

module _ {S : Type 0} (storage : Storage S) (laws : StorageLaws storage) (lib : Libraries)
    (q : HandoffRequest) where
  abbrev seen : S → Option Bytes
  seen = view storage laws lib q

  -- A run of this section.
  abbrev HasEffect : Action S Run → Type 0
  HasEffect = Ensures seen (RunEffect lib q)

  failed-Ensures :
      (m : Manifest) (o : Request.HandoffOutcome)
      → o ≢ Request.committed
      → HasEffect (pure (stop_failed storage lib q o m))
  unfolding stop_failed
  failed-Ensures m o n = stop-Ensures storage laws lib q o (some m) (cleanup_for_result o) n

  module _ (m : Manifest) (raw : Bytes) (turn : IsTurn lib q m raw) where
    commit_manifest-Ensures :
        (p : UploadPlan) (h : HistoryPlan) (ext : Text)
        → upload_plan lib q ext m ≡ some p
        → history_plan lib q m raw ≡ some h
        → HasEffect (commit_manifest storage lib q m p h)
    unfolding commit_manifest
    commit_manifest-Ensures p h ext up hp =
        Ensures-lift _ _ (λ x. unchanged refl)
          (λ new nm.
            Ensures-lift _ _ (λ x. unchanged refl)
              (λ temp e.
                written-Ensures storage laws lib q m new temp
                  (planned-IsStep lib q m new raw ext p h turn up hp nm)
                  (Begins-ne q.game_id b't' b'm' temp (manifest q.game_id) (λ e. ground arith)
                    (temporary_manifest-Begins q.game_id q.operation_id temp e)
                    (manifest-Begins q.game_id))))

    unless_failed-Ensures :
        (r : Option HandoffResult) (next : Action S Run)
        → IsHarmless r
        → HasEffect next
        → HasEffect (unless_failed storage lib q m r next)
    unfolding unless_failed
    unless_failed-Ensures none next h k = k
    unless_failed-Ensures (some r) next h k = Ensures-pure _ (λ x. untouched h.0 h.1 refl)

    archive-Ensures :
        (p : UploadPlan) (ext : Text)
        → upload_plan lib q ext m ≡ some p
        → HasEffect (archive storage lib q m p raw)
    unfolding archive
    archive-Ensures p ext up =
        Ensures-lift _ _ (λ x. unchanged refl)
          (λ h hp.
            Ensures-bind_such IsHarmless
              (archive_or_reuse_history storage lib (digest lib q) m raw h.temp_history
                h.history_storage)
              _
              (archive-Keeps storage lib seen (λ a. on_read storage laws lib q a) h.temp_history
                h.history_storage
                (λ b o s.
                  laws.file-write_ne h.temp_history (manifest q.game_id) b o s
                    (history_plan-apart lib q m raw h hp).0)
                (λ s.
                  laws.file-publish_ne h.temp_history h.history_storage (manifest q.game_id) s
                    (history_plan-apart lib q m raw h hp).0 (history_plan-apart lib q m raw h hp).1)
                (digest lib q) m raw)
              (harmless
                (archive_or_reuse_history storage lib (digest lib q) m raw h.temp_history
                  h.history_storage)
                (archive-FailsSafe storage lib h.temp_history h.history_storage (digest lib q) m
                  raw))
              (λ x. unchanged refl)
              (λ r k. unless_failed-Ensures r _ k (commit_manifest-Ensures p h ext up hp)))

    after_final_check-Ensures :
        (p : UploadPlan) (ext : Text)
        → upload_plan lib q ext m ≡ some p
        → (r : Reply ObjectComparisonResult) → HasEffect (after_final_check storage lib q m p raw r)
    unfolding after_final_check
    after_final_check-Ensures p ext up (ok exact_match) = archive-Ensures p ext up
    after_final_check-Ensures p ext up (ok mismatch) = failed-Ensures m _ (λ e. cc)
    after_final_check-Ensures p ext up (err e) = failed-Ensures m _ (read_failure-ne e)

    final_check-Ensures :
        (p : UploadPlan) (ext : Text)
        → upload_plan lib q ext m ≡ some p
        → HasEffect (final_check storage lib q m p raw)
    unfolding final_check
    final_check-Ensures p ext up =
        Ensures-call _ _
          (compare-same storage lib seen (λ a. on_read storage laws lib q a) p.save_storage _ _)
          (after_final_check-Ensures p ext up)

    publish-Ensures :
        (p : UploadPlan) (ext : Text)
        → upload_plan lib q ext m ≡ some p
        → HasEffect (publish storage lib q m p raw)
    unfolding publish
    publish-Ensures p ext up =
        Ensures-bind_such IsHarmless
          (publish_or_reuse_final storage lib (digest lib q) (length q.outgoing_bytes) p.temp_upload
            p.save_storage)
          _
          (publish-Keeps storage lib seen (λ a. on_read storage laws lib q a) p.temp_upload
            p.save_storage
            (λ b o s.
              laws.file-write_ne p.temp_upload (manifest q.game_id) b o s
                (upload_plan-apart lib q m ext p up).0)
            (λ s.
              laws.file-publish_ne p.temp_upload p.save_storage (manifest q.game_id) s
                (upload_plan-apart lib q m ext p up).0 (upload_plan-apart lib q m ext p up).1)
            (digest lib q) (length q.outgoing_bytes))
          (harmless
            (publish_or_reuse_final storage lib (digest lib q) (length q.outgoing_bytes)
              p.temp_upload p.save_storage)
            (publish-FailsSafe storage lib p.temp_upload p.save_storage (digest lib q)
              (length q.outgoing_bytes)))
          (λ x. unchanged refl) (λ r k. unless_failed-Ensures r _ k (final_check-Ensures p ext up))

    pub upload-Ensures : (ext : Text) → HasEffect (upload storage lib q m ext raw)
    unfolding upload
    upload-Ensures ext =
        Ensures-lift _ _ (λ x. unchanged refl)
          (λ p up.
            Ensures-bind_such IsHarmless
              (stage_and_verify_upload storage lib (digest lib q) (length q.outgoing_bytes)
                p.temp_upload q.outgoing_bytes)
              _
              (stage-Keeps storage lib seen (λ a. on_read storage laws lib q a) p.temp_upload
                p.save_storage
                (λ b o s.
                  laws.file-write_ne p.temp_upload (manifest q.game_id) b o s
                    (upload_plan-apart lib q m ext p up).0)
                (λ s.
                  laws.file-publish_ne p.temp_upload p.save_storage (manifest q.game_id) s
                    (upload_plan-apart lib q m ext p up).0 (upload_plan-apart lib q m ext p up).1)
                (digest lib q) (length q.outgoing_bytes) q.outgoing_bytes)
              (harmless
                (stage_and_verify_upload storage lib (digest lib q) (length q.outgoing_bytes)
                  p.temp_upload q.outgoing_bytes)
                (stage-FailsSafe storage lib p.temp_upload p.save_storage (digest lib q)
                  (length q.outgoing_bytes) q.outgoing_bytes))
              (λ x. unchanged refl) (λ r k. unless_failed-Ensures r _ k (publish-Ensures p ext up)))
