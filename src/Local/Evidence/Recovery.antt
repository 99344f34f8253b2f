-- ===== src/Local/Evidence/Recovery.antt =====
-- local/handoff_evidence.py with protocol/handoff.py: a handoff that moved the manifest is recovered.
use civ4_turn_relay.Prelude.{
  ◌+◌, length, ◌≡◌, ◌⊎◌, inl, inr, refl, true, Option, none, some, Bytes, text_eq_self,
}
use civ4_turn_relay.Domain.Libraries.{Libraries, JsonReadsBack}
use civ4_turn_relay.Domain.Manifest.{Manifest}
use civ4_turn_relay.Domain.Manifest.Codec.{from_json_bytes, to_json_bytes}
use civ4_turn_relay.Domain.Manifest.RoundTrip.{from_json_bytes-to_json_bytes}
use civ4_turn_relay.Storage.Port.{Storage}
use civ4_turn_relay.Storage.Laws.{StorageLaws}
use civ4_turn_relay.Protocol.Action.{World}
use civ4_turn_relay.Protocol.Paths.{manifest}
use civ4_turn_relay.Protocol.Handoff.Request.{
  HandoffRequest, HandoffResult, request_valid, idempotent_ack, owner_of,
}
use civ4_turn_relay.Prelude.Dict.{lookup}
use civ4_turn_relay.Protocol.Journal.{Journal, InProgressHandoff}
use civ4_turn_relay.Protocol.Lock.Acquire.{LockAcquireResult, acquire_or_resume_upload_lock}
use civ4_turn_relay.Protocol.Lock.Progress.{IsOwn, IsRecord, IsRecorded}
use civ4_turn_relay.Protocol.Lock.Recorded.{acquire-IsRecorded}
use civ4_turn_relay.Protocol.Handoff.Unlocked.{IsUnlocked, commit-unlocked}
use civ4_turn_relay.Protocol.Handoff.Plan
use civ4_turn_relay.Protocol.Handoff.Plan.{digest}
use civ4_turn_relay.Protocol.Handoff.Commit.{lock_request, commit_handoff}
use civ4_turn_relay.Protocol.Handoff.Effect.{
  IsSuccessor, IsStep, untouched, replaced, uncertain, unchanged, stepped, FinalClaims, EffectOf,
}
use civ4_turn_relay.Protocol.Handoff.Effect.Commit.{commit_handoff-Effect}
use civ4_turn_relay.Local.Evidence.{
  HandoffEvidence, JournalOwner, Operation, evidence_of, operation_of, size_of,
  attribute_journal_against_manifest,
}
use civ4_turn_relay.Local.Evidence.Successor.{evidence, source_lem, size_lem, attributed}

-- The evidence of the request's own operation, in the step to the manifest `new`.
pub record IsOfRequest (lib : Libraries) (q : HandoffRequest) (new : Manifest) (e : HandoffEvidence)
    : Type 0 where
  pub outcome : e.outcome ≡ idempotent_ack
  pub game : e.game_id ≡ q.game_id
  pub operation : e.operation_id ≡ q.operation_id
  pub player : e.local_player_id ≡ q.local_player_id
  pub digest : e.sha256 ≡ lib.sha256_hexdigest q.outgoing_bytes
  pub size : e.size_bytes ≡ length q.outgoing_bytes
  pub result : e.result_protocol_sequence ≡ new.protocol_sequence
  pub source : e.result_protocol_sequence ≡ e.source_protocol_sequence + 1

-- What the reconciliation of the journal passes on of a record in progress, for a match of the game
-- and the player.
abbrev pub operation_in : HandoffRequest → InProgressHandoff → Operation
operation_in q p = record {
  game_id = q.game_id;
  operation_id = p.operation_id;
  local_player_id = q.local_player_id;
  sha256 = p.sha256;
}

abbrev pub owner_in : InProgressHandoff → JournalOwner
owner_in p = record { client_id = p.client_id; player_id = p.player_id; game_id = p.game_id }

module _ {S : Type 0} (storage : Storage S) (lib : Libraries) (q : HandoffRequest) where
  -- The journal's record of the match, once the lock is taken, attributes the new manifest.
  abbrev pub IsAttributed : Journal → Manifest → Type 0
  IsAttributed j new =
      (p : InProgressHandoff) × (lookup q.game_id j.in_progress ≡ some p)
      × ((e : HandoffEvidence) × (attribute_journal_against_manifest new (operation_in q p)
              q.client_id (size_of new.accepted_save) p.protocol_sequence (owner_in p)
            ≡ some (some e))
          × (IsOfRequest lib q new e))

  -- The file is as it was, or holds a manifest that the journal is attributed to.
  abbrev pub IsRecoverable : Journal → Option Bytes → Option Bytes → Type 0
  IsRecoverable j before after =
      (after ≡ before)
      ⊎ ((new : Manifest) × ((b : Bytes) × (after ≡ some b) × (from_json_bytes lib b ≡ some new))
          × (IsAttributed j new))

  module _ (m new : Manifest) (s : IsSuccessor lib q m new)
      (valid : request_valid lib q ≡ true) where
    evidence-IsOfRequest : IsOfRequest lib q new (evidence lib q m new s valid)
    unfolding evidence evidence_of operation_of
    evidence-IsOfRequest = record {
      outcome = refl;
      game = refl;
      operation = refl;
      player = refl;
      digest = refl;
      size = s.size_of_save;
      result = refl;
      source = s.sequence;
    }

    record-recovered :
        (p : InProgressHandoff)
        → IsRecord (lock_request storage lib q) p
        → attribute_journal_against_manifest new
            (operation_in q p)
            q.client_id
            (size_of new.accepted_save)
            p.protocol_sequence
            (owner_in p)
          ≡ some (some (evidence lib q m new s valid))
    unfolding attribute_journal_against_manifest operation_of lock_request owner_of Plan.digest
    record-recovered p r =
        rw
          (
            r.game,
            r.operation,
            r.client,
            r.player,
            r.digest,
            r.unknown,
            source_lem lib q m new s valid,
            size_lem lib q m new s valid,
            text_eq_self q.game_id,
            text_eq_self q.local_player_id,
            text_eq_self q.client_id,
          )
          (attributed lib q m new s valid)

  module _ (back : JsonReadsBack lib) (valid : request_valid lib q ≡ true) (j : Journal)
      (p : InProgressHandoff) (l : lookup q.game_id j.in_progress ≡ some p)
      (r : IsRecord (lock_request storage lib q) p) where
    step-IsRecoverable :
        (new : Manifest) (before after : Option Bytes)
        → IsStep lib q new
        → after ≡ some (to_json_bytes lib new)
        → IsRecoverable j before after
    step-IsRecoverable new before after step e = inr (
      new,
      (to_json_bytes lib new, e, from_json_bytes-to_json_bytes lib new back step.successor.valid),
      (
        p,
        l,
        (
          evidence lib q step.old new step.successor valid,
          record-recovered step.old new step.successor valid p r,
          evidence-IsOfRequest step.old new step.successor valid,
        ),
      ),
    )

    EffectOf-IsRecoverable :
        (o : Option HandoffResult) (before after : Option Bytes)
        → EffectOf lib q (FinalClaims lib q) o before after
        → IsRecoverable j before after
    EffectOf-IsRecoverable none before after (unchanged e) = inl e
    EffectOf-IsRecoverable none before after (stepped new step e) =
        step-IsRecoverable new _ _ step e
    EffectOf-IsRecoverable (some o) before after (untouched n c e) = inl e
    EffectOf-IsRecoverable (some o) before after (replaced new k c m step e) =
        step-IsRecoverable new _ _ step e
    EffectOf-IsRecoverable (some o) before after (uncertain new u c step e) =
        step-IsRecoverable new _ _ step e

module _ {S : Type 0} (storage : Storage S) (laws : StorageLaws storage) (lib : Libraries)
    (q : HandoffRequest) (w : World S) where
  abbrev IsKept : Type 0
  IsKept =
      laws.file (commit_handoff storage lib q w).1.storage (manifest q.game_id)
      ≡ laws.file w.storage (manifest q.game_id)

  -- A manifest that changed was changed under the lock, and with its record.
  unlocked_or_recorded :
      (o : Option LockAcquireResult) (j : Journal)
      → IsRecorded (lock_request storage lib q) o j
      → (IsUnlocked o → IsKept)
      → IsKept
        ⊎ ((p : InProgressHandoff) × (lookup (lock_request storage lib q).game_id j.in_progress
              ≡ some p)
            × (IsRecord (lock_request storage lib q) p))
  unlocked_or_recorded none j r k = inl (k tt)
  unlocked_or_recorded (some o) j (inl n) k = inl (k n)
  unlocked_or_recorded (some o) j (inr r) k = inr r

-- Over any adapter with the storage laws, libraries where json.loads reads back what json.dumps wrote,
-- a valid request, and a journal whose record of the match, where it has one, names the match and no
-- sequence: a run of `commit_handoff` that changes the authoritative manifest leaves one that parses,
-- and `attribute_journal_against_manifest` attributes it with the record that the journal holds when
-- the lock is acquired or resumed. The evidence has the request's game, operation and player, the
-- digest and the length of the outgoing bytes, and the manifest's sequence as the one after its
-- source. This holds whatever the run reports, also where it raises, reports a transport failure or
-- cannot release its lock.
pub commit_handoff-IsRecoverable :
    {S : Type 0} (storage : Storage S) (laws : StorageLaws storage) (lib : Libraries)
    (q : HandoffRequest) (w : World S)
    → JsonReadsBack lib
    → request_valid lib q ≡ true
    → IsOwn (lock_request storage lib q) w.journal
    → IsRecoverable storage lib q
        (acquire_or_resume_upload_lock storage lib (lock_request storage lib q) w).1.journal
        (laws.file w.storage (manifest q.game_id))
        (laws.file (commit_handoff storage lib q w).1.storage (manifest q.game_id))
unfolding lock_request
commit_handoff-IsRecoverable storage laws lib q w back valid own =
    elim (unlocked_or_recorded storage laws lib q w _ _
      (acquire-IsRecorded storage lib (lock_request storage lib q) w own)
      (commit-unlocked storage laws lib q w)) [
        | inl e ↦ inl e
        | inr (p, l, r) ↦
            EffectOf-IsRecoverable storage lib q back valid
              (acquire_or_resume_upload_lock storage lib (lock_request storage lib q) w).1.journal p
              l r _ _ _ (commit_handoff-Effect storage laws lib q w)
      ]
