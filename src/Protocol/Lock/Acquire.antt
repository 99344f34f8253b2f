-- ===== src/Protocol/Lock/Acquire.antt =====
-- protocol/lock.py: `acquire_or_resume_upload_lock`.
use civ4_turn_relay.Prelude.{
  if◌then◌else◌, Bool, true, false, ◌&&◌, Option, none, some, Text, text_eq,
}
use civ4_turn_relay.Domain.Libraries.{Libraries}
use civ4_turn_relay.Domain.Ids.{
  validate_game_id, validate_operation_id, validate_client_id, validate_player_id,
  validate_utc_timestamp,
}
use civ4_turn_relay.Storage.Port.{Storage, Reply, ok, err, already_exists, wrong_kind, capability}
use civ4_turn_relay.Protocol.Action.{
  Action, pure, lift, call, ensure, read_storage, read_journal, write_journal, ◌>>=◌, ◌>>◌,
}
use civ4_turn_relay.Protocol.Journal.{InProgressHandoff, begin_handoff, in_progress_handoff}
use civ4_turn_relay.Protocol.Paths.{upload_lock_dir, upload_lock_json}
use civ4_turn_relay.Protocol.Lock.Document.{
  LockDocument, Owner, matches_owner, build_lock_document, to_json_bytes,
}
use civ4_turn_relay.Protocol.Lock.Inspect.{LockInspectionKind, LockInspection, inspect_upload_lock}
use civ4_turn_relay.Protocol.Lock.Inspect

pub data LockAcquireOutcome : Type 0 where
  acquired resumed foreign_held unreadable capability_failure transport_failure : LockAcquireOutcome

pub record LockAcquireResult : Type 0 where
  pub outcome : LockAcquireOutcome
  pub document : Option LockDocument
  pub owned : Bool

-- `LockAcquireResult(outcome)`
abbrev pub refused : LockAcquireOutcome → LockAcquireResult
refused outcome = record { outcome = outcome; document = none; owned = false }

abbrev pub held_by : LockAcquireOutcome → LockDocument → Bool → LockAcquireResult
held_by outcome document owned = record {
  outcome = outcome;
  document = some document;
  owned = owned;
}

-- The arguments: the game, the owner, the time and the digest of the outgoing save.
pub record LockRequest : Type 0 where
  pub game_id : Text
  pub owner : Owner
  pub now_utc : Text
  pub sha256 : Text

unfoldable pub progress_record : LockRequest → InProgressHandoff
progress_record q = record {
  game_id = q.game_id;
  operation_id = q.owner.operation_id;
  client_id = q.owner.client_id;
  player_id = q.owner.player_id;
  sha256 = q.sha256;
  step_reached = none;
  protocol_sequence = none;
}

-- The journal's record agrees with the request.
unfoldable pub progress_agrees : InProgressHandoff → LockRequest → Bool
progress_agrees p q =
    text_eq p.operation_id q.owner.operation_id
    && text_eq p.client_id q.owner.client_id
    && text_eq p.player_id q.owner.player_id
    && text_eq p.sha256 q.sha256

-- `document.matches_owner` is asked only where there is a record.
unfoldable pub resume_decision :
    LockRequest → LockDocument → Option InProgressHandoff → Option LockAcquireResult
resume_decision q document none = some (held_by foreign_held document false)
resume_decision q document (some p) = elim (matches_owner document q.owner) [
  | none ↦ none
  | some mine ↦
      if mine && progress_agrees p q
      then some (held_by resumed document true)
      else some (held_by foreign_held document false)
]

module _ {S : Type 0} (storage : Storage S) (lib : Libraries) (q : LockRequest) where
  unfoldable pub resume_readable : Option LockDocument → Action S LockAcquireResult
  resume_readable none = pure (refused unreadable)
  resume_readable (some document) = do
    progress ← read_journal (in_progress_handoff q.game_id)
    lift (resume_decision q document progress)

  unfoldable pub resume_kind : Option LockDocument → LockInspectionKind → Action S LockAcquireResult
  resume_kind document Inspect.transport_failure = pure (refused transport_failure)
  resume_kind document Inspect.readable = resume_readable document
  resume_kind document _ = pure (refused unreadable)

  unfoldable pub resume_inspected : LockInspection → Action S LockAcquireResult
  resume_inspected i = resume_kind i.document i.kind

  unfoldable pub resume_existing_lock : Action S LockAcquireResult
  resume_existing_lock = inspect_upload_lock storage lib q.game_id >>= resume_inspected

  -- The attempt is journalled whether or not the write got through.
  unfoldable pub after_write : LockDocument → Reply (Unit {0}) → Action S LockAcquireResult
  after_write document (ok _) = do
    write_journal (begin_handoff (progress_record q))
    pure (held_by acquired document true)
  after_write document (err _) = do
    write_journal (begin_handoff (progress_record q))
    pure (refused transport_failure)

  unfoldable pub after_mkdir : LockDocument → Reply (Unit {0}) → Action S LockAcquireResult
  after_mkdir document (ok _) =
      call (storage.write_file (upload_lock_json q.game_id) (to_json_bytes lib document) false)
        (after_write document)
  after_mkdir document (err capability) = pure (refused capability_failure)
  after_mkdir document (err already_exists) = resume_existing_lock
  after_mkdir document (err wrong_kind) = pure (refused unreadable)
  after_mkdir document (err _) = pure (refused transport_failure)

  unfoldable pub make_lock : Action S LockAcquireResult
  make_lock = do
    document ← lift (build_lock_document lib q.owner q.now_utc)
    call (storage.mkdir (upload_lock_dir q.game_id)) (after_mkdir document)

  -- The arguments are valid.
  unfoldable pub request_valid : Bool
  request_valid =
      validate_game_id q.game_id
      && validate_operation_id q.owner.operation_id
      && validate_client_id q.owner.client_id
      && validate_player_id q.owner.player_id
      && validate_utc_timestamp lib q.now_utc

  unfoldable pub acquire_or_resume_upload_lock : Action S LockAcquireResult
  acquire_or_resume_upload_lock = do
    ensure request_valid
    able ← read_storage (λ s. (storage.capabilities s).exclusive_mkdir)
    if able then make_lock else pure (refused capability_failure)
